-- ===== src/Stdlib/Readline.antt =====
-- Reading a line, in programs/stdlib/src/alphaos.c. `keys` is what the calls of __getkey return in
-- order, 0 where no key waits; `none` is a wait for ever, or a write outside the buffer.
pub mod Edit
use alpha_os.Prelude.{
  ℕ, zero, suc, ◌+◌, ◌-◌, ◌%◌, ◌&&◌, ◌==◌, ltb, leb, if◌then◌else◌, Option, none, some, List, [],
  ◌∷◌, set?, ◌>>=◌,
}

unfoldable pub key_loop : List ℕ → Option (ℕ × List ℕ)
key_loop [] = none
key_loop (val ∷ keys) = let rest = key_loop keys in if val == 0 then rest else some (val, keys)

-- The first key that is read is read over before it is looked at.
unfoldable pub getkeyblock : List ℕ → Option (ℕ × List ℕ)
unfolding key_loop
getkeyblock [] = none
getkeyblock (val ∷ keys) = key_loop keys

-- The loop from `i` on, with `i` and the buffer at its end; what is echoed is left out.
unfoldable pub readline_loop : ℕ → List ℕ → ℕ → ℕ → List ℕ → Option (ℕ × List ℕ)
unfolding getkeyblock
readline_loop zero keys i max out = none
readline_loop (suc fuel) keys i max out =
    if ltb (i + 1) max
    then (do
      (val, keys') ← getkeyblock keys
      let c = val % 256
      if c == 13
          then some (i, out)
          else if c == 0x08 && leb 1 i
          then (do out' ← set? out i 0; readline_loop fuel keys' (i - 1) max out')
          else (do out' ← set? out i c; readline_loop fuel keys' (i + 1) max out'))
    else some (i, out)

unfoldable pub terminal_readline : ℕ → List ℕ → ℕ → List ℕ → Option (List ℕ)
unfolding readline_loop
terminal_readline fuel keys max out = do
  (i, out') ← readline_loop fuel keys 0 max out
  set? out' i 0
