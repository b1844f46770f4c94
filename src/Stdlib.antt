-- ===== src/Stdlib.antt =====
-- programs/stdlib/src: the user library, as far as it does more than a system call.
pub mod Itoa
pub mod Readline
pub mod Strtok
pub mod Command
pub mod Printf
mod Tests
use alpha_os.Prelude.{
  ℕ, zero, suc, ◌+◌, ◌/◌, ◌%◌, ◌==◌, if◌then◌else◌, Option, none, some, List, [], ◌∷◌, set, drop,
  replicate, ℤ, pos, negsuc, ◌>>=◌,
}

-- The loop of itoa, with `loc` and the buffer. `value` is kept without its sign, since the source makes
-- it negative; `none` is a write before the buffer.
unfoldable pub itoa_loop : ℕ → ℕ → List ℕ → Option (ℕ × List ℕ)
itoa_loop zero value text = if value == 0 then some (0, text) else none
itoa_loop (suc loc) value text =
    let rest = itoa_loop loc (value / 10) (set text loc (b'0' + value % 10)) in
    if value == 0 then some (suc loc, text) else rest

-- `text[--loc] = c`
unfoldable pub prepend : ℕ → ℕ × List ℕ → Option (ℕ × List ℕ)
prepend c (zero, text) = none
prepend c (suc loc, text) = some (loc, set text loc c)

-- The digits and the sign.
unfoldable pub itoa_magnitude : ℕ → List ℕ → Option (ℕ × List ℕ)
unfolding itoa_loop prepend
itoa_magnitude value text = do
  r ← itoa_loop 11 value (set text 11 0)
  if r.0 == 11 then prepend b'0' r else some r

-- The bytes of the static buffer from the returned pointer on; `text` is what it held before.
unfoldable pub itoa : ℤ → List ℕ → Option (List ℕ)
unfolding itoa_magnitude prepend
itoa (pos value) text = do r ← itoa_magnitude value text; some (drop r.0 r.1)
itoa (negsuc n) text = do
  r ← itoa_magnitude (n + 1) text
  r' ← prepend b'-' r
  some (drop r'.0 r'.1)
