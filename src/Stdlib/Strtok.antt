-- ===== src/Stdlib/Strtok.antt =====
-- strtok of programs/stdlib/src/string.c over byte-addressed memory. `sp` is its static pointer, 0 for
-- NULL, and `delim` the bytes of its second argument. A loop takes fuel, and is `none` where it runs
-- out.
pub mod Words
pub mod Next
use alpha_os.Prelude.{
  ℕ, zero, suc, Bool, true, false, not, ◌&&◌, ◌==◌, if◌then◌else◌, Option, none, some, List, [],
  ◌∷◌, Ram, write, offset, ◌>>=◌,
}

-- Does the loop over the delimiters end before `len`?
unfoldable pub is_delim : ℕ → List ℕ → Bool
is_delim c [] = false
is_delim c (d ∷ delim) = if c == d then true else is_delim c delim

-- The first loop: the delimiters in front are skipped.
unfoldable pub skip_loop : ℕ → Ram → List ℕ → ℕ → Option ℕ
unfolding is_delim
skip_loop zero ram delim p_start = none
skip_loop (suc fuel) ram delim p_start =
    let rest = skip_loop fuel ram delim (offset p_start 1) in
    if is_delim (ram p_start) delim then rest else some p_start

-- The second loop: the delimiter behind the token becomes NUL.
unfoldable pub token_loop : ℕ → Ram → List ℕ → ℕ → Option (ℕ × Ram)
unfolding is_delim
token_loop zero ram delim sp = none
token_loop (suc fuel) ram delim sp =
    let rest = token_loop fuel ram delim (offset sp 1) in
    if ram sp == 0
    then some (sp, ram)
    else if is_delim (ram sp) delim
    then some (offset sp 1, write ram sp 0)
    else rest

-- The token, or 0 for NULL, with `sp` and the memory.
unfoldable pub strtok : ℕ → Ram → ℕ → ℕ → List ℕ → Option (ℕ × ℕ × Ram)
unfolding skip_loop token_loop
strtok fuel ram sp str delim = if str == 0 && sp == 0 then some (0, sp, ram) else do
  p_start ← skip_loop fuel ram delim (if not (str == 0) && sp == 0 then str else sp)
  if ram p_start == 0
      then some (0, 0, ram)
      else (do (sp', ram') ← token_loop fuel ram delim p_start; some (p_start, sp', ram'))
