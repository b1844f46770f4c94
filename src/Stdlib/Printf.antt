-- ===== src/Stdlib/Printf.antt =====
-- printf of programs/stdlib/src/stdio.c. A format is its bytes and those behind them; `none` is a read
-- behind all of them, an argument that is not there or of another type, or a failure of itoa. What the
-- static buffer of itoa holds, when the arguments `args` are left, is `held args`.
pub mod Pieces
use alpha_os.Prelude.{
  ℕ, take, List, [], ◌∷◌, ◌++◌, Option, none, some, ℤ, pos, negsuc, ◌==◌, ◌%◌, ◌^◌, ◌-◌, true,
  false, not, if◌then◌else◌, ◌>>=◌, ◌||◌, Bool,
}
use alpha_os.Stdlib.{itoa}

-- An argument: an int, or a string without its NUL.
pub data Arg : Type 0 where
  int : ℤ → Arg
  string : List ℕ → Arg

unfoldable pub before_nul : List ℕ → List ℕ
before_nul [] = []
before_nul (c ∷ text) = if c == 0 then [] else c ∷ before_nul text

-- print: the system call takes at most 1023 bytes of the text.
unfoldable pub print_text : List ℕ → List ℕ
print_text text = take 1023 text

-- The low byte of an int.
unfoldable pub char_of : ℤ → ℕ
char_of (pos n) = n % 2 ^ 8
char_of (negsuc n) = 2 ^ 8 - 1 - n % 2 ^ 8

unfoldable pub decimal_step : (List Arg → List ℕ) → List Arg → Option (List ℕ × List Arg)
unfolding itoa before_nul print_text
decimal_step held [] = none
decimal_step held (string text ∷ args) = none
decimal_step held (int value ∷ args) = do
  text ← itoa value (held (int value ∷ args))
  some (print_text (before_nul text), args)

unfoldable pub string_step : List Arg → Option (List ℕ × List Arg)
unfolding print_text
string_step [] = none
string_step (string text ∷ args) = some (print_text text, args)
string_step (int value ∷ args) = none

unfoldable pub char_step : List Arg → Option (List ℕ × List Arg)
unfolding char_of
char_step [] = none
char_step (string text ∷ args) = none
char_step (int value ∷ args) = some (char_of value ∷ [], args)

-- The switch on the byte behind '%'.
unfoldable pub directive : (List Arg → List ℕ) → ℕ → List Arg → Option (List ℕ × List Arg)
unfolding decimal_step string_step char_step
directive held c args =
    if c == b'i' || c == b'd'
    then decimal_step held args
    else if c == b's'
    then string_step args
    else if c == b'c'
    then char_step args
    else some (c ∷ [], args)

-- The loop, behind '%' or not. What is printed comes byte by byte.
unfoldable pub printf_loop : (List Arg → List ℕ) → Bool → List ℕ → List Arg → Option (List ℕ)
unfolding directive
printf_loop held behind [] args = none
printf_loop held true (c ∷ format) args = do
  (out, args') ← directive held c args
  rest ← printf_loop held false format args'
  some (out ++ rest)
printf_loop held false (c ∷ format) args =
    let rest = printf_loop held (c == b'%') format args in
    if c == 0 then some [] else if c == b'%' then rest else (do out ← rest; some (c ∷ out))

unfoldable pub printf : (List Arg → List ℕ) → List ℕ → List Arg → Option (List ℕ)
unfolding printf_loop
printf held format args = printf_loop held false format args
