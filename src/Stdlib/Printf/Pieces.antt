-- ===== src/Stdlib/Printf/Pieces.antt =====
-- What printf of programs/stdlib/src/stdio.c prints, piece by piece of the format.
use alpha_os.Prelude.{
  take, zero, suc, ℕ, List, [], ◌∷◌, ◌++◌, some, ℤ, pos, negsuc, ◌==◌, ◌≢◌, ◌≡◌, ◌≤◌, ◌^◌, refl, ap,
  false, length, All, arith,
}
use alpha_os.Stdlib.Itoa.{magnitude, sign, IsDecimal, IsDigit, itoa_lem}
use alpha_os.Stdlib.Printf.{
  Arg, int, string, before_nul, print_text, char_of, decimal_step, string_step, char_step,
  directive, printf_loop, printf,
}

-- A byte that stands for itself, "%%", "%d", "%s" and "%c".
pub data Piece : Type 0 where
  literal : ℕ → Piece
  percent : Piece
  number : ℤ → Piece
  chars : List ℕ → Piece
  char : ℤ → Piece

abbrev pub format_of : List Piece → List ℕ
format_of [] = []
format_of (literal c ∷ pieces) = c ∷ format_of pieces
format_of (percent ∷ pieces) = b'%' ∷ b'%' ∷ format_of pieces
format_of (number value ∷ pieces) = b'%' ∷ b'd' ∷ format_of pieces
format_of (chars bytes ∷ pieces) = b'%' ∷ b's' ∷ format_of pieces
format_of (char value ∷ pieces) = b'%' ∷ b'c' ∷ format_of pieces

abbrev pub args_of : List Piece → List Arg
args_of [] = []
args_of (literal c ∷ pieces) = args_of pieces
args_of (percent ∷ pieces) = args_of pieces
args_of (number value ∷ pieces) = int value ∷ args_of pieces
args_of (chars bytes ∷ pieces) = string bytes ∷ args_of pieces
args_of (char value ∷ pieces) = int value ∷ args_of pieces

-- A byte other than NUL and '%', and an int.
abbrev pub IsPiece : Piece → Type 0
IsPiece (literal c) = (c ≢ 0) × (c ≢ b'%')
IsPiece (number value) = magnitude value ≤ 2 ^ 31
IsPiece other = Unit {0}

-- What the pieces print.
abbrev pub Shows : List Piece → List ℕ → Type 0
Shows [] out = out ≡ []
Shows (literal c ∷ pieces) out = (rest : List ℕ) × (out ≡ c ∷ rest) × Shows pieces rest
Shows (percent ∷ pieces) out = (rest : List ℕ) × (out ≡ b'%' ∷ rest) × Shows pieces rest
Shows (number value ∷ pieces) out =
    (digits : List ℕ) × (rest : List ℕ) × IsDecimal (magnitude value) digits
    × (out ≡ (sign value ++ digits) ++ rest)
    × Shows pieces rest
Shows (chars bytes ∷ pieces) out =
    (rest : List ℕ) × (out ≡ take 1023 bytes ++ rest) × Shows pieces rest
Shows (char value ∷ pieces) out = (rest : List ℕ) × (out ≡ char_of value ∷ rest) × Shows pieces rest

before_digits : (digits : List ℕ) → All IsDigit digits → before_nul (digits ++ 0 ∷ []) ≡ digits
unfolding before_nul
before_digits [] each = refl
before_digits (c ∷ digits) each =
    let t : (c == 0) ≡ false = ground arith in
    rw t (ap (λ rest. c ∷ rest) (before_digits digits each.1))

before_decimal :
    (value : ℤ) (digits : List ℕ)
    → All IsDigit digits
    → before_nul (sign value ++ (digits ++ 0 ∷ [])) ≡ sign value ++ digits
unfolding before_nul
before_decimal (pos n) digits each = before_digits digits each
before_decimal (negsuc n) digits each = ap (λ rest. b'-' ∷ rest) (before_digits digits each)

take-all : (xs : List ℕ) (n : ℕ) → length xs ≤ n → take n xs ≡ xs
take-all [] zero h = refl
take-all [] (suc n) h = refl
take-all (x ∷ xs) zero h = absurd (omega arith)
take-all (x ∷ xs) (suc n) h = ap (λ rest. x ∷ rest) (take-all xs n (omega arith))

-- A number is printed whole.
short :
    (value : ℤ) (digits : List ℕ)
    → length digits ≤ 10
    → take 1023 (sign value ++ digits) ≡ sign value ++ digits
short (pos n) digits few = take-all digits 1023 (omega arith)
short (negsuc n) digits few = take-all (b'-' ∷ digits) 1023 (omega arith)

module _ (held : List Arg → List ℕ) (sized : (args : List Arg) → length (held args) ≡ 12)
    (behind : List ℕ) where
  loop_lem :
      (pieces : List Piece)
      → All IsPiece pieces
      → (out : List ℕ) × (printf_loop held false (format_of pieces ++ 0 ∷ behind) (args_of pieces)
          ≡ some out)
        × Shows pieces out
  unfolding printf_loop directive decimal_step string_step char_step print_text
  loop_lem [] each = ([], refl, refl)
  loop_lem (literal c ∷ pieces) each =
      let (out, run, v) = loop_lem pieces each.1 in
      let t : (c == 0) ≡ false = ground (arith, each.0.0) in
      let u : (c == b'%') ≡ false = ground (arith, each.0.1) in
      (c ∷ out, rw (t, u, run) refl, (out, refl, v))
  loop_lem (percent ∷ pieces) each =
      let (out, run, v) = loop_lem pieces each.1 in (b'%' ∷ out, rw run refl, (out, refl, v))
  loop_lem (number value ∷ pieces) each =
      let (out, run, v) = loop_lem pieces each.1 in
      let (digits, printed, d) =
        itoa_lem value (held (int value ∷ args_of pieces)) (sized (int value ∷ args_of pieces))
          each.0 in
      (
        (sign value ++ digits) ++ out,
        rw (printed, before_decimal value digits d.is_digits, short value digits d.few, run) refl,
        (digits, out, d, refl, v),
      )
  loop_lem (chars bytes ∷ pieces) each =
      let (out, run, v) = loop_lem pieces each.1 in
      (take 1023 bytes ++ out, rw run refl, (out, refl, v))
  loop_lem (char value ∷ pieces) each =
      let (out, run, v) = loop_lem pieces each.1 in
      (char_of value ∷ out, rw run refl, (out, refl, v))

  -- For a format of bytes that stand for themselves, "%%", "%d", "%s" and "%c", with the arguments that
  -- it names, printf prints the bytes, one '%', the sign and the decimal digits of the int, the first
  -- 1023 bytes of the string, and the low byte of the int, in order, and reads nothing behind the NUL
  -- of the format.
  pub printf_lem :
      (pieces : List Piece)
      → All IsPiece pieces
      → (out : List ℕ) × (printf held (format_of pieces ++ 0 ∷ behind) (args_of pieces) ≡ some out)
        × Shows pieces out
  unfolding printf
  printf_lem pieces each = loop_lem pieces each
