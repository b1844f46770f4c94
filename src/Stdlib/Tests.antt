-- ===== src/Stdlib/Tests.antt =====
-- Numbers printed and lines read by programs/stdlib/src.
use alpha_os.Prelude.{
  ℕ, zero, suc, ◌-◌, ◌<◌, ◌≡◌, refl, some, List, [], ◌∷◌, ◌++◌, replicate, pos, negsuc, arith,
  get_or, All, ◌==◌, leb, length, Ram, IsBytes, inl,
}
use alpha_os.Text.Cstring.Compare.{text}
use alpha_os.Stdlib.Strtok.{strtok, skip_loop, token_loop, is_delim}
use alpha_os.Stdlib.Command.{alphaos_parse_command}
use alpha_os.Stdlib.Command.Split.{arguments_of, words, blank, alphaos_parse_command_lem}
use alpha_os.Stdlib.{itoa, itoa_loop, itoa_magnitude, prepend}
use alpha_os.Stdlib.Readline.{terminal_readline}
use alpha_os.Stdlib.Readline.Edit.{edited, onto, polled, terminal_readline_lem}
use alpha_os.Stdlib.Printf.{printf}
use alpha_os.Stdlib.Printf.Pieces.{
  Piece, literal, percent, number, chars, char, format_of, args_of, Shows, printf_lem,
}

abbrev buffer : List ℕ
buffer = replicate 12 b'x'

-- -45 and 0
printed :
    (itoa (negsuc 44) buffer ≡ some (b'-' ∷ b'4' ∷ b'5' ∷ 0 ∷ []))
    × (itoa (pos 0) buffer ≡ some (b'0' ∷ 0 ∷ []))
unfolding itoa itoa_loop itoa_magnitude prepend
printed = (refl, refl)

abbrev greeting : List Piece
greeting =
    literal b'a'
    ∷ percent
    ∷ number (negsuc 2147483647)
    ∷ chars (b'l' ∷ b's' ∷ [])
    ∷ char (pos 0x141)
    ∷ []

-- "a%%%d%s%c" with INT_MIN
printf_example :
    (out : List ℕ) × (printf
        (λ args. buffer)
        (format_of greeting ++ 0 ∷ b'x' ∷ [])
        (args_of greeting)
      ≡ some out)
    × Shows greeting out
printf_example =
    printf_lem (λ args. buffer) (λ args. refl) (b'x' ∷ []) greeting
      ((λ e. omega (arith, e), λ e. omega (arith, e)), (tt, (omega arith, (tt, (tt, tt)))))

-- "ab", a backspace, "c"
abbrev typed : List ℕ
typed = b'a' ∷ b'b' ∷ 8 ∷ b'c' ∷ []

edited_line : onto (edited [] typed) [] ≡ b'a' ∷ b'c' ∷ []
edited_line = refl

terminal_readline_example :
    (rest : List ℕ) × (terminal_readline 5 (polled typed) 12 buffer ≡ some (b'a' ∷ b'c' ∷ 0 ∷ rest))
terminal_readline_example =
    terminal_readline_lem typed buffer 5
      (
        (omega arith, omega arith, omega arith),
        (
          (omega arith, omega arith, omega arith),
          ((omega arith, omega arith, omega arith), ((omega arith, omega arith, omega arith), tt)),
        ),
      )
      (omega arith) (omega arith)

get_or-below : (bytes : List ℕ) (i : ℕ) → All (λ c. c < 256) bytes → get_or bytes i 0 < 256
get_or-below [] i h = omega arith
get_or-below (c ∷ bytes) zero h = h.0
get_or-below (c ∷ bytes) (suc i) h = get_or-below bytes i h.1

-- " ls  -a" at 0x10
abbrev line : Ram
line a = get_or (b' ' ∷ b'l' ∷ b's' ∷ b' ' ∷ b' ' ∷ b'-' ∷ b'a' ∷ 0 ∷ []) (a - 0x10) 0

line-IsBytes : IsBytes line
line-IsBytes a = get_or-below (b' ' ∷ b'l' ∷ b's' ∷ b' ' ∷ b' ' ∷ b'-' ∷ b'a' ∷ 0 ∷ []) (a - 0x10) (
  omega arith,
  (
    omega arith,
    (omega arith, (omega arith, (omega arith, (omega arith, (omega arith, (omega arith, tt)))))),
  ),
)

line_words : arguments_of 2 (text line 0x10 20) ≡ (b'l' ∷ b's' ∷ []) ∷ (b'-' ∷ b'a' ∷ []) ∷ []
unfolding text is_delim
line_words = refl

first_token :
    ((r : ℕ × ℕ × Ram) × (strtok 20 line 0 0x10 (b' ' ∷ []) ≡ some r) × (r.0 ≡ 0x11) × (r.1 ≡ 0x14))
unfolding strtok skip_loop token_loop is_delim
first_token = (_, refl, refl, refl)

-- The second word gets no node.
alphaos_parse_command_example :
    (sp' : ℕ) × (ram' : Ram) × (alphaos_parse_command 1027 line 0 0x1000 1 0x10 1024
      ≡ some (arguments_of 1 (text line 0x10 1024), sp', ram'))
    × ((sp' == 0) ≡ leb (length (words blank (text line 0x10 1024))) 1)
alphaos_parse_command_example =
    alphaos_parse_command_lem 1027 line 0x1000 1 0x10 1024 line-IsBytes (omega arith) (omega arith)
      (omega arith) (omega arith) (inl (omega arith)) (omega arith)
