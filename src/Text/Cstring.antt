-- ===== src/Text/Cstring.antt =====
-- src/string/string.c over byte-addressed memory. A loop with no bound of its own takes fuel, and
-- is `none` where it runs out.
pub mod Length
pub mod Compare
pub mod Copy
pub mod Holds
pub mod Terminated
mod Tests
use alpha_os.Prelude.{
  ℕ, zero, suc, ◌+◌, ◌-◌, ◌%◌, ◌^◌, Bool, true, false, not, ◌&&◌, ◌||◌, Option, none, some, leb,
  ltb, ◌==◌, if◌then◌else◌, ℤ, pos, negsuc, sub_ℕ, Ram, write, offset,
}

-- Letters are below 128, so the sign of `char` does not show.
unfoldable pub tolower : ℕ → ℕ
tolower c = if leb b'A' c && leb c b'Z' then c + 32 else c

pub strlen_loop : ℕ → Ram → ℕ → ℕ → Option ℕ
strlen_loop zero ram str len = none
strlen_loop (suc fuel) ram str len = elim (ram (offset str len) == 0) [
  | true ↦ some len
  | false ↦ strlen_loop fuel ram str (len + 1)
]

pub strlen : ℕ → Ram → ℕ → Option ℕ
unfolding strlen_loop
strlen fuel ram str = strlen_loop fuel ram str 0

-- The loop with `left = max - len`.
pub strnlen_loop : ℕ → Ram → ℕ → ℕ → ℕ
strnlen_loop zero ram str len = len
strnlen_loop (suc left) ram str len = elim (ram (offset str len) == 0) [
  | true ↦ len
  | false ↦ strnlen_loop left ram str (len + 1)
]

pub strnlen : Ram → ℕ → ℕ → ℕ
unfolding strnlen_loop
strnlen ram str max = strnlen_loop max ram str 0

-- The loop with `left = max - i`.
pub terminator_loop : ℕ → Ram → ℕ → ℕ → ℕ → ℕ
terminator_loop zero ram str terminator i = i
terminator_loop (suc left) ram str terminator i =
    elim (ram (offset str i) == 0 || ram (offset str i) == terminator) [
      | true ↦ i
      | false ↦ terminator_loop left ram str terminator (i + 1)
    ]

pub strnlen_terminator : Ram → ℕ → ℕ → ℕ → ℕ
unfolding terminator_loop
strnlen_terminator ram str max terminator = terminator_loop max ram str terminator 0

pub istrncmp : Ram → ℕ → ℕ → ℕ → ℤ
istrncmp ram str1 str2 zero = pos 0
istrncmp ram str1 str2 (suc n) =
    let u1 = ram str1 in
    let u2 = ram str2 in
    elim (not (u1 == u2) && not (tolower u1 == tolower u2)) [
      | true ↦ sub_ℕ u1 u2
      | false ↦ elim (u1 == 0) [
        | true ↦ pos 0
        | false ↦ istrncmp ram (offset str1 1) (offset str2 1) n
      ]
    ]

pub strncmp : Ram → ℕ → ℕ → ℕ → ℤ
strncmp ram str1 str2 zero = pos 0
strncmp ram str1 str2 (suc n) =
    let u1 = ram str1 in
    let u2 = ram str2 in
    elim (u1 == u2) [
      | false ↦ sub_ℕ u1 u2
      | true ↦ elim (u1 == 0) [
        | true ↦ pos 0
        | false ↦ strncmp ram (offset str1 1) (offset str2 1) n
      ]
    ]

pub strcpy : ℕ → Ram → ℕ → ℕ → Option Ram
strcpy zero ram dest src = none
strcpy (suc fuel) ram dest src = elim (ram src == 0) [
  | true ↦ some (write ram dest 0)
  | false ↦ strcpy fuel (write ram dest (ram src)) (offset dest 1) (offset src 1)
]

-- The loop at index `i`, with `left` rounds before `n - 1`, and the NUL that is written after it.
pub strncpy_loop : ℕ → Ram → ℕ → ℕ → ℕ → Ram
strncpy_loop zero ram dest src i = write ram (offset dest i) 0
strncpy_loop (suc left) ram dest src i = elim (ram (offset src i) == 0) [
  | true ↦ write ram (offset dest i) 0
  | false ↦ strncpy_loop left (write ram (offset dest i) (ram (offset src i))) dest src (i + 1)
]

-- For `n` of 0 the loop makes no round, and the NUL is written all the same.
pub strncpy : Ram → ℕ → ℕ → ℕ → Ram
unfolding strncpy_loop
strncpy ram dest src n = strncpy_loop (n - 1) ram dest src 0

unfoldable pub isdigit : ℕ → Bool
isdigit c = leb b'0' c && leb c b'9'

-- `char` is signed.
unfoldable pub tonumericdigit : ℕ → ℤ
tonumericdigit c = if ltb c 128 then sub_ℕ c b'0' else negsuc (256 - c + b'0' - 1)
