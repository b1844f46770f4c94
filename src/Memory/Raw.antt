-- ===== src/Memory/Raw.antt =====
-- src/memory/memory.c: memset, memcmp and memcpy over byte-addressed memory.
pub mod Laws
mod Tests
use alpha_os.Prelude.{
  ℕ, zero, suc, ◌+◌, ◌%◌, ◌^◌, ◌-◌, Bool, true, false, ltb, ◌==◌, if◌then◌else◌, ℤ, pos, negsuc,
  Ram, write, offset,
}

-- `size` counts down; the pointer goes up by one byte a round.
unfoldable pub memset : Ram → ℕ → ℕ → ℕ → Ram
memset ram ptr value zero = ram
memset ram ptr value (suc size) = memset (write ram ptr value) (offset ptr 1) value size

-- `char` is signed: -128 is the least.
abbrev char_ltb : ℕ → ℕ → Bool
char_ltb a b = ltb ((a + 128) % 256) ((b + 128) % 256)

-- At the first difference the bytes before the two pointers are compared: `p1[-1] < p2[-1]`.
unfoldable pub memcmp : Ram → ℕ → ℕ → ℕ → ℤ
memcmp ram p1 p2 zero = pos 0
memcmp ram p1 p2 (suc size) = elim (ram p1 == ram p2) [
  | true ↦ memcmp ram (offset p1 1) (offset p2 1) size
  | false ↦
      if char_ltb (ram (offset p1 (2 ^ 32 - 1))) (ram (offset p2 (2 ^ 32 - 1)))
      then negsuc 0
      else pos 1
]

unfoldable pub memcpy : Ram → ℕ → ℕ → ℕ → Ram
memcpy ram dest src zero = ram
memcpy ram dest src (suc size) =
    memcpy (write ram dest (ram src)) (offset dest 1) (offset src 1) size
