-- ===== src/Prelude/Bytes.antt =====
-- Byte-addressed memory, with 32-bit addresses that wrap.
use Prim.Native.Nat.{ℕ, ◌+◌, ◌%◌, ◌^◌, ◌<◌}
use mathlib.Core.Bool.{Bool, ◌&&◌}
use native.Mathlib.Omega.{arith}
use alpha_os.Prelude.Tests.{◌==◌, ltb, leb, if◌then◌else◌}

abbrev pub Ram : Type 0
Ram = ℕ → ℕ

-- A byte is written, so the value is cut to 8 bits.
unfoldable pub write : Ram → ℕ → ℕ → Ram
write ram a v b = if b == a then v % 256 else ram b

-- `p + k` on a pointer to bytes
abbrev pub offset : ℕ → ℕ → ℕ
offset p k = (p + k) % 2 ^ 32

abbrev pub within : ℕ → ℕ → ℕ → Bool
within p size a = leb p a && ltb a (p + size)

abbrev pub IsBytes : Ram → Type 0
IsBytes ram = (a : ℕ) → ram a < 256

pub write-IsBytes : (ram : Ram) (p v : ℕ) → IsBytes ram → IsBytes (write ram p v)
unfolding write
write-IsBytes ram p v bytes a = ground (arith, bytes a)
