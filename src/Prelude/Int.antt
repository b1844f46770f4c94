-- ===== src/Prelude/Int.antt =====
-- C's `int` results, over the native numbers: `negsuc n` is -(n + 1).
use Prim.Native.Nat.{ℕ, ◌-◌, compare, Ordering}
use alpha_os.Prelude.Status.{
  Errno, eio, einvarg, enomem, ebadpath, efsnotus, erdonly, eunimp, eistkn, einformat,
}

pub data ℤ : Type 0 where
  pos : ℕ → ℤ
  negsuc : ℕ → ℤ

-- a - b, as an integer.
abbrev pub sub_ℕ : ℕ → ℕ → ℤ
sub_ℕ a b = elim (compare a b) [ Ordering.lt ↦ negsuc (b - a - 1) | _ ↦ pos (a - b) ]

-- The negated code of `status.h`.
abbrev pub status : Errno → ℤ
status eio = negsuc 0
status einvarg = negsuc 1
status enomem = negsuc 2
status ebadpath = negsuc 3
status efsnotus = negsuc 4
status erdonly = negsuc 5
status eunimp = negsuc 6
status eistkn = negsuc 7
status einformat = negsuc 8
