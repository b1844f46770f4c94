-- ===== src/Memory/Paging/Store.antt =====
-- The words of memory, each at its address.
use alpha_os.Prelude.{ℕ, ◌==◌, if◌then◌else◌}

abbrev pub Words : Type 0
Words = ℕ → ℕ

unfoldable pub store : Words → ℕ → ℕ → Words
store words a v b = if b == a then v else words b
