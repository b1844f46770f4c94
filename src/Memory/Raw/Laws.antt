-- ===== src/Memory/Raw/Laws.antt =====
-- What memset, memcmp and memcpy do to each byte.
use alpha_os.Prelude.{
  ℕ, zero, suc, ◌+◌, ◌-◌, ◌%◌, ◌^◌, ◌≤◌, ◌<◌, ◌≡◌, ◌≢◌, ◌⊎◌, ◌↔◌, refl, ◌==◌, if◌then◌else◌, pos,
  Ram, write, offset, within, IsBytes, write-IsBytes, arith,
}
use alpha_os.Memory.Raw.{memset, memcmp, memcpy}

-- memset fills exactly the bytes from `ptr` on, `size` of them, with the low byte of `value`.
pub memset_lem :
    (size : ℕ) (ram : Ram) (ptr value a : ℕ)
    → ptr + size < 2 ^ 32
    → memset ram ptr value size a ≡ (if within ptr size a then value % 256 else ram a)
unfolding memset
memset_lem zero ram ptr value a h = ground arith
memset_lem (suc size) ram ptr value a h =
    ground (arith, memset_lem size (write ram ptr value) (offset ptr 1) value a, filled)
  where
    filled : write ram ptr value a ≡ (if a == ptr then value % 256 else ram a)
    filled = unfold write in refl

-- memcpy copies the bytes as they were, where the copy does not run into bytes still to be read,
-- and changes no byte outside the destination.
pub memcpy_lem :
    (size : ℕ) (ram : Ram) (dest src a : ℕ)
    → IsBytes ram
    → dest + size < 2 ^ 32
    → src + size < 2 ^ 32
    → (dest ≤ src) ⊎ (src + size ≤ dest)
    → memcpy ram dest src size a ≡ (if within dest size a then ram (src + (a - dest)) else ram a)
unfolding memcpy
memcpy_lem zero ram dest src a bytes h k apart = ground arith
memcpy_lem (suc size) ram dest src a bytes h k apart = ground (
  arith,
  memcpy_lem size (write ram dest (ram src)) (offset dest 1) (offset src 1) a
      (write-IsBytes ram dest (ram src) bytes),
  bytes src,
  copied a,
  copied (offset src 1 + (a - offset dest 1)),
)
  where
    copied : (b : ℕ) → write ram dest (ram src) b ≡ (if b == dest then ram src % 256 else ram b)
    copied b = unfold write in refl

same_of_memcmp :
    (size : ℕ) (ram : Ram) (p1 p2 i : ℕ)
    → p1 + size < 2 ^ 32
    → p2 + size < 2 ^ 32
    → memcmp ram p1 p2 size ≡ pos 0
    → i < size
    → ram (p1 + i) ≡ ram (p2 + i)
unfolding memcmp
same_of_memcmp zero ram p1 p2 i h k e l = absurd (omega arith)
same_of_memcmp (suc size) ram p1 p2 zero h k e l = ground arith
same_of_memcmp (suc size) ram p1 p2 (suc i) h k e l =
    ground (arith, same_of_memcmp size ram (offset p1 1) (offset p2 1) i)

memcmp_of_same :
    (size : ℕ) (ram : Ram) (p1 p2 : ℕ)
    → p1 + size < 2 ^ 32
    → p2 + size < 2 ^ 32
    → ((i : ℕ) → i < size → ram (p1 + i) ≡ ram (p2 + i))
    → memcmp ram p1 p2 size ≡ pos 0
unfolding memcmp
memcmp_of_same zero ram p1 p2 h k all = refl
memcmp_of_same (suc size) ram p1 p2 h k all = ground (
  arith,
  all 0,
  memcmp_of_same size ram (offset p1 1) (offset p2 1) (omega arith) (omega arith)
      (λ i l. ground (arith, all (suc i))),
)

-- memcmp is 0 exactly where the two ranges hold the same bytes.
pub memcmp-eq-zero :
    (size : ℕ) (ram : Ram) (p1 p2 : ℕ)
    → p1 + size < 2 ^ 32
    → p2 + size < 2 ^ 32
    → (memcmp ram p1 p2 size ≡ pos 0) ↔ ((i : ℕ) → i < size → ram (p1 + i) ≡ ram (p2 + i))
memcmp-eq-zero size ram p1 p2 h k =
    (λ e i l. same_of_memcmp size ram p1 p2 i h k e l, λ all. memcmp_of_same size ram p1 p2 h k all)

-- Where the first difference is not at the first byte, memcmp returns 1, whichever is less.
pub memcmp_late_difference :
    (size : ℕ) (ram : Ram) (p1 p2 i : ℕ)
    → 0 < p1
    → 0 < p2
    → p1 + size < 2 ^ 32
    → p2 + size < 2 ^ 32
    → i < size
    → ram (p1 - 1) ≡ ram (p2 - 1)
    → ((j : ℕ) → j < i → ram (p1 + j) ≡ ram (p2 + j))
    → ram (p1 + i) ≢ ram (p2 + i)
    → memcmp ram p1 p2 size ≡ pos 1
unfolding memcmp
memcmp_late_difference zero ram p1 p2 i z1 z2 h k l before same differ = absurd (omega arith)
memcmp_late_difference (suc size) ram p1 p2 zero z1 z2 h k l before same differ = ground arith
memcmp_late_difference (suc size) ram p1 p2 (suc i) z1 z2 h k l before same differ = ground (
  arith,
  same 0,
  memcmp_late_difference size ram (offset p1 1) (offset p2 1) i (omega arith) (omega arith)
      (omega arith) (omega arith) (omega arith) (ground (arith, same 0))
      (λ j m. ground (arith, same (suc j))) (ground arith),
)
