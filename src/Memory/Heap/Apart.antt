-- ===== src/Memory/Heap/Apart.antt =====
-- Blocks that are handed out do not overlap.
use alpha_os.Prelude.{
  ℕ, zero, suc, ◌+◌, ◌*◌, ◌≤◌, ◌<◌, ◌≡◌, ◌⊎◌, inl, inr, refl, true, false, some, List, [], ◌∷◌,
  ◌++◌, length, drop, take, get_elem?, arith,
}
use native.Mathlib.Decide.{dec_le}
use alpha_os.Memory.Heap.{Heap, block_size, heap_block_to_address, heap_malloc_blocks}
use alpha_os.Memory.Heap.Scan.{is_free, all_free, first_fit}
use alpha_os.Memory.Heap.Mark.{run_entries, length-run}
use alpha_os.Memory.Heap.Spans.{AllTaken, run-AllTaken}
use alpha_os.Memory.Heap.Alloc.{
  IsPool, allocated, first_fit-all_free, first_fit-in_range, length-take_start, length-allocated,
  malloc_blocks-first_fit,
}

free_within :
    (m t j : ℕ) (es : List ℕ) (e : ℕ)
    → all_free m (drop t es) ≡ true
    → t ≤ j
    → j < t + m
    → get_elem? es j ≡ some e
    → is_free e ≡ true
unfolding all_free
free_within m t j [] e f h k g = ground arith
free_within zero zero j (x ∷ es) e f h k g = absurd (omega arith)
free_within (suc m) zero zero (x ∷ es) e f h k g = ground arith
free_within (suc m) zero (suc j) (x ∷ es) e f h k g =
    free_within m zero j es e (ground arith) (omega arith) (omega arith) g
free_within m (suc t) zero (x ∷ es) e f h k g = absurd (omega arith)
free_within m (suc t) (suc j) (x ∷ es) e f h k g =
    free_within m t j es e f (omega arith) (omega arith) g

taken_within :
    (xs r ys : List ℕ) (j : ℕ)
    → AllTaken r
    → length xs ≤ j
    → j < length xs + length r
    → (e : ℕ) × (get_elem? (xs ++ (r ++ ys)) j ≡ some e) × (is_free e ≡ false)
taken_within (x ∷ xs) r ys zero t h k = absurd (omega arith)
taken_within (x ∷ xs) r ys (suc j) t h k = taken_within xs r ys j t (omega arith) (omega arith)
taken_within [] [] ys j t h k = absurd (omega arith)
taken_within [] (e ∷ r) ys zero t h k = (e, refl, t.0)
taken_within [] (e ∷ r) ys (suc j) t h k = taken_within [] r ys j t.1 (omega arith) (omega arith)

not_both :
    (xs r ys : List ℕ) (m t j : ℕ)
    → AllTaken r
    → all_free m (drop t (xs ++ (r ++ ys))) ≡ true
    → length xs ≤ j
    → j < length xs + length r
    → t ≤ j
    → j < t + m
    → ⊥
not_both xs r ys m t j taken f a b c d =
    let (e, at, held) = taken_within xs r ys j taken a b in
    ground (arith, free_within m t j (xs ++ (r ++ ys)) e f c d at, held)

module _ (heap : Heap) (n m s t : ℕ) (pos_n : 0 < n) (pos_m : 0 < m)
    (fits : first_fit n heap.entries ≡ some s)
    (then_fits : first_fit m (allocated heap s n).entries ≡ some t) where
  blocks_apart : (s + n ≤ t) ⊎ (t + m ≤ s)
  blocks_apart = elim (dec_le (s + n) t) [
    | yes after ↦ inl after
    | no not_after ↦ elim (dec_le (t + m) s) [
      | yes before ↦ inr before
      | no not_before ↦ elim (dec_le s t) [
        | yes h ↦ absurd (clash t (omega arith) (omega arith) (omega arith) (omega arith))
        | no h ↦ absurd (clash s (omega arith) (omega arith) (omega arith) (omega arith))
      ]
    ]
  ]
    where
      clash : (j : ℕ) → s ≤ j → j < s + n → t ≤ j → j < t + m → ⊥
      clash j a b c d =
          not_both (take s heap.entries) (run_entries n) (drop n (drop s heap.entries)) m t j
            (run-AllTaken n) (first_fit-all_free m (allocated heap s n).entries t then_fits)
            (omega (arith, length-take_start heap n s pos_n fits))
            (omega (arith, length-take_start heap n s pos_n fits, length-run n)) c d

-- Two requests of at least one block in a row, both of which fit in a pool inside the address space,
-- are answered by ranges of addresses that begin at a block of the pool, end in the pool, and do not
-- overlap.
pub malloc_blocks_apart :
    (heap : Heap) (n m s t : ℕ)
    → 0 < n
    → 0 < m
    → IsPool heap
    → first_fit n heap.entries ≡ some s
    → first_fit m (allocated heap s n).entries ≡ some t
    → (a b : ℕ) × (heap' heap'' : Heap) × (heap_malloc_blocks heap n ≡ some (a, heap'))
      × (heap_malloc_blocks heap' m ≡ some (b, heap''))
      × (a ≡ heap.saddr + s * block_size)
      × (b ≡ heap.saddr + t * block_size)
      × (a + n * block_size ≤ heap.saddr + length heap.entries * block_size)
      × (b + m * block_size ≤ heap.saddr + length heap.entries * block_size)
      × ((a + n * block_size ≤ b) ⊎ (b + m * block_size ≤ a))
unfolding heap_block_to_address
malloc_blocks_apart heap n m s t pos_n pos_m pool fits then_fits = (
  heap_block_to_address heap s,
  heap_block_to_address heap t,
  allocated heap s n,
  allocated (allocated heap s n) t m,
  malloc_blocks-first_fit heap n s pos_n fits,
  malloc_blocks-first_fit (allocated heap s n) m t pos_m then_fits,
  omega (arith, first_fit-in_range n heap.entries s pos_n fits),
  omega (arith, in_range),
  omega (arith, first_fit-in_range n heap.entries s pos_n fits),
  omega (arith, in_range),
  ground (
    arith,
    first_fit-in_range n heap.entries s pos_n fits,
    in_range,
    blocks_apart heap n m s t pos_n pos_m fits then_fits,
  ),
)
  where
    in_range : t + m ≤ length heap.entries
    in_range = omega (
      arith,
      first_fit-in_range m (allocated heap s n).entries t pos_m then_fits,
      length-allocated heap n s pos_n fits,
    )
