-- ===== src/Memory/Heap/Alloc.antt =====
-- heap_malloc and heap_free: what an allocation changes, and that freeing it undoes it.
use alpha_os.Prelude.{
  ℕ, zero, suc, ◌+◌, ◌-◌, ◌*◌, ◌/◌, ◌%◌, ◌^◌, ◌≤◌, ◌<◌, ◌≡◌, ◌⊎◌, refl, ap, sym, ◌∙◌, true, false,
  none, some, List, [], ◌∷◌, ◌++◌, All, inl, inr, length, length-append, length-take, length-drop,
  take, drop, take-append-drop, replicate, arith, pos, ok, set, set?-in_range, set?-outside,
  length-set, Option-cases,
}
use native.Mathlib.Decide.{dec_lt}
use alpha_os.Memory.Heap.{
  Heap, block_size, heap_get_start_blocks, heap_block_to_address, heap_address_to_block,
  heap_malloc_blocks, heap_malloc, heap_free, heap_align_value_to_upper, mark_loop,
  heap_mark_block_taken, heap_mark_block_free,
}
use alpha_os.Memory.Heap.Scan.{is_free, all_free, first_fit, trailing, start_blocks_lem}
use alpha_os.Memory.Heap.Mark.{run_entries, mark_taken_lem, mark_free_lem, length-run}

-- The pool lies in the address space, after address 0, and is below 2 GB.
pub record IsPool (heap : Heap) : Type 0 where
  pub starts : 0 < heap.saddr
  pub ends : heap.saddr + length heap.entries * block_size < 2 ^ 32
  pub small : length heap.entries * block_size < 2 ^ 31

-- A free entry is 0.
abbrev pub IsClean : Heap → Type 0
IsClean heap = All (λ e. (is_free e ≡ false) ⊎ (e ≡ 0)) heap.entries

all_free-le : (n : ℕ) (es : List ℕ) → all_free n es ≡ true → n ≤ length es
unfolding all_free
all_free-le zero es h = omega arith
all_free-le (suc n) [] h = ground arith
all_free-le (suc n) (e ∷ es) h = ground (arith, all_free-le n es)

pub first_fit-all_free :
    (n : ℕ) (es : List ℕ) (s : ℕ) → first_fit n es ≡ some s → all_free n (drop s es) ≡ true
unfolding first_fit
first_fit-all_free n [] s h = ground arith
first_fit-all_free n (e ∷ es) zero h = ground arith
first_fit-all_free n (e ∷ es) (suc s) h = ground (arith, first_fit-all_free n es s)

pub first_fit-in_range :
    (n : ℕ) (es : List ℕ) (s : ℕ) → 0 < n → first_fit n es ≡ some s → s + n ≤ length es
first_fit-in_range n es s p h =
    omega (arith, all_free-le n (drop s es) (first_fit-all_free n es s h), length-drop s es)

split_three : (n s : ℕ) (es : List ℕ) → es ≡ take s es ++ (take n (drop s es) ++ drop n (drop s es))
split_three n s es =
    sym (ap (◌++◌ (take s es)) (take-append-drop n (drop s es)) ∙ take-append-drop s es)

-- The heap with blocks `s` to `s + n` taken by one allocation.
abbrev pub allocated : Heap → ℕ → ℕ → Heap
allocated heap s n = record heap {
  entries = take s heap.entries ++ (run_entries n ++ drop n (drop s heap.entries));
}

module _ (heap : Heap) (n s : ℕ) (pos_n : 0 < n) (fits : first_fit n heap.entries ≡ some s) where
  pub length-take_start : length (take s heap.entries) ≡ s
  length-take_start =
      omega (arith, length-take s heap.entries, first_fit-in_range n heap.entries s pos_n fits)

  length-take_run : length (take n (drop s heap.entries)) ≡ n
  length-take_run = omega (
    arith,
    length-take n (drop s heap.entries),
    length-drop s heap.entries,
    first_fit-in_range n heap.entries s pos_n fits,
  )

  pub length-allocated : length (allocated heap s n).entries ≡ length heap.entries
  length-allocated = omega (
    arith,
    length-append (take s heap.entries) (run_entries n ++ drop n (drop s heap.entries)),
    length-append (run_entries n) (drop n (drop s heap.entries)),
    length-run n,
    length-take_start,
    length-drop n (drop s heap.entries),
    length-drop s heap.entries,
    first_fit-in_range n heap.entries s pos_n fits,
  )

  mark_found : heap_mark_block_taken heap s n ≡ some (allocated heap s n)
  mark_found = rw length-take_start at (
      mark_taken_lem heap n (take s heap.entries) (take n (drop s heap.entries))
        (drop n (drop s heap.entries)) (split_three n s heap.entries) length-take_run)

  start_found : heap_get_start_blocks heap n ≡ ok s
  start_found = ground (arith, start_blocks_lem heap n pos_n)

  -- Where `n` free blocks lie together, heap_malloc_blocks returns the address of the first such
  -- blocks, marks these as one allocation and changes no other entry.
  pub malloc_blocks-first_fit :
      heap_malloc_blocks heap n ≡ some (heap_block_to_address heap s, allocated heap s n)
  unfolding heap_malloc_blocks
  malloc_blocks-first_fit = ground (arith, start_found, mark_found)

pub address_to_block_lem :
    (heap : Heap) (s : ℕ)
    → heap.saddr + s * block_size < 2 ^ 32
    → s * block_size < 2 ^ 31
    → heap_address_to_block heap ((heap.saddr + s * block_size) % 2 ^ 32) ≡ pos s
unfolding heap_address_to_block
address_to_block_lem heap s h k = ground arith

replicate-all_free :
    (n : ℕ) (es : List ℕ)
    → All (λ e. (is_free e ≡ false) ⊎ (e ≡ 0)) es
    → all_free n es ≡ true
    → take n es ≡ replicate n 0
unfolding all_free
replicate-all_free zero es c h = refl
replicate-all_free (suc n) [] c h = ground arith
replicate-all_free (suc n) (e ∷ es) c h = ground (arith, replicate-all_free n es c.1)

All-drop : (P : ℕ → Type 0) (s : ℕ) (es : List ℕ) → All P es → All P (drop s es)
All-drop P zero es h = h
All-drop P (suc s) [] h = h
All-drop P (suc s) (e ∷ es) h = All-drop P s es h.1

module _ (heap : Heap) (n s : ℕ) (pos_n : 0 < n) (fits : first_fit n heap.entries ≡ some s)
    (pool : IsPool heap) (clean : IsClean heap) where
  freed : take s heap.entries ++ (replicate n 0 ++ drop n (drop s heap.entries)) ≡ heap.entries
  freed =
      rw
        (← replicate-all_free n (drop s heap.entries)
          (All-drop (λ e. (is_free e ≡ false) ⊎ (e ≡ 0)) s heap.entries clean)
          (first_fit-all_free n heap.entries s fits))
        (sym (split_three n s heap.entries))

  -- heap_free at the address that heap_malloc_blocks returned gives the table back as it was.
  pub free-malloc_blocks : heap_free (allocated heap s n) (heap_block_to_address heap s) ≡ some heap
  unfolding heap_free heap_block_to_address
  free-malloc_blocks =
      ap (heap_mark_block_free (allocated heap s n))
        (address_to_block_lem (allocated heap s n) s in_space in_pool)
      ∙ rw (length-take_start heap n s pos_n fits) at (
          mark_free_lem (allocated heap s n) n (take s heap.entries) (drop n (drop s heap.entries))
            refl pos_n)
      ∙ ap (λ l. some (record heap { entries = l })) freed
    where
      in_range : s + n ≤ length heap.entries
      in_range = first_fit-in_range n heap.entries s pos_n fits

      in_space : heap.saddr + s * block_size < 2 ^ 32
      in_space = omega (arith, in_range)

      in_pool : s * block_size < 2 ^ 31
      in_pool = omega (arith, in_range)

-- The address that heap_malloc_blocks returns is not NULL, and the blocks lie in the pool.
module _ (heap : Heap) (n s : ℕ) (pos_n : 0 < n) (fits : first_fit n heap.entries ≡ some s)
    (pool : IsPool heap) where
  pub block_address_bounds :
      (heap.saddr ≤ heap_block_to_address heap s)
      × (heap_block_to_address heap s + n * block_size
          ≤ heap.saddr + length heap.entries * block_size)
  unfolding heap_block_to_address
  block_address_bounds = omega (arith, first_fit-in_range n heap.entries s pos_n fits)

-- A request of 1 byte or more is rounded up to whole blocks, without a wrap below 4 GB - 4096.
pub blocks_for_size :
    (size : ℕ)
    → 0 < size
    → size ≤ 2 ^ 32 - block_size
    → let blocks = heap_align_value_to_upper size / block_size in
      (size ≤ blocks * block_size) × (blocks * block_size < size + block_size)
unfolding heap_align_value_to_upper
blocks_for_size size h k = ground arith

mark_loop_overruns :
    (left i end_block entry : ℕ) (entries : List ℕ)
    → i ≤ length entries
    → length entries < i + left
    → mark_loop left i end_block entry entries ≡ none
unfolding mark_loop
mark_loop_overruns zero i end_block entry entries h k = absurd (omega arith)
mark_loop_overruns (suc left) i end_block entry entries h k = elim (dec_lt i (length entries)) [
  | no out ↦ rw (set?-outside entries i entry (omega arith))
  | yes inside ↦ rw (set?-in_range entries i entry inside) (
      mark_loop_overruns left (i + 1) end_block _ (set entries i entry)
        (omega (arith, length-set entries i entry)) (omega (arith, length-set entries i entry)))
]

all_free_fewer : (n m : ℕ) (es : List ℕ) → n ≤ m → all_free m es ≡ true → all_free n es ≡ true
unfolding all_free
all_free_fewer zero m es h f = refl
all_free_fewer (suc n) zero es h f = absurd (omega arith)
all_free_fewer (suc n) (suc m) [] h f = f
all_free_fewer (suc n) (suc m) (e ∷ es) h f = ground (arith, all_free_fewer n m es)

trailing_short :
    (n : ℕ) (es : List ℕ) (t : ℕ)
    → first_fit n es ≡ none
    → trailing es ≡ some t
    → (t ≤ length es) × (length es < t + n)
unfolding first_fit trailing
trailing_short n [] t h k = ground arith
trailing_short n (e ∷ es) zero h k = ground (arith, all_free_fewer n (length (e ∷ es)) (e ∷ es))
trailing_short n (e ∷ es) (suc t) h k = ground (arith, trailing_short n es t)

malloc_blocks_overruns :
    (heap : Heap) (n t : ℕ)
    → 0 < n
    → first_fit n heap.entries ≡ none
    → trailing heap.entries ≡ some t
    → heap_malloc_blocks heap n ≡ none
unfolding heap_malloc_blocks heap_mark_block_taken
malloc_blocks_overruns heap n t pos_n unfit tail = ground (
  arith,
  start_blocks_lem heap n pos_n,
  trailing_short n heap.entries t unfit tail,
  mark_loop_overruns n t (t + n - 1) 0x41 heap.entries,
  mark_loop_overruns n t (t + n - 1) 0xC1 heap.entries,
)

malloc_blocks_full :
    (heap : Heap) (n : ℕ)
    → 0 < n
    → first_fit n heap.entries ≡ none
    → trailing heap.entries ≡ none
    → heap_malloc_blocks heap n ≡ some (0, heap)
unfolding heap_malloc_blocks
malloc_blocks_full heap n pos_n unfit tail = ground (arith, start_blocks_lem heap n pos_n)

-- A request of `n` blocks, `n` at least 1, on every branch: the first `n` free blocks are taken;
-- with none, a table whose last block is taken answers NULL and stays as it was, and one whose
-- last block is free is written past its end.
pub malloc_blocks_lem :
    (heap : Heap) (n : ℕ)
    → 0 < n
    → heap_malloc_blocks heap n ≡ elim (first_fit n heap.entries) [
      | some s ↦ some (heap_block_to_address heap s, allocated heap s n)
      | none ↦ elim (trailing heap.entries) [ some t ↦ none | none ↦ some (0, heap) ]
    ]
malloc_blocks_lem heap n pos_n = elim (Option-cases (first_fit n heap.entries)) [
  | inr (s, fits) ↦ rw fits (malloc_blocks-first_fit heap n s pos_n fits)
  | inl unfit ↦ elim (Option-cases (trailing heap.entries)) [
    | inr (t, tail) ↦ rw (unfit, tail) (malloc_blocks_overruns heap n t pos_n unfit tail)
    | inl tail ↦ rw (unfit, tail) (malloc_blocks_full heap n pos_n unfit tail)
  ]
]

-- A pointer one block or more below the pool, NULL among them, leads heap_free before the table.
pub free-below_pool :
    (heap : Heap) (ptr : ℕ)
    → ptr + block_size ≤ heap.saddr
    → heap.saddr < 2 ^ 31
    → heap_free heap ptr ≡ none
unfolding heap_free heap_address_to_block heap_mark_block_free
free-below_pool heap ptr below small = ground arith

abbrev pub blocks_for : ℕ → ℕ
blocks_for size = heap_align_value_to_upper size / block_size

pub blocks_for_pos : (size : ℕ) → 0 < size → size ≤ 2 ^ 32 - block_size → 0 < blocks_for size
blocks_for_pos size h k = omega (arith, blocks_for_size size h k)

pub malloc-first_fit :
    (heap : Heap) (size s : ℕ)
    → 0 < size
    → size ≤ 2 ^ 32 - block_size
    → first_fit (blocks_for size) heap.entries ≡ some s
    → heap_malloc heap size
      ≡ some (heap_block_to_address heap s, allocated heap s (blocks_for size))
unfolding heap_malloc
malloc-first_fit heap size s h k fits =
    malloc_blocks-first_fit heap (blocks_for size) s (blocks_for_pos size h k) fits

-- Blocks lie on pages, when the pool does.
pub block_address-aligned :
    (heap : Heap) (s : ℕ) → heap.saddr % 4096 ≡ 0 → heap_block_to_address heap s % 4096 ≡ 0
unfolding heap_block_to_address
block_address-aligned heap s h = omega (arith, h)
