-- ===== src/Memory/Heap/Tests.antt =====
-- The heap on a table of three blocks: runs, and each theorem at a concrete table.
use alpha_os.Prelude.{
  ℕ, ◌+◌, ◌*◌, ◌≤◌, ◌≡◌, ◌⊎◌, refl, none, some, List, [], ◌∷◌, ◌++◌, length, replicate, arith, ok,
}
use alpha_os.Memory.Heap.{
  Heap, block_size, heap_get_entry_type, scan_blocks, heap_get_start_blocks, heap_block_to_address,
  heap_malloc_blocks, heap_malloc, heap_free,
}
use alpha_os.Memory.Heap.Scan.{first_fit, trailing, start_blocks_lem}
use alpha_os.Memory.Heap.Alloc.{IsPool, malloc_blocks_lem}
use alpha_os.Memory.Heap.Spans.{
  Span, hole, used, encode, Represents, malloc_blocks_refines, free_refines,
}
use alpha_os.Memory.Heap.Apart.{malloc_blocks_apart}

abbrev pool_start : ℕ
pool_start = 0x01000000

-- One block taken, two free.
abbrev one_taken : Heap
one_taken = record { entries = 0x41 ∷ 0 ∷ 0 ∷ []; saddr = pool_start }

abbrev one_taken_spans : List Span
one_taken_spans = used 0 ∷ hole ∷ hole ∷ []

-- The last block is free, and it is the only one.
abbrev nearly_full : Heap
nearly_full = record { entries = 0xC1 ∷ 0x01 ∷ 0 ∷ []; saddr = pool_start }

malloc_two_blocks :
    heap_malloc one_taken 5000
    ≡ some (pool_start + 4096, record one_taken { entries = 0x41 ∷ 0xC1 ∷ 0x01 ∷ [] })
unfolding heap_malloc scan_blocks
malloc_two_blocks = refl

free_two_blocks :
    heap_free (record one_taken { entries = 0x41 ∷ 0xC1 ∷ 0x01 ∷ [] }) (pool_start + 4096)
    ≡ some one_taken
unfolding heap_free
free_two_blocks = refl

start_blocks_example : heap_get_start_blocks one_taken 2 ≡ ok 1
unfolding first_fit heap_get_entry_type
start_blocks_example = start_blocks_lem one_taken 2 (omega arith)

-- Two blocks are asked for where one is left: the table is overrun.
malloc_blocks_example : heap_malloc_blocks nearly_full 2 ≡ none
unfolding first_fit trailing heap_get_entry_type
malloc_blocks_example = malloc_blocks_lem nearly_full 2 (omega arith)

malloc_blocks_refines_example :
    (before after : List Span) × (heap' : Heap) × (one_taken_spans
      ≡ before ++ (replicate 2 hole ++ after))
    × (length (encode before) ≡ 1)
    × (heap_malloc_blocks one_taken 2 ≡ some (heap_block_to_address one_taken 1, heap'))
    × Represents heap' (before ++ used 1 ∷ after)
unfolding first_fit heap_get_entry_type
malloc_blocks_refines_example = malloc_blocks_refines one_taken one_taken_spans 1 1 refl refl

one_taken-IsPool : IsPool one_taken
one_taken-IsPool = omega arith

nearly_full-IsPool : IsPool nearly_full
nearly_full-IsPool = omega arith

free_refines_example :
    (heap' : Heap) × (heap_free nearly_full (heap_block_to_address nearly_full 0) ≡ some heap')
    × Represents heap' (hole ∷ hole ∷ hole ∷ [])
free_refines_example = free_refines nearly_full [] (hole ∷ []) 1 nearly_full-IsPool refl

malloc_blocks_apart_example :
    (a b : ℕ) × (heap' heap'' : Heap) × (heap_malloc_blocks one_taken 1 ≡ some (a, heap'))
    × (heap_malloc_blocks heap' 1 ≡ some (b, heap''))
    × (a ≡ pool_start + 1 * block_size)
    × (b ≡ pool_start + 2 * block_size)
    × (a + 1 * block_size ≤ pool_start + length one_taken.entries * block_size)
    × (b + 1 * block_size ≤ pool_start + length one_taken.entries * block_size)
    × ((a + 1 * block_size ≤ b) ⊎ (b + 1 * block_size ≤ a))
unfolding first_fit heap_get_entry_type
malloc_blocks_apart_example =
    malloc_blocks_apart one_taken 1 1 1 2 (omega arith) (omega arith) one_taken-IsPool refl refl
