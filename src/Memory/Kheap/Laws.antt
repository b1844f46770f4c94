-- ===== src/Memory/Kheap/Laws.antt =====
-- The kernel's heap after kheap_init, and what kzalloc promises.
use alpha_os.Prelude.{
  ℕ, ◌+◌, ◌-◌, ◌*◌, ◌^◌, ◌≤◌, ◌<◌, ◌≡◌, refl, some, List, if◌then◌else◌, within, arith, length,
  length-replicate, replicate, ok, ap, ◌∙◌, ◌%◌, sym, some-injective,
}
use alpha_os.Memory.Heap.{Heap, block_size, heap_create, heap_block_to_address, heap_malloc}
use alpha_os.Memory.Heap.Scan.{first_fit}
use alpha_os.Memory.Heap.Alloc.{
  IsPool, IsClean, allocated, block_address_bounds, blocks_for_size, blocks_for, blocks_for_pos,
  malloc-first_fit, free-malloc_blocks, block_address-aligned,
}
use alpha_os.Memory.Heap.Spans.{hole, Represents, create_refines, encode-holes}
use alpha_os.Memory.Raw.{memset}
use alpha_os.Memory.Raw.Laws.{memset_lem}
use alpha_os.Memory.Kheap.{
  Kernel, heap_address, heap_size_bytes, kheap_init, kmalloc, kzalloc, kfree,
}

-- With the table's 25600 entries, kheap_init gives a pool of free blocks in the address space.
pub kheap_init_lem :
    (k : Kernel) (entries : List ℕ)
    → length entries ≡ 25600
    → Represents (kheap_init k entries).heap (replicate (length entries) hole)
      × IsPool (kheap_init k entries).heap
unfolding kheap_init
kheap_init_lem k entries h = (
  created.1,
  record {
    starts = omega (arith, created.2);
    ends = omega (arith, created.2, same_length);
    small = omega (arith, same_length);
  },
)
  where
    init : Heap
    init = (kheap_init k entries).heap

    created :
        ((heap_create k.heap heap_address (heap_address + heap_size_bytes) entries).0 ≡ ok 0)
        × Represents init (replicate (length entries) hole)
        × (init.saddr ≡ heap_address)
    created =
        create_refines k.heap heap_address (heap_address + heap_size_bytes) entries refl refl
          (omega arith) (omega arith) (omega arith)

    same_length : length init.entries ≡ length entries
    same_length =
        ap length (created.1 ∙ encode-holes (length entries)) ∙ length-replicate (length entries) 0

-- Where the blocks for `size` bytes fit, kzalloc returns a range of the pool, not NULL, that it has
-- cleared, changes no other byte, and kfree at the returned address gives the table back.
pub kzalloc_lem :
    (k : Kernel) (size s : ℕ)
    → 0 < size
    → size ≤ 2 ^ 32 - block_size
    → IsPool k.heap
    → IsClean k.heap
    → first_fit (blocks_for size) k.heap.entries ≡ some s
    → (ptr : ℕ) × (k' k'' : Kernel) × (kzalloc k size ≡ some (ptr, k'))
      × (0 < ptr)
      × (k.heap.saddr ≤ ptr)
      × (ptr + size ≤ k.heap.saddr + length k.heap.entries * block_size)
      × ((a : ℕ) → k'.ram a ≡ (if within ptr size a then 0 else k.ram a))
      × (kfree k' ptr ≡ some k'')
      × (k''.heap ≡ k.heap)
unfolding kzalloc kmalloc kfree
kzalloc_lem k size s pos_size small pool clean fits = (
  ptr,
  record k { heap = allocated k.heap s (blocks_for size); ram = memset k.ram ptr 0 size },
  record k { ram = memset k.ram ptr 0 size },
  ground (arith, found, not_null),
  not_null,
  bounds.0,
  fits_size,
  λ a. memset_lem size k.ram ptr 0 a (omega (arith, fits_size)),
  ground (
    arith,
    free-malloc_blocks k.heap (blocks_for size) s (blocks_for_pos size pos_size small) fits pool
        clean,
  ),
  refl,
)
  where
    ptr : ℕ
    ptr = heap_block_to_address k.heap s

    found :
        heap_malloc k.heap size
        ≡ some (heap_block_to_address k.heap s, allocated k.heap s (blocks_for size))
    found = malloc-first_fit k.heap size s pos_size small fits

    bounds :
        (k.heap.saddr ≤ ptr)
        × (ptr + blocks_for size * block_size ≤ k.heap.saddr + length k.heap.entries * block_size)
    bounds =
        block_address_bounds k.heap (blocks_for size) s (blocks_for_pos size pos_size small) fits
          pool

    not_null : 0 < ptr
    not_null = omega (arith, bounds)

    fits_size : ptr + size ≤ k.heap.saddr + length k.heap.entries * block_size
    fits_size = omega (arith, bounds, blocks_for_size size pos_size small)

-- Where the blocks lie, from the start of the pool.
pub kzalloc-address :
    (k k' : Kernel) (size s ptr : ℕ)
    → 0 < size
    → size ≤ 2 ^ 32 - block_size
    → IsPool k.heap
    → first_fit (blocks_for size) k.heap.entries ≡ some s
    → kzalloc k size ≡ some (ptr, k')
    → k.heap.saddr % 4096 ≡ 0
    → (ptr ≡ heap_block_to_address k.heap s) × (ptr % 4096 ≡ 0)
unfolding kzalloc kmalloc
kzalloc-address k k' size s ptr pos_size small pool fits e aligned =
    let found = malloc-first_fit k.heap size s pos_size small fits in
    let same : ptr ≡ heap_block_to_address k.heap s =
      ap (λ (r : ℕ × Kernel). r.0) (sym (some-injective _ _ (rw (found) at e))) in
    (same, ap (λ (a : ℕ). a % 4096) same ∙ block_address-aligned k.heap s aligned)
