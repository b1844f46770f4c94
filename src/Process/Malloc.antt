-- ===== src/Process/Malloc.antt =====
-- process_malloc and process_free of src/task/process.c, over the kernel's heap and the page tables.
use alpha_os.Prelude.{
  ℕ, ◌+◌, ◌-◌, ◌*◌, ◌%◌, ◌^◌, ◌≤◌, ◌<◌, ◌≡◌, ◌≢◌, refl, sym, ap, subst, ◌∙◌, true, false, ◌==◌,
  if◌then◌else◌, none, some, set, length, ok, err, Errno, arith, ◌>>=◌,
}
use alpha_os.Memory.Heap.{block_size, heap_block_to_address}
use alpha_os.Memory.Heap.Scan.{first_fit}
use alpha_os.Memory.Heap.Alloc.{IsPool, IsClean, blocks_for}
use alpha_os.Memory.Kheap.{Kernel, kzalloc, kfree}
use alpha_os.Memory.Kheap.Laws.{kzalloc_lem, kzalloc-address}
use alpha_os.Memory.Paging.{Chunk, paging_map_to, paging_align_address}
use alpha_os.Memory.Paging.Table.{IsDirectory}
use alpha_os.Memory.Paging.Align.{paging_align_address_lem, paging_map_to-IsDirectory}
use alpha_os.Process.{Process, Memory}
use alpha_os.Process.Allocation.{
  process_find_free_allocation_index, process_malloc, malloc_failed, process_allocation_unjoin,
  process_get_allocation_by_addr, process_free, by_addr_loop,
}
use alpha_os.Process.Lookup.{FirstFree, free_index-FirstFree, by_addr-set, unjoin-set, by_addr-null}

-- Room for `size` bytes from the s-th block on, in a pool of whole pages below 2 GB.
pub record HasRoom (k : Kernel) (size s : ℕ) : Type 0 where
  pub pos_size : 0 < size
  pub small : size ≤ 2 ^ 32 - block_size
  pub pool : IsPool k.heap
  pub clean : IsClean k.heap
  pub fits : first_fit (blocks_for size) k.heap.entries ≡ some s
  pub aligned : k.heap.saddr % 4096 ≡ 0
  pub low : k.heap.saddr + length k.heap.entries * block_size < 2 ^ 31

-- Without a free entry in the table of allocations, process_malloc returns NULL, and leaves the
-- process and the heap as they were.
pub process_malloc-full :
    (m : Memory) (chunk : Chunk) (process : Process) (size s : ℕ) (e : Errno)
    → HasRoom m.kernel size s
    → process_find_free_allocation_index process ≡ err e
    → (m' : Memory) × (process_malloc m chunk process size ≡ some (0, process, m'))
      × (m'.kernel.heap ≡ m.kernel.heap)
      × (m'.words ≡ m.words)
unfolding process_malloc malloc_failed
process_malloc-full m chunk process size s e room full =
    let (ptr, k, k', got, pos, above, below, zeroed, freed, same) =
      kzalloc_lem m.kernel size s room.pos_size room.small room.pool room.clean room.fits in
    let t : (ptr == 0) ≡ false = ground arith in
    (record m { kernel = k' }, rw (got, process_malloc, ◌>>=◌, t, full, freed) refl, same, refl)

recorded : Process → ℕ → ℕ → ℕ → Process
recorded process i ptr size = record process {
  allocations = set process.allocations i (record { ptr = ptr; size = size });
}

process_malloc-eq :
    (m : Memory) (chunk : Chunk) (process : Process) (size ptr i : ℕ) (k : Kernel)
    → kzalloc m.kernel size ≡ some (ptr, k)
    → ptr ≢ 0
    → process_find_free_allocation_index process ≡ ok i
    → (paging_map_to m.words chunk ptr ptr (paging_align_address ((ptr + size) % 2 ^ 32)) 7).0
      ≡ ok 0
    → process_malloc m chunk process size
      ≡ some (
        ptr,
        recorded process i ptr size,
        record {
          kernel = k;
          words =
              (paging_map_to m.words chunk ptr ptr
                (paging_align_address ((ptr + size) % 2 ^ 32))
                7).1;
        },
      )
unfolding process_malloc recorded
process_malloc-eq m chunk process size ptr i k got nz free mapped =
    let t : (ptr == 0) ≡ false = ground arith in
    rw (got, process_malloc, ◌>>=◌, t, free, mapped) refl

pub process_free-eq :
    (m : Memory) (chunk : Chunk) (process : Process) (ptr size : ℕ) (k : Kernel)
    → process_get_allocation_by_addr process ptr ≡ some (record { ptr = ptr; size = size })
    → (paging_map_to m.words chunk ptr 0 (paging_align_address ((ptr + size) % 2 ^ 32)) 0).0 ≡ ok 0
    → kfree m.kernel ptr ≡ some k
    → process_free m chunk process ptr
      ≡ some (
        process_allocation_unjoin process ptr,
        record {
          kernel = k;
          words =
              (paging_map_to m.words chunk ptr 0
                (paging_align_address ((ptr + size) % 2 ^ 32))
                0).1;
        },
      )
unfolding process_free
process_free-eq m chunk process ptr size k found mapped freed =
    rw (found, process_free, mapped, freed) refl

-- Where the range of an allocation ends on a page.
pub aligned_end :
    (ptr size top : ℕ)
    → ptr + size ≤ top
    → top % 4096 ≡ 0
    → top < 2 ^ 31
    → (paging_align_address ((ptr + size) % 2 ^ 32) % 4096 ≡ 0)
      × (ptr + size ≤ paging_align_address ((ptr + size) % 2 ^ 32))
      × (paging_align_address ((ptr + size) % 2 ^ 32) ≤ top)
aligned_end ptr size top h page low =
    let e : (ptr + size) % 2 ^ 32 ≡ ptr + size = omega arith in
    let a = paging_align_address_lem (ptr + size) (omega arith) in rw e (a.0, a.1, omega (arith, a))

module _ (m : Memory) (chunk : Chunk) (tables : ℕ → ℕ) (process : Process) (size s i : ℕ)
    (room : HasRoom m.kernel size s) (dir : IsDirectory m.words chunk.directory_entry tables)
    (free : process_find_free_allocation_index process ≡ ok i)
    (new : process_get_allocation_by_addr process (heap_block_to_address m.kernel.heap s)
      ≡ none) where
  -- With a free entry, room in a clean pool of whole pages below 2 GB, 1024 distinct tables, and no
  -- allocation yet at the address of the room, process_malloc returns a pointer that is then in the
  -- table of allocations with its size, beside those that were there; process_free of it gives the
  -- heap and what the table holds back.
  pub process_free-malloc :
      (ptr : ℕ) × (process' process'' : Process) × (m' m'' : Memory) × (process_malloc m chunk
          process size
        ≡ some (ptr, process', m'))
      × ((q : ℕ)
          → q ≢ 0
          → process_get_allocation_by_addr process' q ≡ (
              if ptr == q
              then some (record { ptr = ptr; size = size })
              else process_get_allocation_by_addr process q))
      × (process_free m' chunk process' ptr ≡ some (process'', m''))
      × (m''.kernel.heap ≡ m.kernel.heap)
      × ((q : ℕ)
          → q ≢ 0
          → process_get_allocation_by_addr process'' q ≡ process_get_allocation_by_addr process q)
  unfolding process_get_allocation_by_addr process_allocation_unjoin
      process_find_free_allocation_index recorded
  process_free-malloc =
      let (ptr, k, k', got, pos, above, below, zeroed, freed, same) =
        kzalloc_lem m.kernel size s room.pos_size room.small room.pool room.clean room.fits in
      let (address, page) =
        kzalloc-address m.kernel k size s ptr room.pos_size room.small room.pool room.fits got
          room.aligned in
      let top = m.kernel.heap.saddr + length m.kernel.heap.entries * block_size in
      let e = aligned_end ptr size top below (omega (arith, room.aligned)) room.low in
      let end = paging_align_address ((ptr + size) % 2 ^ 32) in
      let mapped =
        paging_map_to-IsDirectory m.words chunk tables ptr ptr end 7 dir page page e.0
          (omega (arith, e)) (omega (arith, e, room.low)) (omega (arith, e, room.low)) in
      let words = (paging_map_to m.words chunk ptr ptr end 7).1 in
      let unmapped =
        paging_map_to-IsDirectory words chunk tables ptr 0 end 0 mapped.1 page refl e.0
          (omega (arith, e)) (omega (arith, e, room.low)) (omega (arith, e, room.low)) in
      let words' = (paging_map_to words chunk ptr 0 end 0).1 in
      let (j, ej, first) = free_index-FirstFree process.allocations 0 i free in
      let absent : by_addr_loop process.allocations ptr ≡ none =
        subst (λ a. by_addr_loop process.allocations a ≡ none) (sym address) new in
      let first' : FirstFree process.allocations i =
        subst (λ n. FirstFree process.allocations n) (omega (arith, ej)) first in
      let nz : ptr ≢ 0 = λ z. omega arith in
      let process' = recorded process i ptr size in
      let lookup =
        λ (q : ℕ) (nq : q ≢ 0). by_addr-set process.allocations i ptr size q first' absent nq in
      let t : (ptr == ptr) ≡ true = ground arith in
      let found : process_get_allocation_by_addr process' ptr
          ≡ some (record { ptr = ptr; size = size }) =
        rw t at (lookup ptr nz) in
      let m' : Memory = record { kernel = k; words = words } in
      (
        ptr,
        process',
        process_allocation_unjoin process' ptr,
        m',
        record { kernel = k'; words = words' },
        process_malloc-eq m chunk process size ptr i k got nz free mapped.0,
        lookup,
        process_free-eq m' chunk process' ptr size k' found unmapped.0 freed,
        same,
        λ q nq.
            ap (λ as'. by_addr_loop as' q) (unjoin-set process.allocations i ptr size first' absent)
            ∙ by_addr-null process.allocations i q first' nq,
      )
