-- ===== src/Process/Allocation.antt =====
-- The allocations of a process in src/task/process.c. `chunk` is the page directory of its task.
use alpha_os.Prelude.{
  get_elem?, ℕ, zero, suc, ◌+◌, ◌%◌, ◌^◌, Bool, true, false, ◌==◌, if◌then◌else◌, Option, none,
  some, List, [], ◌∷◌, set, Result, ok, err, enomem, ◌>>=◌,
}
use alpha_os.Memory.Kheap.{kzalloc, kfree}
use alpha_os.Memory.Paging.{Chunk, paging_map_to, paging_align_address}
use alpha_os.Process.{ProcessAllocation, Process, Memory}

-- The first free allocation from `i` on.
unfoldable pub free_index_loop : List ProcessAllocation → ℕ → Result ℕ
free_index_loop [] i = err enomem
free_index_loop (a ∷ allocations) i =
    if a.ptr == 0 then ok i else free_index_loop allocations (i + 1)

unfoldable pub process_find_free_allocation_index : Process → Result ℕ
unfolding free_index_loop
process_find_free_allocation_index process = free_index_loop process.allocations 0

-- The way out with an error, which frees what was allocated.
unfoldable pub malloc_failed : Process → Memory → ℕ → Option (ℕ × Process × Memory)
malloc_failed process m ptr = do k ← kfree m.kernel ptr; some (0, process, record m { kernel = k })

-- The flags are PAGING_IS_PRESENT, PAGING_ACCESS_FROM_ALL and PAGING_IS_WRITABLE.
unfoldable pub process_malloc : Memory → Chunk → Process → ℕ → Option (ℕ × Process × Memory)
unfolding process_find_free_allocation_index malloc_failed
process_malloc m chunk process size = do
  (ptr, k) ← kzalloc m.kernel size
  let m' : Memory = record m { kernel = k }
  if ptr == 0 then some (0, process, m') else elim (process_find_free_allocation_index process) [
    | err _ ↦ malloc_failed process m' ptr
    | ok index ↦
        let (res, words) =
          paging_map_to m'.words chunk ptr ptr (paging_align_address ((ptr + size) % 2 ^ 32))
            0b111 in
        let m'' : Memory = record m' { words = words } in
        elim res [
          | err _ ↦ malloc_failed process m'' ptr
          | ok _ ↦ some (
            ptr,
            record process {
              allocations = set process.allocations index (record { ptr = ptr; size = size });
            },
            m'',
          )
        ]
  ]

unfoldable pub pointer_loop : List ProcessAllocation → ℕ → Bool
pointer_loop [] ptr = false
pointer_loop (a ∷ allocations) ptr = if a.ptr == ptr then true else pointer_loop allocations ptr

unfoldable pub process_is_process_pointer : Process → ℕ → Bool
unfolding pointer_loop
process_is_process_pointer process ptr = pointer_loop process.allocations ptr

unfoldable pub unjoin_loop : List ProcessAllocation → ℕ → List ProcessAllocation
unjoin_loop [] ptr = []
unjoin_loop (a ∷ allocations) ptr =
    if a.ptr == ptr
    then record { ptr = 0; size = 0 } ∷ allocations
    else a ∷ unjoin_loop allocations ptr

unfoldable pub process_allocation_unjoin : Process → ℕ → Process
unfolding unjoin_loop
process_allocation_unjoin process ptr = record process {
  allocations = unjoin_loop process.allocations ptr;
}

unfoldable pub by_addr_loop : List ProcessAllocation → ℕ → Option ProcessAllocation
by_addr_loop [] addr = none
by_addr_loop (a ∷ allocations) addr =
    if a.ptr == addr then some a else by_addr_loop allocations addr

unfoldable pub process_get_allocation_by_addr : Process → ℕ → Option ProcessAllocation
unfolding by_addr_loop
process_get_allocation_by_addr process addr = by_addr_loop process.allocations addr

-- The pages from the allocation on are mapped to those from 0 up to its end.
unfoldable pub process_free : Memory → Chunk → Process → ℕ → Option (Process × Memory)
unfolding process_get_allocation_by_addr process_allocation_unjoin
process_free m chunk process ptr = elim (process_get_allocation_by_addr process ptr) [
  | none ↦ some (process, m)
  | some allocation ↦
      let (res, words) =
        paging_map_to m.words chunk allocation.ptr 0
          (paging_align_address ((allocation.ptr + allocation.size) % 2 ^ 32)) 0x00 in
      let m' : Memory = record m { words = words } in
      elim res [
        | err _ ↦ some (process, m')
        | ok _ ↦ do
          k ← kfree m'.kernel ptr
          some (process_allocation_unjoin process ptr, record m' { kernel = k })
      ]
]

-- The loop of process_terminate_allocation from the i-th allocation on, with `left` to go.
unfoldable pub terminate_loop : Memory → Chunk → Process → ℕ → ℕ → Option (Process × Memory)
unfolding process_free
terminate_loop m chunk process zero i = some (process, m)
terminate_loop m chunk process (suc left) i = do
  a ← get_elem? process.allocations i
  (process', m') ← process_free m chunk process a.ptr
  terminate_loop m' chunk process' left (i + 1)

-- ALPHAOS_MAX_PROGRAM_ALLOCATIONS
abbrev pub max_program_allocations : ℕ
max_program_allocations = 1024

unfoldable pub process_terminate_allocation : Memory → Chunk → Process → Option (Process × Memory)
unfolding terminate_loop
process_terminate_allocation m chunk process =
    terminate_loop m chunk process max_program_allocations 0
