-- ===== src/Process/Tests.antt =====
-- Processes on a heap of two blocks, for src/task/process.c.
use alpha_os.Prelude.{
  ℕ, zero, suc, pos, ◌+◌, ◌≡◌, ◌≢◌, ◌⊎◌, inr, refl, none, some, [], ◌∷◌, replicate, get_or, ◌==◌,
  if◌then◌else◌, ok, err, enomem, arith,
}
use alpha_os.Memory.Heap.{
  heap_block_to_address, heap_free, heap_mark_block_free, heap_address_to_block, free_loop,
}
use alpha_os.Memory.Kheap.{Kernel, kfree}
use alpha_os.Memory.Paging.{paging_get_physical_address}
use alpha_os.Text.Path.{
  pathparser_parse, pathparser_get_drive_by_path, pathparser_path_valid_format,
}
use alpha_os.Fs.{Files, file_get_descriptor}
use alpha_os.Fs.Calls.{fopen, fclose}
use alpha_os.Elf.Loader.{elf_load}
use alpha_os.Process.{ProcessAllocation, Process, Memory}
use alpha_os.Process.Allocation.{
  process_find_free_allocation_index, free_index_loop, process_malloc,
  process_get_allocation_by_addr, by_addr_loop, process_free, process_allocation_unjoin,
}
use alpha_os.Process.Samples.{
  small_kernel, small_kernel-HasRoom, pages, chunk, mapped_words-IsDirectory, memory,
}
use alpha_os.Process.Slots.{Processes, process_get, process_unlink}
use alpha_os.Process.Malloc.{process_free-malloc}
use alpha_os.Process.Unmap.{process_free-unmaps}
use alpha_os.Process.Table.{IsCurrent, process_unlink_lem}

abbrev with_allocation : ProcessAllocation → Process
with_allocation a = record {
  id = 0;
  filename = [];
  task = 0;
  allocations = a ∷ [];
  file_type = 0;
  ptr = 0;
  elf_file = none;
  stack = 0;
  size = 0;
  arguments = record { argc = 0; argv = 0 };
}

abbrev unused : Process
unused = with_allocation (record { ptr = 0; size = 0 })

abbrev full : Process
full = with_allocation (record { ptr = 0x01000000; size = 10 })

no_index : process_find_free_allocation_index full ≡ err enomem
unfolding process_find_free_allocation_index free_index_loop
no_index = refl

first_index : process_find_free_allocation_index unused ≡ ok 0
unfolding process_find_free_allocation_index free_index_loop
first_index = refl

not_recorded :
    process_get_allocation_by_addr unused (heap_block_to_address small_kernel.heap 1) ≡ none
unfolding process_get_allocation_by_addr by_addr_loop heap_block_to_address
not_recorded = refl

process_free-malloc_example :
    (ptr : ℕ) × (process' process'' : Process) × (m' m'' : Memory) × (process_malloc memory chunk
        unused 10
      ≡ some (ptr, process', m'))
    × ((q : ℕ)
        → q ≢ 0
        → process_get_allocation_by_addr process' q ≡ (
            if ptr == q
            then some (record { ptr = ptr; size = 10 })
            else process_get_allocation_by_addr unused q))
    × (process_free m' chunk process' ptr ≡ some (process'', m''))
    × (m''.kernel.heap ≡ small_kernel.heap)
    × ((q : ℕ)
        → q ≢ 0
        → process_get_allocation_by_addr process'' q ≡ process_get_allocation_by_addr unused q)
process_free-malloc_example =
    process_free-malloc memory chunk (λ n. pages (n + 1)) unused 10 1 0 small_kernel-HasRoom
      mapped_words-IsDirectory first_index not_recorded

recorded_full :
    process_get_allocation_by_addr full 0x01000000 ≡ some (record { ptr = 0x01000000; size = 10 })
unfolding process_get_allocation_by_addr by_addr_loop
recorded_full = refl

abbrev freed_kernel : Kernel
freed_kernel = record {
  heap = record { entries = 0 ∷ 0 ∷ []; saddr = 0x01000000 };
  ram = λ a. 0xAA;
}

freed : kfree small_kernel 0x01000000 ≡ some freed_kernel
unfolding kfree heap_free heap_mark_block_free heap_address_to_block free_loop
freed = refl

-- An address 8 MB behind the allocation.
process_free-unmaps_example :
    (m' : Memory) × (process_free memory chunk full 0x01000000
      ≡ some (process_allocation_unjoin full 0x01000000, m'))
    × (paging_get_physical_address m'.words (pages 0) 0x01800000 ≡ 0x00800000)
process_free-unmaps_example =
    process_free-unmaps memory chunk (λ n. pages (n + 1)) full 0x01000000 10 0x01002000 0x01800000
      freed_kernel mapped_words-IsDirectory recorded_full freed refl (omega arith) refl
      (omega arith) (omega arith) (omega arith)

abbrev one_process : Processes
one_process = record { processes = 0x3000 ∷ 0 ∷ 0x5000 ∷ replicate 9 0; current_process = 0x3000 }

one_process-IsCurrent : IsCurrent one_process
one_process-IsCurrent = inr (0, omega arith, refl)

get_or-replicate_zero : (n m : ℕ) → get_or (replicate {A = ℕ} n 0) m 0 ≡ 0
get_or-replicate_zero zero m = refl
get_or-replicate_zero (suc n) zero = refl
get_or-replicate_zero (suc n) (suc m) = get_or-replicate_zero n m

at_zero : process_get one_process (pos 0) ≡ 0x3000
unfolding process_get
at_zero = refl

others_differ : (m : ℕ) → m ≢ 0 → process_get one_process (pos m) ≢ 0x3000
unfolding process_get
others_differ zero ne e = ne refl
others_differ (suc zero) ne e = omega (arith, e)
others_differ (suc (suc zero)) ne e = omega (arith, e)
others_differ (suc (suc (suc m))) ne e = absurd (ground (arith, e, get_or-replicate_zero 9 m))

process_unlink_example :
    ((s' : Processes) × (process_unlink one_process 0x3000 0 ≡ some s')
      × ((m : ℕ) → process_get s' (pos m) ≡ (if m == 0 then 0 else process_get one_process (pos m)))
      × (s'.current_process ≢ 0x3000)
      × ((s'.current_process ≡ 0x3000) ⊎ ((◌≡◌ {A = ℕ} 0x3000 0x3000) × (s'.current_process ≢ 0)))
      × IsCurrent s')
    ⊎ ((process_unlink one_process 0x3000 0 ≡ none)
        × (◌≡◌ {A = ℕ} 0x3000 0x3000)
        × ((m : ℕ) → m ≢ 0 → process_get one_process (pos m) ≡ 0))
process_unlink_example =
    process_unlink_lem one_process 0x3000 0 refl (omega arith) (λ e. omega (arith, e)) at_zero
      others_differ one_process-IsCurrent

abbrev no_files : Files ℕ
no_files = record { filesystems = []; file_descriptors = []; disk_filesystem = none; state = 0 }

-- A path that does not parse.
not_opened :
    elf_load small_kernel.ram no_files 0x100 0x10000 []
    ≡ some (ok 0, (none, small_kernel.ram, no_files))
unfolding elf_load fopen pathparser_parse pathparser_get_drive_by_path pathparser_path_valid_format
    fclose file_get_descriptor
not_opened = refl
