-- ===== src/Process/Unmap.antt =====
-- The pages that process_free of src/task/process.c maps.
use alpha_os.Prelude.{ℕ, ◌+◌, ◌-◌, ◌%◌, ◌^◌, ◌≤◌, ◌<◌, ◌≡◌, refl, ◌∙◌, true, within, some, arith}
use alpha_os.Memory.Kheap.{Kernel, kfree}
use alpha_os.Memory.Paging.{Chunk, paging_map_to, paging_align_address, paging_get_physical_address}
use alpha_os.Memory.Paging.Table.{IsDirectory}
use alpha_os.Memory.Paging.Map.{paging_map_to_translates}
use alpha_os.Process.{Process, Memory}
use alpha_os.Process.Allocation.{
  process_allocation_unjoin, process_get_allocation_by_addr, process_free,
}
use alpha_os.Process.Malloc.{process_free-eq, aligned_end}

-- With 1024 distinct tables, and where kfree succeeds, process_free of an allocation below 2 GB, on
-- a page, maps as many bytes as lie below the end of the allocation, from its start on, to physical
-- 0: every virtual address up to that distance behind the start, so also far behind the end,
-- translates to its distance from the start.
pub process_free-unmaps :
    (m : Memory) (chunk : Chunk) (tables : ℕ → ℕ) (process : Process) (ptr size top a : ℕ)
    (k : Kernel)
    → IsDirectory m.words chunk.directory_entry tables
    → process_get_allocation_by_addr process ptr ≡ some (record { ptr = ptr; size = size })
    → kfree m.kernel ptr ≡ some k
    → ptr % 4096 ≡ 0
    → ptr + size ≤ top
    → top % 4096 ≡ 0
    → top < 2 ^ 31
    → ptr ≤ a
    → a < ptr + (ptr + size)
    → (m' : Memory) × (process_free m chunk process ptr
        ≡ some (process_allocation_unjoin process ptr, m'))
      × (paging_get_physical_address m'.words chunk.directory_entry a ≡ a - ptr)
process_free-unmaps m chunk tables process ptr size top a k dir found freed page inside top_page low
      above below =
    let e = aligned_end ptr size top inside top_page low in
    let end = paging_align_address ((ptr + size) % 2 ^ 32) in
    let mapped =
      paging_map_to_translates m.words chunk tables ptr 0 end 0 a dir page refl e.0
        (omega (arith, e)) (omega (arith, e)) (omega (arith, e)) (omega arith) (omega (arith, e)) in
    let t : within ptr (end - 0) a ≡ true = ground (arith, e) in
    (
      record { kernel = k; words = (paging_map_to m.words chunk ptr 0 end 0).1 },
      process_free-eq m chunk process ptr size k found mapped.0 freed,
      rw t at (mapped.1) ∙ omega arith,
    )
