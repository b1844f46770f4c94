-- ===== src/Process/Terminate.antt =====
-- process_terminate of src/task/process.c, with what it calls. `elf_address` is the address of the
-- process's `struct elf_file`; a panic and an access outside the modelled memory are `none`.
pub mod Unused
mod Tests
use alpha_os.Prelude.{
  ℕ, ◌==◌, if◌then◌else◌, Option, none, some, List, [], ◌∷◌, Result, ok, err, einvarg, ◌>>=◌,
}
use alpha_os.Memory.Kheap.{Kernel, kfree}
use alpha_os.Memory.Paging.{Chunk, paging_free_4gb}
use alpha_os.Memory.Paging.Store.{Words}
use alpha_os.Elf.{ElfFile}
use alpha_os.Task.{Tasks, task_free}
use alpha_os.Process.{Process, Memory, filetype_elf, filetype_binary}
use alpha_os.Process.Allocation.{process_terminate_allocation}
use alpha_os.Process.Slots.{process_unlink}
use alpha_os.Process.World.{World, at_address}

unfoldable pub process_free_binary_data : Kernel → Process → Option Kernel
process_free_binary_data k process = kfree k process.ptr

unfoldable pub elf_close : Kernel → Option ElfFile → ℕ → Option Kernel
elf_close k file elf_address = elim file [
  | none ↦ some k
  | some f ↦ do k' ← kfree k f.elf_memory; kfree k' elf_address
]

unfoldable pub process_free_elf_data : Kernel → Process → ℕ → Option Kernel
unfolding elf_close
process_free_elf_data k process elf_address = elf_close k process.elf_file elf_address

unfoldable pub process_free_program_data : Kernel → Process → ℕ → Option (Result ℕ × Kernel)
unfolding process_free_binary_data process_free_elf_data
process_free_program_data k process elf_address =
    if process.file_type == filetype_binary
    then (do k' ← process_free_binary_data k process; some (ok 0, k'))
    else if process.file_type == filetype_elf
    then (do k' ← process_free_elf_data k process elf_address; some (ok 0, k'))
    else some (err einvarg, k)

-- The calls of kfree in paging_free_4gb, in order.
unfoldable pub kfree_all : Kernel → List ℕ → Option Kernel
kfree_all k [] = some k
kfree_all k (ptr ∷ ptrs) = do k' ← kfree k ptr; kfree_all k' ptrs

-- task_free with the heap.
unfoldable pub task_free_memory : Kernel → Words → Chunk → Tasks → ℕ → Option (Kernel × Tasks)
unfolding kfree_all
task_free_memory k words chunk tasks task = do
  k1 ← kfree_all k (paging_free_4gb words chunk)
  tasks' ← task_free tasks task
  k2 ← kfree k1 task
  some (k2, tasks')

module _ {ℓ} {S : Type ℓ} where
  -- The part behind the allocations. An unknown file type ends it early, and 0 is returned all the same.
  unfoldable pub terminate_rest : World S → ℕ → ℕ → Process → Chunk → Memory → Option (World S)
  unfolding process_free_program_data task_free_memory at_address
  terminate_rest w p elf_address process chunk m = do
    (res, k1) ← process_free_program_data m.kernel process elf_address
    let m1 : Memory = record m { kernel = k1 }
    elim res [
      | err _ ↦
          some (record w { memory = m1; process_at = at_address w.process_at p (some process) })
      | ok _ ↦ do
        k2 ← kfree k1 process.stack
        (k3, tasks') ← task_free_memory k2 m.words chunk w.tasks process.task
        table' ← process_unlink w.table p process.id
        some (record w {
          memory = record m { kernel = k3 };
          tasks = tasks';
          table = table';
          process_at = at_address w.process_at p (some process);
        })
    ]

  -- The structure of the process is not freed.
  unfoldable pub process_terminate : World S → ℕ → ℕ → Option (World S)
  unfolding terminate_rest
  process_terminate w p elf_address = do
    process ← w.process_at p
    t ← w.tasks.store process.task
    chunk ← w.chunk_at t.page_directory
    (process', m) ← process_terminate_allocation w.memory chunk process
    terminate_rest w p elf_address process' chunk m
