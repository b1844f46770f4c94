-- ===== src/Process/Load.antt =====
-- The loading of a process in src/task/process.c: the loader, the stack, the task and the mapping of the
-- memory together. `none` is a panic, or an access through NULL or an error code.
pub mod Missing
pub mod Loaded
pub mod Branches
mod Tests
use alpha_os.Prelude.{
  ℕ, ◌==◌, not, if◌then◌else◌, Option, none, some, List, [], replicate, take, Result, ok, err,
  enomem, eistkn, status, ℤ, pos, ◌>>=◌,
}
use alpha_os.Memory.Kheap.{Kernel, kzalloc, kfree}
use alpha_os.Memory.Paging.{Chunk, paging_new_4gb}
use alpha_os.Fs.{Files}
use alpha_os.Elf.{header_at, elf_header}
use alpha_os.Elf.Loader.{is_negative}
use alpha_os.Task.{Tasks, task_new}
use alpha_os.Process.{Process, Memory, filetype_elf}
use alpha_os.Process.Allocation.{max_program_allocations}
use alpha_os.Process.Program.{process_load_data, process_map_memory, is_pos}
use alpha_os.Process.Slots.{process_get, process_get_free_slot, process_switch, take_slot}
use alpha_os.Process.World.{World, at_address}

-- sizeof(struct process), where the compiler aligns an int at 4 bytes.
abbrev pub process_size : ℕ
process_size = 9364

abbrev pub user_program_stack_size : ℕ
user_program_stack_size = 0x4000

-- What the calls of kzalloc for other structures return: the file's bytes in elf_load, the task, and
-- the directory, tables and chunk of paging_new_4gb. `elf_signature` is the constant's address.
pub record Answers : Type 0 where
  pub elf_signature : ℕ
  pub elf_memory : ℕ
  pub task_memory : ℕ
  pub alloc : ℕ → ℕ

-- process_init: a structure of zeros.
abbrev pub process_init : Process
process_init = record {
  id = 0;
  filename = [];
  task = 0;
  allocations = replicate max_program_allocations (record { ptr = 0; size = 0 });
  file_type = 0;
  ptr = 0;
  elf_file = none;
  stack = 0;
  size = 0;
  arguments = record { argc = 0; argv = 0 };
}

-- The entry point that task_init reads from an ELF file, and `none` inside for another file.
unfoldable pub entry_of : Kernel → Process → Option (Option ℕ)
unfolding header_at elf_header
entry_of k process =
    if process.file_type == filetype_elf
    then elim process.elf_file [
      | none ↦ none
      | some file ↦ some (some (header_at k.ram (elf_header file)).e_entry)
    ]
    else some none

module _ {ℓ} {S : Type ℓ} where
  -- From the task on. The test for a failure of task_new compares its error code with 0, and does not
  -- find it. A failure to map frees the stack, and no more.
  unfoldable pub load_task :
      World S → Answers → ℕ → ℕ → Process → Kernel → Files S → Option (ℤ × ℕ × World S)
  unfolding task_new process_map_memory entry_of take_slot at_address
  load_task w a process_slot p process k files = do
    entry ← entry_of k process
    let (chunk, words) = paging_new_4gb a.alloc w.memory.words 0b101
    (created, tasks) ← task_new w.tasks a.task_memory chunk.address p entry
    elim created [
      | err _ ↦ none
      | ok task ↦ do
        let process' : Process = record process { task = task }
        (res, words') ← process_map_memory k.ram words chunk process'
        elim res [
          | err e ↦ do
            k' ← kfree k process'.stack
            some (
              status e,
              0,
              record w {
                memory = record { kernel = k'; words = words' };
                files = files;
                tasks = tasks;
                process_at = at_address w.process_at p (some process');
                chunk_at = at_address w.chunk_at chunk.address (some chunk);
              },
            )
          | ok _ ↦ some (
            pos 0,
            p,
            record w {
              memory = record { kernel = k; words = words' };
              files = files;
              tasks = tasks;
              table = take_slot w.table process_slot p;
              process_at = at_address w.process_at p (some process');
              chunk_at = at_address w.chunk_at chunk.address (some chunk);
            },
          )
        ]
    ]

  -- From the loader on; before the stack is there, an error frees nothing.
  unfoldable pub load_program :
      World S → Answers → List ℕ → ℕ → ℕ → Kernel → Option (ℤ × ℕ × World S)
  unfolding process_load_data is_negative load_task
  load_program w a filename process_slot p k = do
    (res, process, k1, files) ←
        process_load_data k w.files process_init a.elf_signature a.elf_memory filename
    let loaded : World S = record w { memory = record w.memory { kernel = k1 }; files = files }
    if is_negative res then some (res, 0, loaded) else (do
      (stack, k2) ← kzalloc k1 user_program_stack_size
      if stack == 0
          then some (status enomem, 0, record loaded { memory = record w.memory { kernel = k2 } })
          else load_task w a process_slot p
              (record process { filename = take 107 filename; stack = stack; id = process_slot }) k2
              files)

  -- The int, and what is written to `*process`, 0 for nothing.
  unfoldable pub process_load_for_slot : World S → Answers → List ℕ → ℕ → Option (ℤ × ℕ × World S)
  unfolding process_get load_program
  process_load_for_slot w a filename process_slot =
      if not (process_get w.table (pos process_slot) == 0) then some (status eistkn, 0, w) else do
        (p, k) ← kzalloc w.memory.kernel process_size
        if p == 0
            then some (status enomem, 0, record w { memory = record w.memory { kernel = k } })
            else load_program w a filename process_slot p k

  unfoldable pub process_load : World S → Answers → List ℕ → Option (ℤ × ℕ × World S)
  unfolding process_get_free_slot process_load_for_slot
  process_load w a filename = elim (process_get_free_slot w.table) [
    | err _ ↦ some (status eistkn, 0, w)
    | ok process_slot ↦ process_load_for_slot w a filename process_slot
  ]

  unfoldable pub process_load_switch : World S → Answers → List ℕ → Option (ℤ × ℕ × World S)
  unfolding process_load process_switch is_pos
  process_load_switch w a filename = do
    (res, p, w') ← process_load w a filename
    if is_pos res 0
        then some (res, p, record w' { table = process_switch w'.table p })
        else some (res, p, w')
