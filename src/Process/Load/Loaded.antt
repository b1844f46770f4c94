-- ===== src/Process/Load/Loaded.antt =====
-- What process_load of src/task/process.c leaves behind, where the file loads and where its memory
-- cannot be mapped.
use alpha_os.Prelude.{
  ℕ, ◌≡◌, ◌≢◌, refl, sym, ap, subst, inl, inr, ◌∙◌, false, ◌==◌, if◌then◌else◌, Option, some, List,
  Result, ok, err, Errno, status, pos, take, length, arith, ◌>>=◌,
}
use alpha_os.Memory.Kheap.{Kernel, kzalloc, kfree}
use alpha_os.Memory.Paging.{Chunk, paging_new_4gb}
use alpha_os.Memory.Paging.Store.{Words}
use alpha_os.Fs.{Files}
use alpha_os.Task.{Tasks, task_new}
use alpha_os.Process.{Process}
use alpha_os.Process.Program.{process_load_data, process_map_memory, is_pos}
use alpha_os.Process.Slots.{
  Processes, max_processes, process_get, process_get_free_slot, process_current, process_switch,
  take_slot,
}
use alpha_os.Process.Table.{process_get_free_slot_lem}
use alpha_os.Process.World.{World, at_address}
use alpha_os.Process.Load.{
  Answers, process_init, process_size, user_program_stack_size, entry_of, load_task, load_program,
  process_load_for_slot, process_load, process_load_switch,
}

ok-injective : {a b : ℕ} → ok a ≡ ok b → a ≡ b
ok-injective {a} {b} e = ap (λ (r : Result ℕ). elim r [ ok n ↦ n | err _ ↦ a ]) e

ok-err : {a : ℕ} {x : Errno} → ok a ≢ err x
ok-err e = ground arith

module _ {S : Type 0} (w : World S) (a : Answers) (filename : List ℕ) (slot : ℕ) where
  -- The steps before the mapping, with memory for the process and its stack, and a file that loads.
  pub record IsLoaded (p stack task : ℕ) (k k1 k2 : Kernel) (process : Process) (files : Files S)
      (entry : Option ℕ) (tasks : Tasks) : Type 0 where
    pub structure : kzalloc w.memory.kernel process_size ≡ some (p, k)
    pub structure_there : p ≢ 0
    pub loads :
        process_load_data k w.files process_init a.elf_signature a.elf_memory filename
        ≡ some (pos 0, process, k1, files)
    pub stack_given : kzalloc k1 user_program_stack_size ≡ some (stack, k2)
    pub stack_there : stack ≢ 0
    pub entry_read : entry_of k2 process ≡ some entry
    pub task_made :
        task_new w.tasks a.task_memory
          (paging_new_4gb a.alloc w.memory.words 0b101).0.address
          p
          entry
        ≡ some (ok task, tasks)

  -- The process with what process_load_for_slot fills in.
  abbrev pub filled : Process → ℕ → ℕ → Process
  filled process stack task = record process {
    filename = take 107 filename;
    stack = stack;
    id = slot;
    task = task;
  }

  module _ (p stack task : ℕ) (k k1 k2 : Kernel) (process : Process) (files : Files S)
      (entry : Option ℕ) (tasks : Tasks)
      (v : IsLoaded p stack task k k1 k2 process files entry tasks) where
    abbrev new_chunk : Chunk
    new_chunk = (paging_new_4gb a.alloc w.memory.words 0b101).0

    abbrev new_words : Words
    new_words = (paging_new_4gb a.alloc w.memory.words 0b101).1

    to_load_task :
        process_get w.table (pos slot) ≡ 0
        → process_load_for_slot w a filename slot
          ≡ load_task w a slot p
              (record process { filename = take 107 filename; stack = stack; id = slot })
              k2
              files
    unfolding process_load_for_slot load_program
    to_load_task free =
        let structure : (p == 0) ≡ false = ground (arith, v.structure_there) in
        let room : (stack == 0) ≡ false = ground (arith, v.stack_there) in
        rw (free, v.structure, ◌>>=◌, structure, v.loads, v.stack_given, room) refl

    load_task-mapped :
        (n : ℕ) (words : Words)
        → process_map_memory k2.ram new_words new_chunk (filled process stack task)
          ≡ some (ok n, words)
        → load_task w a slot p
            (record process { filename = take 107 filename; stack = stack; id = slot })
            k2
            files
          ≡ some (
            pos 0,
            p,
            record w {
              memory = record { kernel = k2; words = words };
              files = files;
              tasks = tasks;
              table = take_slot w.table slot p;
              process_at = at_address w.process_at p (some (filled process stack task));
              chunk_at = at_address w.chunk_at new_chunk.address (some new_chunk);
            },
          )
    unfolding load_task
    load_task-mapped n words mapped = rw (v.entry_read, ◌>>=◌, v.task_made, mapped) refl

    load_task-unmapped :
        (e : Errno) (words : Words) (k3 : Kernel)
        → process_map_memory k2.ram new_words new_chunk (filled process stack task)
          ≡ some (err e, words)
        → kfree k2 stack ≡ some k3
        → load_task w a slot p
            (record process { filename = take 107 filename; stack = stack; id = slot })
            k2
            files
          ≡ some (
            status e,
            0,
            record w {
              memory = record { kernel = k3; words = words };
              files = files;
              tasks = tasks;
              process_at = at_address w.process_at p (some (filled process stack task));
              chunk_at = at_address w.chunk_at new_chunk.address (some new_chunk);
            },
          )
    unfolding load_task
    load_task-unmapped e words k3 mapped freed =
        rw (v.entry_read, ◌>>=◌, v.task_made, mapped, freed) refl

pub free_slot-table :
    (s : Processes) (slot : ℕ)
    → length s.processes ≡ max_processes
    → process_get_free_slot s ≡ ok slot
    → (process_get s (pos slot) ≡ 0)
      × ((process n : ℕ)
          → process_get (take_slot s slot process) (pos n)
            ≡ (if n == slot then process else process_get s (pos n)))
free_slot-table s slot full found = elim (process_get_free_slot_lem s full) [
  | inl (slot', e, free, first, taken) ↦
      let same : slot' ≡ slot = ok-injective (sym e ∙ found) in
      subst
        (λ n.
          (process_get s (pos n) ≡ 0)
          × ((process m : ℕ)
              → process_get (take_slot s n process) (pos m)
                ≡ (if m == n then process else process_get s (pos m))))
        same (free, taken)
  | inr (e, all) ↦ absurd (ok-err (sym found ∙ e))
]

module _ {S : Type 0} where
  -- With a table of 12 entries, a free slot, and steps that succeed up to the mapping of the memory:
  -- where the mapping succeeds, process_load_switch returns 0 and the process, which is then the one in
  -- the first free slot, the current one, and the one that its address gives, while every other slot
  -- gives what it gave.
  pub process_load_switch-mapped :
      (w : World S) (a : Answers) (filename : List ℕ) (slot p stack task : ℕ) (k k1 k2 : Kernel)
      (process : Process) (files : Files S) (entry : Option ℕ) (tasks : Tasks) (n : ℕ)
      (words : Words)
      → length w.table.processes ≡ max_processes
      → process_get_free_slot w.table ≡ ok slot
      → IsLoaded w a filename slot p stack task k k1 k2 process files entry tasks
      → process_map_memory k2.ram
          (paging_new_4gb a.alloc w.memory.words 0b101).1
          (paging_new_4gb a.alloc w.memory.words 0b101).0
          (filled w a filename slot process stack task)
        ≡ some (ok n, words)
      → (w' : World S) × (process_load_switch w a filename ≡ some (pos 0, p, w'))
        × (process_current w'.table ≡ p)
        × ((m : ℕ)
            → process_get w'.table (pos m) ≡ (if m == slot then p else process_get w.table (pos m)))
        × (w'.process_at p ≡ some (filled w a filename slot process stack task))
        × (w'.tasks ≡ tasks)
  unfolding process_load_switch process_load process_current process_get process_switch is_pos
      at_address
  process_load_switch-mapped w a filename slot p stack task k k1 k2 process files entry tasks n
        words full found v mapped =
      let (free, taken) = free_slot-table w.table slot full found in
      let run =
        to_load_task w a filename slot p stack task k k1 k2 process files entry tasks v free
        ∙ load_task-mapped w a filename slot p stack task k k1 k2 process files entry tasks v n
            words mapped in
      let chunk = (paging_new_4gb a.alloc w.memory.words 0b101).0 in
      (
        record w {
          memory = record { kernel = k2; words = words };
          files = files;
          tasks = tasks;
          table = process_switch (take_slot w.table slot p) p;
          process_at =
              at_address w.process_at p (some (filled w a filename slot process stack task));
          chunk_at = at_address w.chunk_at chunk.address (some chunk);
        },
        rw (found, run, ◌>>=◌) refl,
        refl,
        λ m. taken p m,
        ground arith,
        refl,
      )

  -- Where the mapping fails with an error, process_load returns it and frees the stack, but the task
  -- stays in the list: its structure gives the process, which has the freed stack and no slot.
  pub process_load-unmapped :
      (w : World S) (a : Answers) (filename : List ℕ) (slot p stack task : ℕ) (k k1 k2 k3 : Kernel)
      (process : Process) (files : Files S) (entry : Option ℕ) (tasks : Tasks) (e : Errno)
      (words : Words)
      → length w.table.processes ≡ max_processes
      → process_get_free_slot w.table ≡ ok slot
      → IsLoaded w a filename slot p stack task k k1 k2 process files entry tasks
      → process_map_memory k2.ram
          (paging_new_4gb a.alloc w.memory.words 0b101).1
          (paging_new_4gb a.alloc w.memory.words 0b101).0
          (filled w a filename slot process stack task)
        ≡ some (err e, words)
      → kfree k2 stack ≡ some k3
      → (w' : World S) × (process_load w a filename ≡ some (status e, 0, w'))
        × (w'.table ≡ w.table)
        × (w'.tasks ≡ tasks)
        × (w'.memory.kernel ≡ k3)
        × (w'.process_at p ≡ some (filled w a filename slot process stack task))
  unfolding process_load at_address
  process_load-unmapped w a filename slot p stack task k k1 k2 k3 process files entry tasks e words
        full found v mapped freed =
      let (free, taken) = free_slot-table w.table slot full found in
      let run =
        to_load_task w a filename slot p stack task k k1 k2 process files entry tasks v free
        ∙ load_task-unmapped w a filename slot p stack task k k1 k2 process files entry tasks v e
            words k3 mapped freed in
      let chunk = (paging_new_4gb a.alloc w.memory.words 0b101).0 in
      (
        record w {
          memory = record { kernel = k3; words = words };
          files = files;
          tasks = tasks;
          process_at =
              at_address w.process_at p (some (filled w a filename slot process stack task));
          chunk_at = at_address w.chunk_at chunk.address (some chunk);
        },
        rw (found, process_load) run,
        refl,
        refl,
        refl,
        ground arith,
      )
