-- ===== src/Process/Load/Missing.antt =====
-- What process_load of src/task/process.c does with a program that is not there.
use alpha_os.Prelude.{
  ℕ, ◌≡◌, ◌≢◌, refl, false, ◌==◌, none, some, List, [], ◌∷◌, ok, pos, take, length, Ram, arith,
  ◌>>=◌,
}
use alpha_os.Memory.Kheap.{Kernel, kzalloc}
use alpha_os.Fs.{Files, file_get_descriptor}
use alpha_os.Fs.Calls.{fopen, fclose}
use alpha_os.Elf.Loader.{elf_load}
use alpha_os.Process.Program.{process_load_data, process_load_elf, is_einformat}
use alpha_os.Process.Slots.{max_processes, process_get_free_slot}
use alpha_os.Process.World.{World}
use alpha_os.Process.Load.{
  Answers, process_init, process_size, user_program_stack_size, entry_of, load_task, load_program,
  process_load_for_slot, process_load,
}
use alpha_os.Process.Load.Loaded.{free_slot-table}

module _ {S : Type 0} where
  elf_load-unopened :
      (ram : Ram) (files files' : Files S) (elf_signature elf_memory : ℕ) (filename : List ℕ)
      → fopen files filename (b'r' ∷ []) ≡ some (0, files')
      → elf_load ram files elf_signature elf_memory filename ≡ some (ok 0, (none, ram, files'))
  unfolding elf_load fclose file_get_descriptor
  elf_load-unopened ram files files' elf_signature elf_memory filename e = rw (e, ◌>>=◌) refl

  load_data-unopened :
      (k : Kernel) (files files' : Files S) (elf_signature elf_memory : ℕ) (filename : List ℕ)
      → fopen files filename (b'r' ∷ []) ≡ some (0, files')
      → process_load_data k files process_init elf_signature elf_memory filename
        ≡ some (pos 0, process_init, k, files')
  unfolding process_load_data process_load_elf is_einformat
  load_data-unopened k files files' elf_signature elf_memory filename e =
      rw
        (
          elf_load-unopened k.ram files files' elf_signature elf_memory filename e,
          process_load_data,
        )
        refl

  load_task-null :
      (w : World S) (a : Answers) (process_slot p stack : ℕ) (filename : List ℕ) (k : Kernel)
      (files : Files S)
      → load_task w a process_slot p
          (record process_init { filename = take 107 filename; stack = stack; id = process_slot })
          k
          files
        ≡ none
  unfolding load_task entry_of
  load_task-null w a process_slot p stack filename k files = refl

  -- With a free slot in the table of 12, memory for the process and for its stack, and a file that fopen
  -- does not open, process_load reads through NULL: the loader reports success, so the entry point is
  -- read from an ELF file that there is not.
  pub process_load-missing :
      (w : World S) (a : Answers) (filename : List ℕ) (slot p stack : ℕ) (k k' : Kernel)
      (files : Files S)
      → length w.table.processes ≡ max_processes
      → process_get_free_slot w.table ≡ ok slot
      → kzalloc w.memory.kernel process_size ≡ some (p, k)
      → p ≢ 0
      → kzalloc k user_program_stack_size ≡ some (stack, k')
      → stack ≢ 0
      → fopen w.files filename (b'r' ∷ []) ≡ some (0, files)
      → process_load w a filename ≡ none
  unfolding process_load process_load_for_slot load_program
  process_load-missing w a filename slot p stack k k' files full found structure there given room
        e =
      let (free, taken) = free_slot-table w.table slot full found in
      let t : (p == 0) ≡ false = ground arith in
      let t' : (stack == 0) ≡ false = ground arith in
      let loads = load_data-unopened k w.files files a.elf_signature a.elf_memory filename e in
      rw (found, process_load, free, structure, ◌>>=◌, t, loads, given, t')
        (load_task-null w a slot p stack filename k' files)
