-- ===== src/Process/Load/Tests.antt =====
-- The loading of an ELF file that has no program header to map.
use alpha_os.Prelude.{
  ℤ, ◌<◌, ◌≢◌, ◌⊎◌, eistkn, status, true, ℕ, ◌-◌, ◌≡◌, refl, none, some, List, [], ◌∷◌, replicate,
  ◌==◌, if◌then◌else◌, get_or, ok, pos, Ram, arith,
}
use alpha_os.Memory.Kheap.{Kernel, kzalloc, kmalloc}
use alpha_os.Memory.Raw.{memset, memcmp}
use alpha_os.Text.Cstring.{tonumericdigit, isdigit}
use alpha_os.Text.Path.{
  pathparser_parse, pathparser_get_drive_by_path, pathparser_path_valid_format, parse_parts,
  pathparser_get_path_part, path_part_loop, pathparser_create_root,
}
use alpha_os.Disk.{disk_get}
use alpha_os.Fs.{
  Files, Filesystem, file_new_descriptor, file_get_descriptor, file_free_descriptor, free_loop,
}
use alpha_os.Fs.Calls.{
  fopen, fopen_root, fopen_disk, disk_of, fopen_mode, fopen_private, fopen_descriptor, fstat, fread,
  fclose, file_get_mode_by_string, below_1,
}
use alpha_os.Elf.Loader.{
  elf_load, load_open, load_contents, write_bytes, new_file, elf_validate_loaded,
  elf_valid_signature, elf_valid_class, elf_valid_encoding, elf_has_program_header, is_zero,
  elf_process_loaded, elf_process_pheaders, is_negative, pheaders_loop,
}
use alpha_os.Elf.{header_at, half, word, elf_header}
use alpha_os.Process.{Process}
use alpha_os.Process.Program.{
  process_load_data, process_load_elf, is_einformat, map_stack, process_map_memory, process_map_elf,
  map_elf_loop,
}
use alpha_os.Memory.Heap.{
  heap_get_entry_type, heap_align_value_to_upper, heap_block_to_address, heap_malloc,
  heap_malloc_blocks, heap_mark_block_taken, heap_get_start_blocks, mark_loop, scan_blocks,
}
use alpha_os.Memory.Paging.{paging_new_4gb}
use alpha_os.Task.{Task, Tasks, task_new, task_init, task_link, set_next, set_prev, put}
use alpha_os.Process.World.{World}
use alpha_os.Process.Samples.{pages, mapped_words, task, world}
use alpha_os.Memory.Paging.Store.{Words}
use alpha_os.Process.Slots.{
  max_processes, process_get_free_slot, free_slot_loop, process_get, process_current,
}
use alpha_os.Process.Load.{Answers, entry_of, process_init, process_load_switch}
use alpha_os.Process.Load.Branches.{IsFilled, process_load_switch_lem}
use alpha_os.Process.Load.Loaded.{filled, process_load_switch-mapped}

-- An ELF header with e_phoff of 52 and e_phnum of 0.
abbrev image : List ℕ
image =
    0x7F ∷ b'E' ∷ b'L' ∷ b'F' ∷ 1 ∷ 1 ∷ 1 ∷ 0 ∷ 0 ∷ 0 ∷ 0 ∷ 0 ∷ 0 ∷ 0 ∷ 0 ∷ 0 ∷ 2 ∷ 0 ∷ 3 ∷ 0 ∷ 1
    ∷ 0 ∷ 0 ∷ 0 ∷ 0 ∷ 0 ∷ 64 ∷ 0 ∷ 52 ∷ 0 ∷ 0 ∷ 0 ∷ 0 ∷ 0 ∷ 0 ∷ 0 ∷ 0 ∷ 0 ∷ 0 ∷ 0 ∷ 52 ∷ 0 ∷ 32 ∷ 0
    ∷ 0 ∷ 0 ∷ 0 ∷ 0 ∷ 0 ∷ 0 ∷ 0 ∷ 0 ∷ []

abbrev one_file : Filesystem ℕ
one_file = record {
  resolve = λ s. (pos 0, s);
  open_file = λ s parts mode. (ok 1, s);
  read = λ s p size nmemb. (pos nmemb, image, s);
  seek = λ s p offset whence. (pos 0, s);
  stat = λ s p. (pos 0, record { flags = 0; filesize = 52 }, s);
  close = λ s p. (pos 0, s);
}

abbrev files : Files ℕ
files = record {
  filesystems = some one_file ∷ [];
  file_descriptors = replicate 512 none;
  disk_filesystem = some one_file;
  state = 0;
}

-- "0:/a"
abbrev filename : List ℕ
filename = b'0' ∷ b':' ∷ b'/' ∷ b'a' ∷ []

-- The constant of the signature stands at 0x100.
abbrev signature : Ram
signature a = get_or (0x7F ∷ b'E' ∷ b'L' ∷ b'F' ∷ []) (a - 0x100) 0

abbrev big_kernel : Kernel
big_kernel = record {
  heap = record { entries = replicate 8 0; saddr = 0x01000000 };
  ram = signature;
}

abbrev with_process : Kernel
with_process = record {
  heap = record { entries = 0xC1 ∷ 0x81 ∷ 0x01 ∷ replicate 5 0; saddr = 0x01000000 };
  ram = memset signature 0x01000000 0 9364;
}

abbrev with_file : Kernel
with_file = record with_process { ram = write_bytes with_process.ram 0x10000 image }

abbrev loaded : Process
loaded = record process_init { elf_file = some (new_file 0x10000) }

accepted : elf_validate_loaded with_file.ram 0x100 0x10000 ≡ ok 0
unfolding elf_validate_loaded elf_valid_signature elf_valid_class elf_valid_encoding header_at
    elf_has_program_header memcmp memset is_zero half word write_bytes
accepted = refl

elf_loaded :
    elf_load with_process.ram files 0x100 0x10000 filename
    ≡ some (ok 0, (some (new_file 0x10000), with_file.ram, files))
unfolding elf_load load_open load_contents fopen pathparser_parse pathparser_get_drive_by_path
    pathparser_path_valid_format parse_parts pathparser_get_path_part path_part_loop
    pathparser_create_root tonumericdigit isdigit fopen_root fopen_disk disk_of disk_get fopen_mode
    fopen_private fopen_descriptor file_get_mode_by_string file_new_descriptor free_loop
    file_get_descriptor file_free_descriptor fstat fread fclose below_1 elf_process_loaded
    elf_process_pheaders pheaders_loop elf_header header_at half memcmp memset
elf_loaded = rw accepted refl

data_loaded :
    process_load_data with_process files process_init 0x100 0x10000 filename
    ≡ some (pos 0, loaded, with_file, files)
unfolding process_load_data process_load_elf is_einformat
data_loaded = rw (elf_loaded, process_load_data) refl

abbrev with_stack : Kernel
with_stack = record {
  heap = record {
    entries = 0xC1 ∷ 0x81 ∷ 0x01 ∷ 0xC1 ∷ 0x81 ∷ 0x81 ∷ 0x01 ∷ 0 ∷ [];
    saddr = 0x01000000;
  };
  ram = memset with_file.ram 0x01003000 0 0x4000;
}

structure_given : kzalloc big_kernel 9364 ≡ some (0x01000000, with_process)
unfolding kzalloc kmalloc heap_malloc heap_malloc_blocks heap_mark_block_taken heap_get_start_blocks
    mark_loop scan_blocks heap_get_entry_type heap_align_value_to_upper heap_block_to_address
structure_given = refl

stack_given : kzalloc with_file 0x4000 ≡ some (0x01003000, with_stack)
unfolding kzalloc kmalloc heap_malloc heap_malloc_blocks heap_mark_block_taken heap_get_start_blocks
    mark_loop scan_blocks heap_get_entry_type heap_align_value_to_upper heap_block_to_address
stack_given = refl

abbrev loading : World ℕ
loading = record (world big_kernel) { files = files }

abbrev answers : Answers
answers = record {
  elf_signature = 0x100;
  elf_memory = 0x10000;
  task_memory = 0x20000;
  alloc = pages;
}

-- The word of the file, behind what was cleared.
abbrev entry : ℕ
entry = (header_at with_stack.ram 0x10000).e_entry

entry_found : entry_of with_stack loaded ≡ some (some entry)
unfolding entry_of elf_header
entry_found = refl

abbrev new_task : Task
new_task = record task { registers = record task.registers { ip = entry }; process = 0x01000000 }

-- The new task behind the one that is there.
abbrev with_task : Tasks
with_task = record loading.tasks {
  store =
      put
        (put (put loading.tasks.store 0x20000 (some new_task)) 0x2000
          (some (record task { next = 0x20000 })))
        0x20000 (some (record new_task { prev = 0x2000 }));
  task_tail = 0x20000;
}

task_made :
    task_new loading.tasks 0x20000
      (paging_new_4gb pages mapped_words 0b101).0.address
      0x01000000
      (some entry)
    ≡ some (ok 0x20000, with_task)
unfolding task_new task_init task_link set_next set_prev put paging_new_4gb
task_made = refl

abbrev process : Process
process = filled loading answers filename 1 loaded 0x01003000 0x20000

abbrev mapped : Words
mapped =
    map_stack (paging_new_4gb pages mapped_words 0b101).1
      (paging_new_4gb pages mapped_words 0b101).0 process

no_headers : (header_at with_stack.ram 0x10000).e_phnum ≡ 0
unfolding header_at half memset write_bytes
no_headers = refl

memory_mapped :
    process_map_memory with_stack.ram
      (paging_new_4gb pages mapped_words 0b101).1
      (paging_new_4gb pages mapped_words 0b101).0
      process
    ≡ some (ok 0, mapped)
unfolding process_map_memory process_map_elf map_elf_loop elf_header
memory_mapped = rw (no_headers, process_map_memory) refl

slot_free : process_get_free_slot loading.table ≡ ok 1
unfolding process_get_free_slot free_slot_loop
slot_free = refl

process_load_switch_run :
    (w' : World ℕ) × (process_load_switch loading answers filename ≡ some (pos 0, 0x01000000, w'))
    × (process_current w'.table ≡ 0x01000000)
    × ((m : ℕ)
        → process_get w'.table (pos m)
          ≡ (if m == 1 then 0x01000000 else process_get loading.table (pos m)))
    × (w'.process_at 0x01000000 ≡ some process)
    × (w'.tasks ≡ with_task)
process_load_switch_run =
    process_load_switch-mapped loading answers filename 1 0x01000000 0x01003000 0x20000 with_process
      with_file with_stack loaded files (some entry) with_task 0 mapped refl slot_free
      (record {
        structure = structure_given;
        structure_there = omega arith;
        loads = data_loaded;
        stack_given = stack_given;
        stack_there = omega arith;
        entry_read = entry_found;
        task_made = task_made;
      })
      memory_mapped

process_load_switch_example :
    (((j : ℕ) → j < max_processes → process_get loading.table (pos j) ≢ 0)
      × (process_load_switch loading answers filename ≡ some (status eistkn, 0, loading)))
    ⊎ ((slot : ℕ) × (slot < max_processes)
        × (process_get loading.table (pos slot) ≡ 0)
        × ((j : ℕ) → j < slot → process_get loading.table (pos j) ≢ 0)
        × ((process_load_switch loading answers filename ≡ none)
            ⊎ (((res : ℤ) × (w' : World ℕ) × (process_load_switch loading answers filename
                    ≡ some (res, 0, w'))
                  × (is_negative res ≡ true)
                  × (w'.table ≡ loading.table))
                ⊎ ((p : ℕ) × (w' : World ℕ) × (process_load_switch loading answers filename
                      ≡ some (pos 0, p, w'))
                    × (p ≢ 0)
                    × (process_current w'.table ≡ p)
                    × ((m : ℕ)
                        → process_get w'.table (pos m)
                          ≡ (if m == slot then p else process_get loading.table (pos m)))
                    × IsFilled loading answers filename slot (w'.process_at p)))))
process_load_switch_example = process_load_switch_lem loading answers filename refl
