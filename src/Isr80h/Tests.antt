-- ===== src/Isr80h/Tests.antt =====
-- The current task of a small machine, with a string of three bytes at the address on its stack.
use alpha_os.Prelude.{
  ℕ, ◌+◌, ◌≡◌, inl, inr, refl, ◌==◌, leb, if◌then◌else◌, none, some, List, [], ◌∷◌, replicate, ok,
  Ram, IsBytes, arith,
}
use alpha_os.Memory.Heap.{
  heap_get_entry_type, heap_align_value_to_upper, heap_block_to_address, heap_malloc,
  heap_malloc_blocks, heap_mark_block_taken, heap_get_start_blocks, mark_loop, scan_blocks,
}
use alpha_os.Memory.Heap.Scan.{first_fit}
use alpha_os.Memory.Kheap.{Kernel, kzalloc, kmalloc}
use alpha_os.Memory.Paging.{paging_get_physical_address}
use alpha_os.Memory.Raw.{memset}
use alpha_os.Text.Cstring.Compare.{text}
use alpha_os.Text.Path.{
  pathparser_parse, pathparser_get_drive_by_path, pathparser_path_valid_format, parse_parts,
  pathparser_get_path_part, path_part_loop, pathparser_create_root,
}
use alpha_os.Disk.{disk_get}
use alpha_os.Text.Cstring.{tonumericdigit, isdigit}
use alpha_os.Fs.Calls.{fopen, fopen_root, fopen_disk, disk_of}
use alpha_os.Elf.{word, half}
use alpha_os.Process.{Memory}
use alpha_os.Process.Malloc.{HasRoom}
use alpha_os.Process.Samples.{
  task, no_files, world, pages, chunk, mapped_words, mapped_words-IsDirectory,
  mapped_words-identity,
}
use alpha_os.Process.Slots.{process_get_free_slot, free_slot_loop}
use alpha_os.Isr80h.UserMemory.{
  seen, copy_string_from_task, task_get_stack_item, task_virtual_address_to_physical,
}
use alpha_os.Isr80h.UserMemory.Call.{IsMmu, IsElsewhere, copy_string_from_task_lem}
use alpha_os.Isr80h.Commands.{
  Machine, Env, stack_item, task_current, chunk_of, command_arguments,
  isr80h_command7_invoke_system_command,
}
use alpha_os.Isr80h.Commands.Missing.{path_to, isr80h_command7-missing}

abbrev at_signs : Ram
at_signs a = if a == 0x40404043 then 0 else 0x40

at_signs-IsBytes : IsBytes at_signs
at_signs-IsBytes a = ground arith

abbrev kernel : Kernel
kernel = record { heap = record { entries = 0x41 ∷ 0 ∷ []; saddr = 0x01000000 }; ram = at_signs }

kernel-HasRoom : HasRoom kernel 1024 1
unfolding first_fit heap_get_entry_type heap_align_value_to_upper
kernel-HasRoom = record {
  pos_size = omega arith;
  small = omega arith;
  pool = record { starts = omega arith; ends = omega arith; small = omega arith };
  clean = (inl refl, (inr refl, tt));
  fits = refl;
  aligned = refl;
  low = omega arith;
}

abbrev machine : Kernel → Machine ℕ
machine k = record {
  world = world k;
  terminal = record { video_memory = λ i. 0; terminal_row = 0; terminal_col = 0 };
  keys = record {
    process_current = none;
    task_process = none;
    buffers = λ p. record { buffer = []; head = 0; tail = 0 };
  };
}

abbrev env : Env
env = record {
  mmu = paging_get_physical_address;
  buffer = 0x500000;
  answers = record {
    elf_signature = 0x100;
    elf_memory = 0x10000;
    task_memory = 0x20000;
    alloc = pages;
  };
  elf_address = 0;
  fuel = 1024;
}

translates : IsMmu paging_get_physical_address
translates words directory a h = refl

room_address : heap_block_to_address kernel.heap 1 ≡ 0x01001000
unfolding heap_block_to_address
room_address = refl

text-IsElsewhere :
    IsElsewhere
      (paging_get_physical_address mapped_words (pages 0))
      (heap_block_to_address kernel.heap 1)
      0x40404040
      1024
text-IsElsewhere a l u = inr (omega (arith, room_address, mapped_words-identity a (omega arith)))

copy_string_from_task_example :
    (m' : Memory) × (copy_string_from_task paging_get_physical_address
        (world kernel).memory
        chunk
        0x40404040
        0x500000
        1024
      ≡ some (ok 0, m'))
    × (text m'.kernel.ram 0x500000 1024
        ≡ text (seen at_signs (paging_get_physical_address mapped_words (pages 0))) 0x40404040 1023)
    × ((a : ℕ) → m'.words a ≡ mapped_words a)
    × (m'.kernel.heap ≡ kernel.heap)
copy_string_from_task_example =
    copy_string_from_task_lem paging_get_physical_address (world kernel).memory chunk
      (λ n. pages (n + 1)) 0x40404040 0x500000 1024 1 translates mapped_words-IsDirectory
      kernel-HasRoom at_signs-IsBytes (omega arith) (omega arith) (omega arith)
      (inr (omega (arith, room_address))) text-IsElsewhere (inl (omega (arith, room_address)))

-- A chain of one argument, and a heap of eight free blocks.
abbrev one_argument : Ram
one_argument a = if a == 0x40404043 then 0 else if leb 0x40404240 a then 0 else 0x40

abbrev big_kernel : Kernel
big_kernel = record {
  heap = record { entries = replicate 8 0; saddr = 0x01000000 };
  ram = one_argument;
}

abbrev with_process : Kernel
with_process = record {
  heap = record { entries = 0xC1 ∷ 0x81 ∷ 0x01 ∷ replicate 5 0; saddr = 0x01000000 };
  ram = memset one_argument 0x01000000 0 9364;
}

abbrev with_stack : Kernel
with_stack = record {
  heap = record {
    entries = 0xC1 ∷ 0x81 ∷ 0x01 ∷ 0xC1 ∷ 0x81 ∷ 0x81 ∷ 0x01 ∷ 0 ∷ [];
    saddr = 0x01000000;
  };
  ram = memset with_process.ram 0x01003000 0 0x4000;
}

process_given : kzalloc big_kernel 9364 ≡ some (0x01000000, with_process)
unfolding kzalloc kmalloc heap_malloc heap_malloc_blocks heap_mark_block_taken heap_get_start_blocks
    mark_loop scan_blocks heap_get_entry_type heap_align_value_to_upper heap_block_to_address
process_given = refl

stack_given : kzalloc with_process 0x4000 ≡ some (0x01003000, with_stack)
unfolding kzalloc kmalloc heap_malloc heap_malloc_blocks heap_mark_block_taken heap_get_start_blocks
    mark_loop scan_blocks heap_get_entry_type heap_align_value_to_upper heap_block_to_address
stack_given = refl

argument_item : stack_item env (world big_kernel) 0 ≡ some 0x40404040
unfolding stack_item task_current chunk_of task_get_stack_item seen word half
argument_item =
    rw
      (
        mapped_words-identity 0x3FF000 (omega arith),
        mapped_words-identity 0x3FF001 (omega arith),
        mapped_words-identity 0x3FF002 (omega arith),
        mapped_words-identity 0x3FF003 (omega arith),
      )
      refl

argument_task : task_current (world big_kernel) ≡ some task
unfolding task_current
argument_task = refl

argument_chunk : chunk_of (world big_kernel) task ≡ some chunk
unfolding chunk_of
argument_chunk = refl

argument_address :
    task_virtual_address_to_physical (world big_kernel).memory chunk 0x40404040 ≡ 0x40404040
unfolding task_virtual_address_to_physical
argument_address = mapped_words-identity 0x40404040 (omega arith)

abbrev program_name : List ℕ
program_name = b'@' ∷ b'@' ∷ b'@' ∷ []

argument_chain : command_arguments 1024 one_argument 0x40404040 ≡ some (program_name ∷ [])
unfolding command_arguments word half text
argument_chain = refl

second_slot : process_get_free_slot (world big_kernel).table ≡ ok 1
unfolding process_get_free_slot free_slot_loop
second_slot = refl

unopened : fopen no_files (path_to program_name) (b'r' ∷ []) ≡ some (0, no_files)
unfolding fopen pathparser_parse pathparser_get_drive_by_path pathparser_path_valid_format
    parse_parts pathparser_get_path_part path_part_loop pathparser_create_root tonumericdigit
    isdigit fopen_root fopen_disk disk_of disk_get
unopened = refl

isr80h_command7-missing_example :
    isr80h_command7_invoke_system_command env (machine big_kernel) ≡ none
isr80h_command7-missing_example =
    isr80h_command7-missing env (machine big_kernel) 0x40404040 0x40404040 task chunk program_name
      [] 1 0x01000000 0x01003000 with_process with_stack no_files argument_item argument_task
      argument_chunk argument_address (omega arith) argument_chain (omega arith) (omega arith) refl
      second_slot process_given (omega arith) stack_given (omega arith) unopened
