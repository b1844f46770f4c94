-- ===== src/Lib.antt =====
-- alpha-OS: a 32-bit kernel in C (`src/`) with a small user library and shell (`programs/`).
--
-- Parts and files. A pool of memory is shared out by the kernel heap and mapped by the page
-- tables; the file calls parse a path, take a descriptor and pass on to the filesystem of the
-- disk, which reads sectors through a stream; FAT16 is the filesystem there is. A program is
-- loaded from a file, as ELF or as plain bytes, and mapped for its process, whose task stands in
-- the list that the kernel switches along; the interrupt of the keyboard pushes keys into the
-- buffer of the current process, from which its system calls pop them. A system call reads its
-- arguments from the stack of the task, through the task's page tables, and calls the other parts.
-- The start of the kernel puts all of this in place and runs the shell.
--
--   Prelude          tests, lists, options, byte-addressed memory (`Ram`) and bit operations
--   Memory.Heap      `src/memory/heap/heap.c`: `Heap` is `struct heap`, the table a list of bytes
--   Memory.Kheap     `src/memory/heap/kheap.c`: `Kernel` is `kernel_heap` with the memory
--   Memory.Raw       `src/memory/memory.c`: memset, memcmp, memcpy
--   Memory.Paging    `src/memory/paging/paging.c`: `Chunk` is `struct paging_4gb_chunk`
--   Text.Cstring     `src/string/string.c`
--   Text.Path        `src/fs/pparser.c`: `PathRoot` is `struct path_root` with its chain of parts
--   Keyboard         `src/keyboard/keyboard.c`, and `Keyboard.Classic` `src/keyboard/classic.c`
--   Gdt              `src/gdt/gdt.c`
--   Disk             `src/disk/disk.c` and `src/disk/streamer.c`
--   Fs, Fs.Calls     `src/fs/file.c`: `Files` is its tables, `Filesystem` is `struct filesystem`
--   Fat              `src/fs/fat/fat16.c`: `FatPrivate` is `struct fat_private`; `Fat.Name`,
--                    `Fat.Cluster`, `Fat.Directory` and `Fat.Files` are its parts, and
--                    `Fat.Filesystem` is `fat16_fs` as a `Filesystem`
--   Elf, Elf.Loader  `src/loader/formats/`: `ElfFile` is `struct elf_file`, headers are read from memory
--   Task             `src/task/task.c`: `Tasks` is the memory of the tasks with `task_head`, `task_tail`
--                    and `current_task`
--   Process          `src/task/process.c`: `Process` is `struct process`; `Process.Allocation` is its
--                    memory, `Process.Slots` the table of processes, `Process.Program` what it runs,
--                    `Process.Load`, `Process.Arguments` and `Process.Terminate` the steps over the
--                    whole kernel, of which `World` is the state
--   Idt              `src/idt/idt.c`: the tables of callbacks and commands, and dispatch; `Idt.Init` is
--                    idt_init, and `Isr80h.Exceptions` the callbacks of exceptions and of the clock
--   Isr80h           `src/isr80h/`: `Isr80h.Commands` the ten commands, over a `Machine`, and
--                    `Isr80h.Register` their registration; `Isr80h.UserMemory` is what
--                    `src/task/task.c` reads from the memory of a task for them
--   Start            kernel_main of `src/kernel.c`, and what it calls of the disk and the keyboard
--   Stdlib           `itoa` of `programs/stdlib/src/stdlib.c`, `Stdlib.Printf` printf of
--                    `programs/stdlib/src/stdio.c`, `Stdlib.Strtok` strtok of
--                    `programs/stdlib/src/string.c`; `Stdlib.Readline` and `Stdlib.Command` the reading
--                    of a line and the parser of command lines in `programs/stdlib/src/alphaos.c`
--   Terminal         the text screen of `src/kernel.c`
--
-- A function keeps its name from the source; a loop is a function of its own, named after it. The
-- `Tests` modules run the definitions on small inputs. The other modules hold lemmas and theorems.
--
-- Conventions. Numbers are natural numbers, and a 32-bit address or counter wraps by `% 2 ^ 32`. A
-- negative `int` result is `negsuc` or an `Errno`. `none` around a whole result is an access
-- outside the modelled memory, a call through NULL or a panic; where NULL is an ordinary result it
-- is `none` or 0 inside it. A pointer that a function writes through is part of its result, and an
-- object that is mutated is passed along.
--
-- Parameters. What kzalloc returns is an argument of paging_new_4gb, and succeeds for path parts,
-- streams and FAT items and descriptors; it is an argument of elf_load and of task_new, and
-- `Answers` collects it for process_load. The parser of command lines takes the number of nodes that
-- malloc gives. The drive is the words at its data port after a command; `IsAta` says that it
-- answers as ATA says. A filesystem is a record of functions over a state of its own. The byte at
-- the keyboard's port is an argument of the handler. What the handlers of interrupts call of the
-- task part is the record `TaskOps`. The translation of addresses by the processor is the `mmu` of
-- `Env`, of which `IsMmu` says that it follows the page tables; `Env` also holds the address of a
-- local buffer and of the structure of an ELF file. `Boot` holds what the kernel is linked with.
--
-- Fuel. strlen and strcpy have no bound in the source, and take one, as do the strings and chains
-- that a system call reads. The loop over the parts of a path takes the length of the path and one:
-- every round but the last takes a byte at least. A read of a stream calls itself for the next
-- sector, and fuel above the number of bytes is enough; so does a read along a chain of clusters,
-- for the next cluster. The loop of terminal_readline takes fuel above the number of keys. The walk
-- over a directory ends at an item that begins with NUL, and takes fuel above the number of items
-- before it. strtok and the loop over its tokens take fuel above the 1025 bytes of the buffer.
--
-- The heap's bytes and the page tables' words are two views of memory, kept apart in
-- `Process.Memory`.
--
-- Not modelled: of the parts above, what frees FAT items, and fat16_init; of the user library,
-- the calls of single system calls; the copies in `programs/stdlib` of the kernel's
-- string and memory functions; `programs/shell` and `programs/blank`; assembly and single port or
-- register instructions (`src/boot/`, `src/io/`, loading of tables, switching of pages and tasks);
-- messages on the screen, but those of the exceptions.
pub mod Prelude
pub mod Memory
pub mod Text
pub mod Keyboard
pub mod Gdt
pub mod Disk
pub mod Fs
pub mod Idt
pub mod Terminal
pub mod Fat
pub mod Task
pub mod Elf
pub mod Process
pub mod Isr80h
pub mod Stdlib
pub mod Start
