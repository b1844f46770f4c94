-- ===== src/Process.antt =====
-- src/task/process.c: processes, their table and their allocations. A pointer is its address, with 0
-- for NULL.
pub mod Allocation
pub mod Slots
pub mod Program
pub mod Lookup
pub mod Malloc
pub mod Unmap
pub mod Table
pub mod Fallback
pub mod World
pub mod Terminate
pub mod Load
pub mod Arguments
pub mod Samples
mod Tests
use alpha_os.Prelude.{ℕ, Option, List}
use alpha_os.Elf.{ElfFile}
use alpha_os.Memory.Kheap.{Kernel}
use alpha_os.Memory.Paging.Store.{Words}

-- struct process_allocation
pub record ProcessAllocation : Type 0 where
  pub ptr : ℕ
  pub size : ℕ

-- struct process_arguments
pub record ProcessArguments : Type 0 where
  pub argc : ℕ
  pub argv : ℕ

-- struct process, but for its keyboard buffer. Of the union of `ptr` and `elf_file`
-- each is a field, `none` for a NULL `elf_file`.
pub record Process : Type 0 where
  pub id : ℕ
  pub filename : List ℕ
  pub task : ℕ
  pub allocations : List ProcessAllocation
  pub file_type : ℕ
  pub ptr : ℕ
  pub elf_file : Option ElfFile
  pub stack : ℕ
  pub size : ℕ
  pub arguments : ProcessArguments

-- PROCESS_FILETYPE_ELF, PROCESS_FILETYPE_BINARY
abbrev pub filetype_elf : ℕ
filetype_elf = 0

abbrev pub filetype_binary : ℕ
filetype_binary = 1

-- The heap with the bytes of memory, and the words in which page tables lie.
pub record Memory : Type 0 where
  pub kernel : Kernel
  pub words : Words
