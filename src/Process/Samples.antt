-- ===== src/Process/Samples.antt =====
-- A heap of two blocks and the page tables of a task, for the tests of processes.
use alpha_os.Prelude.{
  ℕ, ◌+◌, ◌*◌, ◌^◌, ◌<◌, ◌≡◌, inl, inr, refl, none, some, [], ◌∷◌, replicate, ◌==◌, if◌then◌else◌,
  arith,
}
use alpha_os.Memory.Heap.{heap_get_entry_type, heap_align_value_to_upper}
use alpha_os.Memory.Heap.Scan.{first_fit}
use alpha_os.Memory.Kheap.{Kernel}
use alpha_os.Memory.Paging.{Chunk, paging_new_4gb, paging_get_physical_address}
use alpha_os.Memory.Paging.Store.{Words}
use alpha_os.Memory.Paging.Table.{IsDirectory}
use alpha_os.Memory.Paging.Identity.{IsFresh, new_4gb-IsDirectory, new_4gb-identity}
use alpha_os.Fs.{Files}
use alpha_os.Task.{Task}
use alpha_os.Process.{Memory}
use alpha_os.Process.World.{World}
use alpha_os.Process.Load.{process_init}
use alpha_os.Process.Malloc.{HasRoom}

abbrev pub small_kernel : Kernel
small_kernel = record {
  heap = record { entries = 0x41 ∷ 0 ∷ []; saddr = 0x01000000 };
  ram = λ a. 0xAA;
}

pub small_kernel-HasRoom : HasRoom small_kernel 10 1
unfolding first_fit heap_get_entry_type heap_align_value_to_upper
small_kernel-HasRoom = record {
  pos_size = omega arith;
  small = omega arith;
  pool = record { starts = omega arith; ends = omega arith; small = omega arith };
  clean = (inl refl, (inr refl, tt));
  fits = refl;
  aligned = refl;
  low = omega arith;
}

abbrev pub pages : ℕ → ℕ
pages n = 0x02000000 + n * 4096

pub pages-IsFresh : IsFresh pages
pages-IsFresh = record {
  is_page = λ n h. omega arith;
  in_space = λ n h. omega arith;
  distinct = λ n m h k e. omega arith;
}

abbrev pub chunk : Chunk
chunk = record { address = pages 1025; directory_entry = pages 0 }

-- The words of the tables, kept shut.
pub mapped_words : Words
mapped_words = (paging_new_4gb pages (λ a. 0) 7).1

pub mapped_words-IsDirectory : IsDirectory mapped_words (pages 0) (λ n. pages (n + 1))
unfolding mapped_words paging_new_4gb
mapped_words-IsDirectory = new_4gb-IsDirectory pages (λ a. 0) 7 pages-IsFresh (omega arith)

abbrev pub memory : Memory
memory = record { kernel = small_kernel; words = mapped_words }

-- Every address translates to itself.
pub mapped_words-identity :
    (a : ℕ) → a < 2 ^ 32 → paging_get_physical_address mapped_words (pages 0) a ≡ a
unfolding mapped_words paging_new_4gb
mapped_words-identity a h = new_4gb-identity pages (λ a. 0) 7 a pages-IsFresh (omega arith) h

-- A task and the kernel around it, for the structures at 0x2000 and 0x3000.
abbrev pub task : Task
task = record {
  page_directory = chunk.address;
  registers = record {
    edi = 0;
    esi = 0;
    ebp = 0;
    ebx = 0;
    edx = 0;
    ecx = 0;
    eax = 0;
    ip = 0x400000;
    cs = 0x1B;
    flags = 0;
    esp = 0x3FF000;
    ss = 0x23;
  };
  process = 0x3000;
  next = 0;
  prev = 0;
}

abbrev pub no_files : Files ℕ
no_files = record { filesystems = []; file_descriptors = []; disk_filesystem = none; state = 0 }

abbrev pub world : Kernel → World ℕ
world k = record {
  memory = record { kernel = k; words = mapped_words };
  files = no_files;
  tasks = record {
    store = λ a. if a == 0x2000 then some task else none;
    task_head = 0x2000;
    task_tail = 0x2000;
    current_task = 0x2000;
  };
  table = record { processes = 0x3000 ∷ replicate 11 0; current_process = 0x3000 };
  process_at = λ a. if a == 0x3000 then some (record process_init { task = 0x2000 }) else none;
  chunk_at = λ a. if a == chunk.address then some chunk else none;
}
