-- ===== src/Isr80h/UserMemory.antt =====
-- The functions of src/task/task.c that read the memory of a task through its page tables.
pub mod Copied
pub mod Call
use alpha_os.Prelude.{
  ℕ, zero, suc, ◌+◌, ◌*◌, ◌-◌, ◌%◌, ◌^◌, true, false, ◌==◌, leb, if◌then◌else◌, Option, none, some,
  Result, ok, err, einvarg, enomem, eio, Ram, write, offset, ◌>>=◌,
}
use alpha_os.Memory.Kheap.{Kernel, kzalloc, kfree}
use alpha_os.Memory.Paging.{Chunk, paging_get, paging_set, paging_map, paging_get_physical_address}
use alpha_os.Memory.Paging.Store.{Words}
use alpha_os.Text.Cstring.{strncpy}
use alpha_os.Elf.{word}
use alpha_os.Process.{Memory}

-- What the processor reads under page tables.
unfoldable pub seen : Ram → (ℕ → ℕ) → Ram
seen ram translate a = ram (translate a)

-- The loop of strncpy in src/string/string.c under page tables, as strncpy_loop.
unfoldable pub seen_strncpy_loop : (ℕ → ℕ) → ℕ → Ram → ℕ → ℕ → ℕ → Ram
unfolding seen
seen_strncpy_loop translate zero ram dest src i = write ram (translate (offset dest i)) 0
seen_strncpy_loop translate (suc left) ram dest src i =
    let c = seen ram translate (offset src i) in
    let rest =
      seen_strncpy_loop translate left (write ram (translate (offset dest i)) c) dest src (i + 1) in
    if c == 0 then write ram (translate (offset dest i)) 0 else rest

unfoldable pub seen_strncpy : (ℕ → ℕ) → Ram → ℕ → ℕ → ℕ → Ram
unfolding seen_strncpy_loop
seen_strncpy translate ram dest src n = seen_strncpy_loop translate (n - 1) ram dest src 0

-- What paging_map returns is not looked at.
unfoldable pub map_own : Words → Chunk → ℕ → Words
map_own words chunk page = elim (paging_map words chunk page page 0b111) [
  | err _ ↦ words
  | ok words' ↦ words'
]

module _ (mmu : Words → ℕ → ℕ → ℕ) where
  -- From the mapping of the buffer `tmp` on.
  unfoldable pub copy_through : Memory → Chunk → ℕ → ℕ → ℕ → ℕ → Option (Result ℕ × Memory)
  unfolding map_own seen_strncpy
  copy_through m chunk virtual physical max tmp =
      let directory = chunk.directory_entry in
      let old_entry = paging_get m.words directory tmp in
      let mapped = map_own m.words chunk tmp in
      let ram = seen_strncpy (mmu mapped directory) m.kernel.ram tmp virtual max in
      elim (paging_set mapped directory tmp old_entry) [
        | err _ ↦ do
          k ← kfree (record m.kernel { ram = ram }) tmp
          some (err eio, record { kernel = k; words = mapped })
        | ok restored ↦ do
          k ← kfree (record m.kernel { ram = strncpy ram physical tmp max }) tmp
          some (ok 0, record { kernel = k; words = restored })
      ]

  -- `chunk` is the page directory of the task.
  unfoldable pub copy_string_from_task : Memory → Chunk → ℕ → ℕ → ℕ → Option (Result ℕ × Memory)
  unfolding copy_through
  copy_string_from_task m chunk virtual physical max =
      if leb 4096 max then some (err einvarg, m) else do
        (tmp, k) ← kzalloc m.kernel max
        if tmp == 0
            then some (err enomem, record m { kernel = k })
            else copy_through (record m { kernel = k }) chunk virtual physical max tmp

  -- The word at `index` on the stack of a task.
  unfoldable pub task_get_stack_item : Memory → Chunk → ℕ → ℕ → ℕ
  unfolding seen word
  task_get_stack_item m chunk esp index =
      word (seen m.kernel.ram (mmu m.words chunk.directory_entry)) (offset esp (4 * index))

unfoldable pub task_virtual_address_to_physical : Memory → Chunk → ℕ → ℕ
task_virtual_address_to_physical m chunk virtual_address =
    paging_get_physical_address m.words chunk.directory_entry virtual_address
