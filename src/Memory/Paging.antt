-- ===== src/Memory/Paging.antt =====
-- src/memory/paging/paging.c: two-level page tables. They are read and written through `Words`,
-- the 32-bit words of memory by the address of each, so tables that share memory do so here.
pub mod Store
pub mod Table
pub mod Map
pub mod Align
pub mod Swap
pub mod Identity
mod Tests
use alpha_os.Prelude.{
  ℕ, zero, suc, ◌+◌, ◌-◌, ◌*◌, ◌/◌, ◌%◌, ◌^◌, bit_and, bit_or, Bool, true, false, not, ◌||◌, List,
  [], ◌∷◌, ◌++◌, ltb, ◌==◌, if◌then◌else◌, Result, ok, err, einvarg,
}
use Store.{Words, store}

-- PAGING_PAGE_SIZE, PAGING_TOTAL_ENTRIES_PER_TABLE, PAGING_IS_WRITABLE
abbrev pub page_size : ℕ
page_size = 4096

abbrev pub entries_per_table : ℕ
entries_per_table = 1024

abbrev pub is_writable : ℕ
is_writable = 0b00000010

-- The address that an entry holds, without its flags.
pub page_base : ℕ → ℕ
page_base entry = bit_and entry 0xFFFFF000

-- struct paging_4gb_chunk, with its own address
pub record Chunk : Type 0 where
  pub address : ℕ
  pub directory_entry : ℕ

pub paging_is_aligned : ℕ → Bool
paging_is_aligned addr = addr % page_size == 0

-- The directory index and the table index.
pub paging_get_indexes : ℕ → Result (ℕ × ℕ)
unfolding paging_is_aligned
paging_get_indexes virtual_address =
    if not (paging_is_aligned virtual_address)
    then err einvarg
    else ok (
      virtual_address / (entries_per_table * page_size),
      virtual_address % (entries_per_table * page_size) / page_size,
    )

pub paging_align_address : ℕ → ℕ
paging_align_address ptr =
    if ptr % page_size == 0 then ptr else (ptr + page_size - ptr % page_size) % 2 ^ 32

pub paging_align_to_lower_page : ℕ → ℕ
paging_align_to_lower_page addr = addr - addr % page_size

-- An error leaves the memory as it was.
pub paging_set : Words → ℕ → ℕ → ℕ → Result Words
unfolding paging_is_aligned paging_get_indexes page_base
paging_set words directory virtual_address value =
    if not (paging_is_aligned virtual_address)
    then err einvarg
    else elim (paging_get_indexes virtual_address) [
      | err e ↦ err e
      | ok (directory_index, table_index) ↦
          let entry = words (directory + 4 * directory_index) in
          ok (store words (page_base entry + 4 * table_index) value)
    ]

-- The result of paging_get_indexes is not looked at, and both indexes start at 0.
pub paging_get : Words → ℕ → ℕ → ℕ
unfolding paging_get_indexes page_base
paging_get words directory virtual_address = elim (paging_get_indexes virtual_address) [
  | err _ ↦ words (page_base (words directory))
  | ok (directory_index, table_index) ↦
      words (page_base (words (directory + 4 * directory_index)) + 4 * table_index)
]

pub paging_get_physical_address : Words → ℕ → ℕ → ℕ
unfolding paging_align_to_lower_page paging_get
paging_get_physical_address words directory virtual_address =
    let new_virtual_address = paging_align_to_lower_page virtual_address in
    let difference = virtual_address - new_virtual_address in
    (page_base (paging_get words directory new_virtual_address) + difference) % 2 ^ 32

pub paging_map : Words → Chunk → ℕ → ℕ → ℕ → Result Words
unfolding paging_set
paging_map words chunk virtual_address physical_address flags =
    if not (virtual_address % page_size == 0) || not (physical_address % page_size == 0)
    then err einvarg
    else paging_set words chunk.directory_entry virtual_address (bit_or physical_address flags)

-- `count` is the rounds left. The first error ends the loop; what was mapped before it stays.
pub paging_map_range : Words → Chunk → ℕ → ℕ → ℕ → ℕ → Result ℕ × Words
unfolding paging_map
paging_map_range words chunk virtual_address physical_address zero flags = (ok 0, words)
paging_map_range words chunk virtual_address physical_address (suc count) flags =
    elim (paging_map words chunk virtual_address physical_address flags) [
      | err e ↦ (err e, words)
      | ok words' ↦
          paging_map_range words' chunk ((virtual_address + page_size) % 2 ^ 32)
            ((physical_address + page_size) % 2 ^ 32) count flags
    ]

pub paging_map_to : Words → Chunk → ℕ → ℕ → ℕ → ℕ → Result ℕ × Words
unfolding paging_map_range
paging_map_to words chunk virtual_address physical_address physical_end_address flags =
    if not (virtual_address % page_size == 0)
    then (err einvarg, words)
    else if not (physical_address % page_size == 0)
    then (err einvarg, words)
    else if not (physical_end_address % page_size == 0)
    then (err einvarg, words)
    else if ltb physical_end_address physical_address
    then (err einvarg, words)
    else paging_map_range words chunk virtual_address physical_address
        ((physical_end_address - physical_address) / page_size) flags

-- The inner loop of paging_new_4gb from `j` on, with `left` rounds to go.
pub fill_table : ℕ → ℕ → Words → ℕ → ℕ → ℕ → Words
fill_table zero j words entry offset flags = words
fill_table (suc left) j words entry offset flags =
    fill_table left (j + 1)
      (store words (entry + 4 * j) (bit_or ((offset + j * page_size) % 2 ^ 32) flags)) entry offset
      flags

-- The outer loop from `i` on. `alloc n` is what call `n` of kzalloc returns: 0 is the directory,
-- 1 to 1024 are the tables. `offset` is an int that goes past its range and wraps.
pub fill_directory : (ℕ → ℕ) → ℕ → ℕ → ℕ → Words → ℕ → Words
fill_directory alloc zero i offset words flags = words
fill_directory alloc (suc left) i offset words flags =
    let entry = alloc (i + 1) in
    let filled = fill_table entries_per_table 0 words entry offset flags in
    fill_directory alloc left (i + 1) ((offset + entries_per_table * page_size) % 2 ^ 32)
      (store filled (alloc 0 + 4 * i) (bit_or (bit_or entry flags) is_writable)) flags

unfoldable pub paging_new_4gb : (ℕ → ℕ) → Words → ℕ → Chunk × Words
paging_new_4gb alloc words flags = (
  record { address = alloc (entries_per_table + 1); directory_entry = alloc 0 },
  fill_directory alloc entries_per_table 0 0 words flags,
)

-- The pointers that the loop of paging_free_4gb hands to kfree, from entry `i` on.
pub freed_tables : ℕ → ℕ → Words → ℕ → List ℕ
unfolding page_base
freed_tables zero i words directory = []
freed_tables (suc left) i words directory =
    page_base (words (directory + 4 * i)) ∷ freed_tables left (i + 1) words directory

-- What paging_free_4gb hands to kfree, in order.
pub paging_free_4gb : Words → Chunk → List ℕ
unfolding freed_tables
paging_free_4gb words chunk =
    freed_tables entries_per_table 0 words chunk.directory_entry
    ++ chunk.directory_entry ∷ chunk.address ∷ []
