-- ===== src/Memory/Heap.antt =====
-- src/memory/heap/heap.c: an allocator of 4096-byte blocks over a table of one byte for a block.
-- The table's `total` is the length of its list of entries; an access outside is `none`.
pub mod Scan
pub mod Mark
pub mod Alloc
pub mod Spans
pub mod Apart
mod Tests
use alpha_os.Prelude.{
  ℕ, zero, suc, ◌+◌, ◌-◌, ◌*◌, ◌/◌, ◌%◌, ◌^◌, bit_and, bit_or, Bool, true, false, not, ◌&&◌, ◌||◌,
  Option, none, some, List, [], ◌∷◌, ◌++◌, ltb, ◌==◌, if◌then◌else◌, length, get_elem?, set?,
  replicate, drop, Result, ok, err, einvarg, enomem, ◌>>=◌, ℤ, pos, negsuc,
}

-- HEAP_BLOCK_TABLE_ENTRY_TAKEN, HEAP_BLOCK_HAS_NEXT, HEAP_BLOCK_IS_FIRST
abbrev pub entry_taken : ℕ
entry_taken = 0x01

abbrev pub entry_free : ℕ
entry_free = 0x00

abbrev pub has_next : ℕ
has_next = 0b10000000

abbrev pub is_first : ℕ
is_first = 0b01000000

abbrev pub block_size : ℕ
block_size = 4096

pub record Heap : Type 0 where
  pub entries : List ℕ
  pub saddr : ℕ

-- heap_validate_table, on the pointers' difference
heap_validate_table : ℕ → ℕ → List ℕ → Bool
heap_validate_table ptr end entries = length entries == (end + 2 ^ 32 - ptr) % 2 ^ 32 / block_size

heap_validate_alignment : ℕ → Bool
heap_validate_alignment ptr = ptr % block_size == 0

-- The old heap is lost as soon as the alignment is right; `err` keeps what was assigned.
pub heap_create : Heap → ℕ → ℕ → List ℕ → Result ℕ × Heap
unfolding heap_validate_alignment heap_validate_table
heap_create heap ptr end entries =
    if not (heap_validate_alignment ptr) || not (heap_validate_alignment end)
    then (err einvarg, heap)
    else if not (heap_validate_table ptr end entries)
    then (err einvarg, record { entries = entries; saddr = ptr })
    else (ok 0, record { entries = replicate (length entries) entry_free; saddr = ptr })

-- Sums of uint32_t wrap.
unfoldable pub heap_align_value_to_upper : ℕ → ℕ
heap_align_value_to_upper val =
    if val % block_size == 0 then val else (val - val % block_size + block_size) % 2 ^ 32

unfoldable pub heap_get_entry_type : ℕ → ℕ
heap_get_entry_type entry = bit_and entry 0x0f

-- The loop of heap_get_start_blocks from entry `i` on; `bs` is `none` for -1.
unfoldable pub scan_blocks : ℕ → List ℕ → ℕ → Option ℕ → ℕ → Option ℕ
unfolding heap_get_entry_type
scan_blocks total_blocks [] i bs bc = bs
scan_blocks total_blocks (entry ∷ entries) i bs bc =
    elim (heap_get_entry_type entry == entry_free) [
      | false ↦ scan_blocks total_blocks entries (i + 1) none 0
      | true ↦
          let bs' : Option ℕ = elim bs [ none ↦ some i | some b ↦ some b ] in
          elim (bc + 1 == total_blocks) [
            | true ↦ bs'
            | false ↦ scan_blocks total_blocks entries (i + 1) bs' (bc + 1)
          ]
    ]

unfoldable pub heap_get_start_blocks : Heap → ℕ → Result ℕ
unfolding scan_blocks
heap_get_start_blocks heap total_blocks = elim (scan_blocks total_blocks heap.entries 0 none 0) [
  | none ↦ err enomem
  | some bs ↦ ok bs
]

unfoldable pub heap_block_to_address : Heap → ℕ → ℕ
heap_block_to_address heap block = (heap.saddr + block * block_size) % 2 ^ 32

-- The loop of heap_mark_block_taken, with `left` rounds to go. `i != end_block - 1` is read as
-- `i + 1 != end_block`.
unfoldable pub mark_loop : ℕ → ℕ → ℕ → ℕ → List ℕ → Option (List ℕ)
mark_loop zero i end_block entry entries = some entries
mark_loop (suc left) i end_block entry entries = do
  entries' ← set? entries i entry
  mark_loop left (i + 1) end_block
      (if i + 1 == end_block then entry_taken else bit_or entry_taken has_next) entries'

-- With no block to mark, `end_block` is below `start_block` and the loop makes no round.
unfoldable pub heap_mark_block_taken : Heap → ℕ → ℕ → Option Heap
unfolding mark_loop
heap_mark_block_taken heap start_block total_blocks =
    let end_block = start_block + total_blocks - 1 in
    let first = bit_or entry_taken is_first in
    do
      entries ←
          mark_loop total_blocks start_block end_block
            (if ltb 1 total_blocks then bit_or first has_next else first) heap.entries
      some (record heap { entries = entries })

-- Address 0 is NULL.
unfoldable pub heap_malloc_blocks : Heap → ℕ → Option (ℕ × Heap)
unfolding heap_get_start_blocks heap_mark_block_taken heap_block_to_address
heap_malloc_blocks heap total_blocks = elim (heap_get_start_blocks heap total_blocks) [
  | err _ ↦ some (0, heap)
  | ok start_block ↦ do
    heap' ← heap_mark_block_taken heap start_block total_blocks
    some (heap_block_to_address heap start_block, heap')
]

unfoldable pub free_loop : ℕ → ℕ → List ℕ → Option (List ℕ)
free_loop zero i entries = some entries
free_loop (suc left) i entries = do
  entry ← get_elem? entries i
  entries' ← set? entries i entry_free
  elim (bit_and entry has_next == 0) [
    | true ↦ some entries'
    | false ↦ free_loop left (i + 1) entries'
  ]

-- A negative block is read before the table begins.
unfoldable pub heap_mark_block_free : Heap → ℤ → Option Heap
unfolding free_loop
heap_mark_block_free heap (negsuc n) = none
heap_mark_block_free heap (pos starting_block) = do
  entries ← free_loop (length heap.entries - starting_block) starting_block heap.entries
  some (record heap { entries = entries })

-- `(int)(address - saddr) / 4096`: the division of C rounds towards 0.
unfoldable pub heap_address_to_block : Heap → ℕ → ℤ
heap_address_to_block heap address =
    let diff = (address + 2 ^ 32 - heap.saddr) % 2 ^ 32 in
    if ltb diff (2 ^ 31)
    then pos (diff / block_size)
    else if (2 ^ 32 - diff) / block_size == 0
    then pos 0
    else negsuc ((2 ^ 32 - diff) / block_size - 1)

unfoldable pub heap_malloc : Heap → ℕ → Option (ℕ × Heap)
unfolding heap_align_value_to_upper heap_malloc_blocks
heap_malloc heap size = heap_malloc_blocks heap (heap_align_value_to_upper size / block_size)

unfoldable pub heap_free : Heap → ℕ → Option Heap
unfolding heap_mark_block_free heap_address_to_block
heap_free heap ptr = heap_mark_block_free heap (heap_address_to_block heap ptr)
