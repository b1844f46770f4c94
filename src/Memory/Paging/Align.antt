-- ===== src/Memory/Paging/Align.antt =====
-- Aligned ends of ranges, for callers of paging_map_to in src/memory/paging/paging.c.
use alpha_os.Prelude.{ℕ, ◌+◌, ◌-◌, ◌/◌, ◌%◌, ◌^◌, ◌≤◌, ◌<◌, ◌≡◌, refl, ok, arith}
use alpha_os.Memory.Paging.Store.{Words}
use alpha_os.Memory.Paging.{Chunk, paging_map_to, paging_map_range, paging_align_address}
use alpha_os.Memory.Paging.Table.{IsDirectory}
use alpha_os.Memory.Paging.Map.{map_to_ranges, paging_map_range_lem}

pub paging_align_address_lem :
    (ptr : ℕ)
    → ptr + 4096 ≤ 2 ^ 32
    → (paging_align_address ptr % 4096 ≡ 0)
      × (ptr ≤ paging_align_address ptr)
      × (paging_align_address ptr < ptr + 4096)
unfolding paging_align_address
paging_align_address_lem ptr h = (ground arith, ground arith, ground arith)

-- The tables stay in their places under paging_map_to.
pub paging_map_to-IsDirectory :
    (words : Words) (chunk : Chunk) (tables : ℕ → ℕ) (v p end flags : ℕ)
    → IsDirectory words chunk.directory_entry tables
    → v % 4096 ≡ 0
    → p % 4096 ≡ 0
    → end % 4096 ≡ 0
    → p ≤ end
    → end < 2 ^ 32
    → v + (end - p) ≤ 2 ^ 32
    → let (res, words') = paging_map_to words chunk v p end flags in
      (res ≡ ok 0) × IsDirectory words' chunk.directory_entry tables
paging_map_to-IsDirectory words chunk tables v p end flags dir hv hp he le small room =
    let r =
      paging_map_range_lem ((end - p) / 4096) words chunk tables v p flags 0 dir hv hp (omega arith)
        (omega arith) (omega arith) (omega arith) in
    rw (map_to_ranges words chunk v p end flags hv hp he le) (r.0, r.2)

-- The range from page 0 up to address 0 has no page.
pub paging_map_to-empty :
    (words : Words) (chunk : Chunk) (flags : ℕ)
    → paging_map_to words chunk 0 0 (paging_align_address 0) flags ≡ (ok 0, words)
unfolding paging_map_to paging_map_range paging_align_address
paging_map_to-empty words chunk flags = refl
