-- ===== src/Memory/Paging/Map.antt =====
-- paging_map_range and paging_map_to: which pages they map, and to what.
use alpha_os.Prelude.{
  ℕ, zero, suc, ◌+◌, ◌-◌, ◌*◌, ◌/◌, ◌%◌, ◌^◌, ◌≤◌, ◌<◌, ◌≡◌, ◌≢◌, ◌⊎◌, refl, ◌∙◌, bit_or, ◌==◌,
  if◌then◌else◌, ok, err, einvarg, arith, within,
}
use alpha_os.Memory.Paging.Store.{Words}
use alpha_os.Memory.Paging.{
  Chunk, paging_set, paging_get, paging_map, paging_map_range, paging_map_to,
  paging_align_to_lower_page, paging_get_physical_address,
}
use alpha_os.Memory.Paging.Table.{IsDirectory, paging_get-set, page_base-flags}

map_range_suc :
    (words words' : Words) (chunk : Chunk) (v p count flags : ℕ)
    → v % 4096 ≡ 0
    → p % 4096 ≡ 0
    → paging_set words chunk.directory_entry v (bit_or p flags) ≡ ok words'
    → paging_map_range words chunk v p (suc count) flags
      ≡ paging_map_range words' chunk ((v + 4096) % 2 ^ 32) ((p + 4096) % 2 ^ 32) count flags
unfolding paging_map_range paging_map
map_range_suc words words' chunk v p count flags hv hp e = ground arith

-- Reading a page after the first has been mapped to `p` and the rest from `p + 4096` on.
read_step :
    (count v p flags page now old : ℕ)
    → v % 4096 ≡ 0
    → page % 4096 ≡ 0
    → v + suc count * 4096 ≤ 2 ^ 32
    → p + suc count * 4096 ≤ 2 ^ 32
    → page < 2 ^ 32
    → now ≡ (if page == v then bit_or p flags else old)
    → (if within ((v + 4096) % 2 ^ 32) (count * 4096) page
        then bit_or ((p + 4096) % 2 ^ 32 + (page - (v + 4096) % 2 ^ 32)) flags
        else now)
      ≡ (if within v (suc count * 4096) page then bit_or (p + (page - v)) flags else old)
read_step count v p flags page now old hv hq bv bp bq e = ground arith

-- For aligned ranges inside the address space paging_map_range succeeds; each of its `count` pages
-- is mapped to the page at the same distance from `p`, every other page stays as it was, and the
-- tables stay in their places.
pub paging_map_range_lem :
    (count : ℕ) (words : Words) (chunk : Chunk) (tables : ℕ → ℕ) (v p flags page : ℕ)
    → IsDirectory words chunk.directory_entry tables
    → v % 4096 ≡ 0
    → p % 4096 ≡ 0
    → v + count * 4096 ≤ 2 ^ 32
    → p + count * 4096 ≤ 2 ^ 32
    → page % 4096 ≡ 0
    → page < 2 ^ 32
    → let (res, words') = paging_map_range words chunk v p count flags in
      (res ≡ ok 0)
      × (paging_get words' chunk.directory_entry page ≡ (
          if within v (count * 4096) page
          then bit_or (p + (page - v)) flags
          else paging_get words chunk.directory_entry page))
      × IsDirectory words' chunk.directory_entry tables
paging_map_range_lem zero words chunk tables v p flags page dir hv hp bv bp hq bq =
    unfold paging_map_range in (refl, ground arith, dir)
paging_map_range_lem (suc count) words chunk tables v p flags page dir hv hp bv bp hq bq =
    let (words', set, got, dir') =
      paging_get-set words chunk.directory_entry tables v page (bit_or p flags) dir hv (omega arith)
        hq bq in
    let rest =
      paging_map_range_lem count words' chunk tables ((v + 4096) % 2 ^ 32) ((p + 4096) % 2 ^ 32)
        flags page dir' (omega arith) (omega arith) (omega arith) (omega arith) hq bq in
    rw (map_range_suc words words' chunk v p count flags hv hp set)
      (rest.0, rest.1 ∙ read_step count v p flags page _ _ hv hq bv bp bq got, rest.2)

-- paging_map_to refuses bounds that are not on a page, and an end below the start, and changes
-- nothing then.
pub paging_map_to_refuses :
    (words : Words) (chunk : Chunk) (v p end flags : ℕ)
    → (v % 4096 ≢ 0) ⊎ ((p % 4096 ≢ 0) ⊎ ((end % 4096 ≢ 0) ⊎ (end < p)))
    → paging_map_to words chunk v p end flags ≡ (err einvarg, words)
unfolding paging_map_to
paging_map_to_refuses words chunk v p end flags bad = ground arith

pub map_to_ranges :
    (words : Words) (chunk : Chunk) (v p end flags : ℕ)
    → v % 4096 ≡ 0
    → p % 4096 ≡ 0
    → end % 4096 ≡ 0
    → p ≤ end
    → paging_map_to words chunk v p end flags
      ≡ paging_map_range words chunk v p ((end - p) / 4096) flags
unfolding paging_map_to
map_to_ranges words chunk v p end flags hv hp he le = ground arith

-- After paging_map_to, an address in the mapped range translates to the byte at the same distance
-- from `p`, and the address of any other page to what it translated to before.
pub paging_map_to_translates :
    (words : Words) (chunk : Chunk) (tables : ℕ → ℕ) (v p end flags a : ℕ)
    → IsDirectory words chunk.directory_entry tables
    → v % 4096 ≡ 0
    → p % 4096 ≡ 0
    → end % 4096 ≡ 0
    → p ≤ end
    → end < 2 ^ 32
    → v + (end - p) ≤ 2 ^ 32
    → flags < 4096
    → a < 2 ^ 32
    → let (res, words') = paging_map_to words chunk v p end flags in
      (res ≡ ok 0)
      × (paging_get_physical_address words' chunk.directory_entry a ≡ (
          if within v (end - p) a
          then p + (a - v)
          else paging_get_physical_address words chunk.directory_entry a))
unfolding paging_get_physical_address paging_align_to_lower_page
paging_map_to_translates words chunk tables v p end flags a dir hv hp he le small room low ha =
    rw (map_to_ranges words chunk v p end flags hv hp he le)
      (mapped.0, ground (arith, mapped.1, page_base-flags (p + (a - a % 4096 - v)) flags))
  where
    mapped :
        let (res, words') = paging_map_range words chunk v p ((end - p) / 4096) flags in
        (res ≡ ok 0)
        × (paging_get words' chunk.directory_entry (a - a % 4096) ≡ (
            if within v ((end - p) / 4096 * 4096) (a - a % 4096)
            then bit_or (p + (a - a % 4096 - v)) flags
            else paging_get words chunk.directory_entry (a - a % 4096)))
        × IsDirectory words' chunk.directory_entry tables
    mapped =
        paging_map_range_lem ((end - p) / 4096) words chunk tables v p flags (a - a % 4096) dir hv
          hp (omega arith) (omega arith) (omega arith) (omega arith)
