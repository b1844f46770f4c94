-- ===== src/Memory/Paging/Swap.antt =====
-- A page of src/memory/paging/paging.c that is mapped to itself for a while.
use alpha_os.Prelude.{
  ℕ, ◌-◌, ◌%◌, ◌^◌, ◌<◌, ◌≡◌, sym, ap, subst, ◌∙◌, bit_or, ◌==◌, if◌then◌else◌, ok, err, arith,
  within,
}
use alpha_os.Memory.Paging.Store.{Words, store}
use alpha_os.Memory.Paging.{
  Chunk, paging_map, paging_set, paging_get, paging_get_physical_address,
  paging_align_to_lower_page,
}
use alpha_os.Memory.Paging.Table.{
  IsDirectory, entry_address, paging_get_lem, paging_set_lem, set-IsDirectory, page_base-flags,
  paging_get-set,
}

paging_map-set :
    (words : Words) (chunk : Chunk) (page : ℕ)
    → page % 4096 ≡ 0
    → paging_map words chunk page page 0b111
      ≡ paging_set words chunk.directory_entry page (bit_or page 0b111)
unfolding paging_map
paging_map-set words chunk page aligned = ground arith

store-back : (words : Words) (a v w b : ℕ) → v ≡ words a → store (store words a w) a v b ≡ words b
unfolding store
store-back words a v w b e = ground arith

physical-swap :
    (words mapped : Words) (directory page a : ℕ)
    → page % 4096 ≡ 0
    → page < 2 ^ 32
    → a < 2 ^ 32
    → paging_get mapped directory (a - a % 4096) ≡ (
        if a - a % 4096 == page
        then bit_or page 0b111
        else paging_get words directory (a - a % 4096))
    → paging_get_physical_address mapped directory a
      ≡ (if within page 4096 a then a else paging_get_physical_address words directory a)
unfolding paging_get_physical_address paging_align_to_lower_page
physical-swap words mapped directory page a aligned small ha got =
    ground (arith, got, page_base-flags page 0b111)

-- With 1024 distinct tables, a page can be mapped to itself: its addresses then translate to
-- themselves and all others as before, and setting the old entry again gives every word of the tables
-- back.
pub paging_map_swap :
    (words : Words) (chunk : Chunk) (tables : ℕ → ℕ) (page : ℕ)
    → IsDirectory words chunk.directory_entry tables
    → page % 4096 ≡ 0
    → page < 2 ^ 32
    → (mapped restored : Words) × (paging_map words chunk page page 0b111 ≡ ok mapped)
      × (paging_set mapped chunk.directory_entry page (paging_get words chunk.directory_entry page)
          ≡ ok restored)
      × ((a : ℕ)
          → a < 2 ^ 32
          → paging_get_physical_address mapped chunk.directory_entry a ≡ (
              if within page 4096 a
              then a
              else paging_get_physical_address words chunk.directory_entry a))
      × ((a : ℕ) → restored a ≡ words a)
paging_map_swap words chunk tables page dir aligned small =
    let directory = chunk.directory_entry in
    let at_entry = entry_address words directory tables dir page in
    let mapped = store words at_entry (bit_or page 0b111) in
    let dir' = set-IsDirectory words directory tables dir page (bit_or page 0b111) aligned small in
    let old = paging_get words directory page in
    let set = paging_set_lem words directory tables dir page (bit_or page 0b111) aligned small in
    (
      mapped,
      store mapped at_entry old,
      paging_map-set words chunk page aligned ∙ set,
      paging_set_lem mapped directory tables dir' page old aligned small,
      λ a ha.
          (let (words', set', got, kept) =
              paging_get-set words directory tables page (a - a % 4096) (bit_or page 0b111) dir
                aligned small (omega arith) (omega arith) in
            physical-swap words mapped directory page a aligned small ha (
              subst
                (λ (ws : Words). paging_get ws directory (a - a % 4096) ≡ (
                  if a - a % 4096 == page
                  then bit_or page 0b111
                  else paging_get words directory (a - a % 4096)))
                (ok-words words' mapped (sym set' ∙ set)) got)),
      λ a.
          store-back words at_entry old (bit_or page 0b111) a
            (paging_get_lem words directory tables dir page aligned small),
    )
  where
    ok-words : (x y : Words) → ok x ≡ ok y → x ≡ y
    ok-words x y e = ap (λ r. elim r [ ok z ↦ z | err _ ↦ x ]) e
