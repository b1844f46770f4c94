-- ===== src/Memory/Paging/Identity.antt =====
-- paging_new_4gb maps every page of the 4 GB to itself, and paging_free_4gb gives back what it
-- allocated.
use alpha_os.Prelude.{
  ℕ, zero, suc, ◌+◌, ◌-◌, ◌*◌, ◌/◌, ◌%◌, ◌^◌, ◌≤◌, ◌<◌, ◌≡◌, ◌≢◌, ◌⊎◌, refl, ap, ap₂, ◌∙◌, bit_or,
  List, [], ◌∷◌, ◌++◌, arith, bit_or-shifted, bit_or-low,
}
use native.Mathlib.Decide.{ℕ_discrete}
use alpha_os.Memory.Paging.Store.{Words, store}
use alpha_os.Memory.Paging.{
  page_base, fill_table, fill_directory, paging_new_4gb, freed_tables, paging_free_4gb, paging_get,
  paging_get_physical_address, paging_align_to_lower_page,
}
use alpha_os.Memory.Paging.Table.{
  IsDirectory, page_base_lem, page_base-flags, paging_get_lem, slot_inj,
}

-- Writing entries `j` to `j + left` of a table leaves every word outside them.
fill_table_outside :
    (left j : ℕ) (words : Words) (entry offset flags a : ℕ)
    → (a < entry + 4 * j) ⊎ (entry + 4 * (j + left) ≤ a)
    → fill_table left j words entry offset flags a ≡ words a
unfolding fill_table store
fill_table_outside zero j words entry offset flags a out = refl
fill_table_outside (suc left) j words entry offset flags a out = ground (
  arith,
  fill_table_outside left (j + 1)
      (store words (entry + 4 * j) (bit_or ((offset + j * 4096) % 2 ^ 32) flags)) entry offset flags
      a,
)

fill_table_inside :
    (left j : ℕ) (words : Words) (entry offset flags k : ℕ)
    → j ≤ k
    → k < j + left
    → fill_table left j words entry offset flags (entry + 4 * k)
      ≡ bit_or ((offset + k * 4096) % 2 ^ 32) flags
unfolding fill_table store
fill_table_inside zero j words entry offset flags k h l = absurd (omega arith)
fill_table_inside (suc left) j words entry offset flags k h l = elim (ℕ_discrete k j) [
  | yes here ↦ ground (
    arith,
    fill_table_outside left (j + 1)
        (store words (entry + 4 * j) (bit_or ((offset + j * 4096) % 2 ^ 32) flags)) entry offset
        flags (entry + 4 * k),
  )
  | no later ↦
      fill_table_inside left (j + 1)
        (store words (entry + 4 * j) (bit_or ((offset + j * 4096) % 2 ^ 32) flags)) entry offset
        flags k (omega arith) (omega arith)
]

-- What paging_new_4gb needs of kzalloc: 1025 distinct pages of the address space.
pub record IsFresh (alloc : ℕ → ℕ) : Type 0 where
  pub is_page : (n : ℕ) → n ≤ 1024 → alloc n % 4096 ≡ 0
  pub in_space : (n : ℕ) → n ≤ 1024 → alloc n < 2 ^ 32
  pub distinct : (n m : ℕ) → n ≤ 1024 → m ≤ 1024 → alloc n ≡ alloc m → n ≡ m

page_outside :
    (b entry j : ℕ)
    → b % 4096 ≡ 0
    → entry % 4096 ≡ 0
    → b ≢ entry
    → j < 1024
    → (b + 4 * j < entry + 4 * 0) ⊎ (entry + 4 * (0 + 1024) ≤ b + 4 * j)
page_outside b entry j hb he ne hj = omega arith

-- The step of the outer loop at entry `i`.
abbrev filled : (ℕ → ℕ) → ℕ → ℕ → Words → ℕ → Words
filled alloc i offset words flags =
    store (fill_table 1024 0 words (alloc (i + 1)) offset flags) (alloc 0 + 4 * i)
      (bit_or (bit_or (alloc (i + 1)) flags) 2)

module _ (alloc : ℕ → ℕ) (fresh : IsFresh alloc) where
  alloc_ne : (n m : ℕ) → n ≤ 1024 → m ≤ 1024 → n ≢ m → alloc n ≢ alloc m
  alloc_ne n m hn hm ne e = ne (fresh.distinct n m hn hm e)

  -- A word of page `n` that the step does not write.
  filled_outside :
      (i offset : ℕ) (words : Words) (flags n k : ℕ)
      → i < 1024
      → n ≤ 1024
      → k < 1024
      → n ≢ i + 1
      → (n ≢ 0) ⊎ (k ≢ i)
      → filled alloc i offset words flags (alloc n + 4 * k) ≡ words (alloc n + 4 * k)
  unfolding store
  filled_outside i offset words flags n k hi hn hk ne other = ground (
    arith,
    fill_table_outside 1024 0 words (alloc (i + 1)) offset flags (alloc n + 4 * k) (
        page_outside (alloc n) (alloc (i + 1)) k (fresh.is_page n hn)
          (fresh.is_page (i + 1) (omega arith)) (alloc_ne n (i + 1) hn (omega arith) ne) hk),
    slot_inj (alloc n) (alloc 0) k i (fresh.is_page n hn) (fresh.is_page 0 (omega arith)) hk hi,
    fresh.distinct n 0 hn (omega arith),
  )

  filled_table :
      (i offset : ℕ) (words : Words) (flags k : ℕ)
      → i < 1024
      → k < 1024
      → filled alloc i offset words flags (alloc (i + 1) + 4 * k)
        ≡ bit_or ((offset + k * 4096) % 2 ^ 32) flags
  unfolding store
  filled_table i offset words flags k hi hk = ground (
    arith,
    fill_table_inside 1024 0 words (alloc (i + 1)) offset flags k (omega arith) (omega arith),
    slot_inj (alloc (i + 1)) (alloc 0) k i (fresh.is_page (i + 1) (omega arith))
        (fresh.is_page 0 (omega arith)) hk hi,
    fresh.distinct (i + 1) 0 (omega arith) (omega arith),
  )

  filled_entry :
      (i offset : ℕ) (words : Words) (flags : ℕ)
      → filled alloc i offset words flags (alloc 0 + 4 * i)
        ≡ bit_or (bit_or (alloc (i + 1)) flags) 2
  unfolding store
  filled_entry i offset words flags = ground arith

  -- Pages and entries that the loop has passed keep their words.
  fill_directory_outside :
      (left i offset : ℕ) (words : Words) (flags n k : ℕ)
      → i + left ≤ 1024
      → k < 1024
      → (n ≢ 0) ⊎ (k < i)
      → n ≤ i
      → fill_directory alloc left i offset words flags (alloc n + 4 * k) ≡ words (alloc n + 4 * k)
  unfolding fill_directory
  fill_directory_outside zero i offset words flags n k hi hk h hn = refl
  fill_directory_outside (suc left) i offset words flags n k hi hk h hn =
      fill_directory_outside left (i + 1) ((offset + 4194304) % 2 ^ 32)
        (filled alloc i offset words flags) flags n k (omega arith) hk (omega arith) (omega arith)
      ∙ filled_outside i offset words flags n k (omega arith) (omega arith) hk (omega arith)
          (omega arith)

  fill_directory_table :
      (left i offset : ℕ) (words : Words) (flags t k : ℕ)
      → i + left ≤ 1024
      → offset ≡ i * 4194304 % 2 ^ 32
      → i ≤ t
      → t < i + left
      → k < 1024
      → fill_directory alloc left i offset words flags (alloc (t + 1) + 4 * k)
        ≡ bit_or ((t * 4194304 + k * 4096) % 2 ^ 32) flags
  unfolding fill_directory
  fill_directory_table zero i offset words flags t k hi ho h l hk = absurd (omega arith)
  fill_directory_table (suc left) i offset words flags t k hi ho h l hk = elim (ℕ_discrete t i) [
    | yes here ↦
        fill_directory_outside left (i + 1) ((offset + 4194304) % 2 ^ 32)
          (filled alloc i offset words flags) flags (t + 1) k (omega arith) hk (omega arith)
          (omega arith)
        ∙ rw here (
            filled_table i offset words flags k (omega arith) hk
            ∙ ap (λ x. bit_or x flags) (omega arith))
    | no later ↦
        fill_directory_table left (i + 1) ((offset + 4194304) % 2 ^ 32)
          (filled alloc i offset words flags) flags t k (omega arith) (omega arith) (omega arith)
          (omega arith) hk
  ]

  fill_directory_entry :
      (left i offset : ℕ) (words : Words) (flags t : ℕ)
      → i + left ≤ 1024
      → i ≤ t
      → t < i + left
      → fill_directory alloc left i offset words flags (alloc 0 + 4 * t)
        ≡ bit_or (bit_or (alloc (t + 1)) flags) 2
  unfolding fill_directory
  fill_directory_entry zero i offset words flags t hi h l = absurd (omega arith)
  fill_directory_entry (suc left) i offset words flags t hi h l = elim (ℕ_discrete t i) [
    | yes here ↦
        fill_directory_outside left (i + 1) ((offset + 4194304) % 2 ^ 32)
          (filled alloc i offset words flags) flags 0 t (omega arith) (omega arith) (omega arith)
          (omega arith)
        ∙ rw here (filled_entry i offset words flags)
    | no later ↦
        fill_directory_entry left (i + 1) ((offset + 4194304) % 2 ^ 32)
          (filled alloc i offset words flags) flags t (omega arith) (omega arith) (omega arith)
  ]

entry_base :
    (address flags : ℕ)
    → address % 4096 ≡ 0
    → address < 2 ^ 32
    → flags < 4096
    → page_base (bit_or (bit_or address flags) 2) ≡ address
entry_base address flags aligned small low =
    ap (λ a. page_base (bit_or (bit_or a flags) 2)) whole
    ∙ ap (λ e. page_base (bit_or e 2)) (bit_or-shifted 12 (address / 4096) flags low)
    ∙ ap page_base (bit_or-low 12 (address / 4096) flags 2 low (omega arith)).0
    ∙ page_base_lem (address / 4096 * 2 ^ 12 + bit_or flags 2)
    ∙ omega (arith, (bit_or-low 12 (address / 4096) flags 2 low (omega arith)).1)
  where
    whole : address ≡ address / 4096 * 2 ^ 12
    whole = omega arith

-- The `left` tables from number `i + 1` on.
pub allocs : (ℕ → ℕ) → ℕ → ℕ → List ℕ
allocs alloc zero i = []
allocs alloc (suc left) i = alloc (i + 1) ∷ allocs alloc left (i + 1)

freed_tables_lem :
    (left i : ℕ) (words : Words) (directory : ℕ) (alloc : ℕ → ℕ)
    → i + left ≤ 1024
    → IsDirectory words directory (λ n. alloc (n + 1))
    → freed_tables left i words directory ≡ allocs alloc left i
unfolding freed_tables allocs
freed_tables_lem zero i words directory alloc h dir = refl
freed_tables_lem (suc left) i words directory alloc h dir =
    ap₂ ◌∷◌ (dir.holds i (omega arith))
      (freed_tables_lem left (i + 1) words directory alloc (omega arith) dir)

module _ (alloc : ℕ → ℕ) (words : Words) (flags : ℕ) (fresh : IsFresh alloc)
    (low : flags < 4096) where
  -- paging_new_4gb makes a directory of 1024 distinct tables.
  pub new_4gb-IsDirectory :
      let (chunk, words') = paging_new_4gb alloc words flags in
      IsDirectory words' chunk.directory_entry (λ n. alloc (n + 1))
  unfolding paging_new_4gb
  new_4gb-IsDirectory = record {
    own_page = fresh.is_page 0 (omega arith);
    holds = λ i h.
        ap page_base (
          fill_directory_entry alloc fresh 1024 0 0 words flags i (omega arith) (omega arith)
            (omega arith))
        ∙ entry_base (alloc (i + 1)) flags (fresh.is_page (i + 1) (omega arith))
            (fresh.in_space (i + 1) (omega arith)) low;
    is_page = λ i h. fresh.is_page (i + 1) (omega arith);
    distinct =
        λ i k h l e. omega (arith, fresh.distinct (i + 1) (k + 1) (omega arith) (omega arith) e);
    apart = λ i h e. absurd (omega (arith, fresh.distinct (i + 1) 0 (omega arith) (omega arith) e));
  }

  -- The entry of every page is the page itself, with the flags.
  new_4gb-get :
      (page : ℕ)
      → page % 4096 ≡ 0
      → page < 2 ^ 32
      → let (chunk, words') = paging_new_4gb alloc words flags in
        paging_get words' chunk.directory_entry page ≡ bit_or page flags
  unfolding paging_new_4gb
  new_4gb-get page aligned small =
      paging_get_lem _ (alloc 0) (λ n. alloc (n + 1)) new_4gb-IsDirectory page aligned small
      ∙ fill_directory_table alloc fresh 1024 0 0 words flags (page / 4194304)
          (page % 4194304 / 4096) (omega arith) refl (omega arith) (omega arith) (omega arith)
      ∙ ap (λ p. bit_or p flags) (omega arith)

-- After paging_new_4gb every address of the 4 GB translates to itself.
pub new_4gb-identity :
    (alloc : ℕ → ℕ) (words : Words) (flags a : ℕ)
    → IsFresh alloc
    → flags < 4096
    → a < 2 ^ 32
    → let (chunk, words') = paging_new_4gb alloc words flags in
      paging_get_physical_address words' chunk.directory_entry a ≡ a
unfolding paging_get_physical_address paging_align_to_lower_page
new_4gb-identity alloc words flags a fresh low small =
    ap (λ e. (page_base e + (a - (a - a % 4096))) % 2 ^ 32)
      (new_4gb-get alloc words flags fresh low (a - a % 4096) (omega arith) (omega arith))
    ∙ ap (λ b. (b + (a - (a - a % 4096))) % 2 ^ 32)
        (page_base-flags (a - a % 4096) flags (omega arith) (omega arith) low)
    ∙ omega arith

-- paging_free_4gb on a fresh chunk hands to kfree the 1024 tables, the directory and the chunk, each
-- once: what paging_new_4gb had from kzalloc.
pub free-new_4gb :
    (alloc : ℕ → ℕ) (words : Words) (flags : ℕ)
    → IsFresh alloc
    → flags < 4096
    → let (chunk, words') = paging_new_4gb alloc words flags in
      paging_free_4gb words' chunk ≡ allocs alloc 1024 0 ++ alloc 0 ∷ alloc 1025 ∷ []
unfolding paging_free_4gb paging_new_4gb
free-new_4gb alloc words flags fresh low =
    ap (λ l. l ++ alloc 0 ∷ alloc 1025 ∷ [])
      (freed_tables_lem 1024 0 _ (alloc 0) alloc (omega arith)
        (new_4gb-IsDirectory alloc words flags fresh low))
