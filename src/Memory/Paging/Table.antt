-- ===== src/Memory/Paging/Table.antt =====
-- The two levels of tables: where the entry of a page lies, and that setting one entry leaves
-- the others alone.
use alpha_os.Prelude.{
  ℕ, ◌+◌, ◌*◌, ◌/◌, ◌%◌, ◌^◌, ◌<◌, ◌≡◌, ◌≢◌, ap, ◌∙◌, bit_and, bit_or, ◌==◌, if◌then◌else◌, ok,
  arith, bit_and-shifted, bit_and-low_mask, bit_or-shifted,
}
use alpha_os.Memory.Paging.Store.{Words, store}
use alpha_os.Memory.Paging.{
  page_base, paging_is_aligned, paging_get_indexes, paging_set, paging_get,
}

pub page_base_lem : (entry : ℕ) → page_base entry ≡ entry / 4096 % 2 ^ 20 * 4096
unfolding page_base
page_base_lem entry =
    ap (λ e. bit_and e 0xFFFFF000) whole
    ∙ bit_and-shifted 12 (entry / 4096) (entry % 4096) 0xFFFFF (omega arith)
    ∙ ap (λ m. m * 4096) (bit_and-low_mask 20 (entry / 4096))
  where
    whole : entry ≡ entry / 4096 * 2 ^ 12 + entry % 4096
    whole = omega arith

-- Flags below 4096 leave the address of an entry as it is.
pub page_base-flags :
    (address flags : ℕ)
    → address % 4096 ≡ 0
    → address < 2 ^ 32
    → flags < 4096
    → page_base (bit_or address flags) ≡ address
page_base-flags address flags aligned small low =
    ap (λ a. page_base (bit_or a flags)) whole
    ∙ ap page_base (bit_or-shifted 12 (address / 4096) flags low)
    ∙ page_base_lem (address / 4096 * 2 ^ 12 + flags)
    ∙ omega arith
  where
    whole : address ≡ address / 4096 * 2 ^ 12
    whole = omega arith

abbrev pub directory_index : ℕ → ℕ
directory_index page = page / 4194304

abbrev pub table_index : ℕ → ℕ
table_index page = page % 4194304 / 4096

-- The 1024 tables of a directory are distinct pages, and none is the directory's own page.
pub record IsDirectory (words : Words) (directory : ℕ) (tables : ℕ → ℕ) : Type 0 where
  pub own_page : directory % 4096 ≡ 0
  pub holds : (i : ℕ) → i < 1024 → page_base (words (directory + 4 * i)) ≡ tables i
  pub is_page : (i : ℕ) → i < 1024 → tables i % 4096 ≡ 0
  pub distinct : (i k : ℕ) → i < 1024 → k < 1024 → tables i ≡ tables k → i ≡ k
  pub apart : (i : ℕ) → i < 1024 → tables i ≢ directory

pub slot_inj :
    (a b i j : ℕ)
    → a % 4096 ≡ 0
    → b % 4096 ≡ 0
    → i < 1024
    → j < 1024
    → a + 4 * i ≡ b + 4 * j
    → (a ≡ b) × (i ≡ j)
slot_inj a b i j pa pb hi hj e = omega arith

module _ (words : Words) (directory : ℕ) (tables : ℕ → ℕ)
    (dir : IsDirectory words directory tables) where
  -- Where the entry of a page lies.
  abbrev pub entry_address : ℕ → ℕ
  entry_address page = tables (directory_index page) + 4 * table_index page

  pub paging_get_lem :
      (page : ℕ)
      → page % 4096 ≡ 0
      → page < 2 ^ 32
      → paging_get words directory page ≡ words (entry_address page)
  unfolding paging_get paging_get_indexes paging_is_aligned
  paging_get_lem page aligned small = ground (arith, dir.holds (page / 4194304))

  pub paging_set_lem :
      (page value : ℕ)
      → page % 4096 ≡ 0
      → page < 2 ^ 32
      → paging_set words directory page value ≡ ok (store words (entry_address page) value)
  unfolding paging_set paging_get_indexes paging_is_aligned
  paging_set_lem page value aligned small = ground (arith, dir.holds (page / 4194304))

  entry_address_inj :
      (p q : ℕ)
      → p % 4096 ≡ 0
      → q % 4096 ≡ 0
      → p < 2 ^ 32
      → q < 2 ^ 32
      → entry_address p ≡ entry_address q
      → p ≡ q
  entry_address_inj p q wp wq sp sq e = omega (
    arith,
    slots.1,
    dir.distinct (directory_index p) (directory_index q) (omega arith) (omega arith) slots.0,
  )
    where
      slots :
          (tables (directory_index p) ≡ tables (directory_index q))
          × (table_index p ≡ table_index q)
      slots =
          slot_inj (tables (directory_index p)) (tables (directory_index q)) (table_index p)
            (table_index q) (dir.is_page (directory_index p) (omega arith))
            (dir.is_page (directory_index q) (omega arith)) (omega arith) (omega arith) e

  pub set-IsDirectory :
      (page value : ℕ)
      → page % 4096 ≡ 0
      → page < 2 ^ 32
      → IsDirectory (store words (entry_address page) value) directory tables
  unfolding store
  set-IsDirectory page value aligned small = record {
    own_page = dir.own_page;
    holds = λ i h. ground (
      arith,
      dir.holds i,
      dir.is_page (directory_index page),
      dir.apart (directory_index page),
      dir.own_page,
    );
    is_page = dir.is_page;
    distinct = dir.distinct;
    apart = dir.apart;
  }

-- After an entry is set, reading any aligned page gives the new value at that page and what was
-- there before at every other page; the tables are still in their places.
pub paging_get-set :
    (words : Words) (directory : ℕ) (tables : ℕ → ℕ) (page other value : ℕ)
    → IsDirectory words directory tables
    → page % 4096 ≡ 0
    → page < 2 ^ 32
    → other % 4096 ≡ 0
    → other < 2 ^ 32
    → (words' : Words) × (paging_set words directory page value ≡ ok words')
      × (paging_get words' directory other
          ≡ (if other == page then value else paging_get words directory other))
      × IsDirectory words' directory tables
paging_get-set words directory tables page other value dir wp sp wq sq = (
  store words (entry_address words directory tables dir page) value,
  paging_set_lem words directory tables dir page value wp sp,
  paging_get_lem _ directory tables kept other wq sq ∙ read,
  kept,
)
  where
    read :
        store words
          (entry_address words directory tables dir page)
          value
          (entry_address words directory tables dir other)
        ≡ (if other == page then value else paging_get words directory other)
    read =
        unfold store in
        ground (
          arith,
          entry_address_inj words directory tables dir other page wq wp sq sp,
          paging_get_lem words directory tables dir other wq sq,
        )

    kept :
        IsDirectory
          (store words (entry_address words directory tables dir page) value)
          directory
          tables
    kept = set-IsDirectory words directory tables dir page value wp sp
