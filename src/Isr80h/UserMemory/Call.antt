-- ===== src/Isr80h/UserMemory/Call.antt =====
-- copy_string_from_task of src/task/task.c: what is copied, and that heap and page tables are given back.
use alpha_os.Prelude.{
  ℕ, zero, suc, ◌+◌, ◌-◌, ◌^◌, ◌≤◌, ◌<◌, ◌≡◌, ◌⊎◌, inl, inr, refl, sym, ap, ◌∙◌, false, ◌==◌, leb,
  if◌then◌else◌, some, List, [], ◌∷◌, length, take, ok, Ram, IsBytes, within, arith, Option-cases,
  some-injective, ◌>>=◌,
}
use alpha_os.Memory.Heap.{heap_block_to_address, heap_free}
use alpha_os.Memory.Kheap.{Kernel, kzalloc, kfree}
use alpha_os.Memory.Kheap.Laws.{kzalloc_lem, kzalloc-address}
use alpha_os.Memory.Paging.{Chunk, paging_get, paging_set, paging_map, paging_get_physical_address}
use alpha_os.Memory.Paging.Store.{Words}
use alpha_os.Memory.Paging.Table.{IsDirectory}
use alpha_os.Memory.Paging.Swap.{paging_map_swap}
use alpha_os.Text.Cstring.{strncpy}
use alpha_os.Text.Cstring.Compare.{text}
use alpha_os.Text.Cstring.Copy.{strncpy_lem, text-length}
use alpha_os.Text.Cstring.Holds.{text-Holds}
use alpha_os.Process.{Memory}
use alpha_os.Process.Malloc.{HasRoom}
use alpha_os.Isr80h.UserMemory.{seen, seen_strncpy, map_own, copy_through, copy_string_from_task}
use alpha_os.Isr80h.UserMemory.Copied.{IsApart, seen_strncpy_lem, text-same}

-- The processor translates addresses as the page tables say.
abbrev pub IsMmu : (Words → ℕ → ℕ → ℕ) → Type 0
IsMmu mmu =
    (words : Words) (directory a : ℕ)
    → a < 2 ^ 32
    → mmu words directory a ≡ paging_get_physical_address words directory a

-- kfree looks at the table only.
kfree-ram :
    (k k' : Kernel) (ram : Ram) (ptr : ℕ)
    → kfree k ptr ≡ some k'
    → kfree (record k { ram = ram }) ptr ≡ some (record k' { ram = ram })
unfolding kfree
kfree-ram k k' ram ptr e = elim (Option-cases (heap_free k.heap ptr)) [
  | inl n ↦ ground (arith, rw (n) at e)
  | inr (h, r) ↦ rw r (
      ap (λ (x : Kernel). some (record x { ram = ram }))
        (some-injective (record k { heap = h }) k' (rw (r) at e)))
]

take-all : (xs : List ℕ) (n : ℕ) → length xs ≤ n → take n xs ≡ xs
take-all [] zero h = refl
take-all [] (suc n) h = refl
take-all (x ∷ xs) zero h = absurd (omega arith)
take-all (x ∷ xs) (suc n) h = ap (λ ys. x ∷ ys) (take-all xs n (omega arith))

map_own-eq :
    (words mapped : Words) (chunk : Chunk) (page : ℕ)
    → paging_map words chunk page page 0b111 ≡ ok mapped
    → map_own words chunk page ≡ mapped
unfolding map_own
map_own-eq words mapped chunk page e = rw (e, map_own) refl

module _ (mmu : Words → ℕ → ℕ → ℕ) where
  copy_through-eq :
      (m : Memory) (chunk : Chunk) (virtual physical max tmp : ℕ) (mapped restored : Words)
      (k : Kernel)
      → paging_map m.words chunk tmp tmp 0b111 ≡ ok mapped
      → paging_set mapped chunk.directory_entry tmp (paging_get m.words chunk.directory_entry tmp)
        ≡ ok restored
      → kfree m.kernel tmp ≡ some k
      → copy_through mmu m chunk virtual physical max tmp
        ≡ some (
          ok 0,
          record {
            kernel = record k {
              ram =
                  strncpy
                    (seen_strncpy (mmu mapped chunk.directory_entry) m.kernel.ram tmp virtual max)
                    physical
                    tmp
                    max;
            };
            words = restored;
          },
        )
  unfolding copy_through
  copy_through-eq m chunk virtual physical max tmp mapped restored k e set freed =
      let ram = seen_strncpy (mmu mapped chunk.directory_entry) m.kernel.ram tmp virtual max in
      let freed' = kfree-ram m.kernel k (strncpy ram physical tmp max) tmp freed in
      let own = map_own-eq m.words mapped chunk tmp e in
      rw (own, copy_through, set, own, freed', ◌>>=◌) refl

  copy_string-eq :
      (m : Memory) (chunk : Chunk) (virtual physical max tmp : ℕ) (k : Kernel)
      → max < 4096
      → kzalloc m.kernel max ≡ some (tmp, k)
      → 0 < tmp
      → copy_string_from_task mmu m chunk virtual physical max
        ≡ copy_through mmu (record m { kernel = k }) chunk virtual physical max tmp
  unfolding copy_string_from_task
  copy_string-eq m chunk virtual physical max tmp k small got there =
      let t : leb 4096 max ≡ false = ground arith in
      let t' : (tmp == 0) ≡ false = ground arith in rw (t, got, ◌>>=◌, t') refl

-- The two copies one after the other.
copied_twice :
    (translate : ℕ → ℕ) (ram : Ram) (tmp virtual physical max : ℕ)
    → IsApart translate tmp virtual max
    → IsBytes ram
    → 0 < max
    → physical + max < 2 ^ 32
    → (physical + max ≤ tmp) ⊎ (tmp + max ≤ physical)
    → text (strncpy (seen_strncpy translate ram tmp virtual max) physical tmp max) physical max
      ≡ text (seen ram translate) virtual (max - 1)
copied_twice translate ram tmp virtual physical max v bytes pos_max high apart =
    let out = seen_strncpy translate ram tmp virtual max in
    let line = text (seen ram translate) virtual (max - 1) in
    let (held, bytes') = seen_strncpy_lem translate ram tmp virtual max v bytes pos_max in
    (strncpy_lem out physical tmp max (physical + max) bytes' pos_max high
      (omega (arith, v.below, v.small)) (ground (arith, apart)) (inr (omega arith))).0
    ∙ text-Holds (max - 1) out tmp line held
    ∙ take-all line (max - 1) (text-length (max - 1) (seen ram translate) virtual)

-- A text at `virtual` that is translated away from the page at `tmp`.
abbrev pub IsElsewhere : (ℕ → ℕ) → ℕ → ℕ → ℕ → Type 0
IsElsewhere translate tmp virtual max =
    (a : ℕ) → virtual ≤ a → a < virtual + max → (translate a < tmp) ⊎ (tmp + 4096 ≤ translate a)

module _ (mmu : Words → ℕ → ℕ → ℕ) (words mapped : Words) (directory tmp virtual max : ℕ)
    (mmu_lem : IsMmu mmu)
    (shown : (a : ℕ)
      → a < 2 ^ 32
      → paging_get_physical_address mapped directory a
        ≡ (if within tmp 4096 a then a else paging_get_physical_address words directory a)) where
  unmoved :
      (virtual + max ≤ tmp) ⊎ (tmp + 4096 ≤ virtual)
      → virtual + max < 2 ^ 32
      → (a : ℕ) → virtual ≤ a
      → a < virtual + max
      → mmu mapped directory a ≡ mmu words directory a
  unmoved off_page high a l u =
      mmu_lem mapped directory a (omega arith)
      ∙ shown a (omega arith)
      ∙ ground (arith, off_page)
      ∙ sym (mmu_lem words directory a (omega arith))

  mmu-IsApart :
      ((a : ℕ) → virtual ≤ a → a < virtual + max → mmu mapped directory a ≡ mmu words directory a)
      → IsElsewhere (mmu words directory) tmp virtual max
      → 0 < tmp
      → tmp + 4096 ≤ 2 ^ 32
      → virtual + max < 2 ^ 32
      → max < 4096
      → IsApart (mmu mapped directory) tmp virtual max
  mmu-IsApart outside elsewhere above below high small = record {
    own = λ a l u. mmu_lem mapped directory a (omega arith) ∙ shown a (omega arith) ∙ ground arith;
    elsewhere = λ a l u. ground (arith, outside a l u, elsewhere a l u);
    above = above;
    below = below;
    inside = high;
    small = small;
  }

-- The cleared buffer is not what the task's text reads.
seen-unread :
    (ram cleared : Ram) (before after : ℕ → ℕ) (tmp virtual max a : ℕ)
    → virtual ≤ a
    → a < virtual + max
    → ((b : ℕ) → cleared b ≡ (if within tmp max b then 0 else ram b))
    → after a ≡ before a
    → IsElsewhere before tmp virtual max
    → max < 4096
    → seen cleared after a ≡ seen ram before a
unfolding seen
seen-unread ram cleared before after tmp virtual max a l u zeroed same elsewhere small =
    ap cleared same ∙ zeroed (before a) ∙ ground (arith, elsewhere a l u)

-- For a processor that translates as the page tables say, room for `max` bytes, below a page, in a heap
-- of whole pages below 2 GB, 1024 distinct tables, a text of the task that lies neither at nor behind the
-- page of that room, and a target apart from it: copy_string_from_task succeeds, leaves at the target
-- the text that the task sees at the address, cut to `max - 1` bytes, and gives back every word of the
-- page tables and the table of the heap.
pub copy_string_from_task_lem :
    (mmu : Words → ℕ → ℕ → ℕ) (m : Memory) (chunk : Chunk) (tables : ℕ → ℕ)
    (virtual physical max s : ℕ)
    → IsMmu mmu
    → IsDirectory m.words chunk.directory_entry tables
    → HasRoom m.kernel max s
    → IsBytes m.kernel.ram
    → max < 4096
    → virtual + max < 2 ^ 32
    → physical + max < 2 ^ 32
    → (virtual + max ≤ heap_block_to_address m.kernel.heap s)
      ⊎ (heap_block_to_address m.kernel.heap s + 4096 ≤ virtual)
    → IsElsewhere
        (mmu m.words chunk.directory_entry)
        (heap_block_to_address m.kernel.heap s)
        virtual
        max
    → (physical + max ≤ heap_block_to_address m.kernel.heap s)
      ⊎ (heap_block_to_address m.kernel.heap s + max ≤ physical)
    → (m' : Memory) × (copy_string_from_task mmu m chunk virtual physical max ≡ some (ok 0, m'))
      × (text m'.kernel.ram physical max
          ≡ text (seen m.kernel.ram (mmu m.words chunk.directory_entry)) virtual (max - 1))
      × ((a : ℕ) → m'.words a ≡ m.words a)
      × (m'.kernel.heap ≡ m.kernel.heap)
copy_string_from_task_lem mmu m chunk tables virtual physical max s mmu_lem dir room bytes small
      high high' off_page elsewhere apart =
    let directory = chunk.directory_entry in
    let (tmp, k, k', got, above, from, below, zeroed, freed, same) =
      kzalloc_lem m.kernel max s room.pos_size room.small room.pool room.clean room.fits in
    let (address, aligned) =
      kzalloc-address m.kernel k max s tmp room.pos_size room.small room.pool room.fits got
        room.aligned in
    let (mapped, restored, e, set, shown, back) =
      paging_map_swap m.words chunk tables tmp dir aligned (omega (arith, below, room.low)) in
    let below_4gb : tmp + 4096 ≤ 2 ^ 32 = omega (arith, below, aligned, room.low) in
    let apart_at : (virtual + max ≤ tmp) ⊎ (tmp + 4096 ≤ virtual) =
      ground (arith, off_page, address) in
    let elsewhere_at : IsElsewhere (mmu m.words directory) tmp virtual max =
      λ a l u. ground (arith, elsewhere a l u, address) in
    let translate = mmu mapped directory in
    let outside =
      unmoved mmu m.words mapped directory tmp virtual max mmu_lem shown apart_at high in
    let v =
      mmu-IsApart mmu m.words mapped directory tmp virtual max mmu_lem shown outside elsewhere_at
        above below_4gb high small in
    let bytes_k : IsBytes k.ram = λ a. ground (arith, zeroed a, bytes a) in
    let unread =
      text-same (max - 1) (seen m.kernel.ram (mmu m.words directory)) (seen k.ram translate) virtual
        (omega arith)
        (λ a l u.
          seen-unread m.kernel.ram k.ram (mmu m.words directory) translate tmp virtual max a l
            (omega arith) zeroed (outside a l (omega arith)) elsewhere_at small) in
    (
      record {
        kernel = record k' {
          ram = strncpy (seen_strncpy translate k.ram tmp virtual max) physical tmp max;
        };
        words = restored;
      },
      copy_string-eq mmu m chunk virtual physical max tmp k small got above
          ∙ copy_through-eq mmu (record m { kernel = k }) chunk virtual physical max tmp mapped
              restored k' e set freed,
      copied_twice translate k.ram tmp virtual physical max v bytes_k room.pos_size high'
            (ground (arith, apart, address))
          ∙ unread,
      back,
      same,
    )
