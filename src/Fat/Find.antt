-- ===== src/Fat/Find.antt =====
-- The search of a directory for a name.
use alpha_os.Prelude.{
  ℕ, zero, suc, ◌+◌, ◌≤◌, ◌<◌, ◌≡◌, ◌≢◌, refl, sym, subst, ap, ◌∙◌, Bool, true, false, Option, none,
  some, List, bit_and, arith,
}
use native.Mathlib.Decide.{ℕ_discrete}
use alpha_os.Disk.{Drive}
use alpha_os.Fat.{FatDirectory, FatPrivate, FatItem, file, attributes, item_at}
use alpha_os.Fat.Name.{get_full_relative_filename, same_name, max_name}
use alpha_os.Fat.Directory.{new_fat_item_for_directory_item, find_loop, find_item_in_directory}

-- The i-th item has a name, which is or is not the one looked for.
abbrev pub Named : FatDirectory → List ℕ → ℕ → Bool → Type 0
Named d name i match =
    (filename : List ℕ) × (get_full_relative_filename (item_at d i) ≡ some filename)
    × (same_name max_name filename name ≡ match)

new_file :
    (fuel : ℕ) (drive : Drive) (p : FatPrivate) (item : List ℕ)
    → bit_and (attributes item) 0x10 ≡ 0
    → new_fat_item_for_directory_item fuel drive p item ≡ some (file item)
unfolding new_fat_item_for_directory_item
new_file fuel drive p item e = rw e refl

module _ (fuel : ℕ) (drive : Drive) (p : FatPrivate) (d : FatDirectory) (name : List ℕ) where
  find_loop-miss :
      (left i : ℕ) (found : Option FatItem)
      → Named d name i false
      → find_loop fuel drive p d name (suc left) i found
        ≡ find_loop fuel drive p d name left (i + 1) found
  unfolding find_loop
  find_loop-miss left i found (filename, e, e') = rw (e, find_loop, e') refl

  find_loop-hit :
      (left i : ℕ) (found : Option FatItem)
      → Named d name i true
      → bit_and (attributes (item_at d i)) 0x10 ≡ 0
      → find_loop fuel drive p d name (suc left) i found
        ≡ find_loop fuel drive p d name left (i + 1) (some (file (item_at d i)))
  unfolding find_loop
  find_loop-hit left i found (filename, e, e') h =
      rw (e, find_loop, e', new_file fuel drive p (item_at d i) h) refl

  find_loop-none :
      (left i : ℕ) (found : Option FatItem)
      → ((k : ℕ) → i ≤ k → k < i + left → Named d name k false)
      → find_loop fuel drive p d name left i found ≡ some found
  unfolding find_loop
  find_loop-none zero i found miss = refl
  find_loop-none (suc left) i found miss =
      find_loop-miss left i found (miss i (omega arith) (omega arith))
      ∙ find_loop-none left (i + 1) found (λ k lo hi. miss k (omega arith) (omega arith))

  find_loop-last :
      (left i k : ℕ) (found : Option FatItem)
      → i ≤ k
      → k < i + left
      → ((j : ℕ) → i ≤ j → j < k → Named d name j false)
      → Named d name k true
      → ((j : ℕ) → k < j → j < i + left → Named d name j false)
      → bit_and (attributes (item_at d k)) 0x10 ≡ 0
      → find_loop fuel drive p d name left i found ≡ some (some (file (item_at d k)))
  find_loop-last zero i k found lo hi before hit after plain = absurd (omega arith)
  find_loop-last (suc left) i k found lo hi before hit after plain = elim (ℕ_discrete i k) [
    | yes e ↦
        find_loop-hit left i found (subst (λ j. Named d name j true) (sym e) hit)
          (subst (λ j. bit_and (attributes (item_at d j)) 0x10 ≡ 0) (sym e) plain)
        ∙ find_loop-none left (i + 1) (some (file (item_at d i)))
            (λ j a b. after j (omega arith) (omega arith))
        ∙ ap (λ j. some (some (file (item_at d j)))) e
    | no ne ↦
        find_loop-miss left i found (before i (omega arith) (omega arith))
        ∙ find_loop-last left (i + 1) k found (omega arith) (omega arith)
            (λ j a b. before j (omega arith) b) hit (λ j a b. after j a (omega arith)) plain
  ]

  -- The one of the first `total` items whose name the code takes for the one looked for is
  -- found when it takes no other for it, and it is a file.
  pub find_item_in_directory-Named :
      (k : ℕ)
      → k < d.total
      → ((j : ℕ) → j < d.total → j ≢ k → Named d name j false)
      → Named d name k true
      → bit_and (attributes (item_at d k)) 0x10 ≡ 0
      → find_item_in_directory fuel drive p d name ≡ some (some (file (item_at d k)))
  unfolding find_item_in_directory
  find_item_in_directory-Named k h miss hit plain =
      find_loop-last d.total 0 k none (omega arith) (omega arith)
        (λ j a b. miss j (omega arith) (λ e. omega arith)) hit
        (λ j a b. miss j (omega arith) (λ e. omega arith)) plain

  -- A name that none of the first `total` items has is not found, whatever stands behind them.
  pub find_item_in_directory-none :
      ((j : ℕ) → j < d.total → Named d name j false)
      → find_item_in_directory fuel drive p d name ≡ some none
  unfolding find_item_in_directory
  find_item_in_directory-none miss = find_loop-none d.total 0 none (λ k lo hi. miss k (omega arith))
