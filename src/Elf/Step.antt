-- ===== src/Elf/Step.antt =====
-- The bounds behind one more program header of elfloader.c.
use alpha_os.Prelude.{ℕ, suc, ◌≤◌, ◌<◌, ◌≡◌, ◌≢◌, refl, sym, subst, inl, inr, arith}
use native.Mathlib.Decide.{ℕ_discrete}
use alpha_os.Elf.{Elf32Phdr, ElfFile}
use alpha_os.Elf.Loader.{extend_base, extend_end}
use alpha_os.Elf.Bounds.{
  end_of, IsBase, IsEnd, taken_base, taken_end, extend_base-cases, extend_end-cases,
}

-- The last of the headers is the new base, or end, when it is below, or behind, those before it.
IsBase-taken :
    (h : ℕ → Elf32Phdr) (n : ℕ) (file : ElfFile)
    → (h n).p_type ≡ 1
    → ((k : ℕ) → k < n → (h k).p_type ≡ 1 → (h n).p_vaddr ≤ (h k).p_vaddr)
    → IsBase h (suc n) (taken_base file (h n))
unfolding taken_base
IsBase-taken h n file load below = record {
  at = n;
  inside = omega arith;
  loadable = load;
  base = refl;
  physical = refl;
  least = λ k lt l. elim (ℕ_discrete k n) [
    | yes e ↦ subst (λ j. (h n).p_vaddr ≤ (h j).p_vaddr) (sym e) (omega arith)
    | no ne ↦ below k (omega arith) l
  ];
}

IsEnd-taken :
    (h : ℕ → Elf32Phdr) (n : ℕ) (file : ElfFile)
    → (h n).p_type ≡ 1
    → ((k : ℕ) → k < n → (h k).p_type ≡ 1 → end_of (h k) ≤ end_of (h n))
    → IsEnd h (suc n) (taken_end file (h n))
unfolding taken_end
IsEnd-taken h n file load below = record {
  at = n;
  inside = omega arith;
  loadable = load;
  end = refl;
  physical = refl;
  greatest = λ k lt l. elim (ℕ_discrete k n) [
    | yes e ↦ subst (λ j. end_of (h j) ≤ end_of (h n)) (sym e) (omega arith)
    | no ne ↦ below k (omega arith) l
  ];
}

pub IsBase-kept :
    (h : ℕ → Elf32Phdr) (n : ℕ) (file : ElfFile)
    → IsBase h n file
    → ((h n).p_type ≡ 1 → file.virtual_base_address ≤ (h n).p_vaddr)
    → IsBase h (suc n) file
IsBase-kept h n file v above = record {
  at = v.at;
  inside = omega (arith, v.inside);
  loadable = v.loadable;
  base = v.base;
  physical = v.physical;
  least = λ k lt l. elim (ℕ_discrete k n) [
    | yes e ↦
        subst (λ j. file.virtual_base_address ≤ (h j).p_vaddr) (sym e)
          (above (subst (λ j. (h j).p_type ≡ 1) e l))
    | no ne ↦ v.least k (omega arith) l
  ];
}

pub IsEnd-kept :
    (h : ℕ → Elf32Phdr) (n : ℕ) (file : ElfFile)
    → IsEnd h n file
    → ((h n).p_type ≡ 1 → end_of (h n) ≤ file.virtual_end_address)
    → IsEnd h (suc n) file
IsEnd-kept h n file v below = record {
  at = v.at;
  inside = omega (arith, v.inside);
  loadable = v.loadable;
  end = v.end;
  physical = v.physical;
  greatest = λ k lt l. elim (ℕ_discrete k n) [
    | yes e ↦
        subst (λ j. end_of (h j) ≤ file.virtual_end_address) (sym e)
          (below (subst (λ j. (h j).p_type ≡ 1) e l))
    | no ne ↦ v.greatest k (omega arith) l
  ];
}

pub IsBase-first :
    (h : ℕ → Elf32Phdr) (n : ℕ) (file : ElfFile)
    → (h n).p_type ≡ 1
    → ((k : ℕ) → k < n → (h k).p_type ≢ 1)
    → file.virtual_base_address ≡ 0
    → IsBase h (suc n) (extend_base file (h n))
IsBase-first h n file load no_load e = elim (extend_base-cases file (h n)) [
  | inl t ↦
      subst (IsBase h (suc n)) (sym t.0)
        (IsBase-taken h n file load (λ k lt l. absurd (no_load k lt l)))
  | inr f ↦ absurd (f.2 e)
]

pub IsBase-next :
    (h : ℕ → Elf32Phdr) (n : ℕ) (file : ElfFile)
    → (h n).p_type ≡ 1
    → file.virtual_base_address ≢ 0
    → IsBase h n file
    → IsBase h (suc n) (extend_base file (h n))
IsBase-next h n file load nz v = elim (extend_base-cases file (h n)) [
  | inl t ↦
      subst (IsBase h (suc n)) (sym t.0)
        (IsBase-taken h n file load (λ k lt l. ground (arith, v.least k lt l, t.1)))
  | inr f ↦ subst (IsBase h (suc n)) (sym f.0) (IsBase-kept h n file v (λ l. omega (arith, f.1)))
]

pub IsEnd-first :
    (h : ℕ → Elf32Phdr) (n : ℕ) (file : ElfFile)
    → (h n).p_type ≡ 1
    → ((k : ℕ) → k < n → (h k).p_type ≢ 1)
    → file.virtual_end_address ≡ 0
    → IsEnd h (suc n) (extend_end file (h n))
IsEnd-first h n file load no_load e = elim (extend_end-cases file (h n)) [
  | inl t ↦
      subst (IsEnd h (suc n)) (sym t.0)
        (IsEnd-taken h n file load (λ k lt l. absurd (no_load k lt l)))
  | inr f ↦ absurd (omega (arith, f.1, e))
]

pub IsEnd-next :
    (h : ℕ → Elf32Phdr) (n : ℕ) (file : ElfFile)
    → (h n).p_type ≡ 1
    → IsEnd h n file
    → IsEnd h (suc n) (extend_end file (h n))
IsEnd-next h n file load v = elim (extend_end-cases file (h n)) [
  | inl t ↦
      subst (IsEnd h (suc n)) (sym t.0)
        (IsEnd-taken h n file load (λ k lt l. omega (arith, v.greatest k lt l, t.1)))
  | inr f ↦ subst (IsEnd h (suc n)) (sym f.0) (IsEnd-kept h n file v (λ l. omega (arith, f.1)))
]

pub extend_base-end :
    (file : ElfFile) (phdr : Elf32Phdr)
    → (extend_base file phdr).virtual_end_address ≡ file.virtual_end_address
unfolding extend_base
extend_base-end file phdr = ground arith
