-- ===== src/Elf/Extent.antt =====
-- The addresses that the loadable program headers span.
use alpha_os.Prelude.{
  ℕ, zero, suc, ◌+◌, ◌<◌, ◌≡◌, ◌≢◌, refl, sym, ap, subst, ◌∙◌, ◌⊎◌, inl, inr, false, ◌==◌, ok, Ram,
  arith,
}
use alpha_os.Elf.Bounds.{IsBase, IsEnd, IsBase-extend_end, IsEnd-extend_base, memory-extend}
use alpha_os.Elf.Step.{
  IsBase-kept, IsEnd-kept, IsBase-first, IsBase-next, IsEnd-first, IsEnd-next, extend_base-end,
}
use native.Mathlib.Decide.{ℕ_discrete}
use alpha_os.Elf.{header_at, Elf32Phdr, phdr_at, ElfFile, elf_header, elf_program_header}
use alpha_os.Elf.Loader.{
  extend_base, extend_end, elf_process_phdr_pt_load, elf_process_pheader, pheaders_loop,
  elf_process_pheaders, new_file, elf_validate_loaded, elf_process_loaded,
}

-- Either none of the first `n` is loadable and the file is as kzalloc left it, or both hold.
pub Spans : (ℕ → Elf32Phdr) → ℕ → ElfFile → Type 0
Spans h n file =
    (((k : ℕ) → k < n → (h k).p_type ≢ 1) × (file ≡ new_file file.elf_memory))
    ⊎ (IsBase h n file × IsEnd h n file)

Spans-other :
    (h : ℕ → Elf32Phdr) (n : ℕ) (file : ElfFile)
    → (h n).p_type ≢ 1
    → Spans h n file
    → Spans h (suc n) file
unfolding Spans
Spans-other h n file other (inl (no_load, e)) = inl (
  λ k lt l. elim (ℕ_discrete k n) [
    | yes e' ↦ other (subst (λ j. (h j).p_type ≡ 1) e' l)
    | no ne ↦ no_load k (omega arith) l
  ],
  e,
)
Spans-other h n file other (inr (v, w)) =
    inr (
      IsBase-kept h n file v (λ l. absurd (other l)),
      IsEnd-kept h n file w (λ l. absurd (other l)),
    )

module _ (h : ℕ → Elf32Phdr) (total : ℕ)
    (above : (k : ℕ) → k < total → (h k).p_type ≡ 1 → (h k).p_vaddr ≢ 0) where
  -- A loadable header, and one of another type.
  Spans-load :
      (n : ℕ) (file : ElfFile)
      → n < total
      → (h n).p_type ≡ 1
      → Spans h n file
      → Spans h (suc n) (extend_end (extend_base file (h n)) (h n))
  unfolding Spans
  Spans-load n file lt load (inl (no_load, e)) =
      let b = IsBase-first h n file load no_load (ap (λ (f : ElfFile). f.virtual_base_address) e) in
      let z = extend_base-end file (h n) ∙ ap (λ (f : ElfFile). f.virtual_end_address) e in
      inr (
        IsBase-extend_end h (suc n) (extend_base file (h n)) (h n) b,
        IsEnd-first h n (extend_base file (h n)) load no_load z,
      )
  Spans-load n file lt load (inr (v, w)) =
      let nz : file.virtual_base_address ≢ 0 =
        λ z. above v.at (omega (arith, v.inside)) v.loadable (sym v.base ∙ z) in
      inr (
        IsBase-extend_end h (suc n) (extend_base file (h n)) (h n) (IsBase-next h n file load nz v),
        IsEnd-next h n (extend_base file (h n)) load (IsEnd-extend_base h n file (h n) w),
      )

module _ (ram : Ram) (header : ℕ) where
  -- The program headers of the file.
  abbrev pub headers : ℕ → Elf32Phdr
  headers k = phdr_at ram (elf_program_header ram header k)

  process_load :
      (i : ℕ) (file : ElfFile)
      → (headers i).p_type ≡ 1
      → elf_process_pheader file (headers i)
        ≡ (ok 0, extend_end (extend_base file (headers i)) (headers i))
  unfolding elf_process_pheader elf_process_phdr_pt_load
  process_load i file e = rw e refl

  process_other :
      (i : ℕ) (file : ElfFile)
      → (headers i).p_type ≢ 1
      → elf_process_pheader file (headers i) ≡ (ok 0, file)
  unfolding elf_process_pheader
  process_other i file ne = let e : ((headers i).p_type == 1) ≡ false = ground arith in rw e refl

  loop_step :
      (left i : ℕ) (file file1 : ElfFile)
      → elf_process_pheader file (headers i) ≡ (ok 0, file1)
      → pheaders_loop ram header (suc left) i (ok 0) file
        ≡ pheaders_loop ram header left (i + 1) (ok 0) file1
  unfolding pheaders_loop
  loop_step left i file file1 e = rw (e, pheaders_loop) (rw e refl)

  pheaders_loop_lem :
      (total left i : ℕ) (file : ElfFile)
      → ((k : ℕ) → k < total → (headers k).p_type ≡ 1 → (headers k).p_vaddr ≢ 0)
      → i + left ≡ total
      → Spans headers i file
      → (file' : ElfFile) × (pheaders_loop ram header left i (ok 0) file ≡ (ok 0, file'))
        × Spans headers total file'
        × (file'.elf_memory ≡ file.elf_memory)
  unfolding pheaders_loop
  pheaders_loop_lem total zero i file above e v =
      (file, refl, subst (λ j. Spans headers j file) (omega arith) v, refl)
  pheaders_loop_lem total (suc left) i file above e v = elim (ℕ_discrete (headers i).p_type 1) [
    | yes load ↦
        let file1 = extend_end (extend_base file (headers i)) (headers i) in
        let s = Spans-load headers total above i file (omega arith) load v in
        let (file', run, spans, m) =
          pheaders_loop_lem total left (i + 1) file1 above (omega arith)
            (subst (λ j. Spans headers j file1) (omega arith) s) in
        (
          file',
          loop_step left i file file1 (process_load i file load) ∙ run,
          spans,
          m ∙ memory-extend file (headers i),
        )
    | no other ↦
        let s = Spans-other headers i file other v in
        let (file', run, spans, m) =
          pheaders_loop_lem total left (i + 1) file above (omega arith)
            (subst (λ j. Spans headers j file) (omega arith) s) in
        (file', loop_step left i file file (process_other i file other) ∙ run, spans, m)
  ]

-- Where elf_validate_loaded accepts the file and no loadable program header has the virtual address
-- 0, elf_process_loaded succeeds. With a loadable header, the virtual base is then the least
-- virtual address of one, and the virtual end is the greatest sum, modulo 2^32, of the physical
-- address of one and its size in the file, with the physical bounds those of the bytes of the same
-- headers; with none, the bounds stay 0.
pub elf_process_loaded_lem :
    (ram : Ram) (elf_signature memory : ℕ)
    → elf_validate_loaded ram elf_signature memory ≡ ok 0
    → ((k : ℕ)
        → k < (header_at ram memory).e_phnum
        → (headers ram memory k).p_type ≡ 1
        → (headers ram memory k).p_vaddr ≢ 0)
    → (file : ElfFile) × (elf_process_loaded ram elf_signature (new_file memory) ≡ (ok 0, file))
      × Spans (headers ram memory) (header_at ram memory).e_phnum file
      × (file.elf_memory ≡ memory)
unfolding elf_process_loaded elf_process_pheaders elf_header Spans
elf_process_loaded_lem ram elf_signature memory valid above =
    let n = (header_at ram memory).e_phnum in
    let (file, run, spans, m) =
      pheaders_loop_lem ram memory n n 0 (new_file memory) above (omega arith)
        (inl (λ k lt. absurd (omega arith), refl)) in
    (file, rw (valid, elf_process_loaded) run, spans, m)
