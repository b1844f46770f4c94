-- ===== src/Elf/Bounds.antt =====
-- The bounds that one loadable program header of elfloader.c extends.
use alpha_os.Prelude.{
  ℕ, ◌+◌, ◌%◌, ◌^◌, ◌≤◌, ◌<◌, ◌≡◌, ◌≢◌, refl, sym, Bool-cases, subst, ◌⊎◌, inl, inr, ◌||◌, ◌==◌,
  leb, offset, arith,
}
use alpha_os.Elf.{Elf32Phdr, ElfFile}
use alpha_os.Elf.Loader.{extend_base, extend_end, end_virtual_address}

-- Of the first `n` program headers, a loadable one has the least virtual address, which is the base,
-- and its bytes begin at the physical base.
pub record IsBase (h : ℕ → Elf32Phdr) (n : ℕ) (file : ElfFile) : Type 0 where
  pub at : ℕ
  pub inside : at < n
  pub loadable : (h at).p_type ≡ 1
  pub base : file.virtual_base_address ≡ (h at).p_vaddr
  pub physical : file.physical_base_address ≡ offset file.elf_memory (h at).p_offset
  pub least : (k : ℕ) → k < n → (h k).p_type ≡ 1 → file.virtual_base_address ≤ (h k).p_vaddr

-- Where the bytes of a program header end, counted from its physical address.
abbrev pub end_of : Elf32Phdr → ℕ
end_of phdr = (phdr.p_paddr + phdr.p_filesz) % 2 ^ 32

-- Of the first `n`, a loadable one has the greatest `end_of`, which is the virtual end, and its bytes
-- end at the physical end.
pub record IsEnd (h : ℕ → Elf32Phdr) (n : ℕ) (file : ElfFile) : Type 0 where
  pub at : ℕ
  pub inside : at < n
  pub loadable : (h at).p_type ≡ 1
  pub end : file.virtual_end_address ≡ end_of (h at)
  pub physical :
      file.physical_end_address ≡ (file.elf_memory + (h at).p_offset + (h at).p_filesz) % 2 ^ 32
  pub greatest : (k : ℕ) → k < n → (h k).p_type ≡ 1 → end_of (h k) ≤ file.virtual_end_address

unfoldable pub taken_base : ElfFile → Elf32Phdr → ElfFile
taken_base file phdr = record file {
  virtual_base_address = phdr.p_vaddr;
  physical_base_address = offset file.elf_memory phdr.p_offset;
}

unfoldable pub taken_end : ElfFile → Elf32Phdr → ElfFile
taken_end file phdr = record file {
  virtual_end_address = end_of phdr;
  physical_end_address = (file.elf_memory + phdr.p_offset + phdr.p_filesz) % 2 ^ 32;
}

pub extend_base-cases :
    (file : ElfFile) (phdr : Elf32Phdr)
    → ((extend_base file phdr ≡ taken_base file phdr)
        × ((phdr.p_vaddr ≤ file.virtual_base_address) ⊎ (file.virtual_base_address ≡ 0)))
      ⊎ ((extend_base file phdr ≡ file)
          × (file.virtual_base_address < phdr.p_vaddr)
          × (file.virtual_base_address ≢ 0))
unfolding extend_base taken_base
extend_base-cases file phdr =
    elim (Bool-cases
      (leb phdr.p_vaddr file.virtual_base_address || file.virtual_base_address == 0)) [
        | inl t ↦ inl (rw t refl, ground arith)
        | inr f ↦ inr (rw f refl, ground arith, ground arith)
      ]

pub extend_end-cases :
    (file : ElfFile) (phdr : Elf32Phdr)
    → ((extend_end file phdr ≡ taken_end file phdr) × (file.virtual_end_address ≤ end_of phdr))
      ⊎ ((extend_end file phdr ≡ file) × (end_of phdr < file.virtual_end_address))
unfolding extend_end taken_end end_virtual_address
extend_end-cases file phdr =
    elim (Bool-cases
      (leb file.virtual_end_address (end_of phdr) || file.virtual_end_address == 0)) [
        | inl t ↦ inl (rw t refl, ground arith)
        | inr f ↦ inr (rw f refl, ground arith)
      ]

pub IsBase-extend_end :
    (h : ℕ → Elf32Phdr) (n : ℕ) (file : ElfFile) (phdr : Elf32Phdr)
    → IsBase h n file
    → IsBase h n (extend_end file phdr)
unfolding taken_end
IsBase-extend_end h n file phdr v = elim (extend_end-cases file phdr) [
  | inl t ↦ subst (IsBase h n) (sym t.0) (record {
    at = v.at;
    inside = v.inside;
    loadable = v.loadable;
    base = v.base;
    physical = v.physical;
    least = v.least;
  })
  | inr f ↦ subst (IsBase h n) (sym f.0) v
]

pub IsEnd-extend_base :
    (h : ℕ → Elf32Phdr) (n : ℕ) (file : ElfFile) (phdr : Elf32Phdr)
    → IsEnd h n file
    → IsEnd h n (extend_base file phdr)
unfolding taken_base
IsEnd-extend_base h n file phdr v = elim (extend_base-cases file phdr) [
  | inl t ↦ subst (IsEnd h n) (sym t.0) (record {
    at = v.at;
    inside = v.inside;
    loadable = v.loadable;
    end = v.end;
    physical = v.physical;
    greatest = v.greatest;
  })
  | inr f ↦ subst (IsEnd h n) (sym f.0) v
]

-- The memory of the file stays.
pub memory-extend :
    (file : ElfFile) (phdr : Elf32Phdr)
    → (extend_end (extend_base file phdr) phdr).elf_memory ≡ file.elf_memory
unfolding extend_base extend_end
memory-extend file phdr = ground arith
