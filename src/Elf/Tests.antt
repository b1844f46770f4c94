-- ===== src/Elf/Tests.antt =====
-- A file with one loadable program header, for src/loader/formats: 0x200 bytes at 0x400000.
use alpha_os.Prelude.{
  ℕ, zero, suc, ◌+◌, ◌-◌, ◌<◌, ◌↔◌, ◌≡◌, ◌≢◌, refl, inr, List, [], ◌∷◌, leb, if◌then◌else◌, get_or,
  ok, Ram, arith,
}
use alpha_os.Elf.{ElfFile, header_at, phdr_at, half, word, elf_pheader, elf_program_header}
use alpha_os.Elf.Loader.{elf_validate_loaded, elf_process_loaded, new_file}
use alpha_os.Elf.Valid.{IsElf, elf_validate_loaded_iff}
use alpha_os.Elf.Extent.{Spans, headers, elf_process_loaded_lem}

abbrev image : List ℕ
image =
    127 ∷ 69 ∷ 76 ∷ 70 ∷ 1 ∷ 1 ∷ 1 ∷ 0 ∷ 0 ∷ 0 ∷ 0 ∷ 0 ∷ 0 ∷ 0 ∷ 0 ∷ 0 ∷ 2 ∷ 0 ∷ 3 ∷ 0 ∷ 1 ∷ 0 ∷ 0
    ∷ 0 ∷ 0 ∷ 0 ∷ 64 ∷ 0 ∷ 52 ∷ 0 ∷ 0 ∷ 0 ∷ 0 ∷ 0 ∷ 0 ∷ 0 ∷ 0 ∷ 0 ∷ 0 ∷ 0 ∷ 52 ∷ 0 ∷ 32 ∷ 0 ∷ 1 ∷ 0
    ∷ 0 ∷ 0 ∷ 0 ∷ 0 ∷ 0 ∷ 0 ∷ 1 ∷ 0 ∷ 0 ∷ 0 ∷ 0 ∷ 16 ∷ 0 ∷ 0 ∷ 0 ∷ 0 ∷ 64 ∷ 0 ∷ 0 ∷ 0 ∷ 64 ∷ 0 ∷ 0
    ∷ 2 ∷ 0 ∷ 0 ∷ 0 ∷ 4 ∷ 0 ∷ 0 ∷ 5 ∷ 0 ∷ 0 ∷ 0 ∷ 0 ∷ 16 ∷ 0 ∷ 0 ∷ []

abbrev signature_bytes : List ℕ
signature_bytes = 0x7F ∷ b'E' ∷ b'L' ∷ b'F' ∷ []

-- The image stands at 0x10000, the constant at 0x100.
abbrev ram : Ram
ram a = if leb 0x10000 a then get_or image (a - 0x10000) 0 else get_or signature_bytes (a - 0x100) 0

four : (i : ℕ) → i < 4 → ram (0x10000 + i) ≡ ram (0x100 + i)
four zero h = refl
four (suc zero) h = refl
four (suc (suc zero)) h = refl
four (suc (suc (suc zero))) h = refl
four (suc (suc (suc (suc i)))) h = absurd (omega arith)

image-IsElf : IsElf ram 0x100 0x10000
unfolding header_at half word
image-IsElf = record {
  signature = four;
  class_of = inr refl;
  encoding = inr refl;
  program_header = omega arith;
}

accepted : elf_validate_loaded ram 0x100 0x10000 ≡ ok 0
accepted = (elf_validate_loaded_iff ram 0x100 0x10000 (omega arith) (omega arith)).1 image-IsElf

elf_validate_loaded_example :
    (elf_validate_loaded ram 0x100 0x10000 ≡ ok 0) ↔ IsElf ram 0x100 0x10000
elf_validate_loaded_example = elf_validate_loaded_iff ram 0x100 0x10000 (omega arith) (omega arith)

one_header : (header_at ram 0x10000).e_phnum ≡ 1
unfolding header_at half
one_header = refl

above :
    (k : ℕ)
    → k < (header_at ram 0x10000).e_phnum
    → (headers ram 0x10000 k).p_type ≡ 1
    → (headers ram 0x10000 k).p_vaddr ≢ 0
unfolding header_at phdr_at half word elf_program_header elf_pheader
above zero h l = omega arith
above (suc k) h l = absurd (omega (arith, one_header))

elf_process_loaded_example :
    (file : ElfFile) × (elf_process_loaded ram 0x100 (new_file 0x10000) ≡ (ok 0, file))
    × Spans (headers ram 0x10000) (header_at ram 0x10000).e_phnum file
    × (file.elf_memory ≡ 0x10000)
elf_process_loaded_example = elf_process_loaded_lem ram 0x100 0x10000 accepted above
