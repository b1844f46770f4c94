-- ===== src/Elf.antt =====
-- src/loader/formats: ELF files. A header is read from the memory at its address, as the packed
-- structures of elf.h lie in it; an address wraps at 32 bits.
pub mod Loader
pub mod Valid
pub mod Bounds
pub mod Step
pub mod Extent
mod Tests
use alpha_os.Prelude.{ℕ, zero, suc, ◌+◌, ◌*◌, ◌%◌, ◌^◌, ◌==◌, if◌then◌else◌, Ram, offset}

-- A field of two or four bytes, the low byte first.
unfoldable pub half : Ram → ℕ → ℕ
half ram a = ram a + ram (offset a 1) * 2 ^ 8

unfoldable pub word : Ram → ℕ → ℕ
unfolding half
word ram a = half ram a + half ram (offset a 2) * 2 ^ 16

-- struct elf_header
pub record ElfHeader : Type 0 where
  pub e_ident : ℕ → ℕ
  pub e_type : ℕ
  pub e_machine : ℕ
  pub e_version : ℕ
  pub e_entry : ℕ
  pub e_phoff : ℕ
  pub e_shoff : ℕ
  pub e_flags : ℕ
  pub e_ehsize : ℕ
  pub e_phentsize : ℕ
  pub e_phnum : ℕ
  pub e_shentsize : ℕ
  pub e_shnum : ℕ
  pub e_shstrndx : ℕ

unfoldable pub header_at : Ram → ℕ → ElfHeader
unfolding half word
header_at ram header = record {
  e_ident = λ i. ram (offset header i);
  e_type = half ram (offset header 16);
  e_machine = half ram (offset header 18);
  e_version = word ram (offset header 20);
  e_entry = word ram (offset header 24);
  e_phoff = word ram (offset header 28);
  e_shoff = word ram (offset header 32);
  e_flags = word ram (offset header 36);
  e_ehsize = half ram (offset header 40);
  e_phentsize = half ram (offset header 42);
  e_phnum = half ram (offset header 44);
  e_shentsize = half ram (offset header 46);
  e_shnum = half ram (offset header 48);
  e_shstrndx = half ram (offset header 50);
}

-- struct elf32_phdr
pub record Elf32Phdr : Type 0 where
  pub p_type : ℕ
  pub p_offset : ℕ
  pub p_vaddr : ℕ
  pub p_paddr : ℕ
  pub p_filesz : ℕ
  pub p_memsz : ℕ
  pub p_flags : ℕ
  pub p_align : ℕ

unfoldable pub phdr_at : Ram → ℕ → Elf32Phdr
unfolding word
phdr_at ram phdr = record {
  p_type = word ram phdr;
  p_offset = word ram (offset phdr 4);
  p_vaddr = word ram (offset phdr 8);
  p_paddr = word ram (offset phdr 12);
  p_filesz = word ram (offset phdr 16);
  p_memsz = word ram (offset phdr 20);
  p_flags = word ram (offset phdr 24);
  p_align = word ram (offset phdr 28);
}

-- struct elf32_shdr
pub record Elf32Shdr : Type 0 where
  pub sh_name : ℕ
  pub sh_type : ℕ
  pub sh_flags : ℕ
  pub sh_addr : ℕ
  pub sh_offset : ℕ
  pub sh_size : ℕ
  pub sh_link : ℕ
  pub sh_info : ℕ
  pub sh_addralign : ℕ
  pub sh_entsize : ℕ

unfoldable pub shdr_at : Ram → ℕ → Elf32Shdr
unfolding word
shdr_at ram shdr = record {
  sh_name = word ram shdr;
  sh_type = word ram (offset shdr 4);
  sh_flags = word ram (offset shdr 8);
  sh_addr = word ram (offset shdr 12);
  sh_offset = word ram (offset shdr 16);
  sh_size = word ram (offset shdr 20);
  sh_link = word ram (offset shdr 24);
  sh_info = word ram (offset shdr 28);
  sh_addralign = word ram (offset shdr 32);
  sh_entsize = word ram (offset shdr 36);
}

abbrev pub phdr_size : ℕ
phdr_size = 32

abbrev pub shdr_size : ℕ
shdr_size = 40

unfoldable pub elf_get_entry : Ram → ℕ → ℕ
unfolding header_at
elf_get_entry ram header = (header_at ram header).e_entry

unfoldable pub elf_get_entry_ptr : Ram → ℕ → ℕ
unfolding header_at
elf_get_entry_ptr ram header = (header_at ram header).e_entry

-- struct elf_file, but for its filename and size in memory, which the code does not use
pub record ElfFile : Type 0 where
  pub elf_memory : ℕ
  pub virtual_base_address : ℕ
  pub virtual_end_address : ℕ
  pub physical_base_address : ℕ
  pub physical_end_address : ℕ

unfoldable pub elf_header : ElfFile → ℕ
elf_header file = file.elf_memory

unfoldable pub elf_sheader : Ram → ℕ → ℕ
unfolding header_at
elf_sheader ram header = offset header (header_at ram header).e_shoff

-- 0 is NULL.
unfoldable pub elf_pheader : Ram → ℕ → ℕ
unfolding header_at
elf_pheader ram header =
    let e_phoff = (header_at ram header).e_phoff in
    if e_phoff == 0 then 0 else offset header e_phoff

unfoldable pub elf_program_header : Ram → ℕ → ℕ → ℕ
unfolding elf_pheader
elf_program_header ram header index = offset (elf_pheader ram header) (index * phdr_size)

unfoldable pub elf_section : Ram → ℕ → ℕ → ℕ
unfolding elf_sheader
elf_section ram header index = offset (elf_sheader ram header) (index * shdr_size)

unfoldable pub elf_phdr_phys_address : ElfFile → Elf32Phdr → ℕ
elf_phdr_phys_address file phdr = offset file.elf_memory phdr.p_offset

unfoldable pub elf_str_table : Ram → ℕ → ℕ
unfolding elf_section header_at shdr_at
elf_str_table ram header =
    offset header (shdr_at ram (elf_section ram header (header_at ram header).e_shstrndx)).sh_offset
