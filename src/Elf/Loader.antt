-- ===== src/Elf/Loader.antt =====
-- src/loader/formats/elfloader.c: validation, the program headers, and loading from a file.
use alpha_os.Prelude.{
  ℕ, zero, suc, ◌+◌, ◌%◌, ◌^◌, Bool, true, false, not, ◌&&◌, ◌||◌, ◌==◌, leb, if◌then◌else◌, Option,
  none, some, List, [], ◌∷◌, Result, ok, err, einformat, ℤ, pos, negsuc, Ram, offset, write, ◌>>=◌,
}
use alpha_os.Memory.Raw.{memcmp}
use alpha_os.Fs.{Files}
use alpha_os.Fs.Calls.{fopen, fstat, fread, fclose}
use alpha_os.Elf.{ElfHeader, header_at, Elf32Phdr, phdr_at, ElfFile, elf_header, elf_program_header}

-- The result of memcmp is compared with 0.
unfoldable pub is_zero : ℤ → Bool
is_zero (pos n) = n == 0
is_zero (negsuc n) = false

-- `elf_signature` is the address of the constant.
unfoldable pub elf_valid_signature : Ram → ℕ → ℕ → Bool
unfolding is_zero
elf_valid_signature ram elf_signature buffer = is_zero (memcmp ram buffer elf_signature 4)

-- EI_CLASS is 4; ELFCLASSNONE is 0 and ELFCLASS32 is 1.
unfoldable pub elf_valid_class : ElfHeader → Bool
elf_valid_class header = header.e_ident 4 == 0 || header.e_ident 4 == 1

-- EI_DATA is 5; ELFDATANONE is 0 and ELFDATA2LSB is 1.
unfoldable pub elf_valid_encoding : ElfHeader → Bool
elf_valid_encoding header = header.e_ident 5 == 0 || header.e_ident 5 == 1

-- ET_EXEC is 2.
unfoldable pub elf_is_executable : ElfHeader → Bool
elf_is_executable header = header.e_type == 2 && leb 0x400000 header.e_entry

unfoldable pub elf_has_program_header : ElfHeader → Bool
elf_has_program_header header = not (header.e_phoff == 0)

unfoldable pub elf_validate_loaded : Ram → ℕ → ℕ → Result ℕ
unfolding elf_valid_signature elf_valid_class elf_valid_encoding elf_has_program_header header_at
elf_validate_loaded ram elf_signature header =
    if elf_valid_signature ram elf_signature header
      && elf_valid_class (header_at ram header)
      && elf_valid_encoding (header_at ram header)
      && elf_has_program_header (header_at ram header)
    then ok 0
    else err einformat

-- The lower bounds, and then the upper ones.
unfoldable pub extend_base : ElfFile → Elf32Phdr → ElfFile
extend_base file phdr =
    if leb phdr.p_vaddr file.virtual_base_address || file.virtual_base_address == 0
    then record file {
      virtual_base_address = phdr.p_vaddr;
      physical_base_address = offset file.elf_memory phdr.p_offset;
    }
    else file

unfoldable pub end_virtual_address : Elf32Phdr → ℕ
end_virtual_address phdr = (phdr.p_paddr + phdr.p_filesz) % 2 ^ 32

unfoldable pub extend_end : ElfFile → Elf32Phdr → ElfFile
unfolding end_virtual_address
extend_end file phdr =
    if leb file.virtual_end_address (end_virtual_address phdr) || file.virtual_end_address == 0
    then record file {
      virtual_end_address = end_virtual_address phdr;
      physical_end_address = (file.elf_memory + phdr.p_offset + phdr.p_filesz) % 2 ^ 32;
    }
    else file

unfoldable pub elf_process_phdr_pt_load : ElfFile → Elf32Phdr → Result ℕ × ElfFile
unfolding extend_base extend_end
elf_process_phdr_pt_load file phdr = (ok 0, extend_end (extend_base file phdr) phdr)

-- PT_LOAD is 1.
unfoldable pub elf_process_pheader : ElfFile → Elf32Phdr → Result ℕ × ElfFile
unfolding elf_process_phdr_pt_load
elf_process_pheader file phdr =
    if phdr.p_type == 1 then elf_process_phdr_pt_load file phdr else (ok 0, file)

-- The loop from the i-th program header on, with `left` to go and the result so far.
unfoldable pub pheaders_loop : Ram → ℕ → ℕ → ℕ → Result ℕ → ElfFile → Result ℕ × ElfFile
unfolding elf_process_pheader elf_program_header phdr_at
pheaders_loop ram header zero i res file = (res, file)
pheaders_loop ram header (suc left) i res file =
    let (res', file') = elf_process_pheader file (phdr_at ram (elf_program_header ram header i)) in
    let rest = pheaders_loop ram header left (i + 1) res' file' in
    elim res' [ ok _ ↦ rest | err e ↦ (err e, file') ]

unfoldable pub elf_process_pheaders : Ram → ElfFile → Result ℕ × ElfFile
unfolding pheaders_loop elf_header header_at
elf_process_pheaders ram file =
    let header = elf_header file in
    pheaders_loop ram header (header_at ram header).e_phnum 0 (ok 0) file

unfoldable pub elf_process_loaded : Ram → ℕ → ElfFile → Result ℕ × ElfFile
unfolding elf_validate_loaded elf_process_pheaders elf_header
elf_process_loaded ram elf_signature file =
    elim (elf_validate_loaded ram elf_signature (elf_header file)) [
      | err e ↦ (err e, file)
      | ok _ ↦ elf_process_pheaders ram file
    ]

-- Bytes written from an address on.
unfoldable pub write_bytes : Ram → ℕ → List ℕ → Ram
unfolding write
write_bytes ram a [] = ram
write_bytes ram a (b ∷ bytes) = write_bytes (write ram a b) (offset a 1) bytes

-- A file that kzalloc has cleared, with its memory at an address.
abbrev pub new_file : ℕ → ElfFile
new_file elf_memory = record {
  elf_memory = elf_memory;
  virtual_base_address = 0;
  virtual_end_address = 0;
  physical_base_address = 0;
  physical_end_address = 0;
}

unfoldable pub is_negative : ℤ → Bool
is_negative (pos n) = false
is_negative (negsuc n) = true

-- What `*file_out` becomes, `none` where it is not written, with the memory and the files.
abbrev pub Loaded {ℓ} : Type ℓ → Type ℓ
Loaded S = Option ElfFile × Ram × Files S

module _ {ℓ} {S : Type ℓ} where
  -- The last part: fread, and then the program headers.
  unfoldable pub load_contents : Ram → Files S → ℕ → ℕ → ℕ → ℕ → Option (Loaded S)
  unfolding fread write_bytes elf_process_loaded is_negative
  load_contents ram files elf_signature elf_memory fd filesize = do
    (res, bytes, files') ← fread files filesize 1 (pos fd)
    let ram' = write_bytes ram elf_memory bytes
    let (status', file) = elf_process_loaded ram' elf_signature (new_file elf_memory)
    some (
      (if is_negative res then none else elim status' [ err _ ↦ none | ok _ ↦ some file ]),
      ram',
      files',
    )

  unfoldable pub load_open : Ram → Files S → ℕ → ℕ → ℕ → Option (Loaded S)
  unfolding fstat load_contents is_negative
  load_open ram files elf_signature elf_memory fd = do
    (res, stat, files') ← fstat files (pos fd)
    if is_negative res then some (none, ram, files') else elim stat [
      | none ↦ none
      | some st ↦ load_contents ram files' elf_signature elf_memory fd st.filesize
    ]

  -- `elf_memory` is what kzalloc returns for the file's bytes. Every way out closes the file and
  -- returns 0, whatever `res` is.
  unfoldable pub elf_load : Ram → Files S → ℕ → ℕ → List ℕ → Option (Result ℕ × Loaded S)
  unfolding fopen load_open fclose
  elf_load ram files elf_signature elf_memory filename = do
    (fd, files') ← fopen files filename (b'r' ∷ [])
    (out, ram', files'') ←
        (if fd == 0
          then some (none, ram, files')
          else load_open ram files' elf_signature elf_memory fd)
    (closed, files''') ← fclose files'' (pos fd)
    some (ok 0, (out, ram', files'''))
