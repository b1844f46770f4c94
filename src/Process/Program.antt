-- ===== src/Process/Program.antt =====
-- The programs of processes in src/task/process.c: the two loaders, and the mapping of what they load.
use alpha_os.Prelude.{
  ℕ, zero, suc, ◌+◌, ◌*◌, ◌%◌, ◌^◌, bit_and, bit_or, Bool, false, ◌==◌, if◌then◌else◌, Option, none,
  some, List, [], ◌∷◌, Result, ok, err, eio, enomem, status, ℤ, pos, negsuc, Ram, offset, ◌>>=◌,
}
use alpha_os.Memory.Kheap.{Kernel, kzalloc, kfree}
use alpha_os.Memory.Paging.{Chunk, paging_map_to, paging_align_address, paging_align_to_lower_page}
use alpha_os.Memory.Paging.Store.{Words}
use alpha_os.Fs.{Files}
use alpha_os.Fs.Calls.{fopen, fstat, fread, fclose}
use alpha_os.Elf.{
  ElfFile, Elf32Phdr, header_at, phdr_at, elf_header, elf_pheader, elf_phdr_phys_address, phdr_size,
}
use alpha_os.Elf.Loader.{elf_load, write_bytes}
use alpha_os.Process.{Process, filetype_elf, filetype_binary}

-- Is an `int` the given number; -EINFORMAT is -9.
unfoldable pub is_pos : ℤ → ℕ → Bool
is_pos (pos m) n = m == n
is_pos (negsuc m) n = false

unfoldable pub is_einformat : ℤ → Bool
is_einformat (pos m) = false
is_einformat (negsuc m) = m == 8

module _ {ℓ} {S : Type ℓ} where
  -- The end of process_load_binary: memory for the program, and its bytes.
  unfoldable pub load_binary_read :
      Kernel → Files S → Process → ℕ → ℕ → Option (ℤ × Process × Kernel × Files S)
  unfolding is_pos
  load_binary_read k files process fd filesize = do
    (ptr, k1) ← kzalloc k filesize
    if ptr == 0 then some (status enomem, process, k1, files) else (do
      (res, bytes, files') ← fread files filesize 1 (pos fd)
      let k2 : Kernel = record k1 { ram = write_bytes k1.ram ptr bytes }
      if is_pos res 1
          then some (
            pos 0,
            record process { file_type = filetype_binary; ptr = ptr; size = filesize },
            k2,
            files',
          )
          else (do k3 ← kfree k2 ptr; some (status eio, process, k3, files')))

  unfoldable pub load_binary_open :
      Kernel → Files S → Process → ℕ → Option (ℤ × Process × Kernel × Files S)
  unfolding load_binary_read is_pos
  load_binary_open k files process fd = do
    (res, stat, files') ← fstat files (pos fd)
    if is_pos res 0
        then elim stat [ none ↦ none | some st ↦ load_binary_read k files' process fd st.filesize ]
        else some (res, process, k, files')

  unfoldable pub process_load_binary :
      Kernel → Files S → Process → List ℕ → Option (ℤ × Process × Kernel × Files S)
  unfolding load_binary_open
  process_load_binary k files process filename = do
    (fd, files1) ← fopen files filename (b'r' ∷ [])
    (res, process', k', files2) ←
        (if fd == 0
          then some (status eio, process, k, files1)
          else load_binary_open k files1 process fd)
    (closed, files3) ← fclose files2 (pos fd)
    some (res, process', k', files3)

  -- `elf_signature` and `elf_memory` are as in elf_load.
  unfoldable pub process_load_elf :
      Kernel → Files S → Process → ℕ → ℕ → List ℕ → Option (ℤ × Process × Kernel × Files S)
  unfolding elf_load
  process_load_elf k files process elf_signature elf_memory filename = do
    (res, loaded) ← elf_load k.ram files elf_signature elf_memory filename
    let (out, ram, files') = loaded
    let k' : Kernel = record k { ram = ram }
    elim res [
      | err e ↦ some (status e, process, k', files')
      | ok _ ↦ some (pos 0, record process { file_type = filetype_elf; elf_file = out }, k', files')
    ]

  unfoldable pub process_load_data :
      Kernel → Files S → Process → ℕ → ℕ → List ℕ → Option (ℤ × Process × Kernel × Files S)
  unfolding process_load_elf process_load_binary is_einformat
  process_load_data k files process elf_signature elf_memory filename = do
    (res, process', k', files') ← process_load_elf k files process elf_signature elf_memory filename
    if is_einformat res
        then process_load_binary k' files' process' filename
        else some (res, process', k', files')

-- What paging_map_to returns is not looked at.
unfoldable pub process_map_binary : Words → Chunk → Process → Result ℕ × Words
process_map_binary words chunk process = (
  ok 0,
  (paging_map_to words chunk 0x400000 process.ptr
      (paging_align_address ((process.ptr + process.size) % 2 ^ 32)) 0b111).1,
)

-- PF_W is 2.
unfoldable pub phdr_flags : Elf32Phdr → ℕ
phdr_flags phdr = if bit_and phdr.p_flags 0x02 == 0 then 0b101 else bit_or 0b101 0b010

unfoldable pub map_phdr : Words → Chunk → ElfFile → Elf32Phdr → Result ℕ × Words
unfolding phdr_flags elf_phdr_phys_address
map_phdr words chunk elf_file phdr =
    let phys = elf_phdr_phys_address elf_file phdr in
    paging_map_to words chunk (paging_align_to_lower_page phdr.p_vaddr)
      (paging_align_to_lower_page phys) (paging_align_address ((phys + phdr.p_memsz) % 2 ^ 32))
      (phdr_flags phdr)

-- The loop of process_map_elf from the i-th program header on, with `left` to go.
unfoldable pub map_elf_loop : Ram → Words → Chunk → ElfFile → ℕ → ℕ → Result ℕ × Words
unfolding map_phdr elf_pheader elf_header phdr_at
map_elf_loop ram words chunk elf_file zero i = (ok 0, words)
map_elf_loop ram words chunk elf_file (suc left) i =
    let phdrs = elf_pheader ram (elf_header elf_file) in
    let (res, words') =
      map_phdr words chunk elf_file (phdr_at ram (offset phdrs (i * phdr_size))) in
    let rest = map_elf_loop ram words' chunk elf_file left (i + 1) in
    elim res [ ok _ ↦ rest | err e ↦ (err e, words') ]

-- `none` is a read through NULL.
unfoldable pub process_map_elf : Ram → Words → Chunk → Process → Option (Result ℕ × Words)
unfolding map_elf_loop header_at elf_header
process_map_elf ram words chunk process = elim process.elf_file [
  | none ↦ none
  | some elf_file ↦
      some (map_elf_loop ram words chunk elf_file (header_at ram (elf_header elf_file)).e_phnum 0)
]

-- The stack, of 16 KB below 0x3FF000.
unfoldable pub map_stack : Words → Chunk → Process → Words
map_stack words chunk process =
    (paging_map_to words chunk 0x3FB000 process.stack
      (paging_align_address ((process.stack + 0x4000) % 2 ^ 32)) 0b111).1

-- `none` is also the panic on an unknown file type.
unfoldable pub process_map_memory : Ram → Words → Chunk → Process → Option (Result ℕ × Words)
unfolding process_map_elf process_map_binary map_stack
process_map_memory ram words chunk process = do
  (res, words') ←
      (if process.file_type == filetype_elf
        then process_map_elf ram words chunk process
        else if process.file_type == filetype_binary
        then some (process_map_binary words chunk process)
        else none)
  elim res [ err e ↦ some (err e, words') | ok n ↦ some (ok n, map_stack words' chunk process) ]
