-- ===== src/Process/Fallback.antt =====
-- What process_load_data of src/task/process.c does with a file that is not ELF.
use alpha_os.Prelude.{
  ℕ, ◌≡◌, refl, sym, ap, ◌==◌, if◌then◌else◌, none, some, List, [], ◌∷◌, Result, ok, ℤ, pos, Ram,
  bind-all, some-injective,
}
use alpha_os.Memory.Kheap.{Kernel}
use alpha_os.Memory.Paging.{Chunk}
use alpha_os.Memory.Paging.Store.{Words}
use alpha_os.Fs.{Files}
use alpha_os.Fs.Calls.{fopen, fclose}
use alpha_os.Elf.Loader.{elf_load, Loaded, load_open}
use alpha_os.Process.{Process, filetype_elf}
use alpha_os.Process.Program.{
  process_load_elf, process_load_data, process_map_elf, process_map_memory, is_einformat,
}

module _ {S : Type 0} where
  -- A run of elf_load that ends returns 0.
  elf_load-ok :
      (ram : Ram) (files : Files S) (elf_signature elf_memory : ℕ) (filename : List ℕ)
      (res : Result ℕ) (loaded : Loaded S)
      → elf_load ram files elf_signature elf_memory filename ≡ some (res, loaded)
      → res ≡ ok 0
  unfolding elf_load
  elf_load-ok ram files elf_signature elf_memory filename res loaded e =
      bind-all {A = ℕ × Files S} (λ r. r.0 ≡ ok 0) (fopen files filename (b'r' ∷ [])) _
        (res, loaded)
        (λ a.
          bind-all {A = Loaded S} (λ r. r.0 ≡ ok 0)
            (if a.0 == 0
              then some (none, ram, a.1)
              else load_open ram a.1 elf_signature elf_memory a.0)
            _ (res, loaded)
            (λ b.
              bind-all {A = ℤ × Files S} (λ r. r.0 ≡ ok 0) (fclose b.2 (pos a.0))
                (λ x. some (ok 0, (b.0, b.1, x.1))) (res, loaded)
                (λ c e'. sym (
                  ap (λ (r : Result ℕ × Loaded S). r.0)
                    (some-injective (ok 0, (b.0, b.1, c.1)) (res, loaded) e')))))
        e

  -- When elf_load does not set the file, process_load_data still returns 0, without a try at
  -- loading a binary: the process is an ELF one with a NULL file, and the mapping of its memory
  -- then reads through NULL.
  pub process_load_data-rejected :
      (k : Kernel) (files files' : Files S) (process : Process) (elf_signature elf_memory : ℕ)
      (filename : List ℕ) (res : Result ℕ) (ram : Ram)
      → elf_load k.ram files elf_signature elf_memory filename ≡ some (res, (none, ram, files'))
      → (process' : Process) × (process_load_data k files process elf_signature elf_memory filename
          ≡ some (pos 0, process', record k { ram = ram }, files'))
        × (process'.file_type ≡ filetype_elf)
        × ((words : Words) (chunk : Chunk) → process_map_memory ram words chunk process' ≡ none)
  unfolding process_load_data process_load_elf process_map_memory process_map_elf is_einformat
  process_load_data-rejected k files files' process elf_signature elf_memory filename res ram e =
      let z = elf_load-ok k.ram files elf_signature elf_memory filename res (none, ram, files') e in
      (
        record process { file_type = filetype_elf; elf_file = none },
        rw (e, z, process_load_data) refl,
        refl,
        λ words chunk. refl,
      )
