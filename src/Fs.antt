-- ===== src/Fs.antt =====
-- src/fs/file.c: the table of file descriptors and the calls that it passes on to a filesystem. What a
-- filesystem keeps of its own is a type S; the calls pass a state of it along. kzalloc is taken to
-- give memory, and a string is the list of its bytes before the NUL.
pub mod Table
pub mod Calls
pub mod Open
pub mod Close
mod Tests
use alpha_os.Prelude.{
  ℕ, zero, suc, ◌+◌, ◌-◌, ◌≤◌, Bool, true, false, not, ◌||◌, Option, none, some, List, [], ◌∷◌,
  ◌==◌, leb, if◌then◌else◌, get_or, set, Result, ok, err, eio, einvarg, enomem, status, ℤ, pos,
  negsuc, replicate, ◌>>=◌,
}

abbrev pub max_filesystems : ℕ
max_filesystems = 12

abbrev pub max_filedescriptors : ℕ
max_filedescriptors = 512

-- FILE_MODE
pub data FileMode : Type 0 where
  read write append invalid : FileMode

-- struct file_stat
pub record FileStat : Type 0 where
  pub flags : ℕ
  pub filesize : ℕ

-- struct filesystem: each call gives what it returns, what it writes through its pointers, and the
-- state behind it. A descriptor's private data is named by a number, and `open` (here `open_file`) returns ERROR(e) as
-- `err e`.
pub record Filesystem {ℓ} (S : Type ℓ) : Type ℓ where
  pub resolve : S → ℤ × S
  pub open_file : S → List (List ℕ) → FileMode → Result ℕ × S
  pub read : S → ℕ → ℕ → ℕ → ℤ × List ℕ × S
  pub seek : S → ℕ → ℕ → ℕ → ℤ × S
  pub stat : S → ℕ → ℤ × FileStat × S
  pub close : S → ℕ → ℤ × S

-- struct file_descriptor; `filesystem` and `private` are NULL when it is new.
pub record FileDescriptor {ℓ} (S : Type ℓ) : Type ℓ where
  pub index : ℕ
  pub filesystem : Option (Filesystem S)
  pub private_data : ℕ

-- The two tables, the filesystem of the disk, and the filesystems' state.
pub record Files {ℓ} (S : Type ℓ) : Type ℓ where
  pub filesystems : List (Option (Filesystem S))
  pub file_descriptors : List (Option (FileDescriptor S))
  pub disk_filesystem : Option (Filesystem S)
  pub state : S

-- The index of the first NULL entry from `i` on.
unfoldable pub free_loop {ℓ} : {A : Type ℓ} → List (Option A) → ℕ → Option ℕ
free_loop [] i = none
free_loop (none ∷ entries) i = some i
free_loop (some a ∷ entries) i = free_loop entries (i + 1)

module _ {ℓ} {S : Type ℓ} where
  unfoldable pub fs_get_free_filesystem : Files S → Option ℕ
  unfolding free_loop
  fs_get_free_filesystem files = free_loop files.filesystems 0

  -- `none` is the endless loop.
  unfoldable pub fs_insert_filesystem : Files S → Filesystem S → Option (Files S)
  unfolding fs_get_free_filesystem
  fs_insert_filesystem files filesystem = do
    i ← fs_get_free_filesystem files
    some (record files { filesystems = set files.filesystems i (some filesystem) })

  unfoldable pub fs_load : Files S → Filesystem S → Option (Files S)
  unfolding fs_insert_filesystem
  fs_load files fat16 =
      fs_insert_filesystem (record files { filesystems = replicate max_filesystems none }) fat16

  unfoldable pub fs_init : Files S → Filesystem S → Option (Files S)
  unfolding fs_load
  fs_init files fat16 =
      fs_load (record files { file_descriptors = replicate max_filedescriptors none }) fat16

  unfoldable pub file_free_descriptor : Files S → FileDescriptor S → Files S
  file_free_descriptor files desc = record files {
    file_descriptors = set files.file_descriptors (desc.index - 1) none;
  }

  unfoldable pub file_new_descriptor : Files S → Result (FileDescriptor S) × Files S
  unfolding free_loop
  file_new_descriptor files = elim (free_loop files.file_descriptors 0) [
    | none ↦ (err enomem, files)
    | some i ↦
        let desc : FileDescriptor S = record {
          index = i + 1;
          filesystem = none;
          private_data = 0;
        } in
        (ok desc, record files { file_descriptors = set files.file_descriptors i (some desc) })
  ]

  unfoldable pub file_get_descriptor : Files S → ℤ → Option (FileDescriptor S)
  file_get_descriptor files (negsuc n) = none
  file_get_descriptor files (pos fd) =
      if fd == 0 || leb max_filedescriptors fd
      then none
      else get_or files.file_descriptors (fd - 1) none

  -- The loop of fs_resolve: the first filesystem whose `resolve` returns 0.
  unfoldable pub resolve_loop : List (Option (Filesystem S)) → S → Option (Filesystem S) × S
  resolve_loop [] s = (none, s)
  resolve_loop (none ∷ entries) s = resolve_loop entries s
  resolve_loop (some fs ∷ entries) s =
      let (res, s') = fs.resolve s in
      let rest = resolve_loop entries s' in
      elim res [ pos n ↦ if n == 0 then (some fs, s') else rest | negsuc n ↦ rest ]

  unfoldable pub fs_resolve : Files S → Option (Filesystem S) × Files S
  unfolding resolve_loop
  fs_resolve files =
      let (fs, s) = resolve_loop files.filesystems files.state in (fs, record files { state = s })
