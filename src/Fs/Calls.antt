-- ===== src/Fs/Calls.antt =====
-- The calls of src/fs/file.c that programs and the loader use.
use alpha_os.Prelude.{
  ℕ, ◌-◌, Bool, true, ◌||◌, Option, none, some, List, [], ◌∷◌, ◌==◌, if◌then◌else◌, get_or, set,
  Result, ok, err, eio, einvarg, status, ℤ, pos, negsuc, ◌>>=◌,
}
use alpha_os.Text.Path.{PathRoot, pathparser_parse}
use alpha_os.Disk.{disk_get}
use alpha_os.Fs.{
  Files, Filesystem, FileStat, FileMode, read, write, append, invalid, file_new_descriptor,
  file_get_descriptor, file_free_descriptor,
}

-- disk_get on the drive's number, which is negative when it is not a digit.
unfoldable pub disk_of : ℤ → Option ℕ
disk_of (pos n) = disk_get n
disk_of (negsuc n) = none

unfoldable pub below_1 : ℤ → Bool
below_1 (pos n) = n == 0
below_1 (negsuc n) = true

-- strncmp with one byte looks at the first.
unfoldable pub file_get_mode_by_string : List ℕ → FileMode
file_get_mode_by_string str =
    if get_or str 0 0 == b'r'
    then read
    else if get_or str 0 0 == b'w'
    then write
    else if get_or str 0 0 == b'a'
    then append
    else invalid

module _ {ℓ} {S : Type ℓ} where
  -- The end of fopen, with the filesystem's private data.
  unfoldable pub fopen_descriptor : Files S → Filesystem S → ℕ → ℕ × Files S
  unfolding file_new_descriptor
  fopen_descriptor files fs private_data =
      let (res, files') = file_new_descriptor files in
      elim res [
        | err e ↦ (0, files')
        | ok desc ↦
            let desc' = record desc { filesystem = some fs; private_data = private_data } in
            (
              desc.index,
              record files' {
                file_descriptors = set files'.file_descriptors (desc.index - 1) (some desc');
              },
            )
      ]

  -- What fopen does with what the filesystem's `open` returns.
  unfoldable pub fopen_private : Files S → Filesystem S → Result ℕ × S → ℕ × Files S
  unfolding fopen_descriptor
  fopen_private files fs (err e, s) = (0, record files { state = s })
  fopen_private files fs (ok private_data, s) =
      fopen_descriptor (record files { state = s }) fs private_data

  unfoldable pub fopen_mode : Files S → Filesystem S → List (List ℕ) → FileMode → ℕ × Files S
  unfolding fopen_private
  fopen_mode files fs parts mode = elim mode [
    | invalid ↦ (0, files)
    | m ↦ fopen_private files fs (fs.open_file files.state parts m)
  ]

  -- fopen behind the parsing of the path: the disk and its filesystem, where there are any.
  unfoldable pub fopen_disk :
      Files S → Option ℕ → Option (Filesystem S) → List (List ℕ) → List ℕ → ℕ × Files S
  unfolding fopen_mode file_get_mode_by_string
  fopen_disk files none filesystem parts mode_str = (0, files)
  fopen_disk files (some disk) none parts mode_str = (0, files)
  fopen_disk files (some disk) (some fs) parts mode_str =
      fopen_mode files fs parts (file_get_mode_by_string mode_str)

  unfoldable pub fopen_root : Files S → PathRoot → List ℕ → ℕ × Files S
  unfolding disk_of fopen_disk
  fopen_root files root mode_str = elim root.parts [
    | [] ↦ (0, files)
    | part ∷ parts ↦
        fopen_disk files (disk_of root.drive_no) files.disk_filesystem (part ∷ parts) mode_str
  ]

  -- Every error is returned as 0.
  unfoldable pub fopen : Files S → List ℕ → List ℕ → Option (ℕ × Files S)
  unfolding fopen_root
  fopen files filename mode_str = do
    root ← pathparser_parse filename
    elim root [ none ↦ some (0, files) | some root ↦ some (fopen_root files root mode_str) ]

  -- The other calls; `none` is a call through a NULL filesystem.
  unfoldable pub fstat : Files S → ℤ → Option (ℤ × Option FileStat × Files S)
  unfolding file_get_descriptor
  fstat files fd = elim (file_get_descriptor files fd) [
    | none ↦ some (status eio, none, files)
    | some desc ↦ do
      fs ← desc.filesystem
      let (res, stat, s) = fs.stat files.state desc.private_data
      some (res, some stat, record files { state = s })
  ]

  unfoldable pub fclose : Files S → ℤ → Option (ℤ × Files S)
  unfolding file_get_descriptor file_free_descriptor
  fclose files fd = elim (file_get_descriptor files fd) [
    | none ↦ some (status eio, files)
    | some desc ↦ do
      fs ← desc.filesystem
      let (res, s) = fs.close files.state desc.private_data
      let files' : Files S = record files { state = s }
      some (
        res,
        elim res [
          | pos n ↦ if n == 0 then file_free_descriptor files' desc else files'
          | negsuc n ↦ files'
        ],
      )
  ]

  unfoldable pub fseek : Files S → ℤ → ℕ → ℕ → Option (ℤ × Files S)
  unfolding file_get_descriptor
  fseek files fd offset whence = elim (file_get_descriptor files fd) [
    | none ↦ some (status eio, files)
    | some desc ↦ do
      fs ← desc.filesystem
      let (res, s) = fs.seek files.state desc.private_data offset whence
      some (res, record files { state = s })
  ]

  -- The result, the bytes written to `ptr`, and the tables.
  unfoldable pub fread : Files S → ℕ → ℕ → ℤ → Option (ℤ × List ℕ × Files S)
  unfolding file_get_descriptor below_1
  fread files size nmemb fd =
      if size == 0 || nmemb == 0 || below_1 fd
      then some (status einvarg, [], files)
      else elim (file_get_descriptor files fd) [
        | none ↦ some (status einvarg, [], files)
        | some desc ↦ do
          fs ← desc.filesystem
          let (res, out, s) = fs.read files.state desc.private_data size nmemb
          some (res, out, record files { state = s })
      ]
