-- ===== src/Fs/Open.antt =====
-- The calls of src/fs/file.c on a valid table: opening, reading and closing.
use alpha_os.Prelude.{
  ℕ, ◌+◌, ◌≡◌, ◌⊎◌, inl, inr, refl, sym, subst, ap, Option, none, some, List, [], ◌∷◌, ok, err, ℤ,
  Result,
}
use alpha_os.Text.Path.Parse.{pathparser_parse_total}
use alpha_os.Fs.{Files, Filesystem, FileMode, read, write, append, invalid}
use alpha_os.Fs.Calls.{
  fopen, fopen_root, fopen_disk, fopen_mode, fopen_private, fopen_descriptor, disk_of,
  file_get_mode_by_string,
}
use alpha_os.Fs.Table.{IsValid, Placed, fopen_descriptor_lem}

module _ {ℓ} {S : Type ℓ} where
  pub with_state : {files : Files S} (s : S) → IsValid files → IsValid (record files { state = s })
  with_state s v = record { sized = v.sized; numbered = v.numbered; backed = v.backed }

  -- The outcome of an open: no descriptor, and the table as it was; or a descriptor in the first
  -- free entry, on the filesystem of the disk.
  abbrev pub Opened : Files S → ℕ → Files S → Type ℓ
  Opened files fd files' =
      (fd ≡ 0) × (files'.file_descriptors ≡ files.file_descriptors) × IsValid files'
      ⊎ (i : ℕ) × (fs : Filesystem S) × (private_data : ℕ) × (fd ≡ i + 1)
        × (files.disk_filesystem ≡ some fs)
        × Placed files files' i fs private_data

  failed : (files : Files S) (s : S) → IsValid files → Opened files 0 (record files { state = s })
  failed files s v = inl (refl, refl, with_state s v)

  opened :
      (files : Files S) (s : S) (fs : Filesystem S) (private_data : ℕ)
      → IsValid files
      → files.disk_filesystem ≡ some fs
      → Opened files
          (fopen_descriptor (record files { state = s }) fs private_data).0
          (fopen_descriptor (record files { state = s }) fs private_data).1
  opened files s fs private_data v h =
      elim (fopen_descriptor_lem (record files { state = s }) fs private_data (with_state s v)) [
        | inl (i, e, p) ↦ inr (
          i,
          fs,
          private_data,
          e,
          h,
          record {
            inside = p.inside;
            was_free = p.was_free;
            first = p.first;
            changed = record { there = p.changed.there; elsewhere = p.changed.elsewhere };
            valid = p.valid;
          },
        )
        | inr (e, full) ↦ inl (
          ap (λ (r : ℕ × Files S). r.0) e,
          ap (λ (r : ℕ × Files S). r.1.file_descriptors) e,
          subst IsValid (sym (ap (λ (r : ℕ × Files S). r.1) e)) (with_state s v),
        )
      ]

  abbrev Outcome : Files S → ℕ × Files S → Type ℓ
  Outcome files r = Opened files r.0 r.1

  fopen_private_lem :
      (files : Files S) (fs : Filesystem S) (res : Result ℕ) (s : S)
      → IsValid files
      → files.disk_filesystem ≡ some fs
      → Outcome files (fopen_private files fs (res, s))
  unfolding fopen_private
  fopen_private_lem files fs (err e) s v h = failed files s v
  fopen_private_lem files fs (ok private_data) s v h = opened files s fs private_data v h

  fopen_mode_lem :
      (files : Files S) (fs : Filesystem S) (parts : List (List ℕ)) (mode : FileMode)
      → IsValid files
      → files.disk_filesystem ≡ some fs
      → Outcome files (fopen_mode files fs parts mode)
  unfolding fopen_mode
  fopen_mode_lem files fs parts read v h =
      let (res, s) = fs.open_file files.state parts read in fopen_private_lem files fs res s v h
  fopen_mode_lem files fs parts write v h =
      let (res, s) = fs.open_file files.state parts write in fopen_private_lem files fs res s v h
  fopen_mode_lem files fs parts append v h =
      let (res, s) = fs.open_file files.state parts append in fopen_private_lem files fs res s v h
  fopen_mode_lem files fs parts invalid v h = failed files files.state v

  fopen_disk_lem :
      (files : Files S) (disk : Option ℕ) (filesystem : Option (Filesystem S))
      (parts : List (List ℕ)) (mode_str : List ℕ)
      → IsValid files
      → files.disk_filesystem ≡ filesystem
      → Outcome files (fopen_disk files disk filesystem parts mode_str)
  unfolding fopen_disk
  fopen_disk_lem files none filesystem parts mode_str v h = failed files files.state v
  fopen_disk_lem files (some disk) none parts mode_str v h = failed files files.state v
  fopen_disk_lem files (some disk) (some fs) parts mode_str v h =
      fopen_mode_lem files fs parts (file_get_mode_by_string mode_str) v h

  fopen_root_lem :
      (files : Files S) (drive_no : ℤ) (parts : List (List ℕ)) (mode_str : List ℕ)
      → IsValid files
      → Outcome files (fopen_root files (record { drive_no = drive_no; parts = parts }) mode_str)
  unfolding fopen_root
  fopen_root_lem files drive_no [] mode_str v = failed files files.state v
  fopen_root_lem files drive_no (part ∷ parts) mode_str v =
      fopen_disk_lem files (disk_of drive_no) files.disk_filesystem (part ∷ parts) mode_str v refl

  -- An open always returns. It gives 0 and leaves the table as it was; or it gives the number of the
  -- first free entry, counted from 1, which then holds the descriptor, and leaves the other entries.
  pub fopen_lem :
      (files : Files S) (filename mode_str : List ℕ)
      → IsValid files
      → (fd : ℕ) × (files' : Files S) × (fopen files filename mode_str ≡ some (fd, files'))
        × Opened files fd files'
  unfolding fopen
  fopen_lem files filename mode_str v = elim (pathparser_parse_total filename) [
    | inl h ↦ (0, files, rw h refl, failed files files.state v)
    | inr (root, h, parts) ↦
        let r = fopen_root files root mode_str in
        (r.0, r.1, rw h refl, fopen_root_lem files root.drive_no root.parts mode_str v)
  ]
