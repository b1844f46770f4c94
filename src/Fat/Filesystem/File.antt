-- ===== src/Fat/Filesystem/File.antt =====
-- A file of FAT16 that is opened and read through src/fs/file.c.
use alpha_os.Prelude.{
  ℕ, suc, ◌+◌, ◌*◌, ◌≤◌, ◌<◌, ◌≡◌, inl, inr, refl, sym, ap, ◌∙◌, Option, none, some, List, [], ◌∷◌,
  ◌++◌, append-nil, length, All, get_or, ok, ℤ, pos, Option-cases, arith, ◌>>=◌,
}
use native.Mathlib.Decide.{dec_le}
use alpha_os.Disk.{Drive, disk_get}
use alpha_os.Disk.Ata.{IsAta}
use alpha_os.Text.Path.Parse.{IsPart}
use alpha_os.Text.Path.Parse.Format.{format, pathparser_parse-format}
use alpha_os.Fs.{Files, Filesystem, FileDescriptor, read, file_new_descriptor, free_loop}
use alpha_os.Fs.Calls.{
  fopen, fopen_root, fopen_disk, fopen_mode, fopen_private, fopen_descriptor, disk_of, fread,
  file_get_mode_by_string,
}
use alpha_os.Fs.Table.{IsValid, fopen_descriptor_lem}
use alpha_os.Fs.Open.{with_state}
use alpha_os.Fs.Close.{fread-Placed}
use alpha_os.Fat.{FatPrivate, FatFileDescriptor, file}
use alpha_os.Fat.Cluster.{get_first_cluster, cluster_bytes, read_internal}
use alpha_os.Fat.Directory.{get_directory_entry}
use alpha_os.Fat.Files.{fat16_open, fat16_read, fat16_read_loop, open_item}
use alpha_os.Fat.Chain.{Chain, IsCluster, chain_bytes, read_internal-Chain}
use alpha_os.Fat.Filesystem.{
  FatState, fat16_fs, open_call, open_with, read_call, read_with, descriptor_at,
}

-- A new descriptor, at the start of a file.
abbrev pub start_of : List ℕ → FatFileDescriptor
start_of item = record { item = file item; pos = 0 }

-- A resolved filesystem with descriptors.
abbrev pub resolved : Drive → FatPrivate → List (Option FatFileDescriptor) → FatState
resolved drive p descriptors = record {
  drive = drive;
  fs_private = some p;
  descriptors = descriptors;
}

-- The same with one descriptor more.
abbrev pub with_file : Drive → FatPrivate → List (Option FatFileDescriptor) → List ℕ → FatState
with_file drive p descriptors item = resolved drive p (descriptors ++ some (start_of item) ∷ [])

get_or-last :
    (xs : List (Option FatFileDescriptor)) (x : Option FatFileDescriptor)
    → get_or (xs ++ x ∷ []) (length xs) none ≡ x
get_or-last [] x = refl
get_or-last (y ∷ xs) x = get_or-last xs x

open_call-file :
    (fuel : ℕ) (drive : Drive) (p : FatPrivate) (ds : List (Option FatFileDescriptor))
    (path : List (List ℕ)) (item : List ℕ)
    → get_directory_entry fuel drive p path ≡ some (some (file item))
    → open_call fuel (some (resolved drive p ds)) path read
      ≡ (ok (length ds + 1), some (with_file drive p ds item))
unfolding open_call open_with fat16_open open_item
open_call-file fuel drive p ds path item found = rw (found, fat16_open) refl

-- One read at the start of a file.
read_call-file :
    (fuel : ℕ) (drive : Drive) (p : FatPrivate) (ds : List (Option FatFileDescriptor))
    (item : List ℕ) (size : ℕ) (out : List ℕ)
    → read_internal fuel drive p (get_first_cluster item) 0 size ≡ some (ok out)
    → read_call fuel (some (with_file drive p ds item)) (length ds + 1) size 1
      ≡ (pos 1, out, some (with_file drive p ds item))
unfolding read_call read_with descriptor_at fat16_read fat16_read_loop
read_call-file fuel drive p ds item size out run =
    let e : length ds + 1 ≡ suc (length ds) = omega arith in
    rw (e, get_or-last ds (some (start_of item)), read_call, run, fat16_read, fat16_read_loop)
      (ap (λ bs. (pos 1, bs, some (with_file drive p ds item))) (append-nil out))

-- Files whose disk has the filesystem.
abbrev pub mounted :
    ℕ
    → List (Option (Filesystem (Option FatState)))
    → List (Option (FileDescriptor (Option FatState)))
    → FatState
    → Files (Option FatState)
mounted fuel filesystems file_descriptors f = record {
  filesystems = filesystems;
  file_descriptors = file_descriptors;
  disk_filesystem = some (fat16_fs fuel);
  state = some f;
}

fopen_descriptor-state :
    {S : Type 0} (files : Files S) (fs : Filesystem S) (private_data : ℕ)
    → (fopen_descriptor files fs private_data).1.state ≡ files.state
unfolding fopen_descriptor file_new_descriptor
fopen_descriptor-state files fs private_data =
    elim (Option-cases (free_loop files.file_descriptors 0)) [
      | inl full ↦ rw (full, fopen_descriptor, file_new_descriptor, full) refl
      | inr (i, at) ↦ rw (at, fopen_descriptor, file_new_descriptor, at) refl
    ]

module _ (fuel : ℕ) (drive : Drive) (p : FatPrivate) (ds : List (Option FatFileDescriptor))
    (filesystems : List (Option (Filesystem (Option FatState))))
    (table : List (Option (FileDescriptor (Option FatState)))) where
  -- fopen of the path, up to the table of descriptors.
  fopen-file :
      (parts : List (List ℕ)) (part item : List ℕ)
      → All IsPart (part ∷ parts)
      → length (format 0 (part ∷ parts)) ≤ 108
      → get_directory_entry fuel drive p (part ∷ parts) ≡ some (some (file item))
      → fopen
          (mounted fuel filesystems table (resolved drive p ds))
          (format 0 (part ∷ parts))
          (b'r' ∷ [])
        ≡ some (
            fopen_descriptor
              (mounted fuel filesystems table (with_file drive p ds item))
              (fat16_fs fuel)
              (length ds + 1))
  unfolding fopen fopen_root fopen_disk fopen_mode fopen_private disk_of disk_get
      file_get_mode_by_string
  fopen-file parts part item each short found =
      let parsed = pathparser_parse-format 0 (part ∷ parts) (omega arith) each short in
      let opened = open_call-file fuel drive p ds (part ∷ parts) item found in
      rw (parsed, ◌>>=◌, opened) refl

  -- On a drive that answers as ATA says, resolved as FAT16 with clusters of at least one sector: for a
  -- path on drive 0 that is found as a file, of which the clusters lie in a chain that has `size`
  -- bytes, behind the root directory and below 2 GB, and with a free entry below the last in the
  -- table of descriptors, fopen for reading gives a descriptor, and fread of one object of `size`
  -- bytes through it returns 1 and the first `size` bytes of the chain; fuel above `size` is enough.
  pub fopen-fread :
      (medium : ℕ → ℕ) (parts : List (List ℕ)) (part item : List ℕ) (chain : List ℕ) (size j : ℕ)
      → IsAta drive medium
      → 0 < cluster_bytes p
      → All IsPart (part ∷ parts)
      → length (format 0 (part ∷ parts)) ≤ 108
      → get_directory_entry fuel drive p (part ∷ parts) ≡ some (some (file item))
      → Chain drive p (get_first_cluster item) chain
      → All (IsCluster p) (get_first_cluster item ∷ chain)
      → 1 ≤ size
      → size ≤ suc (length chain) * cluster_bytes p
      → size < fuel
      → IsValid (mounted fuel filesystems table (resolved drive p ds))
      → j < 511
      → get_or table j none ≡ none
      → (fd : ℕ) × (files' : Files (Option FatState)) × (fopen
            (mounted fuel filesystems table (resolved drive p ds))
            (format 0 (part ∷ parts))
            (b'r' ∷ [])
          ≡ some (fd, files'))
        × (1 ≤ fd)
        × (fread files' size 1 (pos fd)
            ≡ some (
              pos 1,
              chain_bytes medium p (get_first_cluster item ∷ chain) size,
              record files' { state = some (with_file drive p ds item) },
            ))
  fopen-fread medium parts part item chain size j ata big each short found linked inside some_bytes
        room enough v below free =
      let zero_at : 0 * cluster_bytes p ≡ 0 = omega arith in
      let run =
        read_internal-Chain drive medium ata p big fuel (get_first_cluster item) 0 size chain linked
          inside (omega arith) (omega arith) enough in
      let v' = with_state (some (with_file drive p ds item)) v in
      let read_it =
        read_call-file fuel drive p ds item size
          (chain_bytes medium p (get_first_cluster item ∷ chain) size)
          (ap (λ o. read_internal fuel drive p (get_first_cluster item) o size) (sym zero_at)
            ∙ run) in
      let opened = fopen-file parts part item each short found in
      elim (fopen_descriptor_lem (mounted fuel filesystems table (with_file drive p ds item))
        (fat16_fs fuel) (length ds + 1) v') [
          | inl (i, e, placed) ↦
              let before : i < 511 = elim (dec_le i j) [
                | yes le ↦ omega arith
                | no gt ↦ absurd (ground (arith, (placed.first j (omega arith)).1))
              ] in
              let r =
                fopen_descriptor (mounted fuel filesystems table (with_file drive p ds item))
                  (fat16_fs fuel) (length ds + 1) in
              (
                r.0,
                r.1,
                opened,
                omega (arith, e),
                ap (λ n. fread r.1 size 1 (pos n)) e
                    ∙ fread-Placed (mounted fuel filesystems table (with_file drive p ds item)) r.1
                        i (fat16_fs fuel) (length ds + 1) size 1 placed before some_bytes
                        (omega arith)
                    ∙ ap
                        (λ (x : ℤ × List ℕ × Option FatState).
                          some (x.0, x.1, record r.1 { state = x.2 }))
                        (ap (λ s. read_call fuel s (length ds + 1) size 1)
                            (fopen_descriptor-state
                              (mounted fuel filesystems table (with_file drive p ds item))
                              (fat16_fs fuel) (length ds + 1))
                          ∙ read_it),
              )
          | inr (e, full) ↦ absurd (ground (arith, (full j (omega arith)).1))
        ]
