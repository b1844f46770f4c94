-- ===== src/Fat/Directory.antt =====
-- Directories of src/fs/fat/fat16.c: the root directory, the items of a directory and the search along
-- a path.
use alpha_os.Prelude.{
  ℕ, zero, suc, ◌+◌, ◌*◌, ◌/◌, ◌%◌, true, false, not, Option, none, some, List, [], ◌∷◌, ◌==◌,
  if◌then◌else◌, ok, err, eio, efsnotus, bit_and,
}
use alpha_os.Disk.{Drive, DiskStream, diskstreamer_seek, diskstreamer_read, sector_size}
use alpha_os.Fat.{
  FatHeader, FatDirectory, FatPrivate, FatItem, directory, file, decode_header, item_size,
  first_byte, attributes, item_at,
}
use alpha_os.Fat.Run.{Run, ◌>>=◌, read_at, stream}
use alpha_os.Fat.Name.{get_full_relative_filename, same_name, max_name}
use alpha_os.Fat.Cluster.{get_first_cluster, cluster_to_sector, sector_to_absolute, read_internal}

-- The walk over the items on the stream, with `i` found so far. Fuel bounds it: the source reads on
-- until an item begins with NUL.
unfoldable pub total_items_loop : ℕ → Drive → DiskStream → ℕ → Run ℕ
unfolding first_byte
total_items_loop zero drive s i = none
total_items_loop (suc fuel) drive s i = elim (diskstreamer_read (item_size + 1) drive s item_size) [
  | none ↦ none
  | some (res, item, s') ↦ elim res [
    | err _ ↦ some (err eio)
    | ok _ ↦ elim (first_byte item == 0) [
      | true ↦ some (ok i)
      | false ↦ total_items_loop fuel drive s' (if first_byte item == 0xE5 then i else i + 1)
    ]
  ]
]

unfoldable pub get_total_items_for_directory : ℕ → Drive → ℕ → Run ℕ
unfolding total_items_loop diskstreamer_seek
get_total_items_for_directory fuel drive start_sector =
    total_items_loop fuel drive (diskstreamer_seek stream (start_sector * sector_size)) 0

-- A count that fails is negative, and no round of a loop over the items.
count_or_zero : Run ℕ → Option ℕ
count_or_zero none = none
count_or_zero (some (err _)) = some 0
count_or_zero (some (ok n)) = some n

unfoldable pub root_sector_pos : FatHeader → ℕ
root_sector_pos h = h.fat_copies * h.sectors_per_fat + h.reserved_sectors

unfoldable pub root_sectors : FatHeader → ℕ
root_sectors h =
    let size = h.root_dir_entries * item_size in
    if size % sector_size == 0 then size / sector_size else size / sector_size + 1

unfoldable pub get_root_directory : ℕ → Drive → FatHeader → Run FatDirectory
unfolding get_total_items_for_directory count_or_zero root_sector_pos root_sectors
    sector_to_absolute
get_root_directory fuel drive h =
    elim (count_or_zero (get_total_items_for_directory fuel drive (root_sector_pos h))) [
      | none ↦ none
      | some total ↦ do
        bytes ←
            read_at drive (sector_to_absolute (root_sector_pos h)) (h.root_dir_entries * item_size)
        some (
            ok (record {
              bytes = bytes;
              total = total;
              sector_pos = root_sector_pos h;
              ending_sector_pos = root_sector_pos h + root_sectors h;
            }))
    ]

-- sizeof(struct fat_h)
abbrev header_size : ℕ
header_size = 62

-- An error of the root directory is returned as -EIO.
eio_of {ℓ} : {A : Type ℓ} → Run A → Run A
eio_of none = none
eio_of (some (err _)) = some (err eio)
eio_of (some (ok a)) = some (ok a)

-- fat16_resolve: what becomes the disk's `fs_private`.
unfoldable pub fat16_resolve : ℕ → Drive → Run FatPrivate
unfolding read_at decode_header get_root_directory eio_of
fat16_resolve fuel drive = do
  bytes ← eio_of (read_at drive 0 header_size)
  let h = decode_header bytes
  if not (h.signature == 0x29) then some (err efsnotus) else (do
    root ← eio_of (get_root_directory fuel drive h)
    some (ok (record { header = h; root_directory = root })))

-- A directory that cannot be loaded is freed and returned all the same: `none`.
unfoldable pub load_fat_directory : ℕ → Drive → FatPrivate → List ℕ → Option FatDirectory
unfolding get_first_cluster cluster_to_sector get_total_items_for_directory read_internal attributes
load_fat_directory fuel drive p item =
    if bit_and (attributes item) 0x10 == 0
    then none
    else elim (cluster_to_sector p (get_first_cluster item)) [
      | none ↦ none
      | some sector ↦ elim (get_total_items_for_directory fuel drive sector) [
        | none ↦ none
        | some (err _) ↦ none
        | some (ok total) ↦
            elim (read_internal fuel drive p (get_first_cluster item) 0 (total * item_size)) [
              | none ↦ none
              | some (err _) ↦ none
              | some (ok bytes) ↦
                  some
                    (record { bytes = bytes; total = total; sector_pos = 0; ending_sector_pos = 0 })
            ]
      ]
    ]

unfoldable pub new_fat_item_for_directory_item : ℕ → Drive → FatPrivate → List ℕ → Option FatItem
unfolding load_fat_directory attributes
new_fat_item_for_directory_item fuel drive p item =
    if bit_and (attributes item) 0x10 == 0
    then some (file item)
    else elim (load_fat_directory fuel drive p item) [ none ↦ none | some d ↦ some (directory d) ]

-- The loop over the items from the i-th on, with the item found so far: it does not stop at a match.
unfoldable pub find_loop :
    ℕ
    → Drive
    → FatPrivate
    → FatDirectory
    → List ℕ
    → ℕ
    → ℕ
    → Option FatItem
    → Option (Option FatItem)
unfolding get_full_relative_filename same_name new_fat_item_for_directory_item item_at
find_loop fuel drive p d name zero i found = some found
find_loop fuel drive p d name (suc left) i found = elim (get_full_relative_filename (item_at d i)) [
  | none ↦ none
  | some filename ↦ elim (same_name max_name filename name) [
    | false ↦ find_loop fuel drive p d name left (i + 1) found
    | true ↦ elim (new_fat_item_for_directory_item fuel drive p (item_at d i)) [
      | none ↦ none
      | some item ↦ find_loop fuel drive p d name left (i + 1) (some item)
    ]
  ]
]

unfoldable pub find_item_in_directory :
    ℕ → Drive → FatPrivate → FatDirectory → List ℕ → Option (Option FatItem)
unfolding find_loop
find_item_in_directory fuel drive p d name = find_loop fuel drive p d name d.total 0 none

-- The loop over the parts behind the first.
unfoldable pub entry_loop :
    ℕ → Drive → FatPrivate → List (List ℕ) → Option FatItem → Option (Option FatItem)
unfolding find_item_in_directory
entry_loop fuel drive p [] current = some current
entry_loop fuel drive p (part ∷ parts) none = none
entry_loop fuel drive p (part ∷ parts) (some (file item)) = some none
entry_loop fuel drive p (part ∷ parts) (some (directory d)) =
    elim (find_item_in_directory fuel drive p d part) [
      | none ↦ none
      | some item ↦ entry_loop fuel drive p parts item
    ]

-- With a part left and no item found, the source reads the type of an item through NULL.
unfoldable pub get_directory_entry :
    ℕ → Drive → FatPrivate → List (List ℕ) → Option (Option FatItem)
unfolding entry_loop find_item_in_directory
get_directory_entry fuel drive p [] = none
get_directory_entry fuel drive p (part ∷ parts) =
    elim (find_item_in_directory fuel drive p p.root_directory part) [
      | none ↦ none
      | some none ↦ some none
      | some (some item) ↦ entry_loop fuel drive p parts (some item)
    ]
