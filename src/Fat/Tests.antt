-- ===== src/Fat/Tests.antt =====
-- Runs of src/fs/fat/fat16.c on a small drive: a directory in sector 1, clusters 2 and 3 of a chain.
use alpha_os.Prelude.{
  ℕ, zero, suc, ◌+◌, ◌*◌, ◌%◌, ◌<◌, ◌≡◌, ◌≢◌, refl, some, List, [], ◌∷◌, ◌++◌, ◌==◌, if◌then◌else◌,
  ok, arith, true, false, replicate, bit_and, set, sym, subst, All, Option, none, get_or,
  length-replicate, pos, ◌≤◌, drop, inr, err, eio, ◌⊎◌,
}
use alpha_os.Text.Path.Parse.Format.{format, join}
use alpha_os.Fs.{Files, FileDescriptor}
use alpha_os.Fs.Calls.{fopen, fread}
use alpha_os.Fs.Table.{IsValid}
use alpha_os.Fat.Filesystem.{FatState}
use alpha_os.Fat.Filesystem.File.{resolved, with_file, mounted, fopen-fread}
use alpha_os.Text.Cstring.{tolower}
use alpha_os.Disk.{Drive}
use alpha_os.Disk.Ata.{IsAta, lba28}
use alpha_os.Fat.{
  FatDirectory, FatPrivate, file, attributes, item_at, low_16_bits_first_cluster,
  high_16_bits_first_cluster, u16,
}
use alpha_os.Fat.Name.{to_proper_string, get_full_relative_filename, same_name}
use alpha_os.Fat.Cluster.{
  get_first_cluster, get_fat_entry, get_cluster_for_offset, cluster_bytes, read_internal,
  ends_chain,
}
use alpha_os.Fat.Directory.{
  get_total_items_for_directory, find_item_in_directory, get_directory_entry, entry_loop,
}
use alpha_os.Fat.Count.{used, get_total_items_lem}
use alpha_os.Fat.Find.{Named, find_item_in_directory-Named}
use alpha_os.Fat.Lookup.{IsStored, SameText, written, find_item_in_directory_lem}
use alpha_os.Fat.Chain.{Chain, IsCluster, chain_bytes}
use alpha_os.Fat.Linked.{IsMark, word_of, read_internal-Linked}
use alpha_os.Fat.Entry.{get_fat_entry_lem}

abbrev medium : ℕ → ℕ
medium i =
    if i == 512
    then b'A'
    else if i == 544
    then 0xE5
    else if i == 576
    then b'B'
    else if i == 608
    then 0
    else if i == 2048
    then 3
    else if i == 2049
    then 0
    else i % 251

abbrev drive : Drive
drive c i = medium (lba28 c * 512 + 2 * i) + medium (lba28 c * 512 + 2 * i + 1) * 256

drive-IsAta : IsAta drive medium
drive-IsAta = record { byte = λ i. ground arith; words = λ c i b h. refl }

three : (k : ℕ) → k < 3 → medium (512 + 32 * k) ≢ 0
three zero h = omega arith
three (suc zero) h = omega arith
three (suc (suc zero)) h = omega arith
three (suc (suc (suc k))) h = absurd (omega arith)

get_total_items_example : get_total_items_for_directory 4 drive 1 ≡ some (ok 2)
unfolding used
get_total_items_example =
    get_total_items_lem drive medium drive-IsAta 4 1 3 (omega arith) three refl (omega arith)

abbrev fat_private : FatPrivate
fat_private = record {
  header = record {
    bytes_per_sector = 512;
    sectors_per_cluster = 1;
    reserved_sectors = 1;
    fat_copies = 1;
    root_dir_entries = 16;
    number_of_sectors = 100;
    sectors_per_fat = 1;
    signature = 0x29;
  };
  root_directory = record { bytes = []; total = 0; sector_pos = 2; ending_sector_pos = 10 };
}

abbrev hello : List ℕ
hello =
    b'H'
    ∷ b'E'
    ∷ b'L'
    ∷ b'L'
    ∷ b'O'
    ∷ b' '
    ∷ b' '
    ∷ b' '
    ∷ b'T'
    ∷ b'X'
    ∷ b'T'
    ∷ 0x20
    ∷ replicate 20 0

abbrev readme : List ℕ
readme =
    b'R'
    ∷ b'E'
    ∷ b'A'
    ∷ b'D'
    ∷ b'M'
    ∷ b'E'
    ∷ b' '
    ∷ b' '
    ∷ b' '
    ∷ b' '
    ∷ b' '
    ∷ 0x20
    ∷ replicate 20 0

abbrev two_files : FatDirectory
two_files = record { bytes = hello ++ readme; total = 2; sector_pos = 0; ending_sector_pos = 0 }

abbrev hello_name : List ℕ
hello_name = b'h' ∷ b'e' ∷ b'l' ∷ b'l' ∷ b'o' ∷ b'.' ∷ b't' ∷ b'x' ∷ b't' ∷ []

-- The names and the extensions of the two.
abbrev stems : ℕ → List ℕ
stems j =
    if j == 0
    then b'H' ∷ b'E' ∷ b'L' ∷ b'L' ∷ b'O' ∷ []
    else b'R' ∷ b'E' ∷ b'A' ∷ b'D' ∷ b'M' ∷ b'E' ∷ []

abbrev extensions : ℕ → List ℕ
extensions j = if j == 0 then b'T' ∷ b'X' ∷ b'T' ∷ [] else []

two_files-Stored : (j : ℕ) → j < 2 → IsStored (item_at two_files j) (stems j) (extensions j)
unfolding item_at
two_files-Stored zero h = record {
  stop = b' ';
  stop' = 0x20;
  behind = drop 6 (item_at two_files 0);
  behind' = drop 12 (item_at two_files 0);
  at_name = refl;
  at_extension = refl;
  stops = inr refl;
  stops' = inr refl;
  name_chars = ground arith;
  extension_chars = ground arith;
  fits = omega arith;
  fits' = omega arith;
}
two_files-Stored (suc zero) h = record {
  stop = b' ';
  stop' = b' ';
  behind = drop 7 (item_at two_files 1);
  behind' = drop 9 (item_at two_files 1);
  at_name = refl;
  at_extension = refl;
  stops = inr refl;
  stops' = inr refl;
  name_chars = ground arith;
  extension_chars = tt;
  fits = omega arith;
  fits' = omega arith;
}
two_files-Stored (suc (suc j)) h = absurd (omega arith)

others_differ : (j : ℕ) → j < 2 → j ≢ 0 → ¬ SameText (written (stems j) (extensions j)) hello_name
others_differ zero h ne m = ne refl
others_differ (suc zero) h ne m = ground (arith, m.0)
others_differ (suc (suc j)) h ne m = absurd (omega arith)

hello_matches : SameText (written (stems 0) (extensions 0)) hello_name
hello_matches = ground arith

plain_hello : bit_and (attributes (item_at two_files 0)) 0x10 ≡ 0
unfolding attributes item_at
plain_hello = refl

find_item_in_directory_example :
    find_item_in_directory 10 drive fat_private two_files hello_name
    ≡ some (some (file (item_at two_files 0)))
find_item_in_directory_example =
    find_item_in_directory_lem 10 drive fat_private two_files hello_name stems extensions 0
      two_files-Stored (omega arith) (omega arith) hello_matches others_differ plain_hello

get_fat_entry_example : (get_fat_entry drive fat_private 2 ≡ some (ok 3)) × (512 * 4 ≢ 512 + 4)
get_fat_entry_example =
    get_fat_entry_lem drive medium drive-IsAta fat_private 2 (omega arith) (omega arith)
      (omega arith)

ends_three : ends_chain 3 ≡ false
unfolding ends_chain
ends_three = refl

-- The word of cluster 3 is no mark either.
no-IsMark : (e : ℕ) → e ≡ 3 → ¬ IsMark e
no-IsMark e h m = ground arith

read_internal_example :
    (read_internal 601 drive fat_private 2 0 600
      ≡ some (ok (chain_bytes medium fat_private (2 ∷ 3 ∷ []) 600)))
    × ((IsMark (word_of medium fat_private 3)
          × (read_internal 601 drive fat_private 2 1024 600 ≡ some (err eio)))
        ⊎ (¬ IsMark (word_of medium fat_private 3)
            × (get_cluster_for_offset drive fat_private 2 1024
                ≡ some (ok (word_of medium fat_private 3)))))
unfolding cluster_bytes
read_internal_example =
    read_internal-Linked drive medium drive-IsAta fat_private (omega arith) (omega arith) 601 2 0
      600 (3 ∷ []) ((omega arith, omega arith), refl, no-IsMark 3 refl, (omega arith, omega arith))
      (
        record { above = omega arith; below = omega arith },
        (record { above = omega arith; below = omega arith }, tt),
      )
      (omega arith) (omega arith) (omega arith)

-- A root directory with a file of 600 bytes from cluster 2 on.
abbrev root_private : FatPrivate
root_private = record fat_private {
  root_directory = record {
    bytes = set hello 26 2;
    total = 1;
    sector_pos = 2;
    ending_sector_pos = 10;
  };
}

abbrev root : FatDirectory
root = root_private.root_directory

abbrev root_item : List ℕ
root_item = item_at root 0

only_item : (j : ℕ) → j < 1 → j ≢ 0 → Named root hello_name j false
only_item zero h n = absurd (n refl)
only_item (suc j) h n = absurd (omega arith)

hello-Named : Named root hello_name 0 true
unfolding get_full_relative_filename to_proper_string same_name item_at tolower
hello-Named = (b'H' ∷ b'E' ∷ b'L' ∷ b'L' ∷ b'O' ∷ b'.' ∷ b'T' ∷ b'X' ∷ b'T' ∷ [], refl, refl)

plain_item : bit_and (attributes (item_at root 0)) 0x10 ≡ 0
unfolding attributes item_at
plain_item = refl

in_root :
    get_directory_entry 601 drive root_private (hello_name ∷ []) ≡ some (some (file root_item))
unfolding get_directory_entry entry_loop
in_root =
    rw
      (
        find_item_in_directory-Named 601 drive root_private root hello_name 0 (omega arith)
            only_item hello-Named plain_item,
        get_directory_entry,
      )
      refl

second_cluster : get_first_cluster root_item ≡ 2
unfolding get_first_cluster item_at low_16_bits_first_cluster high_16_bits_first_cluster u16
second_cluster = refl

third_cluster : get_fat_entry drive root_private 2 ≡ some (ok 3)
third_cluster =
    (get_fat_entry_lem drive medium drive-IsAta root_private 2 (omega arith) (omega arith)
      (omega arith)).0

abbrev table : List (Option (FileDescriptor (Option FatState)))
table = replicate 512 none

table_none :
    (n i : ℕ)
    → get_or (replicate {A = Option (FileDescriptor (Option FatState))} n none) i none ≡ none
table_none zero i = refl
table_none (suc n) zero = refl
table_none (suc n) (suc i) = table_none n i

abbrev mounted_files : Files (Option FatState)
mounted_files = mounted 601 [] table (resolved drive root_private [])

mounted-IsValid : IsValid mounted_files
mounted-IsValid = record {
  sized = length-replicate {A = Option (FileDescriptor (Option FatState))} 512 none;
  numbered = λ i d h. absurd (ground (arith, table_none 512 i));
  backed = λ i d h. absurd (ground (arith, table_none 512 i));
}

root-Chain : Chain drive root_private (get_first_cluster root_item) (3 ∷ [])
root-Chain =
    subst (λ c. Chain drive root_private c (3 ∷ [])) (sym second_cluster)
      (third_cluster, ends_three, tt)

root_clusters : All (IsCluster root_private) (get_first_cluster root_item ∷ 3 ∷ [])
unfolding cluster_bytes
root_clusters =
    subst (λ c. All (IsCluster root_private) (c ∷ 3 ∷ [])) (sym second_cluster)
      (
        record { above = omega arith; below = omega arith },
        (record { above = omega arith; below = omega arith }, tt),
      )

fopen-fread_example :
    (fd : ℕ) × (files' : Files (Option FatState)) × (fopen mounted_files
        (format 0 (hello_name ∷ []))
        (b'r' ∷ [])
      ≡ some (fd, files'))
    × (1 ≤ fd)
    × (fread files' 600 1 (pos fd)
        ≡ some (
          pos 1,
          chain_bytes medium root_private (get_first_cluster root_item ∷ 3 ∷ []) 600,
          record files' { state = some (with_file drive root_private [] root_item) },
        ))
unfolding cluster_bytes
fopen-fread_example =
    fopen-fread 601 drive root_private [] [] table medium [] hello_name root_item (3 ∷ []) 600 0
      drive-IsAta (omega arith) (ground arith, tt) (unfold format join in omega arith) in_root
      root-Chain root_clusters (omega arith) (omega arith) (omega arith) mounted-IsValid
      (omega arith) refl
