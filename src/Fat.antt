-- ===== src/Fat.antt =====
-- src/fs/fat/fat16.c: the FAT16 filesystem on the drive. Its structures are decoded from the bytes
-- that are read. Every read of a stream comes behind a seek of it, but for the walk over a directory,
-- so the position that a read leaves is not kept. kzalloc is taken to succeed.
pub mod Run
pub mod Name
pub mod Cluster
pub mod Directory
pub mod Files
pub mod Count
pub mod Find
pub mod Lookup
pub mod Naming
pub mod Chain
pub mod Linked
pub mod Entry
pub mod Seek
pub mod Filesystem
mod Tests
use alpha_os.Prelude.{
  ℕ, zero, suc, ◌+◌, ◌*◌, ◌-◌, ◌^◌, Option, none, some, List, [], ◌∷◌, ltb, if◌then◌else◌, get_or,
  take, drop, Result, ok, err,
}
use alpha_os.Disk.{Drive, DiskStream, diskstreamer_seek, diskstreamer_read}

-- A field of two or four bytes, the low byte first.
unfoldable pub u16 : List ℕ → ℕ → ℕ
u16 bytes i = get_or bytes i 0 + get_or bytes (i + 1) 0 * 2 ^ 8

unfoldable pub u32 : List ℕ → ℕ → ℕ
unfolding u16
u32 bytes i = u16 bytes i + u16 bytes (i + 2) * 2 ^ 16

-- The fields of struct fat_header and struct fat_header_extended that the code reads.
pub record FatHeader : Type 0 where
  pub bytes_per_sector : ℕ
  pub sectors_per_cluster : ℕ
  pub reserved_sectors : ℕ
  pub fat_copies : ℕ
  pub root_dir_entries : ℕ
  pub number_of_sectors : ℕ
  pub sectors_per_fat : ℕ
  pub signature : ℕ

unfoldable pub decode_header : List ℕ → FatHeader
unfolding u16
decode_header bytes = record {
  bytes_per_sector = u16 bytes 11;
  sectors_per_cluster = get_or bytes 13 0;
  reserved_sectors = u16 bytes 14;
  fat_copies = get_or bytes 16 0;
  root_dir_entries = u16 bytes 17;
  number_of_sectors = u16 bytes 19;
  sectors_per_fat = u16 bytes 22;
  signature = get_or bytes 38 0;
}

abbrev pub item_size : ℕ
item_size = 32

-- struct fat_directory_item, as its 32 bytes: the fields that the code reads.
unfoldable pub first_byte : List ℕ → ℕ
first_byte item = get_or item 0 0

unfoldable pub attributes : List ℕ → ℕ
attributes item = get_or item 11 0

unfoldable pub high_16_bits_first_cluster : List ℕ → ℕ
unfolding u16
high_16_bits_first_cluster item = u16 item 20

unfoldable pub low_16_bits_first_cluster : List ℕ → ℕ
unfolding u16
low_16_bits_first_cluster item = u16 item 26

unfoldable pub file_size : List ℕ → ℕ
unfolding u32
file_size item = u32 item 28

-- struct fat_directory: `bytes` is the memory that `item` points to.
pub record FatDirectory : Type 0 where
  pub bytes : List ℕ
  pub total : ℕ
  pub sector_pos : ℕ
  pub ending_sector_pos : ℕ

-- `&directory->item[i]`, with the memory behind it.
unfoldable pub item_at : FatDirectory → ℕ → List ℕ
item_at directory i = drop (i * item_size) directory.bytes

-- struct fat_item
pub data FatItem : Type 0 where
  directory : FatDirectory → FatItem
  file : List ℕ → FatItem

-- struct fat_file_descriptor
pub record FatFileDescriptor : Type 0 where
  pub item : FatItem
  pub pos : ℕ

-- struct fat_private, but for its streams
pub record FatPrivate : Type 0 where
  pub header : FatHeader
  pub root_directory : FatDirectory
