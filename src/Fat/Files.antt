-- ===== src/Fat/Files.antt =====
-- The calls of src/fs/fat/fat16.c that stand in the record of the filesystem.
use alpha_os.Prelude.{
  ℕ, zero, suc, ◌+◌, ◌%◌, ◌^◌, Option, none, some, List, [], ◌++◌, ◌==◌, leb, if◌then◌else◌, Result,
  ok, err, eio, einvarg, eunimp, erdonly, bit_and,
}
use alpha_os.Disk.{Drive}
use alpha_os.Fs.{FileMode, read, FileStat}
use alpha_os.Fat.{FatPrivate, FatItem, FatFileDescriptor, directory, file, attributes, file_size}
use alpha_os.Fat.Run.{Run, ◌>>=◌}
use alpha_os.Fat.Cluster.{get_first_cluster, read_internal}
use alpha_os.Fat.Directory.{get_directory_entry}

unfoldable pub open_item : Option FatItem → Run FatFileDescriptor
open_item none = some (err eio)
open_item (some item) = some (ok (record { item = item; pos = 0 }))

unfoldable pub fat16_open :
    ℕ → Drive → FatPrivate → List (List ℕ) → FileMode → Run FatFileDescriptor
unfolding open_item get_directory_entry
fat16_open fuel drive p path mode = elim mode [
  | read ↦ elim (get_directory_entry fuel drive p path) [ none ↦ none | some item ↦ open_item item ]
  | other ↦ some (err erdonly)
]

-- A directory has no `file_size`.
unfoldable pub fat16_stat : FatFileDescriptor → Result FileStat
unfolding attributes file_size
fat16_stat descriptor = elim descriptor.item [
  | directory _ ↦ err einvarg
  | file item ↦ ok (record {
    flags = if bit_and (attributes item) 0x01 == 0 then 0 else 1;
    filesize = file_size item;
  })
]

-- The loop of fat16_read: `nmemb` reads of `size` bytes from `offset` on. The size of the file is not
-- looked at, and the position of the descriptor stays.
unfoldable pub fat16_read_loop : ℕ → Drive → FatPrivate → ℕ → ℕ → ℕ → ℕ → Run (List ℕ)
unfolding read_internal
fat16_read_loop fuel drive p cluster size zero offset = some (ok [])
fat16_read_loop fuel drive p cluster size (suc n) offset = do
  out ← read_internal fuel drive p cluster offset size
  more ← fat16_read_loop fuel drive p cluster size n (offset + size)
  some (ok (out ++ more))

-- The item of a directory is read as a directory's pointer: `none`.
unfoldable pub fat16_read : ℕ → Drive → FatPrivate → FatFileDescriptor → ℕ → ℕ → Run (ℕ × List ℕ)
unfolding fat16_read_loop get_first_cluster
fat16_read fuel drive p descriptor size nmemb = elim descriptor.item [
  | directory _ ↦ none
  | file item ↦ do
    out ← fat16_read_loop fuel drive p (get_first_cluster item) size nmemb descriptor.pos
    some (ok (nmemb, out))
]

-- SEEK_SET is 0, SEEK_CUR 1 and SEEK_END 2.
unfoldable pub fat16_seek : FatFileDescriptor → ℕ → ℕ → Result ℕ × FatFileDescriptor
unfolding file_size
fat16_seek descriptor offset seek_mode = elim descriptor.item [
  | directory _ ↦ (err einvarg, descriptor)
  | file item ↦
      if leb (file_size item) offset
      then (err eio, descriptor)
      else if seek_mode == 0
      then (ok 0, record descriptor { pos = offset })
      else if seek_mode == 2
      then (err eunimp, descriptor)
      else if seek_mode == 1
      then (ok 0, record descriptor { pos = (descriptor.pos + offset) % 2 ^ 32 })
      else (err einvarg, descriptor)
]
