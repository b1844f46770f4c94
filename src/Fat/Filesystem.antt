-- ===== src/Fat/Filesystem.antt =====
-- fat16_fs of src/fs/fat/fat16.c: the functions of the filesystem as the calls of src/fs/file.c see
-- them. Their state is `none` after an access outside the modelled memory.
pub mod File
use alpha_os.Prelude.{
  ℕ, zero, suc, ◌+◌, ◌-◌, Option, none, some, List, [], ◌∷◌, ◌++◌, length, get_or, set, Result, ok,
  err, einvarg, status, ℤ, pos,
}
use alpha_os.Disk.{Drive}
use alpha_os.Fs.{Filesystem, FileMode, FileStat}
use alpha_os.Fat.{FatPrivate, FatFileDescriptor}
use alpha_os.Fat.Run.{Run}
use alpha_os.Fat.Directory.{fat16_resolve}
use alpha_os.Fat.Files.{fat16_open, fat16_stat, fat16_read, fat16_seek}

-- The drive, the disk's `fs_private`, and the descriptors in memory, of which the pointers are
-- numbered from 1; a freed one is `none`.
pub record FatState : Type 0 where
  pub drive : Drive
  pub fs_private : Option FatPrivate
  pub descriptors : List (Option FatFileDescriptor)

unfoldable pub int_of : Result ℕ → ℤ
int_of (ok n) = pos n
int_of (err e) = status e

unfoldable pub no_stat : FileStat
no_stat = record { flags = 0; filesize = 0 }

unfoldable pub descriptor_at : FatState → ℕ → Option FatFileDescriptor
descriptor_at f zero = none
descriptor_at f (suc i) = get_or f.descriptors i none

unfoldable pub resolve_with : FatState → Run FatPrivate → ℤ × Option FatState
resolve_with f none = (pos 0, none)
resolve_with f (some (err e)) = (status e, some (record f { fs_private = none }))
resolve_with f (some (ok p)) = (pos 0, some (record f { fs_private = some p }))

-- The new descriptor is put behind those there are.
unfoldable pub open_with : FatState → Run FatFileDescriptor → Result ℕ × Option FatState
open_with f none = (err einvarg, none)
open_with f (some (err e)) = (err e, some f)
open_with f (some (ok d)) =
    (ok (length f.descriptors + 1), some (record f { descriptors = f.descriptors ++ some d ∷ [] }))

unfoldable pub read_with : FatState → Run (ℕ × List ℕ) → ℤ × List ℕ × Option FatState
read_with f none = (pos 0, [], none)
read_with f (some (err e)) = (status e, [], some f)
read_with f (some (ok (n, out))) = (pos n, out, some f)

unfoldable pub open_call :
    ℕ → Option FatState → List (List ℕ) → FileMode → Result ℕ × Option FatState
unfolding open_with fat16_open
open_call fuel none path mode = (err einvarg, none)
open_call fuel (some f) path mode = elim f.fs_private [
  | none ↦ (err einvarg, none)
  | some p ↦ open_with f (fat16_open fuel f.drive p path mode)
]

unfoldable pub read_call : ℕ → Option FatState → ℕ → ℕ → ℕ → ℤ × List ℕ × Option FatState
unfolding read_with fat16_read descriptor_at
read_call fuel none desc size nmemb = (pos 0, [], none)
read_call fuel (some f) desc size nmemb = elim f.fs_private [
  | none ↦ (pos 0, [], none)
  | some p ↦ elim (descriptor_at f desc) [
    | none ↦ (pos 0, [], none)
    | some d ↦ read_with f (fat16_read fuel f.drive p d size nmemb)
  ]
]

unfoldable pub seek_call : Option FatState → ℕ → ℕ → ℕ → ℤ × Option FatState
unfolding fat16_seek descriptor_at int_of
seek_call none desc offset seek_mode = (pos 0, none)
seek_call (some f) desc offset seek_mode = elim (descriptor_at f desc) [
  | none ↦ (pos 0, none)
  | some d ↦
      let (res, d') = fat16_seek d offset seek_mode in
      (int_of res, some (record f { descriptors = set f.descriptors (desc - 1) (some d') }))
]

unfoldable pub stat_call : Option FatState → ℕ → ℤ × FileStat × Option FatState
unfolding fat16_stat descriptor_at no_stat
stat_call none desc = (pos 0, no_stat, none)
stat_call (some f) desc = elim (descriptor_at f desc) [
  | none ↦ (pos 0, no_stat, none)
  | some d ↦ elim (fat16_stat d) [
    | err e ↦ (status e, no_stat, some f)
    | ok stat ↦ (pos 0, stat, some f)
  ]
]

-- The result of fat16_free_file_descriptor is not looked at; a NULL descriptor is refused there.
unfoldable pub fat16_close : Option FatState → ℕ → ℤ × Option FatState
unfolding descriptor_at
fat16_close none desc = (pos 0, none)
fat16_close (some f) zero = (pos 0, some f)
fat16_close (some f) (suc i) = elim (descriptor_at f (suc i)) [
  | none ↦ (pos 0, none)
  | some _ ↦ (pos 0, some (record f { descriptors = set f.descriptors i none }))
]

unfoldable pub resolve_call : ℕ → Option FatState → ℤ × Option FatState
unfolding resolve_with fat16_resolve
resolve_call fuel none = (pos 0, none)
resolve_call fuel (some f) = resolve_with f (fat16_resolve fuel f.drive)

-- Fuel for the chains of clusters and the walks over directories.
abbrev pub fat16_fs : ℕ → Filesystem (Option FatState)
fat16_fs fuel = record {
  resolve = resolve_call fuel;
  open_file = open_call fuel;
  read = read_call fuel;
  seek = seek_call;
  stat = stat_call;
  close = fat16_close;
}
