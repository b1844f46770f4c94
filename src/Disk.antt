-- ===== src/Disk.antt =====
-- src/disk/disk.c and src/disk/streamer.c: sectors read over the ports of the drive, and a stream of
-- bytes on them. The drive is a parameter: the words that the data port gives after a command. The
-- loop that waits for the drive to be ready is taken to end, and kzalloc to succeed.
pub mod Ata
pub mod Stream
mod Tests
use alpha_os.Prelude.{
  ℕ, zero, suc, ◌+◌, ◌-◌, ◌*◌, ◌/◌, ◌%◌, ◌^◌, Option, none, some, List, [], ◌∷◌, ◌++◌, ◌==◌, true,
  false, not, leb, if◌then◌else◌, get_or, Result, ok, err, eio, ◌>>=◌, bit_and, bit_or,
}

-- ALPHAOS_SECTOR_SIZE
abbrev pub sector_size : ℕ
sector_size = 512

-- What is written to the ports 0x1F6, 0x1F2, 0x1F3, 0x1F4 and 0x1F5.
pub record Command : Type 0 where
  pub drive_head : ℕ
  pub sector_count : ℕ
  pub lba_low : ℕ
  pub lba_mid : ℕ
  pub lba_high : ℕ

-- The i-th word at the data port after a command.
abbrev pub Drive : Type 0
Drive = Command → ℕ → ℕ

-- `outb` takes an unsigned char.
unfoldable pub read_command : ℕ → ℕ → Command
read_command lba total = record {
  drive_head = bit_or (lba / 2 ^ 24) 0xE0 % 2 ^ 8;
  sector_count = total % 2 ^ 8;
  lba_low = bit_and lba 0xFF;
  lba_mid = lba / 2 ^ 8 % 2 ^ 8;
  lba_high = lba / 2 ^ 16 % 2 ^ 8;
}

-- The inner loop: words from the k-th on, low byte first.
unfoldable pub word_loop : ℕ → ℕ → (ℕ → ℕ) → List ℕ
word_loop zero k word = []
word_loop (suc n) k word = word k % 2 ^ 8 ∷ word k / 2 ^ 8 ∷ word_loop n (k + 1) word

unfoldable pub block_loop : ℕ → ℕ → (ℕ → ℕ) → List ℕ
unfolding word_loop
block_loop zero k word = []
block_loop (suc b) k word = word_loop 256 k word ++ block_loop b (k + 256) word

-- What the buffer holds afterwards; the function returns 0.
unfoldable pub disk_read_sector : Drive → ℕ → ℕ → List ℕ
unfolding read_command block_loop
disk_read_sector drive lba total = block_loop total 0 (drive (read_command lba total))

-- Disks are named by numbers, the address of the one `disk` being 0; `none` is NULL.
unfoldable pub disk_get : ℕ → Option ℕ
disk_get index = if not (index == 0) then none else some 0

unfoldable pub disk_read_block : Drive → ℕ → ℕ → ℕ → Result (List ℕ)
unfolding disk_read_sector
disk_read_block drive idisk lba total =
    if not (idisk == 0) then err eio else ok (disk_read_sector drive lba total)

-- struct disk_stream
pub record DiskStream : Type 0 where
  pub pos : ℕ
  pub disk : ℕ

unfoldable pub diskstreamer_new : ℕ → Option DiskStream
unfolding disk_get
diskstreamer_new disk_id = do disk ← disk_get disk_id; some (record { pos = 0; disk = disk })

unfoldable pub diskstreamer_seek : DiskStream → ℕ → DiskStream
diskstreamer_seek stream pos = record stream { pos = pos }

unfoldable pub copy_loop : ℕ → List ℕ → ℕ → List ℕ
copy_loop zero buf i = []
copy_loop (suc n) buf i = get_or buf i 0 ∷ copy_loop n buf (i + 1)

-- The result, the bytes written to `out`, and the stream; `none` when the fuel, which bounds the
-- recursion, runs out.
unfoldable pub diskstreamer_read :
    ℕ → Drive → DiskStream → ℕ → Option (Result ℕ × List ℕ × DiskStream)
unfolding disk_read_block copy_loop
diskstreamer_read zero drive stream total = none
diskstreamer_read (suc fuel) drive stream total =
    let sector = stream.pos / sector_size in
    let offset = stream.pos % sector_size in
    let overflow = leb sector_size (offset + total) in
    let total_to_read = if overflow then total - (offset + total - sector_size) else total in
    elim (disk_read_block drive stream.disk sector 1) [
      | err e ↦ some (err e, [], stream)
      | ok buf ↦
          let out = copy_loop total_to_read buf offset in
          let stream' = record stream { pos = stream.pos + total_to_read } in
          elim overflow [
            | false ↦ some (ok 0, out, stream')
            | true ↦ do
              (res, more, stream'') ← diskstreamer_read fuel drive stream' (total - total_to_read)
              some (res, out ++ more, stream'')
          ]
    ]
