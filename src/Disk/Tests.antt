-- ===== src/Disk/Tests.antt =====
-- A drive over a small pattern.
use alpha_os.Prelude.{ℕ, ◌+◌, ◌*◌, ◌%◌, ◌≡◌, refl, some, [], ◌∷◌, ok, arith}
use alpha_os.Disk.{
  Drive, diskstreamer_read, disk_read_sector, read_command, block_loop, word_loop, disk_read_block,
  copy_loop,
}
use alpha_os.Disk.Ata.{IsAta, bytes, lba28}
use alpha_os.Disk.Stream.{diskstreamer_read_lem}

abbrev medium : ℕ → ℕ
medium i = i % 251

abbrev drive : Drive
drive c i = medium (lba28 c * 512 + 2 * i) + medium (lba28 c * 512 + 2 * i + 1) * 256

drive-IsAta : IsAta drive medium
drive-IsAta = record { byte = λ i. omega arith; words = λ c i b h. refl }

-- Across the end of the first sector.
read_across :
    diskstreamer_read 2 drive (record { pos = 510; disk = 0 }) 4
    ≡ some (ok 0, 8 ∷ 9 ∷ 10 ∷ 11 ∷ [], record { pos = 514; disk = 0 })
unfolding diskstreamer_read disk_read_block disk_read_sector read_command block_loop word_loop
    copy_loop
read_across = refl

diskstreamer_read_example :
    diskstreamer_read 2001 drive (record { pos = 1000; disk = 0 }) 2000
    ≡ some (ok 0, bytes medium 1000 2000, record { pos = 3000; disk = 0 })
diskstreamer_read_example =
    diskstreamer_read_lem drive medium drive-IsAta 2001 1000 2000 (omega arith) (omega arith)
