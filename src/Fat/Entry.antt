-- ===== src/Fat/Entry.antt =====
-- Where src/fs/fat/fat16.c reads the entry of a cluster.
use alpha_os.Prelude.{ℕ, ◌+◌, ◌*◌, ◌%◌, ◌^◌, ◌≤◌, ◌<◌, ◌≡◌, ◌≢◌, ap, ap₂, ◌∙◌, some, ok, arith}
use alpha_os.Disk.{Drive}
use alpha_os.Disk.Ata.{IsAta, get_or-bytes}
use alpha_os.Fat.{FatPrivate, u16}
use alpha_os.Fat.Cluster.{get_fat_entry, fat_entry_position, get_first_fat_sector}
use alpha_os.Fat.Count.{read_at_lem}

module _ (drive : Drive) (medium : ℕ → ℕ) (ata : IsAta drive medium) (p : FatPrivate) where
  -- On a drive that answers as ATA says, with a reserved sector and below 2 GB, the entry of a
  -- cluster from 2 on is read at the product of the table's position and twice the cluster, which
  -- is not their sum.
  pub get_fat_entry_lem :
      (c : ℕ)
      → 1 ≤ p.header.reserved_sectors
      → 2 ≤ c
      → p.header.reserved_sectors * 512 * (c * 2) + 2 < 2 ^ 31
      → (get_fat_entry drive p c
          ≡ some (
              ok (
                medium (p.header.reserved_sectors * 512 * (c * 2))
                + medium (p.header.reserved_sectors * 512 * (c * 2) + 1) * 2 ^ 8)))
        × (p.header.reserved_sectors * 512 * (c * 2) ≢ p.header.reserved_sectors * 512 + c * 2)
  unfolding get_fat_entry fat_entry_position get_first_fat_sector u16
  get_fat_entry_lem c reserved above small =
      let pos = p.header.reserved_sectors * 512 * (c * 2) in
      let e : pos % 2 ^ 32 ≡ pos = omega arith in
      let e0 : pos + 0 ≡ pos = omega arith in
      let a : p.header.reserved_sectors * 512 * 4 ≤ pos = grind arith in
      let b : 512 * (c * 2) ≤ pos = grind arith in
      (
        rw (e, read_at_lem drive medium ata pos 2 small)
            (ap₂ (λ x y. some (ok (x + y * 2 ^ 8)))
              (get_or-bytes medium pos 2 0 (omega arith) ∙ ap medium e0)
              (get_or-bytes medium pos 2 1 (omega arith))),
        λ same. omega arith,
      )
