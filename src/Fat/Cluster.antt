-- ===== src/Fat/Cluster.antt =====
-- Clusters: their place on the disk, the file allocation table, and reads along a chain.
use alpha_os.Prelude.{
  ℕ, zero, suc, ◌+◌, ◌*◌, ◌-◌, ◌/◌, ◌%◌, ◌^◌, Bool, true, false, ◌||◌, Option, none, some, List,
  ◌++◌, ◌==◌, ltb, if◌then◌else◌, ok, err, eio, bit_or, min,
}
use alpha_os.Disk.{Drive, sector_size}
use alpha_os.Fat.{FatPrivate, u16, high_16_bits_first_cluster, low_16_bits_first_cluster}
use alpha_os.Fat.Run.{Run, ◌>>=◌, read_at}

unfoldable pub sector_to_absolute : ℕ → ℕ
sector_to_absolute sector = sector * sector_size

unfoldable pub get_first_cluster : List ℕ → ℕ
unfolding high_16_bits_first_cluster low_16_bits_first_cluster
get_first_cluster item = bit_or (high_16_bits_first_cluster item) (low_16_bits_first_cluster item)

-- `none` is a negative sector.
unfoldable pub cluster_to_sector : FatPrivate → ℕ → Option ℕ
cluster_to_sector p cluster =
    let per_cluster = p.header.sectors_per_cluster in
    let sector = p.root_directory.ending_sector_pos + cluster * per_cluster in
    if ltb sector (2 * per_cluster) then none else some (sector - 2 * per_cluster)

unfoldable pub get_first_fat_sector : FatPrivate → ℕ
get_first_fat_sector p = p.header.reserved_sectors

-- The position in the table is a product in the source.
unfoldable pub fat_entry_position : FatPrivate → ℕ → ℕ
unfolding get_first_fat_sector
fat_entry_position p cluster = get_first_fat_sector p * sector_size * (cluster * 2) % 2 ^ 32

unfoldable pub get_fat_entry : Drive → FatPrivate → ℕ → Run ℕ
unfolding fat_entry_position u16 read_at
get_fat_entry drive p cluster = do
  bytes ← read_at drive (fat_entry_position p cluster) 2
  some (ok (u16 bytes 0))

-- The entries at which the chain does not go on.
unfoldable pub ends_chain : ℕ → Bool
ends_chain entry =
    entry == 0xFF8
    || entry == 0xFFF
    || entry == 0xFF7
    || entry == 0xFF0
    || entry == 0xFF6
    || entry == 0

unfoldable pub cluster_loop : Drive → FatPrivate → ℕ → ℕ → Run ℕ
unfolding get_fat_entry ends_chain
cluster_loop drive p zero cluster = some (ok cluster)
cluster_loop drive p (suc ahead) cluster = get_fat_entry drive p cluster >>= λ entry.
    elim (ends_chain entry) [ true ↦ some (err eio) | false ↦ cluster_loop drive p ahead entry ]

unfoldable pub cluster_bytes : FatPrivate → ℕ
cluster_bytes p = p.header.sectors_per_cluster * sector_size

-- `none` also for a cluster of no sectors, by which the source divides.
unfoldable pub get_cluster_for_offset : Drive → FatPrivate → ℕ → ℕ → Run ℕ
unfolding cluster_loop cluster_bytes
get_cluster_for_offset drive p starting_cluster offset =
    if cluster_bytes p == 0
    then none
    else cluster_loop drive p (offset / cluster_bytes p) starting_cluster

-- The bytes written to `out`; fuel bounds the recursion, `none` when it runs out.
unfoldable pub read_internal : ℕ → Drive → FatPrivate → ℕ → ℕ → ℕ → Run (List ℕ)
unfolding get_cluster_for_offset cluster_to_sector sector_to_absolute
read_internal zero drive p cluster offset total = none
read_internal (suc fuel) drive p cluster offset total = do
  cluster_to_use ← get_cluster_for_offset drive p cluster offset
  starting_sector ← elim (cluster_to_sector p cluster_to_use) [ none ↦ none | some s ↦ some (ok s) ]
  let total_to_read = min total (cluster_bytes p)
  out ← read_at drive (sector_to_absolute starting_sector + offset % cluster_bytes p) total_to_read
  elim (total - total_to_read) [
    | zero ↦ some (ok out)
    | suc left ↦ read_internal fuel drive p cluster (offset + total_to_read) (suc left) >>= λ more.
        some (ok (out ++ more))
  ]
