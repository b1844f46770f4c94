-- ===== src/Fat/Count.antt =====
-- Counting the items of a directory, and a read at a position, on a drive that answers as ATA says.
use alpha_os.Prelude.{
  ℕ, zero, suc, ◌+◌, ◌*◌, ◌^◌, ◌<◌, ◌≡◌, ◌≢◌, refl, ap, ◌∙◌, true, false, some, ◌==◌, ltb,
  if◌then◌else◌, ok, arith,
}
use alpha_os.Disk.{Drive, diskstreamer_seek}
use alpha_os.Disk.Ata.{IsAta, bytes, get_or-bytes}
use alpha_os.Disk.Stream.{diskstreamer_read_lem}
use alpha_os.Fat.{first_byte}
use alpha_os.Fat.Run.{read_at, read_bytes}
use alpha_os.Fat.Directory.{total_items_loop, get_total_items_for_directory}

-- The items among the first `n` from position `p` on that are not deleted.
unfoldable pub used : (ℕ → ℕ) → ℕ → ℕ → ℕ
used medium p zero = 0
used medium p (suc n) = (if medium p == 0xE5 then 0 else 1) + used medium (p + 32) n

module _ (drive : Drive) (medium : ℕ → ℕ) (ata : IsAta drive medium) where
  pub read_at_lem :
      (pos total : ℕ)
      → pos + total < 2 ^ 31
      → read_at drive pos total ≡ some (ok (bytes medium pos total))
  unfolding read_at read_bytes diskstreamer_seek
  read_at_lem pos total h =
      let e : ltb pos (2 ^ 31) ≡ true = ground arith in
      rw (e, diskstreamer_read_lem drive medium ata (total + 1) pos total (omega arith) h) refl

  first_byte-bytes : (p : ℕ) → first_byte (bytes medium p 32) ≡ medium p
  unfolding first_byte
  first_byte-bytes p = get_or-bytes medium p 32 0 (omega arith) ∙ ap medium (omega arith)

  -- One round of the walk.
  loop-end :
      (fuel p i : ℕ)
      → p + 32 < 2 ^ 31
      → medium p ≡ 0
      → total_items_loop (suc fuel) drive (record { pos = p; disk = 0 }) i ≡ some (ok i)
  unfolding total_items_loop
  loop-end fuel p i h e =
      rw
        (
          diskstreamer_read_lem drive medium ata 33 p 32 (omega arith) h,
          total_items_loop,
          first_byte-bytes p,
          e,
        )
        refl

  loop-step :
      (fuel p i : ℕ)
      → p + 32 < 2 ^ 31
      → medium p ≢ 0
      → total_items_loop (suc fuel) drive (record { pos = p; disk = 0 }) i
        ≡ total_items_loop fuel drive
            (record { pos = p + 32; disk = 0 })
            (if medium p == 0xE5 then i else i + 1)
  unfolding total_items_loop bytes
  loop-step fuel p i h n =
      let e : (medium p == 0) ≡ false = ground arith in
      rw
        (
          diskstreamer_read_lem drive medium ata 33 p 32 (omega arith) h,
          total_items_loop,
          first_byte-bytes p,
          e,
        )
        refl

  total_items_loop_lem :
      (n fuel p i : ℕ)
      → p + 32 * suc n < 2 ^ 31
      → ((k : ℕ) → k < n → medium (p + 32 * k) ≢ 0)
      → medium (p + 32 * n) ≡ 0
      → n < fuel
      → total_items_loop fuel drive (record { pos = p; disk = 0 }) i
        ≡ some (ok (i + used medium p n))
  unfolding used
  total_items_loop_lem zero (suc fuel) p i h full e lt =
      loop-end fuel p i (omega arith) (ap medium (omega arith) ∙ e)
      ∙ ap (λ j. some (ok j)) (omega arith)
  total_items_loop_lem n zero p i h full e lt = absurd (omega arith)
  total_items_loop_lem (suc n) (suc fuel) p i h full e lt =
      loop-step fuel p i (omega arith) (λ z. full 0 (omega arith) (ap medium (omega arith) ∙ z))
      ∙ total_items_loop_lem n fuel (p + 32) (if medium p == 0xE5 then i else i + 1) (omega arith)
          (λ k lt' z. full (suc k) (omega arith) (ap medium (omega arith) ∙ z))
          (ap medium (omega arith) ∙ e) (omega arith)
      ∙ ap (λ j. some (ok j)) (ground arith)

  -- On a drive that answers as ATA says, for a directory below 2 GB whose first n items are in use
  -- or deleted and whose next item begins with NUL, the walk ends with the number of those that are
  -- not deleted; fuel above n is enough.
  pub get_total_items_lem :
      (fuel sector n : ℕ)
      → sector * 512 + 32 * suc n < 2 ^ 31
      → ((k : ℕ) → k < n → medium (sector * 512 + 32 * k) ≢ 0)
      → medium (sector * 512 + 32 * n) ≡ 0
      → n < fuel
      → get_total_items_for_directory fuel drive sector ≡ some (ok (used medium (sector * 512) n))
  unfolding get_total_items_for_directory diskstreamer_seek
  get_total_items_lem fuel sector n h full e lt =
      total_items_loop_lem n fuel (sector * 512) 0 h full e lt ∙ ap (λ j. some (ok j)) (omega arith)
