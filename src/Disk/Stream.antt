-- ===== src/Disk/Stream.antt =====
-- src/disk/streamer.c: a read of the stream gives the bytes of the medium at its position.
use alpha_os.Prelude.{
  ℕ, zero, suc, ◌+◌, ◌-◌, ◌*◌, ◌/◌, ◌%◌, ◌^◌, ◌≤◌, ◌<◌, ◌≡◌, refl, ap, ap₂, ◌∙◌, some, ◌∷◌, ◌++◌,
  arith, ok, leb, ◌>>=◌, true,
}
use native.Mathlib.Decide.{dec_le}
use alpha_os.Disk.{Drive, copy_loop, diskstreamer_read, disk_read_block, disk_read_sector}
use alpha_os.Disk.Ata.{IsAta, bytes, bytes_append, get_or-bytes, disk_read_sector_lem}

copy_loop-bytes :
    (f : ℕ → ℕ) (s m n o : ℕ) → o + n ≤ m → copy_loop n (bytes f s m) o ≡ bytes f (s + o) n
unfolding copy_loop bytes
copy_loop-bytes f s m zero o h = refl
copy_loop-bytes f s m (suc n) o h =
    let e : s + (o + 1) ≡ s + o + 1 = omega arith in
    ap₂ ◌∷◌ (get_or-bytes f s m o (omega arith))
      (copy_loop-bytes f s m n (o + 1) (omega arith) ∙ ap (λ t. bytes f t n) e)

-- The branches of one call.
step-inside :
    (fuel : ℕ) (drive : Drive) (pos total : ℕ)
    → pos % 512 + total < 512
    → diskstreamer_read (suc fuel) drive (record { pos = pos; disk = 0 }) total
      ≡ some (
        ok 0,
        copy_loop total (disk_read_sector drive (pos / 512) 1) (pos % 512),
        record { pos = pos + total; disk = 0 },
      )
unfolding diskstreamer_read disk_read_block
step-inside fuel drive pos total h = ground arith

step-across :
    (fuel : ℕ) (drive : Drive) (pos total n : ℕ)
    → 512 ≤ pos % 512 + total
    → n ≡ 512 - pos % 512
    → diskstreamer_read (suc fuel) drive (record { pos = pos; disk = 0 }) total ≡ (do
      (res, more, stream) ←
          diskstreamer_read fuel drive (record { pos = pos + n; disk = 0 }) (total - n)
      some (res, copy_loop n (disk_read_sector drive (pos / 512) 1) (pos % 512) ++ more, stream))
unfolding diskstreamer_read disk_read_block
step-across fuel drive pos total n h e =
    let e1 : leb 512 (pos % 512 + total) ≡ true = ground arith in
    let e2 : total - (pos % 512 + total - 512) ≡ n = omega arith in ground (arith, e1, e2)

module _ (drive : Drive) (medium : ℕ → ℕ) (ata : IsAta drive medium) where
  read_one :
      (pos n : ℕ)
      → pos % 512 + n ≤ 512
      → pos + n < 2 ^ 31
      → copy_loop n (disk_read_sector drive (pos / 512) 1) (pos % 512) ≡ bytes medium pos n
  read_one pos n h small =
      let e : pos / 512 * 512 + pos % 512 ≡ pos = omega arith in
      ap (λ buf. copy_loop n buf (pos % 512))
        (disk_read_sector_lem drive medium (pos / 512) 1 ata (omega arith) (omega arith))
      ∙ copy_loop-bytes medium (pos / 512 * 512) 512 n (pos % 512) h
      ∙ ap (λ t. bytes medium t n) e

  -- A read of `total` bytes gives the bytes of the medium at the stream's position, across sectors,
  -- and moves the stream behind them; fuel of more than `total` is enough.
  pub diskstreamer_read_lem :
      (fuel pos total : ℕ)
      → total < fuel
      → pos + total < 2 ^ 31
      → diskstreamer_read fuel drive (record { pos = pos; disk = 0 }) total
        ≡ some (ok 0, bytes medium pos total, record { pos = pos + total; disk = 0 })
  unfolding diskstreamer_read
  diskstreamer_read_lem zero pos total h small = absurd (omega arith)
  diskstreamer_read_lem (suc fuel) pos total h small = elim (dec_le 512 (pos % 512 + total)) [
    | no inside ↦
        step-inside fuel drive pos total (omega arith)
        ∙ ap (λ out. some (ok 0, out, record { pos = pos + total; disk = 0 }))
            (read_one pos total (omega arith) small)
    | yes across ↦
        let n = 512 - pos % 512 in
        let ih = diskstreamer_read_lem fuel (pos + n) (total - n) (omega arith) (omega arith) in
        let e : pos + n + (total - n) ≡ pos + total = omega arith in
        let e' : n + (total - n) ≡ total = omega arith in
        step-across fuel drive pos total n across refl
        ∙ rw
            (
              ih,
              read_one pos n (omega arith) (omega arith),
              bytes_append medium pos n (total - n),
              e,
              e',
            )
            refl
  ]
