-- ===== src/Fat/Seek.antt =====
-- Positions in open files.
use alpha_os.Prelude.{
  ℕ, ◌+◌, ◌%◌, ◌^◌, ◌≤◌, ◌<◌, ◌≡◌, refl, ok, err, eio, List, arith, leb, true, false,
}
use alpha_os.Fat.{file, file_size}
use alpha_os.Fat.Files.{fat16_seek}

-- A seek to `a` inside a file and then one by `b` from there, of which the sum is past the end but `b`
-- is less than the size, both succeed and leave the position past the end, where a seek from the start
-- is refused and leaves it.
pub fat16_seek_past_end :
    (item : List ℕ) (pos a b : ℕ)
    → a < file_size item
    → b < file_size item
    → file_size item ≤ a + b
    → a + b < 2 ^ 32
    → (fat16_seek (record { item = file item; pos = pos }) a 0
        ≡ (ok 0, record { item = file item; pos = a }))
      × (fat16_seek (record { item = file item; pos = a }) b 1
          ≡ (ok 0, record { item = file item; pos = a + b }))
      × (fat16_seek (record { item = file item; pos = a + b }) (a + b) 0
          ≡ (err eio, record { item = file item; pos = a + b }))
unfolding fat16_seek
fat16_seek_past_end item pos a b ha hb past small =
    let e : leb (file_size item) a ≡ false = ground arith in
    let e' : leb (file_size item) b ≡ false = ground arith in
    let e'' : leb (file_size item) (a + b) ≡ true = ground arith in
    let w : (a + b) % 2 ^ 32 ≡ a + b = omega arith in
    (rw (fat16_seek, e) refl, rw (fat16_seek, e', w) refl, rw (fat16_seek, e'') refl)
