-- ===== src/Disk/Ata.antt =====
-- Reading sectors from a drive that answers as ATA says.
use alpha_os.Prelude.{
  ℕ, zero, suc, ◌+◌, ◌*◌, ◌/◌, ◌%◌, ◌^◌, ◌<◌, ◌≡◌, refl, ap, ap₂, ◌∙◌, List, [], ◌∷◌, ◌++◌, get_or,
  bit_or, bit_and-low_mask, bit_or_comm, bit_or-shifted, arith,
}
use alpha_os.Disk.{Command, Drive, read_command, word_loop, block_loop, disk_read_sector}

-- The bytes of a medium from `start` on.
unfoldable pub bytes : (ℕ → ℕ) → ℕ → ℕ → List ℕ
bytes medium start zero = []
bytes medium start (suc n) = medium start ∷ bytes medium (start + 1) n

-- The 28-bit sector number of a command.
abbrev pub lba28 : Command → ℕ
lba28 c = c.drive_head % 16 * 2 ^ 24 + c.lba_high * 2 ^ 16 + c.lba_mid * 2 ^ 8 + c.lba_low

-- The bit of the drive register that says that the sector is given by its number.
abbrev pub lba_bit : Command → ℕ
lba_bit c = c.drive_head / 2 ^ 6 % 2

-- A drive over a medium gives the words of the sectors that a command with that bit asks for.
pub record IsAta (drive : Drive) (medium : ℕ → ℕ) : Type 0 where
  pub byte : (i : ℕ) → medium i < 256
  pub words :
      (c : Command) (i : ℕ)
      → lba_bit c ≡ 1
      → i < c.sector_count * 256
      → drive c i ≡ medium (lba28 c * 512 + 2 * i) + medium (lba28 c * 512 + 2 * i + 1) * 256

pub bytes_append : (f : ℕ → ℕ) (s a b : ℕ) → bytes f s a ++ bytes f (s + a) b ≡ bytes f s (a + b)
unfolding bytes
bytes_append f s zero b =
    let e : s + 0 ≡ s = omega arith in let e' : 0 + b ≡ b = omega arith in rw (e, e') refl
bytes_append f s (suc a) b =
    let e : s + suc a ≡ s + 1 + a = omega arith in
    let e' : suc a + b ≡ suc (a + b) = omega arith in
    rw (e, e') (ap (◌∷◌ (f s)) (bytes_append f (s + 1) a b))

pub get_or-bytes : (f : ℕ → ℕ) (s m o : ℕ) → o < m → get_or (bytes f s m) o 0 ≡ f (s + o)
unfolding bytes
get_or-bytes f s zero o h = absurd (omega arith)
get_or-bytes f s (suc m) zero h = ap f (omega arith)
get_or-bytes f s (suc m) (suc o) h = get_or-bytes f (s + 1) m o (omega arith) ∙ ap f (omega arith)

drive_head_low : (a : ℕ) → a < 16 → bit_or a 0xE0 % 2 ^ 8 % 16 ≡ a
drive_head_low a h =
    let e : 0xE0 ≡ 14 * 2 ^ 4 = refl in omega (arith, bit_or_comm a 0xE0, bit_or-shifted 4 14 a h)

-- The registers hold the sector's number as long as it has 28 bits.
lba28-read_command : (lba total : ℕ) → lba < 2 ^ 28 → lba28 (read_command lba total) ≡ lba
unfolding read_command
lba28-read_command lba total h =
    omega (arith, drive_head_low (lba / 2 ^ 24) (omega arith), bit_and-low_mask 8 lba)

lba_bit-read_command : (lba total : ℕ) → lba < 2 ^ 28 → lba_bit (read_command lba total) ≡ 1
unfolding read_command
lba_bit-read_command lba total h =
    let e : 0xE0 ≡ 14 * 2 ^ 4 = refl in
    omega (arith, bit_or_comm (lba / 2 ^ 24) 0xE0, bit_or-shifted 4 14 (lba / 2 ^ 24) (omega arith))

count :
    (lba total i : ℕ)
    → total < 256
    → i < 0 + total * 256
    → i < (read_command lba total).sector_count * 256
unfolding read_command
count lba total i few h = omega arith

word_loop_lem :
    (f word : ℕ → ℕ) (s n k : ℕ)
    → ((i : ℕ) → f i < 256)
    → ((i : ℕ) → i < k + n → word i ≡ f (s + 2 * i) + f (s + 2 * i + 1) * 256)
    → word_loop n k word ≡ bytes f (s + 2 * k) (2 * n)
unfolding word_loop bytes
word_loop_lem f word s zero k byte h = refl
word_loop_lem f word s (suc n) k byte h =
    let e : 2 * suc n ≡ suc (suc (2 * n)) = omega arith in
    let e1 : word k % 2 ^ 8 ≡ f (s + 2 * k) = omega (arith, h k (omega arith), byte (s + 2 * k)) in
    let e2 : word k / 2 ^ 8 ≡ f (s + 2 * k + 1) =
      omega (arith, h k (omega arith), byte (s + 2 * k)) in
    let e3 : s + 2 * (k + 1) ≡ s + 2 * k + 1 + 1 = omega arith in
    let ih = word_loop_lem f word s n (k + 1) byte (λ i lt. h i (omega arith)) in
    rw (e, e1, e2) (ap (λ bs. f (s + 2 * k) ∷ f (s + 2 * k + 1) ∷ bs) (rw e3 at ih))

block_loop_lem :
    (f word : ℕ → ℕ) (s b k : ℕ)
    → ((i : ℕ) → f i < 256)
    → ((i : ℕ) → i < k + b * 256 → word i ≡ f (s + 2 * i) + f (s + 2 * i + 1) * 256)
    → block_loop b k word ≡ bytes f (s + 2 * k) (512 * b)
unfolding block_loop bytes
block_loop_lem f word s zero k byte h = refl
block_loop_lem f word s (suc b) k byte h =
    let e : s + 2 * (k + 256) ≡ s + 2 * k + 2 * 256 = omega arith in
    let e' : 2 * 256 + 512 * b ≡ 512 * suc b = omega arith in
    let ih = block_loop_lem f word s b (k + 256) byte (λ i lt. h i (omega arith)) in
    ap₂ (λ xs ys. xs ++ ys) (word_loop_lem f word s 256 k byte (λ i lt. h i (omega arith)))
      (ih ∙ ap (λ t. bytes f t (512 * b)) e)
    ∙ bytes_append f (s + 2 * k) (2 * 256) (512 * b)
    ∙ ap (bytes f (s + 2 * k)) e'

-- At most 255 sectors, within the 28 bits of a sector's number, are read as they stand on the medium.
pub disk_read_sector_lem :
    (drive : Drive) (medium : ℕ → ℕ) (lba total : ℕ)
    → IsAta drive medium
    → lba < 2 ^ 28
    → total < 256
    → disk_read_sector drive lba total ≡ bytes medium (lba * 512) (512 * total)
unfolding disk_read_sector
disk_read_sector_lem drive medium lba total ata h few =
    let e : lba * 512 + 2 * 0 ≡ lba * 512 = omega arith in
    block_loop_lem medium (drive (read_command lba total)) (lba * 512) total 0 ata.byte (λ i lt.
      let w =
        ata.words (read_command lba total) i (lba_bit-read_command lba total h)
          (count lba total i few lt) in
      rw (lba28-read_command lba total h) at w)
    ∙ ap (λ t. bytes medium t (512 * total)) e
