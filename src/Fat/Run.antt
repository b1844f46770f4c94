-- ===== src/Fat/Run.antt =====
-- Runs of the filesystem's functions: `none` is a read of a negative position, a use of freed memory
-- or of memory outside an object; a run that ends has a value or an error.
use alpha_os.Prelude.{ℕ, ◌+◌, ◌^◌, ltb, if◌then◌else◌, Option, none, some, List, Result, ok, err}
use alpha_os.Disk.{Drive, DiskStream, diskstreamer_seek, diskstreamer_read}

abbrev pub Run {ℓ} : Type ℓ → Type ℓ
Run A = Option (Result A)

infixl 5 ◌>>=◌ ◌>>◌
abbrev pub ◌>>=◌ {ℓ κ} : {A : Type ℓ} {B : Type κ} → Run A → (A → Run B) → Run B
none >>= f = none
some (err e) >>= f = some (err e)
some (ok a) >>= f = f a

abbrev pub ◌>>◌ {ℓ κ} : {A : Type ℓ} {B : Type κ} → Run A → Run B → Run B
m >> k = m >>= λ _. k

abbrev pub stream : DiskStream
stream = record { pos = 0; disk = 0 }

-- What a read of the stream gives: its bytes.
unfoldable pub read_bytes : Option (Result ℕ × List ℕ × DiskStream) → Run (List ℕ)
read_bytes none = none
read_bytes (some (err e, out, s)) = some (err e)
read_bytes (some (ok n, out, s)) = some (ok out)

-- A seek and a read. A position is an `int`, so that from 2 ^ 31 on it is negative.
unfoldable pub read_at : Drive → ℕ → ℕ → Run (List ℕ)
unfolding read_bytes diskstreamer_seek
read_at drive pos total =
    if ltb pos (2 ^ 31)
    then read_bytes (diskstreamer_read (total + 1) drive (diskstreamer_seek stream pos) total)
    else none
