-- ===== src/Prelude/Status.antt =====
-- `status.h`, and an `int` result that is a value or a negated status code.
use mathlib.Core.Path.{◌≡◌}
use native.Mathlib.Omega.{arith}
use mathlib.Core.Option.{Option, none, some}

pub data Errno : Type 0 where
  eio einvarg enomem ebadpath efsnotus erdonly eunimp eistkn einformat : Errno

-- `err e` is the negative return `-e`.
pub data Result {ℓ} (A : Type ℓ) : Type ℓ where
  ok : A → Result A
  err : Errno → Result A

-- `none` is an access outside the modelled memory, which C leaves undefined, or a `panic`.
infixl 5 ◌>>=◌ ◌>>◌
abbrev pub ◌>>=◌ {ℓ κ} : {A : Type ℓ} {B : Type κ} → Option A → (A → Option B) → Option B
none >>= f = none
some a >>= f = f a

abbrev pub ◌>>◌ {ℓ κ} : {A : Type ℓ} {B : Type κ} → Option A → Option B → Option B
m >> k = m >>= λ _. k

-- What holds of every result of the rest of a run holds of the result.
pub bind-all {ℓ κ μ} :
    {A : Type ℓ} {B : Type κ} (Q : B → Type μ) (m : Option A) (f : A → Option B) (b : B)
    → ((a : A) → f a ≡ some b → Q b)
    → (m >>= f) ≡ some b
    → Q b
bind-all Q none f b h e = ground arith
bind-all Q (some a) f b h e = h a e
