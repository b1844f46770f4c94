-- ===== src/Task/Links.antt =====
-- The list of tasks as a list of addresses.
use alpha_os.Prelude.{
  ℕ, ◌≡◌, ◌≢◌, refl, sym, some-injective, ap, ◌∙◌, Option, some, List, [], ◌∷◌, ◌++◌, All, arith,
}
use alpha_os.Task.{Tasks, Task, put}

abbrev pub first : List ℕ → ℕ
first [] = 0
first (a ∷ ps) = a

-- From behind `p`, the tasks at the addresses point to one another, and the last to NULL.
abbrev pub Linked : (ℕ → Option Task) → ℕ → List ℕ → Type 0
Linked store p [] = Unit
Linked store p (a ∷ ps) =
    (t : Task) × (store a ≡ some t)
    × (t.prev ≡ p)
    × (t.next ≡ first ps)
    × (a ≢ 0)
    × Linked store a ps

abbrev pub last : ℕ → List ℕ → ℕ
last p [] = p
last p (a ∷ ps) = last a ps

abbrev pub Distinct : List ℕ → Type 0
Distinct [] = Unit
Distinct (a ∷ ps) = All (λ b. b ≢ a) ps × Distinct ps

-- The tasks are those at `ps`, in this order, which are distinct.
pub record IsQueue (s : Tasks) (ps : List ℕ) : Type 0 where
  pub linked : Linked s.store 0 ps
  pub head : s.task_head ≡ first ps
  pub tail : s.task_tail ≡ last 0 ps
  pub distinct : Distinct ps

-- A write elsewhere leaves the links.
pub Linked-put :
    (store : ℕ → Option Task) (p q : ℕ) (t : Option Task) (ps : List ℕ)
    → All (λ a. a ≢ q) ps
    → Linked store p ps
    → Linked (put store q t) p ps
unfolding put
Linked-put store p q t [] h l = tt
Linked-put store p q t (a ∷ ps) h (u, e, prev, next, nz, l) =
    (u, ground arith, prev, next, nz, Linked-put store a q t ps h.1 l)

pub last-All : (P : ℕ → Type 0) (a : ℕ) (ps : List ℕ) → P a → All P ps → P (last a ps)
last-All P a [] h hs = h
last-All P a (b ∷ ps) h hs = last-All P b ps hs.0 hs.1

-- The task at the end of the links.
pub Linked-last :
    (store : ℕ → Option Task) (p a : ℕ) (ps : List ℕ)
    → Linked store p (a ∷ ps)
    → (u : Task) × (store (last a ps) ≡ some u)
Linked-last store p a [] l = (l.0, l.1)
Linked-last store p a (b ∷ ps) l = Linked-last store a b ps l.5

-- The links go on by a task `q` when the last of them points to it and it points back.
pub Linked-snoc :
    (store store' : ℕ → Option Task) (p a q : ℕ) (ps : List ℕ) (u t : Task)
    → Linked store p (a ∷ ps)
    → Distinct (a ∷ ps)
    → All (λ b. b ≢ q) (a ∷ ps)
    → q ≢ 0
    → store (last a ps) ≡ some u
    → store' (last a ps) ≡ some (record u { next = q })
    → store' q ≡ some t
    → t.prev ≡ last a ps
    → t.next ≡ 0
    → ((r : ℕ) → r ≢ last a ps → r ≢ q → store' r ≡ store r)
    → Linked store' p (a ∷ (ps ++ q ∷ []))
Linked-snoc store store' p a q [] u t (v, e, prev, next, nz, l) d out qz el el' eq tp tn same =
    let uv : u ≡ v = some-injective _ _ (sym el ∙ e) in
    (
      record u { next = q },
      el',
      ap (λ (w : Task). w.prev) uv ∙ prev,
      refl,
      nz,
      (t, eq, tp, tn, qz, tt),
    )
Linked-snoc store store' p a q (b ∷ ps) u t (v, e, prev, next, nz, l) d out qz el el' eq tp tn
      same =
    (
      v,
      same a (λ h. last-All (λ b'. b' ≢ a) b ps d.0.0 d.0.1 (sym h)) out.0 ∙ e,
      prev,
      next,
      nz,
      Linked-snoc store store' a b q ps u t l d.1 out.1 qz el el' eq tp tn same,
    )
