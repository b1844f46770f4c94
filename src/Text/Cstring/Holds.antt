-- ===== src/Text/Cstring/Holds.antt =====
-- A string of known bytes in memory.
use alpha_os.Prelude.{
  ℕ, zero, suc, ◌+◌, ◌^◌, ◌≤◌, ◌<◌, ◌≡◌, refl, sym, ap, ap₂, subst, ◌∙◌, List, [], ◌∷◌, length,
  take, Ram, offset, IsBytes, arith,
}
use native.Mathlib.Decide.{ℕ_discrete}
use alpha_os.Text.Cstring.Compare.{text}
use alpha_os.Text.Cstring.Copy.{text-cons, text-nil}

-- The string `xs`, with its NUL, stands at `p`, below the end of the address space.
abbrev pub Holds : Ram → ℕ → List ℕ → Type 0
Holds ram p [] = (0 < p) × (p < 2 ^ 32) × (ram p ≡ 0)
Holds ram p (c ∷ xs) = (0 < p) × (ram p ≡ c) × (0 < c) × (c < 256) × Holds ram (p + 1) xs

pub Holds-below :
    (ram : Ram) (p : ℕ) (xs : List ℕ) → Holds ram p xs → (0 < p) × (p + length xs < 2 ^ 32)
Holds-below ram p [] h = (h.0, omega (arith, h))
Holds-below ram p (c ∷ xs) h = let r = Holds-below ram (p + 1) xs h.4 in (h.0, omega (arith, r))

-- Memory that agrees on a string holds it.
pub Holds-same :
    (ram ram' : Ram) (p : ℕ) (xs : List ℕ)
    → ((a : ℕ) → p ≤ a → a ≤ p + length xs → ram' a ≡ ram a)
    → Holds ram p xs
    → Holds ram' p xs
Holds-same ram ram' p [] same h = (h.0, h.1, same p (omega arith) (omega arith) ∙ h.2)
Holds-same ram ram' p (c ∷ xs) same h = (
  h.0,
  same p (omega arith) (omega arith) ∙ h.1,
  h.2,
  h.3,
  Holds-same ram ram' (p + 1) xs (λ a l u. same a (omega arith) (omega arith)) h.4,
)

pub text-Holds :
    (n : ℕ) (ram : Ram) (p : ℕ) (xs : List ℕ) → Holds ram p xs → text ram p n ≡ take n xs
text-Holds zero ram p xs h = unfold text in refl
text-Holds (suc n) ram p [] h = text-nil (suc n) ram p h.2
text-Holds (suc n) ram p (c ∷ xs) h =
    let low = Holds-below ram p (c ∷ xs) h in
    let e : offset p 1 ≡ p + 1 = omega (arith, low) in
    text-cons n ram p (ground (arith, h.1, h.2))
    ∙ ap₂ (λ d ys. d ∷ ys) h.1 (rw e (text-Holds n ram (p + 1) xs h.4))

-- A text that is shorter than what it is looked for in ends with NUL.
pub Holds-text :
    (n : ℕ) (ram : Ram) (p : ℕ)
    → IsBytes ram
    → 0 < p
    → p + n < 2 ^ 32
    → length (text ram p n) < n
    → Holds ram p (text ram p n)
Holds-text zero ram p bytes low high short = absurd (omega arith)
Holds-text (suc n) ram p bytes low high short = elim (ℕ_discrete (ram p) 0) [
  | yes z ↦ subst (Holds ram p) (sym (text-nil (suc n) ram p z)) (low, omega arith, z)
  | no nz ↦
      let e : offset p 1 ≡ p + 1 = omega arith in
      let cons : text ram p (suc n) ≡ ram p ∷ text ram (p + 1) n =
        text-cons n ram p nz ∙ ap (λ q. ram p ∷ text ram q n) e in
      subst (Holds ram p) (sym cons) (
        low,
        refl,
        omega (arith, nz),
        bytes p,
        Holds-text n ram (p + 1) bytes (omega arith) (omega arith)
            (omega (arith, short, ap length cons)),
      )
]
