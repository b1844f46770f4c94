-- ===== src/Text/Cstring/Terminated.antt =====
-- A text of fewer bytes than were looked at is a string: strlen finds its end.
use alpha_os.Prelude.{
  ℕ, zero, suc, ◌+◌, ◌^◌, ◌<◌, ◌≡◌, ◌≢◌, refl, sym, ap, subst, ◌∙◌, some, ◌∷◌, length, Ram, offset,
  arith,
}
use native.Mathlib.Decide.{ℕ_discrete}
use alpha_os.Text.Cstring.{strlen}
use alpha_os.Text.Cstring.Compare.{text}
use alpha_os.Text.Cstring.Copy.{text-cons, text-nil}
use alpha_os.Text.Cstring.Length.{IsString, strlen_lem}

IsString-cons :
    (ram : Ram) (p n : ℕ)
    → p + suc n < 2 ^ 32
    → ram p ≢ 0
    → IsString ram (p + 1) n
    → IsString ram p (suc n)
IsString-cons ram p n h ne s = record {
  chars = λ i k.
      elim i as (λ j. j < suc n → ram (offset p j) ≢ 0) [
        | zero ↦ λ k0. subst (λ q. ram q ≢ 0) (omega arith) ne
        | suc j ↦ λ k1. subst (λ q. ram q ≢ 0) (omega arith) (s.chars j (omega arith))
      ]
        k;
  ends = ap ram (omega arith) ∙ s.ends;
}

pub text-IsString :
    (n : ℕ) (ram : Ram) (p : ℕ)
    → p + n < 2 ^ 32
    → length (text ram p n) < n
    → IsString ram p (length (text ram p n))
text-IsString zero ram p h short = absurd (omega arith)
text-IsString (suc n) ram p h short = elim (ℕ_discrete (ram p) 0) [
  | yes z ↦
      subst (λ xs. IsString ram p (length xs)) (sym (text-nil (suc n) ram p z))
        (record { chars = λ i k. absurd (omega arith); ends = ap ram (omega arith) ∙ z })
  | no ne ↦
      let e : offset p 1 ≡ p + 1 = omega arith in
      let cons : text ram p (suc n) ≡ ram p ∷ text ram (p + 1) n =
        text-cons n ram p ne ∙ ap (λ q. ram p ∷ text ram q n) e in
      subst (λ xs. IsString ram p (length xs)) (sym cons)
        (IsString-cons ram p (length (text ram (p + 1) n)) (omega (arith, short, ap length cons)) ne
          (text-IsString n ram (p + 1) (omega arith) (omega (arith, short, ap length cons))))
]

-- Where a text ends before the `n` bytes do, strlen is its length, with fuel above it.
pub strlen-text :
    (fuel n : ℕ) (ram : Ram) (p : ℕ)
    → p + n < 2 ^ 32
    → length (text ram p n) < n
    → length (text ram p n) < fuel
    → strlen fuel ram p ≡ some (length (text ram p n))
strlen-text fuel n ram p h short enough =
    strlen_lem fuel ram p (length (text ram p n)) (text-IsString n ram p h short) enough

pub text-whole : (n : ℕ) (ram : Ram) (p : ℕ) → text ram p (length (text ram p n)) ≡ text ram p n
text-whole zero ram p = unfold text in refl
text-whole (suc n) ram p = elim (ℕ_discrete (ram p) 0) [
  | yes z ↦ text-nil (length (text ram p (suc n))) ram p z ∙ sym (text-nil (suc n) ram p z)
  | no ne ↦
      let cons = text-cons n ram p ne in
      ap (λ xs. text ram p (length xs)) cons
      ∙ text-cons (length (text ram (offset p 1) n)) ram p ne
      ∙ ap (λ xs. ram p ∷ xs) (text-whole n ram (offset p 1))
      ∙ sym cons
]
