-- ===== src/Text/Cstring/Compare.antt =====
-- strncmp and istrncmp decide equality of the texts that they compare.
use alpha_os.Prelude.{
  ℕ, zero, suc, ◌≡◌, ◌↔◌, true, false, ◌==◌, List, [], ◌∷◌, map, arith, Ram, offset, pos,
}
use alpha_os.Text.Cstring.{tolower, strncmp, istrncmp}

-- The text at `p`: the bytes before the NUL, `n` at most.
unfoldable pub text : Ram → ℕ → ℕ → List ℕ
text ram p zero = []
text ram p (suc n) = elim (ram p == 0) [ true ↦ [] | false ↦ ram p ∷ text ram (offset p 1) n ]

-- strncmp is 0 exactly where the two texts are the same.
pub strncmp-eq-zero :
    (ram : Ram) (a b n : ℕ) → (strncmp ram a b n ≡ pos 0) ↔ (text ram a n ≡ text ram b n)
unfolding strncmp text
strncmp-eq-zero ram a b zero = ground arith
strncmp-eq-zero ram a b (suc n) = ground (arith, strncmp-eq-zero ram (offset a 1) (offset b 1) n)

-- istrncmp is 0 exactly where the two texts are the same with capitals made small.
pub istrncmp-eq-zero :
    (ram : Ram) (a b n : ℕ)
    → (istrncmp ram a b n ≡ pos 0) ↔ (map tolower (text ram a n) ≡ map tolower (text ram b n))
unfolding istrncmp text tolower
istrncmp-eq-zero ram a b zero = ground arith
istrncmp-eq-zero ram a b (suc n) = ground (arith, istrncmp-eq-zero ram (offset a 1) (offset b 1) n)
