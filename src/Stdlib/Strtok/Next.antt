-- ===== src/Stdlib/Strtok/Next.antt =====
-- What one call of strtok in programs/stdlib/src/string.c does with the string it is at.
use alpha_os.Prelude.{
  ℕ, ◌≤◌, ◌<◌, ◌≡◌, ◌⊎◌, inl, inr, refl, ap, subst, true, false, not, ◌&&◌, ◌==◌, if◌then◌else◌,
  some, List, [], ◌∷◌, length, Ram, arith, Bool-cases, ◌>>=◌,
}
use alpha_os.Stdlib.Strtok.{is_delim, skip_loop, token_loop, strtok}
use alpha_os.Text.Cstring.Holds.{Holds}
use alpha_os.Stdlib.Strtok.Words.{
  strip, first_word, behind_word, NoNul, skip_loop_lem, token_loop_lem, first_word-char,
}

-- A stripped text is empty, or begins with a byte that is no delimiter.
pub record IsStripped (delim ys : List ℕ) (n c : ℕ) (rest : List ℕ) : Type 0 where
  pub same : ys ≡ c ∷ rest
  pub char : is_delim c delim ≡ false
  pub shorter : length rest < n

pub strip-cases :
    (delim xs : List ℕ)
    → (strip delim xs ≡ [])
      ⊎ ((c : ℕ) × (rest : List ℕ) × IsStripped delim (strip delim xs) (length xs) c rest)
unfolding strip
strip-cases delim [] = inl refl
strip-cases delim (c ∷ xs) = elim (Bool-cases (is_delim c delim)) [
  | inl t ↦ elim (strip-cases delim xs) [
    | inl e ↦ inl (rw t e)
    | inr (d, rest, v) ↦
        inr (
          d,
          rest,
          record { same = rw t v.same; char = v.char; shorter = omega (arith, v.shorter) },
        )
  ]
  | inr t ↦ inr (c, xs, record { same = rw t refl; char = t; shorter = omega arith })
]

behind_word-length : (delim xs : List ℕ) → length (behind_word delim xs) ≤ length xs
unfolding behind_word
behind_word-length delim [] = omega arith
behind_word-length delim (c ∷ xs) = elim (Bool-cases (is_delim c delim)) [
  | inl t ↦ rw t (omega arith)
  | inr t ↦ rw t (omega (arith, behind_word-length delim xs))
]

-- A call that ends, at the first byte `c` of a word.
pub record IsNext (delim : List ℕ) (n c : ℕ) (rest : List ℕ) (q sp' : ℕ) (ram' : Ram) : Type 0 where
  pub char : is_delim c delim ≡ false
  pub token : Holds ram' q (c ∷ first_word delim rest)
  pub behind : Holds ram' sp' (behind_word delim rest)
  pub shorter : length (behind_word delim rest) < n

-- The call with its start at `p`.
strtok-from :
    (fuel : ℕ) (ram : Ram) (sp str p q : ℕ) (delim : List ℕ)
    → (str == 0 && sp == 0) ≡ false
    → (if not (str == 0) && sp == 0 then str else sp) ≡ p
    → skip_loop fuel ram delim p ≡ some q
    → strtok fuel ram sp str delim ≡ (
        if ram q == 0
        then some (0, 0, ram)
        else (token_loop fuel ram delim q >>= λ (r : ℕ × Ram). some (q, r.0, r.1)))
unfolding strtok
strtok-from fuel ram sp str p q delim go start run = rw (go, start, run, ◌>>=◌) refl

-- Where strtok goes on, at `p` with a string of fewer bytes than the fuel: NULL and a cleared `sp` if
-- there are only delimiters, and else the first word, with `sp` behind the delimiter after it.
pub strtok_lem :
    (fuel : ℕ) (ram : Ram) (sp str p : ℕ) (delim xs : List ℕ)
    → (str == 0 && sp == 0) ≡ false
    → (if not (str == 0) && sp == 0 then str else sp) ≡ p
    → NoNul delim
    → Holds ram p xs
    → length xs < fuel
    → ((strip delim xs ≡ []) × (strtok fuel ram sp str delim ≡ some (0, 0, ram)))
      ⊎ ((c : ℕ) × (rest : List ℕ) × (q sp' : ℕ) × (ram' : Ram) × (strip delim xs ≡ c ∷ rest)
          × (strtok fuel ram sp str delim ≡ some (q, sp', ram'))
          × IsNext delim (length xs) c rest q sp' ram')
strtok_lem fuel ram sp str p delim xs go start n h f =
    let (q, skipped, held, le, sum) = skip_loop_lem fuel ram delim p xs n h f in
    let run = strtok-from fuel ram sp str p q delim go start skipped in
    elim (strip-cases delim xs) [
      | inl e ↦
          let z : (ram q == 0) ≡ true = ground (arith, subst (Holds ram q) e held) in
          inl (e, rw z at run)
      | inr (c, rest, v) ↦
          let held' = subst (Holds ram q) v.same held in
          let z : (ram q == 0) ≡ false = ground (arith, held'.1, held'.2) in
          let (sp', ram', scanned, t) =
            token_loop_lem fuel ram delim q (c ∷ rest) held' (omega (arith, ap length v.same)) in
          let words = first_word-char delim c rest v.char in
          inr (
            c,
            rest,
            q,
            sp',
            ram',
            v.same,
            rw (z, scanned, ◌>>=◌) at run,
            record {
              char = v.char;
              token = subst (Holds ram' q) words.0 t.token;
              behind = subst (Holds ram' sp') words.1 t.behind;
              shorter = omega (arith, v.shorter, behind_word-length delim rest);
            },
          )
    ]
