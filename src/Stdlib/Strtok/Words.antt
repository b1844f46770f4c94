-- ===== src/Stdlib/Strtok/Words.antt =====
-- What strtok of programs/stdlib/src/string.c returns from a string: its words.
use alpha_os.Prelude.{
  ℕ, zero, suc, ◌+◌, ◌≤◌, ◌<◌, ◌≡◌, ◌≢◌, ◌⊎◌, inl, inr, refl, sym, ap, subst, ◌∙◌, true, false,
  ◌==◌, if◌then◌else◌, some, List, [], ◌∷◌, length, Ram, write, offset, arith, Bool-cases,
}
use alpha_os.Text.Cstring.Holds.{Holds, Holds-below, Holds-same}
use alpha_os.Stdlib.Strtok.{is_delim, skip_loop, token_loop}

-- A text without the delimiters in front.
unfoldable pub strip : List ℕ → List ℕ → List ℕ
unfolding is_delim
strip delim [] = []
strip delim (c ∷ xs) = let rest = strip delim xs in if is_delim c delim then rest else c ∷ xs

-- A text up to its first delimiter, and what is behind that delimiter.
unfoldable pub first_word : List ℕ → List ℕ → List ℕ
unfolding is_delim
first_word delim [] = []
first_word delim (c ∷ xs) =
    let rest = first_word delim xs in if is_delim c delim then [] else c ∷ rest

unfoldable pub behind_word : List ℕ → List ℕ → List ℕ
unfolding is_delim
behind_word delim [] = []
behind_word delim (c ∷ xs) =
    let rest = behind_word delim xs in if is_delim c delim then xs else rest

-- No delimiter is NUL.
abbrev pub NoNul : List ℕ → Type 0
NoNul delim = is_delim 0 delim ≡ false

skip_loop-hit :
    (fuel : ℕ) (ram : Ram) (delim : List ℕ) (p : ℕ)
    → is_delim (ram p) delim ≡ true
    → skip_loop (suc fuel) ram delim p ≡ skip_loop fuel ram delim (offset p 1)
unfolding skip_loop
skip_loop-hit fuel ram delim p t = rw t refl

skip_loop-stop :
    (fuel : ℕ) (ram : Ram) (delim : List ℕ) (p : ℕ)
    → is_delim (ram p) delim ≡ false
    → skip_loop (suc fuel) ram delim p ≡ some p
unfolding skip_loop
skip_loop-stop fuel ram delim p t = rw t refl

-- The first loop ends where the stripped text stands.
pub skip_loop_lem :
    (fuel : ℕ) (ram : Ram) (delim : List ℕ) (p : ℕ) (xs : List ℕ)
    → NoNul delim
    → Holds ram p xs
    → length xs < fuel
    → (q : ℕ) × (skip_loop fuel ram delim p ≡ some q)
      × Holds ram q (strip delim xs)
      × (p ≤ q)
      × (q + length (strip delim xs) ≡ p + length xs)
skip_loop_lem zero ram delim p xs n h f = absurd (omega arith)
skip_loop_lem (suc fuel) ram delim p [] n h f = (
  p,
  skip_loop-stop fuel ram delim p (ap (λ c. is_delim c delim) h.2 ∙ n),
  unfold strip in h,
  omega arith,
  unfold strip in refl,
)
skip_loop_lem (suc fuel) ram delim p (c ∷ xs) n h f = elim (Bool-cases (is_delim c delim)) [
  | inl t ↦
      let low = Holds-below ram p (c ∷ xs) h in
      let (q, run, held, le, sum) = skip_loop_lem fuel ram delim (p + 1) xs n h.4 (omega arith) in
      let e : offset p 1 ≡ p + 1 = omega (arith, low) in
      let s : strip delim (c ∷ xs) ≡ strip delim xs = unfold strip in rw t refl in
      (
        q,
        skip_loop-hit fuel ram delim p (ap (λ d. is_delim d delim) h.1 ∙ t)
            ∙ ap (skip_loop fuel ram delim) e
            ∙ run,
        subst (Holds ram q) (sym s) held,
        omega arith,
        ap (λ ys. q + length ys) s ∙ sum ∙ omega arith,
      )
  | inr t ↦
      let s : strip delim (c ∷ xs) ≡ c ∷ xs = unfold strip in rw t refl in
      (
        p,
        skip_loop-stop fuel ram delim p (ap (λ d. is_delim d delim) h.1 ∙ t),
        subst (Holds ram p) (sym s) h,
        omega arith,
        ap (λ ys. p + length ys) s,
      )
]

-- A token that stands at `p`, and what is left of the text behind it.
pub record IsToken (delim : List ℕ) (ram : Ram) (p : ℕ) (xs : List ℕ) (sp' : ℕ) (ram' : Ram)
    : Type 0 where
  pub token : Holds ram' p (first_word delim xs)
  pub behind : Holds ram' sp' (behind_word delim xs)
  moved : sp' + length (behind_word delim xs) ≤ p + length xs
  later : p ≤ sp'
  outside : (a : ℕ) → (a < p) ⊎ (p + length xs < a) → ram' a ≡ ram a

token_loop-end :
    (fuel : ℕ) (ram : Ram) (delim : List ℕ) (p : ℕ)
    → ram p ≡ 0
    → token_loop (suc fuel) ram delim p ≡ some (p, ram)
unfolding token_loop
token_loop-end fuel ram delim p e = rw e refl

token_loop-delim :
    (fuel : ℕ) (ram : Ram) (delim : List ℕ) (p : ℕ)
    → 0 < ram p
    → is_delim (ram p) delim ≡ true
    → token_loop (suc fuel) ram delim p ≡ some (offset p 1, write ram p 0)
unfolding token_loop
token_loop-delim fuel ram delim p nz t =
    let z : (ram p == 0) ≡ false = ground arith in rw (z, t) refl

token_loop-char :
    (fuel : ℕ) (ram : Ram) (delim : List ℕ) (p : ℕ)
    → 0 < ram p
    → is_delim (ram p) delim ≡ false
    → token_loop (suc fuel) ram delim p ≡ token_loop fuel ram delim (offset p 1)
unfolding token_loop
token_loop-char fuel ram delim p nz t =
    let z : (ram p == 0) ≡ false = ground arith in rw (z, t) refl

-- The words of a text whose first byte is a delimiter, and of one whose first byte is none.
first_word-delim :
    (delim : List ℕ) (c : ℕ) (xs : List ℕ)
    → is_delim c delim ≡ true
    → (first_word delim (c ∷ xs) ≡ []) × (behind_word delim (c ∷ xs) ≡ xs)
unfolding first_word behind_word
first_word-delim delim c xs t = (rw t refl, rw t refl)

pub first_word-char :
    (delim : List ℕ) (c : ℕ) (xs : List ℕ)
    → is_delim c delim ≡ false
    → (first_word delim (c ∷ xs) ≡ c ∷ first_word delim xs)
      × (behind_word delim (c ∷ xs) ≡ behind_word delim xs)
unfolding first_word behind_word
first_word-char delim c xs t = (rw t refl, rw t refl)

write_self : (ram : Ram) (p : ℕ) → write ram p 0 p ≡ 0
unfolding write
write_self ram p = ground arith

write_other : (ram : Ram) (p a : ℕ) → a ≢ p → write ram p 0 a ≡ ram a
unfolding write
write_other ram p a ne = ground arith

-- A delimiter ends the token before its first byte.
IsToken-delim :
    (delim : List ℕ) (ram : Ram) (p c : ℕ) (xs : List ℕ)
    → Holds ram p (c ∷ xs)
    → is_delim c delim ≡ true
    → IsToken delim ram p (c ∷ xs) (p + 1) (write ram p 0)
IsToken-delim delim ram p c xs h t =
    let low = Holds-below ram p (c ∷ xs) h in
    let (first, behind) = first_word-delim delim c xs t in
    record {
      token =
          subst (Holds (write ram p 0) p) (sym first) (low.0, omega (arith, low), write_self ram p);
      behind = subst (Holds (write ram p 0) (p + 1)) (sym behind) (
          Holds-same ram (write ram p 0) (p + 1) xs (λ a l u. write_other ram p a (ground arith))
            h.4);
      moved = omega (arith, ap length behind);
      later = omega arith;
      outside = λ a out. write_other ram p a (ground arith);
    }

IsToken-char :
    (delim : List ℕ) (ram : Ram) (p c : ℕ) (xs : List ℕ) (sp' : ℕ) (ram' : Ram)
    → Holds ram p (c ∷ xs)
    → is_delim c delim ≡ false
    → IsToken delim ram (p + 1) xs sp' ram'
    → IsToken delim ram p (c ∷ xs) sp' ram'
IsToken-char delim ram p c xs sp' ram' h t v =
    let (first, behind) = first_word-char delim c xs t in
    record {
      token =
          subst (Holds ram' p) (sym first)
            (h.0, v.outside p (inl (omega arith)) ∙ h.1, h.2, h.3, v.token);
      behind = subst (Holds ram' sp') (sym behind) v.behind;
      moved = omega (arith, ap length behind, v.moved);
      later = omega (arith, v.later);
      outside = λ a out. v.outside a (ground arith);
    }

pub token_loop_lem :
    (fuel : ℕ) (ram : Ram) (delim : List ℕ) (p : ℕ) (xs : List ℕ)
    → Holds ram p xs
    → length xs < fuel
    → (sp' : ℕ) × (ram' : Ram) × (token_loop fuel ram delim p ≡ some (sp', ram'))
      × IsToken delim ram p xs sp' ram'
token_loop_lem zero ram delim p xs h f = absurd (omega arith)
token_loop_lem (suc fuel) ram delim p [] h f = (
  p,
  ram,
  token_loop-end fuel ram delim p h.2,
  unfold first_word behind_word in
      record {
        token = h;
        behind = h;
        moved = omega arith;
        later = omega arith;
        outside = λ a out. refl;
      },
)
token_loop_lem (suc fuel) ram delim p (c ∷ xs) h f =
    let low = Holds-below ram p (c ∷ xs) h in
    let e : offset p 1 ≡ p + 1 = omega (arith, low) in
    let nz : 0 < ram p = omega (arith, h.1, h.2) in
    elim (Bool-cases (is_delim c delim)) [
      | inl t ↦ (
        p + 1,
        write ram p 0,
        token_loop-delim fuel ram delim p nz (ap (λ d. is_delim d delim) h.1 ∙ t)
            ∙ ap (λ q. some (q, write ram p 0)) e,
        IsToken-delim delim ram p c xs h t,
      )
      | inr t ↦
          let (sp', ram', run, v) = token_loop_lem fuel ram delim (p + 1) xs h.4 (omega arith) in
          (
            sp',
            ram',
            token_loop-char fuel ram delim p nz (ap (λ d. is_delim d delim) h.1 ∙ t)
                ∙ ap (token_loop fuel ram delim) e
                ∙ run,
            IsToken-char delim ram p c xs sp' ram' h t v,
          )
    ]
