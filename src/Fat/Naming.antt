-- ===== src/Fat/Naming.antt =====
-- The names that a search compares.
use alpha_os.Prelude.{
  ℕ, suc, ◌+◌, ◌≤◌, ◌≡◌, ◌≢◌, refl, sym, ap, ◌∙◌, true, false, not, ◌&&◌, ◌||◌, some, List, [], ◌∷◌,
  ◌++◌, ◌==◌, ltb, get_or, drop, length, replicate, All, arith, append_assoc, length-append,
  length-replicate,
}
use alpha_os.Fat.Name.{to_proper_string, get_full_relative_filename}

-- A character of a name.
abbrev pub IsNameChar : ℕ → Type 0
IsNameChar c = (c ≢ 0) × (c ≢ b' ')

pub to_proper_string-append :
    (name rest : List ℕ) (c : ℕ)
    → All IsNameChar name
    → (c == 0 || c == b' ') ≡ true
    → to_proper_string (name ++ (c ∷ rest)) ≡ some name
unfolding to_proper_string
to_proper_string-append [] rest c h e = rw (e, to_proper_string) refl
to_proper_string-append (x ∷ name) rest c h e =
    let e' : (x == 0 || x == b' ') ≡ false = ground (arith, h.0) in
    rw (e', to_proper_string, to_proper_string-append name rest c h.1 e) refl

-- A name of 8 characters runs on into the extension.
to_proper_string-run :
    (name rest out : List ℕ)
    → All IsNameChar name
    → to_proper_string rest ≡ some out
    → to_proper_string (name ++ rest) ≡ some (name ++ out)
unfolding to_proper_string
to_proper_string-run [] rest out h e = e
to_proper_string-run (x ∷ name) rest out h e =
    let e' : (x == 0 || x == b' ') ≡ false = ground (arith, h.0) in
    rw (e', to_proper_string, to_proper_string-run name rest out h.1 e) refl

drop-append {ℓ} : {A : Type ℓ} (xs ys : List A) → drop (length xs) (xs ++ ys) ≡ ys
drop-append [] ys = refl
drop-append (x ∷ xs) ys = drop-append xs ys

get_or-append_past : (xs ys : List ℕ) (i : ℕ) → get_or (xs ++ ys) (length xs + i) 0 ≡ get_or ys i 0
get_or-append_past [] ys i = ap (λ j. get_or ys j 0) (omega arith)
get_or-append_past (x ∷ xs) ys i =
    let e : suc (length xs) + i ≡ suc (length xs + i) = omega arith in
    rw e (get_or-append_past xs ys i)

-- The full name of an item whose name field `field` is 8 bytes long.
full_name :
    (field : List ℕ) (c : ℕ) (behind name extension : List ℕ)
    → length field ≡ 8
    → to_proper_string (field ++ (c ∷ behind)) ≡ some name
    → c ≢ 0
    → c ≢ b' '
    → to_proper_string (c ∷ behind) ≡ some extension
    → length (name ++ (b'.' ∷ extension)) ≤ 107
    → get_full_relative_filename (field ++ (c ∷ behind)) ≡ some (name ++ (b'.' ∷ extension))
unfolding get_full_relative_filename
full_name field c behind name extension size hn c0 c1 he fits =
    let at_8 : get_or (field ++ (c ∷ behind)) 8 0 ≡ c =
      ap (λ j. get_or (field ++ (c ∷ behind)) j 0) (omega arith)
      ∙ get_or-append_past field (c ∷ behind) 0 in
    let past_8 : drop 8 (field ++ (c ∷ behind)) ≡ c ∷ behind =
      ap (λ j. drop j (field ++ (c ∷ behind))) (sym size) ∙ drop-append field (c ∷ behind) in
    let e : (not (c == 0) && not (c == b' ')) ≡ true = ground arith in
    let e' : ltb (length (name ++ (b'.' ∷ extension))) 108 ≡ true = ground arith in
    rw (hn, at_8, e, past_8, he, e') refl

-- A name of fewer than 8 characters, padded with blanks, and an extension of 1 to 3 characters that
-- a blank or NUL follows give NAME.EXT.
pub get_full_relative_filename_short :
    (name : List ℕ) (pad : ℕ) (c : ℕ) (extension : List ℕ) (stop : ℕ) (rest : List ℕ)
    → length name + suc pad ≡ 8
    → length extension ≤ 2
    → All IsNameChar name
    → All IsNameChar (c ∷ extension)
    → (stop == 0 || stop == b' ') ≡ true
    → get_full_relative_filename
        ((name ++ replicate (suc pad) b' ') ++ (c ∷ (extension ++ (stop ∷ rest))))
      ≡ some (name ++ (b'.' ∷ (c ∷ extension)))
get_full_relative_filename_short name pad c extension stop rest size few hn he hs =
    full_name (name ++ replicate (suc pad) b' ') c (extension ++ (stop ∷ rest)) name (c ∷ extension)
      (omega (
        arith,
        length-append name (replicate (suc pad) b' '),
        length-replicate {A = ℕ} (suc pad) b' ',
      ))
      (ap to_proper_string
          (append_assoc name (replicate (suc pad) b' ') (c ∷ (extension ++ (stop ∷ rest))))
        ∙ to_proper_string-append name (replicate pad b' ' ++ (c ∷ (extension ++ (stop ∷ rest))))
            b' ' hn refl)
      he.0.0 he.0.1 (to_proper_string-append (c ∷ extension) rest stop he hs)
      (omega (arith, length-append name (b'.' ∷ (c ∷ extension))))

-- An item with a name of exactly 8 characters and an extension of 1 to 3, none of them NUL or a
-- blank, which is followed by one of these, gets the name NAMENAMEEXT.EXT, with the extension
-- twice.
pub get_full_relative_filename_long :
    (name : List ℕ) (c : ℕ) (extension : List ℕ) (stop : ℕ) (rest : List ℕ)
    → length name ≡ 8
    → length extension ≤ 2
    → All IsNameChar name
    → All IsNameChar (c ∷ extension)
    → (stop == 0 || stop == b' ') ≡ true
    → get_full_relative_filename (name ++ (c ∷ (extension ++ (stop ∷ rest))))
      ≡ some ((name ++ (c ∷ extension)) ++ (b'.' ∷ (c ∷ extension)))
get_full_relative_filename_long name c extension stop rest size few hn he hs =
    full_name name c (extension ++ (stop ∷ rest)) (name ++ (c ∷ extension)) (c ∷ extension) size
      (to_proper_string-run name (c ∷ (extension ++ (stop ∷ rest))) (c ∷ extension) hn
        (to_proper_string-append (c ∷ extension) rest stop he hs))
      he.0.0 he.0.1 (to_proper_string-append (c ∷ extension) rest stop he hs)
      (omega (
        arith,
        length-append (name ++ (c ∷ extension)) (b'.' ∷ (c ∷ extension)),
        length-append name (c ∷ extension),
      ))
