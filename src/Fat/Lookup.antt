-- ===== src/Fat/Lookup.antt =====
-- A directory of src/fs/fat/fat16.c, searched for a name, by what is stored in its items.
use alpha_os.Prelude.{
  ℕ, zero, suc, ◌+◌, ◌≤◌, ◌<◌, ◌≡◌, ◌≢◌, refl, ap, ◌∙◌, ◌⊎◌, inl, inr, true, false, not, ◌&&◌, ◌||◌,
  ◌==◌, ltb, some, List, [], ◌∷◌, ◌++◌, length, length-append, drop, get_or, All, bit_and, arith,
}
use native.Mathlib.Decide.{ℕ_discrete}
use alpha_os.Text.Cstring.{tolower}
use alpha_os.Disk.{Drive}
use alpha_os.Fat.{FatDirectory, FatPrivate, file, attributes, item_at}
use alpha_os.Fat.Name.{to_proper_string, get_full_relative_filename, same_name, max_name}
use alpha_os.Fat.Naming.{IsNameChar, to_proper_string-append}
use alpha_os.Fat.Directory.{find_item_in_directory}
use alpha_os.Fat.Find.{Named, find_item_in_directory-Named}

-- A name of up to 8 bytes and an extension of up to 3 stand at the two fields of an item, each followed
-- by a blank or NUL.
pub record IsStored (item stem extension : List ℕ) : Type 0 where
  pub stop : ℕ
  pub stop' : ℕ
  pub behind : List ℕ
  pub behind' : List ℕ
  pub at_name : item ≡ stem ++ (stop ∷ behind)
  pub at_extension : drop 8 item ≡ extension ++ (stop' ∷ behind')
  pub stops : (stop ≡ 0) ⊎ (stop ≡ b' ')
  pub stops' : (stop' ≡ 0) ⊎ (stop' ≡ b' ')
  pub name_chars : All IsNameChar stem
  pub extension_chars : All IsNameChar extension
  pub fits : length stem ≤ 8
  pub fits' : length extension ≤ 3

-- "NAME.EXT", and "NAME" without an extension.
abbrev pub written : List ℕ → List ℕ → List ℕ
written stem [] = stem
written stem (c ∷ extension) = stem ++ (b'.' ∷ c ∷ extension)

get_or-drop : (xs : List ℕ) (n : ℕ) → get_or xs n 0 ≡ get_or (drop n xs) 0 0
get_or-drop [] zero = refl
get_or-drop [] (suc n) = refl
get_or-drop (x ∷ xs) zero = refl
get_or-drop (x ∷ xs) (suc n) = get_or-drop xs n

is_stop : (c : ℕ) → (c ≡ 0) ⊎ (c ≡ b' ') → (c == 0 || c == b' ') ≡ true
is_stop c h = ground arith

pub get_full_relative_filename-Stored :
    (item stem extension : List ℕ)
    → IsStored item stem extension
    → get_full_relative_filename item ≡ some (written stem extension)
unfolding get_full_relative_filename
get_full_relative_filename-Stored item stem [] v =
    let at_8 : get_or item 8 0 ≡ v.stop' =
      get_or-drop item 8 ∙ ap (λ xs. get_or xs 0 0) v.at_extension in
    let no_extension : (not (v.stop' == 0) && not (v.stop' == b' ')) ≡ false =
      ground (arith, v.stops') in
    let name : to_proper_string item ≡ some stem =
      ap to_proper_string v.at_name
      ∙ to_proper_string-append stem v.behind v.stop v.name_chars (is_stop v.stop v.stops) in
    let short : ltb (length stem) 108 ≡ true = ground (arith, v.fits) in
    rw (name, at_8, no_extension, short) refl
get_full_relative_filename-Stored item stem (c ∷ extension) v =
    let at_8 : get_or item 8 0 ≡ c = get_or-drop item 8 ∙ ap (λ xs. get_or xs 0 0) v.at_extension in
    let there : (not (c == 0) && not (c == b' ')) ≡ true =
      ground (arith, v.extension_chars.0.0, v.extension_chars.0.1) in
    let name : to_proper_string item ≡ some stem =
      ap to_proper_string v.at_name
      ∙ to_proper_string-append stem v.behind v.stop v.name_chars (is_stop v.stop v.stops) in
    let more : to_proper_string (drop 8 item) ≡ some (c ∷ extension) =
      ap to_proper_string v.at_extension
      ∙ to_proper_string-append (c ∷ extension) v.behind' v.stop' v.extension_chars
          (is_stop v.stop' v.stops') in
    let short : ltb (length (stem ++ (b'.' ∷ c ∷ extension))) 108 ≡ true =
      ground (arith, v.fits, v.fits', length-append stem (b'.' ∷ c ∷ extension)) in
    rw (name, at_8, there, more, short) refl

-- The same letter, whatever the case.
abbrev pub SameLetter : ℕ → ℕ → Type 0
SameLetter c d =
    (c ≡ d) ⊎ (((b'A' ≤ c) × (c ≤ b'Z') × (d ≡ c + 32)) ⊎ ((b'A' ≤ d) × (d ≤ b'Z') × (c ≡ d + 32)))

abbrev pub SameText : List ℕ → List ℕ → Type 0
SameText [] [] = Unit {0}
SameText [] (d ∷ ds) = ⊥
SameText (c ∷ cs) [] = ⊥
SameText (c ∷ cs) (d ∷ ds) = SameLetter c d × SameText cs ds

same_letter :
    (c d : ℕ)
    → (((tolower c == tolower d) ≡ true) × SameLetter c d)
      ⊎ (((tolower c == tolower d) ≡ false) × ¬ SameLetter c d)
unfolding tolower
same_letter c d = elim (ℕ_discrete (tolower c) (tolower d)) [
  | yes e ↦ inl (ground arith, ground arith)
  | no ne ↦ inr (ground arith, λ h. ground arith)
]

same_name_lem :
    (n : ℕ) (a b : List ℕ)
    → length a < n
    → length b < n
    → ((same_name n a b ≡ true) × SameText a b) ⊎ ((same_name n a b ≡ false) × ¬ SameText a b)
unfolding same_name
same_name_lem zero a b ha hb = absurd (omega arith)
same_name_lem (suc n) [] [] ha hb = inl (refl, tt)
same_name_lem (suc n) [] (d ∷ b) ha hb = inr (refl, λ h. h)
same_name_lem (suc n) (c ∷ a) [] ha hb = inr (refl, λ h. h)
same_name_lem (suc n) (c ∷ a) (d ∷ b) ha hb = elim (same_letter c d) [
  | inl (t, h) ↦ elim (same_name_lem n a b (omega arith) (omega arith)) [
    | inl (t', h') ↦ inl (rw (t, t') refl, (h, h'))
    | inr (f, no_match) ↦ inr (rw (t, f) refl, λ m. no_match m.1)
  ]
  | inr (f, differ) ↦ inr (rw f refl, λ m. differ m.0)
]

length-written :
    (stem extension : List ℕ)
    → length stem ≤ 8
    → length extension ≤ 3
    → length (written stem extension) < max_name
length-written stem [] h h' = omega arith
length-written stem (c ∷ extension) h h' = omega (arith, length-append stem (b'.' ∷ c ∷ extension))

module _ (fuel : ℕ) (drive : Drive) (p : FatPrivate) (d : FatDirectory) (name : List ℕ)
    (stems extensions : ℕ → List ℕ) where
  match :
      (j : ℕ)
      → IsStored (item_at d j) (stems j) (extensions j)
      → length name < max_name
      → SameText (written (stems j) (extensions j)) name
      → Named d name j true
  match j v few same =
      elim (same_name_lem max_name (written (stems j) (extensions j)) name
        (length-written (stems j) (extensions j) v.fits v.fits') few) [
          | inl (t, h) ↦ (
            written (stems j) (extensions j),
            get_full_relative_filename-Stored (item_at d j) (stems j) (extensions j) v,
            t,
          )
          | inr (f, h) ↦ absurd (h same)
        ]

  mismatch :
      (j : ℕ)
      → IsStored (item_at d j) (stems j) (extensions j)
      → length name < max_name
      → ¬ SameText (written (stems j) (extensions j)) name
      → Named d name j false
  mismatch j v few differ =
      elim (same_name_lem max_name (written (stems j) (extensions j)) name
        (length-written (stems j) (extensions j) v.fits v.fits') few) [
          | inl (t, h) ↦ absurd (differ h)
          | inr (f, h) ↦ (
            written (stems j) (extensions j),
            get_full_relative_filename-Stored (item_at d j) (stems j) (extensions j) v,
            f,
          )
        ]

  -- In a directory whose items hold names of up to 8 bytes and extensions of up to 3, with a blank or
  -- NUL behind both fields' texts, the one item whose name, with its extension behind a dot, is the one
  -- looked for but for the case of letters is found, when it is a file and no other item has the name.
  pub find_item_in_directory_lem :
      (k : ℕ)
      → ((j : ℕ) → j < d.total → IsStored (item_at d j) (stems j) (extensions j))
      → length name < max_name
      → k < d.total
      → SameText (written (stems k) (extensions k)) name
      → ((j : ℕ) → j < d.total → j ≢ k → ¬ SameText (written (stems j) (extensions j)) name)
      → bit_and (attributes (item_at d k)) 0x10 ≡ 0
      → find_item_in_directory fuel drive p d name ≡ some (some (file (item_at d k)))
  find_item_in_directory_lem k stored few inside same others plain =
      find_item_in_directory-Named fuel drive p d name k inside
        (λ j h ne. mismatch j (stored j h) few (others j h ne)) (match k (stored k inside) few same)
        plain
