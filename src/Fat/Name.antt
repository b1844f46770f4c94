-- ===== src/Fat/Name.antt =====
-- The names of directory items, "NAME.EXT" from fields that are padded with blanks.
use alpha_os.Prelude.{
  ℕ, zero, suc, Bool, true, false, not, ◌&&◌, ◌||◌, Option, none, some, List, [], ◌∷◌, ◌++◌, ◌==◌,
  ltb, if◌then◌else◌, get_or, drop, length, ◌>>=◌,
}
use alpha_os.Text.Cstring.{tolower}

-- FAT16_to_proper_string: the bytes before the first NUL or blank. It does not know the length of
-- the field, and reads on into the fields behind it; `none` is a read past the directory.
unfoldable pub to_proper_string : List ℕ → Option (List ℕ)
to_proper_string [] = none
to_proper_string (c ∷ bytes) = elim (c == 0 || c == b' ') [
  | true ↦ some []
  | false ↦ do rest ← to_proper_string bytes; some (c ∷ rest)
]

-- sizeof(tmp_filename)
abbrev pub max_name : ℕ
max_name = 108

-- `none` also where the name and its NUL are longer than the buffer.
unfoldable pub get_full_relative_filename : List ℕ → Option (List ℕ)
unfolding to_proper_string
get_full_relative_filename item = do
  name ← to_proper_string item
  full ←
      (let ext = get_or item 8 0 in
        if not (ext == 0) && not (ext == b' ')
        then (do extension ← to_proper_string (drop 8 item); some (name ++ (b'.' ∷ extension)))
        else some name)
  if ltb (length full) max_name then some full else none

-- `istrncmp(a, b, n) == 0` on texts.
unfoldable pub same_name : ℕ → List ℕ → List ℕ → Bool
unfolding tolower
same_name zero a b = true
same_name (suc n) [] [] = true
same_name (suc n) [] (d ∷ b) = false
same_name (suc n) (c ∷ a) [] = false
same_name (suc n) (c ∷ a) (d ∷ b) = tolower c == tolower d && same_name n a b
