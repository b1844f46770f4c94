-- ===== src/Text/Path.antt =====
-- src/fs/pparser.c: a path such as "0:/dir/file" is parsed into a drive and its parts. A string is
-- the list of its bytes before the NUL, and a linked list of parts is a list. Outside, `none` is a
-- write past the buffer of a part; inside, `none` is NULL. kzalloc is taken to succeed.
pub mod Parse
mod Tests
use alpha_os.Prelude.{
  ℕ, zero, suc, ◌+◌, Bool, true, false, not, ◌&&◌, Option, none, some, List, [], ◌∷◌, leb, ltb,
  ◌==◌, if◌then◌else◌, length, get_or, drop, min, Result, ok, err, ebadpath, ℤ, ◌>>=◌,
}
use alpha_os.Text.Cstring.{isdigit, tonumericdigit}

-- ALPHAOS_MAX_PATH
abbrev pub max_path : ℕ
max_path = 108

-- struct path_root, with the chain of struct path_part
pub record PathRoot : Type 0 where
  pub drive_no : ℤ
  pub parts : List (List ℕ)

-- The memcmp with ":/" looks at two bytes.
unfoldable pub pathparser_path_valid_format : List ℕ → Bool
unfolding isdigit
pathparser_path_valid_format filename =
    leb 3 (min (length filename) max_path)
    && isdigit (get_or filename 0 0)
    && get_or filename 1 0 == b':'
    && get_or filename 2 0 == b'/'

-- The drive, and the path behind the three bytes that name it.
unfoldable pub pathparser_get_drive_by_path : List ℕ → Result (ℤ × List ℕ)
pathparser_get_drive_by_path path =
    if not (pathparser_path_valid_format path)
    then err ebadpath
    else ok (tonumericdigit (get_or path 0 0), drop 3 path)

unfoldable pub pathparser_create_root : ℤ → PathRoot
pathparser_create_root drive_number = record { drive_no = drive_number; parts = [] }

-- The loop from byte `i` of the buffer on: the bytes that it takes, and what it stops at.
unfoldable pub path_part_loop : ℕ → List ℕ → Option (List ℕ × List ℕ)
path_part_loop i [] = some ([], [])
path_part_loop i (c ∷ path) = elim (c == b'/') [
  | true ↦ some ([], c ∷ path)
  | false ↦ elim (ltb i max_path) [
    | false ↦ none
    | true ↦ do (part, rest) ← path_part_loop (i + 1) path; some (c ∷ part, rest)
  ]
]

-- Skips the slash that the part ends with.
unfoldable pub skip_slash : List ℕ → List ℕ
skip_slash [] = []
skip_slash (c ∷ path) = if c == b'/' then path else c ∷ path

-- An empty part is NULL.
unfoldable pub part_or_null : List ℕ → Option (List ℕ)
part_or_null [] = none
part_or_null (c ∷ part) = some (c ∷ part)

unfoldable pub pathparser_get_path_part : List ℕ → Option (Option (List ℕ) × List ℕ)
unfolding path_part_loop skip_slash part_or_null
pathparser_get_path_part path = do
  (part, rest) ← path_part_loop 0 path
  some (part_or_null part, skip_slash rest)

-- The loop that appends parts until there is none, with fuel.
unfoldable pub parse_parts : ℕ → List ℕ → Option (List (List ℕ))
unfolding pathparser_get_path_part
parse_parts zero path = none
parse_parts (suc fuel) path = do
  (part, rest) ← pathparser_get_path_part path
  elim part [ none ↦ some [] | some p ↦ do parts ← parse_parts fuel rest; some (p ∷ parts) ]

unfoldable pub pathparser_parse : List ℕ → Option (Option PathRoot)
unfolding pathparser_get_drive_by_path pathparser_create_root
pathparser_parse path =
    if ltb max_path (length path) then some none else elim (pathparser_get_drive_by_path path) [
      | err _ ↦ some none
      | ok (drive, tmp_path) ↦ do
        parts ← parse_parts (length path + 1) tmp_path
        some (some (record (pathparser_create_root drive) { parts = parts }))
    ]
