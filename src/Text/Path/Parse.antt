-- ===== src/Text/Path/Parse.antt =====
-- Parsing is total and stays within its buffers.
pub mod Format
use alpha_os.Prelude.{
  ℕ, zero, suc, ◌+◌, ◌-◌, ◌≤◌, ◌<◌, ◌≡◌, ◌≢◌, ◌⊎◌, ◌↔◌, refl, sym, ap, ◌∙◌, Bool, true, false, not,
  Option, none, some, List, [], ◌∷◌, ◌++◌, ◌==◌, leb, ltb, if◌then◌else◌, length, drop, All, arith,
  ok, err, pos, Bool-cases, inl, inr, length-drop, subst, get_or, length-append, sub_ℕ, min, ◌&&◌,
  subst,
}
use native.Mathlib.Decide.{dec_le}
use alpha_os.Text.Cstring.{isdigit, tonumericdigit}
use alpha_os.Text.Path.{
  PathRoot, pathparser_path_valid_format, pathparser_get_drive_by_path, path_part_loop, skip_slash,
  part_or_null, pathparser_get_path_part, parse_parts, pathparser_parse, pathparser_create_root,
}

-- The bytes before the first slash, and those from it on.
pub field : List ℕ → List ℕ
field [] = []
field (c ∷ path) = elim (c == b'/') [ true ↦ [] | false ↦ c ∷ field path ]

pub beyond : List ℕ → List ℕ
beyond [] = []
beyond (c ∷ path) = elim (c == b'/') [ true ↦ c ∷ path | false ↦ beyond path ]

path_part_loop_lem :
    (i : ℕ) (path : List ℕ)
    → i + length path ≤ 108
    → path_part_loop i path ≡ some (field path, beyond path)
unfolding path_part_loop field beyond
path_part_loop_lem i [] h = refl
path_part_loop_lem i (c ∷ path) h = ground (arith, path_part_loop_lem (i + 1) path)

get_path_part_lem :
    (path : List ℕ)
    → length path ≤ 108
    → pathparser_get_path_part path ≡ some (part_or_null (field path), skip_slash (beyond path))
unfolding pathparser_get_path_part
get_path_part_lem path h = ground (arith, path_part_loop_lem 0 path)

length-field : (path : List ℕ) → length (field path) + length (beyond path) ≡ length path
unfolding field beyond
length-field [] = refl
length-field (c ∷ path) = ground (arith, length-field path)

length-skip : (path : List ℕ) → length (skip_slash path) ≤ length path
unfolding skip_slash
length-skip [] = omega arith
length-skip (c ∷ path) = ground arith

-- A part of a path: not empty, and with no slash.
abbrev pub IsPart : List ℕ → Type 0
IsPart part = (part ≢ []) × All (λ c. c ≢ b'/') part × (length part ≤ 105)

field-All : (path : List ℕ) → All (λ c. c ≢ b'/') (field path)
unfolding field
field-All [] = tt
field-All (c ∷ path) = elim (Bool-cases (c == b'/')) [
  | inl slash ↦ rw (slash, All) tt
  | inr other ↦ rw (other, All) (ground arith, field-All path)
]

record Parsed (fuel : ℕ) (path : List ℕ) : Type 0 where
  parts : List (List ℕ)
  returns : parse_parts fuel path ≡ some parts
  each : All IsPart parts

parse_parts_stop :
    (fuel : ℕ) (path : List ℕ)
    → length path ≤ 105
    → field path ≡ []
    → parse_parts (suc fuel) path ≡ some []
unfolding parse_parts part_or_null
parse_parts_stop fuel path h e = ground (arith, get_path_part_lem path)

parse_parts_next :
    (fuel : ℕ) (path : List ℕ) (c : ℕ) (p : List ℕ) (parts : List (List ℕ))
    → length path ≤ 105
    → field path ≡ c ∷ p
    → parse_parts fuel (skip_slash (beyond path)) ≡ some parts
    → parse_parts (suc fuel) path ≡ some ((c ∷ p) ∷ parts)
unfolding parse_parts part_or_null
parse_parts_next fuel path c p parts h e rest = ground (arith, get_path_part_lem path)

parse_parts_total :
    (fuel : ℕ) (path : List ℕ) → length path < fuel → length path ≤ 105 → Parsed fuel path
parse_parts_total zero path h k = absurd (omega arith)
parse_parts_total (suc fuel) path h k =
    next (field path) refl (parse_parts_total fuel (skip_slash (beyond path)))
  where
    next :
        (f : List ℕ)
        → field path ≡ f
        → (length (skip_slash (beyond path)) < fuel
            → length (skip_slash (beyond path)) ≤ 105
            → Parsed fuel (skip_slash (beyond path)))
        → Parsed (suc fuel) path
    next [] e rest = record { parts = []; returns = parse_parts_stop fuel path k e; each = tt }
    next (c ∷ p) e rest =
        let shorter : length (skip_slash (beyond path)) < length path =
          omega (arith, length-field path, ap length e, length-skip (beyond path)) in
        let r = rest (omega arith) (omega arith) in
        record {
          parts = (c ∷ p) ∷ r.parts;
          returns = parse_parts_next fuel path c p r.parts k e r.returns;
          each = (
            (
              (λ q. ground (arith, q)),
              subst (All (λ c. c ≢ b'/')) e (field-All path),
              omega (arith, length-field path, ap length e),
            ),
            r.each,
          );
        }

parse_refused :
    (path : List ℕ)
    → (108 < length path) ⊎ (pathparser_path_valid_format path ≡ false)
    → pathparser_parse path ≡ some none
unfolding pathparser_parse
parse_refused path bad = ground arith

parse_accepted :
    (path : List ℕ) (parts : List (List ℕ))
    → length path ≤ 108
    → pathparser_path_valid_format path ≡ true
    → parse_parts (length path + 1) (drop 3 path) ≡ some parts
    → pathparser_parse path
      ≡ some (some (record { drive_no = tonumericdigit (get_or path 0 0); parts = parts }))
unfolding pathparser_parse
parse_accepted path parts h valid e = ground arith

three-le-length : (path : List ℕ) → pathparser_path_valid_format path ≡ true → 3 ≤ length path
unfolding pathparser_path_valid_format
three-le-length path valid = ground arith

accepted_parts :
    (path : List ℕ)
    → length path ≤ 108
    → pathparser_path_valid_format path ≡ true
    → Parsed (length path + 1) (drop 3 path)
accepted_parts path h valid =
    parse_parts_total (length path + 1) (drop 3 path) (omega (arith, length-drop 3 path))
      (omega (arith, length-drop 3 path, three-le-length path valid))

-- Every path is parsed without a write past a buffer: to NULL, or to a root whose parts are not
-- empty, have no slash and are at most 105 bytes long.
pub pathparser_parse_total :
    (path : List ℕ)
    → (pathparser_parse path ≡ some none)
      ⊎ ((root : PathRoot) × (pathparser_parse path ≡ some (some root)) × All IsPart root.parts)
pathparser_parse_total path = elim (dec_le (length path) 108) [
  | no long ↦ inl (parse_refused path (inl (omega arith)))
  | yes short ↦ elim (Bool-cases (pathparser_path_valid_format path)) [
    | inr bad ↦ inl (parse_refused path (inr bad))
    | inl valid ↦
        let parsed = accepted_parts path short valid in
        inr (
          record { drive_no = tonumericdigit (get_or path 0 0); parts = parsed.parts },
          parse_accepted path parsed.parts short valid parsed.returns,
          parsed.each,
        )
  ]
]

-- A path is refused exactly where it is longer than 108 bytes or does not begin with a digit, a
-- colon and a slash.
pub pathparser_parse-null_iff :
    (path : List ℕ)
    → (pathparser_parse path ≡ some none)
      ↔ ((108 < length path) ⊎ (pathparser_path_valid_format path ≡ false))
pathparser_parse-null_iff path = (λ e. refused e, λ bad. parse_refused path bad)
  where
    refused :
        pathparser_parse path ≡ some none
        → (108 < length path) ⊎ (pathparser_path_valid_format path ≡ false)
    refused e = elim (dec_le (length path) 108) [
      | no long ↦ inl (omega arith)
      | yes short ↦ elim (Bool-cases (pathparser_path_valid_format path)) [
        | inr bad ↦ inr bad
        | inl valid ↦
            let parsed = accepted_parts path short valid in
            absurd (cc (parse_accepted path parsed.parts short valid parsed.returns))
      ]
    ]
