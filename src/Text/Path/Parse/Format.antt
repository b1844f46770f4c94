-- ===== src/Text/Path/Parse/Format.antt =====
-- Parsing undoes the writing of a path.
use alpha_os.Prelude.{
  ℕ, zero, suc, ◌+◌, ◌≤◌, ◌<◌, ◌≡◌, ◌≢◌, refl, ap, ◌∙◌, true, some, List, [], ◌∷◌, ◌++◌, length,
  All, arith, pos, length-append,
}
use alpha_os.Text.Cstring.{tonumericdigit}
use alpha_os.Text.Path.{pathparser_path_valid_format, skip_slash, parse_parts, pathparser_parse}
use alpha_os.Text.Path.Parse.{
  field, beyond, IsPart, parse_parts_stop, parse_parts_next, parse_accepted,
}

-- The parts with a slash between each two.
unfoldable pub join : List (List ℕ) → List ℕ
join [] = []
join (p ∷ []) = p
join (p ∷ q ∷ parts) = p ++ b'/' ∷ join (q ∷ parts)

field-append : (p rest : List ℕ) → All (λ c. c ≢ b'/') p → field (p ++ b'/' ∷ rest) ≡ p
unfolding field
field-append [] rest h = refl
field-append (c ∷ p) rest h = ground (arith, h.0, field-append p rest h.1)

beyond-append : (p rest : List ℕ) → All (λ c. c ≢ b'/') p → beyond (p ++ b'/' ∷ rest) ≡ b'/' ∷ rest
unfolding beyond
beyond-append [] rest h = refl
beyond-append (c ∷ p) rest h = ground (arith, h.0, beyond-append p rest h.1)

field_whole : (p : List ℕ) → All (λ c. c ≢ b'/') p → (field p ≡ p) × (beyond p ≡ [])
unfolding field beyond
field_whole [] h = (refl, refl)
field_whole (c ∷ p) h = ground (arith, h.0, field_whole p h.1)

parse_nil : (fuel : ℕ) → 0 < fuel → parse_parts fuel [] ≡ some []
parse_nil zero h = absurd (omega arith)
parse_nil (suc fuel) h = parse_parts_stop fuel [] (omega arith) (unfold field in refl)

skip_whole : (p : List ℕ) → All (λ c. c ≢ b'/') p → skip_slash (beyond p) ≡ []
unfolding skip_slash
skip_whole p h = rw (field_whole p h).1

skip-append :
    (p rest : List ℕ) → All (λ c. c ≢ b'/') p → skip_slash (beyond (p ++ b'/' ∷ rest)) ≡ rest
unfolding skip_slash
skip-append p rest h = rw (beyond-append p rest h)

join_parts :
    (parts : List (List ℕ)) (fuel : ℕ)
    → All IsPart parts
    → length (join parts) < fuel
    → length (join parts) ≤ 105
    → parse_parts fuel (join parts) ≡ some parts
unfolding join
join_parts parts zero each h k = absurd (omega arith)
join_parts [] (suc fuel) each h k = parse_parts_stop fuel [] k (unfold field in refl)
join_parts ([] ∷ parts) (suc fuel) each h k = absurd (each.0.0 refl)
join_parts ((c ∷ p) ∷ []) (suc fuel) each h k =
    parse_parts_next fuel (c ∷ p) c p [] k (field_whole (c ∷ p) each.0.1).0
      (rw (skip_whole (c ∷ p) each.0.1) (parse_nil fuel (omega arith)))
join_parts ((c ∷ p) ∷ q ∷ parts) (suc fuel) each h k =
    parse_parts_next fuel (join ((c ∷ p) ∷ q ∷ parts)) c p (q ∷ parts) k
      (field-append (c ∷ p) (join (q ∷ parts)) each.0.1)
      (rw (skip-append (c ∷ p) (join (q ∷ parts)) each.0.1)
        (join_parts (q ∷ parts) fuel each.1 (omega (arith, longer)) (omega (arith, longer))))
  where
    longer : length (join ((c ∷ p) ∷ q ∷ parts)) ≡ length (c ∷ p) + suc (length (join (q ∷ parts)))
    longer = length-append (c ∷ p) (b'/' ∷ join (q ∷ parts))

-- The path that names a drive and parts.
unfoldable pub format : ℕ → List (List ℕ) → List ℕ
format drive parts = (b'0' + drive) ∷ b':' ∷ b'/' ∷ join parts

-- A path of at most 108 bytes that is written from a drive below 10 and parts that are not empty
-- and have no slash is parsed back to them.
pub pathparser_parse-format :
    (drive : ℕ) (parts : List (List ℕ))
    → drive < 10
    → All IsPart parts
    → length (format drive parts) ≤ 108
    → pathparser_parse (format drive parts)
      ≡ some (some (record { drive_no = pos drive; parts = parts }))
unfolding format
pathparser_parse-format drive parts small each short =
    parse_accepted (format drive parts) parts short valid
      (join_parts parts (length (format drive parts) + 1) each (omega arith) (omega arith))
    ∙ ap (λ d. some (some (record { drive_no = d; parts = parts }))) digit
  where
    valid : pathparser_path_valid_format (format drive parts) ≡ true
    valid = unfold pathparser_path_valid_format in ground arith

    digit : tonumericdigit (b'0' + drive) ≡ pos drive
    digit = unfold tonumericdigit in ground arith
