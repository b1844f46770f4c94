-- ===== src/Text/Path/Tests.antt =====
-- Paths of the shell.
use Prim.Native.Char.{code}
use Prim.Native.String.{String}
use alpha_os.Prelude.{ℕ, ◌≡◌, refl, some, List, [], ◌∷◌, arith, pos, All}
use alpha_os.Text.Cstring.{tonumericdigit}
use alpha_os.Text.Path.{pathparser_parse, pathparser_path_valid_format, parse_parts}
use alpha_os.Text.Path.Parse.{IsPart}
use alpha_os.Text.Path.Parse.Format.{format, join, pathparser_parse-format}

abbrev codes : String → List ℕ
codes String.[] = []
codes (String.◌∷◌ c s) = code c ∷ codes s

abbrev shell_parts : List (List ℕ)
shell_parts = codes "bin" ∷ codes "shell.elf" ∷ []

parse_shell :
    pathparser_parse (codes "0:/bin/shell.elf")
    ≡ some (some (record { drive_no = pos 0; parts = shell_parts }))
unfolding pathparser_parse parse_parts pathparser_path_valid_format tonumericdigit
parse_shell = refl

-- An empty part ends the path.
parse_double_slash :
    pathparser_parse (codes "1:/a//b")
    ≡ some (some (record { drive_no = pos 1; parts = codes "a" ∷ [] }))
unfolding pathparser_parse parse_parts pathparser_path_valid_format tonumericdigit
parse_double_slash = refl

shell_parts-All : All IsPart shell_parts
shell_parts-All = ground arith

pathparser_parse-format_example :
    pathparser_parse (format 0 shell_parts)
    ≡ some (some (record { drive_no = pos 0; parts = shell_parts }))
pathparser_parse-format_example =
    pathparser_parse-format 0 shell_parts (omega arith) shell_parts-All
      (unfold format join in omega arith)
