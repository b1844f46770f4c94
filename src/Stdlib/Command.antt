-- ===== src/Stdlib/Command.antt =====
-- Command lines in programs/stdlib/src/alphaos.c, over the memory of the program with the `sp` of strtok.
-- A list of `struct command_argument` is the list of the texts in its nodes.
pub mod Split
use alpha_os.Prelude.{
  ℕ, zero, suc, ltb, ◌==◌, if◌then◌else◌, Option, none, some, List, [], ◌∷◌, Ram, ℤ, negsuc, ◌>>=◌,
}
use alpha_os.Text.Cstring.{strncpy}
use alpha_os.Text.Cstring.Compare.{text}
use alpha_os.Stdlib.Strtok.{strtok}

-- The loop over the tokens, of which the source writes the first round out. `mallocs` is the number of
-- calls of malloc that succeed; strncpy leaves in a node at most 511 bytes of its token.
unfoldable pub parse_loop : ℕ → Ram → ℕ → ℕ → ℕ → Option (List (List ℕ) × ℕ × Ram)
unfolding strtok
parse_loop zero ram sp mallocs token = none
parse_loop (suc fuel) ram sp mallocs token =
    if token == 0 then some ([], sp, ram) else elim mallocs [
      | zero ↦ some ([], sp, ram)
      | suc mallocs' ↦ do
        (token', sp', ram') ← strtok (suc fuel) ram sp 0 (b' ' ∷ [])
        (arguments, sp_end, ram_end) ← parse_loop fuel ram' sp' mallocs' token'
        some (text ram token 511 ∷ arguments, sp_end, ram_end)
    ]

-- `scommand` is the address of the function's copy of the line. The list is empty for NULL.
unfoldable pub alphaos_parse_command :
    ℕ → Ram → ℕ → ℕ → ℕ → ℕ → ℕ → Option (List (List ℕ) × ℕ × Ram)
unfolding parse_loop strtok
alphaos_parse_command fuel ram sp scommand mallocs command max =
    if ltb 1025 max then some ([], sp, ram) else do
      (token, sp', ram') ← strtok fuel (strncpy ram scommand command 1025) sp scommand (b' ' ∷ [])
      parse_loop fuel ram' sp' mallocs token

-- `buff` and `scommand` are the local buffers; `system` is what __system returns for the arguments.
unfoldable pub system_run : (List (List ℕ) → ℤ) → ℕ → Ram → ℕ → ℕ → ℕ → ℕ → ℕ → Option (ℤ × ℕ × Ram)
unfolding alphaos_parse_command
system_run system fuel ram sp buff scommand mallocs command = do
  (arguments, sp', ram') ←
      alphaos_parse_command fuel (strncpy ram buff command 1024) sp scommand mallocs buff 1024
  elim arguments [
    | [] ↦ some (negsuc 0, sp', ram')
    | a ∷ rest ↦ some (system (a ∷ rest), sp', ram')
  ]
