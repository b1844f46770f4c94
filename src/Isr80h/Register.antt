-- ===== src/Isr80h/Register.antt =====
-- isr80h_register_commands of src/isr80h/isr80h.c, and the dispatch of src/idt/idt.c on what it registers.
use alpha_os.Prelude.{ℕ, ◌+◌, ◌≤◌, ◌≡◌, Option, none, some, List, [], ◌∷◌, pos, ◌>>=◌}
use alpha_os.Idt.{isr80h_register_command, isr80h_handle_command}
use alpha_os.Isr80h.Commands.{
  Machine, Env, isr80h_command0_sum, isr80h_command1_print, isr80h_command2_getkey,
  isr80h_command3_putchar, isr80h_command4_malloc, isr80h_command5_free,
  isr80h_command6_process_load_start, isr80h_command7_invoke_system_command,
  isr80h_command8_get_program_arguments, isr80h_command9_exit,
}

-- enum SystemCommands
pub data SystemCommands : Type 0 where
  sum print getkey putchar malloc free process_load_start invoke_system_command : SystemCommands
  get_program_arguments exit : SystemCommands

abbrev pub number : SystemCommands → ℕ
number sum = 0
number print = 1
number getkey = 2
number putchar = 3
number malloc = 4
number free = 5
number process_load_start = 6
number invoke_system_command = 7
number get_program_arguments = 8
number exit = 9

-- A handler gets a frame, and the machine.
abbrev pub Handler : Type 0 → Type 0
Handler M = ℕ → M → ℕ × M

module _ {M : Type 0} where
  -- Calls of isr80h_register_command, one after the other.
  unfoldable pub register_all :
      List (Option (Handler M)) → List (ℕ × Handler M) → Option (List (Option (Handler M)))
  unfolding isr80h_register_command
  register_all commands [] = some commands
  register_all commands ((command_id, h) ∷ calls) = do
    commands' ← isr80h_register_command commands (pos command_id) h
    register_all commands' calls

  -- The numbers of the calls count up from `i`.
  Numbered : ℕ → List (ℕ × Handler M) → Type 0
  Numbered i [] = Unit {0}
  Numbered i (call ∷ calls) = (call.0 ≡ i) × Numbered (i + 1) calls

  -- The handlers of the calls.
  handlers_of : List (ℕ × Handler M) → List (Handler M)
  handlers_of [] = []
  handlers_of (call ∷ calls) = call.1 ∷ handlers_of calls

module _ {S : Type 0} where
  -- On a machine that may have stopped.
  unfoldable pub handler : (Machine S → Option (ℕ × Machine S)) → Handler (Option (Machine S))
  handler command frame s = elim (s >>= command) [
    | none ↦ (0, none)
    | some (res, s') ↦ (res, some s')
  ]

  -- The number and the handler of each registration.
  abbrev pub registrations : Env → List (ℕ × Handler (Option (Machine S)))
  registrations env =
      (number sum, handler (isr80h_command0_sum env))
      ∷ (number print, handler (isr80h_command1_print env))
      ∷ (number getkey, handler (isr80h_command2_getkey env))
      ∷ (number putchar, handler (isr80h_command3_putchar env))
      ∷ (number malloc, handler (isr80h_command4_malloc env))
      ∷ (number free, handler (isr80h_command5_free env))
      ∷ (number process_load_start, handler (isr80h_command6_process_load_start env))
      ∷ (number invoke_system_command, handler (isr80h_command7_invoke_system_command env))
      ∷ (number get_program_arguments, handler (isr80h_command8_get_program_arguments env))
      ∷ (number exit, handler (isr80h_command9_exit env))
      ∷ []

  unfoldable pub isr80h_register_commands :
      Env
      → List (Option (Handler (Option (Machine S))))
      → Option (List (Option (Handler (Option (Machine S)))))
  unfolding register_all
  isr80h_register_commands env commands = register_all commands (registrations env)

  -- What a system call of each number runs.
  pub record IsServed (env : Env) (commands : List (Option (Handler (Option (Machine S)))))
      (frame : ℕ) (s : Option (Machine S)) : Type 0 where
    pub at_0 :
        isr80h_handle_command commands (pos 0) frame s ≡ handler (isr80h_command0_sum env) frame s
    pub at_1 :
        isr80h_handle_command commands (pos 1) frame s ≡ handler (isr80h_command1_print env) frame s
    pub at_2 :
        isr80h_handle_command commands (pos 2) frame s
        ≡ handler (isr80h_command2_getkey env) frame s
    pub at_3 :
        isr80h_handle_command commands (pos 3) frame s
        ≡ handler (isr80h_command3_putchar env) frame s
    pub at_4 :
        isr80h_handle_command commands (pos 4) frame s
        ≡ handler (isr80h_command4_malloc env) frame s
    pub at_5 :
        isr80h_handle_command commands (pos 5) frame s ≡ handler (isr80h_command5_free env) frame s
    pub at_6 :
        isr80h_handle_command commands (pos 6) frame s
        ≡ handler (isr80h_command6_process_load_start env) frame s
    pub at_7 :
        isr80h_handle_command commands (pos 7) frame s
        ≡ handler (isr80h_command7_invoke_system_command env) frame s
    pub at_8 :
        isr80h_handle_command commands (pos 8) frame s
        ≡ handler (isr80h_command8_get_program_arguments env) frame s
    pub at_9 :
        isr80h_handle_command commands (pos 9) frame s ≡ handler (isr80h_command9_exit env) frame s
    pub other : (n : ℕ) → 10 ≤ n → isr80h_handle_command commands (pos n) frame s ≡ (0, s)
