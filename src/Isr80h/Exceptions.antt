-- ===== src/Isr80h/Exceptions.antt =====
-- The handlers of exceptions and of the clock in src/idt/idt.c, on the machine.
use alpha_os.Prelude.{ℕ, Option, some, List, [], ◌∷◌, ◌>>=◌}
use alpha_os.Terminal.{print}
use alpha_os.Task.{task_next}
use alpha_os.Process.Terminate.{process_terminate}
use alpha_os.Isr80h.Commands.{Machine, Env, task_current}

-- "Program terminated due to an exception\n"
abbrev pub terminated_message : List ℕ
terminated_message =
    b'P' ∷ b'r' ∷ b'o' ∷ b'g' ∷ b'r' ∷ b'a' ∷ b'm' ∷ b' ' ∷ b't' ∷ b'e' ∷ b'r' ∷ b'm' ∷ b'i' ∷ b'n'
    ∷ b'a' ∷ b't' ∷ b'e' ∷ b'd' ∷ b' ' ∷ b'd' ∷ b'u' ∷ b'e' ∷ b' ' ∷ b't' ∷ b'o' ∷ b' ' ∷ b'a'
    ∷ b'n' ∷ b' ' ∷ b'e' ∷ b'x' ∷ b'c' ∷ b'e' ∷ b'p' ∷ b't' ∷ b'i' ∷ b'o' ∷ b'n' ∷ 10 ∷ []

-- "Division by zero exception\n"
abbrev pub division_message : List ℕ
division_message =
    b'D' ∷ b'i' ∷ b'v' ∷ b'i' ∷ b's' ∷ b'i' ∷ b'o' ∷ b'n' ∷ b' ' ∷ b'b' ∷ b'y' ∷ b' ' ∷ b'z' ∷ b'e'
    ∷ b'r' ∷ b'o' ∷ b' ' ∷ b'e' ∷ b'x' ∷ b'c' ∷ b'e' ∷ b'p' ∷ b't' ∷ b'i' ∷ b'o' ∷ b'n' ∷ 10 ∷ []

module _ {ℓ} {S : Type ℓ} where
  unfoldable pub idt_zero : Machine S → Machine S
  unfolding print
  idt_zero s = record s { terminal = print s.terminal division_message }

  unfoldable pub idt_handle_exception : Env → Machine S → Option (Machine S)
  unfolding task_current process_terminate print task_next
  idt_handle_exception env s = do
    t ← task_current s.world
    w ← process_terminate s.world t.process env.elf_address
    tasks ← task_next w.tasks
    some (record s {
      world = record w { tasks = tasks };
      terminal = print s.terminal terminated_message;
    })

  unfoldable pub idt_clock : Machine S → Option (Machine S)
  unfolding task_next
  idt_clock s = do
    tasks ← task_next s.world.tasks
    some (record s { world = record s.world { tasks = tasks } })
