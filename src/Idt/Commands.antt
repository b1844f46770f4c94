-- ===== src/Idt/Commands.antt =====
-- Registering a command and calling it.
use alpha_os.Prelude.{
  ℕ, ◌<◌, ◌≡◌, ◌≢◌, refl, ap, Option, none, some, List, length, leb, get_or, set, pos, arith,
  get_or-set_self, get_or-set_ne, false,
}
use alpha_os.Idt.{TaskOps, isr80h_register_command, isr80h_handle_command, isr80h_handler}

module _ {ℓ} {S : Type ℓ} where
  register-eq :
      (commands : List (Option (ℕ → S → ℕ × S))) (n : ℕ) (command : ℕ → S → ℕ × S)
      → n < 1024
      → get_or commands n none ≡ none
      → isr80h_register_command commands (pos n) command ≡ some (set commands n (some command))
  unfolding isr80h_register_command
  register-eq commands n command h free = ground (arith, free)

  handle_registered :
      (commands : List (Option (ℕ → S → ℕ × S))) (n : ℕ) (command : ℕ → S → ℕ × S) (frame : ℕ)
      (s : S)
      → n < 1024
      → get_or commands n none ≡ some command
      → isr80h_handle_command commands (pos n) frame s ≡ command frame s
  unfolding isr80h_handle_command
  handle_registered commands n command frame s h e =
      let e' : leb 1024 n ≡ false = ground arith in rw (isr80h_handle_command, e', e) refl

  handle_other :
      (commands commands' : List (Option (ℕ → S → ℕ × S))) (m : ℕ) (frame : ℕ) (s : S)
      → get_or commands' m none ≡ get_or commands m none
      → isr80h_handle_command commands' (pos m) frame s
        ≡ isr80h_handle_command commands (pos m) frame s
  unfolding isr80h_handle_command
  handle_other commands commands' m frame s e = rw (isr80h_handle_command, e) refl

  -- A command that is registered under a free number below 1024 is what a system call of that number
  -- runs, between the switches to the kernel's and the task's pages; the other numbers do what they did.
  pub isr80h_handler-register :
      (ops : TaskOps S) (commands : List (Option (ℕ → S → ℕ × S))) (n m frame : ℕ)
      (command : ℕ → S → ℕ × S) (s : S)
      → length commands ≡ 1024
      → n < 1024
      → get_or commands n none ≡ none
      → n ≢ m
      → (commands' : List (Option (ℕ → S → ℕ × S))) × (isr80h_register_command commands
            (pos n)
            command
          ≡ some commands')
        × (isr80h_handler ops commands' (pos n) frame s ≡ (
            let (res, s') = command frame (ops.task_current_save_state frame (ops.kernel_page s)) in
            (res, ops.task_page s')))
        × (isr80h_handler ops commands' (pos m) frame s
            ≡ isr80h_handler ops commands (pos m) frame s)
  unfolding isr80h_handler
  isr80h_handler-register ops commands n m frame command s size h free ne =
      let commands' = set commands n (some command) in
      let s1 = ops.task_current_save_state frame (ops.kernel_page s) in
      (
        commands',
        register-eq commands n command h free,
        ap (λ (r : ℕ × S). (r.0, ops.task_page r.1))
            (handle_registered commands' n command frame s1 h
              (get_or-set_self commands n (some command) none (omega arith))),
        ap (λ (r : ℕ × S). (r.0, ops.task_page r.1))
            (handle_other commands commands' m frame s1
              (get_or-set_ne commands n m (some command) none ne)),
      )
