-- ===== src/Idt.antt =====
-- src/idt/idt.c: interrupt descriptors, the callbacks of interrupts and the commands of system calls.
-- What the handlers work on is a type S; the addresses of the assembly stubs, and the steps of the
-- task part that the handlers call, are arguments.
pub mod Commands
pub mod Init
pub mod Gates
use alpha_os.Prelude.{
  ℕ, zero, suc, ◌+◌, ◌/◌, ◌^◌, Option, none, some, List, [], ◌∷◌, leb, if◌then◌else◌, get_or, set,
  set?, Result, ok, err, einvarg, ℤ, pos, negsuc, ◌>>=◌, bit_and, replicate, get_elem?,
}

abbrev pub total_interrupts : ℕ
total_interrupts = 512

abbrev pub max_isr80h_commands : ℕ
max_isr80h_commands = 1024

-- struct idt_desc
pub record IdtDesc : Type 0 where
  pub offset_1 : ℕ
  pub selector : ℕ
  pub zero_field : ℕ
  pub type_attr : ℕ
  pub offset_2 : ℕ

-- `none` is a write past the table.
unfoldable pub idt_set : List IdtDesc → ℕ → ℕ → Option (List IdtDesc)
idt_set descriptors interrupt_no address = set? descriptors interrupt_no (record {
  offset_1 = bit_and address 0xFFFF;
  selector = 0x08;
  zero_field = 0;
  type_attr = 0xEE;
  offset_2 = address / 2 ^ 16;
})

-- The loop over the stubs of the pointer table, from interrupt `i` on.
unfoldable pub set_loop : List ℕ → ℕ → List IdtDesc → Option (List IdtDesc)
unfolding idt_set
set_loop [] i descriptors = some descriptors
set_loop (address ∷ table) i descriptors =
    idt_set descriptors i address >>= λ descriptors'. set_loop table (i + 1) descriptors'

-- What the handlers call of the task part.
pub record TaskOps {ℓ} (S : Type ℓ) : Type ℓ where
  pub kernel_page : S → S
  pub task_page : S → S
  pub task_current_save_state : ℕ → S → S

module _ {ℓ} {S : Type ℓ} where
  -- interrupt_callbacks
  unfoldable pub idt_register_interrupt_callback :
      List (Option (S → S)) → ℤ → (S → S) → Result ℕ × List (Option (S → S))
  idt_register_interrupt_callback callbacks (negsuc n) callback = (err einvarg, callbacks)
  idt_register_interrupt_callback callbacks (pos n) callback =
      if leb total_interrupts n
      then (err einvarg, callbacks)
      else (ok 0, set callbacks n (some callback))

  -- isr80h_commands: a command gets the frame and returns a pointer. `none` is a panic.
  unfoldable pub isr80h_register_command :
      List (Option (ℕ → S → ℕ × S)) → ℤ → (ℕ → S → ℕ × S) → Option (List (Option (ℕ → S → ℕ × S)))
  isr80h_register_command commands (negsuc n) command = none
  isr80h_register_command commands (pos n) command =
      if leb max_isr80h_commands n then none else elim (get_or commands n none) [
        | some _ ↦ none
        | none ↦ some (set commands n (some command))
      ]

  unfoldable pub isr80h_handle_command : List (Option (ℕ → S → ℕ × S)) → ℤ → ℕ → S → ℕ × S
  isr80h_handle_command commands (negsuc n) frame s = (0, s)
  isr80h_handle_command commands (pos n) frame s =
      if leb max_isr80h_commands n
      then (0, s)
      else elim (get_or commands n none) [ none ↦ (0, s) | some command ↦ command frame s ]

  unfoldable pub interrupt_handler : TaskOps S → List (Option (S → S)) → ℕ → ℕ → S → S
  interrupt_handler ops callbacks interrupt frame s =
      let s1 = ops.kernel_page s in
      elim (get_or callbacks interrupt none) [
        | none ↦ ops.task_page s1
        | some callback ↦ ops.task_page (callback (ops.task_current_save_state frame s1))
      ]

  unfoldable pub isr80h_handler : TaskOps S → List (Option (ℕ → S → ℕ × S)) → ℤ → ℕ → S → ℕ × S
  unfolding isr80h_handle_command
  isr80h_handler ops commands command frame s =
      let (res, s') =
        isr80h_handle_command commands command frame
          (ops.task_current_save_state frame (ops.kernel_page s)) in
      (res, ops.task_page s')
