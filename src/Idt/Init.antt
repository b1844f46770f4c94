-- ===== src/Idt/Init.antt =====
-- idt_init of src/idt/idt.c. The addresses of the stubs, of idt_zero and of isr80h_wrapper are arguments.
use alpha_os.Prelude.{
  ℕ, zero, suc, ◌+◌, ◌≤◌, ◌<◌, ◌≡◌, sym, ◌∙◌, Option, none, some, List, length, get_or, length-set,
  replicate, ◌==◌, ltb, leb, if◌then◌else◌, true, false, pos, arith, get_or-set_self, get_or-set_ne,
  ◌>>=◌,
}
use native.Mathlib.Decide.{ℕ_discrete}
use alpha_os.Idt.{IdtDesc, idt_set, set_loop, total_interrupts, idt_register_interrupt_callback}

abbrev pub zero_desc : IdtDesc
zero_desc = record { offset_1 = 0; selector = 0; zero_field = 0; type_attr = 0; offset_2 = 0 }

-- The descriptors that idt_init makes from the table of stubs.
unfoldable pub init_descriptors : List ℕ → ℕ → ℕ → Option (List IdtDesc)
unfolding set_loop idt_set
init_descriptors table idt_zero isr80h_wrapper = do
  descriptors ← set_loop table 0 (replicate total_interrupts zero_desc)
  descriptors' ← idt_set descriptors 0 idt_zero
  idt_set descriptors' 0x80 isr80h_wrapper

module _ {ℓ} {S : Type ℓ} where
  -- The loop over the exceptions from `i` on, with `left` to go.
  unfoldable pub register_loop : ℕ → ℕ → (S → S) → List (Option (S → S)) → List (Option (S → S))
  unfolding idt_register_interrupt_callback
  register_loop zero i idt_handle_exception callbacks = callbacks
  register_loop (suc left) i idt_handle_exception callbacks =
      register_loop left (i + 1) idt_handle_exception
        (idt_register_interrupt_callback callbacks (pos i) idt_handle_exception).1

  -- The callbacks that idt_init registers.
  unfoldable pub init_callbacks : (S → S) → (S → S) → List (Option (S → S)) → List (Option (S → S))
  unfolding register_loop idt_register_interrupt_callback
  init_callbacks idt_handle_exception idt_clock callbacks =
      (idt_register_interrupt_callback (register_loop 0x20 0 idt_handle_exception callbacks)
        (pos 0x20) idt_clock).1

  pub register-at :
      (callbacks : List (Option (S → S))) (i n : ℕ) (callback : S → S)
      → length callbacks ≡ 512
      → i < 512
      → (get_or (idt_register_interrupt_callback callbacks (pos i) callback).1 n none
          ≡ (if n == i then some callback else get_or callbacks n none))
        × (length (idt_register_interrupt_callback callbacks (pos i) callback).1 ≡ 512)
  unfolding idt_register_interrupt_callback
  register-at callbacks i n callback full h =
      let t : leb 512 i ≡ false = ground arith in
      elim (ℕ_discrete n i) [
        | yes e ↦
            let u : (n == i) ≡ true = ground arith in
            (
              rw (t, u, e) (get_or-set_self callbacks i (some callback) none (omega arith)),
              rw t (length-set callbacks i (some callback) ∙ full),
            )
        | no ne ↦
            let u : (n == i) ≡ false = ground arith in
            (
              rw (t, u) (get_or-set_ne callbacks i n (some callback) none (λ e. ne (sym e))),
              rw t (length-set callbacks i (some callback) ∙ full),
            )
      ]

  register_loop_lem :
      (left i n : ℕ) (callback : S → S) (callbacks : List (Option (S → S)))
      → length callbacks ≡ 512
      → i + left ≤ 512
      → (get_or (register_loop left i callback callbacks) n none ≡ (
          if leb i n
          then (if ltb n (i + left) then some callback else get_or callbacks n none)
          else get_or callbacks n none))
        × (length (register_loop left i callback callbacks) ≡ 512)
  unfolding register_loop
  register_loop_lem zero i n callback callbacks full h = (ground arith, full)
  register_loop_lem (suc left) i n callback callbacks full h =
      let (at, full') = register-at callbacks i n callback full (omega arith) in
      let (rest, full'') =
        register_loop_lem left (i + 1) n callback
          (idt_register_interrupt_callback callbacks (pos i) callback).1 full' (omega arith) in
      (rest ∙ ground (arith, at), full'')

  -- After idt_init the interrupts below 0x20 have the handler of exceptions, 0x20 has the clock, and
  -- every other number has what it had.
  pub init_callbacks_lem :
      (exception clock : S → S) (callbacks : List (Option (S → S))) (n : ℕ)
      → length callbacks ≡ total_interrupts
      → get_or (init_callbacks exception clock callbacks) n none ≡ (
          if ltb n 0x20
          then some exception
          else if n == 0x20
          then some clock
          else get_or callbacks n none)
  unfolding init_callbacks
  init_callbacks_lem exception clock callbacks n full =
      let (all, full') = register_loop_lem 32 0 n exception callbacks full (omega arith) in
      (register-at (register_loop 32 0 exception callbacks) 32 n clock full' (omega arith)).0
      ∙ ground (arith, all)

  pub init_callbacks-length :
      (exception clock : S → S) (callbacks : List (Option (S → S)))
      → length callbacks ≡ total_interrupts
      → length (init_callbacks exception clock callbacks) ≡ total_interrupts
  unfolding init_callbacks
  init_callbacks-length exception clock callbacks full =
      let (_, full') = register_loop_lem 32 0 0 exception callbacks full (omega arith) in
      (register-at (register_loop 32 0 exception callbacks) 32 0 clock full' (omega arith)).1
