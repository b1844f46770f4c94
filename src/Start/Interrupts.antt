-- ===== src/Start/Interrupts.antt =====
-- The callbacks that kernel_main of src/kernel.c registers, through idt_init and keyboard_init.
use alpha_os.Prelude.{
  ℕ, ◌≡◌, ◌∙◌, if◌then◌else◌, ltb, ◌==◌, Option, none, some, get_or, length, length-replicate,
  replicate, arith, refl, ◌<◌, ◌≢◌, List, get_elem?, true, false, zero, suc,
}
use native.Mathlib.Decide.{ℕ_discrete, dec_lt}
use alpha_os.Idt.{TaskOps, IdtDesc, total_interrupts, interrupt_handler}
use alpha_os.Idt.Gates.{gate_to, init_descriptors_lem}
use alpha_os.Idt.Init.{
  init_descriptors, init_callbacks, init_callbacks_lem, init_callbacks-length, register-at,
}
use alpha_os.Start.{Running, Callbacks, keyboard_init, classic_keyboard_init}

-- An interrupt below 0x20 has the handler of exceptions, 0x20 has the clock, 0x21 has the keyboard, and
-- every other number has what it had.
pub keyboard_init-callbacks :
    (exception clock keyboard : Running → Running) (callbacks : Callbacks) (n : ℕ)
    → length callbacks ≡ total_interrupts
    → get_or (keyboard_init keyboard (init_callbacks exception clock callbacks)).1 n none ≡ (
        if ltb n 0x20
        then some exception
        else if n == 0x20
        then some clock
        else if n == 0x21
        then some keyboard
        else get_or callbacks n none)
unfolding keyboard_init classic_keyboard_init
keyboard_init-callbacks exception clock keyboard callbacks n full =
    (register-at (init_callbacks exception clock callbacks) 0x21 n keyboard
      (init_callbacks-length exception clock callbacks full) (omega arith)).0
    ∙ ground (arith, init_callbacks_lem exception clock callbacks n full)

no_callback :
    (n total : ℕ) → get_or (replicate {A = Option (Running → Running)} total none) n none ≡ none
no_callback n zero = refl
no_callback zero (suc total) = refl
no_callback (suc n) (suc total) = no_callback n total

-- The callbacks on a table of zeros.
abbrev zeroed : (Running → Running) → (Running → Running) → (Running → Running) → Callbacks
zeroed exception clock keyboard =
    (keyboard_init keyboard (init_callbacks exception clock (replicate total_interrupts none))).1

zeroed-at :
    (exception clock keyboard : Running → Running) (n : ℕ)
    → get_or (zeroed exception clock keyboard) n none ≡ (
        if ltb n 0x20
        then some exception
        else if n == 0x20
        then some clock
        else if n == 0x21
        then some keyboard
        else get_or (replicate {A = Option (Running → Running)} total_interrupts none) n none)
zeroed-at exception clock keyboard n =
    keyboard_init-callbacks exception clock keyboard (replicate total_interrupts none) n
      (length-replicate {A = Option (Running → Running)} total_interrupts none)

handled_by :
    (ops : TaskOps Running) (callbacks : Callbacks) (n frame : ℕ) (s : Running)
    (callback : Running → Running)
    → get_or callbacks n none ≡ some callback
    → interrupt_handler ops callbacks n frame s
      ≡ ops.task_page (callback (ops.task_current_save_state frame (ops.kernel_page s)))
unfolding interrupt_handler
handled_by ops callbacks n frame s callback e = rw (interrupt_handler, e) refl

ignored :
    (ops : TaskOps Running) (callbacks : Callbacks) (n frame : ℕ) (s : Running)
    → get_or callbacks n none ≡ none
    → interrupt_handler ops callbacks n frame s ≡ ops.task_page (ops.kernel_page s)
unfolding interrupt_handler
ignored ops callbacks n frame s e = rw (interrupt_handler, e) refl

-- The handler on the callbacks of idt_init and keyboard_init.
handler_runs :
    (ops : TaskOps Running) (exception clock keyboard : Running → Running) (n frame : ℕ)
    (s : Running)
    → interrupt_handler ops
        (keyboard_init keyboard
          (init_callbacks exception clock (replicate total_interrupts none))).1
        n
        frame
        s
      ≡ ops.task_page (
          if ltb n 0x22
          then (if ltb n 0x20 then exception else if n == 0x20 then clock else keyboard)
              (ops.task_current_save_state frame (ops.kernel_page s))
          else ops.kernel_page s)
handler_runs ops exception clock keyboard n frame s =
    let callbacks = zeroed exception clock keyboard in
    elim (dec_lt n 0x20) [
      | yes low ↦
          let t : ltb n 0x20 ≡ true = ground arith in
          let u : ltb n 0x22 ≡ true = ground arith in
          rw (t, u)
            (handled_by ops callbacks n frame s exception
              (zeroed-at exception clock keyboard n ∙ rw t refl))
      | no high ↦
          let t : ltb n 0x20 ≡ false = ground arith in
          elim (ℕ_discrete n 0x20) [
            | yes e ↦
                let v : (n == 0x20) ≡ true = ground arith in
                let u : ltb n 0x22 ≡ true = ground arith in
                rw (t, u, v)
                  (handled_by ops callbacks n frame s clock
                    (zeroed-at exception clock keyboard n ∙ rw (t, v) refl))
            | no ne ↦
                let v : (n == 0x20) ≡ false = ground arith in
                elim (ℕ_discrete n 0x21) [
                  | yes e ↦
                      let w : (n == 0x21) ≡ true = ground arith in
                      let u : ltb n 0x22 ≡ true = ground arith in
                      rw (t, u, v)
                        (handled_by ops callbacks n frame s keyboard
                          (zeroed-at exception clock keyboard n ∙ rw (t, v, w) refl))
                  | no ne' ↦
                      let w : (n == 0x21) ≡ false = ground arith in
                      let u : ltb n 0x22 ≡ false = ground arith in
                      rw u (
                        ignored ops callbacks n frame s (
                          zeroed-at exception clock keyboard n
                          ∙ rw (t, v, w) (no_callback n total_interrupts)))
                ]
          ]
    ]

-- After idt_init the gate 0 leads to idt_zero, 0x80 to isr80h_wrapper, and any other below 512 to its
-- stub, which calls interrupt_handler with its number. After keyboard_init interrupt_handler then saves
-- the state of the task and runs, between the switches to the pages of the kernel and of the task, the
-- handler of exceptions for 1 to 0x1F, that of the clock for 0x20 and that of the keyboard for 0x21; for
-- any other of these interrupts it only switches the pages.
pub interrupt_handler-keyboard_init :
    (ops : TaskOps Running) (exception clock keyboard : Running → Running) (stubs : List ℕ)
    (idt_zero isr80h_wrapper n frame : ℕ) (s : Running)
    → length stubs ≡ total_interrupts
    → n < total_interrupts
    → n ≢ 0
    → n ≢ 0x80
    → (descriptors : List IdtDesc) × (init_descriptors stubs idt_zero isr80h_wrapper
        ≡ some descriptors)
      × (get_elem? descriptors 0 ≡ some (gate_to idt_zero))
      × (get_elem? descriptors 0x80 ≡ some (gate_to isr80h_wrapper))
      × (get_elem? descriptors n ≡ some (gate_to (get_or stubs n 0)))
      × (interrupt_handler ops
            (keyboard_init keyboard
              (init_callbacks exception clock (replicate total_interrupts none))).1
            n
            frame
            s
          ≡ ops.task_page (
              if ltb n 0x22
              then (if ltb n 0x20 then exception else if n == 0x20 then clock else keyboard)
                  (ops.task_current_save_state frame (ops.kernel_page s))
              else ops.kernel_page s))
interrupt_handler-keyboard_init ops exception clock keyboard stubs idt_zero isr80h_wrapper n frame s
      full h n0 n80 =
    let (descriptors, run, zero_gate, call_gate, others) =
      init_descriptors_lem stubs idt_zero isr80h_wrapper full in
    (
      descriptors,
      run,
      zero_gate,
      call_gate,
      others n h n0 n80,
      handler_runs ops exception clock keyboard n frame s,
    )
