-- ===== src/Idt/Gates.antt =====
-- Where the gates that idt_init of src/idt/idt.c sets lead.
use alpha_os.Prelude.{
  ℕ, zero, suc, ◌+◌, ◌/◌, ◌%◌, ◌^◌, ◌≤◌, ◌<◌, ◌≡◌, ◌≢◌, refl, sym, ap, ◌∙◌, some, List, [], ◌∷◌,
  length, get_or, get_elem?, bit_and, set, set?-in_range, get_elem?-set_self, get_elem?-set_ne,
  length-set, replicate, length-replicate, bit_and-low_mask, ◌>>=◌, arith,
}
use alpha_os.Idt.{IdtDesc, idt_set, set_loop, total_interrupts}
use alpha_os.Idt.Init.{zero_desc, init_descriptors}

-- A 32-bit interrupt gate of the kernel's code segment that a program may call, to an address.
abbrev pub gate_to : ℕ → IdtDesc
gate_to address = record {
  offset_1 = address % 2 ^ 16;
  selector = 0x08;
  zero_field = 0;
  type_attr = 0xEE;
  offset_2 = address / 2 ^ 16;
}

idt_set_lem :
    (ds : List IdtDesc) (n address : ℕ)
    → n < length ds
    → idt_set ds n address ≡ some (set ds n (gate_to address))
unfolding idt_set
idt_set_lem ds n address h =
    set?-in_range ds n (record (gate_to address) { offset_1 = bit_and address 0xFFFF }) h
    ∙ ap (λ o. some (set ds n (record (gate_to address) { offset_1 = o })))
        (bit_and-low_mask 16 address)

-- The stubs from interrupt `i` on.
set_loop_lem :
    (table : List ℕ) (i : ℕ) (ds : List IdtDesc)
    → i + length table ≤ length ds
    → (ds' : List IdtDesc) × (set_loop table i ds ≡ some ds')
      × (length ds' ≡ length ds)
      × ((n : ℕ) → n < i → get_elem? ds' n ≡ get_elem? ds n)
      × ((k : ℕ) → k < length table → get_elem? ds' (i + k) ≡ some (gate_to (get_or table k 0)))
unfolding set_loop
set_loop_lem [] i ds room = (ds, refl, refl, λ n h. refl, λ k h. absurd (omega arith))
set_loop_lem (a ∷ table) i ds room =
    let ds1 = set ds i (gate_to a) in
    let same = length-set ds i (gate_to a) in
    let (ds', run, len, below, at) = set_loop_lem table (i + 1) ds1 (omega (arith, same)) in
    (
      ds',
      rw (idt_set_lem ds i a (omega arith), ◌>>=◌) run,
      len ∙ same,
      λ n h.
          below n (omega arith) ∙ get_elem?-set_ne ds i n (gate_to a) (λ e. absurd (omega arith)),
      λ k h.
          elim k
              as (λ j.
                j < suc (length table)
                → get_elem? ds' (i + j) ≡ some (gate_to (get_or (a ∷ table) j 0))) [
                  | zero ↦ λ lt.
                      ap (get_elem? ds') (omega arith)
                      ∙ below i (omega arith)
                      ∙ get_elem?-set_self ds i (gate_to a) (omega arith)
                  | suc j ↦ λ lt. ap (get_elem? ds') (omega arith) ∙ at j (omega arith)
                ]
            h,
    )

-- After idt_init the gate 0 leads to idt_zero, 0x80 to isr80h_wrapper, and every other below 512 to its
-- stub.
pub init_descriptors_lem :
    (table : List ℕ) (idt_zero isr80h_wrapper : ℕ)
    → length table ≡ total_interrupts
    → (ds : List IdtDesc) × (init_descriptors table idt_zero isr80h_wrapper ≡ some ds)
      × (get_elem? ds 0 ≡ some (gate_to idt_zero))
      × (get_elem? ds 0x80 ≡ some (gate_to isr80h_wrapper))
      × ((n : ℕ)
          → n < total_interrupts
          → n ≢ 0
          → n ≢ 0x80
          → get_elem? ds n ≡ some (gate_to (get_or table n 0)))
unfolding init_descriptors
init_descriptors_lem table idt_zero isr80h_wrapper full =
    let blank : List IdtDesc = replicate total_interrupts zero_desc in
    let size = length-replicate {A = IdtDesc} total_interrupts zero_desc in
    let (ds, run, len, below, at) = set_loop_lem table 0 blank (omega (arith, size)) in
    let ds1 = set ds 0 (gate_to idt_zero) in
    let len1 = length-set ds 0 (gate_to idt_zero) in
    (
      set ds1 0x80 (gate_to isr80h_wrapper),
      rw
          (
            run,
            ◌>>=◌,
            idt_set_lem ds 0 idt_zero (omega (arith, len, size)),
            idt_set_lem ds1 0x80 isr80h_wrapper (omega (arith, len, size, len1)),
          )
          refl,
      get_elem?-set_ne ds1 0x80 0 (gate_to isr80h_wrapper) (λ e. omega (arith, e))
          ∙ get_elem?-set_self ds 0 (gate_to idt_zero) (omega (arith, len, size)),
      get_elem?-set_self ds1 0x80 (gate_to isr80h_wrapper) (omega (arith, len, size, len1)),
      λ n h n0 n80.
          get_elem?-set_ne ds1 0x80 n (gate_to isr80h_wrapper) (λ e. n80 (sym e))
          ∙ get_elem?-set_ne ds 0 n (gate_to idt_zero) (λ e. n0 (sym e))
          ∙ ap (get_elem? ds) (omega arith)
          ∙ at n (omega arith),
    )
