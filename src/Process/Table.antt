-- ===== src/Process/Table.antt =====
-- Slots in the table of processes of src/task/process.c.
use alpha_os.Prelude.{
  ℕ, zero, suc, ◌+◌, ◌<◌, ◌≡◌, ◌≢◌, refl, sym, ap, ◌∙◌, true, false, ◌==◌, leb, if◌then◌else◌, none,
  some, List, [], ◌∷◌, All, get_or, set, length, get_or-set_self, get_or-set_ne, length-set, ok,
  err, eistkn, pos, arith, ◌⊎◌, inl, inr,
}
use native.Mathlib.Decide.{ℕ_discrete}
use alpha_os.Process.Slots.{
  Processes, max_processes, process_get, process_get_free_slot, free_slot_loop, take_slot, any_loop,
  process_switch_to_any, process_unlink,
}

free_slot_loop_lem :
    (ps : List ℕ) (i : ℕ)
    → ((k : ℕ) × (free_slot_loop ps i ≡ ok (i + k))
        × (k < length ps)
        × (get_or ps k 0 ≡ 0)
        × ((j : ℕ) → j < k → get_or ps j 0 ≢ 0))
      ⊎ ((free_slot_loop ps i ≡ err eistkn) × All (λ p. p ≢ 0) ps)
unfolding free_slot_loop
free_slot_loop_lem [] i = inr (refl, tt)
free_slot_loop_lem (p ∷ ps) i = elim (ℕ_discrete p 0) [
  | yes e ↦
      let t : (p == 0) ≡ true = ground arith in
      inl (0, rw t (ap ok (omega arith)), omega arith, e, λ j h. absurd (omega arith))
  | no ne ↦
      let t : (p == 0) ≡ false = ground arith in
      elim (free_slot_loop_lem ps (i + 1)) [
        | inl (k, e, lt, z, before) ↦ inl (
          suc k,
          rw (t, e) (ap ok (omega arith)),
          omega arith,
          z,
          λ j h.
              elim j as (λ n. n < suc k → get_or (p ∷ ps) n 0 ≢ 0) [
                | zero ↦ λ lt'. ne
                | suc n ↦ λ lt'. before n (omega arith)
              ]
                h,
        )
        | inr (e, all) ↦ inr (rw t e, (ne, all))
      ]
]

All-get_or_ne : (ps : List ℕ) (n : ℕ) → All (λ p. p ≢ 0) ps → n < length ps → get_or ps n 0 ≢ 0
All-get_or_ne [] n all h = absurd (omega arith)
All-get_or_ne (p ∷ ps) zero all h = all.0
All-get_or_ne (p ∷ ps) (suc n) all h = All-get_or_ne ps n all.1 (omega arith)

-- A process in a slot.
pub taken :
    (s : Processes) (slot process n : ℕ)
    → length s.processes ≡ max_processes
    → slot < length s.processes
    → process_get (take_slot s slot process) (pos n)
      ≡ (if n == slot then process else process_get s (pos n))
unfolding process_get take_slot
taken s slot process n full lt = elim (ℕ_discrete n slot) [
  | yes e ↦
      let t : (n == slot) ≡ true = ground arith in
      let t' : leb max_processes n ≡ false = ground arith in
      rw (t, t', e) (get_or-set_self s.processes slot process 0 lt)
  | no ne ↦
      let t : (n == slot) ≡ false = ground arith in
      rw (t, get_or-set_ne s.processes slot n process 0 (λ e. ne (sym e))) refl
]

-- With a table of 12 entries, process_get_free_slot returns the first number under which process_get
-- finds no process, and then a process that takes the slot is what process_get finds under it, and the
-- other numbers give what they gave; or it returns -EISTKN, and every number has a process.
pub process_get_free_slot_lem :
    (s : Processes)
    → length s.processes ≡ max_processes
    → ((slot : ℕ) × (process_get_free_slot s ≡ ok slot)
        × (process_get s (pos slot) ≡ 0)
        × ((j : ℕ) → j < slot → process_get s (pos j) ≢ 0)
        × ((process n : ℕ)
            → process_get (take_slot s slot process) (pos n)
              ≡ (if n == slot then process else process_get s (pos n))))
      ⊎ ((process_get_free_slot s ≡ err eistkn)
          × ((n : ℕ) → n < max_processes → process_get s (pos n) ≢ 0))
unfolding process_get process_get_free_slot take_slot
process_get_free_slot_lem s full = elim (free_slot_loop_lem s.processes 0) [
  | inl (k, e, lt, z, before) ↦
      let t : leb max_processes k ≡ false = ground arith in
      inl (
        k,
        e ∙ ap ok (omega arith),
        rw t z,
        λ j h. (let t' : leb max_processes j ≡ false = ground arith in rw t' (before j h)),
        λ process n. taken s k process n full lt,
      )
  | inr (e, all) ↦ inr (
    e,
    λ n h.
        (let t : leb max_processes n ≡ false = ground arith in
          rw t (All-get_or_ne s.processes n all (omega arith))),
  )
]

any_loop_lem :
    (ps : List ℕ)
    → ((p k : ℕ) × (any_loop ps ≡ some p) × (k < length ps) × (get_or ps k 0 ≡ p) × (p ≢ 0))
      ⊎ ((any_loop ps ≡ none) × ((k : ℕ) → get_or ps k 0 ≡ 0))
unfolding any_loop
any_loop_lem [] = inr (refl, λ k. refl)
any_loop_lem (p ∷ ps) = elim (ℕ_discrete p 0) [
  | yes e ↦
      let t : (p == 0) ≡ true = ground arith in
      elim (any_loop_lem ps) [
        | inl (q, k, e', lt, got, nz) ↦ inl (q, suc k, rw t e', omega arith, got, nz)
        | inr (e', all) ↦
            inr
              (rw t e', λ k. elim k as (λ n. get_or (p ∷ ps) n 0 ≡ 0) [ zero ↦ e | suc n ↦ all n ])
      ]
  | no ne ↦ let t : (p == 0) ≡ false = ground arith in inl (p, 0, rw t refl, omega arith, refl, ne)
]

-- The current process is in the table, unless there is none.
abbrev pub IsCurrent : Processes → Type 0
IsCurrent s =
    (s.current_process ≡ 0)
    ⊎ ((n : ℕ) × (n < length s.processes) × (get_or s.processes n 0 ≡ s.current_process))

without : Processes → ℕ → Processes
without s id = record s { processes = set s.processes id 0 }

abbrev get_or_zero : List ℕ → ℕ → ℕ
get_or_zero ps k = get_or ps k 0

-- The table of 12 with an empty slot.
cleared :
    (s : Processes) (id current m : ℕ)
    → length s.processes ≡ max_processes
    → id < max_processes
    → process_get (record { processes = set s.processes id 0; current_process = current }) (pos m)
      ≡ (if m == id then 0 else process_get s (pos m))
unfolding take_slot process_get
cleared s id current m full inside = taken s id 0 m full (omega arith)

-- The numbers below 12 give what stands in the table, and the others NULL.
get_table :
    (s : Processes) (m : ℕ)
    → length s.processes ≡ max_processes
    → m < length s.processes
    → process_get s (pos m) ≡ get_or s.processes m 0
unfolding process_get
get_table s m full h = let t : leb max_processes m ≡ false = ground arith in rw t refl

get_zero : (s : Processes) (m : ℕ) → get_or s.processes m 0 ≡ 0 → process_get s (pos m) ≡ 0
unfolding process_get
get_zero s m e = ground (arith, e)

-- For a process in a slot of the table of 12 and in no other, where the current process is one of the
-- table or none, process_unlink empties its slot and no other, and the process is not the current one
-- afterwards: the current process stays if it was another, and is else one of the processes that are
-- left; where none is left, the kernel panics.
pub process_unlink_lem :
    (s : Processes) (process id : ℕ)
    → length s.processes ≡ max_processes
    → id < max_processes
    → process ≢ 0
    → process_get s (pos id) ≡ process
    → ((m : ℕ) → m ≢ id → process_get s (pos m) ≢ process)
    → IsCurrent s
    → ((s' : Processes) × (process_unlink s process id ≡ some s')
        × ((m : ℕ) → process_get s' (pos m) ≡ (if m == id then 0 else process_get s (pos m)))
        × (s'.current_process ≢ process)
        × ((s'.current_process ≡ s.current_process)
            ⊎ ((s.current_process ≡ process) × (s'.current_process ≢ 0)))
        × IsCurrent s')
      ⊎ ((process_unlink s process id ≡ none)
          × (s.current_process ≡ process)
          × ((m : ℕ) → m ≢ id → process_get s (pos m) ≡ 0))
unfolding process_unlink process_switch_to_any without
process_unlink_lem s process id full inside there at_id alone cur =
    let slot : get_or s.processes id 0 ≡ process =
      sym (get_table s id full (omega arith)) ∙ at_id in
    elim (ℕ_discrete s.current_process process) [
      | yes e ↦
          let t : (s.current_process == process) ≡ true = ground arith in
          elim (any_loop_lem (set s.processes id 0)) [
            | inl (p, k, e', lt, got, nz) ↦
                let other : k ≢ id = λ z. nz (
                  sym got
                  ∙ ap (get_or_zero (set s.processes id 0)) z
                  ∙ get_or-set_self s.processes id 0 0 (omega arith)) in
                let kept : get_or s.processes k 0 ≡ p =
                  sym (get_or-set_ne s.processes id k 0 0 (λ z. other (sym z))) ∙ got in
                let small : k < length s.processes =
                  omega (arith, lt, length-set s.processes id 0) in
                inl (
                  record { processes = set s.processes id 0; current_process = p },
                  rw (t, process_switch_to_any, e') refl,
                  λ m. cleared s id p m full inside,
                  λ z. alone k other (get_table s k full small ∙ kept ∙ z),
                  inr (e, nz),
                  inr (k, lt, got),
                )
            | inr (e', all) ↦ inr (
              rw (t, process_switch_to_any, e') refl,
              e,
              λ m ne.
                  get_zero s m (sym (get_or-set_ne s.processes id m 0 0 (λ z. ne (sym z))) ∙ all m),
            )
          ]
      | no ne ↦
          let t : (s.current_process == process) ≡ false = ground arith in
          inl (
            without s id,
            rw t refl,
            λ m. cleared s id s.current_process m full inside,
            ne,
            inl refl,
            elim cur [
              | inl z ↦ inl z
              | inr (n, lt, got) ↦ inr (
                n,
                omega (arith, length-set s.processes id 0),
                get_or-set_ne s.processes id n 0 0
                      (λ z. ne (sym got ∙ ap (get_or_zero s.processes) (sym z) ∙ slot))
                    ∙ got,
              )
            ],
          )
    ]
