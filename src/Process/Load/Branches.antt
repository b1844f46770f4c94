-- ===== src/Process/Load/Branches.antt =====
-- What process_load_switch of src/task/process.c does with the table of processes, on every branch.
use alpha_os.Prelude.{
  ℕ, ◌≡◌, ◌≢◌, ◌<◌, refl, sym, ap, subst, ◌⊎◌, inl, inr, ◌∙◌, true, false, ◌==◌, if◌then◌else◌,
  Bool-cases, leb, Option, Option-cases, none, some, List, ok, err, Errno, eistkn, enomem, status,
  ℤ, pos, negsuc, take, length, arith, ◌>>=◌,
}
use native.Mathlib.Decide.{ℕ_discrete, dec_lt}
use alpha_os.Memory.Kheap.{Kernel, kzalloc, kfree}
use alpha_os.Memory.Paging.{paging_new_4gb}
use alpha_os.Fs.{Files}
use alpha_os.Elf.Loader.{is_negative}
use alpha_os.Task.{Tasks, task_new}
use alpha_os.Memory.Paging.Store.{Words}
use alpha_os.Process.{Process}
use alpha_os.Process.Program.{process_load_data, process_map_memory, is_pos}
use alpha_os.Process.Slots.{
  Processes, max_processes, process_get, process_current, process_switch, take_slot,
}
use alpha_os.Process.Table.{process_get_free_slot_lem}
use alpha_os.Process.World.{World, at_address}
use alpha_os.Process.Load.{
  Answers, process_init, process_size, user_program_stack_size, entry_of, load_task, load_program,
  process_load_for_slot, process_load, process_load_switch,
}

is_negative-status : (e : Errno) → is_negative (status e) ≡ true
unfolding is_negative
is_negative-status e = ground arith

module _ {S : Type 0} (w : World S) (a : Answers) (filename : List ℕ) (slot : ℕ) where
  -- The process that an address gives has its slot's number, the name, and a stack.
  abbrev pub IsFilled : Option Process → Type 0
  IsFilled o =
      (process : Process) × (o ≡ some process)
      × (process.id ≡ slot)
      × (process.filename ≡ take 107 filename)
      × (process.stack ≢ 0)

  -- A fault; an error that leaves the table; or the process in its slot.
  Left : Option (ℤ × ℕ × World S) → Type 0
  Left o =
      (o ≡ none)
      ⊎ (((res : ℤ) × (w' : World S) × (o ≡ some (res, 0, w'))
            × (is_negative res ≡ true)
            × (w'.table ≡ w.table))
          ⊎ ((p : ℕ) × (w' : World S) × (o ≡ some (pos 0, p, w'))
              × (p ≢ 0)
              × (w'.table ≡ take_slot w.table slot p)
              × IsFilled (w'.process_at p)))

  -- The state after the mapping.
  abbrev after : ℕ → Process → Kernel → Words → Files S → Tasks → Processes → World S
  after p process k words files tasks table = record w {
    memory = record { kernel = k; words = words };
    files = files;
    tasks = tasks;
    table = table;
    process_at = at_address w.process_at p (some process);
    chunk_at =
        at_address w.chunk_at (paging_new_4gb a.alloc w.memory.words 0b101).0.address
          (some (paging_new_4gb a.alloc w.memory.words 0b101).0);
  }

  load_task-Left :
      (p : ℕ) (process : Process) (k : Kernel) (files : Files S)
      → p ≢ 0
      → process.id ≡ slot
      → process.filename ≡ take 107 filename
      → process.stack ≢ 0
      → Left (load_task w a slot p process k files)
  unfolding Left load_task at_address
  load_task-Left p process k files there id name stack = elim (Option-cases (entry_of k process)) [
    | inl e ↦ inl (rw (e, ◌>>=◌) refl)
    | inr (entry, e) ↦
        elim (Option-cases (
          task_new w.tasks a.task_memory (paging_new_4gb a.alloc w.memory.words 0b101).0.address p
            entry)) [
              | inl e1 ↦ inl (rw (e, ◌>>=◌, e1) refl)
              | inr ((err x, tasks), e1) ↦ inl (rw (e, ◌>>=◌, e1) refl)
              | inr ((ok task, tasks), e1) ↦
                  elim (Option-cases (
                    process_map_memory k.ram (paging_new_4gb a.alloc w.memory.words 0b101).1
                      (paging_new_4gb a.alloc w.memory.words 0b101).0
                      (record process { task = task }))) [
                        | inl e2 ↦ inl (rw (e, ◌>>=◌, e1, e2) refl)
                        | inr ((ok n, words), e2) ↦
                            let found : (p == p) ≡ true = ground arith in
                            inr (
                              inr (
                                p,
                                after p (record process { task = task }) k words files tasks
                                    (take_slot w.table slot p),
                                rw (e, ◌>>=◌, e1, e2) refl,
                                there,
                                refl,
                                (record process { task = task }, rw found refl, id, name, stack),
                              ))
                        | inr ((err x, words), e2) ↦ elim (Option-cases (kfree k process.stack)) [
                          | inl e3 ↦ inl (rw (e, ◌>>=◌, e1, e2, e3) refl)
                          | inr (k', e3) ↦ inr (
                              inl (
                                status x,
                                after p (record process { task = task }) k' words files tasks
                                    w.table,
                                rw (e, ◌>>=◌, e1, e2, e3) refl,
                                is_negative-status x,
                                refl,
                              ))
                        ]
                      ]
            ]
  ]

  load_program-Left : (p : ℕ) (k : Kernel) → p ≢ 0 → Left (load_program w a filename slot p k)
  unfolding Left load_program
  load_program-Left p k there =
      elim (Option-cases
        (process_load_data k w.files process_init a.elf_signature a.elf_memory filename)) [
          | inl e ↦ inl (rw (e, ◌>>=◌) refl)
          | inr ((res, process, k1, files), e) ↦
              let loaded : World S = record w {
                memory = record w.memory { kernel = k1 };
                files = files;
              } in
              elim (Bool-cases (is_negative res)) [
                | inl t ↦ inr (inl (res, loaded, rw (e, ◌>>=◌, t) refl, t, refl))
                | inr f ↦ elim (Option-cases (kzalloc k1 user_program_stack_size)) [
                  | inl e1 ↦ inl (rw (e, ◌>>=◌, f, e1) refl)
                  | inr ((stack, k2), e1) ↦ elim (ℕ_discrete stack 0) [
                    | yes z ↦
                        let t : (stack == 0) ≡ true = ground arith in
                        inr (
                          inl (
                            status enomem,
                            record loaded { memory = record w.memory { kernel = k2 } },
                            rw (e, ◌>>=◌, f, e1, t) refl,
                            is_negative-status enomem,
                            refl,
                          ))
                    | no nz ↦
                        let t : (stack == 0) ≡ false = ground arith in
                        let filled : Process = record process {
                          filename = take 107 filename;
                          stack = stack;
                          id = slot;
                        } in
                        subst Left (sym (rw (e, ◌>>=◌, f, e1, t) refl))
                          (load_task-Left p filled k2 files there refl refl nz)
                  ]
                ]
              ]
        ]

  load_for_slot-Left :
      process_get w.table (pos slot) ≡ 0 → Left (process_load_for_slot w a filename slot)
  unfolding Left process_load_for_slot
  load_for_slot-Left free = elim (Option-cases (kzalloc w.memory.kernel process_size)) [
    | inl e ↦ inl (rw (free, e, ◌>>=◌) refl)
    | inr ((p, k), e) ↦ elim (ℕ_discrete p 0) [
      | yes z ↦
          let t : (p == 0) ≡ true = ground arith in
          inr (
            inl (
              status enomem,
              record w { memory = record w.memory { kernel = k } },
              rw (free, e, ◌>>=◌, t) refl,
              is_negative-status enomem,
              refl,
            ))
      | no nz ↦
          let t : (p == 0) ≡ false = ground arith in
          subst Left (sym (rw (free, e, ◌>>=◌, t) refl)) (load_program-Left p k nz)
    ]
  ]

-- A slot that takes a process is one of the table.
slot_inside :
    (s : Processes) (slot : ℕ)
    → ((process n : ℕ)
        → process_get (take_slot s slot process) (pos n)
          ≡ (if n == slot then process else process_get s (pos n)))
    → slot < max_processes
unfolding process_get
slot_inside s slot taken = elim (dec_lt slot max_processes) [
  | yes h ↦ h
  | no h ↦
      let t : leb max_processes slot ≡ true = ground arith in
      let u : (slot == slot) ≡ true = ground arith in absurd (ground (arith, t, u, taken 1 slot))
]

module _ {S : Type 0} where
  -- With a table of 12 entries process_load_switch returns -EISTKN and changes nothing if no slot is
  -- free. Otherwise, for the first free slot, the kernel faults or panics; or the result is a negative
  -- code and NULL, with the table and the current process as they were; or the result is 0 and an address
  -- other than NULL, which is then the current process and the one in that slot, while every other slot
  -- gives what it gave, and at which a process stands that has the slot's number, the name cut to 107
  -- bytes, and a stack.
  pub process_load_switch_lem :
      (w : World S) (a : Answers) (filename : List ℕ)
      → length w.table.processes ≡ max_processes
      → (((j : ℕ) → j < max_processes → process_get w.table (pos j) ≢ 0)
          × (process_load_switch w a filename ≡ some (status eistkn, 0, w)))
        ⊎ ((slot : ℕ) × (slot < max_processes)
            × (process_get w.table (pos slot) ≡ 0)
            × ((j : ℕ) → j < slot → process_get w.table (pos j) ≢ 0)
            × ((process_load_switch w a filename ≡ none)
                ⊎ (((res : ℤ) × (w' : World S) × (process_load_switch w a filename
                        ≡ some (res, 0, w'))
                      × (is_negative res ≡ true)
                      × (w'.table ≡ w.table))
                    ⊎ ((p : ℕ) × (w' : World S) × (process_load_switch w a filename
                          ≡ some (pos 0, p, w'))
                        × (p ≢ 0)
                        × (process_current w'.table ≡ p)
                        × ((m : ℕ)
                            → process_get w'.table (pos m)
                              ≡ (if m == slot then p else process_get w.table (pos m)))
                        × IsFilled w a filename slot (w'.process_at p)))))
  unfolding process_load_switch process_load Left process_current process_get process_switch is_pos
      is_negative
  process_load_switch_lem w a filename full = elim (process_get_free_slot_lem w.table full) [
    | inr (e, all) ↦ inl (all, rw (e, ◌>>=◌) refl)
    | inl (slot, e, free, first, taken) ↦ inr (
      slot,
      slot_inside w.table slot taken,
      free,
      first,
      elim (load_for_slot-Left w a filename slot free) [
        | inl run ↦ inl (rw (e, run, ◌>>=◌) refl)
        | inr (inl (pos n, w', run, negative, kept)) ↦ absurd (ground (arith, negative))
        | inr (inl (negsuc n, w', run, negative, kept)) ↦
            inr (inl (negsuc n, w', rw (e, run, ◌>>=◌) refl, refl, kept))
        | inr (inr (p, w', run, there, table, filled)) ↦ inr (
            inr (
              p,
              record w' { table = process_switch w'.table p },
              rw (e, run, ◌>>=◌) refl,
              there,
              refl,
              λ m. ap (λ (t : Processes). process_get t (pos m)) table ∙ taken p m,
              filled,
            ))
      ],
    )
  ]
