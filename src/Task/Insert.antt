-- ===== src/Task/Insert.antt =====
-- A new task joins the end of the list.
use alpha_os.Prelude.{
  ℕ, ◌≡◌, ◌≢◌, refl, sym, ◌∙◌, false, Option, none, some, List, [], ◌∷◌, ◌++◌, ◌==◌, if◌then◌else◌,
  All, arith, ok,
}
use alpha_os.Task.{
  Tasks, Task, zero_registers, put, set_next, set_prev, task_init, task_link, task_new,
}
use alpha_os.Task.Links.{IsQueue, Distinct, last, Linked-put, Linked-last, Linked-snoc, last-All}

last-snoc : (p q : ℕ) (ps : List ℕ) → last p (ps ++ q ∷ []) ≡ q
last-snoc p q [] = refl
last-snoc p q (a ∷ ps) = last-snoc a q ps

All-snoc_lem : (P : ℕ → Type 0) (q : ℕ) (ps : List ℕ) → All P ps → P q → All P (ps ++ q ∷ [])
All-snoc_lem P q [] h hq = (hq, tt)
All-snoc_lem P q (a ∷ ps) h hq = (h.0, All-snoc_lem P q ps h.1 hq)

Distinct-snoc : (q : ℕ) (ps : List ℕ) → Distinct ps → All (λ b. b ≢ q) ps → Distinct (ps ++ q ∷ [])
Distinct-snoc q [] d out = (tt, tt)
Distinct-snoc q (a ∷ ps) d out =
    (All-snoc_lem (λ b. b ≢ a) q ps d.0 (λ e. out.0 (sym e)), Distinct-snoc q ps d.1 out.1)

module _ (s : Tasks) (task : ℕ) (t : Task) (made : s.store task ≡ some t) (prev : t.prev ≡ 0)
    (next : t.next ≡ 0) (nz : task ≢ 0) where
  task_link-empty :
      IsQueue s []
      → (s' : Tasks) × (task_link s task ≡ some s')
        × IsQueue s' (task ∷ [])
        × (s'.current_task ≡ task)
  unfolding task_link
  task_link-empty v = (
    record s { task_head = task; task_tail = task; current_task = task },
    ground (arith, v.head),
    record {
      linked = (t, made, prev, next, nz, tt);
      head = refl;
      tail = refl;
      distinct = (tt, tt);
    },
    refl,
  )

  linked_store : Task → ℕ → ℕ → Option Task
  linked_store u tail =
      put (put s.store tail (some (record u { next = task }))) task
        (some (record t { prev = tail }))

  task_link-eq :
      (u : Task) (tail : ℕ)
      → s.task_head ≢ 0
      → s.task_tail ≡ tail
      → s.store tail ≡ some u
      → tail ≢ task
      → task_link s task ≡ some (record s { store = linked_store u tail; task_tail = task })
  unfolding task_link set_next set_prev put linked_store
  task_link-eq u tail head e eu ne =
      let h : (s.task_head == 0) ≡ false = ground arith in
      let h' : (task == tail) ≡ false = ground arith in rw (h, task_link, e, eu, h', made) refl

  at_tail :
      (u : Task) (tail : ℕ)
      → tail ≢ task
      → linked_store u tail tail ≡ some (record u { next = task })
  unfolding linked_store put
  at_tail u tail ne = ground arith

  at_task : (u : Task) (tail : ℕ) → linked_store u tail task ≡ some (record t { prev = tail })
  unfolding linked_store put
  at_task u tail = ground arith

  elsewhere : (u : Task) (tail r : ℕ) → r ≢ tail → r ≢ task → linked_store u tail r ≡ s.store r
  unfolding linked_store put
  elsewhere u tail r n n' = ground arith

  task_link-snoc :
      (a : ℕ) (ps : List ℕ)
      → IsQueue s (a ∷ ps)
      → All (λ b. b ≢ task) (a ∷ ps)
      → (s' : Tasks) × (task_link s task ≡ some s')
        × IsQueue s' (a ∷ (ps ++ task ∷ []))
        × (s'.current_task ≡ s.current_task)
  task_link-snoc a ps v out =
      let tail = last a ps in
      let (u, eu) = Linked-last s.store 0 a ps v.linked in
      let ne = last-All (λ b. b ≢ task) a ps out.0 out.1 in
      (
        record s { store = linked_store u tail; task_tail = task },
        task_link-eq u tail (λ e. v.linked.4 (sym v.head ∙ e)) v.tail eu ne,
        record {
          linked =
              Linked-snoc s.store (linked_store u tail) 0 a task ps u (record t { prev = tail })
                v.linked v.distinct out nz eu (at_tail u tail ne) (at_task u tail) refl next
                (λ r n n'. elsewhere u tail r n n');
          head = v.head;
          tail = sym (last-snoc a task ps);
          distinct = Distinct-snoc task (a ∷ ps) v.distinct out;
        },
        refl,
      )

-- The task that task_init makes.
new_task : ℕ → ℕ → Option ℕ → Task
new_task directory process elf_entry = record {
  page_directory = directory;
  registers = record zero_registers {
    ip = elim elf_entry [ none ↦ 0x400000 | some entry ↦ entry ];
    ss = 0x23;
    cs = 0x1B;
    esp = 0x3FF000;
  };
  process = process;
  next = 0;
  prev = 0;
}

task_init-ok :
    (directory process : ℕ) (elf_entry : Option ℕ)
    → directory ≢ 0
    → (t : Task) × (task_init directory process elf_entry ≡ ok t) × (t.prev ≡ 0) × (t.next ≡ 0)
unfolding task_init new_task
task_init-ok directory process elf_entry n =
    let e : (directory == 0) ≡ false = ground arith in
    (new_task directory process elf_entry, rw (e, task_init) refl, refl, refl)

-- The memory with the new task in it.
with_task : Tasks → ℕ → Task → Tasks
with_task s task t = record s { store = put s.store task (some t) }

with_task-IsQueue :
    (s : Tasks) (task : ℕ) (t : Task) (ps : List ℕ)
    → IsQueue s ps
    → All (λ b. b ≢ task) ps
    → IsQueue (with_task s task t) ps
unfolding with_task
with_task-IsQueue s task t ps v out = record {
  linked = Linked-put s.store 0 task (some t) ps out v.linked;
  head = v.head;
  tail = v.tail;
  distinct = v.distinct;
}

with_task-made : (s : Tasks) (task : ℕ) (t : Task) → (with_task s task t).store task ≡ some t
unfolding with_task put
with_task-made s task t = ground arith

current : (s : Tasks) (task : ℕ) (t : Task) → (with_task s task t).current_task ≡ s.current_task
unfolding with_task
current s task t = refl

task_new-eq :
    (s s' : Tasks) (task directory process : ℕ) (elf_entry : Option ℕ) (t : Task)
    → task ≢ 0
    → task_init directory process elf_entry ≡ ok t
    → task_link (with_task s task t) task ≡ some s'
    → task_new s task directory process elf_entry ≡ some (ok task, s')
unfolding task_new with_task
task_new-eq s s' task directory process elf_entry t nz e h =
    let e0 : (task == 0) ≡ false = ground arith in rw (e0, task_new, e, h) refl

-- A task that is made at a new address other than NULL, with page tables, joins the list of tasks,
-- taken as a queue of addresses, at its end; the current task stays, but that the first task of all
-- becomes the current one.
pub task_new-Inserted :
    (s : Tasks) (task directory process : ℕ) (elf_entry : Option ℕ) (ps : List ℕ)
    → IsQueue s ps
    → All (λ b. b ≢ task) ps
    → task ≢ 0
    → directory ≢ 0
    → (s' : Tasks) × (task_new s task directory process elf_entry ≡ some (ok task, s'))
      × IsQueue s' (ps ++ task ∷ [])
      × (s'.current_task ≡ (if s.task_head == 0 then task else s.current_task))
task_new-Inserted s task directory process elf_entry [] v out nz dir =
    let (t, e, prev, next) = task_init-ok directory process elf_entry dir in
    let s1 = with_task s task t in
    let (s', h, q, c) =
      task_link-empty s1 task t (with_task-made s task t) prev next nz
        (with_task-IsQueue s task t [] v out) in
    (s', task_new-eq s s' task directory process elf_entry t nz e h, q, c ∙ ground (arith, v.head))
task_new-Inserted s task directory process elf_entry (a ∷ ps) v out nz dir =
    let (t, e, prev, next) = task_init-ok directory process elf_entry dir in
    let s1 = with_task s task t in
    let (s', h, q, c) =
      task_link-snoc s1 task t (with_task-made s task t) prev next nz a ps
        (with_task-IsQueue s task t (a ∷ ps) v out) out in
    let head : s.task_head ≢ 0 = λ z. v.linked.4 (sym v.head ∙ z) in
    let e0 : (s.task_head == 0) ≡ false = ground arith in
    (
      s',
      task_new-eq s s' task directory process elf_entry t nz e h,
      q,
      c ∙ current s task t ∙ rw e0 refl,
    )
