-- ===== src/Task/Round.antt =====
-- Switching from task to task goes round the list.
use alpha_os.Prelude.{
  ℕ, zero, suc, ◌+◌, ◌≤◌, ◌<◌, ◌≡◌, ◌≢◌, refl, ap, ap₂, ◌∙◌, ◌-◌, true, false, Option, some, List,
  [], ◌∷◌, ◌==◌, if◌then◌else◌, arith, get_or, length, ◌>>=◌,
}
use native.Mathlib.Decide.{ℕ_discrete, dec_le}
use alpha_os.Task.{Tasks, Task, task_get_next, task_switch, task_next}
use alpha_os.Task.Links.{IsQueue, Linked, first}

-- The i-th task of the links.
Linked-at :
    (store : ℕ → Option Task) (p : ℕ) (ps : List ℕ) (i : ℕ)
    → Linked store p ps
    → i < length ps
    → (t : Task) × (store (get_or ps i 0) ≡ some t)
      × (t.next ≡ get_or ps (suc i) 0)
      × (get_or ps i 0 ≢ 0)
Linked-at store p [] i l h = absurd (omega arith)
Linked-at store p (a ∷ []) zero (t, e, prev, next, nz, l) h = (t, e, next, nz)
Linked-at store p (a ∷ b ∷ ps) zero (t, e, prev, next, nz, l) h = (t, e, next, nz)
Linked-at store p (a ∷ ps) (suc i) l h = Linked-at store a ps i l.5 (omega arith)

get_or-end : (ps : List ℕ) (i : ℕ) → length ps ≤ i → get_or ps i 0 ≡ 0
get_or-end [] i h = refl
get_or-end (a ∷ ps) zero h = absurd (omega arith)
get_or-end (a ∷ ps) (suc i) h = get_or-end ps i (omega arith)

-- The place behind the i-th, round the end.
abbrev pub next_place : ℕ → ℕ → ℕ
next_place n i = if suc i == n then 0 else suc i

-- task_next from a task that is there to a task that is there.
task_next-switch :
    (s : Tasks) (t u : Task) (q : ℕ)
    → s.store s.current_task ≡ some t
    → (if t.next == 0 then s.task_head else t.next) ≡ q
    → q ≢ 0
    → s.store q ≡ some u
    → task_next s ≡ some (record s { current_task = q })
unfolding task_next
task_next-switch s t u q c e nz d =
    let h : (q == 0) ≡ false = ground arith in
    let g : task_get_next s ≡ some q = rw (c, task_get_next, ◌>>=◌, e) refl in
    rw (g, task_next, ◌>>=◌, h, task_switch, d) refl

first-get_or : (ps : List ℕ) → first ps ≡ get_or ps 0 0
first-get_or [] = refl
first-get_or (a ∷ ps) = refl

next-place :
    (s : Tasks) (t : Task) (ps : List ℕ) (i : ℕ)
    → IsQueue s ps
    → i < length ps
    → t.next ≡ get_or ps (suc i) 0
    → (if t.next == 0 then s.task_head else t.next) ≡ get_or ps (next_place (length ps) i) 0
next-place s t ps i v h next = elim (ℕ_discrete (suc i) (length ps)) [
  | yes e ↦
      let e0 : (suc i == length ps) ≡ true = ground arith in
      rw (next, get_or-end ps (suc i) (omega arith), e0, v.head, first-get_or ps) refl
  | no n ↦
      let nz = (Linked-at s.store 0 ps (suc i) v.linked (omega arith)).3 in
      let e0 : (suc i == length ps) ≡ false = ground arith in
      let e1 : (get_or ps (suc i) 0 == 0) ≡ false = ground arith in rw (next, e1, e0) refl
]

-- With the i-th task current, task_next makes the one behind it current, the first task where there
-- is none behind it, and leaves the list as it is.
pub task_next_lem :
    (s : Tasks) (ps : List ℕ) (i : ℕ)
    → IsQueue s ps
    → i < length ps
    → s.current_task ≡ get_or ps i 0
    → task_next s ≡ some (record s { current_task = get_or ps (next_place (length ps) i) 0 })
task_next_lem s ps i v h c =
    let (t, e, next, nz) = Linked-at s.store 0 ps i v.linked h in
    let (u, e', next', nz') =
      Linked-at s.store 0 ps (next_place (length ps) i) v.linked ground arith in
    task_next-switch s t u (get_or ps (next_place (length ps) i) 0) (rw c e)
      (next-place s t ps i v h next) nz' e'

-- So many calls of task_next in a row.
unfoldable pub switches : ℕ → Tasks → Option Tasks
unfolding task_next
switches zero s = some s
switches (suc k) s = do s' ← task_next s; switches k s'

-- The same tasks with the j-th current.
on : Tasks → List ℕ → ℕ → Tasks
on s ps j = record s { current_task = get_or ps j 0 }

on-IsQueue : (s : Tasks) (ps : List ℕ) (j : ℕ) → IsQueue s ps → IsQueue (on s ps j) ps
unfolding on
on-IsQueue s ps j v = record {
  linked = v.linked;
  head = v.head;
  tail = v.tail;
  distinct = v.distinct;
}

switch_once :
    (s : Tasks) (ps : List ℕ) (i k : ℕ)
    → IsQueue s ps
    → i < length ps
    → switches (suc k) (on s ps i) ≡ switches k (on s ps (next_place (length ps) i))
unfolding switches on
switch_once s ps i k v h = rw (task_next_lem (on s ps i) ps i (on-IsQueue s ps i v) h refl) refl

switches-forward :
    (s : Tasks) (ps : List ℕ) (i k n : ℕ)
    → IsQueue s ps
    → i + k < length ps
    → switches (k + n) (on s ps i) ≡ switches n (on s ps (i + k))
switches-forward s ps i zero n v h = ap₂ (λ a b. switches a (on s ps b)) (omega arith) (omega arith)
switches-forward s ps i (suc k) n v h =
    let e : next_place (length ps) i ≡ i + 1 = ground arith in
    ap (λ a. switches a (on s ps i)) (omega arith)
    ∙ switch_once s ps i (k + n) v (omega arith)
    ∙ ap (λ a. switches (k + n) (on s ps a)) e
    ∙ switches-forward s ps (i + 1) k n v (omega arith)
    ∙ ap (λ a. switches n (on s ps a)) (omega arith)

-- From any current task of the list, every task of it becomes the current one within as many calls
-- of task_next as the list has tasks, and the list stays as it is.
pub task_next-reaches :
    (s : Tasks) (ps : List ℕ) (i j : ℕ)
    → IsQueue s ps
    → i < length ps
    → j < length ps
    → s.current_task ≡ get_or ps i 0
    → (k : ℕ) × (k ≤ length ps) × (switches k s ≡ some (record s { current_task = get_or ps j 0 }))
unfolding on switches
task_next-reaches s ps i j v hi hj c =
    let here : s ≡ on s ps i = ap (λ a. record s { current_task = a }) c in
    elim (dec_le i j) [
      | yes le ↦ (
        j - i,
        omega arith,
        ap (λ w. switches (j - i) w) here
            ∙ ap (λ a. switches a (on s ps i)) (omega arith)
            ∙ switches-forward s ps i (j - i) 0 v (omega arith)
            ∙ ap (λ a. some (on s ps a)) (omega arith),
      )
      | no gt ↦
          let n = length ps - 1 - i in
          let e : next_place (length ps) (i + n) ≡ 0 = ground arith in
          (
            n + suc j,
            omega arith,
            ap (λ w. switches (n + suc j) w) here
                ∙ switches-forward s ps i n (suc j) v (omega arith)
                ∙ switch_once s ps (i + n) j v (omega arith)
                ∙ ap₂ (λ a b. switches a (on s ps b)) (omega arith) e
                ∙ switches-forward s ps 0 j 0 v (omega arith)
                ∙ ap (λ a. some (on s ps a)) (omega arith),
          )
    ]
