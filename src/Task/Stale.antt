-- ===== src/Task/Stale.antt =====
-- The back pointer of the task behind one that is removed.
use alpha_os.Prelude.{
  ℕ, ◌≡◌, ◌≢◌, refl, sym, ◌∙◌, true, false, Option, none, some, List, ◌∷◌, ◌==◌, if◌then◌else◌,
  arith, ◌>>=◌,
}
use native.Mathlib.Decide.{ℕ_discrete}
use alpha_os.Task.{Tasks, Task, put, set_next, task_get_next, task_list_remove, task_free}
use alpha_os.Task.Links.{IsQueue, last-All}

put-same : (store : ℕ → Option Task) (a : ℕ) (t : Option Task) → put store a t a ≡ t
unfolding put
put-same store a t = ground arith

put-other :
    (store : ℕ → Option Task) (a b : ℕ) (t : Option Task) → b ≢ a → put store a t b ≡ store b
unfolding put
put-other store a b t n = ground arith

-- A task whose back pointer goes to freed memory is not freed.
task_free-stale :
    (s : Tasks) (a b : ℕ) (t : Task)
    → s.store b ≡ some t
    → t.prev ≡ a
    → a ≢ 0
    → s.store a ≡ none
    → task_free s b ≡ none
unfolding task_free
task_free-stale s a b t eb p nz ea =
    let h : (a == 0) ≡ false = ground arith in
    let r : task_list_remove s b ≡ none =
      rw (eb, task_list_remove, ◌>>=◌, p, h, set_next, ea) refl in
    rw (r, task_free, ◌>>=◌) refl

-- The first of two tasks or more is taken off the list.
task_list_remove-first :
    (s : Tasks) (a b : ℕ) (t : Task)
    → s.store a ≡ some t
    → t.prev ≡ 0
    → t.next ≡ b
    → b ≢ 0
    → s.task_head ≡ a
    → s.task_tail ≢ a
    → task_list_remove s a
      ≡ some (record s {
        task_head = b;
        current_task = (if a == s.current_task then b else s.current_task);
      })
unfolding task_list_remove
task_list_remove-first s a b t ea p n nz head tail =
    let h : (a == s.task_tail) ≡ false = ground arith in
    let h0 : (b == 0) ≡ false = ground arith in
    let ha : (a == a) ≡ true = ground arith in
    elim (ℕ_discrete a s.current_task) [
      | yes c ↦
          let hc : (a == s.current_task) ≡ true = ground arith in
          rw (ea, task_list_remove, ◌>>=◌, p, n, head, ha, h, hc, task_get_next, sym c, ea, n, h0)
            refl
      | no c ↦
          let hc : (a == s.current_task) ≡ false = ground arith in
          rw (ea, task_list_remove, ◌>>=◌, p, n, head, ha, h, hc) refl
    ]

-- Freeing the first of two tasks or more succeeds, and freeing then the one behind it, which has
-- become the head, writes to the task that is already freed.
pub task_free_twice :
    (s : Tasks) (a b : ℕ) (ps : List ℕ)
    → IsQueue s (a ∷ b ∷ ps)
    → (s' : Tasks) × (task_free s a ≡ some s') × (s'.task_head ≡ b) × (task_free s' b ≡ none)
unfolding task_free put
task_free_twice s a b ps v =
    let (t, ea, p, n, az, l) = v.linked in
    let (u, eb, q, m, bz, r') = l in
    let tail : s.task_tail ≢ a =
      λ e. last-All (λ c. c ≢ a) b ps v.distinct.0.0 v.distinct.0.1 (sym v.tail ∙ e) in
    let s1 = record s {
      task_head = b;
      current_task = (if a == s.current_task then b else s.current_task);
    } in
    let r : task_list_remove s a ≡ some s1 = task_list_remove-first s a b t ea p n bz v.head tail in
    let s2 = record s1 { store = put s.store a none } in
    (
      s2,
      rw (r, task_free, ◌>>=◌) refl,
      refl,
      task_free-stale s2 a b u (put-other s.store a b none v.distinct.0.0 ∙ eb) q az
          (put-same s.store a none),
    )
