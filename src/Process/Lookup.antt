-- ===== src/Process/Lookup.antt =====
-- The table of allocations of src/task/process.c as a map from pointers.
use alpha_os.Prelude.{
  ℕ, zero, suc, ◌+◌, ◌≡◌, ◌≢◌, refl, sym, subst, ap, ◌∙◌, true, false, ◌==◌, if◌then◌else◌, none,
  some, List, [], ◌∷◌, set, All, ok, arith,
}
use native.Mathlib.Decide.{ℕ_discrete}
use alpha_os.Process.{ProcessAllocation}
use alpha_os.Process.Allocation.{free_index_loop, unjoin_loop, by_addr_loop}

-- The k-th allocation is the first that is free.
abbrev pub FirstFree : List ProcessAllocation → ℕ → Type 0
FirstFree [] k = ⊥
FirstFree (a ∷ allocations) zero = a.ptr ≡ 0
FirstFree (a ∷ allocations) (suc k) = (a.ptr ≢ 0) × FirstFree allocations k

-- No two allocations have the same pointer, unless it is NULL.
abbrev pub Unique : List ProcessAllocation → Type 0
Unique [] = Unit
Unique (a ∷ allocations) = (a.ptr ≢ 0 → All (λ b. b.ptr ≢ a.ptr) allocations) × Unique allocations

-- Where a free allocation has been found, it is the first.
pub free_index-FirstFree :
    (allocations : List ProcessAllocation) (i j : ℕ)
    → free_index_loop allocations i ≡ ok j
    → (k : ℕ) × (j ≡ i + k) × FirstFree allocations k
unfolding free_index_loop
free_index-FirstFree [] i j h = ground arith
free_index-FirstFree (a ∷ allocations) i j h = elim (ℕ_discrete a.ptr 0) [
  | yes e ↦ (0, ground arith, e)
  | no ne ↦
      let t : (a.ptr == 0) ≡ false = ground arith in
      let (k, e, v) = free_index-FirstFree allocations (i + 1) j (rw t at h) in
      (suc k, omega arith, (ne, v))
]

not_found :
    (a : ProcessAllocation) (allocations : List ProcessAllocation) (p : ℕ)
    → by_addr_loop (a ∷ allocations) p ≡ none
    → (a.ptr ≢ p) × (by_addr_loop allocations p ≡ none)
unfolding by_addr_loop
not_found a allocations p out = elim (ℕ_discrete a.ptr p) [
  | yes e ↦ let t : (a.ptr == p) ≡ true = ground arith in ground (arith, rw t at out)
  | no ne ↦ let t : (a.ptr == p) ≡ false = ground arith in (ne, rw t at out)
]

by_addr-none :
    (allocations : List ProcessAllocation) (p : ℕ)
    → All (λ b. b.ptr ≢ p) allocations
    → by_addr_loop allocations p ≡ none
unfolding by_addr_loop
by_addr-none [] p h = refl
by_addr-none (a ∷ allocations) p h =
    let t : (a.ptr == p) ≡ false = ground (arith, h.0) in rw t (by_addr-none allocations p h.1)

-- A pointer that is not in the table is then found with what it was recorded with, and the others as
-- before.
pub by_addr-set :
    (allocations : List ProcessAllocation) (k p size q : ℕ)
    → FirstFree allocations k
    → by_addr_loop allocations p ≡ none
    → q ≢ 0
    → by_addr_loop (set allocations k (record { ptr = p; size = size })) q
      ≡ (if p == q then some (record { ptr = p; size = size }) else by_addr_loop allocations q)
unfolding by_addr_loop
by_addr-set [] k p size q v out nz = absurd v
by_addr-set (a ∷ allocations) zero p size q v out nz =
    let t : (a.ptr == q) ≡ false = ground arith in rw t refl
by_addr-set (a ∷ allocations) (suc k) p size q v out nz =
    let ih = by_addr-set allocations k p size q v.1 (not_found a allocations p out).1 nz in
    let ne = (not_found a allocations p out).0 in
    elim (ℕ_discrete a.ptr q) [
      | yes e ↦
          let t : (a.ptr == q) ≡ true = ground arith in
          let t' : (p == q) ≡ false = ground arith in rw (t, t') refl
      | no n ↦ let t : (a.ptr == q) ≡ false = ground arith in rw t ih
    ]

pub unjoin-set :
    (allocations : List ProcessAllocation) (k p size : ℕ)
    → FirstFree allocations k
    → by_addr_loop allocations p ≡ none
    → unjoin_loop (set allocations k (record { ptr = p; size = size })) p
      ≡ set allocations k (record { ptr = 0; size = 0 })
unfolding by_addr_loop unjoin_loop
unjoin-set [] k p size v out = absurd v
unjoin-set (a ∷ allocations) zero p size v out = let t : (p == p) ≡ true = ground arith in rw t refl
unjoin-set (a ∷ allocations) (suc k) p size v out =
    let ne = (not_found a allocations p out).0 in
    let t : (a.ptr == p) ≡ false = ground arith in
    rw t (ap (◌∷◌ a) (unjoin-set allocations k p size v.1 (not_found a allocations p out).1))

-- In a table of unique pointers one that is taken out is not found again, and the others as before.
pub by_addr-unjoin :
    (allocations : List ProcessAllocation) (p q : ℕ)
    → Unique allocations
    → p ≢ 0
    → q ≢ 0
    → by_addr_loop (unjoin_loop allocations p) q
      ≡ (if p == q then none else by_addr_loop allocations q)
unfolding by_addr_loop unjoin_loop
by_addr-unjoin [] p q v np nq = ground arith
by_addr-unjoin (a ∷ allocations) p q v np nq = elim (ℕ_discrete a.ptr p) [
  | yes e ↦
      let t : (a.ptr == p) ≡ true = ground arith in
      let z : (0 == q) ≡ false = ground arith in
      elim (ℕ_discrete p q) [
        | yes e' ↦
            let t' : (p == q) ≡ true = ground arith in
            let gone = by_addr-none allocations a.ptr (v.0 (λ n. np (sym e ∙ n))) in
            rw (t, by_addr_loop, z, t')
              (subst (λ r. by_addr_loop allocations r ≡ none) (e ∙ e') gone)
        | no n ↦
            let t' : (p == q) ≡ false = ground arith in
            let t'' : (a.ptr == q) ≡ false = ground arith in rw (t, by_addr_loop, z, t', t'') refl
      ]
  | no ne ↦
      let t : (a.ptr == p) ≡ false = ground arith in
      let ih = by_addr-unjoin allocations p q v.1 np nq in
      elim (ℕ_discrete a.ptr q) [
        | yes e ↦
            let t' : (a.ptr == q) ≡ true = ground arith in
            let t'' : (p == q) ≡ false = ground arith in rw (t, by_addr_loop, t', t'') refl
        | no n ↦ let t' : (a.ptr == q) ≡ false = ground arith in rw (t, by_addr_loop, t') ih
      ]
]

-- A free entry that is cleared is not found.
pub by_addr-null :
    (allocations : List ProcessAllocation) (k q : ℕ)
    → FirstFree allocations k
    → q ≢ 0
    → by_addr_loop (set allocations k (record { ptr = 0; size = 0 })) q ≡ by_addr_loop allocations q
unfolding by_addr_loop
by_addr-null [] k q v nz = absurd v
by_addr-null (a ∷ allocations) zero q v nz =
    let t : (a.ptr == q) ≡ false = ground arith in
    let t' : (0 == q) ≡ false = ground arith in rw (t, t') refl
by_addr-null (a ∷ allocations) (suc k) q v nz = rw (by_addr-null allocations k q v.1 nz) refl
