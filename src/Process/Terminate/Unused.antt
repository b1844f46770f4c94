-- ===== src/Process/Terminate/Unused.antt =====
-- What process_terminate of src/task/process.c does at an allocation that is not in use.
use alpha_os.Prelude.{
  ℕ, zero, suc, ◌+◌, ◌-◌, ◌/◌, ◌%◌, ◌^◌, ◌≤◌, ◌<◌, ◌≡◌, ◌≢◌, ◌⊎◌, inl, inr, ℤ, pos, negsuc, refl,
  sym, ap, ap₂, some-injective, bind-all, subst, ◌∙◌, true, false, ◌==◌, ltb, Option, none, some,
  List, [], ◌∷◌, All, get_elem?, length, Result, ok, err, arith, Option-cases, Bool-cases, ◌>>=◌,
}
use native.Mathlib.Decide.{ℕ_discrete}
use alpha_os.Memory.Heap.{Heap, heap_free, heap_address_to_block, heap_mark_block_free, free_loop}
use alpha_os.Memory.Kheap.{Kernel, kfree}
use alpha_os.Memory.Paging.{Chunk, paging_map_to, paging_align_address}
use alpha_os.Memory.Paging.Store.{Words}
use alpha_os.Memory.Paging.Align.{paging_map_to-empty}
use alpha_os.Process.{ProcessAllocation, Process, Memory}
use alpha_os.Process.Allocation.{
  process_get_allocation_by_addr, by_addr_loop, process_allocation_unjoin, unjoin_loop,
  process_free, terminate_loop, process_terminate_allocation,
}
use alpha_os.Task.{Task}
use alpha_os.Process.World.{World}
use alpha_os.Process.Terminate.{process_terminate}

-- NULL lies before a heap that starts above the first page.
kfree-null : (k : Kernel) → 4096 ≤ k.heap.saddr → k.heap.saddr ≤ 2 ^ 31 → kfree k 0 ≡ none
unfolding kfree heap_free heap_address_to_block heap_mark_block_free
kfree-null k low high =
    let diff : (0 + 2 ^ 32 - k.heap.saddr) % 2 ^ 32 ≡ 2 ^ 32 - k.heap.saddr = omega arith in
    let t : ltb (2 ^ 32 - k.heap.saddr) (2 ^ 31) ≡ false = ground arith in
    let z : ((2 ^ 32 - (2 ^ 32 - k.heap.saddr)) / 4096 == 0) ≡ false = ground arith in
    rw (diff, t, z) refl

-- An allocation that is not in use has no size.
abbrev pub IsCleared : List ProcessAllocation → Type 0
IsCleared = All (λ a. (a.ptr ≢ 0) ⊎ (a.size ≡ 0))

by_addr-cleared :
    (as' : List ProcessAllocation) (i : ℕ) (a : ProcessAllocation)
    → IsCleared as'
    → get_elem? as' i ≡ some a
    → a.ptr ≡ 0
    → by_addr_loop as' 0 ≡ some (record { ptr = 0; size = 0 })
unfolding by_addr_loop
by_addr-cleared [] i a c e z = ground arith
by_addr-cleared (b ∷ as') i a c e z = elim (ℕ_discrete b.ptr 0) [
  | yes h ↦
      let t : (b.ptr == 0) ≡ true = ground arith in
      let s : b.size ≡ 0 = ground (arith, c.0) in
      rw t (ap₂ (λ p s'. some (record { ptr = p; size = s' })) h s)
  | no ne ↦
      let t : (b.ptr == 0) ≡ false = ground arith in
      elim i
          as (λ n.
            get_elem? (b ∷ as') n ≡ some a
            → by_addr_loop (b ∷ as') 0 ≡ some (record { ptr = 0; size = 0 })) [
              | zero ↦ λ e0.
                  absurd (ne (ap (λ (x : ProcessAllocation). x.ptr) (some-injective b a e0) ∙ z))
              | suc n ↦ λ e1. rw t (by_addr-cleared as' n a c.1 e1 z)
            ]
        e
]

-- The j-th allocation is not in use, and the heap starts above the first page.
record HasUnused (m : Memory) (process : Process) (j : ℕ) : Type 0 where
  unused : ProcessAllocation
  there : get_elem? process.allocations j ≡ some unused
  null : unused.ptr ≡ 0
  cleared : IsCleared process.allocations
  low : 4096 ≤ m.kernel.heap.saddr
  high : m.kernel.heap.saddr ≤ 2 ^ 31

process_free-null :
    (m : Memory) (chunk : Chunk) (process : Process) (j : ℕ)
    → HasUnused m process j
    → process_free m chunk process 0 ≡ none
unfolding process_free process_get_allocation_by_addr
process_free-null m chunk process j v =
    let found = by_addr-cleared process.allocations j v.unused v.cleared v.there v.null in
    let mapped = paging_map_to-empty m.words chunk 0 in
    rw (found, mapped, kfree-null m.kernel v.low v.high, process_free) refl

heap_mark_block_free-saddr :
    (heap heap' : Heap) (block : ℤ)
    → heap_mark_block_free heap block ≡ some heap'
    → heap'.saddr ≡ heap.saddr
unfolding heap_mark_block_free
heap_mark_block_free-saddr heap heap' (negsuc n) e = ground arith
heap_mark_block_free-saddr heap heap' (pos n) e =
    bind-all (λ (x : Heap). x.saddr ≡ heap.saddr)
      (free_loop (length heap.entries - n) n heap.entries)
      (λ entries. some (record heap { entries = entries })) heap'
      (λ entries e'. ap (λ (x : Heap). x.saddr) (sym (some-injective _ heap' e'))) e

kfree-saddr : (k k' : Kernel) (ptr : ℕ) → kfree k ptr ≡ some k' → k'.heap.saddr ≡ k.heap.saddr
unfolding kfree heap_free
kfree-saddr k k' ptr e = elim (Option-cases (heap_free k.heap ptr)) [
  | inl n ↦ ground (arith, rw (n) at e)
  | inr (h, r) ↦
      ap (λ (x : Kernel). x.heap.saddr) (sym (some-injective _ k' (rw (r) at e)))
      ∙ heap_mark_block_free-saddr k.heap h (heap_address_to_block k.heap ptr) r
]

unjoin-there :
    (as' : List ProcessAllocation) (ptr j : ℕ) (a : ProcessAllocation)
    → get_elem? as' j ≡ some a
    → a.ptr ≡ 0
    → (b : ProcessAllocation) × (get_elem? (unjoin_loop as' ptr) j ≡ some b) × (b.ptr ≡ 0)
unfolding unjoin_loop
unjoin-there [] ptr j a e z = ground arith
unjoin-there (b ∷ as') ptr j a e z = elim (Bool-cases (b.ptr == ptr)) [
  | inl t ↦
      elim j
          as (λ n.
            get_elem? (b ∷ as') n ≡ some a
            → (c : ProcessAllocation) × (get_elem? (unjoin_loop (b ∷ as') ptr) n ≡ some c)
              × (c.ptr ≡ 0)) [
                | zero ↦ λ e0. (record { ptr = 0; size = 0 }, rw t refl, refl)
                | suc n ↦ λ e1. (a, rw t e1, z)
              ]
        e
  | inr t ↦
      elim j
          as (λ n.
            get_elem? (b ∷ as') n ≡ some a
            → (c : ProcessAllocation) × (get_elem? (unjoin_loop (b ∷ as') ptr) n ≡ some c)
              × (c.ptr ≡ 0)) [
                | zero ↦ λ e0. (a, rw t e0, z)
                | suc n ↦ λ e1.
                    let (c, there, null) = unjoin-there as' ptr n a e1 z in (c, rw t there, null)
              ]
        e
]

unjoin-cleared :
    (as' : List ProcessAllocation) (ptr : ℕ) → IsCleared as' → IsCleared (unjoin_loop as' ptr)
unfolding unjoin_loop
unjoin-cleared [] ptr c = c
unjoin-cleared (b ∷ as') ptr c = elim (Bool-cases (b.ptr == ptr)) [
  | inl t ↦ rw t (inr refl, c.1)
  | inr t ↦ rw t (c.0, unjoin-cleared as' ptr c.1)
]

abbrev Freed : Type 0
Freed = Option (Process × Memory)

HasUnused-result :
    (m m' : Memory) (process process' : Process) (j : ℕ)
    → HasUnused m process j
    → ◌≡◌ {A = Freed} (some (process, m)) (some (process', m'))
    → HasUnused m' process' j
HasUnused-result m m' process process' j v s =
    subst (λ (r : Process × Memory). HasUnused r.1 r.0 j)
      (some-injective (process, m) (process', m') s) v

HasUnused-unjoin :
    (m : Memory) (k : Kernel) (words : Words) (process : Process) (ptr j : ℕ)
    → HasUnused m process j
    → kfree m.kernel ptr ≡ some k
    → HasUnused (record { kernel = k; words = words }) (process_allocation_unjoin process ptr) j
unfolding process_allocation_unjoin
HasUnused-unjoin m k words process ptr j v e =
    let (b, there, null) = unjoin-there process.allocations ptr j v.unused v.there v.null in
    let same = kfree-saddr m.kernel k ptr e in
    record {
      unused = b;
      there = there;
      null = null;
      cleared = unjoin-cleared process.allocations ptr v.cleared;
      low = omega (arith, same, v.low);
      high = omega (arith, same, v.high);
    }

-- The part of process_free behind paging_map_to.
freed-keeps :
    (m m' : Memory) (process process' : Process) (ptr j : ℕ) (mapped : Result ℕ × Words)
    → HasUnused m process j
    → ◌≡◌ {A = Freed}
        (elim mapped.0 [
          | err _ ↦ some (process, record m { words = mapped.1 })
          | ok _ ↦ do
            k ← kfree m.kernel ptr
            some (process_allocation_unjoin process ptr, record { kernel = k; words = mapped.1 })
        ])
        (some (process', m'))
    → HasUnused m' process' j
freed-keeps m m' process process' ptr j (err x, words) v e =
    HasUnused-result (record m { words = words }) m' process process' j
      (record {
        unused = v.unused;
        there = v.there;
        null = v.null;
        cleared = v.cleared;
        low = v.low;
        high = v.high;
      })
      e
freed-keeps m m' process process' ptr j (ok n, words) v e =
    elim (Option-cases (kfree m.kernel ptr)) [
      | inl no_heap ↦ ground (arith, rw no_heap at e)
      | inr (k, freed) ↦
          HasUnused-result (record { kernel = k; words = words }) m'
            (process_allocation_unjoin process ptr) process' j
            (HasUnused-unjoin m k words process ptr j v freed) (rw freed at e)
    ]

-- Whatever process_free does, the allocation stays unused.
process_free-keeps :
    (m m' : Memory) (chunk : Chunk) (process process' : Process) (ptr j : ℕ)
    → HasUnused m process j
    → process_free m chunk process ptr ≡ some (process', m')
    → HasUnused m' process' j
unfolding process_free
process_free-keeps m m' chunk process process' ptr j v e =
    elim (Option-cases (process_get_allocation_by_addr process ptr)) [
      | inl n ↦ HasUnused-result m m' process process' j v (rw (n, process_free) at e)
      | inr (allocation, found) ↦
          freed-keeps m m' process process' ptr j
            (paging_map_to m.words chunk allocation.ptr 0
              (paging_align_address ((allocation.ptr + allocation.size) % 2 ^ 32)) 0)
            v (rw (found, process_free) at e)
    ]

none-not-some : (r : Process × Memory) → ¬ (◌≡◌ {A = Freed} none (some r))
none-not-some r e = ground arith

terminate_loop-unused :
    (left : ℕ) (m : Memory) (chunk : Chunk) (process : Process) (i j : ℕ)
    → HasUnused m process j
    → i ≤ j
    → j < i + left
    → terminate_loop m chunk process left i ≡ none
unfolding terminate_loop
terminate_loop-unused zero m chunk process i j v h k = absurd (omega arith)
terminate_loop-unused (suc left) m chunk process i j v h k =
    elim (Option-cases (get_elem? process.allocations i)) [
      | inl n ↦ rw (n, terminate_loop) refl
      | inr (a, there) ↦ elim (Option-cases (process_free m chunk process a.ptr)) [
        | inl n ↦ rw (there, terminate_loop, ◌>>=◌, n) refl
        | inr ((process', m'), run) ↦ elim (ℕ_discrete i j) [
          | yes e ↦
              let same : a.ptr ≡ 0 =
                ap (λ (x : ProcessAllocation). x.ptr)
                  (some-injective a v.unused
                    (sym there ∙ ap (get_elem? process.allocations) e ∙ v.there))
                ∙ v.null in
              absurd (
                none-not-some (process', m')
                  (sym (
                      ap (process_free m chunk process) same
                      ∙ process_free-null m chunk process j v)
                    ∙ run))
          | no ne ↦
              rw (there, terminate_loop, ◌>>=◌, run)
                (terminate_loop-unused left m' chunk process' (i + 1) j
                  (process_free-keeps m m' chunk process process' a.ptr j v run) (omega arith)
                  (omega arith))
        ]
      ]
    ]

terminate_allocation-unused :
    (m : Memory) (chunk : Chunk) (process : Process) (j : ℕ)
    → HasUnused m process j
    → j < 1024
    → process_terminate_allocation m chunk process ≡ none
unfolding process_terminate_allocation
terminate_allocation-unused m chunk process j v inside =
    terminate_loop-unused 1024 m chunk process 0 j v (omega arith) (omega arith)

-- For a process with an allocation that is not in use, where these have no size and the heap starts
-- between the first page and 2 GB, process_terminate frees NULL, which marks a block in front of the
-- heap's table, outside the modelled memory.
pub process_terminate-unused :
    {S : Type 0} (w : World S) (p elf_address j : ℕ) (process : Process) (t : Task) (chunk : Chunk)
    (unused : ProcessAllocation)
    → w.process_at p ≡ some process
    → w.tasks.store process.task ≡ some t
    → w.chunk_at t.page_directory ≡ some chunk
    → j < 1024
    → get_elem? process.allocations j ≡ some unused
    → unused.ptr ≡ 0
    → IsCleared process.allocations
    → 4096 ≤ w.memory.kernel.heap.saddr
    → w.memory.kernel.heap.saddr ≤ 2 ^ 31
    → process_terminate w p elf_address ≡ none
unfolding process_terminate
process_terminate-unused w p elf_address j process t chunk unused there running paged inside in_slot
      null cleared low high =
    let v : HasUnused w.memory process j = record {
      unused = unused;
      there = in_slot;
      null = null;
      cleared = cleared;
      low = low;
      high = high;
    } in
    rw (there, ◌>>=◌, running, paged, terminate_allocation-unused w.memory chunk process j v inside)
      refl
