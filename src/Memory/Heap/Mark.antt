-- ===== src/Memory/Heap/Mark.antt =====
-- heap_mark_block_taken and heap_mark_block_free: what the table holds for an allocation.
use alpha_os.Prelude.{
  ℕ, zero, suc, ◌+◌, ◌-◌, ◌≤◌, ◌<◌, ◌≡◌, refl, ap, ◌∙◌, some, List, [], ◌∷◌, ◌++◌, length,
  length-append, get_elem?, set?, replicate, arith, pos, append_assoc, bit_and, ◌≢◌,
}
use alpha_os.Memory.Heap.{
  Heap, has_next, mark_loop, heap_mark_block_taken, free_loop, heap_mark_block_free,
}

-- The entries of an allocation after its first: each but the last says that one follows.
abbrev pub later_entries : ℕ → List ℕ
later_entries zero = []
later_entries (suc zero) = 0x01 ∷ []
later_entries (suc (suc n)) = 0x81 ∷ later_entries (suc n)

-- The entries of an allocation of `n` blocks.
abbrev pub run_entries : ℕ → List ℕ
run_entries zero = []
run_entries (suc zero) = 0x41 ∷ []
run_entries (suc (suc n)) = 0xC1 ∷ later_entries (suc n)

set?-middle :
    (pre : List ℕ) (x v : ℕ) (post : List ℕ)
    → set? (pre ++ x ∷ post) (length pre) v ≡ some (pre ++ v ∷ post)
set?-middle [] x v post = refl
set?-middle (y ∷ pre) x v post = ground (arith, set?-middle pre x v post)

get_elem?-middle :
    (pre : List ℕ) (x : ℕ) (post : List ℕ) → get_elem? (pre ++ x ∷ post) (length pre) ≡ some x
get_elem?-middle [] x post = refl
get_elem?-middle (y ∷ pre) x post = get_elem?-middle pre x post

-- The entry that the loop writes with `left` rounds to go, after the first round.
abbrev later_entry : ℕ → ℕ
later_entry (suc zero) = 0x01
later_entry _ = 0x81

mark_loop_step :
    (left end_block entry : ℕ) (pre : List ℕ) (x : ℕ) (post : List ℕ)
    → end_block ≡ length pre + left
    → mark_loop (suc left) (length pre) end_block entry (pre ++ x ∷ post)
      ≡ mark_loop left
          (length (pre ++ entry ∷ []))
          end_block
          (later_entry left)
          ((pre ++ entry ∷ []) ++ post)
unfolding mark_loop
mark_loop_step zero end_block entry pre x post e =
    ground (arith, set?-middle pre x entry post, append_assoc pre (entry ∷ []) post)
mark_loop_step (suc zero) end_block entry pre x post e = ground (
  arith,
  set?-middle pre x entry post,
  append_assoc pre (entry ∷ []) post,
  length-append pre (entry ∷ []),
)
mark_loop_step (suc (suc left)) end_block entry pre x post e = ground (
  arith,
  set?-middle pre x entry post,
  append_assoc pre (entry ∷ []) post,
  length-append pre (entry ∷ []),
)

mark_later :
    (left end_block : ℕ) (pre mid post : List ℕ)
    → length mid ≡ left
    → end_block + 1 ≡ length pre + left
    → mark_loop left (length pre) end_block (later_entry left) (pre ++ (mid ++ post))
      ≡ some (pre ++ (later_entries left ++ post))
mark_later zero end_block pre [] post h e = unfold mark_loop in refl
mark_later zero end_block pre (x ∷ mid) post h e = absurd (omega arith)
mark_later (suc left) end_block pre [] post h e = absurd (omega arith)
mark_later (suc left) end_block pre (x ∷ mid) post h e =
    mark_loop_step left end_block (later_entry (suc left)) pre x (mid ++ post) (omega arith)
    ∙ mark_later left end_block (pre ++ later_entry (suc left) ∷ []) mid post (omega arith)
        (omega (arith, length-append pre (later_entry (suc left) ∷ [])))
    ∙ ap some (append_assoc pre (later_entry (suc left) ∷ []) (later_entries left ++ post))
    ∙ ap (λ l. some (pre ++ (l ++ post))) (later-suc left)
  where
    later-suc : (n : ℕ) → later_entry (suc n) ∷ later_entries n ≡ later_entries (suc n)
    later-suc zero = refl
    later-suc (suc n) = refl

mark_run :
    (n entry : ℕ) (pre : List ℕ) (x : ℕ) (mid post : List ℕ)
    → length mid ≡ n
    → mark_loop (suc n) (length pre) (length pre + suc n - 1) entry (pre ++ x ∷ (mid ++ post))
      ≡ some (pre ++ entry ∷ (later_entries n ++ post))
mark_run n entry pre x mid post h =
    mark_loop_step n (length pre + suc n - 1) entry pre x (mid ++ post) (omega arith)
    ∙ mark_later n (length pre + suc n - 1) (pre ++ entry ∷ []) mid post h
        (omega (arith, length-append pre (entry ∷ [])))
    ∙ ap some (append_assoc pre (entry ∷ []) (later_entries n ++ post))

-- Marking `n` blocks writes the entries of one allocation there, and no other entry.
pub mark_taken_lem :
    (heap : Heap) (n : ℕ) (pre mid post : List ℕ)
    → heap.entries ≡ pre ++ (mid ++ post)
    → length mid ≡ n
    → heap_mark_block_taken heap (length pre) n
      ≡ some (record heap { entries = pre ++ (run_entries n ++ post) })
unfolding heap_mark_block_taken
mark_taken_lem heap zero pre [] post e h = rw e (unfold mark_loop in refl)
mark_taken_lem heap zero pre (x ∷ mid) post e h = absurd (omega arith)
mark_taken_lem heap (suc n) pre [] post e h = absurd (omega arith)
mark_taken_lem heap (suc zero) pre (x ∷ mid) post e h =
    ground (arith, mark_run 0 0x41 pre x mid post)
mark_taken_lem heap (suc (suc n)) pre (x ∷ mid) post e h =
    ground (arith, mark_run (suc n) 0xC1 pre x mid post)

free_loop_step :
    (left entry : ℕ) (pre post : List ℕ)
    → bit_and entry has_next ≢ 0
    → free_loop (suc left) (length pre) (pre ++ entry ∷ post)
      ≡ free_loop left (length (pre ++ 0 ∷ [])) ((pre ++ 0 ∷ []) ++ post)
unfolding free_loop
free_loop_step left entry pre post h = ground (
  arith,
  get_elem?-middle pre entry post,
  set?-middle pre entry 0 post,
  append_assoc pre (0 ∷ []) post,
  length-append pre (0 ∷ []),
)

free_loop_last :
    (left entry : ℕ) (pre post : List ℕ)
    → bit_and entry has_next ≡ 0
    → free_loop (suc left) (length pre) (pre ++ entry ∷ post) ≡ some (pre ++ 0 ∷ post)
unfolding free_loop
free_loop_last left entry pre post h =
    ground (arith, get_elem?-middle pre entry post, set?-middle pre entry 0 post)

free_later :
    (n rounds : ℕ) (pre post : List ℕ)
    → n < rounds
    → free_loop rounds (length pre) (pre ++ (later_entries (suc n) ++ post))
      ≡ some (pre ++ (replicate (suc n) 0 ++ post))
free_later n zero pre post h = absurd (omega arith)
free_later zero (suc rounds) pre post h = free_loop_last rounds 0x01 pre post refl
free_later (suc n) (suc rounds) pre post h =
    free_loop_step rounds 0x81 pre (later_entries (suc n) ++ post) (omega arith)
    ∙ free_later n rounds (pre ++ 0 ∷ []) post (omega arith)
    ∙ ap some (append_assoc pre (0 ∷ []) (replicate (suc n) 0 ++ post))

free_run :
    (n rounds : ℕ) (pre post : List ℕ)
    → n ≤ rounds
    → 0 < n
    → free_loop rounds (length pre) (pre ++ (run_entries n ++ post))
      ≡ some (pre ++ (replicate n 0 ++ post))
free_run zero rounds pre post h p = absurd (omega arith)
free_run (suc n) zero pre post h p = absurd (omega arith)
free_run (suc zero) (suc rounds) pre post h p = free_loop_last rounds 0x41 pre post refl
free_run (suc (suc n)) (suc rounds) pre post h p =
    free_loop_step rounds 0xC1 pre (later_entries (suc n) ++ post) (omega arith)
    ∙ free_later n rounds (pre ++ 0 ∷ []) post (omega arith)
    ∙ ap some (append_assoc pre (0 ∷ []) (replicate (suc n) 0 ++ post))

length-later : (n : ℕ) → length (later_entries n) ≡ n
length-later zero = refl
length-later (suc zero) = refl
length-later (suc (suc n)) = ap suc (length-later (suc n))

pub length-run : (n : ℕ) → length (run_entries n) ≡ n
length-run zero = refl
length-run (suc zero) = refl
length-run (suc (suc n)) = ap suc (length-later (suc n))

-- Freeing the first block of an allocation frees all its blocks, and no other entry changes.
pub mark_free_lem :
    (heap : Heap) (n : ℕ) (pre post : List ℕ)
    → heap.entries ≡ pre ++ (run_entries n ++ post)
    → 0 < n
    → heap_mark_block_free heap (pos (length pre))
      ≡ some (record heap { entries = pre ++ (replicate n 0 ++ post) })
unfolding heap_mark_block_free
mark_free_lem heap n pre post e h = ground (
  arith,
  length-append pre (run_entries n ++ post),
  length-append (run_entries n) post,
  length-run n,
  free_run n (length heap.entries - length pre) pre post,
)
