-- ===== src/Memory/Heap/Spans.antt =====
-- What the block table stands for: a sequence of free blocks and allocations.
use alpha_os.Prelude.{
  ℕ, zero, suc, ◌+◌, ◌-◌, ◌*◌, ◌^◌, ◌≤◌, ◌<◌, ◌≡◌, refl, ap, sym, ◌∙◌, true, false, some, List, [],
  ◌∷◌, ◌++◌, All, length, length-append, drop, take, replicate, length-replicate, arith, ok,
  append_assoc, ◌%◌,
}
use native.Mathlib.Decide.{dec_lt}
use alpha_os.Memory.Heap.{
  Heap, block_size, heap_get_entry_type, heap_create, heap_block_to_address, heap_malloc_blocks,
  heap_free, heap_mark_block_free,
}
use alpha_os.Memory.Heap.Scan.{is_free, all_free, first_fit}
use alpha_os.Memory.Heap.Mark.{later_entries, run_entries, length-run, mark_free_lem}
use alpha_os.Memory.Heap.Alloc.{
  IsPool, allocated, first_fit-all_free, malloc_blocks-first_fit, address_to_block_lem,
}

-- `used n` is one allocation of `n + 1` blocks.
pub data Span : Type 0 where
  hole : Span
  used : ℕ → Span

abbrev pub span_entries : Span → List ℕ
span_entries hole = 0 ∷ []
span_entries (used n) = run_entries (suc n)

abbrev pub encode : List Span → List ℕ
encode [] = []
encode (s ∷ ss) = span_entries s ++ encode ss

-- The table holds whole allocations and free blocks, and nothing else.
abbrev pub Represents : Heap → List Span → Type 0
Represents heap spans = heap.entries ≡ encode spans

pub encode-append : (xs ys : List Span) → encode (xs ++ ys) ≡ encode xs ++ encode ys
encode-append [] ys = refl
encode-append (x ∷ xs) ys =
    ap (◌++◌ (span_entries x)) (encode-append xs ys)
    ∙ sym (append_assoc (span_entries x) (encode xs) (encode ys))

pub encode-holes : (n : ℕ) → encode (replicate n hole) ≡ replicate n 0
encode-holes zero = refl
encode-holes (suc n) = ap (◌∷◌ 0) (encode-holes n)

abbrev pub AllTaken : List ℕ → Type 0
AllTaken = All (λ e. is_free e ≡ false)

later-AllTaken : (n : ℕ) → AllTaken (later_entries n)
unfolding heap_get_entry_type
later-AllTaken zero = tt
later-AllTaken (suc zero) = (refl, tt)
later-AllTaken (suc (suc n)) = (refl, later-AllTaken (suc n))

pub run-AllTaken : (n : ℕ) → AllTaken (run_entries n)
unfolding heap_get_entry_type
run-AllTaken zero = tt
run-AllTaken (suc zero) = (refl, tt)
run-AllTaken (suc (suc n)) = (refl, later-AllTaken (suc n))

-- No free run starts inside an allocation.
taken_inside :
    (n s : ℕ) (xs ys : List ℕ)
    → AllTaken xs
    → s < length xs
    → 0 < n
    → all_free n (drop s (xs ++ ys)) ≡ false
unfolding all_free
taken_inside n s [] ys t h p = absurd (omega arith)
taken_inside zero zero (x ∷ xs) ys t h p = absurd (omega arith)
taken_inside (suc n) zero (x ∷ xs) ys t h p = ground arith
taken_inside n (suc s) (x ∷ xs) ys t h p = taken_inside n s xs ys t.1 (omega arith) p

drop_beyond : (s : ℕ) (xs ys : List ℕ) → length xs ≤ s → drop s (xs ++ ys) ≡ drop (s - length xs) ys
drop_beyond s [] ys h = ap (λ k. drop k ys) (omega arith)
drop_beyond zero (x ∷ xs) ys h = absurd (omega arith)
drop_beyond (suc s) (x ∷ xs) ys h =
    drop_beyond s xs ys (omega arith) ∙ ap (λ k. drop k ys) (omega arith)

-- `n` free entries at the head are `n` free blocks.
holes_at_head :
    (n : ℕ) (spans : List Span)
    → all_free n (encode spans) ≡ true
    → (post : List Span) × (spans ≡ replicate n hole ++ post)
unfolding all_free heap_get_entry_type
holes_at_head zero spans h = (spans, refl)
holes_at_head (suc n) [] h = absurd (ground arith)
holes_at_head (suc n) (hole ∷ spans) h =
    let (post, e) = holes_at_head n spans (ground arith) in (post, ap (◌∷◌ hole) e)
holes_at_head (suc n) (used zero ∷ spans) h = absurd (ground arith)
holes_at_head (suc n) (used (suc k) ∷ spans) h = absurd (ground arith)

-- The blocks before `s`, the `n` free blocks from `s` on, and the rest.
record SplitAt (spans : List Span) (n s : ℕ) : Type 0 where
  pub before : List Span
  pub after : List Span
  pub whole : spans ≡ before ++ (replicate n hole ++ after)
  pub start : length (encode before) ≡ s

not-all_free-nil : (n : ℕ) → 0 < n → all_free n [] ≡ true → ⊥
unfolding all_free
not-all_free-nil zero p h = omega arith
not-all_free-nil (suc n) p h = ground arith

not-all_free-inside :
    (n s k : ℕ) (ys : List ℕ)
    → 0 < n
    → s < suc k
    → all_free n (drop s (run_entries (suc k) ++ ys)) ≡ true
    → ⊥
not-all_free-inside n s k ys p h f = ground (
  arith,
  taken_inside n s (run_entries (suc k)) ys (run-AllTaken (suc k)) (rw (length-run (suc k)) h) p,
)

all_free_beyond :
    (n s k : ℕ) (ys : List ℕ)
    → suc k ≤ s
    → all_free n (drop s (run_entries (suc k) ++ ys)) ≡ true
    → all_free n (drop (s - suc k) ys) ≡ true
all_free_beyond n s k ys h f =
    ap (λ m. all_free n (drop (s - m) ys)) (sym (length-run (suc k)))
    ∙ ap (all_free n) (sym (drop_beyond s (run_entries (suc k)) ys (rw (length-run (suc k)) h)))
    ∙ f

length-encode-used :
    (k : ℕ) (spans : List Span) → length (encode (used k ∷ spans)) ≡ suc k + length (encode spans)
length-encode-used k spans =
    length-append (run_entries (suc k)) (encode spans)
    ∙ ap (λ m. m + length (encode spans)) (length-run (suc k))

-- Structural in the spans; the offset falls with each span.
split_at :
    (n s : ℕ) (spans : List Span)
    → 0 < n
    → all_free n (drop s (encode spans)) ≡ true
    → SplitAt spans n s
split_at n s [] p h = split_nil s h
  where
    split_nil : (s : ℕ) → all_free n (drop s (encode [])) ≡ true → SplitAt [] n s
    split_nil zero h = absurd (not-all_free-nil n p h)
    split_nil (suc s) h = absurd (not-all_free-nil n p h)
split_at n zero (hole ∷ spans) p h =
    let (post, e) = holes_at_head n (hole ∷ spans) h in
    record { before = []; after = post; whole = e; start = refl }
split_at n (suc s) (hole ∷ spans) p h =
    let rest = split_at n s spans p h in
    record {
      before = hole ∷ rest.before;
      after = rest.after;
      whole = ap (◌∷◌ hole) rest.whole;
      start = ap suc rest.start;
    }
split_at n s (used k ∷ spans) p h = elim (dec_lt s (suc k)) [
  | yes inside ↦ absurd (not-all_free-inside n s k (encode spans) p inside h)
  | no beyond ↦
      let rest =
        split_at n (s - suc k) spans p (all_free_beyond n s k (encode spans) (omega arith) h) in
      record {
        before = used k ∷ rest.before;
        after = rest.after;
        whole = ap (◌∷◌ (used k)) rest.whole;
        start = omega (arith, rest.start, length-encode-used k rest.before);
      }
]

encode_pieces :
    (before mid after : List Span)
    → encode (before ++ (mid ++ after)) ≡ encode before ++ (encode mid ++ encode after)
encode_pieces before mid after =
    encode-append before (mid ++ after) ∙ ap (◌++◌ (encode before)) (encode-append mid after)

take-length-append : (xs ys : List ℕ) → take (length xs) (xs ++ ys) ≡ xs
take-length-append [] ys = refl
take-length-append (x ∷ xs) ys = ap (◌∷◌ x) (take-length-append xs ys)

drop-length-append : (xs ys : List ℕ) → drop (length xs) (xs ++ ys) ≡ ys
drop-length-append [] ys = refl
drop-length-append (x ∷ xs) ys = drop-length-append xs ys

spliced :
    (b z a r es : List ℕ) (s n : ℕ)
    → es ≡ b ++ (z ++ a)
    → length b ≡ s
    → length z ≡ n
    → take s es ++ (r ++ drop n (drop s es)) ≡ b ++ (r ++ a)
spliced b z a r es s n e hs hn = rw (
  e,
  ← hs,
  ← hn,
  take-length-append b (z ++ a),
  drop-length-append b (z ++ a),
  drop-length-append z a,
)

-- The table after an allocation of `k + 1` blocks in the hole between `before` and `after`.
allocated-encode :
    (heap : Heap) (spans : List Span) (k s : ℕ)
    → Represents heap spans
    → (at : SplitAt spans (suc k) s)
    → (allocated heap s (suc k)).entries ≡ encode (at.before ++ used k ∷ at.after)
allocated-encode heap spans k s rep at =
    spliced (encode at.before) (replicate (suc k) 0) (encode at.after) (run_entries (suc k))
      heap.entries s (suc k) table at.start (length-replicate (suc k) 0)
    ∙ sym (encode-append at.before (used k ∷ at.after))
  where
    table : heap.entries ≡ encode at.before ++ (replicate (suc k) 0 ++ encode at.after)
    table =
        rep
        ∙ ap encode at.whole
        ∙ encode_pieces at.before (replicate (suc k) hole) at.after
        ∙ ap (λ l. encode at.before ++ (l ++ encode at.after)) (encode-holes (suc k))

-- On a table of whole allocations and free blocks, an allocation of `k + 1` blocks replaces
-- the first `k + 1` adjacent free blocks by one allocation, and returns the address of its first
-- block; the table is again one of whole allocations and free blocks.
pub malloc_blocks_refines :
    (heap : Heap) (spans : List Span) (k s : ℕ)
    → Represents heap spans
    → first_fit (suc k) heap.entries ≡ some s
    → (before after : List Span) × (heap' : Heap) × (spans
        ≡ before ++ (replicate (suc k) hole ++ after))
      × (length (encode before) ≡ s)
      × (heap_malloc_blocks heap (suc k) ≡ some (heap_block_to_address heap s, heap'))
      × Represents heap' (before ++ used k ∷ after)
malloc_blocks_refines heap spans k s rep fits = (
  at.before,
  at.after,
  allocated heap s (suc k),
  at.whole,
  at.start,
  malloc_blocks-first_fit heap (suc k) s (omega arith) fits,
  allocated-encode heap spans k s rep at,
)
  where
    at : SplitAt spans (suc k) s
    at = split_at (suc k) s spans (omega arith) (
        ap (λ l. all_free (suc k) (drop s l)) (sym rep)
        ∙ first_fit-all_free (suc k) heap.entries s fits)

-- Freeing the address of an allocation turns its blocks into free blocks and changes nothing else.
pub free_refines :
    (heap : Heap) (before after : List Span) (k : ℕ)
    → IsPool heap
    → Represents heap (before ++ used k ∷ after)
    → (heap' : Heap) × (heap_free heap (heap_block_to_address heap (length (encode before)))
        ≡ some heap')
      × Represents heap' (before ++ (replicate (suc k) hole ++ after))
unfolding heap_free heap_block_to_address
free_refines heap before after k pool rep = (
  record heap { entries = encode before ++ (replicate (suc k) 0 ++ encode after) },
  ap (heap_mark_block_free heap) (
        address_to_block_lem heap (length (encode before)) (omega (arith, within))
          (omega (arith, within)))
      ∙ mark_free_lem heap (suc k) (encode before) (encode after) table (omega arith),
  sym (
      encode_pieces before (replicate (suc k) hole) after
      ∙ ap (λ l. encode before ++ (l ++ encode after)) (encode-holes (suc k))),
)
  where
    table : heap.entries ≡ encode before ++ (run_entries (suc k) ++ encode after)
    table = rep ∙ encode-append before (used k ∷ after)

    within : length (encode before) + suc k ≤ length heap.entries
    within = omega (
      arith,
      ap length table,
      length-append (encode before) (run_entries (suc k) ++ encode after),
      length-append (run_entries (suc k)) (encode after),
      length-run (suc k),
    )

-- Aligned bounds that the table's length fits give a heap of free blocks alone.
pub create_refines :
    (heap : Heap) (ptr end : ℕ) (entries : List ℕ)
    → ptr % block_size ≡ 0
    → end % block_size ≡ 0
    → ptr ≤ end
    → end < 2 ^ 32
    → length entries * block_size ≡ end - ptr
    → ((heap_create heap ptr end entries).0 ≡ ok 0)
      × Represents (heap_create heap ptr end entries).1 (replicate (length entries) hole)
      × ((heap_create heap ptr end entries).1.saddr ≡ ptr)
unfolding heap_create
create_refines heap ptr end entries p e o b t = ground (arith, encode-holes (length entries))
