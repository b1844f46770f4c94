-- ===== src/Keyboard/Queue.antt =====
-- The key buffer of a process is a queue, as long as at most 1024 keys wait.
use alpha_os.Prelude.{
  ℕ, zero, suc, ◌+◌, ◌%◌, ◌^◌, ◌≤◌, ◌<◌, ◌≡◌, ◌≢◌, refl, sym, ap, ◌∙◌, List, [], ◌∷◌, ◌++◌, ◌==◌,
  if◌then◌else◌, get_or, set, length, length-append, length-set, get_or-set_self, get_or-set_ne,
  All, arith, subst, ap₂, append-nil, append_assoc,
}
use native.Mathlib.Decide.{ℕ_discrete}
use alpha_os.Keyboard.{KeyBuffer, push_buffer, pop_buffer, keyboard_get_tail_index}

-- The buffer holds the keys `q`, oldest first, from `head` on, and NUL in every other cell.
pub record Holds (b : KeyBuffer) (q : List ℕ) : Type 0 where
  pub sized : length b.buffer ≡ 1024
  pub count : length q ≤ 1024
  pub head_in : b.head < 2 ^ 32
  pub tail_at : b.tail ≡ (b.head + length q) % 2 ^ 32
  pub cells : (i : ℕ) → i < 1024 → get_or b.buffer ((b.head + i) % 1024) 0 ≡ get_or q i 0
  pub keys : All (λ c. c ≢ 0) q

get_or-snoc :
    (q : List ℕ) (c i : ℕ) → get_or (q ++ c ∷ []) i 0 ≡ (if i == length q then c else get_or q i 0)
get_or-snoc [] c zero = refl
get_or-snoc [] c (suc i) = ground arith
get_or-snoc (x ∷ q) c zero = ground arith
get_or-snoc (x ∷ q) c (suc i) = ground (arith, get_or-snoc q c i)

get_or-end : (q : List ℕ) (i : ℕ) → length q ≤ i → get_or q i 0 ≡ 0
get_or-end [] i h = refl
get_or-end (x ∷ q) zero h = absurd (omega arith)
get_or-end (x ∷ q) (suc i) h = get_or-end q i (omega arith)

All-snoc : (q : List ℕ) (c : ℕ) → All (λ c. c ≢ 0) q → c ≢ 0 → All (λ c. c ≢ 0) (q ++ c ∷ [])
All-snoc [] c h n = (n, tt)
All-snoc (x ∷ q) c h n = (h.0, All-snoc q c h.1 n)

-- A cell of the buffer after a write.
get_or-set :
    (buf : List ℕ) (i j v : ℕ)
    → i < length buf
    → get_or (set buf i v) j 0 ≡ (if j == i then v else get_or buf j 0)
get_or-set buf i j v h = elim (ℕ_discrete i j) [
  | yes e ↦ ground (arith, get_or-set_self buf i v 0 h)
  | no ne ↦ ground (arith, get_or-set_ne buf i j v 0 ne)
]

push_buffer-eq :
    (b : KeyBuffer) (c : ℕ)
    → c ≢ 0
    → push_buffer b c
      ≡ record b { buffer = set b.buffer (b.tail % 1024) c; tail = (b.tail + 1) % 2 ^ 32 }
unfolding push_buffer keyboard_get_tail_index
push_buffer-eq b c n = ground arith

pop_buffer-eq :
    (b : KeyBuffer) (c : ℕ)
    → get_or b.buffer (b.head % 1024) 0 ≡ c
    → c ≢ 0
    → pop_buffer b
      ≡ (c, record b { buffer = set b.buffer (b.head % 1024) 0; head = (b.head + 1) % 2 ^ 32 })
unfolding pop_buffer
pop_buffer-eq b c h n = ground arith

-- The cell of the key that is `i` places behind the head, after a push.
push_cells :
    (b : KeyBuffer) (q : List ℕ) (c i : ℕ)
    → Holds b q
    → length q < 1024
    → i < 1024
    → get_or (set b.buffer (b.tail % 1024) c) ((b.head + i) % 1024) 0 ≡ get_or (q ++ c ∷ []) i 0
push_cells b q c i v room h = ground (
  arith,
  v.tail_at,
  v.head_in,
  v.sized,
  v.cells i h,
  get_or-snoc q c i,
  get_or-set b.buffer (b.tail % 1024) ((b.head + i) % 1024) c (omega (arith, v.sized)),
)

-- A key that is pushed while fewer than 1024 wait joins the end of the queue.
pub push_buffer_refines :
    (b : KeyBuffer) (q : List ℕ) (c : ℕ)
    → Holds b q
    → c ≢ 0
    → length q < 1024
    → Holds (push_buffer b c) (q ++ c ∷ [])
push_buffer_refines b q c v n room =
    subst (λ b'. Holds b' (q ++ c ∷ [])) (sym (push_buffer-eq b c n))
      (record {
        sized = length-set b.buffer (b.tail % 1024) c ∙ v.sized;
        count = omega (arith, length-append q (c ∷ []));
        head_in = v.head_in;
        tail_at = omega (arith, v.tail_at, v.head_in, length-append q (c ∷ []));
        cells = λ i h. push_cells b q c i v room h;
        keys = All-snoc q c v.keys n;
      })

pop_cells :
    (b : KeyBuffer) (c : ℕ) (q : List ℕ) (i : ℕ)
    → Holds b (c ∷ q)
    → i < 1024
    → get_or (set b.buffer (b.head % 1024) 0) (((b.head + 1) % 2 ^ 32 + i) % 1024) 0 ≡ get_or q i 0
pop_cells b c q i v h =
    let e : ((b.head + 1) % 2 ^ 32 + i) % 1024 ≡ (b.head + suc i) % 1024 = omega arith in
    ap (λ j. get_or (set b.buffer (b.head % 1024) 0) j 0) e
    ∙ get_or-set b.buffer (b.head % 1024) ((b.head + suc i) % 1024) 0 (omega (arith, v.sized))
    ∙ elim (ℕ_discrete i 1023) [
      | yes e ↦ ground (arith, get_or-end q i (omega (arith, v.count)))
      | no ne ↦ ground (arith, v.cells (suc i) (omega arith))
    ]

-- A pop takes the oldest key; with none waiting it gives 0 and changes nothing.
pub pop_buffer_refines :
    (b : KeyBuffer) (c : ℕ) (q : List ℕ)
    → Holds b (c ∷ q)
    → ((pop_buffer b).0 ≡ c) × Holds (pop_buffer b).1 q
pop_buffer_refines b c q v =
    let e =
      pop_buffer-eq b c
        (ap (λ j. get_or b.buffer (j % 1024) 0) (omega arith) ∙ v.cells 0 (omega arith)) v.keys.0 in
    (
      ap (λ r. r.0) e,
      subst (λ r. Holds r.1 q) (sym e)
          (record {
            sized = length-set b.buffer (b.head % 1024) 0 ∙ v.sized;
            count = omega (arith, v.count);
            head_in = omega arith;
            tail_at = omega (arith, v.tail_at, v.head_in);
            cells = λ i h. pop_cells b c q i v h;
            keys = v.keys.1;
          }),
    )

pub pop_buffer_empty : (b : KeyBuffer) → Holds b [] → pop_buffer b ≡ (0, b)
unfolding pop_buffer
pop_buffer_empty b v = ground (arith, v.cells 0)

-- With 1024 keys waiting a further key takes the place of the oldest, and is popped first.
pub push_buffer_overwrites :
    (b : KeyBuffer) (q : List ℕ) (c : ℕ)
    → Holds b q
    → length q ≡ 1024
    → c ≢ 0
    → (pop_buffer (push_buffer b c)).0 ≡ c
push_buffer_overwrites b q c v full n =
    ap (λ b'. (pop_buffer b').0) (push_buffer-eq b c n)
    ∙ ap (λ r. r.0)
        (pop_buffer-eq
          (record b { buffer = set b.buffer (b.tail % 1024) c; tail = (b.tail + 1) % 2 ^ 32 }) c
          (ap (λ i. get_or (set b.buffer (b.tail % 1024) c) i 0)
              (omega (arith, v.tail_at, v.head_in))
            ∙ get_or-set_self b.buffer (b.tail % 1024) c 0 (omega (arith, v.sized)))
          n)

-- Several keys one after the other.
unfoldable pub push_all : KeyBuffer → List ℕ → KeyBuffer
push_all b [] = b
push_all b (c ∷ cs) = push_all (push_buffer b c) cs

unfoldable pub pop_all : ℕ → KeyBuffer → List ℕ × KeyBuffer
pop_all zero b = ([], b)
pop_all (suc n) b = let (c, b') = pop_buffer b in let (cs, b'') = pop_all n b' in (c ∷ cs, b'')

push_all_refines :
    (b : KeyBuffer) (q cs : List ℕ)
    → Holds b q
    → All (λ c. c ≢ 0) cs
    → length q + length cs ≤ 1024
    → Holds (push_all b cs) (q ++ cs)
unfolding push_all
push_all_refines b q [] v n room = subst (Holds b) (sym (append-nil q)) v
push_all_refines b q (c ∷ cs) v n room =
    subst (Holds (push_all (push_buffer b c) cs)) (append_assoc q (c ∷ []) cs) (
      push_all_refines (push_buffer b c) (q ++ c ∷ []) cs
        (push_buffer_refines b q c v n.0 (omega arith)) n.1
        (omega (arith, length-append q (c ∷ []))))

pop_all_refines :
    (b : KeyBuffer) (q : List ℕ)
    → Holds b q
    → ((pop_all (length q) b).0 ≡ q) × Holds (pop_all (length q) b).1 []
unfolding pop_all
pop_all_refines b [] v = (refl, v)
pop_all_refines b (c ∷ q) v =
    let (e, v') = pop_buffer_refines b c q v in
    let (es, v'') = pop_all_refines (pop_buffer b).1 q v' in (ap₂ ◌∷◌ e es, v'')

-- What is pushed into an empty buffer, up to 1024 keys none of which is 0, is popped in the same
-- order, and leaves the buffer empty.
pub pop_all-push_all :
    (b : KeyBuffer) (cs : List ℕ)
    → Holds b []
    → All (λ c. c ≢ 0) cs
    → length cs ≤ 1024
    → ((pop_all (length cs) (push_all b cs)).0 ≡ cs)
      × Holds (pop_all (length cs) (push_all b cs)).1 []
pop_all-push_all b cs v n room =
    pop_all_refines (push_all b cs) cs (push_all_refines b [] cs v n (omega arith))
