-- ===== src/Memory/Heap/Scan.antt =====
-- The one pass of heap_get_start_blocks against a search that tries every start.
use alpha_os.Prelude.{
  Option, ℕ, zero, suc, ◌+◌, ◌<◌, ◌≡◌, refl, ap, ◌∙◌, Bool, true, false, ◌&&◌, inl, inr, none, some,
  List, [], ◌∷◌, ◌++◌, append_assoc, append-nil, sym, ◌≢◌, ◌==◌, Bool-cases, length, length-append,
  arith, ok, err, enomem, All,
}
use alpha_os.Memory.Heap.{Heap, entry_free, heap_get_entry_type, scan_blocks, heap_get_start_blocks}

abbrev pub is_free : ℕ → Bool
is_free entry = heap_get_entry_type entry == entry_free

-- The first `n` entries exist and are free.
unfoldable pub all_free : ℕ → List ℕ → Bool
all_free zero es = true
all_free (suc n) [] = false
all_free (suc n) (e ∷ es) = is_free e && all_free n es

abbrev pub shift : ℕ → Option ℕ → Option ℕ
shift k none = none
shift k (some i) = some (k + i)

-- The least start of `n` free entries.
unfoldable pub first_fit : ℕ → List ℕ → Option ℕ
unfolding all_free
first_fit n [] = none
first_fit n (e ∷ es) = elim (all_free n (e ∷ es)) [
  | true ↦ some 0
  | false ↦ shift 1 (first_fit n es)
]

-- The start of the free entries that end the table, if its last entry is free.
unfoldable pub trailing : List ℕ → Option ℕ
trailing [] = none
trailing (e ∷ es) = elim (all_free (length (e ∷ es)) (e ∷ es)) [
  | true ↦ some 0
  | false ↦ shift 1 (trailing es)
]

pub found : ℕ → List ℕ → Option ℕ
found n es = elim (first_fit n es) [ some s ↦ some s | none ↦ trailing es ]

abbrev pub AllFree : List ℕ → Type 0
AllFree = All (λ e. is_free e ≡ true)

all_free_short : (n : ℕ) (es : List ℕ) → length es < n → all_free n es ≡ false
unfolding all_free
all_free_short zero es h = absurd (omega arith)
all_free_short (suc n) [] h = refl
all_free_short (suc n) (e ∷ es) h = ground (arith, all_free_short n es)

first_fit_short : (n : ℕ) (es : List ℕ) → length es < n → first_fit n es ≡ none
unfolding first_fit
first_fit_short n [] h = refl
first_fit_short n (e ∷ es) h = ground (arith, all_free_short n (e ∷ es), first_fit_short n es)

all_free-AllFree : (es : List ℕ) → AllFree es → all_free (length es) es ≡ true
unfolding all_free
all_free-AllFree [] h = refl
all_free-AllFree (e ∷ es) h = ground (arith, all_free-AllFree es h.1)

all_free_blocked :
    (n : ℕ) (pre : List ℕ) (e : ℕ) (es : List ℕ)
    → is_free e ≡ false
    → length pre < n
    → all_free n (pre ++ e ∷ es) ≡ false
unfolding all_free
all_free_blocked zero pre e es t h = absurd (omega arith)
all_free_blocked (suc n) [] e es t h = ground arith
all_free_blocked (suc n) (x ∷ pre) e es t h = ground (arith, all_free_blocked n pre e es t)

all_free_reached :
    (pre : List ℕ) (e : ℕ) (es : List ℕ)
    → AllFree pre
    → is_free e ≡ true
    → all_free (suc (length pre)) (pre ++ e ∷ es) ≡ true
unfolding all_free
all_free_reached [] e es free f = ground arith
all_free_reached (x ∷ pre) e es free f = ground (arith, all_free_reached pre e es free.1 f)

shift-shift : (a b : ℕ) (o : Option ℕ) → shift a (shift b o) ≡ shift (a + b) o
shift-shift a b none = refl
shift-shift a b (some x) = ap some (omega arith)

found-cons :
    (n x : ℕ) (es : List ℕ)
    → all_free n (x ∷ es) ≡ false
    → all_free (length (x ∷ es)) (x ∷ es) ≡ false
    → found n (x ∷ es) ≡ shift 1 (found n es)
unfolding found first_fit trailing
found-cons n x es p q = ground arith

-- A taken entry ends every run that reaches it.
found_blocked :
    (n : ℕ) (pre : List ℕ) (e : ℕ) (es : List ℕ)
    → is_free e ≡ false
    → length pre < n
    → found n (pre ++ e ∷ es) ≡ shift (suc (length pre)) (found n es)
found_blocked n [] e es t h =
    found-cons n e es (all_free_blocked n [] e es t h)
      (all_free_blocked (suc (length es)) [] e es t (omega arith))
found_blocked n (x ∷ pre) e es t h =
    found-cons n x (pre ++ e ∷ es) (all_free_blocked n (x ∷ pre) e es t h) (
      all_free_blocked (suc (length (pre ++ e ∷ es))) (x ∷ pre) e es t
        (omega (arith, length-append pre (e ∷ es))))
    ∙ ap (shift 1) (found_blocked n pre e es t (omega arith))
    ∙ shift-shift 1 (suc (length pre)) (found n es)
    ∙ ap (λ k. shift k (found n es)) (omega arith)

found-AllFree :
    (n : ℕ) (pre : List ℕ) → AllFree pre → length pre < n → 0 < length pre → found n pre ≡ some 0
unfolding found trailing
found-AllFree n [] free h p = absurd (omega arith)
found-AllFree n (e ∷ es) free h p =
    ground (arith, first_fit_short n (e ∷ es) h, all_free-AllFree (e ∷ es) free)

found_now : (n x : ℕ) (es : List ℕ) → all_free n (x ∷ es) ≡ true → found n (x ∷ es) ≡ some 0
unfolding found first_fit
found_now n x es h = ground arith

found_reached :
    (pre : List ℕ) (e : ℕ) (es : List ℕ)
    → AllFree pre
    → is_free e ≡ true
    → found (suc (length pre)) (pre ++ e ∷ es) ≡ some 0
found_reached [] e es free f = found_now 1 e es (all_free_reached [] e es free f)
found_reached (x ∷ pre) e es free f =
    found_now (suc (suc (length pre))) x (pre ++ e ∷ es) (all_free_reached (x ∷ pre) e es free f)

-- `bs` in a run of `m` free entries that began at `b`
abbrev run_start : ℕ → ℕ → Option ℕ
run_start b zero = none
run_start b (suc m) = some b

All-snoc : (pre : List ℕ) (e : ℕ) → AllFree pre → is_free e ≡ true → AllFree (pre ++ e ∷ [])
All-snoc [] e free f = (f, tt)
All-snoc (x ∷ pre) e free f = (free.0, All-snoc pre e free.1 f)

scan_taken :
    (n e : ℕ) (es : List ℕ) (i : ℕ) (bs : Option ℕ) (bc : ℕ)
    → is_free e ≡ false
    → scan_blocks n (e ∷ es) i bs bc ≡ scan_blocks n es (i + 1) none 0
unfolding scan_blocks
scan_taken n e es i bs bc t = ground arith

scan_reached :
    (n e : ℕ) (es : List ℕ) (b m : ℕ)
    → is_free e ≡ true
    → m + 1 ≡ n
    → scan_blocks n (e ∷ es) (b + m) (run_start b m) m ≡ some b
unfolding scan_blocks
scan_reached n e es b zero f h = ground arith
scan_reached n e es b (suc m) f h = ground arith

scan_onward :
    (n e : ℕ) (es : List ℕ) (b m : ℕ)
    → is_free e ≡ true
    → m + 1 ≢ n
    → scan_blocks n (e ∷ es) (b + m) (run_start b m) m
      ≡ scan_blocks n es (b + suc m) (run_start b (suc m)) (suc m)
unfolding scan_blocks
scan_onward n e es b zero f h = ground arith
scan_onward n e es b (suc m) f h = ground arith

scan_end :
    (n : ℕ) (pre : List ℕ) (b i : ℕ)
    → AllFree pre
    → length pre < n
    → scan_blocks n [] i (run_start b (length pre)) (length pre) ≡ shift b (found n pre)
unfolding scan_blocks found first_fit trailing
scan_end n [] b i free h = refl
scan_end n (x ∷ pre) b i free h =
    rw (found-AllFree n (x ∷ pre) free h (omega arith)) (ap some (omega arith))

length-snoc : (pre : List ℕ) (e : ℕ) → length (pre ++ e ∷ []) ≡ suc (length pre)
length-snoc pre e = omega (arith, length-append pre (e ∷ []))

found_last :
    (n : ℕ) (pre : List ℕ) (e : ℕ) (es : List ℕ)
    → AllFree pre
    → is_free e ≡ true
    → n ≡ suc (length pre)
    → found n (pre ++ e ∷ es) ≡ some 0
found_last n pre e es free f h = rw h (found_reached pre e es free f)

scan_lem :
    (n : ℕ) (es pre : List ℕ) (b : ℕ)
    → AllFree pre
    → length pre < n
    → scan_blocks n es (b + length pre) (run_start b (length pre)) (length pre)
      ≡ shift b (found n (pre ++ es))
scan_lem n [] pre b free h = rw append-nil (scan_end n pre b (b + length pre) free h)
scan_lem n (e ∷ es) pre b free h = elim (Bool-cases (is_free e)) [
  | inr t ↦
      scan_taken n e es (b + length pre) (run_start b (length pre)) (length pre) t
      ∙ ap (λ k. scan_blocks n es k none 0) (omega arith)
      ∙ scan_lem n es [] (b + suc (length pre)) tt (omega arith)
      ∙ sym (shift-shift b (suc (length pre)) (found n es))
      ∙ ap (shift b) (sym (found_blocked n pre e es t h))
  | inl f ↦ elim (Bool-cases (length pre + 1 == n)) [
    | inl last ↦
        scan_reached n e es b (length pre) f (ground arith)
        ∙ ap some (omega arith)
        ∙ ap (shift b) (sym (found_last n pre e es free f (ground arith)))
    | inr more ↦
        scan_onward n e es b (length pre) f (ground arith)
        ∙ ap (λ k. scan_blocks n es (b + k) (run_start b k) k) (sym (length-snoc pre e))
        ∙ scan_lem n es (pre ++ e ∷ []) b (All-snoc pre e free f)
            (rw (length-snoc pre e) (ground arith))
        ∙ ap (λ l. shift b (found n l)) (append_assoc pre (e ∷ []) es)
  ]
]

-- For a request of at least one block, heap_get_start_blocks returns the first start with enough
-- free blocks; where there is none it returns the start of the free run that ends the table, and
-- -ENOMEM only where the table ends with a taken block.
pub start_blocks_lem :
    (heap : Heap) (n : ℕ)
    → 0 < n
    → heap_get_start_blocks heap n ≡ elim (first_fit n heap.entries) [
      | some s ↦ ok s
      | none ↦ elim (trailing heap.entries) [ some t ↦ ok t | none ↦ err enomem ]
    ]
unfolding heap_get_start_blocks found
start_blocks_lem heap n h = ground (arith, scan_lem n heap.entries [] 0 tt h)
