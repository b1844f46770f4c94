-- ===== src/Stdlib/Itoa.antt =====
-- What itoa of programs/stdlib/src/stdlib.c prints.
use alpha_os.Prelude.{
  ℕ, zero, suc, ◌+◌, ◌-◌, ◌*◌, ◌/◌, ◌%◌, ◌^◌, ◌≤◌, ◌<◌, ◌≡◌, ◌≢◌, refl, sym, subst, ap, ap₂, ◌∙◌,
  true, false, ◌==◌, some, List, [], ◌∷◌, ◌++◌, append_assoc, length, length-set, length-append,
  set, drop, All, ℤ, pos, negsuc, arith, ◌>>=◌,
}
use native.Mathlib.Decide.{ℕ_discrete}
use alpha_os.Stdlib.{itoa_loop, prepend, itoa_magnitude, itoa}

-- The number that digits stand for, behind those that stand for `n`.
abbrev pub value_from : ℕ → List ℕ → ℕ
value_from n [] = n
value_from n (c ∷ digits) = value_from (n * 10 + (c - b'0')) digits

abbrev pub IsDigit : ℕ → Type 0
IsDigit c = (b'0' ≤ c) × (c < b'0' + 10)

value_from-snoc :
    (digits : List ℕ) (n c : ℕ)
    → value_from n (digits ++ c ∷ []) ≡ value_from n digits * 10 + (c - b'0')
value_from-snoc [] n c = refl
value_from-snoc (d ∷ digits) n c = value_from-snoc digits (n * 10 + (d - b'0')) c

All-snoc :
    (digits : List ℕ) (c : ℕ) → All IsDigit digits → IsDigit c → All IsDigit (digits ++ c ∷ [])
All-snoc [] c v h = (h, tt)
All-snoc (d ∷ digits) c v h = (v.0, All-snoc digits c v.1 h)

drop-set :
    (text : List ℕ) (loc c : ℕ)
    → loc < length text
    → drop loc (set text loc c) ≡ c ∷ drop (suc loc) text
drop-set [] loc c h = absurd (omega arith)
drop-set (d ∷ text) zero c h = refl
drop-set (d ∷ text) (suc loc) c h = drop-set text loc c (omega arith)

-- The digits that the loop puts before what stands from `loc` on.
record Printed (value k loc : ℕ) (text : List ℕ) (loc' : ℕ) (text' : List ℕ) : Type 0 where
  digits : List ℕ
  is_digits : All IsDigit digits
  value_of : value_from 0 digits ≡ value
  count : length digits + loc' ≡ loc
  few : length digits ≤ k
  behind : drop loc' text' ≡ digits ++ drop loc text
  size : length text' ≡ length text
  empty : value ≡ 0 → digits ≡ []

-- 10 ^ k
abbrev pow_10 : ℕ → ℕ
pow_10 zero = 1
pow_10 (suc k) = 10 * pow_10 k

no_digits : (k loc : ℕ) (text : List ℕ) → Printed 0 k loc text loc text
no_digits k loc text = record {
  digits = [];
  is_digits = tt;
  value_of = refl;
  count = omega arith;
  few = omega arith;
  behind = refl;
  size = refl;
  empty = λ e. refl;
}

-- One digit more, behind those that are printed.
one_more :
    (value k loc loc' : ℕ) (text text' : List ℕ)
    → value ≢ 0
    → suc loc ≤ length text
    → Printed (value / 10) k loc (set text loc (b'0' + value % 10)) loc' text'
    → Printed value (suc k) (suc loc) text loc' text'
one_more value k loc loc' text text' nz inside v =
    let c = b'0' + value % 10 in
    let len : length (v.digits ++ c ∷ []) ≡ length v.digits + 1 = length-append v.digits (c ∷ []) in
    record {
      digits = v.digits ++ c ∷ [];
      is_digits = All-snoc v.digits c v.is_digits (omega arith, omega arith);
      value_of = value_from-snoc v.digits 0 c ∙ omega (arith, v.value_of);
      count = omega (arith, len, v.count);
      few = omega (arith, len, v.few);
      behind =
          v.behind
          ∙ ap (λ rest. v.digits ++ rest) (drop-set text loc c inside)
          ∙ sym (append_assoc v.digits (c ∷ []) (drop (suc loc) text));
      size = v.size ∙ length-set text loc c;
      empty = λ e. absurd (nz e);
    }

itoa_loop-zero : (loc : ℕ) (text : List ℕ) → itoa_loop loc 0 text ≡ some (loc, text)
unfolding itoa_loop
itoa_loop-zero zero text = refl
itoa_loop-zero (suc loc) text = refl

itoa_loop_lem :
    (loc value k : ℕ) (text : List ℕ)
    → value < pow_10 k
    → k ≤ loc
    → loc ≤ length text
    → (r : ℕ × List ℕ) × (itoa_loop loc value text ≡ some r) × Printed value k loc text r.0 r.1
unfolding itoa_loop
itoa_loop_lem loc value zero text small room inside =
    let e : value ≡ 0 = omega arith in
    (
      (loc, text),
      ap (λ n. itoa_loop loc n text) e ∙ itoa_loop-zero loc text,
      subst (λ n. Printed n zero loc text loc text) (sym e) (no_digits zero loc text),
    )
itoa_loop_lem zero value (suc k) text small room inside = absurd (omega arith)
itoa_loop_lem (suc loc) value (suc k) text small room inside =
    let (r, run, v) =
      itoa_loop_lem loc (value / 10) k (set text loc (b'0' + value % 10)) (omega arith)
        (omega arith) (omega (arith, length-set text loc (b'0' + value % 10))) in
    elim (ℕ_discrete value 0) [
      | yes e ↦ (
        (suc loc, text),
        ap (λ n. itoa_loop (suc loc) n text) e ∙ itoa_loop-zero (suc loc) text,
        subst (λ n. Printed n (suc k) (suc loc) text (suc loc) text) (sym e)
            (no_digits (suc k) (suc loc) text),
      )
      | no ne ↦
          let t : (value == 0) ≡ false = ground arith in
          (r, rw (t, run) refl, one_more value k loc r.0 text r.1 ne (omega arith) v)
    ]

prepend-eq : (c loc : ℕ) (r : ℕ × List ℕ) → r.0 ≡ suc loc → prepend c r ≡ some (loc, set r.1 loc c)
unfolding prepend
prepend-eq c loc (zero, text) e = absurd (omega arith)
prepend-eq c loc (suc l, text) e =
    let h : l ≡ loc = omega arith in ap (λ n. some (n, set text n c)) h

drop-all : (text : List ℕ) (n : ℕ) → length text ≤ n → drop n text ≡ []
drop-all [] zero h = refl
drop-all [] (suc n) h = refl
drop-all (c ∷ text) zero h = absurd (omega arith)
drop-all (c ∷ text) (suc n) h = drop-all text n (omega arith)

length-nil : (digits : List ℕ) → length digits ≡ 0 → digits ≡ []
length-nil [] e = refl
length-nil (c ∷ digits) e = absurd (omega arith)

abbrev pub magnitude : ℤ → ℕ
magnitude (pos n) = n
magnitude (negsuc n) = n + 1

abbrev pub sign : ℤ → List ℕ
sign (pos n) = []
sign (negsuc n) = b'-' ∷ []

-- From one to ten digits that stand for the number.
pub record IsDecimal (value : ℕ) (digits : List ℕ) : Type 0 where
  pub is_digits : All IsDigit digits
  pub value_of : value_from 0 digits ≡ value
  pub some_digit : 1 ≤ length digits
  pub few : length digits ≤ 10

-- What is left of the buffer when the digits are printed: room for the sign.
record Held (value : ℕ) (r : ℕ × List ℕ) : Type 0 where
  digits : List ℕ
  decimal : IsDecimal value digits
  behind : drop r.0 r.1 ≡ digits ++ 0 ∷ []
  room : 1 ≤ r.0
  inside : r.0 ≤ length r.1

itoa_magnitude_lem :
    (value : ℕ) (text : List ℕ)
    → length text ≡ 12
    → value ≤ 2 ^ 31
    → (r : ℕ × List ℕ) × (itoa_magnitude value text ≡ some r) × Held value r
unfolding itoa_magnitude
itoa_magnitude_lem value text len small =
    let len' = length-set text 11 0 in
    let (r, run, v) =
      itoa_loop_lem 11 value 10 (set text 11 0) (omega arith) (omega arith) (omega (arith, len')) in
    let end : drop 11 (set text 11 0) ≡ 0 ∷ [] =
      drop-set text 11 0 (omega arith) ∙ ap (λ rest. 0 ∷ rest) (drop-all text 12 (omega arith)) in
    elim (ℕ_discrete r.0 11) [
      | yes e ↦
          let t : (r.0 == 11) ≡ true = ground arith in
          let none_yet : v.digits ≡ [] = length-nil v.digits (omega (arith, v.count)) in
          (
            (10, set r.1 10 b'0'),
            rw (run, ◌>>=◌, t) (prepend-eq b'0' 10 r e),
            record {
              digits = b'0' ∷ [];
              decimal = record {
                is_digits = ((omega arith, omega arith), tt);
                value_of = ap (value_from 0) (sym none_yet) ∙ v.value_of;
                some_digit = omega arith;
                few = omega arith;
              };
              behind =
                  drop-set r.1 10 b'0' (omega (arith, v.size, len'))
                  ∙ ap (λ rest. b'0' ∷ rest)
                      (ap (λ n. drop n r.1) (sym e) ∙ v.behind ∙ ap₂ (λ a b. a ++ b) none_yet end);
              room = omega arith;
              inside = omega (arith, v.size, len', length-set r.1 10 b'0');
            },
          )
      | no ne ↦
          let t : (r.0 == 11) ≡ false = ground arith in
          (
            r,
            rw (run, ◌>>=◌, t) refl,
            record {
              digits = v.digits;
              decimal = record {
                is_digits = v.is_digits;
                value_of = v.value_of;
                some_digit = omega (arith, v.count);
                few = v.few;
              };
              behind = v.behind ∙ ap (λ rest. v.digits ++ rest) end;
              room = omega (arith, v.count, v.few);
              inside = omega (arith, v.count, v.size, len');
            },
          )
    ]

-- Every int is printed into the buffer of 12 bytes: the sign of a negative one, from one to ten
-- decimal digits that stand for its magnitude, and NUL.
pub itoa_lem :
    (value : ℤ) (text : List ℕ)
    → length text ≡ 12
    → magnitude value ≤ 2 ^ 31
    → (digits : List ℕ) × (itoa value text ≡ some (sign value ++ (digits ++ 0 ∷ [])))
      × IsDecimal (magnitude value) digits
unfolding itoa
itoa_lem (pos n) text len small =
    let (r, run, v) = itoa_magnitude_lem n text len small in
    (v.digits, rw (run, ◌>>=◌) (ap some v.behind), v.decimal)
itoa_lem (negsuc n) text len small =
    let (r, run, v) = itoa_magnitude_lem (n + 1) text len small in
    let loc = r.0 - 1 in
    let e : r.0 ≡ suc loc = omega (arith, v.room) in
    (
      v.digits,
      rw (run, ◌>>=◌, prepend-eq b'-' loc r e)
          (ap some (
            drop-set r.1 loc b'-' (omega (arith, v.inside))
            ∙ ap (λ rest. b'-' ∷ rest) (ap (λ m. drop m r.1) (sym e) ∙ v.behind))),
      v.decimal,
    )
