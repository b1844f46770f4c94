-- ===== src/Text/Cstring/Length.antt =====
-- The lengths of C strings.
use alpha_os.Prelude.{
  ℕ, zero, suc, ◌+◌, ◌≤◌, ◌<◌, ◌≡◌, ◌≢◌, ◌⊎◌, ◌∙◌, some, ◌==◌, ◌||◌, arith, Ram, offset, min, inl,
  inr, Bool-cases,
}
use native.Mathlib.Decide.{ℕ_discrete}
use alpha_os.Text.Cstring.{
  strlen_loop, strlen, strnlen_loop, strnlen, terminator_loop, strnlen_terminator,
}

-- A string of `n` bytes and its NUL stand at `p`.
pub record IsString (ram : Ram) (p n : ℕ) : Type 0 where
  pub chars : (i : ℕ) → i < n → ram (offset p i) ≢ 0
  pub ends : ram (offset p n) ≡ 0

strlen_loop_lem :
    (fuel : ℕ) (ram : Ram) (p n len : ℕ)
    → IsString ram p n
    → len ≤ n
    → n < len + fuel
    → strlen_loop fuel ram p len ≡ some n
unfolding strlen_loop
strlen_loop_lem zero ram p n len s h k = absurd (omega arith)
strlen_loop_lem (suc fuel) ram p n len s h k = elim (ℕ_discrete len n) [
  | yes e ↦ rw e (ground (arith, s.ends))
  | no ne ↦ ground (arith, s.chars len, strlen_loop_lem fuel ram p n (len + 1) s)
]

-- strlen of a string of `n` bytes returns `n`, with any fuel above `n`.
pub strlen_lem :
    (fuel : ℕ) (ram : Ram) (p n : ℕ) → IsString ram p n → n < fuel → strlen fuel ram p ≡ some n
unfolding strlen
strlen_lem fuel ram p n s h = strlen_loop_lem fuel ram p n 0 s (omega arith) (omega arith)

strnlen_loop_lem :
    (left : ℕ) (ram : Ram) (p n len : ℕ)
    → IsString ram p n
    → len ≤ n
    → strnlen_loop left ram p len ≡ min n (len + left)
unfolding strnlen_loop
strnlen_loop_lem zero ram p n len s h = omega arith
strnlen_loop_lem (suc left) ram p n len s h = elim (ℕ_discrete len n) [
  | yes e ↦ rw e (ground (arith, s.ends))
  | no ne ↦ ground (arith, s.chars len, strnlen_loop_lem left ram p n (len + 1) s)
]

-- strnlen of a string of `n` bytes is the less of `n` and `max`.
pub strnlen_lem : (ram : Ram) (p n max : ℕ) → IsString ram p n → strnlen ram p max ≡ min n max
unfolding strnlen
strnlen_lem ram p n max s = strnlen_loop_lem max ram p n 0 s (omega arith) ∙ omega arith

-- `r` is the first index from `i` on, up to `end`, at which the string or its field ends.
pub record IsFieldEnd (ram : Ram) (p terminator i end r : ℕ) : Type 0 where
  pub lower : i ≤ r
  pub upper : r ≤ end
  pub stops : (r ≡ end) ⊎ ((ram (offset p r) ≡ 0) ⊎ (ram (offset p r) ≡ terminator))
  pub before : (j : ℕ) → i ≤ j → j < r → (ram (offset p j) ≢ 0) × (ram (offset p j) ≢ terminator)

terminator_loop_lem :
    (left : ℕ) (ram : Ram) (p terminator i end : ℕ)
    → end ≡ i + left
    → IsFieldEnd ram p terminator i end (terminator_loop left ram p terminator i)
unfolding terminator_loop
terminator_loop_lem zero ram p terminator i end e = record {
  lower = omega arith;
  upper = omega arith;
  stops = inl (omega arith);
  before = λ j h k. absurd (omega arith);
}
terminator_loop_lem (suc left) ram p terminator i end e =
    elim (Bool-cases (ram (offset p i) == 0 || ram (offset p i) == terminator)) [
      | inl stop ↦
          rw (stop, terminator_loop)
            (record {
              lower = omega arith;
              upper = omega arith;
              stops = ground arith;
              before = λ j h k. absurd (omega arith);
            })
      | inr go ↦
          let rest = terminator_loop_lem left ram p terminator (i + 1) end (omega arith) in
          rw (go, terminator_loop)
            (record {
              lower = omega (arith, rest.lower);
              upper = rest.upper;
              stops = rest.stops;
              before = λ j h k. ground (arith, rest.before j);
            })
    ]

-- strnlen_terminator returns the first index below `max` that holds NUL or the terminator, or `max`.
pub strnlen_terminator_lem :
    (ram : Ram) (p max terminator : ℕ)
    → IsFieldEnd ram p terminator 0 max (strnlen_terminator ram p max terminator)
unfolding strnlen_terminator
strnlen_terminator_lem ram p max terminator =
    terminator_loop_lem max ram p terminator 0 max (omega arith)
