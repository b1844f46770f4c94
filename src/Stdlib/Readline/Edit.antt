-- ===== src/Stdlib/Readline/Edit.antt =====
-- The line that is read, as an edited text.
use alpha_os.Prelude.{
  ℕ, zero, suc, ◌+◌, ◌-◌, ◌%◌, ◌<◌, ◌≡◌, ◌≢◌, refl, ap, ◌∙◌, true, false, ◌&&◌, ◌==◌, ltb, leb,
  if◌then◌else◌, some, List, [], ◌∷◌, length, set, set?, set?-in_range, All, arith, ◌>>=◌,
}
use native.Mathlib.Decide.{ℕ_discrete}
use alpha_os.Stdlib.Readline.{key_loop, getkeyblock, readline_loop, terminal_readline}

-- The text so far, its last character first, after a key: a backspace takes the last character away,
-- but at the start of the line it is a character.
abbrev pub edit : List ℕ → ℕ → List ℕ
edit [] c = c ∷ []
edit (d ∷ line) c = if c == 0x08 then line else c ∷ d ∷ line

abbrev pub edited : List ℕ → List ℕ → List ℕ
edited line [] = line
edited line (c ∷ typed) = edited (edit line c) typed

-- Every key is read a call after one that finds none, and carriage return ends the line.
abbrev pub polled : List ℕ → List ℕ
polled [] = 0 ∷ 13 ∷ []
polled (c ∷ typed) = 0 ∷ c ∷ polled typed

-- A line, its last character first, before what follows it.
abbrev pub onto : List ℕ → List ℕ → List ℕ
onto [] rest = rest
onto (c ∷ line) rest = onto line (c ∷ rest)

abbrev pub IsKey : ℕ → Type 0
IsKey c = (c ≢ 0) × (c ≢ 13) × (c < 256)

set-onto :
    (line rest : List ℕ) (j c : ℕ)
    → set (onto line rest) (length line + j) c ≡ onto line (set rest j c)
set-onto [] rest j c = ap (λ n. set rest n c) (omega arith)
set-onto (d ∷ line) rest j c =
    ap (λ n. set (onto line (d ∷ rest)) n c) (omega arith) ∙ set-onto line (d ∷ rest) (suc j) c

length-onto : (line rest : List ℕ) → length (onto line rest) ≡ length line + length rest
length-onto [] rest = omega arith
length-onto (d ∷ line) rest = length-onto line (d ∷ rest) ∙ omega arith

write-onto :
    (line rest : List ℕ) (d c : ℕ)
    → set? (onto line (d ∷ rest)) (length line) c ≡ some (onto line (c ∷ rest))
write-onto line rest d c =
    set?-in_range (onto line (d ∷ rest)) (length line) c
      (omega (arith, length-onto line (d ∷ rest)))
    ∙ ap some
        (ap (λ n. set (onto line (d ∷ rest)) n c) (omega arith) ∙ set-onto line (d ∷ rest) 0 c)

-- A round of the loop: a character, a backspace behind one, and the end.
round-char :
    (fuel max c d : ℕ) (keys line rest : List ℕ)
    → IsKey c
    → length line + 1 < max
    → (c == 0x08 && leb 1 (length line)) ≡ false
    → readline_loop (suc fuel) (0 ∷ c ∷ keys) (length line) max (onto line (d ∷ rest))
      ≡ readline_loop fuel keys (length line + 1) max (onto line (c ∷ rest))
unfolding readline_loop getkeyblock key_loop
round-char fuel max c d keys line rest v room t =
    let a : ltb (length line + 1) max ≡ true = ground arith in
    let z : (c == 0) ≡ false = ground (arith, v.0) in
    let m : c % 256 ≡ c = omega (arith, v.2) in
    let cr : (c == 13) ≡ false = ground (arith, v.1) in
    let w : set? (onto line (d ∷ rest)) (length line) (c % 256) ≡ some (onto line (c ∷ rest)) =
      ap (λ n. set? (onto line (d ∷ rest)) (length line) n) m ∙ write-onto line rest d c in
    rw (a, z, ◌>>=◌, m, cr, t, w) refl

round-back :
    (fuel max l d : ℕ) (keys line rest : List ℕ)
    → length line + 2 < max
    → readline_loop (suc fuel) (0 ∷ 8 ∷ keys) (length (l ∷ line)) max (onto (l ∷ line) (d ∷ rest))
      ≡ readline_loop fuel keys (length line) max (onto line (l ∷ 0 ∷ rest))
unfolding readline_loop getkeyblock key_loop
round-back fuel max l d keys line rest room =
    let a : ltb (length (l ∷ line) + 1) max ≡ true = ground arith in
    let t : leb 1 (length (l ∷ line)) ≡ true = ground arith in
    let e : length (l ∷ line) - 1 ≡ length line = omega arith in
    rw (a, ◌>>=◌, t, write-onto (l ∷ line) rest d 0, e) refl

round-end :
    (fuel i max : ℕ) (out : List ℕ)
    → i + 1 < max
    → readline_loop (suc fuel) (0 ∷ 13 ∷ []) i max out ≡ some (i, out)
unfolding readline_loop getkeyblock key_loop
round-end fuel i max out room = let a : ltb (i + 1) max ≡ true = ground arith in rw (a, ◌>>=◌) refl

readline_loop_lem :
    (typed line rest : List ℕ) (fuel max : ℕ)
    → All IsKey typed
    → length line + length typed + 1 < max
    → length rest + length line ≡ max
    → length typed < fuel
    → (d : ℕ) × (rest' : List ℕ) × (readline_loop fuel
          (polled typed)
          (length line)
          max
          (onto line rest)
        ≡ some (length (edited line typed), onto (edited line typed) (d ∷ rest')))
readline_loop_lem typed line rest zero max v room size enough = absurd (omega arith)
readline_loop_lem typed line [] (suc fuel) max v room size enough = absurd (omega arith)
readline_loop_lem [] line (d ∷ rest) (suc fuel) max v room size enough =
    (d, rest, round-end fuel (length line) max (onto line (d ∷ rest)) (omega arith))
readline_loop_lem (c ∷ typed) [] (d ∷ rest) (suc fuel) max v room size enough =
    let (d', rest', run) =
      readline_loop_lem typed (c ∷ []) rest fuel max v.1 (omega arith) (omega arith)
        (omega arith) in
    let t : (c == 0x08 && leb 1 0) ≡ false = ground arith in
    (d', rest', round-char fuel max c d (polled typed) [] rest v.0 (omega arith) t ∙ run)
readline_loop_lem (c ∷ typed) (l ∷ line) (d ∷ rest) (suc fuel) max v room size enough =
    elim (ℕ_discrete c 8) [
      | yes e ↦
          let (d', rest', run) =
            readline_loop_lem typed line (l ∷ 0 ∷ rest) fuel max v.1 (omega arith) (omega arith)
              (omega arith) in
          let t : (c == 8) ≡ true = ground arith in
          let step =
            ap
              (λ n.
                readline_loop (suc fuel) (0 ∷ n ∷ polled typed) (length (l ∷ line)) max
                  (onto (l ∷ line) (d ∷ rest)))
              e
            ∙ round-back fuel max l d (polled typed) line rest (omega arith) in
          rw t (d', rest', step ∙ run)
      | no ne ↦
          let (d', rest', run) =
            readline_loop_lem typed (c ∷ l ∷ line) rest fuel max v.1 (omega arith) (omega arith)
              (omega arith) in
          let t : (c == 8) ≡ false = ground arith in
          let t' : (c == 0x08 && leb 1 (length (l ∷ line))) ≡ false = ground arith in
          let e : length (l ∷ line) + 1 ≡ length (c ∷ l ∷ line) = omega arith in
          rw t (
            d',
            rest',
            round-char fuel max c d (polled typed) (l ∷ line) rest v.0 (omega arith) t'
                ∙ ap (λ n. readline_loop fuel (polled typed) n max (onto (l ∷ line) (c ∷ rest))) e
                ∙ run,
          )
    ]

-- Where every key comes a call after one that finds none, and the buffer is longer by two or more
-- than there are keys before carriage return, terminal_readline leaves in it the edited text, in
-- which a backspace takes the last character away, and NUL; fuel above the number of keys is
-- enough.
pub terminal_readline_lem :
    (typed out : List ℕ) (fuel : ℕ)
    → All IsKey typed
    → length typed + 1 < length out
    → length typed < fuel
    → (rest : List ℕ) × (terminal_readline fuel (polled typed) (length out) out
        ≡ some (onto (edited [] typed) (0 ∷ rest)))
unfolding terminal_readline
terminal_readline_lem typed out fuel v room enough =
    let (d, rest, run) =
      readline_loop_lem typed [] out fuel (length out) v (omega arith) (omega arith) enough in
    (rest, rw (run, ◌>>=◌) (write-onto (edited [] typed) rest d 0))
