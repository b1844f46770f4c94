-- ===== src/Stdlib/Command/Split.antt =====
-- The arguments that programs/stdlib/src/alphaos.c takes from a line.
use alpha_os.Prelude.{
  ℕ, zero, suc, ◌+◌, ◌^◌, ◌≤◌, ◌<◌, ◌≡◌, ◌⊎◌, inl, inr, refl, sym, ap, ap₂, subst, ◌∙◌, false, ◌==◌,
  ltb, leb, if◌then◌else◌, some, List, [], ◌∷◌, length, take, map, Ram, IsBytes, arith, Bool-cases,
  ◌>>=◌,
}
use alpha_os.Text.Cstring.{strncpy}
use alpha_os.Text.Cstring.Compare.{text}
use alpha_os.Text.Cstring.Copy.{strncpy_lem, strncpy-IsBytes, text-length}
use alpha_os.Text.Cstring.Holds.{Holds, Holds-below, text-Holds, Holds-text}
use alpha_os.Stdlib.Strtok.{is_delim, strtok}
use alpha_os.Stdlib.Strtok.Words.{strip, first_word, behind_word}
use alpha_os.Stdlib.Strtok.Next.{strtok_lem}
use alpha_os.Stdlib.Command.{parse_loop, alphaos_parse_command}

-- A byte in front of the first word.
abbrev pub lengthen : ℕ → List (List ℕ) → List (List ℕ)
lengthen c [] = (c ∷ []) ∷ []
lengthen c (w ∷ ws) = (c ∷ w) ∷ ws

-- The words of a text: the longest runs of bytes that are no delimiters.
abbrev pub words : List ℕ → List ℕ → List (List ℕ)
words delim [] = []
words delim (c ∷ xs) = if is_delim c delim then words delim xs else elim xs [
  | [] ↦ (c ∷ []) ∷ []
  | d ∷ _ ↦ if is_delim d delim then (c ∷ []) ∷ words delim xs else lengthen c (words delim xs)
]

words-strip : (delim xs : List ℕ) → words delim (strip delim xs) ≡ words delim xs
unfolding strip
words-strip delim [] = refl
words-strip delim (c ∷ xs) = elim (Bool-cases (is_delim c delim)) [
  | inl t ↦ rw t (words-strip delim xs)
  | inr t ↦ rw t (rw t refl)
]

words-first :
    (delim xs : List ℕ) (c : ℕ)
    → is_delim c delim ≡ false
    → words delim (c ∷ xs) ≡ (c ∷ first_word delim xs) ∷ words delim (behind_word delim xs)
unfolding first_word behind_word
words-first delim [] c t = rw t refl
words-first delim (d ∷ xs) c t = elim (Bool-cases (is_delim d delim)) [
  | inl u ↦ rw (t, u) refl
  | inr u ↦ let rest = words-first delim xs d u in rw (t, u) (ap (lengthen c) (rw u at rest))
]

take-nil : (n : ℕ) → take {A = List ℕ} n [] ≡ []
take-nil zero = refl
take-nil (suc n) = refl

abbrev pub blank : List ℕ
blank = b' ' ∷ []

blank_no_nul : is_delim 0 blank ≡ false
unfolding is_delim
blank_no_nul = refl

-- The arguments of a line, which are its words cut to 511 bytes each, as many as there are nodes.
abbrev pub arguments_of : ℕ → List ℕ → List (List ℕ)
arguments_of mallocs line = take mallocs (map (take 511) (words blank line))

-- What a call of strtok leaves to the loop is the words of its text.
words-next :
    (delim xs : List ℕ) (c : ℕ) (rest : List ℕ)
    → strip delim xs ≡ c ∷ rest
    → is_delim c delim ≡ false
    → words delim xs ≡ (c ∷ first_word delim rest) ∷ words delim (behind_word delim rest)
words-next delim xs c rest e t =
    sym (words-strip delim xs) ∙ ap (words delim) e ∙ words-first delim rest c t

parse_loop-null :
    (fuel : ℕ) (ram : Ram) (sp mallocs : ℕ)
    → parse_loop (suc fuel) ram sp mallocs 0 ≡ some ([], sp, ram)
unfolding parse_loop
parse_loop-null fuel ram sp mallocs = refl

parse_loop-full :
    (fuel : ℕ) (ram : Ram) (sp token : ℕ)
    → 0 < token
    → parse_loop (suc fuel) ram sp 0 token ≡ some ([], sp, ram)
unfolding parse_loop
parse_loop-full fuel ram sp token h = let t : (token == 0) ≡ false = ground arith in rw t refl

parse_loop-next :
    (fuel : ℕ) (ram ram' ram'' : Ram) (sp mallocs token token' sp' sp'' : ℕ)
    (arguments : List (List ℕ))
    → 0 < token
    → strtok (suc fuel) ram sp 0 blank ≡ some (token', sp', ram')
    → parse_loop fuel ram' sp' mallocs token' ≡ some (arguments, sp'', ram'')
    → parse_loop (suc fuel) ram sp (suc mallocs) token
      ≡ some (text ram token 511 ∷ arguments, sp'', ram'')
unfolding parse_loop
parse_loop-next fuel ram ram' ram'' sp mallocs token token' sp' sp'' arguments h next rest =
    let t : (token == 0) ≡ false = ground arith in rw (t, next, rest, ◌>>=◌) refl

-- From a token on, with the rest of the line behind it.
parse_loop_lem :
    (fuel : ℕ) (ram : Ram) (sp mallocs token : ℕ) (w rest : List ℕ)
    → Holds ram token w
    → Holds ram sp rest
    → length rest + 1 < fuel
    → (sp' : ℕ) × (ram' : Ram) × (parse_loop fuel ram sp mallocs token
        ≡ some (take mallocs (map (take 511) (w ∷ words blank rest)), sp', ram'))
      × ((sp' == 0) ≡ leb (suc (length (words blank rest))) mallocs)
parse_loop_lem zero ram sp mallocs token w rest held behind f = absurd (omega arith)
parse_loop_lem (suc fuel) ram sp zero token w rest held behind f =
    let at_sp = (Holds-below ram sp rest behind).0 in
    (sp, ram, parse_loop-full fuel ram sp token (Holds-below ram token w held).0, ground arith)
parse_loop_lem (suc zero) ram sp (suc mallocs) token w rest held behind f = absurd (omega arith)
parse_loop_lem (suc (suc fuel)) ram sp (suc mallocs) token w rest held behind f =
    let low = (Holds-below ram token w held).0 in
    let at_sp = (Holds-below ram sp rest behind).0 in
    let words_eq = text-Holds 511 ram token w held in
    elim (strtok_lem (suc (suc fuel)) ram sp 0 sp blank rest (ground arith) refl blank_no_nul behind
      (omega arith)) [
        | inl (none_left, run) ↦
            let end : words blank rest ≡ [] =
              sym (words-strip blank rest) ∙ ap (words blank) none_left in
            (
              0,
              ram,
              parse_loop-next (suc fuel) ram ram ram sp mallocs token 0 0 0 [] low run
                    (parse_loop-null fuel ram 0 mallocs)
                  ∙ ap₂ (λ a as'. some (a ∷ as', 0, ram)) words_eq
                      (sym (ap (λ ws. take mallocs (map (take 511) ws)) end ∙ take-nil mallocs)),
              ground (arith, ap length end),
            )
        | inr (c, xs, q, sp', ram', e, run, next) ↦
            let (sp'', ram'', more, stale) =
              parse_loop_lem (suc fuel) ram' sp' mallocs q (c ∷ first_word blank xs)
                (behind_word blank xs) next.token next.behind (omega (arith, next.shorter)) in
            let same = words-next blank rest c xs e next.char in
            (
              sp'',
              ram'',
              parse_loop-next (suc fuel) ram ram' ram'' sp mallocs token q sp' sp'' _ low run more
                  ∙ ap₂ (λ a ws. some (a ∷ take mallocs (map (take 511) ws), sp'', ram'')) words_eq
                      (sym same),
              ground (arith, stale, ap length same),
            )
      ]

alphaos_parse_command-eq :
    (fuel : ℕ) (ram ram' : Ram) (sp sp' scommand mallocs command max token : ℕ)
    → max ≤ 1025
    → strtok fuel (strncpy ram scommand command 1025) sp scommand blank ≡ some (token, sp', ram')
    → alphaos_parse_command fuel ram sp scommand mallocs command max
      ≡ parse_loop fuel ram' sp' mallocs token
unfolding alphaos_parse_command
alphaos_parse_command-eq fuel ram ram' sp sp' scommand mallocs command max token small run =
    let t : ltb 1025 max ≡ false = ground arith in rw (t, run, ◌>>=◌) refl

-- With no line left to strtok, for a `max` up to 1025 and a buffer of 1025 bytes apart from the line,
-- alphaos_parse_command gives the words of the line's first 1024 bytes, split at blanks, each cut to
-- 511 bytes, as many as malloc gives nodes for; fuel above 1026 is enough. It leaves no line to
-- strtok exactly if malloc gives a node for every word.
pub alphaos_parse_command_lem :
    (fuel : ℕ) (ram : Ram) (scommand mallocs command max : ℕ)
    → IsBytes ram
    → max ≤ 1025
    → 0 < scommand
    → scommand + 1025 < 2 ^ 32
    → command + 1025 < 2 ^ 32
    → (command + 1025 ≤ scommand) ⊎ (scommand + 1025 ≤ command)
    → 1026 < fuel
    → (sp' : ℕ) × (ram' : Ram) × (alphaos_parse_command fuel ram 0 scommand mallocs command max
        ≡ some (arguments_of mallocs (text ram command 1024), sp', ram'))
      × ((sp' == 0) ≡ leb (length (words blank (text ram command 1024))) mallocs)
alphaos_parse_command_lem (suc fuel) ram scommand mallocs command max bytes small low high high'
      apart f =
    let line = text ram command 1024 in
    let copy = strncpy ram scommand command 1025 in
    let copied : text copy scommand 1025 ≡ line =
      (strncpy_lem ram scommand command 1025 0 bytes (omega arith) high high' apart (inl low)).0 in
    let len : length line ≤ 1024 = text-length 1024 ram command in
    let held : Holds copy scommand line = subst (Holds copy scommand) copied (
      Holds-text 1025 copy scommand (strncpy-IsBytes ram scommand command 1025 bytes) low high
        (omega (arith, ap length copied, len))) in
    elim (strtok_lem (suc fuel) copy 0 scommand scommand blank line (ground arith) (ground arith)
      blank_no_nul held (omega arith)) [
        | inl (none_left, run) ↦
            let end : words blank line ≡ [] =
              sym (words-strip blank line) ∙ ap (words blank) none_left in
            (
              0,
              copy,
              alphaos_parse_command-eq (suc fuel) ram copy 0 0 scommand mallocs command max 0 small
                    run
                  ∙ parse_loop-null fuel copy 0 mallocs
                  ∙ ap (λ as'. some (as', 0, copy))
                      (sym (ap (λ ws. take mallocs (map (take 511) ws)) end ∙ take-nil mallocs)),
              ground (arith, ap length end),
            )
        | inr (c, xs, q, sp', ram', e, run, next) ↦
            let (sp'', ram'', more, stale) =
              parse_loop_lem (suc fuel) ram' sp' mallocs q (c ∷ first_word blank xs)
                (behind_word blank xs) next.token next.behind (omega (arith, next.shorter)) in
            let same = words-next blank line c xs e next.char in
            (
              sp'',
              ram'',
              alphaos_parse_command-eq (suc fuel) ram ram' 0 sp' scommand mallocs command max q
                    small run
                  ∙ more
                  ∙ ap (λ ws. some (take mallocs (map (take 511) ws), sp'', ram'')) (sym same),
              stale ∙ ap (λ ws. leb (length ws) mallocs) (sym same),
            )
      ]
alphaos_parse_command_lem zero ram scommand mallocs command max bytes small low high high' apart f =
    absurd (omega arith)
