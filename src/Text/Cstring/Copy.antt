-- ===== src/Text/Cstring/Copy.antt =====
-- strcpy and strncpy between ranges that do not overlap.
use alpha_os.Prelude.{
  ℕ, zero, suc, ◌+◌, ◌-◌, ◌%◌, ◌^◌, ◌≤◌, ◌<◌, ◌≡◌, ◌≢◌, ◌⊎◌, refl, sym, ap, subst, length, ◌∙◌,
  true, false, ◌==◌, [], ◌∷◌, arith, Ram, write, offset, if◌then◌else◌, IsBytes, write-IsBytes,
  Bool-cases, inl, inr,
}
use alpha_os.Text.Cstring.{strncpy_loop, strncpy}
use alpha_os.Text.Cstring.Compare.{text}

-- A write outside a text leaves it.
text-write :
    (n : ℕ) (ram : Ram) (p a v : ℕ)
    → p + n < 2 ^ 32
    → (a < p) ⊎ (p + n ≤ a)
    → text (write ram a v) p n ≡ text ram p n
unfolding text write
text-write zero ram p a v h out = refl
text-write (suc n) ram p a v h out = ground (arith, text-write n ram (offset p 1) a v)

pub text-cons :
    (n : ℕ) (ram : Ram) (p : ℕ) → ram p ≢ 0 → text ram p (suc n) ≡ ram p ∷ text ram (offset p 1) n
unfolding text
text-cons n ram p h = ground arith

pub text-nil : (n : ℕ) (ram : Ram) (p : ℕ) → ram p ≡ 0 → text ram p n ≡ []
unfolding text
text-nil zero ram p h = refl
text-nil (suc n) ram p h = ground arith

write_lem : (ram : Ram) (a v b : ℕ) → write ram a v b ≡ (if b == a then v % 256 else ram b)
unfolding write
write_lem ram a v b = refl

strncpy_loop_outside :
    (left : ℕ) (ram : Ram) (dest src i a : ℕ)
    → dest + i + left < 2 ^ 32
    → (a < dest + i) ⊎ (dest + i + left < a)
    → strncpy_loop left ram dest src i a ≡ ram a
unfolding strncpy_loop
strncpy_loop_outside zero ram dest src i a h out = ground (arith, write_lem ram (offset dest i) 0 a)
strncpy_loop_outside (suc left) ram dest src i a h out = ground (
  arith,
  write_lem ram (offset dest i) 0 a,
  write_lem ram (offset dest i) (ram (offset src i)) a,
  strncpy_loop_outside left (write ram (offset dest i) (ram (offset src i))) dest src (i + 1) a,
)

strncpy_loop_stop :
    (left : ℕ) (ram : Ram) (dest src i : ℕ)
    → (ram (offset src i) == 0) ≡ true
    → strncpy_loop (suc left) ram dest src i ≡ write ram (offset dest i) 0
unfolding strncpy_loop
strncpy_loop_stop left ram dest src i e = ground arith

strncpy_loop_go :
    (left : ℕ) (ram : Ram) (dest src i : ℕ)
    → (ram (offset src i) == 0) ≡ false
    → strncpy_loop (suc left) ram dest src i
      ≡ strncpy_loop left (write ram (offset dest i) (ram (offset src i))) dest src (i + 1)
unfolding strncpy_loop
strncpy_loop_go left ram dest src i e = ground arith

-- One byte copied in front of a copied text.
copied :
    (left : ℕ) (ram : Ram) (dest src i : ℕ) (out : Ram)
    → IsBytes ram
    → (ram (offset src i) == 0) ≡ false
    → dest + i + suc left < 2 ^ 32
    → src + i + suc left < 2 ^ 32
    → (src + i + suc left < dest + i) ⊎ (dest + i + suc left < src + i)
    → out (dest + i) ≡ write ram (offset dest i) (ram (offset src i)) (dest + i)
    → text out (dest + (i + 1)) (suc left)
      ≡ text (write ram (offset dest i) (ram (offset src i))) (src + (i + 1)) left
    → text out (dest + i) (suc (suc left)) ≡ text ram (src + i) (suc left)
copied left ram dest src i out bytes more h k apart first rest = ground (
  arith,
  text-cons (suc left) out (dest + i),
  text-cons left ram (src + i),
  text-write left ram (src + (i + 1)) (offset dest i) (ram (offset src i)),
  write_lem ram (offset dest i) (ram (offset src i)) (dest + i),
  bytes (src + i),
)

text-strncpy_loop :
    (left : ℕ) (ram : Ram) (dest src i : ℕ)
    → IsBytes ram
    → dest + i + left < 2 ^ 32
    → src + i + left < 2 ^ 32
    → (src + i + left < dest + i) ⊎ (dest + i + left < src + i)
    → text (strncpy_loop left ram dest src i) (dest + i) (suc left) ≡ text ram (src + i) left
text-strncpy_loop zero ram dest src i bytes h k apart =
    text-nil 1 (strncpy_loop 0 ram dest src i) (dest + i)
      (unfold strncpy_loop in ground (arith, write_lem ram (offset dest i) 0 (dest + i)))
    ∙ sym (unfold text in refl)
text-strncpy_loop (suc left) ram dest src i bytes h k apart =
    elim (Bool-cases (ram (offset src i) == 0)) [
      | inl end ↦
          ap (λ r. text r (dest + i) (suc (suc left))) (strncpy_loop_stop left ram dest src i end)
          ∙ text-nil (suc (suc left)) (write ram (offset dest i) 0) (dest + i)
              (ground (arith, write_lem ram (offset dest i) 0 (dest + i)))
          ∙ sym (text-nil (suc left) ram (src + i) (ground arith))
      | inr more ↦
          let ram' = write ram (offset dest i) (ram (offset src i)) in
          let out = strncpy_loop left ram' dest src (i + 1) in
          ap (λ r. text r (dest + i) (suc (suc left))) (strncpy_loop_go left ram dest src i more)
          ∙ copied left ram dest src i out bytes more h k apart
              (strncpy_loop_outside left ram' dest src (i + 1) (dest + i) (omega arith)
                (omega arith))
              (text-strncpy_loop left ram' dest src (i + 1)
                (write-IsBytes ram (offset dest i) (ram (offset src i)) bytes) (omega arith)
                (omega arith) (omega arith))
    ]

-- Between ranges of `n` bytes that do not overlap, and for `n` of 1 or more, strncpy leaves at
-- `dest` the text of `src` cut to `n - 1` bytes, with its NUL, and changes no byte outside the `n`
-- bytes at `dest`.
pub strncpy_lem :
    (ram : Ram) (dest src n a : ℕ)
    → IsBytes ram
    → 0 < n
    → dest + n < 2 ^ 32
    → src + n < 2 ^ 32
    → (src + n ≤ dest) ⊎ (dest + n ≤ src)
    → (a < dest) ⊎ (dest + n ≤ a)
    → (text (strncpy ram dest src n) dest n ≡ text ram src (n - 1))
      × (strncpy ram dest src n a ≡ ram a)
unfolding strncpy
strncpy_lem ram dest src n a bytes pos_n h k apart out = (
  ground (
    arith,
    text-strncpy_loop (n - 1) ram dest src 0 bytes (omega arith) (omega arith) (omega arith),
  ),
  strncpy_loop_outside (n - 1) ram dest src 0 a (omega arith) (omega arith),
)

strncpy_loop-IsBytes :
    (left : ℕ) (ram : Ram) (dest src i : ℕ)
    → IsBytes ram
    → IsBytes (strncpy_loop left ram dest src i)
unfolding strncpy_loop
strncpy_loop-IsBytes zero ram dest src i bytes = write-IsBytes ram (offset dest i) 0 bytes
strncpy_loop-IsBytes (suc left) ram dest src i bytes = elim (Bool-cases (ram (offset src i) == 0)) [
  | inl end ↦
      subst IsBytes (sym (strncpy_loop_stop left ram dest src i end))
        (write-IsBytes ram (offset dest i) 0 bytes)
  | inr more ↦ subst IsBytes (sym (strncpy_loop_go left ram dest src i more)) (
      strncpy_loop-IsBytes left (write ram (offset dest i) (ram (offset src i))) dest src (i + 1)
        (write-IsBytes ram (offset dest i) (ram (offset src i)) bytes))
]

pub strncpy-IsBytes : (ram : Ram) (dest src n : ℕ) → IsBytes ram → IsBytes (strncpy ram dest src n)
unfolding strncpy
strncpy-IsBytes ram dest src n bytes = strncpy_loop-IsBytes (n - 1) ram dest src 0 bytes

pub text-length : (n : ℕ) (ram : Ram) (p : ℕ) → length (text ram p n) ≤ n
unfolding text
text-length zero ram p = omega arith
text-length (suc n) ram p = ground (arith, text-length n ram (offset p 1))
