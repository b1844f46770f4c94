-- ===== src/Isr80h/UserMemory/Copied.antt =====
-- The copy through page tables in copy_string_from_task of src/task/task.c.
use alpha_os.Prelude.{
  ℕ, zero, suc, ◌+◌, ◌-◌, ◌%◌, ◌^◌, ◌≤◌, ◌<◌, ◌≡◌, ◌≢◌, ◌⊎◌, inl, refl, sym, ap, ap₂, subst, ◌∙◌,
  true, false, ◌==◌, if◌then◌else◌, [], ◌∷◌, Ram, write, offset, IsBytes, write-IsBytes, arith,
}
use native.Mathlib.Decide.{ℕ_discrete}
use alpha_os.Text.Cstring.Compare.{text}
use alpha_os.Text.Cstring.Copy.{text-cons, text-nil}
use alpha_os.Text.Cstring.Holds.{Holds}
use alpha_os.Isr80h.UserMemory.{seen, seen_strncpy_loop, seen_strncpy}

pub text-same :
    (n : ℕ) (ram ram' : Ram) (p : ℕ)
    → p + n < 2 ^ 32
    → ((a : ℕ) → p ≤ a → a < p + n → ram' a ≡ ram a)
    → text ram' p n ≡ text ram p n
unfolding text
text-same zero ram ram' p h same = refl
text-same (suc n) ram ram' p h same =
    let e : offset p 1 ≡ p + 1 = omega arith in
    ground (
      arith,
      same p,
      text-same n ram ram' (p + 1) (omega arith) (λ a l u. same a (omega arith) (omega arith)),
      e,
    )

-- A buffer at `tmp` that its page shows where it is, and a text at `virtual` that lies elsewhere.
pub record IsApart (translate : ℕ → ℕ) (tmp virtual max : ℕ) : Type 0 where
  pub own : (a : ℕ) → tmp ≤ a → a < tmp + 4096 → translate a ≡ a
  pub elsewhere :
      (a : ℕ) → virtual ≤ a → a < virtual + max → (translate a < tmp) ⊎ (tmp + 4096 ≤ translate a)
  pub above : 0 < tmp
  pub below : tmp + 4096 ≤ 2 ^ 32
  pub inside : virtual + max < 2 ^ 32
  pub small : max < 4096

write-at : (ram : Ram) (a v b : ℕ) → write ram a v b ≡ (if b == a then v % 256 else ram b)
unfolding write
write-at ram a v b = refl

loop-stop :
    (translate : ℕ → ℕ) (left : ℕ) (ram : Ram) (dest src i : ℕ)
    → seen ram translate (offset src i) ≡ 0
    → seen_strncpy_loop translate (suc left) ram dest src i
      ≡ write ram (translate (offset dest i)) 0
unfolding seen_strncpy_loop
loop-stop translate left ram dest src i e =
    let t : (seen ram translate (offset src i) == 0) ≡ true = ground arith in
    rw (t, seen_strncpy_loop) refl

loop-go :
    (translate : ℕ → ℕ) (left : ℕ) (ram : Ram) (dest src i : ℕ)
    → seen ram translate (offset src i) ≢ 0
    → seen_strncpy_loop translate (suc left) ram dest src i
      ≡ seen_strncpy_loop translate left
          (write ram (translate (offset dest i)) (seen ram translate (offset src i)))
          dest
          src
          (i + 1)
unfolding seen_strncpy_loop
loop-go translate left ram dest src i ne =
    let t : (seen ram translate (offset src i) == 0) ≡ false = ground arith in
    rw (t, seen_strncpy_loop) refl

-- What the loop leaves at the buffer, and that it writes nothing else.
record IsCopied (translate : ℕ → ℕ) (ram out : Ram) (tmp virtual i left : ℕ) : Type 0 where
  pub held : Holds out (tmp + i) (text (seen ram translate) (virtual + i) left)
  pub outside : (a : ℕ) → (a < tmp + i) ⊎ (tmp + 4096 ≤ a) → out a ≡ ram a
  pub bytes : IsBytes out

-- The end of the loop.
IsCopied-end :
    (translate : ℕ → ℕ) (ram : Ram) (tmp virtual max i left : ℕ)
    → IsApart translate tmp virtual max
    → IsBytes ram
    → i < 4096
    → text (seen ram translate) (virtual + i) left ≡ []
    → IsCopied translate ram (write ram (translate (offset tmp i)) 0) tmp virtual i left
IsCopied-end translate ram tmp virtual max i left v bytes h e =
    let at_i : translate (offset tmp i) ≡ tmp + i =
      ap translate (omega (arith, v.below)) ∙ v.own (tmp + i) (omega arith) (omega arith) in
    let at : (b : ℕ)
        → write ram (translate (offset tmp i)) 0 b ≡ (if b == tmp + i then 0 else ram b) =
      λ b.
        write-at ram (translate (offset tmp i)) 0 b ∙ ap (λ n. if b == n then 0 else ram b) at_i in
    record {
      held =
          subst (Holds (write ram (translate (offset tmp i)) 0) (tmp + i)) (sym e)
            (omega (arith, v.above), omega (arith, v.below), ground (arith, at (tmp + i)));
      outside = λ a out. ground (arith, at a);
      bytes = write-IsBytes ram (translate (offset tmp i)) 0 bytes;
    }

-- One byte in front of what the rest of the loop copies.
IsCopied-step :
    (translate : ℕ → ℕ) (ram out : Ram) (tmp virtual max i left : ℕ)
    → IsApart translate tmp virtual max
    → IsBytes ram
    → i + suc left < max
    → seen ram translate (virtual + i) ≢ 0
    → IsCopied translate
        (write ram (tmp + i) (seen ram translate (virtual + i)))
        out
        tmp
        virtual
        (i + 1)
        left
    → IsCopied translate ram out tmp virtual i (suc left)
unfolding seen
IsCopied-step translate ram out tmp virtual max i left v bytes h ne rest =
    let c = ram (translate (virtual + i)) in
    let ram' = write ram (tmp + i) c in
    let at : (b : ℕ) → ram' b ≡ (if b == tmp + i then c % 256 else ram b) =
      λ b. write-at ram (tmp + i) c b in
    let e : offset (virtual + i) 1 ≡ virtual + (i + 1) = omega (arith, v.inside) in
    let same : text (seen ram' translate) (virtual + (i + 1)) left
        ≡ text (seen ram translate) (virtual + (i + 1)) left =
      text-same left (seen ram translate) (seen ram' translate) (virtual + (i + 1))
        (omega (arith, v.inside))
        (λ a l u. ground (
          arith,
          at (translate a),
          v.elsewhere a (omega (arith, v.inside)) (omega (arith, v.inside)),
          v.small,
        )) in
    let cons : text (seen ram translate) (virtual + i) (suc left)
        ≡ c ∷ text (seen ram translate) (virtual + (i + 1)) left =
      text-cons left (seen ram translate) (virtual + i) ne
      ∙ ap (λ q. c ∷ text (seen ram translate) q left) e in
    record {
      held = subst (Holds out (tmp + i)) (sym cons) (
        omega (arith, v.above),
        rest.outside (tmp + i) (inl (omega arith))
            ∙ ground (arith, at (tmp + i), bytes (translate (virtual + i))),
        omega (arith, ne),
        bytes (translate (virtual + i)),
        subst (Holds out (tmp + i + 1)) same (
            subst (λ q. Holds out q (text (seen ram' translate) (virtual + (i + 1)) left))
              (omega arith) rest.held),
      );
      outside = λ a far. rest.outside a (ground (arith, far)) ∙ ground (arith, at a, v.small);
      bytes = rest.bytes;
    }

loop_lem :
    (translate : ℕ → ℕ) (left : ℕ) (ram : Ram) (tmp virtual max i : ℕ)
    → IsApart translate tmp virtual max
    → IsBytes ram
    → i + left < max
    → IsCopied translate ram (seen_strncpy_loop translate left ram tmp virtual i) tmp virtual i left
loop_lem translate zero ram tmp virtual max i v bytes h =
    unfold seen_strncpy_loop in
    IsCopied-end translate ram tmp virtual max i 0 v bytes (omega (arith, v.small))
      (unfold text in refl)
loop_lem translate (suc left) ram tmp virtual max i v bytes h =
    let e : offset virtual i ≡ virtual + i = omega (arith, v.inside) in
    elim (ℕ_discrete (seen ram translate (virtual + i)) 0) [
      | yes z ↦
          subst (λ (out : Ram). IsCopied translate ram out tmp virtual i (suc left))
            (sym (loop-stop translate left ram tmp virtual i (ap (seen ram translate) e ∙ z)))
            (IsCopied-end translate ram tmp virtual max i (suc left) v bytes
              (omega (arith, v.small)) (text-nil (suc left) (seen ram translate) (virtual + i) z))
      | no ne ↦
          let c = seen ram translate (virtual + i) in
          let at_i : translate (offset tmp i) ≡ tmp + i =
            ap translate (omega (arith, v.below, v.small))
            ∙ v.own (tmp + i) (omega arith) (omega (arith, v.small)) in
          let run : seen_strncpy_loop translate (suc left) ram tmp virtual i
              ≡ seen_strncpy_loop translate left (write ram (tmp + i) c) tmp virtual (i + 1) =
            loop-go translate left ram tmp virtual i (λ z. ne (ap (seen ram translate) (sym e) ∙ z))
            ∙ ap₂ (λ p d. seen_strncpy_loop translate left (write ram p d) tmp virtual (i + 1)) at_i
                (ap (seen ram translate) e) in
          subst (λ (out : Ram). IsCopied translate ram out tmp virtual i (suc left)) (sym run)
            (IsCopied-step translate ram _ tmp virtual max i left v bytes h ne (
              loop_lem translate left (write ram (tmp + i) c) tmp virtual max (i + 1) v
                (write-IsBytes ram (tmp + i) c bytes) (omega arith)))
    ]

pub seen_strncpy_lem :
    (translate : ℕ → ℕ) (ram : Ram) (tmp virtual max : ℕ)
    → IsApart translate tmp virtual max
    → IsBytes ram
    → 0 < max
    → let out = seen_strncpy translate ram tmp virtual max in
      Holds out tmp (text (seen ram translate) virtual (max - 1)) × IsBytes out
unfolding seen_strncpy
seen_strncpy_lem translate ram tmp virtual max v bytes pos_max =
    let out = seen_strncpy_loop translate (max - 1) ram tmp virtual 0 in
    let c = loop_lem translate (max - 1) ram tmp virtual max 0 v bytes (omega arith) in
    (
      subst (λ p. Holds out p (text (seen ram translate) virtual (max - 1))) (omega arith)
          (subst (λ q. Holds out (tmp + 0) (text (seen ram translate) q (max - 1))) (omega arith)
            c.held),
      c.bytes,
    )
