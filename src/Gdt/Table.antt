-- ===== src/Gdt/Table.antt =====
-- The table of descriptors, entry by entry.
use alpha_os.Prelude.{
  ℕ, ◌≤◌, ◌≡◌, refl, ap, ◌∙◌, some, List, [], ◌∷◌, ◌++◌, length, drop, get_elem?, get_elem?-append,
  set-append, length-append, append_assoc, arith,
}
use alpha_os.Gdt.{GdtStructured, encode_gdt_entry, gdt_structured_to_gdt, to_gdt_loop}

-- `bytes` are the encoded entries of `structured`.
abbrev pub Encodes : List GdtStructured → List (List ℕ) → Type 0
Encodes [] [] = Unit
Encodes [] (b ∷ bytes) = ⊥
Encodes (s ∷ structured) [] = ⊥
Encodes (s ∷ structured) (b ∷ bytes) = (encode_gdt_entry s ≡ some b) × Encodes structured bytes

to_gdt_loop_lem :
    (done : List (List ℕ)) (before : List GdtStructured) (gdt : List (List ℕ))
    (structured : List GdtStructured) (bytes : List (List ℕ))
    → length done ≡ length before
    → Encodes structured bytes
    → length structured ≤ length gdt
    → to_gdt_loop (length structured) (length done) (done ++ gdt) (before ++ structured)
      ≡ some (done ++ (bytes ++ drop (length structured) gdt))
unfolding to_gdt_loop
to_gdt_loop_lem done before gdt [] [] e h room = refl
to_gdt_loop_lem done before gdt [] (b ∷ bytes) e h room = absurd h
to_gdt_loop_lem done before gdt (s ∷ structured) [] e h room = absurd h
to_gdt_loop_lem done before [] (s ∷ structured) (b ∷ bytes) e h room = absurd (omega arith)
to_gdt_loop_lem done before (g ∷ gdt) (s ∷ structured) (b ∷ bytes) e h room =
    let ih =
      to_gdt_loop_lem (done ++ b ∷ []) (before ++ s ∷ []) gdt structured bytes
        (omega (arith, length-append done (b ∷ []), length-append before (s ∷ []))) h.1
        (omega arith) in
    rw
      (
        ap (get_elem? (before ++ s ∷ structured)) e ∙ get_elem?-append before structured s,
        h.0,
        set-append done gdt g b,
      )
      (rw
        (
          append_assoc done (b ∷ []) gdt,
          append_assoc before (s ∷ []) structured,
          append_assoc done (b ∷ []) (bytes ++ drop (length structured) gdt),
          length-append done (b ∷ []),
        )
        at ih)

-- With one entry of the table per segment, and none that panics, the table holds the encoded
-- entries in their order, and its further entries are as they were.
pub gdt_structured_to_gdt_lem :
    (gdt : List (List ℕ)) (structured : List GdtStructured) (bytes : List (List ℕ))
    → Encodes structured bytes
    → length structured ≤ length gdt
    → gdt_structured_to_gdt gdt structured (length structured)
      ≡ some (bytes ++ drop (length structured) gdt)
unfolding gdt_structured_to_gdt
gdt_structured_to_gdt_lem gdt structured bytes h room =
    to_gdt_loop_lem [] [] gdt structured bytes refl h room
