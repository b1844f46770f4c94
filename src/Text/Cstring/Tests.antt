-- ===== src/Text/Cstring/Tests.antt =====
-- Strings in a small memory: "Ab" at 0x10 and "aB" at 0x20.
use alpha_os.Prelude.{◌≡◌, inl, inr, refl, arith, pos, Ram, IsBytes, ◌==◌, if◌then◌else◌}
use alpha_os.Text.Cstring.{tolower, istrncmp, strncpy}
use alpha_os.Text.Cstring.Length.{IsString}
use alpha_os.Text.Cstring.Compare.{text}
use alpha_os.Text.Cstring.Copy.{strncpy_lem}

abbrev memory : Ram
memory a =
    if a == 0x10
    then b'A'
    else if a == 0x11
    then b'b'
    else if a == 0x20
    then b'a'
    else if a == 0x21
    then b'B'
    else 0

memory-IsBytes : IsBytes memory
memory-IsBytes a = ground arith

memory-IsString : IsString memory 0x10 2
memory-IsString = record { chars = λ i h. ground arith; ends = refl }

istrncmp_same : istrncmp memory 0x10 0x20 5 ≡ pos 0
unfolding istrncmp tolower
istrncmp_same = refl

strncpy_example :
    (text (strncpy memory 0x40 0x10 2) 0x40 2 ≡ text memory 0x10 1)
    × (strncpy memory 0x40 0x10 2 0x42 ≡ 0)
strncpy_example =
    strncpy_lem memory 0x40 0x10 2 0x42 memory-IsBytes (omega arith) (omega arith) (omega arith)
      (inl (omega arith)) (inr (omega arith))
