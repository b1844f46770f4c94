-- ===== src/Gdt/Tests.antt =====
-- The kernel's segments.
use alpha_os.Prelude.{ℕ, ◌%◌, ◌<◌, ◌≡◌, ◌≢◌, ◌⊎◌, refl, none, some, List, [], ◌∷◌, length, arith}
use alpha_os.Gdt.{GdtStructured, encode_gdt_entry, entry_bytes}
use alpha_os.Gdt.Decode.{decode, decode-encode}

abbrev null_segment : GdtStructured
null_segment = record { base = 0; limit = 0; type = 0 }

abbrev kernel_code : GdtStructured
kernel_code = record { base = 0; limit = 0xFFFFFFFF; type = 0x9A }

abbrev kernel_code_bytes : List ℕ
kernel_code_bytes = 0xFF ∷ 0xFF ∷ 0 ∷ 0 ∷ 0 ∷ 0x9A ∷ 0xCF ∷ 0 ∷ []

abbrev null_bytes : List ℕ
null_bytes = 0 ∷ 0 ∷ 0 ∷ 0 ∷ 0 ∷ 0 ∷ 0x40 ∷ 0 ∷ []

encode_kernel_code : encode_gdt_entry kernel_code ≡ some kernel_code_bytes
unfolding encode_gdt_entry entry_bytes
encode_kernel_code = refl

encode_null : encode_gdt_entry null_segment ≡ some null_bytes
unfolding encode_gdt_entry entry_bytes
encode_null = refl

decode-encode_example :
    ((bytes : List ℕ) × (encode_gdt_entry kernel_code ≡ some bytes)
      × (length bytes ≡ 8)
      × (decode bytes ≡ kernel_code))
    ⊎ (encode_gdt_entry kernel_code ≡ none) × (65536 < 0xFFFFFFFF) × (0xFFFFFFFF % 4096 ≢ 4095)
decode-encode_example = decode-encode kernel_code (omega arith) (omega arith)
