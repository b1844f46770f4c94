-- ===== src/Gdt/Decode.antt =====
-- What the processor reads out of an encoded descriptor.
use alpha_os.Prelude.{
  ℕ, ◌+◌, ◌*◌, ◌/◌, ◌%◌, ◌^◌, ◌≤◌, ◌<◌, ◌≡◌, ◌≢◌, ◌⊎◌, inl, inr, refl, ap, ◌∙◌, none, some, List,
  [], ◌∷◌, ltb, if◌then◌else◌, get_or, length, bit_and, bit_or, bit_and-low_mask, bit_or-shifted,
  arith,
}
use native.Mathlib.Decide.{ℕ_discrete, dec_le}
use alpha_os.Gdt.{GdtStructured, encode_gdt_entry, entry_bytes}

field : List ℕ → ℕ → ℕ
field bytes i = get_or bytes i 0

-- The granularity flag, bit 7 of byte 6, counts the limit in pages of 4096 bytes.
unfoldable pub decode : List ℕ → GdtStructured
unfolding field
decode bytes =
    let limit = field bytes 0 + field bytes 1 * 2 ^ 8 + field bytes 6 % 16 * 2 ^ 16 in
    record {
      base =
          field bytes 2 + field bytes 3 * 2 ^ 8 + field bytes 4 * 2 ^ 16 + field bytes 7 * 2 ^ 24;
      limit = if ltb 127 (field bytes 6) then limit * 4096 + 4095 else limit;
      type = field bytes 5;
    }

mask8 : (a : ℕ) → bit_and a 0xFF ≡ a % 256
mask8 a = bit_and-low_mask 8 a

mask12 : (a : ℕ) → bit_and a 0xFFF ≡ a % 4096
mask12 a = bit_and-low_mask 12 a

mask4 : (a : ℕ) → bit_and a 0x0F ≡ a % 16
mask4 a = bit_and-low_mask 4 a

flags : (h r : ℕ) → r < 16 → bit_or (h * 16) r ≡ h * 16 + r
flags h r fits = bit_or-shifted 4 h r fits

-- The bytes of an entry without the bit operations.
abbrev plain_bytes : ℕ → ℕ → GdtStructured → List ℕ
plain_bytes limit h source =
    limit % 256
    ∷ limit / 2 ^ 8 % 256
    ∷ source.base % 256
    ∷ source.base / 2 ^ 8 % 256
    ∷ source.base / 2 ^ 16 % 256
    ∷ source.type
    ∷ (h * 16 + limit / 2 ^ 16)
    ∷ source.base / 2 ^ 24 % 256
    ∷ []

entry_bytes-plain :
    (limit h : ℕ) (source : GdtStructured)
    → limit < 2 ^ 20
    → entry_bytes limit (h * 16) source ≡ plain_bytes limit h source
unfolding entry_bytes
entry_bytes-plain limit h source fits =
    let e : limit / 2 ^ 16 % 16 ≡ limit / 2 ^ 16 = omega arith in
    rw
      (
        mask8 limit,
        mask8 (limit / 2 ^ 8),
        mask8 source.base,
        mask8 (source.base / 2 ^ 8),
        mask8 (source.base / 2 ^ 16),
        mask8 (source.base / 2 ^ 24),
        mask4 (limit / 2 ^ 16),
        e,
        flags h (limit / 2 ^ 16) (omega arith),
      )
      refl

source-ext :
    (source : GdtStructured) (base limit : ℕ)
    → base ≡ source.base
    → limit ≡ source.limit
    → record { base = base; limit = limit; type = source.type } ≡ source
source-ext source base limit e e' = rw (e, e') refl

decode_small :
    (source : GdtStructured)
    → source.base < 2 ^ 32
    → source.limit ≤ 65536
    → decode (plain_bytes source.limit 4 source) ≡ source
unfolding decode field
decode_small source hb hl = source-ext source _ _ (omega arith) (ground arith)

decode_large :
    (source : GdtStructured)
    → source.base < 2 ^ 32
    → source.limit < 2 ^ 32
    → source.limit % 4096 ≡ 4095
    → decode (plain_bytes (source.limit / 2 ^ 12) 12 source) ≡ source
unfolding decode field
decode_large source hb hl page = source-ext source _ _ (omega arith) (ground arith)

encode_small :
    (source : GdtStructured)
    → source.limit ≤ 65536
    → encode_gdt_entry source ≡ some (entry_bytes source.limit 0x40 source)
unfolding encode_gdt_entry
encode_small source h = ground arith

encode_large :
    (source : GdtStructured)
    → 65536 < source.limit
    → source.limit % 4096 ≡ 4095
    → encode_gdt_entry source ≡ some (entry_bytes (source.limit / 2 ^ 12) 0xC0 source)
unfolding encode_gdt_entry
encode_large source h page = ground (arith, mask12 source.limit)

encode_panics :
    (source : GdtStructured)
    → 65536 < source.limit
    → source.limit % 4096 ≢ 4095
    → encode_gdt_entry source ≡ none
unfolding encode_gdt_entry
encode_panics source h page = ground (arith, mask12 source.limit)

-- An entry decodes to the segment that was encoded, and the encoder panics on exactly the segments
-- of more than 65536 bytes whose limit does not end a page.
pub decode-encode :
    (source : GdtStructured)
    → source.base < 2 ^ 32
    → source.limit < 2 ^ 32
    → (((bytes : List ℕ) × (encode_gdt_entry source ≡ some bytes)
          × (length bytes ≡ 8)
          × (decode bytes ≡ source))
        ⊎ (encode_gdt_entry source ≡ none) × (65536 < source.limit) × (source.limit % 4096 ≢ 4095))
decode-encode source hb hl = elim (dec_le source.limit 65536) [
  | yes small ↦ inl (
    entry_bytes source.limit 0x40 source,
    encode_small source small,
    ap length (entry_bytes-plain source.limit 4 source (omega arith)),
    ap decode (entry_bytes-plain source.limit 4 source (omega arith))
        ∙ decode_small source hb small,
  )
  | no large ↦ elim (ℕ_discrete (source.limit % 4096) 4095) [
    | yes page ↦ inl (
      entry_bytes (source.limit / 2 ^ 12) 0xC0 source,
      encode_large source (omega arith) page,
      ap length (entry_bytes-plain (source.limit / 2 ^ 12) 12 source (omega arith)),
      ap decode (entry_bytes-plain (source.limit / 2 ^ 12) 12 source (omega arith))
          ∙ decode_large source hb hl page,
    )
    | no other ↦ inr (encode_panics source (omega arith) other, omega arith, other)
  ]
]
