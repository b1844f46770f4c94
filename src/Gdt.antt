-- ===== src/Gdt.antt =====
-- src/gdt/gdt.c: the descriptors of segments in the form that the processor reads.
pub mod Decode
pub mod Table
mod Tests
use alpha_os.Prelude.{
  ℕ, zero, suc, ◌+◌, ◌/◌, ◌%◌, ◌^◌, Option, none, some, List, [], ◌∷◌, ◌==◌, not, ◌&&◌, ltb,
  if◌then◌else◌, set, get_elem?, ◌>>=◌, bit_and, bit_or,
}

-- struct gdt_structured
pub record GdtStructured : Type 0 where
  pub base : ℕ
  pub limit : ℕ
  pub type : ℕ

-- The writes of `encodeGdtEntry`, with the limit and the flags that it has settled on.
unfoldable pub entry_bytes : ℕ → ℕ → GdtStructured → List ℕ
entry_bytes limit flags source =
    bit_and limit 0xFF
    ∷ bit_and (limit / 2 ^ 8) 0xFF
    ∷ bit_and source.base 0xFF
    ∷ bit_and (source.base / 2 ^ 8) 0xFF
    ∷ bit_and (source.base / 2 ^ 16) 0xFF
    ∷ source.type
    ∷ bit_or flags (bit_and (limit / 2 ^ 16) 0x0F)
    ∷ bit_and (source.base / 2 ^ 24) 0xFF
    ∷ []

-- The eight bytes of an entry; `none` is the panic.
unfoldable pub encode_gdt_entry : GdtStructured → Option (List ℕ)
unfolding entry_bytes
encode_gdt_entry source =
    if ltb 65536 source.limit && not (bit_and source.limit 0xFFF == 0xFFF)
    then none
    else if ltb 65536 source.limit
    then some (entry_bytes (source.limit / 2 ^ 12) 0xC0 source)
    else some (entry_bytes source.limit 0x40 source)

unfoldable pub to_gdt_loop : ℕ → ℕ → List (List ℕ) → List GdtStructured → Option (List (List ℕ))
to_gdt_loop zero i gdt structured = some gdt
to_gdt_loop (suc n) i gdt structured = get_elem? structured i >>= λ source.
    encode_gdt_entry source >>= λ bytes. to_gdt_loop n (i + 1) (set gdt i bytes) structured

-- The table as its entries of eight bytes.
unfoldable pub gdt_structured_to_gdt :
    List (List ℕ) → List GdtStructured → ℕ → Option (List (List ℕ))
unfolding to_gdt_loop
gdt_structured_to_gdt gdt structured total_entries = to_gdt_loop total_entries 0 gdt structured
