-- ===== src/Elf/Valid.antt =====
-- What elf_validate_loaded accepts.
use alpha_os.Prelude.{
  ℕ, ◌+◌, ◌^◌, ◌<◌, ◌≡◌, ◌≢◌, refl, ◌↔◌, ◌⊎◌, Bool, true, false, not, ◌&&◌, ◌||◌, ◌==◌,
  if◌then◌else◌, Result, ok, err, einformat, ℤ, pos, negsuc, Ram, arith,
}
use alpha_os.Memory.Raw.{memcmp}
use alpha_os.Memory.Raw.Laws.{memcmp-eq-zero}
use alpha_os.Elf.{header_at}
use alpha_os.Elf.Loader.{
  is_zero, elf_validate_loaded, elf_valid_signature, elf_valid_class, elf_valid_encoding,
  elf_has_program_header,
}

-- An ELF file for 32 bits, of low bytes first, with program headers.
pub record IsElf (ram : Ram) (elf_signature header : ℕ) : Type 0 where
  pub signature : (i : ℕ) → i < 4 → ram (header + i) ≡ ram (elf_signature + i)
  pub class_of : ((header_at ram header).e_ident 4 ≡ 0) ⊎ ((header_at ram header).e_ident 4 ≡ 1)
  pub encoding : ((header_at ram header).e_ident 5 ≡ 0) ⊎ ((header_at ram header).e_ident 5 ≡ 1)
  pub program_header : (header_at ram header).e_phoff ≢ 0

is_zero_iff : (z : ℤ) → (is_zero z ≡ true) ↔ (z ≡ pos 0)
unfolding is_zero
is_zero_iff (pos n) = ground arith
is_zero_iff (negsuc n) = ground arith

if_iff : (b : Bool) → (◌≡◌ {A = Result ℕ} (if b then ok 0 else err einformat) (ok 0)) ↔ (b ≡ true)
if_iff true = (λ e. refl, λ e. refl)
if_iff false = ground arith

and_iff : (a b : Bool) → ((a && b) ≡ true) ↔ ((a ≡ true) × (b ≡ true))
and_iff true b = (λ e. (refl, e), λ e. e.1)
and_iff false b = (λ e. (e, ground arith), λ e. e.0)

one_iff : (n : ℕ) → ((n == 0 || n == 1) ≡ true) ↔ ((n ≡ 0) ⊎ (n ≡ 1))
one_iff n = ground arith

nonzero_iff : (n : ℕ) → (not (n == 0) ≡ true) ↔ (n ≢ 0)
nonzero_iff n = ground arith

module _ (ram : Ram) (elf_signature header : ℕ) (low : header + 4 < 2 ^ 32)
    (low' : elf_signature + 4 < 2 ^ 32) where
  signature_iff :
      (elf_valid_signature ram elf_signature header ≡ true)
      ↔ ((i : ℕ) → i < 4 → ram (header + i) ≡ ram (elf_signature + i))
  unfolding elf_valid_signature
  signature_iff =
      let z = is_zero_iff (memcmp ram header elf_signature 4) in
      let same = memcmp-eq-zero 4 ram header elf_signature low low' in
      (λ e. same.0 (z.0 e), λ all. z.1 (same.1 all))

  -- elf_validate_loaded accepts exactly the files that begin with the signature, are of no or of
  -- the 32-bit class, of no or of the low-byte-first encoding, and have program headers, when
  -- neither they nor the constant lie at the end of the address space.
  pub elf_validate_loaded_iff :
      (elf_validate_loaded ram elf_signature header ≡ ok 0) ↔ IsElf ram elf_signature header
  unfolding elf_validate_loaded elf_valid_class elf_valid_encoding elf_has_program_header
  elf_validate_loaded_iff =
      let h = header_at ram header in
      let a = elf_valid_signature ram elf_signature header in
      let b = elf_valid_class h in
      let c = elf_valid_encoding h in
      let d = elf_has_program_header h in
      (
        λ e.
            let (abc, hd) = (and_iff (a && b && c) d).0 ((if_iff (a && b && c && d)).0 e) in
            let (ab, hc) = (and_iff (a && b) c).0 abc in
            let (ha, hb) = (and_iff a b).0 ab in
            record {
              signature = signature_iff.0 ha;
              class_of = (one_iff (h.e_ident 4)).0 hb;
              encoding = (one_iff (h.e_ident 5)).0 hc;
              program_header = (nonzero_iff h.e_phoff).0 hd;
            },
        λ v. (if_iff (a && b && c && d)).1 (
            (and_iff (a && b && c) d).1 (
              (and_iff (a && b) c).1 (
                (and_iff a b).1 (signature_iff.1 v.signature, (one_iff (h.e_ident 4)).1 v.class_of),
                (one_iff (h.e_ident 5)).1 v.encoding,
              ),
              (nonzero_iff h.e_phoff).1 v.program_header,
            )),
      )
