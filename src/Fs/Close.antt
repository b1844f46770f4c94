-- ===== src/Fs/Close.antt =====
-- Reading through an open descriptor of src/fs/file.c, and closing it.
use alpha_os.Prelude.{
  ℕ, zero, suc, ◌+◌, ◌-◌, ◌≤◌, ◌<◌, ◌≡◌, ◌≢◌, inl, inr, refl, subst, ap, ◌∙◌, none, some,
  length-set, get_or, set, get_or-set_self, get_or-set_ne, Option-cases, arith, eio, status, ℤ, pos,
  negsuc, false, ◌==◌, if◌then◌else◌,
}
use native.Mathlib.Decide.{ℕ_discrete, dec_le}
use alpha_os.Fs.{Files, Filesystem, FileDescriptor, file_get_descriptor, file_free_descriptor}
use alpha_os.Fs.Calls.{fopen_descriptor, fread, fclose, below_1}
use alpha_os.Fs.Open.{with_state}
use alpha_os.Fs.Table.{
  entry, IsValid, Changed, Changed-IsValid, Placed, Taken, fopen_descriptor_lem,
}

module _ {ℓ} {S : Type ℓ} where
  get_descriptor-entry :
      (files : Files S) (i : ℕ) → i < 511 → file_get_descriptor files (pos (i + 1)) ≡ entry files i
  unfolding file_get_descriptor
  get_descriptor-entry files i h = let e : i + 1 - 1 ≡ i = omega arith in ground (arith, e)

  -- A read through a descriptor that was just opened, of number 511 at most, asks the filesystem of
  -- the disk for the file that it opened.
  pub fread-Placed :
      (files files' : Files S) (i : ℕ) (fs : Filesystem S) (private_data size nmemb : ℕ)
      → Placed files files' i fs private_data
      → i < 511
      → 1 ≤ size
      → 1 ≤ nmemb
      → fread files' size nmemb (pos (i + 1)) ≡ (
          let (res, out, s) = fs.read files'.state private_data size nmemb in
          some (res, out, record files' { state = s }))
  unfolding fread below_1
  fread-Placed files files' i fs private_data size nmemb p h hs hn =
      ground (arith, get_descriptor-entry files' i h, p.changed.there)

  -- The descriptor in the last of the 512 entries gets the number 512, which no call accepts: closing
  -- it is an error and leaves it open.
  pub fopen_descriptor_last :
      (files : Files S) (fs : Filesystem S) (private_data : ℕ)
      → IsValid files
      → ((k : ℕ) → k < 511 → Taken files k)
      → entry files 511 ≡ none
      → ((fopen_descriptor files fs private_data).0 ≡ 512)
        × (fclose (fopen_descriptor files fs private_data).1 (pos 512)
            ≡ some (status eio, (fopen_descriptor files fs private_data).1))
  unfolding fclose file_get_descriptor
  fopen_descriptor_last files fs private_data v taken free =
      elim (fopen_descriptor_lem files fs private_data v) [
        | inl (i, e, p) ↦
            let i_last : i ≡ 511 = elim (ℕ_discrete i 511) [
              | yes eq ↦ eq
              | no ne ↦
                  let (d, h) = taken i (omega (arith, p.inside)) in
                  absurd (ground (arith, p.was_free))
            ] in
            (omega arith, refl)
        | inr (e, full) ↦ let (d, h) = full 511 (omega arith) in absurd (ground arith)
      ]

  -- The outcome of a close on the table: the entry is freed if the filesystem closed the file, and
  -- else nothing changes.
  pub record Closed (files : Files S) (fd res : ℤ) (files' : Files S) : Type ℓ where
    pub valid : IsValid files'
    pub freed : (i : ℕ) → res ≡ pos 0 → fd ≡ pos (i + 1) → entry files' i ≡ none
    pub others : (j : ℕ) → fd ≢ pos (j + 1) → entry files' j ≡ entry files j
    pub kept : res ≢ pos 0 → files'.file_descriptors ≡ files.file_descriptors

  free_entry :
      (files : Files S) (s : S) (i : ℕ) (d : FileDescriptor S)
      → IsValid files
      → entry files i ≡ some d
      → i < 511
      → Changed files (file_free_descriptor (record files { state = s }) d) i none
  unfolding file_free_descriptor
  free_entry files s i d v h lt =
      let e : d.index - 1 ≡ i = omega (arith, v.numbered i d h) in
      record {
        there =
            ap (λ k. get_or (set files.file_descriptors k none) i none) e
            ∙ get_or-set_self files.file_descriptors i none none (omega (arith, v.sized));
        elsewhere = λ j ne.
            ap (λ k. get_or (set files.file_descriptors k none) j none) e
            ∙ get_or-set_ne files.file_descriptors i j none none ne;
      }

  get_descriptor-inv :
      (files : Files S) (fd : ℤ) (d : FileDescriptor S)
      → file_get_descriptor files fd ≡ some d
      → (i : ℕ) × (fd ≡ pos (i + 1)) × (i < 511) × (entry files i ≡ some d)
  unfolding file_get_descriptor
  get_descriptor-inv files (negsuc n) d h = absurd (ground arith)
  get_descriptor-inv files (pos zero) d h = absurd (ground arith)
  get_descriptor-inv files (pos (suc i)) d h = elim (dec_le 512 (suc i)) [
    | yes large ↦ absurd (ground arith)
    | no small ↦
        let e : suc i - 1 ≡ i = omega arith in
        (i, ap pos (omega arith), omega arith, ground (arith, e))
  ]

  unchanged :
      (files : Files S) (fd res : ℤ) (s : S)
      → IsValid files
      → res ≢ pos 0
      → Closed files fd res (record files { state = s })
  unchanged files fd res s v n = record {
    valid = with_state s v;
    freed = λ i e h. absurd (n e);
    others = λ j h. refl;
    kept = λ h. refl;
  }

  -- What fclose leaves behind when the filesystem's `close` has returned.
  closed_files : Files S → FileDescriptor S → ℤ → S → Files S
  closed_files files d res s =
      let files' : Files S = record files { state = s } in
      elim res [
        | pos n ↦ if n == 0 then file_free_descriptor files' d else files'
        | negsuc n ↦ files'
      ]

  closed_lem :
      (files : Files S) (i : ℕ) (d : FileDescriptor S) (res : ℤ) (s : S)
      → IsValid files
      → i < 511
      → entry files i ≡ some d
      → Closed files (pos (i + 1)) res (closed_files files d res s)
  unfolding closed_files file_free_descriptor
  closed_lem files i d (negsuc n) s v lt h =
      unchanged files (pos (i + 1)) (negsuc n) s v (λ e. ground arith)
  closed_lem files i d (pos (suc n)) s v lt h =
      let e : (suc n == 0) ≡ false = ground arith in
      rw e (unchanged files (pos (i + 1)) (pos (suc n)) s v (λ e. ground arith))
  closed_lem files i d (pos zero) s v lt h =
      let c = free_entry files s i d v h lt in
      record {
        valid =
            Changed-IsValid v c (length-set files.file_descriptors (d.index - 1) none ∙ v.sized)
              (λ d' e. absurd (ground arith));
        freed = λ j e eq.
            let ij : i ≡ j = ground arith in
            subst (λ k. entry (closed_files files d (pos 0) s) k ≡ none) ij c.there;
        others = λ j ne. c.elsewhere j (λ e. ne (ap (λ k. pos (k + 1)) e));
        kept = λ n. absurd (n refl);
      }

  -- A close always returns. A close that the filesystem reports as done frees the entry of its
  -- number, any other leaves the table as it was, and no other entry changes.
  pub fclose_lem :
      (files : Files S) (fd : ℤ)
      → IsValid files
      → (res : ℤ) × (files' : Files S) × (fclose files fd ≡ some (res, files'))
        × Closed files fd res files'
  unfolding fclose closed_files
  fclose_lem files fd v = elim (Option-cases (file_get_descriptor files fd)) [
    | inl h ↦ (
      status eio,
      files,
      rw (h, fclose) refl,
      unchanged files fd (status eio) files.state v (λ e. ground arith),
    )
    | inr (d, h) ↦
        let (i, e, lt, h') = get_descriptor-inv files fd d h in
        let (fs, backed) = v.backed i d h' in
        let (res, s) = fs.close files.state d.private_data in
        (
          res,
          closed_files files d res s,
          rw (h, fclose, backed) refl,
          rw e (closed_lem files i d res s v lt h'),
        )
  ]
