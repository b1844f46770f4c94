-- ===== src/Fs/Table.antt =====
-- The table of file descriptors: descriptor n stands in entry n - 1.
use alpha_os.Prelude.{
  ℕ, zero, suc, ◌+◌, ◌-◌, ◌≤◌, ◌<◌, ◌≡◌, ◌≢◌, ◌⊎◌, inl, inr, refl, sym, ap, ◌∙◌, Option, none, some,
  List, [], ◌∷◌, get_or, set, length, length-set, get_or-set_self, get_or-set_ne, Option-cases,
  some-injective, arith,
}
use native.Mathlib.Decide.{ℕ_discrete}
use alpha_os.Fs.{Files, Filesystem, FileDescriptor, free_loop, file_new_descriptor}
use alpha_os.Fs.Calls.{fopen_descriptor}

-- What the loop for a free entry finds, counting from `i`.
free_loop_lem {ℓ} :
    {A : Type ℓ} (entries : List (Option A)) (i j : ℕ)
    → free_loop entries i ≡ some j
    → (i ≤ j) × (j < i + length entries) × (get_or entries (j - i) none ≡ none)
unfolding free_loop
free_loop_lem [] i j h = absurd (ground arith)
free_loop_lem (none ∷ entries) i j h =
    let e : i ≡ j = ground arith in
    let e' : j - i ≡ 0 = omega arith in (omega arith, omega arith, rw e' refl)
free_loop_lem (some a ∷ entries) i j h =
    let (lo, hi, free) = free_loop_lem entries (i + 1) j h in
    let e : j - i ≡ suc (j - (i + 1)) = omega arith in (omega arith, omega arith, rw e free)

free_loop_first {ℓ} :
    {A : Type ℓ} (entries : List (Option A)) (i j k : ℕ)
    → free_loop entries i ≡ some j
    → i + k < j
    → (a : A) × (get_or entries k none ≡ some a)
unfolding free_loop
free_loop_first [] i j k h lt = absurd (ground arith)
free_loop_first (none ∷ entries) i j k h lt = absurd (ground arith)
free_loop_first (some a ∷ entries) i j zero h lt = (a, refl)
free_loop_first (some a ∷ entries) i j (suc k) h lt =
    free_loop_first entries (i + 1) j k h (omega arith)

free_loop_full {ℓ} :
    {A : Type ℓ} (entries : List (Option A)) (i k : ℕ)
    → free_loop entries i ≡ none
    → k < length entries
    → (a : A) × (get_or entries k none ≡ some a)
unfolding free_loop
free_loop_full [] i k h lt = absurd (omega arith)
free_loop_full (none ∷ entries) i k h lt = absurd (ground arith)
free_loop_full (some a ∷ entries) i zero h lt = (a, refl)
free_loop_full (some a ∷ entries) i (suc k) h lt = free_loop_full entries (i + 1) k h (omega arith)

module _ {ℓ} {S : Type ℓ} where
  -- The descriptor of an entry.
  abbrev pub entry : Files S → ℕ → Option (FileDescriptor S)
  entry files i = get_or files.file_descriptors i none

  -- 512 entries, and each descriptor knows its number and has a filesystem.
  pub record IsValid (files : Files S) : Type ℓ where
    pub sized : length files.file_descriptors ≡ 512
    pub numbered : (i : ℕ) (d : FileDescriptor S) → entry files i ≡ some d → d.index ≡ i + 1
    pub backed :
        (i : ℕ) (d : FileDescriptor S)
        → entry files i ≡ some d
        → (fs : Filesystem S) × (d.filesystem ≡ some fs)

  -- `files'` is `files` but for entry `i`, which is `d`.
  pub record Changed (files files' : Files S) (i : ℕ) (d : Option (FileDescriptor S)) : Type ℓ where
    pub there : entry files' i ≡ d
    pub elsewhere : (j : ℕ) → i ≢ j → entry files' j ≡ entry files j

  abbrev pub descriptor : ℕ → Filesystem S → ℕ → FileDescriptor S
  descriptor i fs private_data = record {
    index = i + 1;
    filesystem = some fs;
    private_data = private_data;
  }

  new_descriptor : ℕ → FileDescriptor S
  new_descriptor i = record { index = i + 1; filesystem = none; private_data = 0 }

  fopen_descriptor-eq :
      (files : Files S) (fs : Filesystem S) (private_data j : ℕ)
      → free_loop files.file_descriptors 0 ≡ some j
      → fopen_descriptor files fs private_data ≡ (
        j + 1,
        record files {
          file_descriptors =
              set
                (set files.file_descriptors j (some (new_descriptor j)))
                j
                (some (descriptor j fs private_data));
        },
      )
  unfolding fopen_descriptor file_new_descriptor new_descriptor
  fopen_descriptor-eq files fs private_data j h =
      let e : j + 1 - 1 ≡ j = omega arith in ground (arith, h, e)

  -- A change of one entry keeps the table valid if the entry fits.
  pub Changed-IsValid :
      {files files' : Files S} {i : ℕ} {d : Option (FileDescriptor S)}
      → IsValid files
      → Changed files files' i d
      → length files'.file_descriptors ≡ 512
      → ((d' : FileDescriptor S)
          → d ≡ some d'
          → (d'.index ≡ i + 1) × ((fs : Filesystem S) × (d'.filesystem ≡ some fs)))
      → IsValid files'
  Changed-IsValid {files = files} {files' = files'} {i = i} {d = d} v c size fits = record {
    sized = size;
    numbered = λ j d' h. (both j d' h).0;
    backed = λ j d' h. (both j d' h).1;
  }
    where
      both :
          (j : ℕ) (d' : FileDescriptor S)
          → entry files' j ≡ some d'
          → (d'.index ≡ j + 1) × ((fs : Filesystem S) × (d'.filesystem ≡ some fs))
      both j d' h = elim (ℕ_discrete i j) [
        | yes e ↦ let (n, b) = fits d' (sym c.there ∙ ap (entry files') e ∙ h) in (omega arith, b)
        | no ne ↦ let h' = sym (c.elsewhere j ne) ∙ h in (v.numbered j d' h', v.backed j d' h')
      ]

  abbrev pub Taken : Files S → ℕ → Type ℓ
  Taken files k = (d : FileDescriptor S) × (entry files k ≡ some d)

  -- Entry `i` is the first free one, and takes a descriptor of the filesystem with its data.
  pub record Placed (files files' : Files S) (i : ℕ) (fs : Filesystem S) (private_data : ℕ)
      : Type ℓ where
    pub inside : i < 512
    pub was_free : entry files i ≡ none
    pub first : (k : ℕ) → k < i → Taken files k
    pub changed : Changed files files' i (some (descriptor i fs private_data))
    pub valid : IsValid files'

  set_twice :
      (files files' : Files S) (i : ℕ) (a b : Option (FileDescriptor S))
      → i < length files.file_descriptors
      → files'.file_descriptors ≡ set (set files.file_descriptors i a) i b
      → Changed files files' i b
  set_twice files files' i a b h e = record {
    there =
        ap (λ l. get_or l i none) e
        ∙ get_or-set_self (set files.file_descriptors i a) i b none
            (omega (arith, length-set files.file_descriptors i a));
    elsewhere = λ j ne.
        ap (λ l. get_or l j none) e
        ∙ get_or-set_ne (set files.file_descriptors i a) i j b none ne
        ∙ get_or-set_ne files.file_descriptors i j a none ne;
  }

  fopen_descriptor-found :
      (files : Files S) (fs : Filesystem S) (private_data j : ℕ)
      → IsValid files
      → free_loop files.file_descriptors 0 ≡ some j
      → ((fopen_descriptor files fs private_data).0 ≡ j + 1)
        × Placed files (fopen_descriptor files fs private_data).1 j fs private_data
  fopen_descriptor-found files fs private_data j v h =
      let e = fopen_descriptor-eq files fs private_data j h in
      let (lo, hi, free) = free_loop_lem files.file_descriptors 0 j h in
      let back : j ≡ j - 0 = omega arith in
      let table = files.file_descriptors in
      let a : Option (FileDescriptor S) = some (new_descriptor j) in
      let b : Option (FileDescriptor S) = some (descriptor j fs private_data) in
      let files' = (fopen_descriptor files fs private_data).1 in
      let e' : files'.file_descriptors ≡ set (set table j a) j b =
        ap (λ (r : ℕ × Files S). r.1.file_descriptors) e in
      let c = set_twice files files' j a b (omega arith) e' in
      (
        ap (λ (r : ℕ × Files S). r.0) e,
        record {
          inside = omega (arith, v.sized);
          was_free = ap (λ i. entry files i) back ∙ free;
          first = λ k lt. free_loop_first table 0 j k h (omega arith);
          changed = c;
          valid =
              Changed-IsValid v c
                (ap length e' ∙ length-set (set table j a) j b ∙ length-set table j a ∙ v.sized)
                (λ d' eq.
                  let q = some-injective _ _ eq in
                  (
                    sym (ap (λ (d : FileDescriptor S). d.index) q),
                    (fs, sym (ap (λ (d : FileDescriptor S). d.filesystem) q)),
                  ));
        },
      )

  fopen_descriptor-full :
      (files : Files S) (fs : Filesystem S) (private_data : ℕ)
      → free_loop files.file_descriptors 0 ≡ none
      → fopen_descriptor files fs private_data ≡ (0, files)
  unfolding fopen_descriptor file_new_descriptor
  fopen_descriptor-full files fs private_data h = ground (arith, h)

  -- What a successful open does to the table: it takes the first free entry `i` and gives `i + 1`; or
  -- it gives 0 and changes nothing, and then every entry is taken.
  pub fopen_descriptor_lem :
      (files : Files S) (fs : Filesystem S) (private_data : ℕ)
      → IsValid files
      → ((i : ℕ) × ((fopen_descriptor files fs private_data).0 ≡ i + 1)
          × Placed files (fopen_descriptor files fs private_data).1 i fs private_data)
        ⊎ (fopen_descriptor files fs private_data ≡ (0, files))
          × ((k : ℕ) → k < 512 → Taken files k)
  fopen_descriptor_lem files fs private_data v =
      elim (Option-cases (free_loop files.file_descriptors 0)) [
        | inl full ↦ inr (
          fopen_descriptor-full files fs private_data full,
          λ k lt. free_loop_full files.file_descriptors 0 k full (omega (arith, v.sized)),
        )
        | inr (i, h) ↦
            let (e, placed) = fopen_descriptor-found files fs private_data i v h in
            inl (i, e, placed)
      ]
