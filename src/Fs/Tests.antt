-- ===== src/Fs/Tests.antt =====
-- The table of files over a filesystem that opens every path.
use alpha_os.Prelude.{
  ℕ, zero, suc, ◌+◌, ◌≤◌, ◌<◌, ◌≡◌, refl, sym, some-injective, get_or-set_ne, ap, ◌∙◌, Option, none,
  some, List, [], ◌∷◌, length, length-replicate, replicate, get_or, arith, ok, ℤ, pos, set,
}
use native.Mathlib.Decide.{dec_le}
use alpha_os.Fs.{Files, Filesystem, FileDescriptor}
use alpha_os.Fs.Calls.{fopen, fclose}
use alpha_os.Fs.Table.{entry, descriptor, IsValid, Changed, Changed-IsValid, Placed, Taken}
use alpha_os.Fs.Open.{Opened, fopen_lem}
use alpha_os.Fs.Close.{fclose_lem, Closed}

-- Its state counts the calls of `read`.
abbrev counting : Filesystem ℕ
counting = record {
  resolve = λ s. (pos 0, s);
  open_file = λ s parts mode. (ok (length parts), s);
  read = λ s p size nmemb. (pos nmemb, replicate (size + nmemb) p, s + 1);
  seek = λ s p offset whence. (pos 0, s);
  stat = λ s p. (pos 0, record { flags = 0; filesize = 5 }, s);
  close = λ s p. (pos 0, s);
}

abbrev fresh : Files ℕ
fresh = record {
  filesystems = some counting ∷ [];
  file_descriptors = replicate 512 none;
  disk_filesystem = some counting;
  state = 0;
}

get_or-none : (n i : ℕ) → get_or (replicate {A = Option (FileDescriptor ℕ)} n none) i none ≡ none
get_or-none zero i = refl
get_or-none (suc n) zero = refl
get_or-none (suc n) (suc i) = get_or-none n i

fresh-IsValid : IsValid fresh
fresh-IsValid = record {
  sized = length-replicate {A = Option (FileDescriptor ℕ)} 512 none;
  numbered = λ i d h. absurd (ground (arith, get_or-none 512 i));
  backed = λ i d h. absurd (ground (arith, get_or-none 512 i));
}

fopen_example :
    (fd : ℕ) × (files' : Files ℕ) × (fopen fresh (48 ∷ 58 ∷ 47 ∷ 97 ∷ []) (114 ∷ [])
      ≡ some (fd, files'))
    × Opened fresh fd files'
fopen_example = fopen_lem fresh (48 ∷ 58 ∷ 47 ∷ 97 ∷ []) (114 ∷ []) fresh-IsValid

fclose_example :
    (res : ℤ) × (files' : Files ℕ) × (fclose fresh (pos 3) ≡ some (res, files'))
    × Closed fresh (pos 3) res files'
fclose_example = fclose_lem fresh (pos 3) fresh-IsValid

abbrev opened_once : Files ℕ
opened_once = record fresh {
  file_descriptors =
      set (replicate {A = Option (FileDescriptor ℕ)} 512 none) 0 (some (descriptor 0 counting 7));
}

opened_once-Changed : Changed fresh opened_once 0 (some (descriptor 0 counting 7))
opened_once-Changed = record {
  there = refl;
  elsewhere = λ j ne.
      get_or-set_ne (replicate {A = Option (FileDescriptor ℕ)} 512 none) 0 j
        (some (descriptor 0 counting 7)) none ne;
}

opened_once-Placed : Placed fresh opened_once 0 counting 7
opened_once-Placed = record {
  inside = omega arith;
  was_free = refl;
  first = λ k lt. absurd (omega arith);
  changed = opened_once-Changed;
  valid = Changed-IsValid fresh-IsValid opened_once-Changed refl (λ d' e.
      let q = some-injective _ _ e in
      (
        sym (ap (λ (d : FileDescriptor ℕ). d.index) q),
        (counting, sym (ap (λ (d : FileDescriptor ℕ). d.filesystem) q)),
      ));
}

-- `n` descriptors from number `i + 1` on, and a free entry.
taken_from : ℕ → ℕ → List (Option (FileDescriptor ℕ))
taken_from zero i = none ∷ []
taken_from (suc n) i = some (descriptor i counting 7) ∷ taken_from n (i + 1)

length-taken_from : (n i : ℕ) → length (taken_from n i) ≡ suc n
unfolding taken_from
length-taken_from zero i = refl
length-taken_from (suc n) i = ap suc (length-taken_from n (i + 1))

taken_from_below :
    (n i k : ℕ) → k < n → get_or (taken_from n i) k none ≡ some (descriptor (i + k) counting 7)
unfolding taken_from
taken_from_below zero i k h = absurd (omega arith)
taken_from_below (suc n) i zero h = ap (λ j. some (descriptor j counting 7)) (omega arith)
taken_from_below (suc n) i (suc k) h =
    taken_from_below n (i + 1) k (omega arith)
    ∙ ap (λ j. some (descriptor j counting 7)) (omega arith)

taken_from_above : (n i k : ℕ) → n ≤ k → get_or (taken_from n i) k none ≡ none
unfolding taken_from
taken_from_above zero i zero h = refl
taken_from_above zero i (suc k) h = refl
taken_from_above (suc n) i zero h = absurd (omega arith)
taken_from_above (suc n) i (suc k) h = taken_from_above n (i + 1) k (omega arith)

almost_full : Files ℕ
almost_full = record fresh { file_descriptors = taken_from 511 0 }

almost_full_entry :
    (i : ℕ) (d : FileDescriptor ℕ)
    → get_or (taken_from 511 0) i none ≡ some d
    → d ≡ descriptor i counting 7
almost_full_entry i d h = elim (dec_le 511 i) [
  | yes out ↦ absurd (ground (arith, taken_from_above 511 0 i out))
  | no inside ↦
      let e = taken_from_below 511 0 i (omega arith) in
      let e' : 0 + i ≡ i = omega arith in
      some-injective _ _ (sym h ∙ e) ∙ ap (λ j. descriptor j counting 7) e'
]

almost_full-IsValid : IsValid almost_full
unfolding almost_full
almost_full-IsValid = record {
  sized = length-taken_from 511 0;
  numbered = λ i d h. ap (λ (d : FileDescriptor ℕ). d.index) (almost_full_entry i d h);
  backed =
      λ i d h. (counting, ap (λ (d : FileDescriptor ℕ). d.filesystem) (almost_full_entry i d h));
}

almost_full-Taken : (k : ℕ) → k < 511 → Taken almost_full k
unfolding almost_full
almost_full-Taken k h = (descriptor (0 + k) counting 7, taken_from_below 511 0 k h)

almost_full_last : entry almost_full 511 ≡ none
unfolding almost_full
almost_full_last = taken_from_above 511 0 511 (omega arith)
