-- ===== src/Fat/Linked.antt =====
-- Reads along the clusters that the words on the medium link, where src/fs/fat/fat16.c looks for them.
use alpha_os.Prelude.{
  ℕ, zero, suc, ◌+◌, ◌*◌, ◌^◌, ◌≤◌, ◌<◌, ◌≡◌, refl, ap, ◌∙◌, ◌⊎◌, inl, inr, true, false, some, List,
  [], ◌∷◌, length, drop, All, ok, err, eio, arith, ◌==◌, Bool-cases,
}
use native.Mathlib.Nat.{mul-div_cancel}
use alpha_os.Disk.{Drive}
use alpha_os.Disk.Ata.{IsAta}
use alpha_os.Fat.{FatPrivate}
use alpha_os.Fat.Run.{◌>>=◌}
use alpha_os.Fat.Cluster.{
  get_fat_entry, ends_chain, cluster_loop, get_cluster_for_offset, cluster_bytes, read_internal,
}
use alpha_os.Fat.Entry.{get_fat_entry_lem}
use alpha_os.Fat.Chain.{Chain, IsCluster, chain_bytes, read_internal-Chain}

-- Where the kernel looks for the entry of a cluster: the product of the table's position and twice the
-- cluster.
abbrev pub word_pos : FatPrivate → ℕ → ℕ
word_pos p c = p.header.reserved_sectors * 512 * (c * 2)

-- The word there.
abbrev pub word_of : (ℕ → ℕ) → FatPrivate → ℕ → ℕ
word_of medium p c = medium (word_pos p c) + medium (word_pos p c + 1) * 2 ^ 8

-- Free, reserved, bad, and the last of a chain, as 12-bit entries.
abbrev pub IsMark : ℕ → Type 0
IsMark e = (e ≡ 0) ⊎ ((e ≡ 0xFF0) ⊎ ((e ≡ 0xFF6) ⊎ ((e ≡ 0xFF7) ⊎ ((e ≡ 0xFF8) ⊎ (e ≡ 0xFFF)))))

-- A cluster whose entry lies below 2 GB.
abbrev pub HasWord : FatPrivate → ℕ → Type 0
HasWord p c = (2 ≤ c) × (word_pos p c + 2 < 2 ^ 31)

-- From cluster `c` on each word names the next cluster, and none is a mark.
abbrev pub Linked : (ℕ → ℕ) → FatPrivate → ℕ → List ℕ → Type 0
Linked medium p c [] = HasWord p c
Linked medium p c (d ∷ ds) =
    HasWord p c × (word_of medium p c ≡ d) × ¬ IsMark d × Linked medium p d ds

abbrev pub last_of : ℕ → List ℕ → ℕ
last_of c [] = c
last_of c (d ∷ ds) = last_of d ds

is_mark : (e : ℕ) → ((ends_chain e ≡ true) × IsMark e) ⊎ ((ends_chain e ≡ false) × ¬ IsMark e)
unfolding ends_chain
is_mark e = elim (Bool-cases (ends_chain e)) [
  | inl t ↦ inl (t, ground arith)
  | inr f ↦ inr (f, λ m. ground arith)
]

module _ (drive : Drive) (medium : ℕ → ℕ) (ata : IsAta drive medium) (p : FatPrivate)
    (reserved : 1 ≤ p.header.reserved_sectors) where
  entry_read : (c : ℕ) → HasWord p c → get_fat_entry drive p c ≡ some (ok (word_of medium p c))
  entry_read c h = (get_fat_entry_lem drive medium ata p c reserved h.0 h.1).0

  Chain-Linked : (c : ℕ) (ds : List ℕ) → Linked medium p c ds → Chain drive p c ds
  Chain-Linked c [] h = tt
  Chain-Linked c (d ∷ ds) (there, e, on, rest) = (
    entry_read c there ∙ ap (λ w. some (ok w)) e,
    elim (is_mark d) [ inl (t, m) ↦ absurd (on m) | inr (f, m) ↦ f ],
    Chain-Linked d ds rest,
  )

  -- One cluster further than the last.
  loop-past :
      (c : ℕ) (ds : List ℕ)
      → Linked medium p c ds
      → cluster_loop drive p (suc (length ds)) c
        ≡ elim (ends_chain (word_of medium p (last_of c ds))) [
          | true ↦ some (err eio)
          | false ↦ some (ok (word_of medium p (last_of c ds)))
        ]
  unfolding cluster_loop
  loop-past c [] h = rw (entry_read c h, ◌>>=◌) refl
  loop-past c (d ∷ ds) (there, e, on, rest) =
      let goes_on : ends_chain d ≡ false = elim (is_mark d) [
        | inl (t, m) ↦ absurd (on m)
        | inr (f, m) ↦ f
      ] in
      let step : get_fat_entry drive p c ≡ some (ok d) =
        entry_read c there ∙ ap (λ w. some (ok w)) e in
      rw (step, ◌>>=◌, goes_on) (loop-past d ds rest)

  module _ (size : 0 < cluster_bytes p) where
    cluster-past :
        (c : ℕ) (ds : List ℕ)
        → Linked medium p c ds
        → get_cluster_for_offset drive p c (suc (length ds) * cluster_bytes p)
          ≡ elim (ends_chain (word_of medium p (last_of c ds))) [
            | true ↦ some (err eio)
            | false ↦ some (ok (word_of medium p (last_of c ds)))
          ]
    unfolding get_cluster_for_offset
    cluster-past c ds h =
        let e : (cluster_bytes p == 0) ≡ false = ground arith in
        rw (e, mul-div_cancel (suc (length ds)) size) (loop-past c ds h)

    -- On a drive that answers as ATA says, with a reserved sector and clusters of at least one sector:
    -- where the words that the kernel takes for the entries, at the product of the table's position and
    -- twice the cluster, link clusters behind the root directory and below 2 GB without a mark, a read
    -- from the start of the k-th cluster gives the bytes of the clusters from there on, cluster by
    -- cluster, as far as these reach; fuel above the number of bytes is enough. A read behind the last
    -- of them fails with -EIO if its word is a mark for free, reserved, bad or last clusters of 12-bit
    -- entries, and goes on at the cluster that the word names if it is not.
    pub read_internal-Linked :
        (fuel c k total : ℕ) (ds : List ℕ)
        → Linked medium p c ds
        → All (IsCluster p) (c ∷ ds)
        → k ≤ length ds
        → k * cluster_bytes p + total ≤ suc (length ds) * cluster_bytes p
        → total < fuel
        → (read_internal fuel drive p c (k * cluster_bytes p) total
            ≡ some (ok (chain_bytes medium p (drop k (c ∷ ds)) total)))
          × ((IsMark (word_of medium p (last_of c ds))
                × (read_internal fuel drive p c (suc (length ds) * cluster_bytes p) total
                    ≡ some (err eio)))
              ⊎ (¬ IsMark (word_of medium p (last_of c ds))
                  × (get_cluster_for_offset drive p c (suc (length ds) * cluster_bytes p)
                      ≡ some (ok (word_of medium p (last_of c ds))))))
    unfolding read_internal
    read_internal-Linked zero c k total ds h inside lt room enough = absurd (omega arith)
    read_internal-Linked (suc fuel) c k total ds h inside lt room enough = (
      read_internal-Chain drive medium ata p size (suc fuel) c k total ds (Chain-Linked c ds h)
          inside lt room enough,
      elim (is_mark (word_of medium p (last_of c ds))) [
        | inl (t, m) ↦ inl (m, rw (cluster-past c ds h, t, ◌>>=◌) refl)
        | inr (f, m) ↦ inr (m, rw (cluster-past c ds h, f) refl)
      ],
    )
