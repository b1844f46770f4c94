-- ===== src/Fat/Chain.antt =====
-- Reads along a chain of clusters, on a drive that answers as ATA says.
use alpha_os.Prelude.{
  ℕ, zero, suc, ◌+◌, ◌*◌, ◌-◌, ◌^◌, ◌≤◌, ◌<◌, ◌≡◌, refl, sym, ap, ◌∙◌, false, some, List, [], ◌∷◌,
  ◌++◌, ◌==◌, get_or, drop, length, ok, arith, min, All, append-nil,
}
use native.Mathlib.Nat.{mul-div_cancel, mul-mod_left, suc-mul}
use native.Mathlib.Decide.{dec_le}
use alpha_os.Disk.{Drive}
use alpha_os.Disk.Ata.{IsAta, bytes}
use alpha_os.Fat.{FatPrivate}
use alpha_os.Fat.Run.{Run, ◌>>=◌, read_at}
use alpha_os.Fat.Cluster.{
  get_fat_entry, ends_chain, cluster_loop, get_cluster_for_offset, cluster_bytes, cluster_to_sector,
  sector_to_absolute, read_internal,
}
use alpha_os.Fat.Count.{read_at_lem}

-- The clusters behind a cluster, as get_fat_entry gives them and ends_chain lets them pass.
abbrev pub Chain : Drive → FatPrivate → ℕ → List ℕ → Type 0
Chain drive p c [] = Unit
Chain drive p c (d ∷ ds) =
    (get_fat_entry drive p c ≡ some (ok d)) × (ends_chain d ≡ false) × Chain drive p d ds

-- Where the bytes of a cluster begin.
abbrev pub cluster_pos : FatPrivate → ℕ → ℕ
cluster_pos p c =
    (p.root_directory.ending_sector_pos
      + c * p.header.sectors_per_cluster
      - 2 * p.header.sectors_per_cluster)
    * 512

-- The first `total` bytes of clusters.
unfoldable pub chain_bytes : (ℕ → ℕ) → FatPrivate → List ℕ → ℕ → List ℕ
chain_bytes medium p [] total = []
chain_bytes medium p (d ∷ ds) total =
    bytes medium (cluster_pos p d) (min total (cluster_bytes p))
    ++ chain_bytes medium p ds (total - min total (cluster_bytes p))

-- A cluster behind the root directory and below 2 GB.
pub record IsCluster (p : FatPrivate) (c : ℕ) : Type 0 where
  pub above :
      2 * p.header.sectors_per_cluster
      ≤ p.root_directory.ending_sector_pos + c * p.header.sectors_per_cluster
  pub below : cluster_pos p c + cluster_bytes p < 2 ^ 31

cluster_loop-Chain :
    (drive : Drive) (p : FatPrivate) (c k : ℕ) (ds : List ℕ)
    → Chain drive p c ds
    → k ≤ length ds
    → cluster_loop drive p k c ≡ some (ok (get_or (c ∷ ds) k 0))
unfolding cluster_loop
cluster_loop-Chain drive p c zero ds h lt = refl
cluster_loop-Chain drive p c (suc k) [] h lt = absurd (omega arith)
cluster_loop-Chain drive p c (suc k) (d ∷ ds) h lt =
    rw (h.0, cluster_loop, ◌>>=◌, h.1) (cluster_loop-Chain drive p d k ds h.2 (omega arith))

get_cluster-Chain :
    (drive : Drive) (p : FatPrivate) (c k : ℕ) (ds : List ℕ)
    → 0 < cluster_bytes p
    → Chain drive p c ds
    → k ≤ length ds
    → get_cluster_for_offset drive p c (k * cluster_bytes p) ≡ some (ok (get_or (c ∷ ds) k 0))
unfolding get_cluster_for_offset
get_cluster-Chain drive p c k ds size h lt =
    let e : (cluster_bytes p == 0) ≡ false = ground arith in
    rw (e, mul-div_cancel k size) (cluster_loop-Chain drive p c k ds h lt)

module _ (drive : Drive) (medium : ℕ → ℕ) (ata : IsAta drive medium) (p : FatPrivate)
    (size : 0 < cluster_bytes p) where
  read_cluster :
      (d n : ℕ)
      → IsCluster p d
      → n ≤ cluster_bytes p
      → (cluster_to_sector p d
          ≡ some (
              p.root_directory.ending_sector_pos
              + d * p.header.sectors_per_cluster
              - 2 * p.header.sectors_per_cluster))
        × (read_at drive (cluster_pos p d + 0) n ≡ some (ok (bytes medium (cluster_pos p d) n)))
  unfolding cluster_to_sector
  read_cluster d n v h =
      let e : cluster_pos p d + 0 ≡ cluster_pos p d = omega arith in
      (
        ground (arith, v.above),
        rw e (read_at_lem drive medium ata (cluster_pos p d) n (omega (arith, v.below))),
      )

  -- One round.
  read_step :
      (fuel c k total d : ℕ) (ds : List ℕ)
      → Chain drive p c ds
      → k ≤ length ds
      → get_or (c ∷ ds) k 0 ≡ d
      → IsCluster p d
      → read_internal (suc fuel) drive p c (k * cluster_bytes p) total
        ≡ (elim (total - min total (cluster_bytes p)) as (λ n. Run (List ℕ)) [
          | zero ↦ some (ok (bytes medium (cluster_pos p d) (min total (cluster_bytes p))))
          | suc left ↦
              read_internal fuel drive p c
                (k * cluster_bytes p + min total (cluster_bytes p))
                (suc left)
              >>= λ more.
                  some (ok (bytes medium (cluster_pos p d) (min total (cluster_bytes p)) ++ more))
        ])
  unfolding read_internal sector_to_absolute
  read_step fuel c k total d ds h lt e v =
      let r = read_cluster d (min total (cluster_bytes p)) v (omega arith) in
      rw
        (
          get_cluster-Chain drive p c k ds size h lt,
          read_internal,
          e,
          r.0,
          mul-mod_left k (cluster_bytes p),
          r.1,
        )
        refl

  Good : List ℕ → Type 0
  Good ds = All (IsCluster p) ds

  drop-get_or : (ds : List ℕ) (k : ℕ) → k < length ds → drop k ds ≡ get_or ds k 0 ∷ drop (suc k) ds
  drop-get_or [] k h = absurd (omega arith)
  drop-get_or (d ∷ ds) zero h = refl
  drop-get_or (d ∷ ds) (suc k) h = drop-get_or ds k (omega arith)

  All-get_or :
      (ds : List ℕ) (k : ℕ) → All (IsCluster p) ds → k < length ds → IsCluster p (get_or ds k 0)
  All-get_or [] k v h = absurd (omega arith)
  All-get_or (d ∷ ds) zero v h = v.0
  All-get_or (d ∷ ds) (suc k) v h = All-get_or ds k v.1 (omega arith)

  chain_bytes-zero : (ds : List ℕ) → chain_bytes medium p ds 0 ≡ []
  unfolding chain_bytes bytes
  chain_bytes-zero [] = refl
  chain_bytes-zero (d ∷ ds) =
      let e : min 0 (cluster_bytes p) ≡ 0 = omega arith in rw e (chain_bytes-zero ds)

  -- The last round, and a round with more to read.
  last_round :
      (k total : ℕ) (ds : List ℕ)
      → k < length ds
      → total ≤ cluster_bytes p
      → chain_bytes medium p (drop k ds) total ≡ bytes medium (cluster_pos p (get_or ds k 0)) total
  unfolding chain_bytes
  last_round k total ds h small =
      let e : min total (cluster_bytes p) ≡ total = omega arith in
      let e' : total - total ≡ 0 = omega arith in
      rw (drop-get_or ds k h, chain_bytes, e, e', chain_bytes-zero (drop (suc k) ds))
        (append-nil (bytes medium (cluster_pos p (get_or ds k 0)) total))

  full_round :
      (k total : ℕ) (ds : List ℕ)
      → k < length ds
      → cluster_bytes p ≤ total
      → chain_bytes medium p (drop k ds) total
        ≡ bytes medium (cluster_pos p (get_or ds k 0)) (cluster_bytes p)
          ++ chain_bytes medium p (drop (suc k) ds) (total - cluster_bytes p)
  unfolding chain_bytes
  full_round k total ds h large =
      let e : min total (cluster_bytes p) ≡ cluster_bytes p = omega arith in
      rw (drop-get_or ds k h, chain_bytes, e) refl

  next_in :
      (k n total : ℕ)
      → k ≤ n
      → k * cluster_bytes p + total ≤ suc n * cluster_bytes p
      → cluster_bytes p < total
      → suc k ≤ n
  next_in k n total h room more = elim (dec_le (suc k) n) [
    | yes lt ↦ lt
    | no ge ↦
        let e : k ≡ n = omega arith in
        absurd (omega (arith, suc-mul n (cluster_bytes p), ap (λ (j : ℕ). j * cluster_bytes p) e))
  ]

  -- On a drive that answers as ATA says, with clusters of at least one sector, behind the root
  -- directory and below 2 GB, a read from the start of the k-th cluster of a chain gives the bytes
  -- of the clusters from there on, cluster by cluster, where the chain has so many bytes; fuel
  -- above the number of bytes is enough.
  pub read_internal-Chain :
      (fuel c k total : ℕ) (ds : List ℕ)
      → Chain drive p c ds
      → All (IsCluster p) (c ∷ ds)
      → k ≤ length ds
      → k * cluster_bytes p + total ≤ suc (length ds) * cluster_bytes p
      → total < fuel
      → read_internal fuel drive p c (k * cluster_bytes p) total
        ≡ some (ok (chain_bytes medium p (drop k (c ∷ ds)) total))
  read_internal-Chain zero c k total ds h v lt room enough = absurd (omega arith)
  read_internal-Chain (suc fuel) c k total ds h v lt room enough =
      read_step fuel c k total (get_or (c ∷ ds) k 0) ds h lt refl
        (All-get_or (c ∷ ds) k v (omega arith))
      ∙ elim (dec_le total (cluster_bytes p)) [
        | yes small ↦
            let e : min total (cluster_bytes p) ≡ total = omega arith in
            let e' : total - min total (cluster_bytes p) ≡ 0 = omega arith in
            rw (e', e)
              (ap (λ out. some (ok out)) (sym (last_round k total (c ∷ ds) (omega arith) small)))
        | no more ↦
            let e : min total (cluster_bytes p) ≡ cluster_bytes p = omega arith in
            let left = total - cluster_bytes p - 1 in
            let e' : total - min total (cluster_bytes p) ≡ suc left = omega arith in
            let e3 : total - cluster_bytes p ≡ suc left = omega arith in
            let e'' : k * cluster_bytes p + cluster_bytes p ≡ suc k * cluster_bytes p =
              omega (arith, suc-mul k (cluster_bytes p)) in
            let in_chain = next_in k (length ds) total lt room (omega arith) in
            let ih =
              read_internal-Chain fuel c (suc k) (suc left) ds h v in_chain
                (omega (arith, suc-mul k (cluster_bytes p))) (omega arith) in
            let whole = full_round k total (c ∷ ds) (omega arith) (omega arith) in
            rw (e', e, e'', ih) (ap (λ out. some (ok out)) (sym (rw e3 at whole)))
      ]
