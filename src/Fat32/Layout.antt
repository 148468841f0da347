-- ===== src/Fat32/Layout.antt =====
-- Where kernel/fs/fat32.c finds the clusters and their entries on a disk whose parts fit.
use ronin_os.Base.{
  ℕ, ◌+◌, ◌-◌, ◌*◌, ◌/◌, ◌%◌, ◌^◌, ◌≤◌, ◌<◌, ◌≡◌, ◌≢◌, ◌∙◌, ap, ◌⊎◌, inl, inr, arith, add32, sub32,
  mul32,
}
use native.Mathlib.Decide.{dec_lt}
use ronin_os.Fat32.{Fs, cluster_to_lba}
use ronin_os.Fat32.Table.{fat_lba, fat_offset}

-- The tables lie before the data area, an entry for each cluster, and the disk holds all clusters.
pub record Layout {D : Type 0} (fs : Fs D) : Type 0 where
  pub full : 0 < fs.sectors_per_cluster
  pub narrow : fs.sectors_per_cluster < 256
  pub tables : 0 < fs.fat_count
  pub starts : fs.data_start_lba ≡ fs.fat_start_lba + fs.fat_count * fs.sectors_per_fat
  pub covers : fs.total_clusters + 2 ≤ fs.sectors_per_fat * 128
  pub fits : fs.data_start_lba + fs.total_clusters * fs.sectors_per_cluster ≤ fs.dev.total_sectors
  pub words : fs.dev.total_sectors < 2 ^ 32
  pub few : fs.total_clusters + 2 ≤ 2 ^ 28
  pub root_low : 2 ≤ fs.root_cluster
  pub root_high : fs.root_cluster < fs.total_clusters + 2

-- The numbers of the clusters.
abbrev pub IsCluster : {D : Type 0} → Fs D → ℕ → Type 0
IsCluster fs c = (2 ≤ c) × (c < fs.total_clusters + 2)

pub times_lt : (f n k m : ℕ) → f < n → k < m → f * m + k < n * m
times_lt f n k m p q = grind arith

pub times_le : (f n m : ℕ) → f ≤ n → f * m ≤ n * m
times_le f n m p = grind arith

module _ {D : Type 0} (fs : Fs D) (lay : Layout fs) where
  pub cluster_to_lba_lem :
      (c : ℕ)
      → IsCluster fs c
      → cluster_to_lba fs c ≡ fs.data_start_lba + (c - 2) * fs.sectors_per_cluster
  cluster_to_lba_lem c i =
      let e : sub32 c 2 ≡ c - 2 = omega (arith, lay.few) in
      let b = times_lt (c - 2) fs.total_clusters 0 fs.sectors_per_cluster (omega arith) lay.full in
      ap (λ k. add32 fs.data_start_lba (mul32 k fs.sectors_per_cluster)) e
      ∙ omega (arith, b, lay.fits, lay.words)

  pub cluster_to_lba-lt : (c : ℕ) → IsCluster fs c → cluster_to_lba fs c < fs.dev.total_sectors
  cluster_to_lba-lt c i =
      let b = times_lt (c - 2) fs.total_clusters 0 fs.sectors_per_cluster (omega arith) lay.full in
      omega (arith, b, lay.fits, cluster_to_lba_lem c i)

  pub cluster_to_lba-ge : (c : ℕ) → IsCluster fs c → fs.data_start_lba ≤ cluster_to_lba fs c
  cluster_to_lba-ge c i = omega (arith, cluster_to_lba_lem c i)

  -- Different clusters have different sectors.
  pub cluster_to_lba_ne :
      (c d : ℕ)
      → IsCluster fs c
      → IsCluster fs d
      → c ≢ d
      → cluster_to_lba fs c ≢ cluster_to_lba fs d
  cluster_to_lba_ne c d i j n e = elim (order c d n) [
    | inl l ↦
        let b = times_lt (c - 2) (d - 2) 0 fs.sectors_per_cluster (omega arith) lay.full in
        omega (arith, b, e, cluster_to_lba_lem c i, cluster_to_lba_lem d j)
    | inr l ↦
        let b = times_lt (d - 2) (c - 2) 0 fs.sectors_per_cluster (omega arith) lay.full in
        omega (arith, b, e, cluster_to_lba_lem c i, cluster_to_lba_lem d j)
  ]
    where
      order : (c d : ℕ) → c ≢ d → (c < d) ⊎ (d < c)
      order c d n = elim (dec_lt c d) [ yes l ↦ inl l | no l ↦ inr (omega arith) ]

  -- A table ends where the data area starts, or before.
  pub fat_end-le :
      (f : ℕ)
      → f < fs.fat_count
      → fs.fat_start_lba + f * fs.sectors_per_fat + fs.sectors_per_fat ≤ fs.data_start_lba
  fat_end-le f l =
      let b = times_le (f + 1) fs.fat_count fs.sectors_per_fat (omega arith) in
      let e : (f + 1) * fs.sectors_per_fat ≡ f * fs.sectors_per_fat + fs.sectors_per_fat =
        grind arith in
      omega (arith, b, e, lay.starts)

  pub data_start-le : fs.data_start_lba ≤ fs.dev.total_sectors
  data_start-le = omega (arith, lay.fits)

  pub fat_lba_lem : (c : ℕ) → IsCluster fs c → fat_lba fs c ≡ fs.fat_start_lba + c / 128
  fat_lba_lem c i =
      omega (arith, lay.few, fat_end-le 0 lay.tables, lay.covers, data_start-le, lay.words)

  pub fat_offset_lem : (c : ℕ) → IsCluster fs c → fat_offset c ≡ c % 128 * 4
  fat_offset_lem c i = omega (arith, lay.few)

  pub row-lt : (c : ℕ) → IsCluster fs c → c / 128 < fs.sectors_per_fat
  row-lt c i = omega (arith, lay.covers)
