-- ===== src/Fat32/Chain.antt =====
-- The file allocation table of kernel/fs/fat32.c on a device that keeps what is written: what fat_get
-- reads, what fat_set leaves in the tables, and the cluster that alloc_cluster takes.
use Prim.Native.Nat.{bit_and}
use native.Mathlib.Decide.{ℕ_discrete, dec_lt}
use ronin_os.Base.{
  ℕ, zero, suc, ◌+◌, ◌*◌, ◌/◌, ◌^◌, ◌≤◌, ◌<◌, ◌≡◌, ◌≢◌, refl, ◌∙◌, ap, ◌⊎◌, inl, inr, false, arith,
  ◌==◌, ==_self, if◌then◌else◌, add32, mul32,
}
use ronin_os.Fat32.{Sector, Fs, Store, Result, ok, failed, fault, io_read, io_write, end_of_chain}
use ronin_os.Fat32.Bytes.{rd32, wr32}
use ronin_os.Fat32.Table.{fat_lba, fat_offset, fat_get, fat_set_loop, fat_set}
use ronin_os.Fat32.Words.{rd32-wr32, rd32-wr32_ne}
use ronin_os.Fat32.Layout.{
  Layout, IsCluster, fat_end-le, data_start-le, fat_lba_lem, fat_offset_lem, row-lt,
}
use ronin_os.Fat32.Steps.{bind-ok, then-ok}
use ronin_os.Fat32.Reliable.{Reliable, put, io_read-ok, io_write-ok}

-- The entry of a cluster in the first table.
abbrev pub entry : {D : Type 0} → (D → ℕ → Sector) → Fs D → D → ℕ → ℕ
entry sector fs d c = bit_and (rd32 (sector d (fat_lba fs c)) (fat_offset c)) 0x0fff_ffff

module _ {D : Type 0} (fs : Fs D) (lay : Layout fs) {sector : D → ℕ → Sector}
    (rel : Reliable fs.dev sector) where
  fat_lba-lt : (c : ℕ) → IsCluster fs c → fat_lba fs c < fs.dev.total_sectors
  fat_lba-lt c i = omega (
    arith,
    fat_lba_lem fs lay c i,
    row-lt fs lay c i,
    fat_end-le fs lay 0 lay.tables,
    data_start-le fs lay,
  )

  pub fat_get-ok :
      (c : ℕ) (s : Store D) → IsCluster fs c → fat_get fs c s ≡ (ok (entry sector fs s.disk c), s)
  unfolding fat_get
  fat_get-ok c s i =
      ap
        (λ (r : Result Sector × Store D). elim (r.0) [
          | ok sec ↦ (ok (bit_and (rd32 sec (fat_offset c)) 0x0fff_ffff), r.1)
          | failed ↦ (ok end_of_chain, r.1)
          | fault ↦ (fault, r.1)
        ])
        (io_read-ok rel (fat_lba fs c) s (fat_lba-lt c i))

  -- The disk after the writes of fat_set to the tables from `f` on.
  pub copies : ℕ → D → (lba : ℕ) → Sector → ℕ → D
  copies zero d lba sec f = d
  copies (suc rounds) d lba sec f =
      copies rounds (put rel d (add32 lba (mul32 f fs.sectors_per_fat)) sec) lba sec (f + 1)

  copy_lba :
      (lba row f : ℕ)
      → lba ≡ fs.fat_start_lba + row
      → row < fs.sectors_per_fat
      → f < fs.fat_count
      → add32 lba (mul32 f fs.sectors_per_fat) ≡ lba + f * fs.sectors_per_fat
  copy_lba lba row f e r l = omega (arith, fat_end-le fs lay f l, data_start-le fs lay, lay.words)

  fat_set_loop-ok :
      (rounds : ℕ) (s : Store D) (lba row : ℕ) (sec : Sector) (f : ℕ)
      → lba ≡ fs.fat_start_lba + row
      → row < fs.sectors_per_fat
      → f + rounds ≡ fs.fat_count
      → fat_set_loop rounds fs lba sec f s
        ≡ (ok tt, record s { disk = copies rounds s.disk lba sec f })
  unfolding fat_set_loop copies
  fat_set_loop-ok zero s lba row sec f e r n = refl
  fat_set_loop-ok (suc rounds) s lba row sec f e r n =
      let there = add32 lba (mul32 f fs.sectors_per_fat) in
      let l : there < fs.dev.total_sectors = omega (
        arith,
        copy_lba lba row f e r (omega arith),
        fat_end-le fs lay f (omega arith),
        data_start-le fs lay,
      ) in
      then-ok (io_write fs.dev there 1 sec) (fat_set_loop rounds fs lba sec (f + 1))
        (io_write-ok rel there sec s l)
      ∙ (fat_set_loop-ok rounds (record s { disk = put rel s.disk there sec }) lba row sec (f + 1) e
          r (omega arith))

  -- The writes to the tables from `f` on leave the data area and the tables before `f` as they are.
  copies-frame :
      (rounds : ℕ) (d : D) (lba row : ℕ) (sec : Sector) (f j : ℕ)
      → lba ≡ fs.fat_start_lba + row
      → row < fs.sectors_per_fat
      → f + rounds ≡ fs.fat_count
      → (fs.data_start_lba ≤ j) ⊎ (j < lba + f * fs.sectors_per_fat)
      → sector (copies rounds d lba sec f) j ≡ sector d j
  unfolding copies
  copies-frame zero d lba row sec f j e r n h = refl
  copies-frame (suc rounds) d lba row sec f j e r n h =
      let there = add32 lba (mul32 f fs.sectors_per_fat) in
      let at = copy_lba lba row f e r (omega arith) in
      let within = fat_end-le fs lay f (omega arith) in
      let l : there < fs.dev.total_sectors = omega (arith, at, within, data_start-le fs lay) in
      let next : (f + 1) * fs.sectors_per_fat ≡ f * fs.sectors_per_fat + fs.sectors_per_fat =
        grind arith in
      let apart : (j == there) ≡ false = ground (arith, at, within) in
      copies-frame rounds (put rel d there sec) lba row sec (f + 1) j e r (omega arith)
        (elim h [ inl p ↦ inl p | inr p ↦ inr (omega (arith, next)) ])
      ∙ rel.write_is d there sec j l
      ∙ ap (λ b. if b then sec else sector d j) apart

  -- The disk after fat_set.
  pub fat_put : D → (cluster val : ℕ) → D
  unfolding copies
  fat_put d cluster val =
      copies fs.fat_count d (fat_lba fs cluster)
        (wr32 (sector d (fat_lba fs cluster)) (fat_offset cluster) val) 0

  pub fat_set-ok :
      (c val : ℕ) (s : Store D)
      → IsCluster fs c
      → fat_set fs c val s ≡ (ok tt, record s { disk = fat_put s.disk c val })
  unfolding fat_set fat_put
  fat_set-ok c val s i =
      bind-ok (io_read fs.dev (fat_lba fs c) 1)
        (λ sec. fat_set_loop fs.fat_count fs (fat_lba fs c) (wr32 sec (fat_offset c) val) 0)
        (io_read-ok rel (fat_lba fs c) s (fat_lba-lt c i))
      ∙ (fat_set_loop-ok fs.fat_count s (fat_lba fs c) (c / 128) _ 0 (fat_lba_lem fs lay c i)
          (row-lt fs lay c i) (omega arith))

  -- The data area is not touched.
  pub fat_put-data :
      (d : D) (c val j : ℕ)
      → IsCluster fs c
      → fs.data_start_lba ≤ j
      → sector (fat_put d c val) j ≡ sector d j
  unfolding fat_put
  fat_put-data d c val j i h =
      copies-frame fs.fat_count d (fat_lba fs c) (c / 128) _ 0 j (fat_lba_lem fs lay c i)
        (row-lt fs lay c i) (omega arith) (inl h)

  -- The first table holds the new sector, where the entry stands, and its other sectors as before.
  fat_put-table :
      (d : D) (c val j : ℕ)
      → IsCluster fs c
      → j < fs.fat_start_lba + fs.sectors_per_fat
      → sector (fat_put d c val) j ≡ (
          if j == fat_lba fs c
          then wr32 (sector d (fat_lba fs c)) (fat_offset c) val
          else sector d j)
  unfolding fat_put copies
  fat_put-table d c val j i h = by_rounds fs.fat_count refl lay.tables
    where
      new : Sector
      new = wr32 (sector d (fat_lba fs c)) (fat_offset c) val

      by_rounds :
          (n : ℕ)
          → n ≡ fs.fat_count
          → 0 < n
          → sector (copies n d (fat_lba fs c) new 0) j
            ≡ (if j == fat_lba fs c then new else sector d j)
      by_rounds zero e p = absurd (omega arith)
      by_rounds (suc n) e p =
          let row : c / 128 < fs.sectors_per_fat = row-lt fs lay c i in
          let first : add32 (fat_lba fs c) (mul32 0 fs.sectors_per_fat) ≡ fat_lba fs c =
            omega (arith, fat_lba-lt c i, lay.words) in
          copies-frame n (put rel d (add32 (fat_lba fs c) (mul32 0 fs.sectors_per_fat)) new)
            (fat_lba fs c) (c / 128) new 1 j (fat_lba_lem fs lay c i) row (omega arith)
            (inr (omega (arith, fat_lba_lem fs lay c i)))
          ∙ ap (λ l. sector (put rel d l new) j) first
          ∙ rel.write_is d (fat_lba fs c) new j (fat_lba-lt c i)

  -- After fat_set, the entry of the cluster is the value and every other entry is as before.
  pub fat_put_self :
      (d : D) (c val : ℕ)
      → IsCluster fs c
      → val < 2 ^ 32
      → entry sector fs (fat_put d c val) c ≡ bit_and val 0x0fff_ffff
  fat_put_self d c val i l =
      ap (λ (p : Sector). bit_and (rd32 p (fat_offset c)) 0x0fff_ffff)
        (fat_put-table d c val (fat_lba fs c) i
            (omega (arith, fat_lba_lem fs lay c i, row-lt fs lay c i))
          ∙ rw (==_self (fat_lba fs c)) refl)
      ∙ ap (λ v. bit_and v 0x0fff_ffff) (rd32-wr32 (sector d (fat_lba fs c)) (fat_offset c) val l)

  pub fat_put_ne :
      (d : D) (c val k : ℕ)
      → IsCluster fs c
      → IsCluster fs k
      → k ≢ c
      → entry sector fs (fat_put d c val) k ≡ entry sector fs d k
  fat_put_ne d c val k i j n =
      ap (λ v. bit_and v 0x0fff_ffff)
        (ap (λ (p : Sector). rd32 p (fat_offset k))
            (fat_put-table d c val (fat_lba fs k) i
              (omega (arith, fat_lba_lem fs lay k j, row-lt fs lay k j)))
          ∙ elim (ℕ_discrete (fat_lba fs k) (fat_lba fs c)) [
            | yes same ↦
                rw (same, ==_self (fat_lba fs c))
                  (rd32-wr32_ne (sector d (fat_lba fs c)) (fat_offset c) val (fat_offset k)
                    (apart same))
            | no other ↦
                let differ : (fat_lba fs k == fat_lba fs c) ≡ false = ground arith in
                ap
                  (λ b.
                    rd32
                      (if b
                        then wr32 (sector d (fat_lba fs c)) (fat_offset c) val
                        else sector d (fat_lba fs k))
                      (fat_offset k))
                  differ
          ])
    where
      apart :
          fat_lba fs k ≡ fat_lba fs c
          → (fat_offset k + 4 ≤ fat_offset c) ⊎ (fat_offset c + 4 ≤ fat_offset k)
      apart same = elim (dec_lt (fat_offset k) (fat_offset c)) [
        | yes l ↦ inl (omega (arith, fat_offset_lem fs lay k j, fat_offset_lem fs lay c i))
        | no l ↦ inr (
            omega (
              arith,
              same,
              fat_lba_lem fs lay k j,
              fat_lba_lem fs lay c i,
              fat_offset_lem fs lay k j,
              fat_offset_lem fs lay c i,
            ))
      ]
