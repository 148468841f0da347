-- ===== src/Fat32/Alloc.antt =====
-- alloc_cluster of kernel/fs/fat32.c on a device that keeps what is written.
use ronin_os.Base.{
  ℕ, zero, suc, ◌+◌, ◌-◌, ◌≤◌, ◌<◌, ◌≡◌, ◌≢◌, refl, ◌∙◌, ap, subst, ◌⊎◌, inl, inr, Bool, true,
  false, Bool-cases, ==_iff, arith, ◌==◌, add32,
}
use ronin_os.Fat32.{Sector, Fs, Store, ok, failed, Action, pure, ◌>>◌, end_of_chain}
use native.Mathlib.Decide.{ℕ_discrete}
use ronin_os.Fat32.Table.{fat_get, fat_set, alloc_loop, alloc_cluster}
use ronin_os.Fat32.Layout.{Layout, IsCluster}
use ronin_os.Fat32.Steps.{bind-ok, then-ok}
use ronin_os.Fat32.Chain.{
  entry, fat_get-ok, fat_put, fat_set-ok, fat_put_self, fat_put_ne, fat_put-data,
}
use ronin_os.Fat32.Reliable.{Reliable}

module _ {D : Type 0} (fs : Fs D) (lay : Layout fs) {sector : D → ℕ → Sector}
    (rel : Reliable fs.dev sector) where
  abbrev pub NoFree : D → ℕ → Type 0
  NoFree d c = (k : ℕ) → c ≤ k → k < fs.total_clusters + 2 → entry sector fs d k ≢ 0

  -- `k` is the first cluster from `c` on whose entry is 0.
  pub record FirstFree (d : D) (c k : ℕ) : Type 0 where
    pub low : c ≤ k
    pub high : k < fs.total_clusters + 2
    pub is_free : entry sector fs d k ≡ 0
    pub before : (j : ℕ) → c ≤ j → j < k → entry sector fs d j ≢ 0

  alloc_loop-cases :
      (rounds c : ℕ) (s : Store D)
      → 2 ≤ c
      → c + rounds ≡ fs.total_clusters + 2
      → (NoFree s.disk c × (alloc_loop rounds fs c s ≡ (failed, s)))
        ⊎ ((k : ℕ) × FirstFree s.disk c k
            × (alloc_loop rounds fs c s
                ≡ (ok k, record s { disk = fat_put fs lay rel s.disk k end_of_chain })))
  unfolding alloc_loop
  alloc_loop-cases zero c s l e = inl (λ k p q. absurd (omega arith), refl)
  alloc_loop-cases (suc rounds) c s l e = elim (Bool-cases (entry sector fs s.disk c == 0)) [
    | inl here ↦ inr (
      c,
      record {
        low = omega arith;
        high = omega arith;
        is_free = (==_iff (entry sector fs s.disk c) 0).0 here;
        before = λ j p q. absurd (omega arith);
      },
      steps ∙ taken (entry sector fs s.disk c == 0) here,
    )
    | inr other ↦ elim (alloc_loop-cases rounds (c + 1) s (omega arith) (omega arith)) [
      | inl (all, r) ↦ inl (
        λ k p q. elim (ℕ_discrete c k) [
          | yes same ↦ subst (λ x. entry sector fs s.disk x ≢ 0) same (used other)
          | no ne ↦ all k (omega arith) q
        ],
        steps ∙ passed (entry sector fs s.disk c == 0) other ∙ r,
      )
      | inr (k, f, r) ↦ inr (
        k,
        record {
          low = omega (arith, f.low);
          high = f.high;
          is_free = f.is_free;
          before = λ j p q. elim (ℕ_discrete c j) [
            | yes same ↦ subst (λ x. entry sector fs s.disk x ≢ 0) same (used other)
            | no ne ↦ f.before j (omega arith) q
          ];
        },
        steps ∙ passed (entry sector fs s.disk c == 0) other ∙ r,
      )
    ]
  ]
    where
      used : (entry sector fs s.disk c == 0) ≡ false → entry sector fs s.disk c ≢ 0
      used h z = ground arith

      go : Bool → Action D ℕ
      go b = elim b [
        | true ↦ (do fat_set fs c end_of_chain; pure c)
        | false ↦ alloc_loop rounds fs (c + 1)
      ]

      steps : alloc_loop (suc rounds) fs c s ≡ go (entry sector fs s.disk c == 0) s
      steps = bind-ok (fat_get fs c) (λ x. go (x == 0)) (fat_get-ok fs lay rel c s (l, omega arith))

      taken :
          (b : Bool)
          → b ≡ true
          → go b s ≡ (ok c, record s { disk = fat_put fs lay rel s.disk c end_of_chain })
      taken b h =
          ap (λ x. go x s) h
          ∙ then-ok (fat_set fs c end_of_chain) (pure c)
              (fat_set-ok fs lay rel c end_of_chain s (l, omega arith))

      passed : (b : Bool) → b ≡ false → go b s ≡ alloc_loop rounds fs (c + 1) s
      passed b h = ap (λ x. go x s) h

  -- The disk on which the first free cluster `k` is taken.
  pub record Taken (d : D) (k : ℕ) (d' : D) : Type 0 where
    pub first : FirstFree d 2 k
    pub ended : entry sector fs d' k ≡ end_of_chain
    pub others : (j : ℕ) → IsCluster fs j → j ≢ k → entry sector fs d' j ≡ entry sector fs d j
    pub data_kept : (j : ℕ) → fs.data_start_lba ≤ j → sector d' j ≡ sector d j

  -- On a disk whose parts fit and that keeps what is written, alloc_cluster returns -1 and changes
  -- nothing if no cluster has an entry 0. Otherwise it returns the first cluster that has: its entry
  -- is then the end of a chain, and no other entry and no sector of the data area changes.
  pub alloc_cluster-Taken :
      (s : Store D)
      → (NoFree s.disk 2 × (alloc_cluster fs s ≡ (failed, s)))
        ⊎ ((k : ℕ) × (d' : D) × Taken s.disk k d'
            × (alloc_cluster fs s ≡ (ok k, record s { disk = d' })))
  unfolding alloc_cluster
  alloc_cluster-Taken s =
      let rounds : add32 fs.total_clusters 2 - 2 ≡ fs.total_clusters = omega (arith, lay.few) in
      elim (alloc_loop-cases (add32 fs.total_clusters 2 - 2) 2 s (omega arith)
        (omega (arith, rounds))) [
          | inl none_free ↦ inl none_free
          | inr (k, f, r) ↦ inr (
            k,
            fat_put fs lay rel s.disk k end_of_chain,
            record {
              first = f;
              ended = fat_put_self fs lay rel s.disk k end_of_chain (f.low, f.high) (omega arith);
              others = λ j i n. fat_put_ne fs lay rel s.disk k end_of_chain j (f.low, f.high) i n;
              data_kept = λ j h. fat_put-data fs lay rel s.disk k end_of_chain j (f.low, f.high) h;
            },
            r,
          )
        ]
