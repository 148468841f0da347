-- ===== src/Fat32/Place.antt =====
-- The part of fat32_write_file of kernel/fs/fat32.c that looks for the entry and frees the old cluster.
use ronin_os.Base.{
  ℕ, ◌+◌, ◌≤◌, ◌<◌, ◌≡◌, ◌≢◌, refl, sym, ◌∙◌, ap, ◌⊎◌, inl, inr, Bool, Bool-cases, leb, Option,
  none, some, Option-cases, arith, if◌then◌else◌,
}
use native.Mathlib.Decide.{ℕ_discrete}
use ronin_os.Fat32.{
  Sector, Fs, Store, Result, ok, failed, Action, pure, or_fail, on_error, ◌>>◌,
  free_old_cluster_failed, root_full,
}
use ronin_os.Fat32.Table.{find_loop, fat_set}
use ronin_os.Fat32.Files.{cluster_in, slot_loop, place_for}
use ronin_os.Fat32.Layout.{Layout, IsCluster}
use ronin_os.Fat32.Steps.{then-ok, on_error-ok}
use ronin_os.Fat32.Chain.{entry, fat_put, fat_set-ok, fat_put_self, fat_put_ne, fat_put-data}
use ronin_os.Fat32.Reading.{root_sector}
use ronin_os.Fat32.Reliable.{Reliable}

module _ {D : Type 0} (fs : Fs D) (lay : Layout fs) {sector : D → ℕ → Sector}
    (rel : Reliable fs.dev sector) (s : Store D) (name : ℕ → ℕ) where
  -- The offset of the entry of the name.
  abbrev pub found_at : Option ℕ
  found_at = find_loop 16 (root_sector fs lay rel s) name 0

  -- The cluster of the file that the name has.
  abbrev pub Old : ℕ → Type 0
  Old k = (off : ℕ) × (found_at ≡ some off) × (cluster_in (root_sector fs lay rel s) off ≡ k)

  -- Where the entry goes: to that of the name, or else to the first that is free.
  abbrev pub IsPlace : ℕ → Type 0
  IsPlace off =
      (found_at ≡ some off)
      ⊎ ((found_at ≡ none) × (slot_loop 16 (root_sector fs lay rel s) 0 ≡ some off))

  -- The entry of the name names a cluster of the disk that is not the root directory's, or none.
  abbrev pub OldFits : Type 0
  OldFits = (k : ℕ) → Old k → 2 ≤ k → (k < fs.total_clusters + 2) × (k ≢ fs.root_cluster)

  -- The disk `d` with the name's old cluster free.
  pub record Freed (d : D) : Type 0 where
    pub root_kept : entry sector fs d fs.root_cluster ≡ entry sector fs s.disk fs.root_cluster
    pub data_kept : (j : ℕ) → fs.data_start_lba ≤ j → sector d j ≡ sector s.disk j
    pub free_before :
        (j : ℕ) → IsCluster fs j → entry sector fs d j ≡ 0 → (entry sector fs s.disk j ≡ 0) ⊎ Old j
    pub same_or_free :
        (d ≡ s.disk) ⊎ ((j : ℕ) × (2 ≤ j) × (j < fs.total_clusters + 2) × (entry sector fs d j ≡ 0))

  nothing-Freed : Freed s.disk
  nothing-Freed = record {
    root_kept = refl;
    data_kept = λ j h. refl;
    free_before = λ j i h. inl h;
    same_or_free = inl refl;
  }

  one-Freed :
      (k : ℕ) → IsCluster fs k → k ≢ fs.root_cluster → Old k → Freed (fat_put fs lay rel s.disk k 0)
  one-Freed k i n old = record {
    root_kept =
        fat_put_ne fs lay rel s.disk k 0 fs.root_cluster i (lay.root_low, lay.root_high)
          (λ e. n (sym e));
    data_kept = λ j h. fat_put-data fs lay rel s.disk k 0 j i h;
    free_before = λ j i' h. elim (ℕ_discrete j k) [
      | yes same ↦ inr (old.0, old.1, old.2 ∙ sym same)
      | no other ↦ inl (sym (fat_put_ne fs lay rel s.disk k 0 j i i' other) ∙ h)
    ];
    same_or_free = inr (k, i.0, i.1, fat_put_self fs lay rel s.disk k 0 i (omega arith));
  }

  -- What place_for answers: no place, or a place, on a disk with the old cluster free.
  abbrev pub Placing : Result ℕ × Store D → Type 0
  Placing r =
      ((found_at ≡ none)
        × (slot_loop 16 (root_sector fs lay rel s) 0 ≡ none)
        × (r ≡ (failed, record s { last_error = root_full })))
      ⊎ ((off : ℕ) × (d : D) × IsPlace off × Freed d × (r ≡ (ok off, record s { disk = d })))

  pub place_for-Placing : OldFits → Placing (place_for fs (root_sector fs lay rel s) found_at s)
  unfolding place_for
  place_for-Placing fits = elim (Option-cases found_at) [
    | inl e ↦ elim (Option-cases (slot_loop 16 (root_sector fs lay rel s) 0)) [
      | inl none_free ↦ inl (e, none_free, call e ∙ ap (λ o. or_fail o root_full s) none_free)
      | inr (off, slot) ↦
          inr (
            off,
            s.disk,
            inr (e, slot),
            nothing-Freed,
            call e ∙ ap (λ o. or_fail o root_full s) slot,
          )
    ]
    | inr (off, e) ↦
        let k = cluster_in (root_sector fs lay rel s) off in
        elim (Bool-cases (leb 2 k)) [
          | inl used ↦
              let bounds = fits k (off, e, refl) (ground arith) in
              let i : IsCluster fs k = (ground arith, bounds.0) in
              inr (
                off,
                fat_put fs lay rel s.disk k 0,
                inl e,
                one-Freed k i bounds.1 (off, e, refl),
                call e
                    ∙ ap (λ b. branch off b s) used
                    ∙ then-ok (on_error (fat_set fs k 0) free_old_cluster_failed) (pure off) (
                        on_error-ok (fat_set fs k 0) free_old_cluster_failed
                          (fat_set-ok fs lay rel k 0 s i)),
              )
          | inr unused ↦
              inr (off, s.disk, inl e, nothing-Freed, call e ∙ ap (λ b. branch off b s) unused)
        ]
  ]
    where
      call :
          {o : Option ℕ}
          → found_at ≡ o
          → place_for fs (root_sector fs lay rel s) found_at s
            ≡ place_for fs (root_sector fs lay rel s) o s
      call h = ap (λ o. place_for fs (root_sector fs lay rel s) o s) h

      branch : ℕ → Bool → Action D ℕ
      branch off b =
          if b
          then (do
            on_error (fat_set fs (cluster_in (root_sector fs lay rel s) off) 0)
                free_old_cluster_failed
            pure off)
          else pure off
