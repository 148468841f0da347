-- ===== src/Fat32/Deleting.antt =====
-- fat32_delete_file of kernel/fs/fat32.c, and fat32_read_file after it.
use ronin_os.Base.{
  ℕ, ◌+◌, ◌≤◌, ◌<◌, ◌≡◌, ◌≢◌, refl, ◌∙◌, ap, ◌⊎◌, inl, inr, Bool, false, Bool-cases, leb, Option,
  none, some, Option-cases, List, arith, ◌==◌, ==_self, if◌then◌else◌,
}
use ronin_os.Fat32.{
  Sector, Fs, Store, Result, ok, failed, Action, or_fail, on_error, set_error, ◌>>=◌, ◌>>◌,
  io_write, cluster_to_lba, all_ok, invalid_filename, file_not_found, free_cluster_failed,
  write_marker_failed,
}
use ronin_os.Fat32.Bytes.{put8}
use ronin_os.Fat32.Names.{make_name83}
use ronin_os.Fat32.Table.{find_loop, fat_lba, fat_set}
use ronin_os.Fat32.Files.{cluster_in, find_file, delete_entry, fat32_delete_file, fat32_read_file}
use ronin_os.Fat32.Layout.{
  Layout, IsCluster, cluster_to_lba-lt, cluster_to_lba-ge, fat_lba_lem, row-lt, fat_end-le,
}
use ronin_os.Fat32.Steps.{bind-ok, then-ok, bind-failed, on_error-ok, or_fail-some}
use ronin_os.Fat32.Chain.{entry, fat_put, fat_set-ok, fat_put_self, fat_put_ne, fat_put-data}
use ronin_os.Fat32.Directory.{find_loop-deleted}
use ronin_os.Fat32.Reading.{
  root_lba, root_sector, find_file-some, find_file-none, fat32_read_file-missing,
}
use ronin_os.Fat32.Place.{found_at, OldFits}
use ronin_os.Fat32.Reliable.{Reliable, put, io_write-ok}

module _ {D : Type 0} (fs : Fs D) (lay : Layout fs) {sector : D → ℕ → Sector}
    (rel : Reliable fs.dev sector) (s : Store D) (name : Option (List ℕ)) (name83 : ℕ → ℕ) where
  abbrev old : ℕ → ℕ
  old off = cluster_in (root_sector fs lay rel s) off

  abbrev marked : ℕ → Sector
  marked off = put8 (root_sector fs lay rel s) off 0xe5

  -- The disk `d`, on which the cluster of the entry is free.
  record Unlinked (off : ℕ) (d : D) : Type 0 where
    pub cleared : 2 ≤ old off → entry sector fs d (old off) ≡ 0
    pub entries :
        (j : ℕ) → IsCluster fs j → j ≢ old off → entry sector fs d j ≡ entry sector fs s.disk j
    pub data_kept : (j : ℕ) → fs.data_start_lba ≤ j → sector d j ≡ sector s.disk j

  -- After the call: the entry at `off` is marked, its cluster is free, and all else is as before.
  pub record Deleted (off : ℕ) (t : Store D) : Type 0 where
    pub no_error : t.last_error ≡ all_ok
    pub marker : sector t.disk (cluster_to_lba fs fs.root_cluster) ≡ marked off
    pub cleared : 2 ≤ old off → entry sector fs t.disk (old off) ≡ 0
    pub entries :
        (j : ℕ) → IsCluster fs j → j ≢ old off → entry sector fs t.disk j ≡ entry sector fs s.disk j
    pub data_kept :
        (j : ℕ)
        → fs.data_start_lba ≤ j
        → j ≢ cluster_to_lba fs fs.root_cluster
        → sector t.disk j ≡ sector s.disk j
    pub gone :
        ((rounds : ℕ) → find_loop rounds (root_sector fs lay rel s) name83 (off + 32) ≡ none)
        → (cap : ℕ) → 0 < cap
        → fat32_read_file (some fs) name cap t ≡ (failed, record t { last_error = file_not_found })

  abbrev pub DeleteResult : Result (Unit {0}) × Store D → Type 0
  DeleteResult r =
      ((found_at fs lay rel s name83 ≡ none)
        × (r ≡ (failed, record s { last_error = file_not_found })))
      ⊎ ((off : ℕ) × (t : Store D) × (found_at fs lay rel s name83 ≡ some off)
          × Deleted off t
          × (r ≡ (ok tt, t)))

  -- The write of the root directory leaves the tables as they are.
  marked_disk : D → ℕ → D
  marked_disk d off = put rel d (cluster_to_lba fs fs.root_cluster) (marked off)

  module _ (d : D) (off : ℕ) where
    root_in : IsCluster fs fs.root_cluster
    root_in = (lay.root_low, lay.root_high)

    marked_disk-at :
        (j : ℕ)
        → sector (marked_disk d off) j
          ≡ (if j == cluster_to_lba fs fs.root_cluster then marked off else sector d j)
    unfolding marked_disk
    marked_disk-at j =
        rel.write_is d (cluster_to_lba fs fs.root_cluster) (marked off) j
          (cluster_to_lba-lt fs lay fs.root_cluster root_in)

    marked_disk-root : sector (marked_disk d off) (cluster_to_lba fs fs.root_cluster) ≡ marked off
    marked_disk-root =
        marked_disk-at (cluster_to_lba fs fs.root_cluster)
        ∙ rw (==_self (cluster_to_lba fs fs.root_cluster)) refl

    marked_disk_ne :
        (j : ℕ) → j ≢ cluster_to_lba fs fs.root_cluster → sector (marked_disk d off) j ≡ sector d j
    marked_disk_ne j n =
        marked_disk-at j ∙ ap (λ b. if b then marked off else sector d j) (eq_ne j n)
      where
        eq_ne :
            (j : ℕ)
            → j ≢ cluster_to_lba fs fs.root_cluster
            → (j == cluster_to_lba fs fs.root_cluster) ≡ false
        eq_ne j n = ground arith

    marked_disk-entry :
        (j : ℕ) → IsCluster fs j → entry sector fs (marked_disk d off) j ≡ entry sector fs d j
    marked_disk-entry j i =
        ap (λ (p : Sector). entry (λ (u : D) (l : ℕ). p) fs d j)
          (marked_disk_ne (fat_lba fs j) (λ e. absurd (
            omega (
              arith,
              e,
              fat_lba_lem fs lay j i,
              row-lt fs lay j i,
              fat_end-le fs lay 0 lay.tables,
              cluster_to_lba-ge fs lay fs.root_cluster root_in,
            ))))

  unlink_none : (off : ℕ) → leb 2 (old off) ≡ false → Unlinked off s.disk
  unlink_none off unused = record {
    cleared = λ h. absurd (ground arith);
    entries = λ j i n. refl;
    data_kept = λ j h. refl;
  }

  unlink_one :
      (off : ℕ) → IsCluster fs (old off) → Unlinked off (fat_put fs lay rel s.disk (old off) 0)
  unlink_one off i = record {
    cleared = λ h. fat_put_self fs lay rel s.disk (old off) 0 i (omega arith);
    entries = λ j i' n. fat_put_ne fs lay rel s.disk (old off) 0 j i i' n;
    data_kept = λ j h. fat_put-data fs lay rel s.disk (old off) 0 j i h;
  }

  module _ (valid : make_name83 name ≡ some name83) where
    deleted :
        (off : ℕ) (d : D)
        → found_at fs lay rel s name83 ≡ some off
        → OldFits fs lay rel s name83
        → Unlinked off d
        → Deleted off (record { disk = marked_disk d off; last_error = all_ok })
    deleted off d found fits u =
        let t : Store D = record { disk = marked_disk d off; last_error = all_ok } in
        let behind = find_loop-deleted (root_sector fs lay rel s) off name83 16 0 found in
        record {
          no_error = refl;
          marker = marked_disk-root d off;
          cleared = λ h.
              marked_disk-entry d off (old off) (h, (fits (old off) (off, found, refl) h).0)
              ∙ u.cleared h;
          entries = λ j i n. marked_disk-entry d off j i ∙ u.entries j i n;
          data_kept = λ j l n. marked_disk_ne d off j n ∙ u.data_kept j l;
          gone = λ no_other cap room.
              fat32_read_file-missing fs lay rel t name name83 cap valid
                (ap (λ (p : Sector). find_loop 16 p name83 0) (marked_disk-root d off)
                  ∙ behind.1
                  ∙ no_other behind.0)
                room;
        }

    -- What the freeing of the old cluster answers.
    Unlinking : ℕ → Type 0
    Unlinking off =
        (d : D) × Unlinked off d
        × ((if leb 2 (old off)
                then on_error (fat_set fs (old off) 0) free_cluster_failed
                else (λ u. (ok tt, u)))
              s
            ≡ (ok tt, record s { disk = d }))

    unlinking :
        (off : ℕ)
        → found_at fs lay rel s name83 ≡ some off
        → OldFits fs lay rel s name83
        → Unlinking off
    unfolding Unlinking
    unlinking off found fits = elim (Bool-cases (leb 2 (old off))) [
      | inl used ↦
          let i : IsCluster fs (old off) =
            (ground arith, (fits (old off) (off, found, refl) (ground arith)).0) in
          (
            fat_put fs lay rel s.disk (old off) 0,
            unlink_one off i,
            ap (λ b. branch off b s) used
                ∙ on_error-ok (fat_set fs (old off) 0) free_cluster_failed
                    (fat_set-ok fs lay rel (old off) 0 s i),
          )
      | inr unused ↦ (s.disk, unlink_none off unused, ap (λ b. branch off b s) unused)
    ]
      where
        branch : ℕ → Bool → Action D (Unit {0})
        branch off b =
            if b then on_error (fat_set fs (old off) 0) free_cluster_failed else (λ u. (ok tt, u))

    -- On a disk whose parts fit and that keeps what is written, where the entry of a valid name, if any,
    -- has no cluster or one on the disk that is not the root directory's: fat32_delete_file returns -1
    -- and changes no sector if the root directory has no entry of the name, and 0 otherwise. The entry
    -- is then marked, its cluster is free, every other cluster's entry is as before, and so is every
    -- sector of the data area but the root directory's. If no entry behind it had the name too,
    -- fat32_read_file then answers that the file is not found.
    pub fat32_delete_file-DeleteResult :
        OldFits fs lay rel s name83 → DeleteResult (fat32_delete_file (some fs) name s)
    unfolding fat32_delete_file delete_entry marked_disk Unlinking
    fat32_delete_file-DeleteResult fits = elim (Option-cases (found_at fs lay rel s name83)) [
      | inl e ↦ inl (
        e,
        start ∙ bind-failed (find_file fs name83) entry_of (find_file-none fs lay rel s name83 e),
      )
      | inr (off, e) ↦
          let u = unlinking off e fits in
          let t : Store D = record { disk = marked_disk u.0 off; last_error = all_ok } in
          let mark : Action D (Unit {0}) =
            on_error (io_write fs.dev (root_lba fs lay rel s) 1 (marked off)) write_marker_failed in
          inr (
            off,
            t,
            e,
            deleted off u.0 e fits u.1,
            start
                ∙ bind-ok (find_file fs name83) entry_of (find_file-some fs lay rel s name83 off e)
                ∙ then-ok
                    (if leb 2 (old off)
                      then on_error (fat_set fs (old off) 0) free_cluster_failed
                      else (λ u. (ok tt, u)))
                    (mark >> set_error all_ok) u.2
                ∙ then-ok mark (set_error all_ok) (
                    on_error-ok (io_write fs.dev (root_lba fs lay rel s) 1 (marked off))
                      write_marker_failed
                      (io_write-ok rel (root_lba fs lay rel s) (marked off)
                        (record s { disk = u.0 })
                        (cluster_to_lba-lt fs lay fs.root_cluster (lay.root_low, lay.root_high)))),
          )
    ]
      where
        entry_of : Sector × ℕ → Action D (Unit {0})
        entry_of p = delete_entry fs p.0 p.1

        start : fat32_delete_file (some fs) name s ≡ (find_file fs name83 >>= entry_of) s
        start =
            bind-ok (or_fail (make_name83 name) invalid_filename) (λ n. find_file fs n >>= entry_of)
              (or_fail-some s (make_name83 name) invalid_filename valid)
