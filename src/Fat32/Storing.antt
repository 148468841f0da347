-- ===== src/Fat32/Storing.antt =====
-- The part of fat32_write_file of kernel/fs/fat32.c behind the checks of its arguments, and the disk after it.
use ronin_os.Base.{
  ℕ, ◌≤◌, ◌≡◌, ◌≢◌, refl, sym, ◌∙◌, ap, false, ltb, Option, none, some, arith, ◌==◌, ==_self,
  if◌then◌else◌,
}
use ronin_os.Fat32.{
  Sector, Fs, Store, ok, Action, fault_if, on_error, set_error, ◌>>=◌, ◌>>◌, io_read, io_write,
  cluster_to_lba, all_ok, read_root_entry_failed, no_free_cluster, write_entry_failed,
  write_data_failed,
}
use ronin_os.Fat32.Bytes.{put_bytes, zeros}
use ronin_os.Fat32.Table.{find_root_entry, alloc_cluster}
use ronin_os.Fat32.Files.{attempt, put_entry, place_for, write_data, write_named}
use ronin_os.Fat32.Layout.{Layout, IsCluster, cluster_to_lba-lt, cluster_to_lba_ne}
use ronin_os.Fat32.Steps.{bind-ok, then-ok, on_error-ok, attempt-ok, attempt-failed, fault_if-ok}
use ronin_os.Fat32.Reading.{
  root_lba, root_sector, read_root, find_root_entry-some, find_root_entry-none,
}
use ronin_os.Fat32.Place.{found_at}
use ronin_os.Fat32.Reliable.{Reliable, put, io_write-ok}

eq_ne : (a b : ℕ) → a ≢ b → (a == b) ≡ false
eq_ne a b n = ground arith

module _ {D : Type 0} (fs : Fs D) (lay : Layout fs) {sector : D → ℕ → Sector}
    (rel : Reliable fs.dev sector) (s : Store D) (name83 : ℕ → ℕ) (bytes : Sector) (len : ℕ) where
  -- The sector of the root directory with the new entry.
  abbrev pub new_root : (off k : ℕ) → Sector
  new_root off k = put_entry (root_sector fs lay rel s) off name83 k len

  -- The sector of the file.
  abbrev pub contents : Sector
  contents = put_bytes zeros 0 bytes len

  abbrev pub entry_write : ℕ → ℕ → Action D (Unit {0})
  entry_write off k =
      on_error (io_write fs.dev (cluster_to_lba fs fs.root_cluster) 1 (new_root off k))
        write_entry_failed

  -- From the allocation on.
  abbrev pub finish : ℕ → ℕ → Action D (Unit {0})
  finish off k = entry_write off k >> (write_data fs k bytes len >> set_error all_ok)

  abbrev pub from_place : ℕ → Action D (Unit {0})
  from_place off = on_error (alloc_cluster fs) no_free_cluster >>= finish off

  -- write_named looks for the name, then for a place.
  pub write_named-place :
      write_named fs name83 bytes len s
      ≡ (place_for fs (root_sector fs lay rel s) (found_at fs lay rel s name83) >>= from_place) s
  unfolding write_named
  write_named-place =
      let go : Sector → Option ℕ → Action D (Unit {0}) = λ sec found.
        place_for fs sec found >>= λ off. on_error (alloc_cluster fs) no_free_cluster >>= λ k.
        on_error
          (io_write fs.dev (cluster_to_lba fs fs.root_cluster) 1 (put_entry sec off name83 k len))
          write_entry_failed
        >> (write_data fs k bytes len >> set_error all_ok) in
      bind-ok (on_error (io_read fs.dev (root_lba fs lay rel s) 1) read_root_entry_failed)
        (λ sec. attempt (find_root_entry fs name83) >>= go sec)
        (on_error-ok (io_read fs.dev (root_lba fs lay rel s) 1) read_root_entry_failed
          (read_root fs lay rel s))
      ∙ bind-ok (attempt (find_root_entry fs name83)) (go (root_sector fs lay rel s)) attempted
    where
      by_cases :
          (o : Option ℕ)
          → found_at fs lay rel s name83 ≡ o
          → attempt (find_root_entry fs name83) s ≡ (ok o, s)
      by_cases none e =
          attempt-failed (find_root_entry fs name83) (find_root_entry-none fs lay rel s name83 e)
      by_cases (some off) e =
          attempt-ok (find_root_entry fs name83) (find_root_entry-some fs lay rel s name83 off e)

      attempted : attempt (find_root_entry fs name83) s ≡ (ok (found_at fs lay rel s name83), s)
      attempted = by_cases (found_at fs lay rel s name83) refl

  -- The disk after the entry and the file are written.
  abbrev pub with_file : D → (off k : ℕ) → D
  with_file d off k =
      put rel (put rel d (root_lba fs lay rel s) (new_root off k)) (cluster_to_lba fs k) contents

  pub finish-ok :
      (d : D) (off k : ℕ)
      → IsCluster fs k
      → len ≤ 512
      → finish off k (record s { disk = d })
        ≡ (ok tt, record { disk = with_file d off k; last_error = all_ok })
  unfolding write_data
  finish-ok d off k i small =
      let entered : Store D = record s {
        disk = put rel d (root_lba fs lay rel s) (new_root off k);
      } in
      let stored : Action D (Unit {0}) =
        on_error (io_write fs.dev (cluster_to_lba fs k) 1 contents) write_data_failed in
      let copied : write_data fs k bytes len entered
          ≡ (ok tt, record s { disk = with_file d off k }) =
        then-ok (fault_if (ltb 512 len)) stored (fault_if-ok entered (ltb 512 len) (ground arith))
        ∙ on_error-ok (io_write fs.dev (cluster_to_lba fs k) 1 contents) write_data_failed (
            io_write-ok rel (cluster_to_lba fs k) contents entered
              (cluster_to_lba-lt fs lay k i)) in
      let entry_done : entry_write off k (record s { disk = d }) ≡ (ok tt, entered) =
        on_error-ok (io_write fs.dev (root_lba fs lay rel s) 1 (new_root off k)) write_entry_failed
          (io_write-ok rel (root_lba fs lay rel s) (new_root off k) (record s { disk = d })
            (cluster_to_lba-lt fs lay fs.root_cluster (lay.root_low, lay.root_high))) in
      then-ok (entry_write off k) (write_data fs k bytes len >> set_error all_ok) entry_done
      ∙ then-ok (write_data fs k bytes len) (set_error all_ok) copied

  -- What is on the disk then.
  module _ (d : D) (off k : ℕ)
      (kept : (j : ℕ) → fs.data_start_lba ≤ j → sector d j ≡ sector s.disk j) (i : IsCluster fs k)
      (n : k ≢ fs.root_cluster) where
    root_in : IsCluster fs fs.root_cluster
    root_in = (lay.root_low, lay.root_high)

    with_file-at :
        (j : ℕ)
        → sector (with_file d off k) j ≡ (
            if j == cluster_to_lba fs k
            then contents
            else if j == root_lba fs lay rel s
            then new_root off k
            else sector d j)
    with_file-at j =
        rel.write_is (put rel d (root_lba fs lay rel s) (new_root off k)) (cluster_to_lba fs k)
          contents j (cluster_to_lba-lt fs lay k i)
        ∙ ap (λ (p : Sector). if j == cluster_to_lba fs k then contents else p)
            (rel.write_is d (root_lba fs lay rel s) (new_root off k) j
              (cluster_to_lba-lt fs lay fs.root_cluster root_in))

    pub with_file-contents : sector (with_file d off k) (cluster_to_lba fs k) ≡ contents
    with_file-contents =
        with_file-at (cluster_to_lba fs k) ∙ rw (==_self (cluster_to_lba fs k)) refl

    pub with_file-root : sector (with_file d off k) (root_lba fs lay rel s) ≡ new_root off k
    with_file-root =
        let apart : (root_lba fs lay rel s == cluster_to_lba fs k) ≡ false =
          eq_ne _ _ (λ e. cluster_to_lba_ne fs lay k fs.root_cluster i root_in n (sym e)) in
        with_file-at (root_lba fs lay rel s) ∙ rw (apart, ==_self (root_lba fs lay rel s)) refl

    pub with_file-kept :
        (j : ℕ)
        → fs.data_start_lba ≤ j
        → j ≢ root_lba fs lay rel s
        → j ≢ cluster_to_lba fs k
        → sector (with_file d off k) j ≡ sector s.disk j
    with_file-kept j l p q = with_file-at j ∙ rw (eq_ne _ _ q, eq_ne _ _ p) (kept j l)
