-- ===== src/Fat32/Roundtrip.antt =====
-- fat32_write_file of kernel/fs/fat32.c, and fat32_read_file after it.
use ronin_os.Base.{
  ℕ, ◌+◌, ◌≤◌, ◌<◌, ◌≡◌, ◌≢◌, refl, sym, ◌∙◌, ap, subst, ◌⊎◌, inl, inr, false, ltb, Option, none,
  some, List, arith, mul32,
}
use ronin_os.Fat32.{
  Sector, Fs, Store, Result, ok, failed, Action, fail_if, or_fail, on_error, ◌>>=◌, cluster_to_lba,
  all_ok, file_too_large, invalid_filename, root_full, no_free_cluster,
}
use ronin_os.Fat32.Bytes.{rd32, put_bytes, zeros}
use ronin_os.Fat32.Names.{make_name83}
use ronin_os.Fat32.Table.{find_loop, alloc_cluster}
use ronin_os.Fat32.Files.{
  cluster_in, slot_loop, put_entry, place_for, write_named, fat32_write_file, fat32_read_file,
}
use ronin_os.Fat32.Words.{put_entry-cluster, put_entry-len}
use ronin_os.Fat32.Layout.{Layout, IsCluster}
use ronin_os.Fat32.Steps.{
  bind-ok, then-ok, bind-failed, on_error-ok, on_error-failed, fail_if-ok, or_fail-some,
}
use ronin_os.Fat32.Chain.{entry}
use ronin_os.Fat32.Alloc.{NoFree, Taken, alloc_cluster-Taken}
use ronin_os.Fat32.Directory.{make_name83-first, put_entry-Placed, find_loop-again, find_loop-slot}
use ronin_os.Fat32.Reading.{root_sector, fat32_read_file-found}
use ronin_os.Fat32.Place.{found_at, Old, IsPlace, OldFits, Freed, Placing, place_for-Placing}
use ronin_os.Fat32.Storing.{
  contents, from_place, finish, with_file, write_named-place, finish-ok, with_file-contents,
  with_file-root, with_file-kept,
}
use ronin_os.Fat32.Reliable.{Reliable}

not_ltb : {a b : ℕ} → b ≤ a → ltb a b ≡ false
not_ltb l = ground arith

put_bytes_lem : (bytes : Sector) (len j : ℕ) → j < len → put_bytes zeros 0 bytes len j ≡ bytes j
unfolding put_bytes
put_bytes_lem bytes len j l = ground arith

module _ {D : Type 0} (fs : Fs D) (lay : Layout fs) {sector : D → ℕ → Sector}
    (rel : Reliable fs.dev sector) (s : Store D) (name : Option (List ℕ)) (name83 : ℕ → ℕ)
    (bytes : Sector) (len : ℕ) where
  -- What fat32_read_file answers for the file: the bytes and their number.
  abbrev ReadBack : Store D → ℕ → Type 0
  ReadBack t cap =
      (buf : Sector) × (fat32_read_file (some fs) name cap t
        ≡ (ok (buf, len), record t { last_error = all_ok }))
      × ((i : ℕ) → i < len → buf i ≡ bytes i)

  -- The file is on the disk, in the cluster `k` that was free or the file's own.
  pub record Saved (k : ℕ) (t : Store D) : Type 0 where
    pub no_error : t.last_error ≡ all_ok
    pub in_range : IsCluster fs k
    pub was_free : (entry sector fs s.disk k ≡ 0) ⊎ Old fs lay rel s name83 k
    pub read_back : (cap : ℕ) → len < cap → ReadBack t cap
    pub kept :
        (j : ℕ)
        → fs.data_start_lba ≤ j
        → j ≢ cluster_to_lba fs fs.root_cluster
        → j ≢ cluster_to_lba fs k
        → sector t.disk j ≡ sector s.disk j

  abbrev pub WriteResult : Result (Unit {0}) × Store D → Type 0
  WriteResult r =
      ((found_at fs lay rel s name83 ≡ none)
        × (slot_loop 16 (root_sector fs lay rel s) 0 ≡ none)
        × (r ≡ (failed, record s { last_error = root_full })))
      ⊎ ((NoFree fs lay rel s.disk 2 × (r ≡ (failed, record s { last_error = no_free_cluster })))
          ⊎ ((k : ℕ) × (t : Store D) × Saved k t × (r ≡ (ok tt, t))))

  module _ (valid : make_name83 name ≡ some name83) (small : len ≤ 512) where
    saved :
        (d : D) (off k : ℕ)
        → IsPlace fs lay rel s name83 off
        → ((j : ℕ) → fs.data_start_lba ≤ j → sector d j ≡ sector s.disk j)
        → IsCluster fs k
        → k ≢ fs.root_cluster
        → (entry sector fs s.disk k ≡ 0) ⊎ Old fs lay rel s name83 k
        → Saved k
            (record { disk = with_file fs lay rel s name83 bytes len d off k; last_error = all_ok })
    saved d off k place kept i n was =
        let t : Store D = record {
          disk = with_file fs lay rel s name83 bytes len d off k;
          last_error = all_ok;
        } in
        let sec = root_sector fs lay rel s in
        let root : root_sector fs lay rel t ≡ put_entry sec off name83 k len =
          with_file-root fs lay rel s name83 bytes len d off k kept i n in
        let placed = put_entry-Placed sec off name83 k len (make_name83-first name name83 valid) in
        let found : find_loop 16 (put_entry sec off name83 k len) name83 0 ≡ some off = elim place [
          | inl e ↦ find_loop-again sec _ off name83 placed 16 0 e
          | inr (e, slot) ↦ find_loop-slot sec _ off name83 placed 16 0 e slot
        ] in
        let cluster : cluster_in (root_sector fs lay rel t) off ≡ k =
          ap (λ (p : Sector). cluster_in p off) root
          ∙ put_entry-cluster sec off name83 k len (omega (arith, lay.few)) in
        let size : rd32 (root_sector fs lay rel t) (off + 28) ≡ len =
          ap (λ (p : Sector). rd32 p (off + 28)) root
          ∙ put_entry-len sec off name83 k len (omega arith) in
        let answer : Sector → ℕ → Result (Sector × ℕ) × Store D =
          λ p n. (ok (p, n), record t { last_error = all_ok }) in
        record {
          no_error = refl;
          in_range = i;
          was_free = was;
          read_back = λ cap room. (
            contents fs lay rel s name83 bytes len,
            fat32_read_file-found fs lay rel t name name83 off cap valid
                  (ap (λ (p : Sector). find_loop 16 p name83 0) root ∙ found)
                  (subst (IsCluster fs) (sym cluster) i) (omega (arith, size)) (omega (arith, size))
                ∙ ap (λ p. answer p (rd32 (root_sector fs lay rel t) (off + 28)))
                    (ap (λ c. sector t.disk (cluster_to_lba fs c)) cluster
                      ∙ with_file-contents fs lay rel s name83 bytes len d off k kept i n)
                ∙ ap (answer (contents fs lay rel s name83 bytes len)) size,
            put_bytes_lem bytes len,
          );
          kept = with_file-kept fs lay rel s name83 bytes len d off k kept i n;
        }

    -- From the place on.
    after_place :
        entry sector fs s.disk fs.root_cluster ≢ 0
        → (off : ℕ) (d : D) → IsPlace fs lay rel s name83 off
        → Freed fs lay rel s name83 d
        → (NoFree fs lay rel d 2
            × (alloc_cluster fs (record s { disk = d }) ≡ (failed, record s { disk = d })))
          ⊎ ((k : ℕ) × (d' : D) × Taken fs lay rel d k d'
              × (alloc_cluster fs (record s { disk = d }) ≡ (ok k, record s { disk = d' })))
        → WriteResult (from_place fs lay rel s name83 bytes len off (record s { disk = d }))
    after_place root_used off d place freed (inl (all, e)) =
        let got : from_place fs lay rel s name83 bytes len off (record s { disk = d })
            ≡ (failed, record s { disk = d; last_error = no_free_cluster }) =
          bind-failed (on_error (alloc_cluster fs) no_free_cluster)
            (finish fs lay rel s name83 bytes len off)
            (on_error-failed (alloc_cluster fs) no_free_cluster e) in
        elim freed.same_or_free [
          | inl same ↦ inr (
              inl (
                subst (λ x. NoFree fs lay rel x 2) same all,
                got ∙ ap (λ x. (failed, record s { disk = x; last_error = no_free_cluster })) same,
              ))
          | inr (j, low, high, z) ↦ absurd (all j low high z)
        ]
    after_place root_used off d place freed (inr (k, d', taken, e)) =
        let i : IsCluster fs k = (taken.first.low, taken.first.high) in
        let kept : (j : ℕ) → fs.data_start_lba ≤ j → sector d' j ≡ sector s.disk j =
          λ j h. taken.data_kept j h ∙ freed.data_kept j h in
        let n : k ≢ fs.root_cluster = λ same.
          root_used
            (sym freed.root_kept ∙ ap (entry sector fs d) (sym same) ∙ taken.first.is_free) in
        inr (
          inr (
            k,
            record { disk = with_file fs lay rel s name83 bytes len d' off k; last_error = all_ok },
            saved d' off k place kept i n (freed.free_before k i taken.first.is_free),
            bind-ok (on_error (alloc_cluster fs) no_free_cluster)
                  (finish fs lay rel s name83 bytes len off)
                  (on_error-ok (alloc_cluster fs) no_free_cluster e)
                ∙ finish-ok fs lay rel s name83 bytes len d' off k i small,
          ))

    -- On a disk whose parts fit and that keeps what is written, a file of at most 512 bytes with a valid
    -- name is written by fat32_write_file, if the root directory's cluster is in use and the name's old
    -- entry, if any, has no cluster or one on the disk that is not the root directory's. It fails only
    -- for a name without an entry in a root directory without a free one, or if no cluster has an entry
    -- 0, and then changes no sector. Otherwise it returns 0: the file is in a cluster that was free or was the
    -- file's own, every other sector of the data area but the root directory's is as before, and
    -- fat32_read_file of the name into a buffer with room for a NUL gives the bytes and their number.
    pub fat32_write_file-WriteResult :
        OldFits fs lay rel s name83
        → entry sector fs s.disk fs.root_cluster ≢ 0
        → WriteResult (fat32_write_file (some fs) name (some bytes) len s)
    unfolding fat32_write_file
    fat32_write_file-WriteResult fits root_used =
        subst WriteResult (sym start) (by_place (place_for-Placing fs lay rel s name83 fits))
      where
        act : Action D ℕ
        act = place_for fs (root_sector fs lay rel s) (found_at fs lay rel s name83)

        next : ℕ → Action D (Unit {0})
        next = from_place fs lay rel s name83 bytes len

        start : fat32_write_file (some fs) name (some bytes) len s ≡ (act >>= next) s
        start =
            let named : (ℕ → ℕ) → Action D (Unit {0}) = λ n. write_named fs n bytes len in
            then-ok (fail_if (ltb (mul32 512 fs.sectors_per_cluster) len) file_too_large)
              (or_fail (make_name83 name) invalid_filename >>= named)
              (fail_if-ok s (ltb (mul32 512 fs.sectors_per_cluster) len) file_too_large
                (not_ltb (omega (arith, lay.full, lay.narrow))))
            ∙ bind-ok (or_fail (make_name83 name) invalid_filename) named
                (or_fail-some s (make_name83 name) invalid_filename valid)
            ∙ write_named-place fs lay rel s name83 bytes len

        by_place : Placing fs lay rel s name83 (act s) → WriteResult ((act >>= next) s)
        by_place (inl (e, none_free, r)) = inl (e, none_free, bind-failed act next r)
        by_place (inr (off, d, place, freed, r)) = subst WriteResult (sym (bind-ok act next r)) (
            after_place root_used off d place freed
              (alloc_cluster-Taken fs lay rel (record s { disk = d })))
