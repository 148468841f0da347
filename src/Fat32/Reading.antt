-- ===== src/Fat32/Reading.antt =====
-- fat32_read_file of kernel/fs/fat32.c where the root directory has an entry of the name.
use ronin_os.Base.{
  ℕ, ◌+◌, ◌≤◌, ◌<◌, ◌≡◌, ◌∙◌, ap, Option, none, some, List, arith, ◌==◌, ltb, add32,
}
use ronin_os.Fat32.{
  Sector, Fs, Store, ok, failed, Action, give_up, pure, fail_if, fault_if, or_fail, on_error,
  set_error, ◌>>=◌, ◌>>◌, io_read, cluster_to_lba, all_ok, invalid_read_arguments, invalid_filename,
  file_not_found, read_entry_failed, invalid_file_cluster, buffer_too_small, read_data_failed,
}
use ronin_os.Fat32.Bytes.{rd32}
use ronin_os.Fat32.Names.{make_name83}
use ronin_os.Fat32.Table.{find_loop, find_root_entry}
use ronin_os.Fat32.Files.{cluster_in, find_file, read_entry, fat32_read_file}
use ronin_os.Fat32.Layout.{Layout, IsCluster, cluster_to_lba-lt}
use ronin_os.Fat32.Steps.{
  bind-ok, then-ok, bind-failed, on_error-ok, on_error-failed, fail_if-ok, fault_if-ok,
  or_fail-some,
}
use ronin_os.Fat32.Reliable.{Reliable, io_read-ok}

module _ {D : Type 0} (fs : Fs D) (lay : Layout fs) {sector : D → ℕ → Sector}
    (rel : Reliable fs.dev sector) (s : Store D) where
  -- The sector of the root directory.
  abbrev pub root_lba : ℕ
  root_lba = cluster_to_lba fs fs.root_cluster

  abbrev pub root_sector : Sector
  root_sector = sector s.disk root_lba

  pub read_root : io_read fs.dev root_lba 1 s ≡ (ok root_sector, s)
  read_root =
      io_read-ok rel root_lba s
        (cluster_to_lba-lt fs lay fs.root_cluster (lay.root_low, lay.root_high))

  module _ (name : ℕ → ℕ) where
    answer : Option ℕ → Action D ℕ
    answer o = elim o [ none ↦ give_up | some off ↦ pure off ]

    find_root_entry-answer : find_root_entry fs name s ≡ answer (find_loop 16 root_sector name 0) s
    unfolding find_root_entry answer
    find_root_entry-answer =
        bind-ok (io_read fs.dev root_lba 1) (λ sec. answer (find_loop 16 sec name 0)) read_root

    pub find_root_entry-some :
        (off : ℕ)
        → find_loop 16 root_sector name 0 ≡ some off
        → find_root_entry fs name s ≡ (ok off, s)
    unfolding answer
    find_root_entry-some off h = find_root_entry-answer ∙ ap (λ o. answer o s) h

    pub find_root_entry-none :
        find_loop 16 root_sector name 0 ≡ none → find_root_entry fs name s ≡ (failed, s)
    unfolding answer
    find_root_entry-none h = find_root_entry-answer ∙ ap (λ o. answer o s) h

    pub find_file-some :
        (off : ℕ)
        → find_loop 16 root_sector name 0 ≡ some off
        → find_file fs name s ≡ (ok (root_sector, off), s)
    unfolding find_file
    find_file-some off h =
        bind-ok (on_error (find_root_entry fs name) file_not_found)
          (λ off. on_error (io_read fs.dev root_lba 1) read_entry_failed >>= λ sec. pure (sec, off))
          (on_error-ok (find_root_entry fs name) file_not_found (find_root_entry-some off h))
        ∙ bind-ok (on_error (io_read fs.dev root_lba 1) read_entry_failed) (λ sec. pure (sec, off))
            (on_error-ok (io_read fs.dev root_lba 1) read_entry_failed read_root)

    pub find_file-none :
        find_loop 16 root_sector name 0 ≡ none
        → find_file fs name s ≡ (failed, record s { last_error = file_not_found })
    unfolding find_file
    find_file-none h =
        bind-failed (on_error (find_root_entry fs name) file_not_found)
          (λ off. on_error (io_read fs.dev root_lba 1) read_entry_failed >>= λ sec. pure (sec, off))
          (on_error-failed (find_root_entry fs name) file_not_found (find_root_entry-none h))

  -- From an entry whose cluster is on the disk, of a file of 512 bytes at most.
  read_entry-ok :
      (sec : Sector) (off cap : ℕ)
      → IsCluster fs (cluster_in sec off)
      → rd32 sec (off + 28) ≤ 512
      → rd32 sec (off + 28) < cap
      → read_entry fs sec off cap s ≡ (
        ok (sector s.disk (cluster_to_lba fs (cluster_in sec off)), rd32 sec (off + 28)),
        record s { last_error = all_ok },
      )
  unfolding read_entry
  read_entry-ok sec off cap i small room =
      let k = cluster_in sec off in
      let len = rd32 sec (off + 28) in
      let finish : Sector → Action D (Sector × ℕ) =
        λ contents. set_error all_ok >> pure (contents, len) in
      let checked : Sector → Action D (Sector × ℕ) =
        λ contents. fault_if (ltb 512 len) >> finish contents in
      let got : Action D Sector =
        on_error (io_read fs.dev (cluster_to_lba fs k) 1) read_data_failed in
      then-ok (fail_if (ltb k 2) invalid_file_cluster)
        (fail_if (ltb cap (add32 len 1)) buffer_too_small >> (got >>= checked))
        (fail_if-ok s (ltb k 2) invalid_file_cluster (ground arith))
      ∙ then-ok (fail_if (ltb cap (add32 len 1)) buffer_too_small) (got >>= checked)
          (fail_if-ok s (ltb cap (add32 len 1)) buffer_too_small (ground arith))
      ∙ bind-ok got checked (
          on_error-ok (io_read fs.dev (cluster_to_lba fs k) 1) read_data_failed
            (io_read-ok rel (cluster_to_lba fs k) s (cluster_to_lba-lt fs lay k i)))
      ∙ then-ok (fault_if (ltb 512 len)) (finish (sector s.disk (cluster_to_lba fs k)))
          (fault_if-ok s (ltb 512 len) (ground arith))

  -- fat32_read_file reads the file of an entry that is found.
  pub fat32_read_file-found :
      (name : Option (List ℕ)) (name83 : ℕ → ℕ) (off cap : ℕ)
      → make_name83 name ≡ some name83
      → find_loop 16 root_sector name83 0 ≡ some off
      → IsCluster fs (cluster_in root_sector off)
      → rd32 root_sector (off + 28) ≤ 512
      → rd32 root_sector (off + 28) < cap
      → fat32_read_file (some fs) name cap s ≡ (
        ok (
          sector s.disk (cluster_to_lba fs (cluster_in root_sector off)),
          rd32 root_sector (off + 28),
        ),
        record s { last_error = all_ok },
      )
  unfolding fat32_read_file
  fat32_read_file-found name name83 off cap valid found i small room =
      let entry_of : Sector × ℕ → Action D (Sector × ℕ) = λ p. read_entry fs p.0 p.1 cap in
      let named : (ℕ → ℕ) → Action D (Sector × ℕ) = λ n. find_file fs n >>= entry_of in
      then-ok (fail_if (cap == 0) invalid_read_arguments)
        (or_fail (make_name83 name) invalid_filename >>= named)
        (fail_if-ok s (cap == 0) invalid_read_arguments (ground arith))
      ∙ bind-ok (or_fail (make_name83 name) invalid_filename) named
          (or_fail-some s (make_name83 name) invalid_filename valid)
      ∙ bind-ok (find_file fs name83) entry_of (find_file-some name83 off found)
      ∙ read_entry-ok root_sector off cap i small room

  pub fat32_read_file-missing :
      (name : Option (List ℕ)) (name83 : ℕ → ℕ) (cap : ℕ)
      → make_name83 name ≡ some name83
      → find_loop 16 root_sector name83 0 ≡ none
      → 0 < cap
      → fat32_read_file (some fs) name cap s ≡ (failed, record s { last_error = file_not_found })
  unfolding fat32_read_file
  fat32_read_file-missing name name83 cap valid none_there room =
      let entry_of : Sector × ℕ → Action D (Sector × ℕ) = λ p. read_entry fs p.0 p.1 cap in
      let named : (ℕ → ℕ) → Action D (Sector × ℕ) = λ n. find_file fs n >>= entry_of in
      then-ok (fail_if (cap == 0) invalid_read_arguments)
        (or_fail (make_name83 name) invalid_filename >>= named)
        (fail_if-ok s (cap == 0) invalid_read_arguments (ground arith))
      ∙ bind-ok (or_fail (make_name83 name) invalid_filename) named
          (or_fail-some s (make_name83 name) invalid_filename valid)
      ∙ bind-failed (find_file fs name83) entry_of (find_file-none name83 none_there)
