-- ===== src/Fat32/Files.antt =====
-- The calls of kernel/fs/fat32.c on files of the root directory. The caller's buffers are functions
-- from the index to the byte, `none` for NULL; a copy behind the end of `sec` is undefined.
use ronin_os.Base.{
  ℕ, zero, suc, ◌+◌, ◌*◌, ◌/◌, ◌%◌, ◌^◌, ◌||◌, Option, none, some, List, [], ◌∷◌, ◌==◌, leb, ltb,
  if◌then◌else◌, add32, mul32,
}
use ronin_os.Fat32.{
  Sector, Fs, ok, failed, fault, Action, pure, fault_if, fail, on_error, ◌>>=◌, ◌>>◌, set_error,
  fail_if, or_fail, io_read, io_write, cluster_to_lba, attr_archive, all_ok, invalid_ls_arguments,
  read_root_failed, invalid_write_arguments, file_too_large, invalid_filename,
  read_root_entry_failed, free_old_cluster_failed, root_full, no_free_cluster, write_entry_failed,
  write_data_failed, invalid_read_arguments, file_not_found, read_entry_failed,
  invalid_file_cluster, buffer_too_small, read_data_failed, invalid_delete_arguments,
  free_cluster_failed, write_marker_failed,
}
use ronin_os.Fat32.Bytes.{rd16, rd32, wr16, wr32, put8, put_bytes, zero_bytes, zeros}
use ronin_os.Fat32.Names.{make_name83}
use ronin_os.Fat32.Table.{is_skipped, find_root_entry, fat_set, alloc_cluster}

-- The name without the NUL behind it, and the size.
pub record Dirent : Type 0 where
  pub name83 : Sector
  pub size : ℕ

-- The loop of fat32_list_root, with `found` less than `max_out`.
unfoldable pub list_loop : ℕ → Sector → (i room : ℕ) → List Dirent
list_loop zero sec i room = []
list_loop (suc rounds) sec i zero = []
list_loop (suc rounds) sec i (suc room) =
    let next = list_loop rounds sec (i + 32) (suc room) in
    let more = list_loop rounds sec (i + 32) room in
    if sec i == 0
    then []
    else if is_skipped sec i
    then next
    else record { name83 = λ k. sec (i + k); size = rd32 sec (i + 28) } ∷ more

-- The loop that looks for an entry that is free.
unfoldable pub slot_loop : ℕ → Sector → ℕ → Option ℕ
slot_loop zero sec off = none
slot_loop (suc rounds) sec off =
    let rest = slot_loop rounds sec (off + 32) in
    if sec off == 0 || sec off == 0xe5 then some off else rest

-- The first cluster of the file of an entry.
abbrev pub cluster_in : Sector → ℕ → ℕ
cluster_in sec off = rd16 sec (off + 20) * 2 ^ 16 + rd16 sec (off + 26)

-- The sector with the entry of a file.
unfoldable pub put_entry : Sector → ℕ → (ℕ → ℕ) → (cluster len : ℕ) → Sector
put_entry sec off name cluster len =
    wr32
      (wr16
        (wr16 (put8 (put_bytes (zero_bytes sec off 32) off name 11) (off + 11) attr_archive)
          (off + 20) (cluster / 2 ^ 16 % 2 ^ 16))
        (off + 26) (cluster % 2 ^ 16))
      (off + 28) len

-- What a call answers, where -1 is no reason to end.
abbrev pub attempt : {D A : Type 0} → Action D A → Action D (Option A)
attempt m s =
    let (r, s') = m s in
    elim r [ ok a ↦ (ok (some a), s') | failed ↦ (ok none, s') | fault ↦ (fault, s') ]

module _ {D : Type 0} where
  unfoldable pub fat32_list_root : Option (Fs D) → ℕ → Action D (List Dirent)
  fat32_list_root none max_out = fail invalid_ls_arguments
  fat32_list_root (some fs) max_out = do
    fail_if (max_out == 0) invalid_ls_arguments
    sec ← on_error (io_read fs.dev (cluster_to_lba fs fs.root_cluster) 1) read_root_failed
    pure (list_loop 16 sec 0 max_out)

  -- The offset for the entry: that of the file's own entry, whose cluster is freed, or a free one.
  unfoldable pub place_for : Fs D → Sector → Option ℕ → Action D ℕ
  place_for fs sec (some off) =
      if leb 2 (cluster_in sec off)
      then (do on_error (fat_set fs (cluster_in sec off) 0) free_old_cluster_failed; pure off)
      else pure off
  place_for fs sec none = or_fail (slot_loop 16 sec 0) root_full

  -- `memset`, `memcpy(sec, data, len)` and the write of the sector.
  unfoldable pub write_data : Fs D → (cluster : ℕ) → Sector → ℕ → Action D (Unit {0})
  write_data fs cluster bytes len = do
    fault_if (ltb 512 len)
    on_error (io_write fs.dev (cluster_to_lba fs cluster) 1 (put_bytes zeros 0 bytes len))
        write_data_failed

  -- From the name on.
  unfoldable pub write_named : Fs D → (ℕ → ℕ) → Sector → ℕ → Action D (Unit {0})
  write_named fs name bytes len = do
    sec ← on_error (io_read fs.dev (cluster_to_lba fs fs.root_cluster) 1) read_root_entry_failed
    found ← attempt (find_root_entry fs name)
    off ← place_for fs sec found
    cluster ← on_error (alloc_cluster fs) no_free_cluster
    on_error
        (io_write fs.dev (cluster_to_lba fs fs.root_cluster) 1 (put_entry sec off name cluster len))
        write_entry_failed
    write_data fs cluster bytes len
    set_error all_ok

  unfoldable pub fat32_write_file :
      Option (Fs D) → Option (List ℕ) → Option Sector → ℕ → Action D (Unit {0})
  fat32_write_file none name bytes len = fail invalid_write_arguments
  fat32_write_file (some fs) name none len = fail invalid_write_arguments
  fat32_write_file (some fs) name (some bytes) len = do
    fail_if (ltb (mul32 512 fs.sectors_per_cluster) len) file_too_large
    name83 ← or_fail (make_name83 name) invalid_filename
    write_named fs name83 bytes len

  -- From the sector with the entry on: the bytes and their number.
  unfoldable pub read_entry : Fs D → Sector → (off out_cap : ℕ) → Action D (Sector × ℕ)
  read_entry fs sec off out_cap = do
    fail_if (ltb (cluster_in sec off) 2) invalid_file_cluster
    fail_if (ltb out_cap (add32 (rd32 sec (off + 28)) 1)) buffer_too_small
    contents ← on_error (io_read fs.dev (cluster_to_lba fs (cluster_in sec off)) 1) read_data_failed
    fault_if (ltb 512 (rd32 sec (off + 28)))
    set_error all_ok
    pure (contents, rd32 sec (off + 28))

  -- The sector with the file's entry, and its offset.
  unfoldable pub find_file : Fs D → (ℕ → ℕ) → Action D (Sector × ℕ)
  find_file fs name = do
    off ← on_error (find_root_entry fs name) file_not_found
    sec ← on_error (io_read fs.dev (cluster_to_lba fs fs.root_cluster) 1) read_entry_failed
    pure (sec, off)

  -- `out` is not NULL.
  unfoldable pub fat32_read_file :
      Option (Fs D) → Option (List ℕ) → (out_cap : ℕ) → Action D (Sector × ℕ)
  fat32_read_file none name out_cap = fail invalid_read_arguments
  fat32_read_file (some fs) name out_cap = do
    fail_if (out_cap == 0) invalid_read_arguments
    name83 ← or_fail (make_name83 name) invalid_filename
    found ← find_file fs name83
    read_entry fs found.0 found.1 out_cap

  -- From the sector with the entry on.
  unfoldable pub delete_entry : Fs D → Sector → ℕ → Action D (Unit {0})
  delete_entry fs sec off = do
    (if leb 2 (cluster_in sec off)
        then on_error (fat_set fs (cluster_in sec off) 0) free_cluster_failed
        else pure tt)
    on_error (io_write fs.dev (cluster_to_lba fs fs.root_cluster) 1 (put8 sec off 0xe5))
        write_marker_failed
    set_error all_ok

  unfoldable pub fat32_delete_file : Option (Fs D) → Option (List ℕ) → Action D (Unit {0})
  fat32_delete_file none name = fail invalid_delete_arguments
  fat32_delete_file (some fs) name = do
    name83 ← or_fail (make_name83 name) invalid_filename
    found ← find_file fs name83
    delete_entry fs found.0 found.1
