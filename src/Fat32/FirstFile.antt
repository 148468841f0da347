-- ===== src/Fat32/FirstFile.antt =====
-- The calls of kernel/fs/fat32.c in a row: fat32_format, fat32_mount, fat32_write_file.
use ronin_os.Base.{ℕ, ◌≤◌, ◌<◌, ◌≡◌, refl, sym, ◌∙◌, ap, inl, inr, Option, none, some, List, arith}
use ronin_os.Fat32.{Sector, Device, Store, ok, all_ok}
use ronin_os.Fat32.Bytes.{zeros}
use ronin_os.Fat32.Names.{make_name83}
use ronin_os.Fat32.Table.{find_loop}
use ronin_os.Fat32.Files.{slot_loop, fat32_write_file, fat32_read_file}
use ronin_os.Fat32.Format.{fat32_format, fat32_mount}
use ronin_os.Fat32.Place.{found_at, OldFits}
use ronin_os.Fat32.Roundtrip.{Saved, WriteResult, fat32_write_file-WriteResult}
use ronin_os.Fat32.Mounting.{Sized, mounted}
use ronin_os.Fat32.Formatted.{Fresh, fat32_format-Fresh}
use ronin_os.Fat32.Reliable.{Reliable}

module _ {D : Type 0} (dev : Device D) {sector : D → ℕ → Sector} (rel : Reliable dev sector) (n : ℕ)
    (name : Option (List ℕ)) (name83 : ℕ → ℕ) (bytes : Sector) (len : ℕ) where
  -- In an empty root directory no name is found, and the first entry is free.
  find_loop-zeros : find_loop 16 zeros name83 0 ≡ none
  unfolding find_loop
  find_loop-zeros = refl

  slot_loop-zeros : slot_loop 16 zeros 0 ≡ some 0
  unfolding slot_loop
  slot_loop-zeros = refl

  first_write :
      (t : Store D) (f : Fresh dev rel n t)
      → Sized dev rel n
      → make_name83 name ≡ some name83
      → len ≤ 512
      → (k : ℕ) × (u : Store D) × Saved (mounted dev rel n) f.layout rel t name name83 bytes len k u
        × (fat32_write_file (some (mounted dev rel n)) name (some bytes) len t ≡ (ok tt, u))
  first_write t f sized valid small =
      let none_found : found_at (mounted dev rel n) f.layout rel t name83 ≡ none =
        ap (λ (p : Sector). find_loop 16 p name83 0) f.root_empty ∙ find_loop-zeros in
      let fits : OldFits (mounted dev rel n) f.layout rel t name83 =
        λ k old low. clash (sym none_found ∙ old.1) in
      succeeded (
        fat32_write_file-WriteResult (mounted dev rel n) f.layout rel t name name83 bytes len valid
          small fits f.root_used)
    where
      clash : {A : Type 0} {off : ℕ} → none ≡ some off → A
      clash e = absurd (cc e)

      succeeded :
          WriteResult
            (mounted dev rel n)
            f.layout
            rel
            t
            name
            name83
            bytes
            len
            (fat32_write_file (some (mounted dev rel n)) name (some bytes) len t)
          → (k : ℕ) × (u : Store D) × Saved
              (mounted dev rel n)
              f.layout
              rel
              t
              name
              name83
              bytes
              len
              k
              u
            × (fat32_write_file (some (mounted dev rel n)) name (some bytes) len t ≡ (ok tt, u))
      succeeded (inl (e, no_slot, r)) =
          clash (sym no_slot ∙ ap (λ (p : Sector). slot_loop 16 p 0) f.root_empty ∙ slot_loop-zeros)
      succeeded (inr (inl (no_cluster, r))) =
          absurd (no_cluster 3 (omega arith) (omega (arith, sized.room)) f.next_free)
      succeeded (inr (inr done)) = done

  -- On a device that keeps what is written, with sectors of 512 bytes, from 256 to 2 ^ 28 of them, if the
  -- size chosen for the tables leaves room for data and has an entry for every cluster: fat32_format
  -- returns 0, fat32_mount then gives the file system, and fat32_write_file then writes the first file,
  -- of a valid name and at most 512 bytes. It returns 0, and fat32_read_file of the name into a buffer
  -- with room for a NUL gives the bytes and their number.
  pub fat32_write_file-fat32_format :
      (s : Store D)
      → Sized dev rel n
      → make_name83 name ≡ some name83
      → len ≤ 512
      → (t u : Store D) × (fat32_format (some dev) s ≡ (ok tt, t))
        × (fat32_mount (some dev) t ≡ (ok (mounted dev rel n), t))
        × (fat32_write_file (some (mounted dev rel n)) name (some bytes) len t ≡ (ok tt, u))
        × ((cap : ℕ)
            → len < cap
            → (buf : Sector) × (fat32_read_file (some (mounted dev rel n)) name cap u
                ≡ (ok (buf, len), record u { last_error = all_ok }))
              × ((i : ℕ) → i < len → buf i ≡ bytes i))
  fat32_write_file-fat32_format s sized valid small =
      let (t, formatted, fresh) = fat32_format-Fresh dev rel n s sized in
      let (k, u, saved, written) = first_write t fresh sized valid small in
      (t, u, formatted, fresh.mounts, written, saved.read_back)
