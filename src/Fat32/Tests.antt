-- ===== src/Fat32/Tests.antt =====
-- The theorems about kernel/fs/fat32.c at a disk in memory of 300 sectors.
use ronin_os.Base.{
  ℕ, ◌+◌, ◌<◌, ◌*◌, ◌≡◌, ◌≢◌, refl, sym, ◌∙◌, subst, ◌⊎◌, true, Option, some, List, [], ◌∷◌, arith,
  ◌==◌, if◌then◌else◌,
}
use ronin_os.Fat32.{Sector, Device, Fs, Store, ok, failed, all_ok, end_of_chain}
use ronin_os.Fat32.Bytes.{rd16, rd32, wr16, wr32, put_bytes, zero_bytes, zeros}
use ronin_os.Fat32.Names.{make_name83, name83_loop, set_at}
use ronin_os.Fat32.Table.{same_name, find_loop, alloc_cluster}
use ronin_os.Fat32.Files.{put_entry, fat32_write_file, fat32_read_file, fat32_delete_file}
use ronin_os.Fat32.Format.{layout_loop, first_fat_sector, fat32_format, fat32_mount}
use ronin_os.Fat32.Layout.{Layout}
use ronin_os.Fat32.Reliable.{Reliable}
use ronin_os.Fat32.Chain.{entry}
use ronin_os.Fat32.Alloc.{NoFree, Taken, alloc_cluster-Taken}
use ronin_os.Fat32.Place.{OldFits}
use ronin_os.Fat32.Roundtrip.{WriteResult, fat32_write_file-WriteResult}
use ronin_os.Fat32.Deleting.{DeleteResult, fat32_delete_file-DeleteResult}
use ronin_os.Fat32.Mounting.{Sized, mounted, mounted-Layout}
use ronin_os.Fat32.FirstFile.{fat32_write_file-fat32_format}
use ronin_os.Fat32.Formatted.{Fresh, fat32_format-Fresh}

-- A disk is its sectors by their numbers.
abbrev Disk : Type 0
Disk = ℕ → Sector

abbrev ram : Device Disk
ram = record {
  ops = record {
    read = some (λ d lba count. some (d lba));
    write = some (λ d lba count b. ((λ l. if l == lba then b else d l), true));
  };
  sector_size = 512;
  total_sectors = 300;
}

abbrev ram-Reliable : Reliable ram (λ d l. d l)
ram-Reliable = record {
  read = λ d lba count. some (d lba);
  write = λ d lba count b. ((λ l. if l == lba then b else d l), true);
  reads = refl;
  writes = refl;
  read_is = λ d lba l. refl;
  write_done = λ d lba b l. refl;
  write_is = λ d lba b j l. refl;
}

ram-Sized : Sized ram ram-Reliable 3
unfolding layout_loop
ram-Sized = record {
  sectors_512 = refl;
  not_small = omega arith;
  not_large = omega arith;
  chosen = refl;
  room = omega arith;
  enough = omega arith;
}

abbrev ram_fs : Fs Disk
ram_fs = mounted ram ram-Reliable 3

ram-Layout : Layout ram_fs
ram-Layout = mounted-Layout ram ram-Reliable 3 ram-Sized

-- "a", and the name of its entry.
abbrev file_name : Option (List ℕ)
file_name = some (97 ∷ [])

abbrev entry_name : ℕ → ℕ
entry_name = set_at (λ i. 32) 0 65

valid_name : make_name83 file_name ≡ some entry_name
unfolding make_name83 name83_loop
valid_name = refl

-- A dot and nine characters are accepted, and two dots after another.
long_name :
    (n : ℕ → ℕ) × (make_name83 (some (65 ∷ 65 ∷ 65 ∷ 65 ∷ 65 ∷ 65 ∷ 65 ∷ 65 ∷ 65 ∷ [])) ≡ some n)
unfolding make_name83 name83_loop
long_name = (_, refl)

two_dots : (n : ℕ → ℕ) × (make_name83 (some (65 ∷ 46 ∷ 46 ∷ 66 ∷ [])) ≡ some n)
unfolding make_name83 name83_loop
two_dots = (_, refl)

-- Of 291 sectors, the tables get 2 sectors each: 256 entries, for 255 clusters and 2 more.
layout_291 : layout_loop 8 291 1 ≡ some 2
unfolding layout_loop
layout_291 = refl

abbrev blank : Store Disk
blank = record { disk = λ l. zeros; last_error = all_ok }

fat32_format-Fresh_example :
    (t : Store Disk) × (fat32_format (some ram) blank ≡ (ok tt, t)) × Fresh ram ram-Reliable 3 t
fat32_format-Fresh_example = fat32_format-Fresh ram ram-Reliable 3 blank ram-Sized

-- An empty file system.
abbrev empty_disk : Store Disk
empty_disk = record { disk = λ l. if l == 32 then first_fat_sector else zeros; last_error = all_ok }

alloc_cluster-Taken_example :
    (NoFree ram_fs ram-Layout ram-Reliable empty_disk.disk 2
      × (alloc_cluster ram_fs empty_disk ≡ (failed, empty_disk)))
    ⊎ ((k : ℕ) × (d' : Disk) × Taken ram_fs ram-Layout ram-Reliable empty_disk.disk k d'
        × (alloc_cluster ram_fs empty_disk ≡ (ok k, record empty_disk { disk = d' })))
alloc_cluster-Taken_example = alloc_cluster-Taken ram_fs ram-Layout ram-Reliable empty_disk

no_old_file : OldFits ram_fs ram-Layout ram-Reliable empty_disk entry_name
unfolding find_loop
no_old_file k old low = cc old.1

root_in_use : entry (λ (d : Disk) (l : ℕ). d l) ram_fs empty_disk.disk 2 ≢ 0
unfolding first_fat_sector rd32 wr32
root_in_use e = omega arith

abbrev five_bytes : Sector
five_bytes = λ i. 65 + i

fat32_write_file-WriteResult_example :
    WriteResult ram_fs ram-Layout ram-Reliable empty_disk file_name entry_name five_bytes 5
      (fat32_write_file (some ram_fs) file_name (some five_bytes) 5 empty_disk)
fat32_write_file-WriteResult_example =
    fat32_write_file-WriteResult ram_fs ram-Layout ram-Reliable empty_disk file_name entry_name
      five_bytes 5 valid_name (omega arith) no_old_file root_in_use

-- A file of five bytes in cluster 3.
abbrev with_file : Store Disk
with_file = record {
  disk = λ l.
      if l == 38
      then put_entry zeros 0 entry_name 3 5
      else if l == 39
      then five_bytes
      else if l == 32
      then wr32 first_fat_sector 12 end_of_chain
      else zeros;
  last_error = all_ok;
}

old_file_fits : OldFits ram_fs ram-Layout ram-Reliable with_file entry_name
unfolding find_loop same_name put_entry put_bytes zero_bytes wr16 wr32 rd16
old_file_fits k (off, e, c) low =
    let at : off ≡ 0 = cc e in
    let three : k ≡ 3 = sym c ∙ subst (λ x. cluster_at x ≡ 3) (sym at) refl in
    (omega arith, λ r. absurd (omega arith))
  where
    cluster_at : ℕ → ℕ
    cluster_at x =
        rd16 (put_entry zeros 0 entry_name 3 5) (x + 20) * 65536
        + rd16 (put_entry zeros 0 entry_name 3 5) (x + 26)

fat32_delete_file-DeleteResult_example :
    DeleteResult ram_fs ram-Layout ram-Reliable with_file file_name entry_name
      (fat32_delete_file (some ram_fs) file_name with_file)
fat32_delete_file-DeleteResult_example =
    fat32_delete_file-DeleteResult ram_fs ram-Layout ram-Reliable with_file file_name entry_name
      valid_name old_file_fits

fat32_write_file-fat32_format_example :
    (t u : Store Disk) × (fat32_format (some ram) blank ≡ (ok tt, t))
    × (fat32_mount (some ram) t ≡ (ok ram_fs, t))
    × (fat32_write_file (some ram_fs) file_name (some five_bytes) 5 t ≡ (ok tt, u))
    × ((cap : ℕ)
        → 5 < cap
        → (buf : Sector) × (fat32_read_file (some ram_fs) file_name cap u
            ≡ (ok (buf, 5), record u { last_error = all_ok }))
          × ((i : ℕ) → i < 5 → buf i ≡ five_bytes i))
fat32_write_file-fat32_format_example =
    fat32_write_file-fat32_format ram ram-Reliable 3 file_name entry_name five_bytes 5 blank
      ram-Sized valid_name (omega arith)
