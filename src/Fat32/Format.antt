-- ===== src/Fat32/Format.antt =====
-- fat32_format and fat32_mount of kernel/fs/fat32.c.
use Prim.Native.Nat.{bit_and}
use ronin_os.Base.{
  ℕ, zero, suc, ◌/◌, not, ◌||◌, Option, none, some, List, [], ◌∷◌, ◌==◌, leb, ltb, if◌then◌else◌,
  is_some, add32, sub32, mul32,
}
use ronin_os.Fat32.{
  Sector, Device, Fs, Action, pure, fault_if, fail, on_error, ◌>>=◌, ◌>>◌, set_error, fail_if,
  or_fail, io_read, io_write, end_of_chain, all_ok, no_read_write_support, sector_size_not_512,
  disk_too_small, no_room_for_metadata, no_room_for_data, not_enough_clusters, write_boot_failed,
  write_fsinfo_failed, write_backup_area_failed, cannot_read_boot, write_backup_boot_failed,
  read_fsinfo_failed, write_backup_fsinfo_failed, write_fat0_failed, write_fat1_failed,
  write_root_failed, mount_arguments_invalid, unsupported_sector_size, boot_signature_missing,
  invalid_bytes_per_sector, not_fat32, no_data_area, invalid_cluster_count,
}
use ronin_os.Fat32.Bytes.{rd16, rd32, wr16, wr32, put8, put_text, zeros}

-- A chain of writes to a buffer.
infixl 20 ◌|>◌
abbrev ◌|>◌ : Sector → (Sector → Sector) → Sector
p |> f = f p

abbrev byte : ℕ → ℕ → Sector → Sector
byte i v p = put8 p i v

abbrev word : ℕ → ℕ → Sector → Sector
word i v p = wr16 p i v

abbrev long : ℕ → ℕ → Sector → Sector
long i v p = wr32 p i v

abbrev text : ℕ → List ℕ → Sector → Sector
text i t p = put_text p i t

abbrev pub reserved_sectors_of : ℕ
reserved_sectors_of = 32

abbrev pub fat_count_of : ℕ
fat_count_of = 2

-- `reserved + fat_count * sectors_per_fat`
abbrev pub metadata : ℕ → ℕ
metadata sectors_per_fat = add32 reserved_sectors_of (mul32 fat_count_of sectors_per_fat)

-- `((total_clusters + 2) * 4 + 511 & ~511) / 512`, with a sector in a cluster
abbrev pub fat_sectors : ℕ → ℕ
fat_sectors total_clusters =
    bit_and (add32 (mul32 (add32 total_clusters 2) 4) 511) 0xffff_fe00 / 512

-- The loop that looks for `sectors_per_fat`; `none` if the metadata do not fit.
unfoldable pub layout_loop : ℕ → (total sectors_per_fat : ℕ) → Option ℕ
layout_loop zero total n = some n
layout_loop (suc rounds) total n =
    let wanted = fat_sectors (sub32 total (metadata n)) in
    let rest = layout_loop rounds total wanted in
    if leb total (add32 (metadata n) 1) then none else if wanted == n then some n else rest

-- "RONINOS ", "RONINOS    " and "FAT32   "
abbrev oem_name : List ℕ
oem_name = 82 ∷ 79 ∷ 78 ∷ 73 ∷ 78 ∷ 79 ∷ 83 ∷ 32 ∷ []

abbrev volume_label : List ℕ
volume_label = 82 ∷ 79 ∷ 78 ∷ 73 ∷ 78 ∷ 79 ∷ 83 ∷ 32 ∷ 32 ∷ 32 ∷ 32 ∷ []

abbrev fs_type : List ℕ
fs_type = 70 ∷ 65 ∷ 84 ∷ 51 ∷ 50 ∷ 32 ∷ 32 ∷ 32 ∷ []

unfoldable pub boot_sector : (total sectors_per_fat : ℕ) → Sector
boot_sector total sectors_per_fat =
    zeros
    |> byte 0 0xeb
    |> byte 1 0x58
    |> byte 2 0x90
    |> text 3 oem_name
    |> word 11 512
    |> byte 13 1
    |> word 14 reserved_sectors_of
    |> byte 16 fat_count_of
    |> word 17 0
    |> word 19 0
    |> byte 21 0xf8
    |> word 22 0
    |> word 24 63
    |> word 26 255
    |> long 28 0
    |> long 32 total
    |> long 36 sectors_per_fat
    |> word 40 0
    |> word 42 0
    |> long 44 2
    |> word 48 1
    |> word 50 6
    |> byte 64 0x80
    |> byte 66 0x29
    |> long 67 0x1234_5678
    |> text 71 volume_label
    |> text 82 fs_type
    |> byte 510 0x55
    |> byte 511 0xaa

unfoldable pub info_sector : ℕ → Sector
info_sector free_clusters =
    zeros
    |> long 0 0x4161_5252
    |> long 484 0x6141_7272
    |> long 488 free_clusters
    |> long 492 3
    |> byte 510 0x55
    |> byte 511 0xaa

abbrev pub signature_sector : Sector
signature_sector = zeros |> byte 510 0x55 |> byte 511 0xaa

-- The first sector of each table.
unfoldable pub first_fat_sector : Sector
first_fat_sector = zeros |> long 0 0x0fff_fff8 |> long 4 end_of_chain |> long 8 end_of_chain

-- `total_sectors` of the boot sector.
abbrev pub sectors_in : Sector → ℕ
sectors_in sec = if rd32 sec 32 == 0 then rd16 sec 19 else rd32 sec 32

-- The fields that fat32_mount fills before it knows the number of clusters.
abbrev pub data_start_in : Sector → ℕ
data_start_in sec = add32 (rd16 sec 14) (mul32 (sec 16) (rd32 sec 36))

module _ {D : Type 0} where
  -- From the boot sector on.
  unfoldable pub write_layout :
      Device D → (sectors_per_fat total_clusters : ℕ) → Action D (Unit {0})
  write_layout dev n total_clusters = do
    on_error (io_write dev 0 1 (boot_sector dev.total_sectors n)) write_boot_failed
    on_error (io_write dev 1 1 (info_sector (sub32 total_clusters 1))) write_fsinfo_failed
    on_error (io_write dev 2 1 signature_sector) write_backup_area_failed
    boot ← on_error (io_read dev 0 1) cannot_read_boot
    on_error (io_write dev 6 1 boot) write_backup_boot_failed
    info ← on_error (io_read dev 1 1) read_fsinfo_failed
    on_error (io_write dev 7 1 info) write_backup_fsinfo_failed
    on_error (io_write dev reserved_sectors_of 1 first_fat_sector) write_fat0_failed
    on_error (io_write dev (add32 reserved_sectors_of n) 1 first_fat_sector) write_fat1_failed
    on_error (io_write dev (metadata n) 1 zeros) write_root_failed
    set_error all_ok

  unfoldable pub fat32_format : Option (Device D) → Action D (Unit {0})
  fat32_format none = do set_error all_ok; fail no_read_write_support
  fat32_format (some dev) = do
    set_error all_ok
    fail_if (not (is_some dev.ops.read) || not (is_some dev.ops.write)) no_read_write_support
    fail_if (not (dev.sector_size == 512)) sector_size_not_512
    fail_if (ltb dev.total_sectors 256) disk_too_small
    n ← or_fail (layout_loop 8 dev.total_sectors 1) no_room_for_metadata
    fail_if (leb dev.total_sectors (add32 (metadata n) 1)) no_room_for_data
    fail_if (ltb (sub32 dev.total_sectors (metadata n)) 2) not_enough_clusters
    write_layout dev n (sub32 dev.total_sectors (metadata n))

  abbrev pub fs_of : Device D → Sector → Fs D
  fs_of dev sec = record {
    dev = dev;
    sectors_per_cluster = sec 13;
    reserved_sectors = rd16 sec 14;
    fat_count = sec 16;
    sectors_per_fat = rd32 sec 36;
    root_cluster = rd32 sec 44;
    fat_start_lba = rd16 sec 14;
    data_start_lba = data_start_in sec;
    total_clusters = sub32 (sectors_in sec) (data_start_in sec) / sec 13;
  }

  -- `fs` is not NULL. A cluster of no sectors is a division by zero.
  unfoldable pub fat32_mount : Option (Device D) → Action D (Fs D)
  fat32_mount none = do set_error all_ok; fail mount_arguments_invalid
  fat32_mount (some dev) = do
    set_error all_ok
    fail_if (not (dev.sector_size == 512)) unsupported_sector_size
    sec ← on_error (io_read dev 0 1) cannot_read_boot
    fail_if (not (sec 510 == 0x55) || not (sec 511 == 0xaa)) boot_signature_missing
    fail_if (not (rd16 sec 11 == 512)) invalid_bytes_per_sector
    fail_if (not (rd16 sec 17 == 0)) not_fat32
    fail_if (leb (sectors_in sec) (data_start_in sec)) no_data_area
    fault_if (sec 13 == 0)
    fail_if ((fs_of dev sec).total_clusters == 0) invalid_cluster_count
    set_error all_ok
    pure (fs_of dev sec)
