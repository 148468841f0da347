-- ===== src/Fat32.antt =====
-- kernel/fs/fat32.c and fat32.h: FAT32 with one root directory sector and files of one cluster. A sector
-- buffer is a function from the index to the byte, bytes are below 256, and a name is its text without
-- the terminating NUL. The block device is its two functions on a state `D` of its own, `none` for NULL;
-- that reading leaves this state alone is part of the record. `g_fat32_last_error` is a message.
pub mod Bytes
pub mod Names
pub mod Table
pub mod Format
pub mod Files
pub mod Steps
pub mod Words
pub mod Reliable
pub mod Layout
pub mod Chain
pub mod Alloc
pub mod Directory
pub mod Reading
pub mod Place
pub mod Storing
pub mod Roundtrip
pub mod Deleting
pub mod BootSector
pub mod Mounting
pub mod Formatted
pub mod FirstFile
mod Tests
use ronin_os.Base.{
  ℕ, ◌+◌, ◌-◌, ◌*◌, ◌/◌, ◌%◌, Bool, true, false, not, ◌&&◌, ◌||◌, Option, none, some, List, ◌==◌,
  leb, ltb, if◌then◌else◌, add32, sub32, mul32,
}

-- FAT32_ATTR_ARCHIVE
abbrev pub attr_archive : ℕ
attr_archive = 0x20

-- FAT32_EOC
abbrev pub end_of_chain : ℕ
end_of_chain = 0x0fff_ffff

abbrev pub Sector : Type 0
Sector = ℕ → ℕ

-- The texts that fat32_set_error is given.
pub data Message : Type 0 where
  all_ok device_or_callback_missing invalid_read_call block_read_failed invalid_write_call : Message
  block_write_failed no_read_write_support sector_size_not_512 disk_too_small : Message
  no_room_for_metadata no_room_for_data not_enough_clusters write_boot_failed : Message
  write_fsinfo_failed write_backup_area_failed cannot_read_boot write_backup_boot_failed : Message
  read_fsinfo_failed write_backup_fsinfo_failed write_fat0_failed write_fat1_failed : Message
  write_root_failed mount_arguments_invalid unsupported_sector_size boot_signature_missing : Message
  invalid_bytes_per_sector not_fat32 no_data_area invalid_cluster_count invalid_ls_arguments :
      Message
  read_root_failed invalid_write_arguments file_too_large invalid_filename : Message
  read_root_entry_failed free_old_cluster_failed root_full no_free_cluster : Message
  write_entry_failed write_data_failed invalid_read_arguments file_not_found : Message
  read_entry_failed invalid_file_cluster buffer_too_small read_data_failed : Message
  invalid_delete_arguments free_cluster_failed write_marker_failed : Message

-- `read(lba, count)` answers the bytes, or `none` if it does not return 0; `write(lba, count, bytes)`
-- whether it returns 0.
pub record BlockOps (D : Type 0) : Type 0 where
  pub read : Option (D → (lba count : ℕ) → Option Sector)
  pub write : Option (D → (lba count : ℕ) → Sector → D × Bool)

pub record Device (D : Type 0) : Type 0 where
  pub ops : BlockOps D
  pub sector_size : ℕ
  pub total_sectors : ℕ

pub record Fs (D : Type 0) : Type 0 where
  pub dev : Device D
  pub sectors_per_cluster : ℕ
  pub reserved_sectors : ℕ
  pub fat_count : ℕ
  pub sectors_per_fat : ℕ
  pub root_cluster : ℕ
  pub fat_start_lba : ℕ
  pub data_start_lba : ℕ
  pub total_clusters : ℕ

-- What the calls work on.
pub record Store (D : Type 0) : Type 0 where
  pub disk : D
  pub last_error : Message

-- How a call ends: it returns 0, it returns -1, or it does what C leaves undefined.
pub data Result (A : Type 0) : Type 0 where
  ok : A → Result A
  failed : Result A
  fault : Result A

abbrev pub Action : Type 0 → Type 0 → Type 0
Action D A = Store D → Result A × Store D

module _ {D A : Type 0} where
  abbrev pub pure : A → Action D A
  pure a s = (ok a, s)

  -- `return -1`
  abbrev pub give_up : Action D A
  give_up s = (failed, s)

  -- `fat32_set_error(e); return -1`
  abbrev pub fail : Message → Action D A
  fail e s = (failed, record s { last_error = e })

  -- The message that a caller sets when a call has not returned 0.
  abbrev pub on_error : Action D A → Message → Action D A
  on_error m e s =
      let (r, s') = m s in
      elim r [
        | ok a ↦ (ok a, s')
        | failed ↦ (failed, record s' { last_error = e })
        | fault ↦ (fault, s')
      ]

infixl 5 ◌>>=◌ ◌>>◌
abbrev pub ◌>>=◌ : {D A B : Type 0} → Action D A → (A → Action D B) → Action D B
◌>>=◌ m f s =
    let (r, s') = m s in elim r [ ok a ↦ f a s' | failed ↦ (failed, s') | fault ↦ (fault, s') ]

abbrev pub ◌>>◌ : {D B : Type 0} → Action D (Unit {0}) → Action D B → Action D B
m >> k = m >>= λ _. k

module _ {D : Type 0} where
  abbrev pub set_error : Message → Action D (Unit {0})
  set_error e s = (ok tt, record s { last_error = e })

  -- `if (c) { fat32_set_error(e); return -1; }`
  abbrev pub fail_if : Bool → Message → Action D (Unit {0})
  fail_if c e s = if c then (failed, record s { last_error = e }) else (ok tt, s)

  -- What C leaves undefined if `c`.
  abbrev pub fault_if : Bool → Action D (Unit {0})
  fault_if c s = if c then (fault, s) else (ok tt, s)

  -- What a NULL argument is refused with.
  abbrev pub or_fail : {A : Type 0} → Option A → Message → Action D A
  or_fail none e = fail e
  or_fail (some a) e = pure a

  -- The device, its block device and the buffer are not NULL, as at every caller.
  unfoldable pub io_read : Device D → (lba count : ℕ) → Action D Sector
  io_read dev lba count s = elim dev.ops.read [
    | none ↦ (failed, record s { last_error = invalid_read_call })
    | some read ↦
        if count == 0
        then (failed, record s { last_error = invalid_read_call })
        else elim (read s.disk lba count) [
          | none ↦ (failed, record s { last_error = block_read_failed })
          | some sec ↦ (ok sec, s)
        ]
  ]

  unfoldable pub io_write : Device D → (lba count : ℕ) → Sector → Action D (Unit {0})
  io_write dev lba count buf s = elim dev.ops.write [
    | none ↦ (failed, record s { last_error = invalid_write_call })
    | some write ↦
        if count == 0
        then (failed, record s { last_error = invalid_write_call })
        else let (disk, done) = write s.disk lba count buf in
          if done
          then (ok tt, record s { disk = disk })
          else (failed, record s { disk = disk; last_error = block_write_failed })
  ]

  -- `dev` and `bdev` are not NULL; a device without a read function is refused.
  unfoldable pub device_from_blockdev :
      BlockOps D → (sector_size sector_count : ℕ) → Action D (Device D)
  device_from_blockdev ops sector_size sector_count = elim ops.read [
    | none ↦ fail device_or_callback_missing
    | some read ↦
        pure (record { ops = ops; sector_size = sector_size; total_sectors = sector_count })
  ]

  abbrev pub cluster_to_lba : Fs D → ℕ → ℕ
  cluster_to_lba fs cluster =
      add32 fs.data_start_lba (mul32 (sub32 cluster 2) fs.sectors_per_cluster)
