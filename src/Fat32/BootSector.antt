-- ===== src/Fat32/BootSector.antt =====
-- The boot sector that fat32_format of kernel/fs/fat32.c writes, as fat32_mount reads it.
use ronin_os.Base.{ℕ, ◌+◌, ◌*◌, ◌/◌, ◌%◌, ◌^◌, ◌<◌, ◌≡◌, refl, arith}
use ronin_os.Fat32.Bytes.{rd16, rd32, wr16, wr32, put_bytes}
use ronin_os.Fat32.Format.{boot_sector}

-- The fields of the boot sector of a disk.
module _ (total n : ℕ) where
  pub boot-bytes_per_sector : rd16 (boot_sector total n) 11 ≡ 512
  unfolding boot_sector rd16 wr16 wr32 put_bytes
  boot-bytes_per_sector = refl

  pub boot-root_entries : rd16 (boot_sector total n) 17 ≡ 0
  unfolding boot_sector rd16 wr16 wr32 put_bytes
  boot-root_entries = refl

  pub boot-reserved : rd16 (boot_sector total n) 14 ≡ 32
  unfolding boot_sector rd16 wr16 wr32 put_bytes
  boot-reserved = refl

  pub boot-cluster : boot_sector total n 13 ≡ 1
  unfolding boot_sector wr16 wr32 put_bytes
  boot-cluster = refl

  pub boot-tables : boot_sector total n 16 ≡ 2
  unfolding boot_sector wr16 wr32 put_bytes
  boot-tables = refl

  pub boot-signature0 : boot_sector total n 510 ≡ 0x55
  unfolding boot_sector wr16 wr32 put_bytes
  boot-signature0 = refl

  pub boot-signature1 : boot_sector total n 511 ≡ 0xaa
  unfolding boot_sector wr16 wr32 put_bytes
  boot-signature1 = refl

  pub boot-root : rd32 (boot_sector total n) 44 ≡ 2
  unfolding boot_sector rd32 wr16 wr32 put_bytes
  boot-root = refl

  four : ℕ → ℕ
  four v =
      v % 256
      + 256 * (v / 256 % 256)
      + 256 ^ 2 * (v / 256 ^ 2 % 256)
      + 256 ^ 3 * (v / 256 ^ 3 % 256)

  four_lem : (v : ℕ) → v < 2 ^ 32 → four v ≡ v
  unfolding four
  four_lem v l = omega arith

  pub boot-total : total < 2 ^ 32 → rd32 (boot_sector total n) 32 ≡ total
  unfolding boot_sector rd32 wr16 wr32 put_bytes four
  boot-total l = four_lem total l

  pub boot-fat_size : n < 2 ^ 32 → rd32 (boot_sector total n) 36 ≡ n
  unfolding boot_sector rd32 wr16 wr32 put_bytes four
  boot-fat_size l = four_lem n l
