-- ===== src/Fat32/Mounting.antt =====
-- fat32_mount of kernel/fs/fat32.c on a disk with the boot sector that fat32_format writes.
use ronin_os.Base.{
  ℕ, ◌+◌, ◌-◌, ◌*◌, ◌^◌, ◌≤◌, ◌<◌, ◌≡◌, ◌∙◌, ap, false, not, ◌||◌, leb, some, arith, ◌==◌,
}
use ronin_os.Fat32.{
  Sector, Device, Fs, Store, ok, Action, pure, fail_if, fault_if, on_error, set_error, ◌>>=◌, ◌>>◌,
  io_read, all_ok, boot_signature_missing, cannot_read_boot, invalid_bytes_per_sector,
  invalid_cluster_count, no_data_area, not_fat32, unsupported_sector_size,
}
use ronin_os.Fat32.Bytes.{rd16}
use ronin_os.Fat32.Format.{
  metadata, layout_loop, boot_sector, sectors_in, data_start_in, fs_of, fat32_mount,
}
use ronin_os.Fat32.BootSector.{
  boot-bytes_per_sector, boot-root_entries, boot-reserved, boot-cluster, boot-tables,
  boot-signature0, boot-signature1, boot-root, boot-total, boot-fat_size,
}
use ronin_os.Fat32.Layout.{Layout}
use ronin_os.Fat32.Steps.{bind-ok, then-ok, on_error-ok, fail_if-ok, fault_if-ok}
use ronin_os.Fat32.Reliable.{Reliable, io_read-ok}

module _ {D : Type 0} (dev : Device D) {sector : D → ℕ → Sector} (rel : Reliable dev sector)
    (n : ℕ) where
  -- A disk of at most 2 ^ 28 sectors with room for the tables, which have an entry for each cluster.
  pub record Sized : Type 0 where
    pub sectors_512 : dev.sector_size ≡ 512
    pub not_small : 256 ≤ dev.total_sectors
    pub not_large : dev.total_sectors ≤ 2 ^ 28
    pub chosen : layout_loop 8 dev.total_sectors 1 ≡ some n
    pub room : 32 + 2 * n + 1 < dev.total_sectors
    pub enough : dev.total_sectors - (32 + 2 * n) + 2 ≤ n * 128

  -- What fat32_mount makes of the disk.
  abbrev pub mounted : Fs D
  mounted = record {
    dev = dev;
    sectors_per_cluster = 1;
    reserved_sectors = 32;
    fat_count = 2;
    sectors_per_fat = n;
    root_cluster = 2;
    fat_start_lba = 32;
    data_start_lba = 32 + 2 * n;
    total_clusters = dev.total_sectors - (32 + 2 * n);
  }

  module _ (sized : Sized) where
    pub metadata_lem : metadata n ≡ 32 + 2 * n
    metadata_lem = omega (arith, sized.room, sized.not_large)

    pub mounted-Layout : Layout mounted
    mounted-Layout = record {
      full = omega arith;
      narrow = omega arith;
      tables = omega arith;
      starts = omega arith;
      covers = sized.enough;
      fits = omega (arith, sized.room);
      words = omega (arith, sized.not_large);
      few = omega (arith, sized.room, sized.not_large);
      root_low = omega arith;
      root_high = omega (arith, sized.room);
    }

    pub fs_of-boot : fs_of dev (boot_sector dev.total_sectors n) ≡ mounted
    fs_of-boot = ground (
      arith,
      boot-reserved dev.total_sectors n,
      boot-cluster dev.total_sectors n,
      boot-tables dev.total_sectors n,
      boot-root dev.total_sectors n,
      boot-total dev.total_sectors n,
      boot-fat_size dev.total_sectors n,
      sized.room,
      sized.not_large,
    )

    no_overlap :
        leb
          (sectors_in (boot_sector dev.total_sectors n))
          (data_start_in (boot_sector dev.total_sectors n))
        ≡ false
    no_overlap = ground (
      arith,
      boot-reserved dev.total_sectors n,
      boot-tables dev.total_sectors n,
      boot-total dev.total_sectors n,
      boot-fat_size dev.total_sectors n,
      sized.room,
      sized.not_large,
      sized.not_small,
    )

    -- fat32_mount on a disk whose first sector is the boot sector.
    pub fat32_mount-boot :
        (t : Store D)
        → sector t.disk 0 ≡ boot_sector dev.total_sectors n
        → fat32_mount (some dev) t ≡ (ok mounted, record t { last_error = all_ok })
    unfolding fat32_mount
    fat32_mount-boot t boot =
        let u : Store D = record t { last_error = all_ok } in
        let sec = boot_sector dev.total_sectors n in
        let made : Sector → Action D (Fs D) = λ p. set_error all_ok >> pure (fs_of dev p) in
        let counted : Sector → Action D (Fs D) =
          λ p. fail_if ((fs_of dev p).total_clusters == 0) invalid_cluster_count >> made p in
        let divided : Sector → Action D (Fs D) = λ p. fault_if (p 13 == 0) >> counted p in
        let with_data : Sector → Action D (Fs D) =
          λ p. fail_if (leb (sectors_in p) (data_start_in p)) no_data_area >> divided p in
        let fat32 : Sector → Action D (Fs D) =
          λ p. fail_if (not (rd16 p 17 == 0)) not_fat32 >> with_data p in
        let sized_512 : Sector → Action D (Fs D) =
          λ p. fail_if (not (rd16 p 11 == 512)) invalid_bytes_per_sector >> fat32 p in
        let signed : Sector → Action D (Fs D) = λ p.
          fail_if (not (p 510 == 0x55) || not (p 511 == 0xaa)) boot_signature_missing
          >> sized_512 p in
        let get : Action D Sector = on_error (io_read dev 0 1) cannot_read_boot in
        then-ok (fail_if (not (dev.sector_size == 512)) unsupported_sector_size) (get >>= signed) (
          fail_if-ok u (not (dev.sector_size == 512)) unsupported_sector_size
            (ground (arith, sized.sectors_512)))
        ∙ bind-ok get signed (
            on_error-ok (io_read dev 0 1) cannot_read_boot
              (io_read-ok rel 0 u (omega (arith, sized.not_small))))
        ∙ ap (λ p. signed p u) boot
        ∙ then-ok (fail_if (not (sec 510 == 0x55) || not (sec 511 == 0xaa)) boot_signature_missing)
            (sized_512 sec)
            (fail_if-ok u _ boot_signature_missing (
              ground
                (arith, boot-signature0 dev.total_sectors n, boot-signature1 dev.total_sectors n)))
        ∙ then-ok (fail_if (not (rd16 sec 11 == 512)) invalid_bytes_per_sector) (fat32 sec) (
            fail_if-ok u _ invalid_bytes_per_sector
              (ground (arith, boot-bytes_per_sector dev.total_sectors n)))
        ∙ then-ok (fail_if (not (rd16 sec 17 == 0)) not_fat32) (with_data sec)
            (fail_if-ok u _ not_fat32 (ground (arith, boot-root_entries dev.total_sectors n)))
        ∙ then-ok (fail_if (leb (sectors_in sec) (data_start_in sec)) no_data_area) (divided sec)
            (fail_if-ok u _ no_data_area no_overlap)
        ∙ then-ok (fault_if (sec 13 == 0)) (counted sec)
            (fault_if-ok u (sec 13 == 0) (ground (arith, boot-cluster dev.total_sectors n)))
        ∙ then-ok (fail_if ((fs_of dev sec).total_clusters == 0) invalid_cluster_count) (made sec) (
            fail_if-ok u _ invalid_cluster_count
              (ap (λ (f : Fs D). f.total_clusters == 0) fs_of-boot ∙ ground (arith, sized.room)))
        ∙ ap (λ (f : Fs D). pure f u) fs_of-boot
