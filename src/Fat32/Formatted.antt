-- ===== src/Fat32/Formatted.antt =====
-- fat32_format of kernel/fs/fat32.c on a device that keeps what is written, and fat32_mount after it.
use ronin_os.Base.{
  ℕ, zero, suc, ◌+◌, ◌<◌, ◌≡◌, ◌≢◌, refl, sym, ◌∙◌, ap, false, not, ◌||◌, leb, ltb, some, List, [],
  arith, ◌==◌, is_some, add32, sub32,
}
use ronin_os.Fat32.{
  Sector, Device, Store, ok, Action, pure, fail_if, or_fail, on_error, set_error, ◌>>=◌, ◌>>◌,
  io_read, io_write, invalid_ls_arguments, cluster_to_lba, end_of_chain, Message, all_ok,
  read_root_failed, cannot_read_boot, no_read_write_support, sector_size_not_512, disk_too_small,
  no_room_for_metadata, no_room_for_data, not_enough_clusters, write_boot_failed,
  write_fsinfo_failed, write_backup_area_failed, write_backup_boot_failed, read_fsinfo_failed,
  write_backup_fsinfo_failed, write_fat0_failed, write_fat1_failed, write_root_failed,
}
use ronin_os.Fat32.Bytes.{rd32, wr32, zeros}
use ronin_os.Fat32.Format.{
  metadata, layout_loop, boot_sector, info_sector, signature_sector, first_fat_sector,
  reserved_sectors_of, write_layout, fat32_format, fat32_mount,
}
use ronin_os.Fat32.Layout.{Layout}
use ronin_os.Fat32.Mounting.{Sized, mounted, metadata_lem, mounted-Layout, fat32_mount-boot}
use ronin_os.Fat32.Files.{Dirent, list_loop, fat32_list_root}
use ronin_os.Fat32.Steps.{bind-ok, then-ok, fail_if-ok, or_fail-some}
use ronin_os.Fat32.Chain.{entry}
use ronin_os.Fat32.Reliable.{Reliable, put, put_self, put_ne, read_or, write_or}

module _ {D : Type 0} (dev : Device D) {sector : D → ℕ → Sector} (rel : Reliable dev sector)
    (n : ℕ) where
  -- The disk after each write of fat32_format.
  module _ (d : D) where
    abbrev with_boot : D
    with_boot = put rel d 0 (boot_sector dev.total_sectors n)

    abbrev with_info : D
    with_info = put rel with_boot 1 (info_sector (sub32 (sub32 dev.total_sectors (metadata n)) 1))

    abbrev with_backup_area : D
    with_backup_area = put rel with_info 2 signature_sector

    abbrev with_backup_boot : D
    with_backup_boot = put rel with_backup_area 6 (sector with_backup_area 0)

    abbrev with_backup_info : D
    with_backup_info = put rel with_backup_boot 7 (sector with_backup_boot 1)

    abbrev with_table : D
    with_table = put rel with_backup_info 32 first_fat_sector

    abbrev with_tables : D
    with_tables = put rel with_table (add32 32 n) first_fat_sector

    pub formatted : D
    formatted = put rel with_tables (metadata n) zeros

    module _ (sized : Sized dev rel n) where
      table_lba : add32 32 n ≡ 32 + n
      table_lba = omega (arith, sized.room, sized.not_large)

      below : (j : ℕ) → j < 33 → j < dev.total_sectors
      below j l = omega (arith, sized.not_small)

      second_below : add32 32 n < dev.total_sectors
      second_below = omega (arith, table_lba, sized.room)

      root_below : metadata n < dev.total_sectors
      root_below = omega (arith, metadata_lem dev rel n sized, sized.room)

      some_table : 0 < n
      some_table = omega (arith, sized.enough)

      -- The last two writes are behind the first table's first sector.
      late : (j : ℕ) → j < 33 → sector formatted j ≡ sector with_table j
      unfolding formatted
      late j l =
          put_ne rel with_tables (metadata n) zeros j root_below
            (λ e. absurd (omega (arith, e, metadata_lem dev rel n sized)))
          ∙ put_ne rel with_table (add32 32 n) first_fat_sector j second_below
              (λ e. absurd (omega (arith, e, table_lba, some_table)))

      formatted-boot : sector formatted 0 ≡ boot_sector dev.total_sectors n
      formatted-boot =
          late 0 (omega arith)
          ∙ put_ne rel with_backup_info 32 first_fat_sector 0 (below 32 (omega arith)) (omega arith)
          ∙ put_ne rel with_backup_boot 7 (sector with_backup_boot 1) 0 (below 7 (omega arith))
              (omega arith)
          ∙ put_ne rel with_backup_area 6 (sector with_backup_area 0) 0 (below 6 (omega arith))
              (omega arith)
          ∙ put_ne rel with_info 2 signature_sector 0 (below 2 (omega arith)) (omega arith)
          ∙ put_ne rel with_boot 1 (info_sector (sub32 (sub32 dev.total_sectors (metadata n)) 1)) 0
              (below 1 (omega arith)) (omega arith)
          ∙ put_self rel d 0 (boot_sector dev.total_sectors n) (below 0 (omega arith))

      formatted-table : sector formatted 32 ≡ first_fat_sector
      formatted-table =
          late 32 (omega arith)
          ∙ put_self rel with_backup_info 32 first_fat_sector (below 32 (omega arith))

      formatted-root : sector formatted (metadata n) ≡ zeros
      unfolding formatted
      formatted-root = put_self rel with_tables (metadata n) zeros root_below

      write_layout-ok :
          (e : Message)
          → write_layout dev n
              (sub32 dev.total_sectors (metadata n))
              (record { disk = d; last_error = e })
            ≡ (ok tt, record { disk = formatted; last_error = all_ok })
      unfolding write_layout formatted
      write_layout-ok e =
          let at : D → Store D = λ x. record { disk = x; last_error = e } in
          let info = info_sector (sub32 (sub32 dev.total_sectors (metadata n)) 1) in
          let w : D → (lba : ℕ) → Sector → Message → Action D (Unit {0}) =
            λ x lba b m. on_error (io_write dev lba 1 b) m in
          let k9 : Action D (Unit {0}) = set_error all_ok in
          let k8 : Action D (Unit {0}) =
            on_error (io_write dev (metadata n) 1 zeros) write_root_failed >> k9 in
          let k7 : Action D (Unit {0}) =
            on_error (io_write dev (add32 reserved_sectors_of n) 1 first_fat_sector)
              write_fat1_failed
            >> k8 in
          let k6 : Action D (Unit {0}) =
            on_error (io_write dev reserved_sectors_of 1 first_fat_sector) write_fat0_failed
            >> k7 in
          let k5 : Sector → Action D (Unit {0}) =
            λ p. on_error (io_write dev 7 1 p) write_backup_fsinfo_failed >> k6 in
          let k4 : Action D (Unit {0}) = on_error (io_read dev 1 1) read_fsinfo_failed >>= k5 in
          let k3 : Sector → Action D (Unit {0}) =
            λ p. on_error (io_write dev 6 1 p) write_backup_boot_failed >> k4 in
          let k2 : Action D (Unit {0}) = on_error (io_read dev 0 1) cannot_read_boot >>= k3 in
          let k1 : Action D (Unit {0}) =
            on_error (io_write dev 2 1 signature_sector) write_backup_area_failed >> k2 in
          let k0 : Action D (Unit {0}) =
            on_error (io_write dev 1 1 info) write_fsinfo_failed >> k1 in
          then-ok (on_error (io_write dev 0 1 (boot_sector dev.total_sectors n)) write_boot_failed)
            k0
            (write_or rel 0 (boot_sector dev.total_sectors n) write_boot_failed (at d)
              (below 0 (omega arith)))
          ∙ then-ok (on_error (io_write dev 1 1 info) write_fsinfo_failed) k1
              (write_or rel 1 info write_fsinfo_failed (at with_boot) (below 1 (omega arith)))
          ∙ then-ok (on_error (io_write dev 2 1 signature_sector) write_backup_area_failed) k2 (
              write_or rel 2 signature_sector write_backup_area_failed (at with_info)
                (below 2 (omega arith)))
          ∙ bind-ok (on_error (io_read dev 0 1) cannot_read_boot) k3
              (read_or rel 0 cannot_read_boot (at with_backup_area) (below 0 (omega arith)))
          ∙ then-ok
              (on_error (io_write dev 6 1 (sector with_backup_area 0)) write_backup_boot_failed) k4
              (write_or rel 6 (sector with_backup_area 0) write_backup_boot_failed
                (at with_backup_area) (below 6 (omega arith)))
          ∙ bind-ok (on_error (io_read dev 1 1) read_fsinfo_failed) k5
              (read_or rel 1 read_fsinfo_failed (at with_backup_boot) (below 1 (omega arith)))
          ∙ then-ok
              (on_error (io_write dev 7 1 (sector with_backup_boot 1)) write_backup_fsinfo_failed)
              k6
              (write_or rel 7 (sector with_backup_boot 1) write_backup_fsinfo_failed
                (at with_backup_boot) (below 7 (omega arith)))
          ∙ then-ok
              (on_error (io_write dev reserved_sectors_of 1 first_fat_sector) write_fat0_failed) k7
              (write_or rel 32 first_fat_sector write_fat0_failed (at with_backup_info)
                (below 32 (omega arith)))
          ∙ then-ok
              (on_error (io_write dev (add32 reserved_sectors_of n) 1 first_fat_sector)
                write_fat1_failed)
              k8
              (write_or rel (add32 32 n) first_fat_sector write_fat1_failed (at with_table)
                second_below)
          ∙ then-ok (on_error (io_write dev (metadata n) 1 zeros) write_root_failed) k9
              (write_or rel (metadata n) zeros write_root_failed (at with_tables) root_below)

  -- An empty file system: mounted, its parts fit, the root directory is in use and has no file.
  pub record Fresh (t : Store D) : Type 0 where
    pub mounts : fat32_mount (some dev) t ≡ (ok (mounted dev rel n), t)
    pub layout : Layout (mounted dev rel n)
    pub root_used : entry sector (mounted dev rel n) t.disk 2 ≢ 0
    pub next_free : entry sector (mounted dev rel n) t.disk 3 ≡ 0
    pub root_empty : sector t.disk (cluster_to_lba (mounted dev rel n) 2) ≡ zeros
    pub lists_none :
        (max_out : ℕ)
        → 0 < max_out
        → fat32_list_root (some (mounted dev rel n)) max_out t ≡ (ok [], t)

  lists_nothing :
      (d : D) (sized : Sized dev rel n) (e : Message) (max_out : ℕ)
      → 0 < max_out
      → fat32_list_root
          (some (mounted dev rel n))
          max_out
          (record { disk = formatted d; last_error = e })
        ≡ (ok [], record { disk = formatted d; last_error = e })
  unfolding fat32_list_root list_loop
  lists_nothing d sized e zero l = absurd (omega arith)
  lists_nothing d sized e (suc room) l =
      let t : Store D = record { disk = formatted d; last_error = e } in
      let lba = cluster_to_lba (mounted dev rel n) 2 in
      let there : lba ≡ metadata n =
        omega (arith, metadata_lem dev rel n sized, sized.room, sized.not_large) in
      let list : Sector → Action D (List Dirent) = λ p. pure (list_loop 16 p 0 (suc room)) in
      let get : Action D Sector = on_error (io_read dev lba 1) read_root_failed in
      then-ok (fail_if (suc room == 0) invalid_ls_arguments) (get >>= list)
        (fail_if-ok t (suc room == 0) invalid_ls_arguments (ground arith))
      ∙ bind-ok get list
          (read_or rel lba read_root_failed t (omega (arith, there, root_below d sized)))
      ∙ ap (λ p. list p t) (ap (sector (formatted d)) there ∙ formatted-root d sized)

  formatted-Fresh :
      (d : D) → Sized dev rel n → Fresh (record { disk = formatted d; last_error = all_ok })
  unfolding first_fat_sector rd32 wr32
  formatted-Fresh d sized =
      let t : Store D = record { disk = formatted d; last_error = all_ok } in
      record {
        mounts = fat32_mount-boot dev rel n sized t (formatted-boot d sized);
        layout = mounted-Layout dev rel n sized;
        root_used = λ e. absurd (
            used (
              ap (λ (p : Sector). entry (λ (x : D) (l : ℕ). p) (mounted dev rel n) (formatted d) 2)
                (sym (formatted-table d sized))
              ∙ e));
        next_free =
            ap (λ (p : Sector). entry (λ (x : D) (l : ℕ). p) (mounted dev rel n) (formatted d) 3)
              (formatted-table d sized);
        root_empty =
            ap (sector (formatted d))
              (omega (arith, metadata_lem dev rel n sized, sized.room, sized.not_large))
            ∙ formatted-root d sized;
        lists_none = lists_nothing d sized all_ok;
      }
    where
      used : ◌≡◌ {A = ℕ} end_of_chain 0 → ⊥
      used e = omega arith

  -- fat32_format on a device that keeps what is written, with sectors of 512 bytes, from 256 to 2 ^ 28 of
  -- them, if the size chosen for the tables leaves room for data and has an entry for every cluster:
  -- it returns 0, and fat32_mount then gives a file system with the parts where they were put, the root
  -- directory in use, its sector zero, no file in it, and the cluster behind its own free.
  pub fat32_format-Fresh :
      (s : Store D)
      → Sized dev rel n
      → (t : Store D) × (fat32_format (some dev) s ≡ (ok tt, t)) × Fresh t
  unfolding fat32_format
  fat32_format-Fresh s sized =
      let u : Store D = record s { last_error = all_ok } in
      let data_sectors = sub32 dev.total_sectors (metadata n) in
      let laid : ℕ → Action D (Unit {0}) =
        λ m. write_layout dev m (sub32 dev.total_sectors (metadata m)) in
      let two : ℕ → Action D (Unit {0}) =
        λ m. fail_if (ltb (sub32 dev.total_sectors (metadata m)) 2) not_enough_clusters >> laid m in
      let roomy : ℕ → Action D (Unit {0}) =
        λ m. fail_if (leb dev.total_sectors (add32 (metadata m) 1)) no_room_for_data >> two m in
      let sizes : Action D (Unit {0}) =
        or_fail (layout_loop 8 dev.total_sectors 1) no_room_for_metadata >>= roomy in
      let big : Action D (Unit {0}) = fail_if (ltb dev.total_sectors 256) disk_too_small >> sizes in
      let sized_512 : Action D (Unit {0}) =
        fail_if (not (dev.sector_size == 512)) sector_size_not_512 >> big in
      let both : (not (is_some dev.ops.read) || not (is_some dev.ops.write)) ≡ false =
        rw (rel.reads, rel.writes) refl in
      (
        record { disk = formatted s.disk; last_error = all_ok },
        then-ok
              (fail_if (not (is_some dev.ops.read) || not (is_some dev.ops.write))
                no_read_write_support)
              sized_512 (fail_if-ok u _ no_read_write_support both)
            ∙ then-ok (fail_if (not (dev.sector_size == 512)) sector_size_not_512) big
                (fail_if-ok u _ sector_size_not_512 (ground (arith, sized.sectors_512)))
            ∙ then-ok (fail_if (ltb dev.total_sectors 256) disk_too_small) sizes
                (fail_if-ok u _ disk_too_small (ground (arith, sized.not_small)))
            ∙ bind-ok (or_fail (layout_loop 8 dev.total_sectors 1) no_room_for_metadata) roomy (
                or_fail-some u (layout_loop 8 dev.total_sectors 1) no_room_for_metadata
                  sized.chosen)
            ∙ then-ok (fail_if (leb dev.total_sectors (add32 (metadata n) 1)) no_room_for_data)
                (two n)
                (fail_if-ok u _ no_room_for_data (ground (arith, sized.room, sized.not_large)))
            ∙ then-ok (fail_if (ltb data_sectors 2) not_enough_clusters) (laid n)
                (fail_if-ok u _ not_enough_clusters (ground (arith, sized.room, sized.not_large)))
            ∙ write_layout-ok s.disk sized all_ok,
        formatted-Fresh s.disk sized,
      )
