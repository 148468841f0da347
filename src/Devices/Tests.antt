-- ===== src/Devices/Tests.antt =====
-- Two devices.
use ronin_os.Base.{◌≡◌, true, none, some, [], ◌∷◌, arith, if◌then◌else◌}
use ronin_os.Text.Strings.{text_eq}
use ronin_os.Devices.{BlockDevice, zero_device, block_init, block_register, block_find}
use ronin_os.Devices.Names.{Accepted, block_find-block_register}

abbrev disk : BlockDevice
disk = record zero_device { name = 97 ∷ []; sector_size = 512; sector_count = 2048; read = 0x1000 }

disk-Accepted : Accepted block_init disk
unfolding block_init
disk-Accepted = record {
  readable = λ q. omega arith;
  sized = λ q. omega arith;
  counted = λ q. omega arith;
  room = omega arith;
}

block_find-block_register_example :
    ((block_register block_init (some disk)).1 ≡ true)
    × (block_find (block_register block_init (some disk)).0 (some (97 ∷ []))
        ≡ elim (block_find block_init (some (97 ∷ []))) [
          | some j ↦ some j
          | none ↦ if text_eq (97 ∷ []) (97 ∷ []) then some block_init.count else none
        ])
block_find-block_register_example =
    block_find-block_register block_init disk (97 ∷ []) disk-Accepted
