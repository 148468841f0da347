-- ===== src/RamVfs/Tests.antt =====
-- Two descriptors of one file.
use Prim.Native.Nat.{bit_and}
use ronin_os.Base.{
  ℕ, ◌+◌, ◌<◌, ◌≡◌, refl, true, Option, none, some, [], ◌∷◌, arith, ◌==◌, if◌then◌else◌,
}
use ronin_os.Text.{pos}
use ronin_os.Vfs.{Vfs, vfs_init, o_rdwr}
use ronin_os.Vfs.Files.{vfs_read, vfs_write}
use ronin_os.Ramfs.{zero_node}
use ronin_os.RamVfs.{Ram, ramfs_ops}
use ronin_os.RamVfs.Roundtrip.{OpenOn, vfs_read-vfs_write}

-- The entry 1 is an empty file; the memory holds at each address its last byte.
abbrev ram : Ram
ram = record {
  nodes = λ i. record zero_node { used = true; is_dir = i == 0; name = 97 ∷ [] };
  memory = λ a. bit_and a 255;
}

-- The descriptor 0 is for writing, the others are for reading.
abbrev two_open : Vfs Ram (Option ℕ)
two_open = record (vfs_init none) {
  fds = λ i. record {
    used = true;
    flags = if i == 0 then o_rdwr else 1;
    ops = ramfs_ops 96;
    node = some 1;
    pos = 0;
  };
}

writer : OpenOn 96 two_open 0 1
writer = record { below = omega arith; used = refl; ops = refl; node = refl }

reader : OpenOn 96 two_open 1 1
reader = record { below = omega arith; used = refl; ops = refl; node = refl }

vfs_read-vfs_write_example :
    (v1 : Vfs Ram (Option ℕ)) × (w1 : Ram) × (k : ℕ) × (vfs_write two_open ram (pos 0) 0x1000 5
      ≡ (v1, w1, pos k))
    × (v2 : Vfs Ram (Option ℕ)) × (w2 : Ram) × (vfs_read v1 w1 (pos 1) 0x2000 k ≡ (v2, w2, pos k))
    × ((q : ℕ) → q < k → w2.memory (0x2000 + q) ≡ ram.memory (0x1000 + q))
vfs_read-vfs_write_example =
    vfs_read-vfs_write 96 two_open ram 0 1 1 0x1000 0x2000 5 writer reader (omega arith) refl refl
      refl (omega arith) (omega arith) refl (omega arith) (omega arith)
