-- ===== src/Fat32/Table.antt =====
-- The file allocation table and the root directory of kernel/fs/fat32.c.
use Prim.Native.Nat.{bit_and}
use ronin_os.Base.{
  ℕ, zero, suc, ◌+◌, ◌-◌, ◌/◌, ◌%◌, Bool, true, false, ◌&&◌, ◌||◌, Option, none, some, ◌==◌,
  if◌then◌else◌, add32, mul32,
}
use ronin_os.Fat32.{
  Sector, Fs, ok, failed, fault, Action, pure, give_up, ◌>>=◌, ◌>>◌, io_read, io_write,
  cluster_to_lba, end_of_chain,
}
use ronin_os.Fat32.Bytes.{rd32, wr32}

-- `strncmp(sec + i, name83, 11) == 0`, from the byte `k` on.
unfoldable pub same_name : ℕ → Sector → ℕ → (ℕ → ℕ) → ℕ → Bool
same_name zero sec i name k = true
same_name (suc rounds) sec i name k =
    sec (i + k) == name k && (sec (i + k) == 0 || same_name rounds sec i name (k + 1))

-- An entry that the walks over the root directory pass over: deleted, or a part of a long name.
abbrev pub is_skipped : Sector → ℕ → Bool
is_skipped sec i = sec i == 0xe5 || bit_and (sec (i + 11)) 0x0f == 0x0f

-- The loop of find_root_entry: the offset of the entry.
unfoldable pub find_loop : ℕ → Sector → (ℕ → ℕ) → ℕ → Option ℕ
find_loop zero sec name i = none
find_loop (suc rounds) sec name i =
    let rest = find_loop rounds sec name (i + 32) in
    if sec i == 0
    then none
    else if is_skipped sec i
    then rest
    else if same_name 11 sec i name 0
    then some i
    else rest

-- The place of a cluster's entry in its sector.
abbrev pub fat_offset : ℕ → ℕ
fat_offset cluster = mul32 cluster 4 % 512

module _ {D : Type 0} where
  -- The sector of a cluster's entry in the first table.
  abbrev pub fat_lba : Fs D → ℕ → ℕ
  fat_lba fs cluster = add32 fs.fat_start_lba (mul32 cluster 4 / 512)

  -- A read that fails is taken for the end of a chain.
  unfoldable pub fat_get : Fs D → ℕ → Action D ℕ
  fat_get fs cluster s =
      let (r, s') = io_read fs.dev (fat_lba fs cluster) 1 s in
      elim r [
        | ok sec ↦ (ok (bit_and (rd32 sec (fat_offset cluster)) 0x0fff_ffff), s')
        | failed ↦ (ok end_of_chain, s')
        | fault ↦ (fault, s')
      ]

  -- The loop of fat_set over the tables from `f` on.
  unfoldable pub fat_set_loop : ℕ → Fs D → ℕ → Sector → ℕ → Action D (Unit {0})
  fat_set_loop zero fs lba sec f = pure tt
  fat_set_loop (suc rounds) fs lba sec f = do
    io_write fs.dev (add32 lba (mul32 f fs.sectors_per_fat)) 1 sec
    fat_set_loop rounds fs lba sec (f + 1)

  unfoldable pub fat_set : Fs D → (cluster val : ℕ) → Action D (Unit {0})
  fat_set fs cluster val = do
    sec ← io_read fs.dev (fat_lba fs cluster) 1
    fat_set_loop fs.fat_count fs (fat_lba fs cluster) (wr32 sec (fat_offset cluster) val) 0

  unfoldable pub alloc_loop : ℕ → Fs D → ℕ → Action D ℕ
  alloc_loop zero fs c = give_up
  alloc_loop (suc rounds) fs c = do
    entry ← fat_get fs c
    elim (entry == 0) [
      | true ↦ (do fat_set fs c end_of_chain; pure c)
      | false ↦ alloc_loop rounds fs (c + 1)
    ]

  unfoldable pub alloc_cluster : Fs D → Action D ℕ
  alloc_cluster fs = alloc_loop (add32 fs.total_clusters 2 - 2) fs 2

  -- The offset of the entry in the sector of the root directory.
  unfoldable pub find_root_entry : Fs D → (ℕ → ℕ) → Action D ℕ
  find_root_entry fs name = do
    sec ← io_read fs.dev (cluster_to_lba fs fs.root_cluster) 1
    elim (find_loop 16 sec name 0) [ none ↦ give_up | some off ↦ pure off ]
