-- ===== src/RamVfs.antt =====
-- `ramfs_ops` of kernel/fs/ramfs.c: the operations of the file system in memory as the record that
-- kernel/fs/vfs.c mounts. The state is the entry table and the memory that the buffers lie in. A walk
-- that does not end in the rounds given counts as an error.
pub mod Roundtrip
mod Tests
use ronin_os.Base.{ℕ, ◌+◌, ◌-◌, Bool, Option, none, some, List, ◌==◌, leb, if◌then◌else◌}
use ronin_os.Text.{ℤ, pos, negsuc}
use ronin_os.Ramfs.{
  Nodes, unending, failure, success, Created, never, created, refused, full, fs_get_root, fs_lookup,
  fs_create, fs_read, fs_write,
}
use ronin_os.Ramfs.Entries.{DirEntry, fs_readdir, fs_size}
use ronin_os.Vfs.{FsOps, Dirent}
use ronin_os.Vfs.Files.{failed}

pub record Ram : Type 0 where
  pub nodes : Nodes
  pub memory : ℕ → ℕ

-- The bytes at an address; `none` for NULL.
abbrev pub bytes_at : (ℕ → ℕ) → ℕ → Option (ℕ → ℕ)
bytes_at m buf = if buf == 0 then none else some (λ q. m (buf + q))

abbrev pub ram_lookup : ℕ → Ram → Option ℕ → List ℕ → Option (Option ℕ × Bool)
ram_lookup rounds w dir name = elim (fs_lookup rounds w.nodes dir (some name)) [
  | unending ↦ none
  | failure ↦ none
  | success (i, is_dir) ↦ some (some i, is_dir)
]

abbrev pub created_result : Created → ℤ
created_result never = failed
created_result (created i) = pos 0
created_result refused = failed
created_result full = negsuc 1

abbrev pub ram_create : ℕ → Ram → Option ℕ → List ℕ → Bool → Ram × ℤ
ram_create rounds w dir name is_dir =
    let (s, r) = fs_create rounds w.nodes dir (some name) is_dir in
    (record w { nodes = s }, created_result r)

abbrev pub ram_read : Ram → Option ℕ → (offset buf n : ℕ) → Ram × ℤ
ram_read w node offset buf n = elim (fs_read w.nodes node offset (bytes_at w.memory buf) n) [
  | none ↦ (w, failed)
  | some (got, k) ↦
      (record w { memory = λ a. if leb buf a then got (a - buf) else w.memory a }, pos k)
]

abbrev pub ram_write : Ram → Option ℕ → (offset buf n : ℕ) → Ram × ℤ
ram_write w node offset buf n = elim (fs_write w.nodes node offset (bytes_at w.memory buf) n) [
  | none ↦ (w, failed)
  | some (s, k) ↦ (record w { nodes = s }, pos k)
]

abbrev pub ram_readdir : ℕ → Ram → Option ℕ → ℕ → Option Dirent
ram_readdir rounds w dir index = elim (fs_readdir rounds w.nodes dir index) [
  | unending ↦ none
  | failure ↦ none
  | success e ↦ some (record { name = e.entry_name; is_dir = e.entry_is_dir; size = e.entry_size })
]

abbrev pub ramfs_ops : ℕ → FsOps Ram (Option ℕ)
ramfs_ops rounds = record {
  get_root = some (λ w. some fs_get_root);
  lookup = some (ram_lookup rounds);
  create = some (ram_create rounds);
  read = some ram_read;
  write = some ram_write;
  readdir = some (ram_readdir rounds);
  size = some (λ w node. fs_size w.nodes node);
}
