-- ===== src/Vfs.antt =====
-- kernel/fs/vfs.c and vfs.h: paths, mounts and file descriptors. A text is the list of its bytes
-- without the terminating NUL. A table of operations stands with the `ctx` that it is mounted with; the
-- operations work on a state `W`, which holds what the file systems keep and the memory that buffers
-- point into, and on nodes `N`. A NULL function is `none`. `vfs_getcwd` is the field `cwd`.
pub mod Normal
pub mod Mounts
pub mod Files
pub mod Segments
pub mod Parts
pub mod Paths
pub mod FullText
pub mod NormalForm
pub mod Longest
pub mod Rooted
pub mod Descriptors
mod Tests
use ronin_os.Base.{
  ℕ, zero, suc, ◌+◌, ◌-◌, Bool, true, false, not, ◌&&◌, ◌||◌, Option, none, some, List, [], ◌∷◌,
  ◌++◌, ◌==◌, leb, ltb, if◌then◌else◌, length, take,
}
use ronin_os.Text.{ℤ}

abbrev pub vfs_max_mounts : ℕ
vfs_max_mounts = 4

abbrev pub vfs_max_fd : ℕ
vfs_max_fd = 32

abbrev pub vfs_max_path : ℕ
vfs_max_path = 128

abbrev pub vfs_max_name : ℕ
vfs_max_name = 24

abbrev pub o_wronly : ℕ
o_wronly = 2

abbrev pub o_rdwr : ℕ
o_rdwr = 3

abbrev pub o_create : ℕ
o_create = 0x10

-- '/'
abbrev pub slash : ℕ
slash = 47

-- '.'
abbrev pub dot : ℕ
dot = 46

pub record Dirent : Type 0 where
  pub name : List ℕ
  pub is_dir : Bool
  pub size : ℕ

-- lookup and readdir answer `none` for a negative result. The buffer of read and write is an address.
pub record FsOps (W N : Type 0) : Type 0 where
  pub get_root : Option (W → N)
  pub lookup : Option (W → N → List ℕ → Option (N × Bool))
  pub create : Option (W → N → List ℕ → Bool → W × ℤ)
  pub read : Option (W → N → (offset buf n : ℕ) → W × ℤ)
  pub write : Option (W → N → (offset buf n : ℕ) → W × ℤ)
  pub readdir : Option (W → N → ℕ → Option Dirent)
  pub size : Option (W → N → ℕ)

pub record Mount (W N : Type 0) : Type 0 where
  pub used : Bool
  pub mountpoint : List ℕ
  pub ops : FsOps W N

pub record Fd (W N : Type 0) : Type 0 where
  pub used : Bool
  pub flags : ℕ
  pub ops : FsOps W N
  pub node : N
  pub pos : ℕ

pub record Vfs (W N : Type 0) : Type 0 where
  pub mounts : ℕ → Mount W N
  pub fds : ℕ → Fd W N
  pub cwd : List ℕ

abbrev pub no_ops : {W N : Type 0} → FsOps W N
no_ops = record {
  get_root = none;
  lookup = none;
  create = none;
  read = none;
  write = none;
  readdir = none;
  size = none;
}

-- An entry of `g_fds` after `memset` to 0; `null` is the NULL node.
abbrev pub zero_fd : {W N : Type 0} → N → Fd W N
zero_fd null = record { used = false; flags = 0; ops = no_ops; node = null; pos = 0 }

abbrev pub zero_mount : {W N : Type 0} → Mount W N
zero_mount = record { used = false; mountpoint = []; ops = no_ops }

abbrev pub vfs_init : {W N : Type 0} → N → Vfs W N
vfs_init null = record { mounts = λ i. zero_mount; fds = λ i. zero_fd null; cwd = slash ∷ [] }
