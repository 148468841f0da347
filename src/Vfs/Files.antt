-- ===== src/Vfs/Files.antt =====
-- The calls of kernel/fs/vfs.c on files and directories. `void*` results and descriptors are `int`s.
use Prim.Native.Nat.{bit_and}
use ronin_os.Base.{
  ℕ, zero, suc, ◌+◌, Bool, true, false, not, ◌&&◌, ◌||◌, Option, none, some, List, ◌==◌, leb,
  if◌then◌else◌, add32,
}
use ronin_os.Text.{ℤ, pos, negsuc}
use ronin_os.Vfs.{Vfs, Fd, FsOps, Dirent, vfs_max_fd, o_wronly, o_rdwr, o_create, zero_fd}
use ronin_os.Vfs.Mounts.{resolve_path, resolve_parent}

-- -1
abbrev pub failed : ℤ
failed = negsuc 0

abbrev pub is_negative : ℤ → Bool
is_negative (pos n) = false
is_negative (negsuc n) = true

-- The loop of vfs_listdir; `callback` answers whether it returns something other than 0. `none` if
-- the rounds do not suffice.
unfoldable pub list_loop :
    {U : Type 0} → ℕ → (ℕ → Option Dirent) → (U → Dirent → U × Bool) → U → ℕ → Option U
list_loop zero readdir callback user index = none
list_loop (suc rounds) readdir callback user index = elim (readdir index) [
  | none ↦ some user
  | some ent ↦
      let (user', stop) = callback user ent in
      let rest = list_loop rounds readdir callback user' (index + 1) in
      if stop then some user' else rest
]

module _ {W N : Type 0} where
  -- vfs_mkdir and vfs_create, with `is_dir` 1 and 0.
  unfoldable pub create_entry : Vfs W N → W → Option (List ℕ) → Bool → W × ℤ
  create_entry v w path is_dir = elim (resolve_parent v w path) [
    | none ↦ (w, failed)
    | some (ops, parent, leaf) ↦ elim ops.create [
      | none ↦ (w, failed)
      | some create ↦ create w parent leaf is_dir
    ]
  ]

  abbrev pub vfs_mkdir : Vfs W N → W → Option (List ℕ) → W × ℤ
  vfs_mkdir v w path = create_entry v w path true

  abbrev pub vfs_create : Vfs W N → W → Option (List ℕ) → W × ℤ
  vfs_create v w path = create_entry v w path false

  -- resolve_path of a path that is no directory.
  abbrev pub resolve_file : Vfs W N → W → Option (List ℕ) → Option (FsOps W N × N)
  resolve_file v w path = elim (resolve_path v w path) [
    | none ↦ none
    | some (ops, node, is_dir) ↦ if is_dir then none else some (ops, node)
  ]

  -- The file that vfs_open opens: it may be created for it.
  unfoldable pub open_file : Vfs W N → W → Option (List ℕ) → ℕ → W × Option (FsOps W N × N)
  open_file v w path flags = elim (resolve_file v w path) [
    | some f ↦ (w, some f)
    | none ↦
        if bit_and flags o_create == 0
        then (w, none)
        else let (w', rc) = vfs_create v w path in
          if is_negative rc then (w', none) else (w', resolve_file v w' path)
  ]

  abbrev pub with_fd : Vfs W N → ℕ → Fd W N → Vfs W N
  with_fd v i fd = record v { fds = λ j. if j == i then fd else v.fds j }

  -- The loop of vfs_open.
  unfoldable pub fd_loop : ℕ → Vfs W N → ℕ → Fd W N → Vfs W N × ℤ
  fd_loop zero v i fd = (v, failed)
  fd_loop (suc rounds) v i fd =
      let rest = fd_loop rounds v (i + 1) fd in
      if not (v.fds i).used then (with_fd v i fd, pos i) else rest

  unfoldable pub vfs_open : Vfs W N → W → Option (List ℕ) → ℕ → Vfs W N × W × ℤ
  vfs_open v w path flags =
      let (w', found) = open_file v w path flags in
      elim found [
        | none ↦ (v, w', failed)
        | some (ops, node) ↦
            let (v', rc) =
              fd_loop vfs_max_fd v 0
                (record { used = true; flags = flags; ops = ops; node = node; pos = 0 }) in
            (v', w', rc)
      ]

  -- The guard of vfs_read, vfs_write and vfs_close.
  abbrev pub open_fd : Vfs W N → ℤ → Option ℕ
  open_fd v (negsuc n) = none
  open_fd v (pos i) = if leb vfs_max_fd i || not (v.fds i).used then none else some i

  -- `if (rc > 0) g_fds[fd].pos += rc`
  abbrev pub advance : Vfs W N → ℕ → ℤ → Vfs W N
  advance v i (negsuc n) = v
  advance v i (pos n) = with_fd v i (record (v.fds i) { pos = add32 (v.fds i).pos n })

  unfoldable pub vfs_read : Vfs W N → W → ℤ → (buf n : ℕ) → Vfs W N × W × ℤ
  vfs_read v w fd buf n = elim (open_fd v fd) [
    | none ↦ (v, w, failed)
    | some i ↦ elim (v.fds i).ops.read [
      | none ↦ (v, w, failed)
      | some read ↦
          if bit_and (v.fds i).flags o_wronly == o_wronly
          then (v, w, failed)
          else let (w', rc) = read w (v.fds i).node (v.fds i).pos buf n in (advance v i rc, w', rc)
    ]
  ]

  unfoldable pub vfs_write : Vfs W N → W → ℤ → (buf n : ℕ) → Vfs W N × W × ℤ
  vfs_write v w fd buf n = elim (open_fd v fd) [
    | none ↦ (v, w, failed)
    | some i ↦ elim (v.fds i).ops.write [
      | none ↦ (v, w, failed)
      | some write ↦
          if bit_and (v.fds i).flags o_wronly == 0 && not (bit_and (v.fds i).flags o_rdwr == o_rdwr)
          then (v, w, failed)
          else let (w', rc) = write w (v.fds i).node (v.fds i).pos buf n in (advance v i rc, w', rc)
    ]
  ]

  unfoldable pub vfs_close : N → Vfs W N → ℤ → Vfs W N × ℤ
  vfs_close null v fd = elim (open_fd v fd) [
    | none ↦ (v, failed)
    | some i ↦ (with_fd v i (zero_fd null), pos 0)
  ]

  -- `none` as in the loop; else the `user` that is left and the result.
  unfoldable pub vfs_listdir :
      {U : Type 0}
      → ℕ
      → Vfs W N
      → W
      → Option (List ℕ)
      → Option (U → Dirent → U × Bool)
      → U
      → Option (U × ℤ)
  vfs_listdir rounds v w path none user = some (user, failed)
  vfs_listdir rounds v w path (some callback) user = elim (resolve_path v w path) [
    | none ↦ some (user, failed)
    | some (ops, node, is_dir) ↦ if not is_dir then some (user, failed) else elim ops.readdir [
      | none ↦ some (user, failed)
      | some readdir ↦ elim (list_loop rounds (readdir w node) callback user 0) [
        | none ↦ none
        | some user' ↦ some (user', pos 0)
      ]
    ]
  ]

  -- `is_dir` and the size that `out_stat` holds, which is not NULL; `none` for -1.
  unfoldable pub vfs_stat : Vfs W N → W → Option (List ℕ) → Option (Bool × ℕ)
  vfs_stat v w path = elim (resolve_path v w path) [
    | none ↦ none
    | some (ops, node, is_dir) ↦
        some (is_dir, if is_dir then 0 else elim ops.size [ none ↦ 0 | some size ↦ size w node ])
  ]
