-- ===== src/Vfs/Mounts.antt =====
-- The mounts of kernel/fs/vfs.c and the resolution of paths.
use ronin_os.Base.{
  ℕ, zero, suc, ◌+◌, Bool, true, false, not, ◌&&◌, Option, none, some, List, [], ◌∷◌, ◌==◌, leb,
  if◌then◌else◌, length, drop,
}
use ronin_os.Text.Strings.{text_eq}
use ronin_os.Vfs.{Vfs, Mount, FsOps, vfs_max_mounts, vfs_max_path, vfs_max_name, slash}
use ronin_os.Vfs.Normal.{skip_slashes, next_segment, is_absolute, copy_str, normalize_path}

-- `strncmp(a, b, strlen(b)) == 0`
unfoldable pub is_prefix : List ℕ → List ℕ → Bool
is_prefix [] a = true
is_prefix (x ∷ xs) [] = false
is_prefix (x ∷ xs) (y ∷ ys) = x == y && is_prefix xs ys

-- `a[0] == 0 || a[0] == '/'`
abbrev pub ends_segment : List ℕ → Bool
ends_segment [] = true
ends_segment (c ∷ cs) = c == slash

unfoldable pub starts_with : List ℕ → List ℕ → Bool
starts_with a b = is_prefix b a && ends_segment (drop (length b) a)

-- The end of find_mount: `path` behind the mount point, without the slash.
abbrev pub subpath_of : List ℕ → ℕ → List ℕ
subpath_of path best_len =
    let rest = drop best_len path in if is_absolute rest then drop 1 rest else rest

-- The `while (subpath[i])` loop.
unfoldable pub lookup_loop :
    {N : Type 0} → ℕ → (N → List ℕ → Option (N × Bool)) → N → Bool → List ℕ → Option (N × Bool)
lookup_loop zero lookup cur is_dir t = none
lookup_loop (suc fuel) lookup cur is_dir [] = some (cur, is_dir)
lookup_loop (suc fuel) lookup cur is_dir (b ∷ bs) =
    if not is_dir then none else elim (skip_slashes (b ∷ bs)) [
      | [] ↦ some (cur, is_dir)
      | c ∷ cs ↦
          let (seg, left) = next_segment (c ∷ cs) in
          elim (lookup cur seg) [
            | none ↦ none
            | some (next, dir) ↦ lookup_loop fuel lookup next dir left
          ]
    ]

module _ {W N : Type 0} where
  -- The loop of find_mount: `best` and `best_len`.
  unfoldable pub find_mount_loop : ℕ → Vfs W N → List ℕ → ℕ → Option ℕ × ℕ → Option ℕ × ℕ
  find_mount_loop zero v path i best = best
  find_mount_loop (suc rounds) v path i best =
      let mountpoint = (v.mounts i).mountpoint in
      find_mount_loop rounds v path (i + 1) (
        if (v.mounts i).used && starts_with path mountpoint && leb best.1 (length mountpoint)
        then (some i, length mountpoint)
        else best)

  -- The mount and the path below it.
  unfoldable pub find_mount : Vfs W N → List ℕ → Option (ℕ × List ℕ)
  find_mount v path =
      let (best, best_len) = find_mount_loop vfs_max_mounts v path 0 (none, 0) in
      elim best [ none ↦ none | some i ↦ some (i, subpath_of path best_len) ]

  unfoldable pub resolve_on_mount : FsOps W N → W → List ℕ → Option (N × Bool)
  resolve_on_mount ops w subpath = elim ops.get_root [
    | none ↦ none
    | some get_root ↦ elim ops.lookup [
      | none ↦ none
      | some lookup ↦ lookup_loop (suc (length subpath)) (lookup w) (get_root w) true subpath
    ]
  ]

  -- The operations of the mount, the node and whether it is a directory.
  unfoldable pub resolve_path : Vfs W N → W → Option (List ℕ) → Option (FsOps W N × N × Bool)
  resolve_path v w path = elim (normalize_path v.cwd path) [
    | none ↦ none
    | some norm ↦ elim (find_mount v norm) [
      | none ↦ none
      | some (i, subpath) ↦ elim (resolve_on_mount (v.mounts i).ops w subpath) [
        | none ↦ none
        | some (node, is_dir) ↦ some ((v.mounts i).ops, node, is_dir)
      ]
    ]
  ]

-- `norm` cut at its last slash: the text before it and the text behind it; `none` if there is no slash.
unfoldable pub cut_last : List ℕ → Option (List ℕ × List ℕ)
cut_last [] = none
cut_last (c ∷ cs) = elim (cut_last cs) [
  | some (before, behind) ↦ some (c ∷ before, behind)
  | none ↦ if c == slash then some ([], cs) else none
]

-- `parent`: the text before the last slash, or the slash itself if there is none before it.
abbrev pub parent_of : List ℕ → Option (List ℕ)
parent_of [] = some (slash ∷ [])
parent_of (c ∷ cs) = if leb vfs_max_path (length (c ∷ cs) + 1) then none else some (c ∷ cs)

module _ {W N : Type 0} where
  -- The operations of the mount, the parent and the leaf.
  unfoldable pub resolve_parent : Vfs W N → W → Option (List ℕ) → Option (FsOps W N × N × List ℕ)
  resolve_parent v w path = elim (normalize_path v.cwd path) [
    | none ↦ none
    | some norm ↦ if text_eq norm (slash ∷ []) then none else elim (cut_last norm) [
      | none ↦ none
      | some (before, behind) ↦ elim (copy_str behind vfs_max_name) [
        | none ↦ none
        | some leaf ↦ elim (parent_of before) [
          | none ↦ none
          | some parent ↦ elim (resolve_path v w (some parent)) [
            | none ↦ none
            | some (ops, node, is_dir) ↦ some (ops, node, leaf)
          ]
        ]
      ]
    ]
  ]

  -- The loop of vfs_mount.
  unfoldable pub mount_loop : ℕ → Vfs W N → ℕ → Mount W N → Option (Vfs W N)
  mount_loop zero v i m = none
  mount_loop (suc rounds) v i m =
      let rest = mount_loop rounds v (i + 1) m in
      if not (v.mounts i).used
      then some (record v { mounts = λ j. if j == i then m else v.mounts j })
      else rest

  -- `none` for -1. `norm` always fits `mountpoint`.
  unfoldable pub vfs_mount : Vfs W N → Option (List ℕ) → Option (FsOps W N) → Option (Vfs W N)
  vfs_mount v mountpoint none = none
  vfs_mount v mountpoint (some ops) = elim (normalize_path v.cwd mountpoint) [
    | none ↦ none
    | some norm ↦
        mount_loop vfs_max_mounts v 0 (record { used = true; mountpoint = norm; ops = ops })
  ]

  -- `none` for -1.
  unfoldable pub vfs_chdir : Vfs W N → W → Option (List ℕ) → Option (Vfs W N)
  vfs_chdir v w path = elim (normalize_path v.cwd path) [
    | none ↦ none
    | some norm ↦ elim (resolve_path v w (some norm)) [
      | none ↦ none
      | some (ops, node, is_dir) ↦ if not is_dir then none else some (record v { cwd = norm })
    ]
  ]
