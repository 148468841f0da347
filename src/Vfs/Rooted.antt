-- ===== src/Vfs/Rooted.antt =====
-- A file system that kernel/fs/vfs.c has mounted at the root.
use Prim.Native.Nat.{bit_and}
use ronin_os.Base.{
  ℕ, ◌<◌, ◌≡◌, refl, ◌∙◌, ap, sym, Bool, true, Option, none, some, List, [], ◌∷◌, arith, ◌==◌, ◌≢◌,
  ◌++◌, length, Option-cases, inl, inr, if_cases, if_both,
}
use ronin_os.Vfs.{Vfs, FsOps, slash, o_create}
use ronin_os.Vfs.Normal.{normalize_path}
use ronin_os.Vfs.Mounts.{lookup_loop, resolve_on_mount, resolve_path}
use ronin_os.Vfs.Files.{failed, is_negative, vfs_create, resolve_file, open_file, vfs_open}
use ronin_os.Vfs.Parts.{is_name, all}
use ronin_os.Vfs.Paths.{joined, normalize_path-Normalised}
use ronin_os.Vfs.Longest.{Covers, uncovered, covered, find_mount-Found}

-- A normal path does not go on behind the root with a slash.
not_two_slashes :
    (ps : List (List ℕ)) (sub : List ℕ) → all is_name ps ≡ true → joined ps ≢ slash ∷ slash ∷ sub
not_two_slashes [] sub h e = absurd (let k = ap length e in omega arith)
not_two_slashes ([] ∷ ps) sub h e = absurd (ground arith)
not_two_slashes ((c ∷ cs) ∷ ps) sub h e = absurd (let k = ap second e in ground arith)
  where
    second : List ℕ → ℕ
    second [] = 0
    second (x ∷ []) = 0
    second (x ∷ y ∷ ys) = y

module _ {W N : Type 0} (v : Vfs W N) where
  -- Of the mounts in use only those at the root cover the path.
  abbrev pub OnlyRoot : List ℕ → Type 0
  OnlyRoot path =
      (out sub : List ℕ) (j : ℕ)
      → normalize_path v.cwd (some path) ≡ some out
      → j < 4
      → Covers v out j sub
      → (v.mounts j).mountpoint ≡ slash ∷ []

  root_is_dir :
      (ops : FsOps W N) (w : W) (n : N) (d : Bool)
      → resolve_on_mount ops w [] ≡ some (n, d)
      → d ≡ true
  unfolding resolve_on_mount lookup_loop
  root_is_dir ops w n d e = elim (Option-cases ops.get_root) [
    | inl a ↦ absurd (let k = rw a at e in cc)
    | inr (g, a) ↦ elim (Option-cases ops.lookup) [
      | inl b ↦ absurd (let k = rw (a, b) at e in cc)
      | inr (l, b) ↦ (let k = rw (a, b) at e in cc)
    ]
  ]

  -- Of a normal path that a mount at the root covers, nothing is below the mount.
  root_of_root :
      (path out sub : List ℕ) (i : ℕ)
      → normalize_path v.cwd (some path) ≡ some out
      → Covers v out i sub
      → (v.mounts i).mountpoint ≡ slash ∷ []
      → sub ≡ []
  root_of_root path out sub i e (u, inl (own, nothing)) at = nothing
  root_of_root path out sub i e (u, inr below) at =
      let n = (normalize_path-Normalised v.cwd path out).0 e in
      absurd (
        not_two_slashes n.parts sub n.names.names
          (sym n.joins ∙ below ∙ ap (λ m. m ++ slash ∷ sub) at))

  resolve_path-is_dir :
      (w : W) (path : List ℕ) (ops : FsOps W N) (n : N) (d : Bool)
      → OnlyRoot path
      → resolve_path v w (some path) ≡ some (ops, n, d)
      → d ≡ true
  unfolding resolve_path
  resolve_path-is_dir w path ops n d h r = elim (Option-cases (normalize_path v.cwd (some path))) [
    | inl e ↦ absurd (let k = rw (e, resolve_path) at r in cc)
    | inr (out, e) ↦ elim (find_mount-Found v out) [
      | uncovered c q ↦ absurd (let k = rw (e, q, resolve_path) at r in cc)
      | covered i sub l c longest q ↦
          let found =
            q ∙ ap (λ p. some (i, p)) (root_of_root path out sub i e c (h out sub i e l c)) in
          let k = rw (e, found, resolve_path) at r in
          elim (Option-cases (resolve_on_mount (v.mounts i).ops w [])) [
            | inl f ↦ absurd (let g = rw f at k in cc)
            | inr ((n', d'), f) ↦
                let g = rw f at k in
                let same : d' ≡ d = cc in sym same ∙ root_is_dir (v.mounts i).ops w n' d' f
          ]
    ]
  ]

  resolve_file-none : (w : W) (path : List ℕ) → OnlyRoot path → resolve_file v w (some path) ≡ none
  resolve_file-none w path h = elim (Option-cases (resolve_path v w (some path))) [
    | inl e ↦ rw (e, resolve_file) refl
    | inr ((ops, n, d), e) ↦ rw (e, resolve_file) (rw (resolve_path-is_dir w path ops n d h e) refl)
  ]

  open_file-none :
      (w : W) (path : List ℕ) (flags : ℕ)
      → OnlyRoot path
      → (open_file v w (some path) flags).1 ≡ none
  unfolding open_file
  open_file-none w path flags h =
      rw (resolve_file-none w path h, open_file)
        (if_cases (λ (r : W × Option (FsOps W N × N)). r.1 ≡ none) (bit_and flags o_create == 0)
          (λ e. refl)
          (λ e.
            if_both (λ (r : W × Option (FsOps W N × N)). r.1 ≡ none)
              (is_negative (vfs_create v w (some path)).1) refl
              (resolve_file-none (vfs_create v w (some path)).0 path h)))

  -- vfs_open returns -1 for every path that no mount covers but one at the root, and opens no
  -- descriptor: also with VFS_O_CREATE, when the file has been created before it fails.
  pub vfs_open-rooted :
      (w : W) (path : List ℕ) (flags : ℕ)
      → OnlyRoot path
      → ((vfs_open v w (some path) flags).0 ≡ v) × ((vfs_open v w (some path) flags).2 ≡ failed)
  unfolding vfs_open
  vfs_open-rooted w path flags h = rw (open_file-none w path flags h, vfs_open) (refl, refl)
