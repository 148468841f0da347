-- ===== src/Vfs/Tests.antt =====
-- A file system with one file, named a, mounted at / and at /fs.
use ronin_os.Base.{
  ℕ, ◌+◌, ◌≡◌, refl, true, false, ◌&&◌, none, some, List, [], ◌∷◌, ◌==◌, if◌then◌else◌, Bool-cases,
  inl, inr, ◌↔◌,
}
use ronin_os.Text.{pos}
use ronin_os.Text.Strings.{text_eq}
use ronin_os.Vfs.{Vfs, FsOps, zero_mount, vfs_init, slash, o_rdwr}
use ronin_os.Vfs.Normal.{
  normalize_path, absolute, segments_loop, next_segment, push_segment, join_loop,
}
use ronin_os.Vfs.Mounts.{
  is_prefix, starts_with, find_mount, find_mount_loop, resolve_path, resolve_on_mount, lookup_loop,
}
use ronin_os.Vfs.Files.{failed, open_file, with_fd, fd_loop, vfs_open, vfs_read}
use ronin_os.Vfs.Paths.{Normalised, normalize_path-Normalised, normalize_path-again}
use ronin_os.Vfs.NormalForm.{NormalForm, normalize_path-NormalForm}
use ronin_os.Vfs.Longest.{Found, find_mount-Found}
use ronin_os.Vfs.Rooted.{OnlyRoot, vfs_open-rooted}
use ronin_os.Vfs.Descriptors.{Opening, vfs_open-Opening, vfs_read-vfs_open}

-- The node 0 is the root and 1 the file; the state is the number of reads.
abbrev one_file : FsOps ℕ ℕ
one_file = record {
  get_root = some (λ w. 0);
  lookup = some (λ w n name. if n == 0 && text_eq name (97 ∷ []) then some (1, false) else none);
  create = none;
  read = some (λ w n offset buf count. (w + 1, pos 0));
  write = none;
  readdir = none;
  size = none;
}

abbrev mounted_at : List ℕ → Vfs ℕ ℕ
mounted_at place = record (vfs_init 0) {
  mounts = λ i.
      if i == 0 then record { used = true; mountpoint = place; ops = one_file } else zero_mount;
}

-- /fs
abbrev fs : List ℕ
fs = 47 ∷ 102 ∷ 115 ∷ []

-- /fs/a
abbrev fs_a : List ℕ
fs_a = 47 ∷ 102 ∷ 115 ∷ 47 ∷ 97 ∷ []

-- fs/./x/../a
abbrev winding : List ℕ
winding = 102 ∷ 115 ∷ 47 ∷ 46 ∷ 47 ∷ 120 ∷ 47 ∷ 46 ∷ 46 ∷ 47 ∷ 97 ∷ []

winding_normal : normalize_path (slash ∷ []) (some winding) ≡ some fs_a
unfolding normalize_path absolute segments_loop next_segment push_segment join_loop text_eq
winding_normal = refl

normalize_path-Normalised_instance :
    (normalize_path (slash ∷ []) (some winding) ≡ some fs_a) ↔ Normalised (slash ∷ []) winding fs_a
normalize_path-Normalised_instance = normalize_path-Normalised (slash ∷ []) winding fs_a

normalize_path-NormalForm_example :
    (normalize_path (slash ∷ []) (some winding) ≡ some fs_a) ↔ NormalForm (slash ∷ []) winding fs_a
normalize_path-NormalForm_example = normalize_path-NormalForm [] winding fs_a

normalize_path-again_instance : normalize_path fs (some fs_a) ≡ some fs_a
normalize_path-again_instance = normalize_path-again (slash ∷ []) fs winding fs_a winding_normal

find_mount-Found_example : Found (mounted_at fs) fs_a (find_mount (mounted_at fs) fs_a)
find_mount-Found_example = find_mount-Found (mounted_at fs) fs_a

root_OnlyRoot : OnlyRoot (mounted_at (slash ∷ [])) fs_a
root_OnlyRoot out sub j e l c = elim (Bool-cases (j == 0)) [
  | inl h ↦ rw h refl
  | inr h ↦ absurd (let k = rw h at c.0 in cc)
]

vfs_open-rooted_example :
    ((vfs_open (mounted_at (slash ∷ [])) 7 (some fs_a) o_rdwr).0 ≡ mounted_at (slash ∷ []))
    × ((vfs_open (mounted_at (slash ∷ [])) 7 (some fs_a) o_rdwr).2 ≡ failed)
vfs_open-rooted_example = vfs_open-rooted (mounted_at (slash ∷ [])) 7 fs_a o_rdwr root_OnlyRoot

vfs_open-Opening_example :
    Opening
      (mounted_at fs)
      o_rdwr
      (open_file (mounted_at fs) 7 (some fs_a) o_rdwr)
      (vfs_open (mounted_at fs) 7 (some fs_a) o_rdwr)
vfs_open-Opening_example = vfs_open-Opening (mounted_at fs) 7 (some fs_a) o_rdwr

abbrev opened_a : Vfs ℕ ℕ
opened_a =
    with_fd (mounted_at fs) 0
      (record { used = true; flags = o_rdwr; ops = one_file; node = 1; pos = 0 })

opens_a : vfs_open (mounted_at fs) 7 (some fs_a) o_rdwr ≡ (opened_a, 7, pos 0)
unfolding vfs_open open_file fd_loop resolve_path normalize_path absolute segments_loop next_segment
    push_segment join_loop text_eq find_mount find_mount_loop starts_with is_prefix resolve_on_mount
    lookup_loop
opens_a = refl

vfs_read-vfs_open_example : vfs_read opened_a 7 (pos 0) 100 5 ≡ (opened_a, 7, failed)
vfs_read-vfs_open_example =
    vfs_read-vfs_open (mounted_at fs) opened_a 7 7 7 (some fs_a) o_rdwr 0 100 5 opens_a refl
