-- ===== src/Ramfs.antt =====
-- kernel/fs/ramfs.c and ramfs.h: the file system in memory. The array `g_nodes` is a function from
-- the index to the entry, of which only the first 96 are used; an index of -1 is `none`. A name is
-- its text without the terminating NUL, a node pointer is the node's index, and NULL is `none`.
-- A `memcpy` between the entry's 512 bytes and a buffer is written in closed form (Text.Move shows
-- that memcpy moves bytes so).
pub mod Entries
pub mod Content
mod Tests
pub mod Walks
pub mod Files
pub mod Create
use ronin_os.Base.{
  ℕ, zero, suc, ◌+◌, ◌-◌, Bool, true, false, not, ◌&&◌, ◌||◌, Option, none, some, List, [], ◌∷◌,
  ◌==◌, leb, ltb, if◌then◌else◌, length, is_some,
}
use ronin_os.Text.Strings.{text_eq}

abbrev pub ramfs_max_nodes : ℕ
ramfs_max_nodes = 96

abbrev pub ramfs_max_name : ℕ
ramfs_max_name = 24

abbrev pub ramfs_max_content : ℕ
ramfs_max_content = 512

pub record Node : Type 0 where
  pub used : Bool
  pub is_dir : Bool
  pub parent : Option ℕ
  pub first_child : Option ℕ
  pub next_sibling : Option ℕ
  pub name : List ℕ
  pub content : ℕ → ℕ
  pub size : ℕ

abbrev pub Nodes : Type 0
Nodes = ℕ → Node

-- An entry after `memset` to 0.
abbrev pub zero_node : Node
zero_node = record {
  used = false;
  is_dir = false;
  parent = some 0;
  first_child = some 0;
  next_sibling = some 0;
  name = [];
  content = λ k. 0;
  size = 0;
}

abbrev pub put : Nodes → ℕ → Node → Nodes
put s i n = λ j. if i == j then n else s j

-- The bytes of `dst` with `n` bytes of `src`, from `from` on, at `at`.
abbrev pub copy_bytes : (ℕ → ℕ) → ℕ → (ℕ → ℕ) → ℕ → ℕ → ℕ → ℕ
copy_bytes dst at src from n =
    λ q. if leb at q && ltb q (at + n) then src (from + (q - at)) else dst q

-- What is left in `dst`; `none` for the error of an empty or too long text.
pub s_copy : Option (List ℕ) → ℕ → Option (List ℕ)
s_copy none max = none
s_copy (some []) max = none
s_copy (some (x ∷ xs)) max = if ltb (length (x ∷ xs)) max then some (x ∷ xs) else none

-- The search of node_alloc from the entry `i` on.
pub alloc_loop : ℕ → Nodes → ℕ → Option ℕ
alloc_loop zero s i = none
alloc_loop (suc rounds) s i =
    let rest = alloc_loop rounds s (i + 1) in if not (s i).used then some i else rest

abbrev pub fresh_node : Node
fresh_node = record zero_node {
  used = true;
  parent = none;
  first_child = none;
  next_sibling = none;
}

pub node_alloc : Nodes → Option (Nodes × ℕ)
node_alloc s = elim (alloc_loop ramfs_max_nodes s 0) [
  | none ↦ none
  | some i ↦ some (put s i fresh_node, i)
]

-- How a call ends that walks along `next_sibling`: `unending` if the rounds do not suffice.
pub data Result (A : Type 0) : Type 0 where
  unending : Result A
  failure : Result A
  success : A → Result A

pub find_loop : ℕ → Nodes → Option ℕ → List ℕ → Result ℕ
find_loop rounds s none name = failure
find_loop zero s (some child) name = unending
find_loop (suc rounds) s (some child) name =
    let rest = find_loop rounds s (s child).next_sibling name in
    if text_eq (s child).name name then success child else rest

pub node_find_child : ℕ → Nodes → ℕ → List ℕ → Result ℕ
node_find_child rounds s dir_idx name = find_loop rounds s (s dir_idx).first_child name

-- The results of node_create_child: no return, the index, -1 and -2.
pub data Created : Type 0 where
  never : Created
  created : ℕ → Created
  refused : Created
  full : Created

-- From the successful `s_copy` on.
abbrev pub link_child : Nodes → (dir_idx idx : ℕ) → List ℕ → Bool → Nodes
link_child s dir_idx idx name is_dir =
    let s1 = put s idx (record (s idx) {
      name = name;
      is_dir = is_dir;
      parent = some dir_idx;
      next_sibling = (s dir_idx).first_child;
    }) in
    put s1 dir_idx (record (s1 dir_idx) { first_child = some idx })

pub node_create_child : ℕ → Nodes → ℕ → List ℕ → Bool → Nodes × Created
node_create_child rounds s dir_idx name is_dir = elim (node_find_child rounds s dir_idx name) [
  | unending ↦ (s, never)
  | success i ↦ (s, refused)
  | failure ↦ elim (node_alloc s) [
    | none ↦ (s, full)
    | some (s1, idx) ↦ elim (s_copy (some name) ramfs_max_name) [
      | none ↦ (put s1 idx (record (s1 idx) { used = false }), refused)
      | some copied ↦ (link_child s1 dir_idx idx copied is_dir, created idx)
    ]
  ]
]

-- `!dir`, the range of the index and `is_dir`, which fs_lookup, fs_create and fs_readdir test.
pub check_dir : Nodes → Option ℕ → Option ℕ
check_dir s none = none
check_dir s (some d) = if leb ramfs_max_nodes d || not (s d).is_dir then none else some d

pub fs_get_root : ℕ
fs_get_root = 0

-- The node and whether it is a directory.
pub fs_lookup : ℕ → Nodes → Option ℕ → Option (List ℕ) → Result (ℕ × Bool)
fs_lookup rounds s dir none = failure
fs_lookup rounds s dir (some name) = elim (check_dir s dir) [
  | none ↦ failure
  | some d ↦ elim (node_find_child rounds s d name) [
    | unending ↦ unending
    | failure ↦ failure
    | success i ↦ success (i, (s i).is_dir)
  ]
]

-- An answer of node_create_child that is negative is handed on.
pub fs_create : ℕ → Nodes → Option ℕ → Option (List ℕ) → Bool → Nodes × Created
fs_create rounds s dir none is_dir = (s, refused)
fs_create rounds s dir (some name) is_dir = elim (check_dir s dir) [
  | none ↦ (s, refused)
  | some d ↦ node_create_child rounds s d name is_dir
]

abbrev pub at_most : ℕ → ℕ → ℕ
at_most can n = if ltb n can then n else can

-- The buffer afterwards and the number of bytes; `none` for -1.
pub fs_read : Nodes → Option ℕ → ℕ → Option (ℕ → ℕ) → ℕ → Option ((ℕ → ℕ) × ℕ)
fs_read s none offset buf n = none
fs_read s (some f) offset none n = none
fs_read s (some f) offset (some buf) n =
    if (s f).is_dir
    then none
    else if leb (s f).size offset
    then some (buf, 0)
    else let can = at_most ((s f).size - offset) n in
      some (copy_bytes buf 0 (s f).content offset can, can)

pub fs_write : Nodes → Option ℕ → ℕ → Option (ℕ → ℕ) → ℕ → Option (Nodes × ℕ)
fs_write s none offset buf n = none
fs_write s (some f) offset none n = none
fs_write s (some f) offset (some buf) n =
    if (s f).is_dir
    then none
    else let off = if ltb (s f).size offset then (s f).size else offset in
      let can = at_most (ramfs_max_content - off) n in
      if can == 0
      then some (s, 0)
      else some (
        put s f (record (s f) {
          content = copy_bytes (s f).content off buf 0 can;
          size = if ltb (s f).size (off + can) then off + can else (s f).size;
        }),
        can,
      )
