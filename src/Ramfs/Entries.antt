-- ===== src/Ramfs/Entries.antt =====
-- The rest of kernel/fs/ramfs.c: reading a directory, and the calls on files of the root.
use ronin_os.Base.{
  ℕ, zero, suc, ◌+◌, ◌-◌, Bool, true, false, Option, none, some, List, [], ◌∷◌, ◌==◌, leb, ltb,
  if◌then◌else◌, length, get_or,
}
use ronin_os.Ramfs.{
  Nodes, zero_node, put, copy_bytes, ramfs_max_content, Result, unending, failure, success,
  node_find_child, node_create_child, Created, never, created, refused, full, check_dir,
}
use ronin_os.Text.Strings.{text_eq}

pub record DirEntry : Type 0 where
  pub entry_name : List ℕ
  pub entry_is_dir : Bool
  pub entry_size : ℕ

unfoldable pub readdir_loop : ℕ → Nodes → Option ℕ → (cur index : ℕ) → Result DirEntry
readdir_loop rounds s none cur index = failure
readdir_loop zero s (some child) cur index = unending
readdir_loop (suc rounds) s (some child) cur index =
    let rest = readdir_loop rounds s (s child).next_sibling (cur + 1) index in
    if cur == index
    then success (record {
      entry_name = (s child).name;
      entry_is_dir = (s child).is_dir;
      entry_size = (s child).size;
    })
    else rest

unfoldable pub fs_readdir : ℕ → Nodes → Option ℕ → ℕ → Result DirEntry
fs_readdir rounds s dir index = elim (check_dir s dir) [
  | none ↦ failure
  | some d ↦ readdir_loop rounds s (s d).first_child 0 index
]

unfoldable pub fs_size : Nodes → Option ℕ → ℕ
fs_size s none = 0
fs_size s (some n) = if (s n).is_dir then 0 else (s n).size

unfoldable pub ramfs_init : Nodes
ramfs_init =
    put (λ j. zero_node) 0
      (record zero_node {
        used = true;
        is_dir = true;
        parent = some 0;
        first_child = none;
        next_sibling = none;
      })

-- The results 0, -1 and -2 of ramfs_touch and ramfs_write. `faults` is the copy of nearly 4 GB that
-- appending to a full file starts, and `loops` a walk that does not end.
pub data Code : Type 0 where
  zero_code : Code
  minus_one : Code
  minus_two : Code
  faults : Code
  loops : Code

abbrev pub touch_code : Created → Code
touch_code never = loops
touch_code (created i) = zero_code
touch_code refused = minus_one
touch_code full = minus_two

unfoldable pub ramfs_touch : ℕ → Nodes → Option (List ℕ) → Nodes × Code
ramfs_touch rounds s none = (s, minus_one)
ramfs_touch rounds s (some []) = (s, minus_one)
ramfs_touch rounds s (some (x ∷ xs)) = elim (node_find_child rounds s 0 (x ∷ xs)) [
  | unending ↦ (s, loops)
  | success i ↦ (s, zero_code)
  | failure ↦ let (s', r) = node_create_child rounds s 0 (x ∷ xs) false in (s', touch_code r)
]

-- What follows the second search of ramfs_write: `len` is 512 - 1 - off in 32 bits where the text is
-- too long, which wraps if `off` is 512.
unfoldable pub write_text : Nodes → ℕ → List ℕ → Bool → Nodes × Code
write_text s idx text append =
    let off = if append then (s idx).size else 0 in
    let len =
      if leb ramfs_max_content (off + length text)
      then ramfs_max_content - 1 - off
      else length text in
    if ltb (ramfs_max_content - 1) off
    then (s, faults)
    else let copied = copy_bytes (s idx).content off (λ k. get_or text k 0) 0 len in
      (
        put s idx (record (s idx) {
          content = λ q. if q == off + len then 0 else copied q;
          size = off + len;
        }),
        zero_code,
      )

-- The text "" stands for a NULL text.
abbrev pub or_empty : Option (List ℕ) → List ℕ
or_empty none = []
or_empty (some text) = text

-- After the ramfs_touch of ramfs_write.
unfoldable pub write_touched : ℕ → Nodes × Code → List ℕ → Option (List ℕ) → Bool → Nodes × Code
write_touched rounds (s, minus_one) name text append = (s, minus_one)
write_touched rounds (s, minus_two) name text append = (s, minus_one)
write_touched rounds (s, faults) name text append = (s, faults)
write_touched rounds (s, loops) name text append = (s, loops)
write_touched rounds (s, zero_code) name text append = elim (node_find_child rounds s 0 name) [
  | unending ↦ (s, loops)
  | failure ↦ (s, minus_one)
  | success idx ↦ write_text s idx (or_empty text) append
]

unfoldable pub ramfs_write : ℕ → Nodes → Option (List ℕ) → Option (List ℕ) → Bool → Nodes × Code
ramfs_write rounds s none text append = (s, minus_one)
ramfs_write rounds s (some name) text append =
    write_touched rounds (ramfs_touch rounds s (some name)) name text append

-- The content and the size.
unfoldable pub ramfs_read : ℕ → Nodes → List ℕ → Result ((ℕ → ℕ) × ℕ)
ramfs_read rounds s name = elim (node_find_child rounds s 0 name) [
  | unending ↦ unending
  | failure ↦ failure
  | success idx ↦ if (s idx).is_dir then failure else success ((s idx).content, (s idx).size)
]

-- The unlinking of `cur`, behind `prev`, from the children of the root.
abbrev pub unlink : Nodes → Option ℕ → ℕ → Nodes
unlink s none cur =
    put (put s 0 (record (s 0) { first_child = (s cur).next_sibling })) cur zero_node
unlink s (some prev) cur =
    put (put s prev (record (s prev) { next_sibling = (s cur).next_sibling })) cur zero_node

unfoldable pub remove_loop : ℕ → Nodes → Option ℕ → Option ℕ → List ℕ → Nodes × Code
remove_loop rounds s prev none name = (s, minus_one)
remove_loop zero s prev (some cur) name = (s, loops)
remove_loop (suc rounds) s prev (some cur) name =
    let rest = remove_loop rounds s (some cur) (s cur).next_sibling name in
    if text_eq (s cur).name name then (unlink s prev cur, zero_code) else rest

unfoldable pub ramfs_remove : ℕ → Nodes → List ℕ → Nodes × Code
ramfs_remove rounds s name = remove_loop rounds s none (s 0).first_child name

unfoldable pub count_loop : ℕ → Nodes → Option ℕ → ℕ → Result ℕ
count_loop rounds s none n = success n
count_loop zero s (some cur) n = unending
count_loop (suc rounds) s (some cur) n =
    count_loop rounds s (s cur).next_sibling (if (s cur).is_dir then n else n + 1)

unfoldable pub ramfs_count : ℕ → Nodes → Result ℕ
ramfs_count rounds s = count_loop rounds s (s 0).first_child 0

unfoldable pub entry_loop : ℕ → Nodes → Option ℕ → (curi index : ℕ) → Result (List ℕ × ℕ)
entry_loop rounds s none curi index = failure
entry_loop zero s (some cur) curi index = unending
entry_loop (suc rounds) s (some cur) curi index =
    let skip = entry_loop rounds s (s cur).next_sibling curi index in
    let go = entry_loop rounds s (s cur).next_sibling (curi + 1) index in
    if (s cur).is_dir
    then skip
    else if curi == index
    then success ((s cur).name, (s cur).size)
    else go

unfoldable pub ramfs_get_entry : ℕ → Nodes → ℕ → Result (List ℕ × ℕ)
ramfs_get_entry rounds s index = entry_loop rounds s (s 0).first_child 0 index
