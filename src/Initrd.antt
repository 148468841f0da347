-- ===== src/Initrd.antt =====
-- kernel/fs/initrd.c: the boot modules as the files of a read-only file system. `g_initrd` and the
-- memory are the state that the operations of the VFS work on; `ctx` is always `g_initrd`. The array
-- `files` is a function from the index, of which the first 32 are used, and a name is its text without
-- the terminating NUL. What is printed is left out.
pub mod Names
pub mod Modules
mod Tests
use ronin_os.Base.{
  ℕ, zero, suc, ◌+◌, ◌-◌, ◌*◌, ◌/◌, ◌%◌, ◌^◌, Bool, true, false, not, ◌&&◌, ◌||◌, Option, none,
  some, List, [], ◌∷◌, ◌++◌, ◌==◌, leb, ltb, if◌then◌else◌, add32, sub32, take,
}
use ronin_os.Text.{ℤ, pos, int_of, memcpy}
use ronin_os.Text.Strings.{text_eq}
use ronin_os.Multiboot.{
  Bytes, bootloader_magic, total_size, tag_type, tag_type_module, mod_start, mod_end, walk_tags,
}
use ronin_os.Vfs.{FsOps, Dirent, Vfs}
use ronin_os.Vfs.Files.{failed}
use ronin_os.Vfs.Mounts.{vfs_mount}

abbrev pub initrd_max_files : ℕ
initrd_max_files = 32

abbrev pub initrd_max_name : ℕ
initrd_max_name = 32

pub record File : Type 0 where
  pub used : Bool
  pub data_at : ℕ
  pub size : ℕ
  pub name : List ℕ

pub record Initrd : Type 0 where
  pub files : ℕ → File
  pub count : ℕ

pub record World : Type 0 where
  pub memory : Bytes
  pub initrd : Initrd

-- A node pointer: NULL, the root sentinel or an entry of `files`.
pub data NodePtr : Type 0 where
  null root : NodePtr
  file : ℕ → NodePtr

-- The digits of `n` before `out`, by the loop that fills `rev`.
unfoldable pub digits_loop : ℕ → ℕ → List ℕ → List ℕ
digits_loop zero n out = out
digits_loop (suc rounds) n out =
    let rest = digits_loop rounds (n / 10) ((48 + n % 10) ∷ out) in if n == 0 then out else rest

unfoldable pub append_u32 : ℕ → List ℕ
append_u32 n = if n == 0 then 48 ∷ [] else digits_loop 10 n []

-- "module" and the index
abbrev pub module_name : ℕ → List ℕ
module_name idx = 109 ∷ 111 ∷ 100 ∷ 117 ∷ 108 ∷ 101 ∷ append_u32 idx

-- `while (*p && *p != ' ') p++`: the text up to `p`.
abbrev pub before_space : List ℕ → List ℕ
before_space [] = []
before_space (c ∷ cs) = if c == 32 then [] else c ∷ before_space cs

-- `while (start < p)`: the text from `last` on.
abbrev pub behind_slash : List ℕ → List ℕ → List ℕ
behind_slash last [] = last
behind_slash last (c ∷ cs) = behind_slash (if c == 47 then cs else last) cs

-- The rest, where `name` is what the copying loop leaves in `out`.
abbrev pub or_module : List ℕ → ℕ → List ℕ
or_module [] idx = module_name idx
or_module (c ∷ cs) idx = c ∷ cs

unfoldable pub basename_from_cmdline : List ℕ → (out_sz idx : ℕ) → List ℕ
basename_from_cmdline cmdline out_sz idx =
    let word = before_space cmdline in or_module (take (out_sz - 1) (behind_slash word word)) idx

unfoldable pub lookup_loop : ℕ → Initrd → List ℕ → ℕ → Option (NodePtr × Bool)
lookup_loop zero s name i = none
lookup_loop (suc rounds) s name i =
    let rest = lookup_loop rounds s name (i + 1) in
    if (s.files i).used && text_eq (s.files i).name name then some (file i, false) else rest

abbrev pub initrd_lookup : World → NodePtr → List ℕ → Option (NodePtr × Bool)
initrd_lookup w root name = lookup_loop w.initrd.count w.initrd name 0
initrd_lookup w null name = none
initrd_lookup w (file i) name = none

abbrev pub initrd_create : World → NodePtr → List ℕ → Bool → World × ℤ
initrd_create w dir name is_dir = (w, failed)

-- `offset` is in the file: `can` bytes are copied.
abbrev pub read_at : World → File → (offset buf n : ℕ) → World × ℤ
read_at w f offset buf n =
    let can = if ltb n (f.size - offset) then n else f.size - offset in
    (record w { memory = memcpy w.memory buf (add32 f.data_at offset) can }, int_of can)

-- The root sentinel is no file, and is never opened as one.
unfoldable pub initrd_read : World → NodePtr → (offset buf n : ℕ) → World × ℤ
initrd_read w null offset buf n = (w, failed)
initrd_read w root offset buf n = (w, failed)
initrd_read w (file i) offset buf n =
    if buf == 0
    then (w, failed)
    else if leb (w.initrd.files i).size offset
    then (w, pos 0)
    else read_at w (w.initrd.files i) offset buf n

abbrev pub initrd_write : World → NodePtr → (offset buf n : ℕ) → World × ℤ
initrd_write w node offset buf n = (w, failed)

unfoldable pub readdir_loop : ℕ → Initrd → (index i current : ℕ) → Option Dirent
readdir_loop zero s index i current = none
readdir_loop (suc rounds) s index i current =
    let skipped = readdir_loop rounds s index (i + 1) current in
    let counted = readdir_loop rounds s index (i + 1) (current + 1) in
    if not (s.files i).used
    then skipped
    else if current == index
    then some (record { name = (s.files i).name; is_dir = false; size = (s.files i).size })
    else counted

abbrev pub initrd_readdir : World → NodePtr → ℕ → Option Dirent
initrd_readdir w root index = readdir_loop w.initrd.count w.initrd index 0 0
initrd_readdir w null index = none
initrd_readdir w (file i) index = none

abbrev pub initrd_size : World → NodePtr → ℕ
initrd_size w null = 0
initrd_size w root = 0
initrd_size w (file i) = (w.initrd.files i).size

abbrev pub initrd_ops : FsOps World NodePtr
initrd_ops = record {
  get_root = some (λ w. root);
  lookup = some initrd_lookup;
  create = some initrd_create;
  read = some initrd_read;
  write = some initrd_write;
  readdir = some initrd_readdir;
  size = some initrd_size;
}

abbrev pub no_files : Initrd
no_files = record {
  files = λ i. record { used = false; data_at = 0; size = 0; name = [] };
  count = 0;
}

-- The text of the C string at an address; `none` if it is longer than the rounds.
unfoldable pub text_at : ℕ → Bytes → ℕ → Option (List ℕ)
text_at zero m a = none
text_at (suc rounds) m a = elim (m a == 0) [
  | true ↦ some []
  | false ↦ elim (text_at rounds m (a + 1)) [ none ↦ none | some t ↦ some (m a ∷ t) ]
]

-- `g_initrd` with the module of a tag, whose command line is given.
abbrev pub add_file : Bytes → Initrd → ℕ → List ℕ → ℕ → Initrd
add_file m s tag cmdline idx =
    if ltb s.count initrd_max_files
    then record {
      files = λ j.
          if j == s.count
          then record {
            used = true;
            data_at = mod_start m tag;
            size = sub32 (mod_end m tag) (mod_start m tag);
            name = basename_from_cmdline cmdline initrd_max_name idx;
          }
          else s.files j;
      count = s.count + 1;
    }
    else s

-- The body of the walk: `g_initrd` and `mod_idx`.
unfoldable pub module_tag : ℕ → Bytes → Initrd × ℕ → ℕ → Option (Initrd × ℕ)
module_tag rounds m (s, idx) tag =
    if tag_type m tag == tag_type_module
    then elim (text_at rounds m (tag + 16)) [
      | none ↦ none
      | some cmdline ↦ some (add_file m s tag cmdline idx, add32 idx 1)
    ]
    else some (s, idx)

-- "/initrd"
abbrev pub initrd_path : List ℕ
initrd_path = 47 ∷ 105 ∷ 110 ∷ 105 ∷ 116 ∷ 114 ∷ 100 ∷ []

-- `none` if the rounds do not suffice.
unfoldable pub initrd_mount_from_multiboot :
    ℕ → Vfs World NodePtr → World → (magic info : ℕ) → Option (Vfs World NodePtr × World)
initrd_mount_from_multiboot rounds v w magic info =
    elim (vfs_mount v (some initrd_path) (some initrd_ops)) [
      | none ↦ some (v, record w { initrd = no_files })
      | some v' ↦
          if not (magic == bootloader_magic) || info == 0
          then some (v', record w { initrd = no_files })
          else elim (walk_tags rounds w.memory (module_tag rounds w.memory) (add32 info 8)
              (sub32 (add32 info (total_size w.memory info)) 8) (no_files, 0)) [
                | none ↦ none
                | some (s, idx) ↦ some (v', record w { initrd = s })
              ]
    ]
