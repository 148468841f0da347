-- ===== src/Multiboot.antt =====
-- kernel/mem/multiboot2.h, and the walks over its tags that kernel/mem/pmm.c and kernel/fs/initrd.c
-- make. Memory is a function from the address to the byte; words are little-endian, and the fields of
-- the structures stand at the offsets that their C types give.
pub mod Walks
use ronin_os.Base.{
  ℕ, zero, suc, ◌+◌, ◌-◌, ◌*◌, ◌/◌, ◌%◌, ◌^◌, Bool, true, false, not, ◌&&◌, ◌||◌, Option, none,
  some, ◌==◌, leb, ltb, if◌then◌else◌, add32, sub32,
}
use Prim.Native.Nat.{bit_and}

abbrev pub Bytes : Type 0
Bytes = ℕ → ℕ

unfoldable pub read32 : Bytes → ℕ → ℕ
read32 m a = m a + 256 * m (a + 1) + 256 ^ 2 * m (a + 2) + 256 ^ 3 * m (a + 3)

unfoldable pub read64 : Bytes → ℕ → ℕ
unfolding read32
read64 m a = read32 m a + 2 ^ 32 * read32 m (a + 4)

abbrev pub bootloader_magic : ℕ
bootloader_magic = 0x36d7_6289

abbrev pub tag_type_end : ℕ
tag_type_end = 0

abbrev pub tag_type_module : ℕ
tag_type_module = 3

abbrev pub tag_type_basic_meminfo : ℕ
tag_type_basic_meminfo = 4

abbrev pub tag_type_mmap : ℕ
tag_type_mmap = 6

abbrev pub tag_type_framebuffer : ℕ
tag_type_framebuffer = 8

abbrev pub mmap_type_available : ℕ
mmap_type_available = 1

-- struct mb2_info_header
abbrev pub total_size : Bytes → ℕ → ℕ
total_size m info = read32 m info

-- struct mb2_tag
abbrev pub tag_type : Bytes → ℕ → ℕ
tag_type m tag = read32 m tag

abbrev pub tag_size : Bytes → ℕ → ℕ
tag_size m tag = read32 m (tag + 4)

-- struct mb2_tag_module
abbrev pub mod_start : Bytes → ℕ → ℕ
mod_start m tag = read32 m (tag + 8)

abbrev pub mod_end : Bytes → ℕ → ℕ
mod_end m tag = read32 m (tag + 12)

-- struct mb2_tag_basic_meminfo
abbrev pub mem_upper : Bytes → ℕ → ℕ
mem_upper m tag = read32 m (tag + 12)

-- struct mb2_tag_mmap
abbrev pub entry_size : Bytes → ℕ → ℕ
entry_size m tag = read32 m (tag + 8)

abbrev pub entries : ℕ → ℕ
entries tag = add32 tag 16

-- struct mb2_mmap_entry
abbrev pub entry_addr : Bytes → ℕ → ℕ
entry_addr m e = read64 m e

abbrev pub entry_len : Bytes → ℕ → ℕ
entry_len m e = read64 m (e + 8)

abbrev pub entry_type : Bytes → ℕ → ℕ
entry_type m e = read32 m (e + 16)

-- struct mb2_tag_framebuffer_common
abbrev pub framebuffer_addr : Bytes → ℕ → ℕ
framebuffer_addr m tag = read64 m (tag + 8)

abbrev pub framebuffer_pitch : Bytes → ℕ → ℕ
framebuffer_pitch m tag = read32 m (tag + 16)

abbrev pub framebuffer_height : Bytes → ℕ → ℕ
framebuffer_height m tag = read32 m (tag + 24)

-- `tag + ((tag->size + 7u) & ~7u)`
unfoldable pub tag_end : Bytes → ℕ → ℕ
tag_end m tag = add32 tag (bit_and (add32 (tag_size m tag) 7) 0xffff_fff8)

-- The `while` over the tags from `tag` up to `end`, with the body `f`; `none` if the rounds do not
-- suffice, or if a body's loop does not end.
unfoldable pub walk_tags : {A : Type 0} → ℕ → Bytes → (A → ℕ → Option A) → ℕ → ℕ → A → Option A
walk_tags zero m f tag end a = none
walk_tags (suc rounds) m f tag end a =
    if not (ltb tag end) || tag_type m tag == tag_type_end
    then some a
    else elim (f a tag) [ none ↦ none | some a' ↦ walk_tags rounds m f (tag_end m tag) end a' ]

-- The `while` over the entries of a memory map, which steps by `size` up to `lim`.
unfoldable pub walk_entries : {A : Type 0} → ℕ → (A → ℕ → A) → (size lim ptr : ℕ) → A → Option A
walk_entries zero f size lim ptr a = none
walk_entries (suc rounds) f size lim ptr a =
    let rest = walk_entries rounds f size lim (add32 ptr size) (f a ptr) in
    if leb (add32 ptr size) lim then rest else some a
