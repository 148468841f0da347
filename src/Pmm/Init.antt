-- ===== src/Pmm/Init.antt =====
-- pmm_init of kernel/mem/pmm.c: which frames it leaves free, from the multiboot information in memory.
use ronin_os.Base.{
  ℕ, ◌+◌, ◌/◌, ◌%◌, ◌^◌, true, false, not, ◌&&◌, ◌||◌, Option, none, some, ◌==◌, ltb, if◌then◌else◌,
  add32, sub32, mul32,
}
use ronin_os.Multiboot.{
  Bytes, bootloader_magic, total_size, tag_type, tag_size, tag_type_module, tag_type_basic_meminfo,
  tag_type_mmap, tag_type_framebuffer, mmap_type_available, mod_start, mod_end, mem_upper,
  entry_size, entries, entry_addr, entry_len, entry_type, framebuffer_addr, framebuffer_pitch,
  framebuffer_height, walk_tags, walk_entries,
}
use ronin_os.Pmm.{Pmm, frame_size, pmm_max_phys_addr, align_down, reserve_range, free_range}

-- `e->addr + e->len` in 64 bits
abbrev pub entry_end : Bytes → ℕ → ℕ
entry_end m e = (entry_addr m e + entry_len m e) % 2 ^ 64

-- The entries of the memory map in a tag.
abbrev pub for_entries : {A : Type 0} → ℕ → Bytes → (A → ℕ → A) → A → ℕ → Option A
for_entries rounds m f a tag =
    walk_entries rounds f (entry_size m tag) (add32 tag (tag_size m tag)) (entries tag) a

unfoldable pub highest_of_entry : Bytes → ℕ → ℕ → ℕ
highest_of_entry m highest e =
    if entry_type m e == mmap_type_available && ltb highest (entry_end m e)
    then (if ltb 0xffff_ffff (entry_end m e) then 0xffff_ffff else entry_end m e)
    else highest

-- The body of the first walk.
unfoldable pub highest_of_tag : ℕ → Bytes → ℕ → ℕ → Option ℕ
highest_of_tag rounds m highest tag =
    if tag_type m tag == tag_type_mmap
    then for_entries rounds m (highest_of_entry m) highest tag
    else if tag_type m tag == tag_type_basic_meminfo
    then (let basic_top = add32 0x10_0000 (mul32 (mem_upper m tag) 1024) in
        some (if ltb highest basic_top then basic_top else highest))
    else some highest

unfoldable pub free_entry : Bytes → Pmm → ℕ → Pmm
free_entry m p e =
    if entry_type m e == mmap_type_available
    then free_range p (entry_addr m e % 2 ^ 32) (entry_end m e % 2 ^ 32)
    else p

-- The body of the second walk.
unfoldable pub free_tag : ℕ → Bytes → Pmm → ℕ → Option Pmm
free_tag rounds m p tag =
    if tag_type m tag == tag_type_mmap then for_entries rounds m (free_entry m) p tag else some p

-- The body of the third walk.
unfoldable pub reserve_tag : Bytes → Pmm → ℕ → Option Pmm
reserve_tag m p tag =
    if tag_type m tag == tag_type_module
    then some (reserve_range p (mod_start m tag) (mod_end m tag))
    else if tag_type m tag == tag_type_framebuffer
    then (let start = framebuffer_addr m tag % 2 ^ 32 in
        let bytes = mul32 (framebuffer_pitch m tag) (framebuffer_height m tag) in
        some (reserve_range p start (add32 start bytes)))
    else some p

-- The allocator with every frame in use, from the highest available address on.
unfoldable pub all_used : ℕ → Pmm
all_used highest =
    let limit =
      if highest == 0 || ltb pmm_max_phys_addr highest then pmm_max_phys_addr else highest in
    let max = align_down limit frame_size in
    record {
      bitmap = λ i. 0xffff_ffff;
      max_addr = max;
      total_frames = max / frame_size;
      free_frames = 0;
      used_frames = max / frame_size;
      managed_bytes = max;
      ready = false;
    }

-- How pmm_init ends; `endless` if a walk does not end in the rounds given.
pub data Started : Type 0 where
  panics : Started
  endless : Started
  started : Pmm → Started

-- The three ranges that are reserved between the second and the third walk.
unfoldable pub reserve_fixed : Bytes → (kernel_start kernel_end info : ℕ) → Pmm → Pmm
reserve_fixed m kernel_start kernel_end info p =
    reserve_range (reserve_range (reserve_range p 0 0x10_0000) kernel_start kernel_end) info
      (add32 info (total_size m info))

-- `kernel_start` and `kernel_end` are the addresses that the linker gives. `g_ready` is set at the
-- end; before, the flag is not read.
unfoldable pub pmm_init : ℕ → Bytes → (kernel_start kernel_end magic info : ℕ) → Started
pmm_init rounds m kernel_start kernel_end magic info =
    if not (magic == bootloader_magic) || info == 0
    then panics
    else let tags = add32 info 8 in
      let end = sub32 (add32 info (total_size m info)) 8 in
      elim (walk_tags rounds m (highest_of_tag rounds m) tags end 0) [
        | none ↦ endless
        | some highest ↦ elim (walk_tags rounds m (free_tag rounds m) tags end (all_used highest)) [
          | none ↦ endless
          | some p ↦
              elim (walk_tags rounds m (reserve_tag m) tags end
                (reserve_fixed m kernel_start kernel_end info p)) [
                  | none ↦ endless
                  | some p' ↦ started (record p' { ready = true })
                ]
        ]
      ]
