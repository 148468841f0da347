-- ===== src/Pmm.antt =====
-- kernel/mem/pmm.c and pmm.h: the bitmap of physical frames. The lock and the disabled interrupts make
-- each call one step. The bitmap is a function from the index to the 32-bit word, of which the first
-- 4096 are used; a set bit is a frame in use. What is printed is left out.
pub mod Alloc
pub mod Bitmap
pub mod Boot
pub mod Init
mod Kept
pub mod Ranges
mod Tests
use Prim.Native.Nat.{bit_and, bit_or}
use ronin_os.Base.{
  ℕ, zero, suc, ◌+◌, ◌-◌, ◌*◌, ◌/◌, ◌%◌, ◌^◌, Bool, true, false, not, ◌&&◌, ◌||◌, Option, none,
  some, ◌==◌, leb, ltb, if◌then◌else◌, add32, sub32,
}

-- PMM_FRAME_SIZE
abbrev pub frame_size : ℕ
frame_size = 4096

abbrev pub pmm_max_phys_addr : ℕ
pmm_max_phys_addr = 512 * 1024 * 1024

abbrev pub pmm_max_frames : ℕ
pmm_max_frames = pmm_max_phys_addr / frame_size

abbrev pub pmm_bitmap_words : ℕ
pmm_bitmap_words = pmm_max_frames / 32

pub record Pmm : Type 0 where
  pub bitmap : ℕ → ℕ
  pub max_addr : ℕ
  pub total_frames : ℕ
  pub free_frames : ℕ
  pub used_frames : ℕ
  pub managed_bytes : ℕ
  pub ready : Bool

pub record FrameStats : Type 0 where
  pub total : ℕ
  pub free : ℕ
  pub used : ℕ
  pub managed : ℕ

-- `(v + (a - 1u)) & ~(a - 1u)`
pub align_up : ℕ → ℕ → ℕ
align_up v a = bit_and (add32 v (a - 1)) (0xffff_ffff - (a - 1))

pub align_down : ℕ → ℕ → ℕ
align_down v a = bit_and v (0xffff_ffff - (a - 1))

abbrev pub with_word : (ℕ → ℕ) → ℕ → ℕ → ℕ → ℕ
with_word b i w = λ j. if j == i then w else b j

pub set_frame : (ℕ → ℕ) → ℕ → ℕ → ℕ
set_frame b idx = with_word b (idx / 32) (bit_or (b (idx / 32)) (2 ^ (idx % 32)))

pub clear_frame : (ℕ → ℕ) → ℕ → ℕ → ℕ
clear_frame b idx = with_word b (idx / 32) (bit_and (b (idx / 32)) (0xffff_ffff - 2 ^ (idx % 32)))

unfoldable pub is_set : (ℕ → ℕ) → ℕ → Bool
is_set b idx = not (bit_and (b (idx / 32)) (2 ^ (idx % 32)) == 0)

-- `set_frame` and the two counters.
abbrev pub take_frame : Pmm → ℕ → Pmm
take_frame p i = record p {
  bitmap = set_frame p.bitmap i;
  free_frames = sub32 p.free_frames 1;
  used_frames = add32 p.used_frames 1;
}

-- `clear_frame` and the two counters.
abbrev pub give_frame : Pmm → ℕ → Pmm
give_frame p i = record p {
  bitmap = clear_frame p.bitmap i;
  free_frames = add32 p.free_frames 1;
  used_frames = sub32 p.used_frames 1;
}

pub reserve_loop : ℕ → Pmm → ℕ → Pmm
reserve_loop zero p i = p
reserve_loop (suc rounds) p i =
    reserve_loop rounds (if not (is_set p.bitmap i) then take_frame p i else p) (i + 1)

pub free_loop : ℕ → Pmm → ℕ → Pmm
free_loop zero p i = p
free_loop (suc rounds) p i =
    free_loop rounds (if is_set p.bitmap i then give_frame p i else p) (i + 1)

-- `if (end > g_max_addr) end = g_max_addr`
abbrev pub clamp : Pmm → ℕ → ℕ
clamp p end = if ltb p.max_addr end then p.max_addr else end

pub reserve_range : Pmm → (start end : ℕ) → Pmm
reserve_range p start end =
    if leb end start
    then p
    else if leb p.max_addr start
    then p
    else let s = align_down start frame_size / frame_size in
      let e = align_up (clamp p end) frame_size / frame_size in reserve_loop (e - s) p s

pub free_range : Pmm → (start end : ℕ) → Pmm
free_range p start end =
    if leb end start
    then p
    else if leb p.max_addr start
    then p
    else let s = align_down start frame_size / frame_size in
      let e = align_up (clamp p end) frame_size / frame_size in free_loop (e - s) p s

-- The loop over the bits of word `i`; `none` if it finds no free frame below the total.
pub alloc_bits : ℕ → Pmm → (i bit : ℕ) → Option (Pmm × ℕ)
alloc_bits zero p i bit = none
alloc_bits (suc rounds) p i bit =
    let frame = add32 (i * 32) bit in
    let rest = alloc_bits rounds p i (bit + 1) in
    if leb p.total_frames frame
    then none
    else if bit_and (p.bitmap i) (2 ^ bit) == 0
    then some (
      record p {
        bitmap = with_word p.bitmap i (bit_or (p.bitmap i) (2 ^ bit));
        free_frames = sub32 p.free_frames 1;
        used_frames = add32 p.used_frames 1;
      },
      frame,
    )
    else rest

-- The loop over the words.
pub alloc_words : ℕ → Pmm → ℕ → Option (Pmm × ℕ)
alloc_words zero p i = none
alloc_words (suc rounds) p i =
    let rest = alloc_words rounds p (i + 1) in
    if p.bitmap i == 0xffff_ffff
    then rest
    else elim (alloc_bits 32 p i 0) [ none ↦ rest | some r ↦ some r ]

pub pmm_alloc_frame : Pmm → Pmm × ℕ
pmm_alloc_frame p = if not p.ready then (p, 0) else elim (alloc_words pmm_bitmap_words p 0) [
  | none ↦ (p, 0)
  | some (p', frame) ↦ (p', frame * frame_size)
]

pub pmm_free_frame : Pmm → ℕ → Pmm
pmm_free_frame p phys_addr =
    if not p.ready || not (bit_and phys_addr (frame_size - 1) == 0)
    then p
    else let frame = phys_addr / frame_size in
      if leb p.total_frames frame
      then p
      else if is_set p.bitmap frame
      then give_frame p frame
      else p

pub pmm_get_stats : Pmm → FrameStats
pmm_get_stats p = record {
  total = p.total_frames;
  free = p.free_frames;
  used = p.used_frames;
  managed = p.managed_bytes;
}

pub pmm_get_max_phys_addr : Pmm → ℕ
pmm_get_max_phys_addr p = p.max_addr
