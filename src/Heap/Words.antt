-- ===== src/Heap/Words.antt =====
-- The rounding of kernel/heap.c: sizes to 16 bytes, expansions to pages.
use ronin_os.Base.{ℕ, ◌+◌, ◌%◌, ◌^◌, ◌≤◌, ◌<◌, ◌≡◌, arith, add32}
use ronin_os.Base.Bits.{bit_and_sixteens, bit_and_pages}
use ronin_os.Heap.{align_up, frame_size, wanted_for}

-- A size below the last 15 is rounded up to the next multiple of 16.
pub wanted_for_bounds :
    (size : ℕ)
    → size ≤ 0xffff_fff0
    → (size ≤ wanted_for size) × (wanted_for size < size + 16) × (wanted_for size % 16 ≡ 0)
wanted_for_bounds size h = omega (arith, bit_and_sixteens (add32 size 15) (omega arith))

-- The last 15 sizes wrap round to 0.
pub wanted_for_wraps : (size : ℕ) → 0xffff_fff0 < size → size < 2 ^ 32 → wanted_for size ≡ 0
wanted_for_wraps size h l = omega (arith, bit_and_sixteens (add32 size 15) (omega arith))

pub align_up_pages :
    (v : ℕ)
    → v ≤ 0xffff_f000
    → (v ≤ align_up v frame_size)
      × (align_up v frame_size < v + 4096)
      × (align_up v frame_size % 4096 ≡ 0)
unfolding align_up
align_up_pages v h = omega (arith, bit_and_pages (add32 v 4095) (omega arith))

-- Past the last page boundary the rounded value is 0.
pub align_up_wraps : (v : ℕ) → 0xffff_f000 < v → v < 2 ^ 32 → align_up v frame_size ≡ 0
unfolding align_up
align_up_wraps v h l = omega (arith, bit_and_pages (add32 v 4095) (omega arith))
