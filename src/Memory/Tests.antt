-- ===== src/Memory/Tests.antt =====
-- The heap on 64 frames and empty page tables.
use ronin_os.Base.{◌^◌, ◌<◌, ◌≡◌, refl, true, some, arith, ◌==◌, if◌then◌else◌, if_both}
use ronin_os.Pmm.{Pmm, is_set}
use ronin_os.Pmm.Ranges
use ronin_os.Paging.{Paging}
use ronin_os.Paging.Tables
use ronin_os.Heap.Calls.{heap_init, init_heap}
use ronin_os.Memory.{running, frames_of}
use ronin_os.Memory.Backing.{Backed}
use ronin_os.Memory.Growth.{heap_init-Backed}

abbrev frames : Pmm
frames = record {
  bitmap = λ i. if i == 0 then 1 else 0;
  max_addr = 0x4_0000;
  total_frames = 64;
  free_frames = 63;
  used_frames = 1;
  managed_bytes = 0x4_0000;
  ready = true;
}

frames-IsValid : Ranges.IsValid frames
unfolding is_set
frames-IsValid = record {
  words = λ i. if_both (λ x. x < 2 ^ 32) (i == 0) (omega arith) (omega arith);
  total_in = omega arith;
  max_is = refl;
  free_is = refl;
  used_is = refl;
}

abbrev pages : Paging
pages = record { directory = λ d. 0; tables = λ k t. 0; tables_used = 0; enabled = true }

pages-IsValid : Tables.IsValid 0x10_0000 pages
pages-IsValid = record {
  aligned = refl;
  positive = omega arith;
  pool_in = omega arith;
  used_in = omega arith;
  words = λ k t. omega arith;
  present = λ d. refl;
  in_use = λ d k e. cc;
  single = λ d e k a b. cc;
}

low_in_use : is_set frames.bitmap 0 ≡ true
unfolding is_set
low_in_use = refl

heap_init-Backed_example :
    (p' : Pmm) × (g' : Paging) × (heap_init (frames_of 0x10_0000) (running frames pages)
      ≡ some (running p' g', init_heap 0x1800_4000))
    × Backed 0x10_0000 p' g' 0x1_8000 0x1_8004
heap_init-Backed_example =
    heap_init-Backed frames-IsValid refl low_in_use (omega arith) pages-IsValid (omega arith)
