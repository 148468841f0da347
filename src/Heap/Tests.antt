-- ===== src/Heap/Tests.antt =====
-- The heap at the four pages that heap_init maps.
use ronin_os.Base.{
  ℕ, ◌+◌, ◌*◌, ◌≤◌, ◌<◌, ◌≡◌, refl, true, false, none, some, [], ◌∷◌, arith, ltb, if◌then◌else◌,
  ◌==◌,
}
use ronin_os.Heap.{
  Heap, Frames, spins, returns, first_fit, split_block, merge_next, release, release_after,
  heap_expand, kmalloc_loop, kmalloc, kfree,
}
use ronin_os.Heap.Valid.{IsValid, allocated, Expanded, heap_expand-Expanded}
use ronin_os.Heap.Alloc.{Returned, kmalloc-Returned, kfree-Freed, allocated-disjoint}
use ronin_os.Heap.Calls.{init_loop, init_heap, heap_init, heap_get_stats}
use ronin_os.Heap.Huge.{kmalloc-spins, kmalloc-too_small}
use ronin_os.Heap.Init.{heap_init-IsValid, heap_get_stats-sum}

-- Frames that are handed out from 1 MB on, up to 32 MB, and are never taken back.
abbrev bump : Frames ℕ
bump = record {
  alloc = λ n. if ltb n 0x200_0000 then (n + 4096, n) else (n, 0);
  free = λ n frame. n;
  map = λ n virt phys. (n, true);
}

abbrev fresh : Heap
fresh = init_heap 0x1800_4000

fresh_init : heap_init bump 0x10_0000 ≡ some (0x10_4000, fresh)
unfolding heap_init init_loop
fresh_init = refl

fresh-IsValid : IsValid fresh
fresh-IsValid = (heap_init-IsValid bump 0x10_0000 fresh_init).0

-- Two blocks of 32 bytes in use, and the rest free.
abbrev two_used : Heap
two_used = record fresh {
  blocks =
      record { addr = 0x1800_0000; size = 32; free = false }
      ∷ record { addr = 0x1800_0030; size = 32; free = false }
      ∷ record { addr = 0x1800_0060; size = 0x3f90; free = true }
      ∷ [];
}

allocates_two :
    kmalloc bump 2 0x10_4000
      (record fresh {
        blocks =
            record { addr = 0x1800_0000; size = 32; free = false }
            ∷ record { addr = 0x1800_0030; size = 0x3fc0; free = true }
            ∷ [];
      })
      25
    ≡ returns 0x10_4000 two_used 0x1800_0040
unfolding kmalloc kmalloc_loop first_fit split_block
allocates_two = refl

two_used-IsValid : IsValid two_used
two_used-IsValid = record {
  top = 0x1800_4000;
  tiles = (refl, refl, (refl, refl, (refl, refl, refl)));
  some_block = λ q. cc;
  coalesced = (refl, (refl, (refl, tt)));
  top_in = omega arith;
  end_in = omega arith;
  limit_in = omega arith;
  low = omega arith;
  aligned = refl;
  is_ready = refl;
}

merges_back :
    kfree two_used 0x1800_0040
    ≡ some (record fresh {
      blocks =
          record { addr = 0x1800_0000; size = 32; free = false }
          ∷ record { addr = 0x1800_0030; size = 0x3fc0; free = true }
          ∷ [];
    })
unfolding kfree release release_after merge_next
merges_back = refl

bump_init-IsValid : IsValid fresh × ((q : ℕ) → allocated fresh q ≡ none)
bump_init-IsValid = heap_init-IsValid bump 0x10_0000 fresh_init

heap_get_stats-sum_instance :
    let t = heap_get_stats two_used in
    t.used_bytes + t.free_bytes + 16 * (t.used_blocks + t.free_blocks) + two_used.start
    ≡ two_used-IsValid.top
heap_get_stats-sum_instance = heap_get_stats-sum two_used two_used-IsValid

heap_expand-Expanded_example : Expanded two_used 0x5000 (heap_expand bump 0x10_4000 two_used 0x5000)
heap_expand-Expanded_example =
    heap_expand-Expanded bump 0x10_4000 two_used 0x5000 two_used-IsValid (omega arith)

kmalloc-Returned_example : Returned two_used 100 (kmalloc bump 2 0x10_4000 two_used 100)
kmalloc-Returned_example =
    kmalloc-Returned bump 0 0x10_4000 two_used 100 two_used-IsValid (omega arith) (omega arith)

kfree-Freed_example :
    (h' : Heap) × (kfree two_used 0x1800_0010 ≡ some h')
    × IsValid h'
    × ((q : ℕ) → allocated h' q ≡ (if 0x1800_0010 == q then none else allocated two_used q))
kfree-Freed_example = kfree-Freed two_used 0x1800_0010 32 two_used-IsValid refl

allocated-disjoint_instance :
    (0x1800_0010 ≤ 0x1800_0010)
    × (0x1800_0010 + 32 + 16 ≤ 0x1800_0040)
    × (0x1800_0040 + 32 ≤ 0x1800_4000)
allocated-disjoint_instance =
    allocated-disjoint two_used 0x1800_0010 0x1800_0040 32 32 two_used-IsValid refl refl
      (omega arith)

kmalloc-spins_example : kmalloc bump 1000 0x10_4000 two_used 0xffff_fff0 ≡ spins
kmalloc-spins_example =
    kmalloc-spins bump 1000 0x10_4000 two_used 0xffff_fff0 two_used-IsValid refl (omega arith)
      (omega arith)

kmalloc_last_size :
    (h' : Heap) × (p : ℕ) × (n : ℕ) × (kmalloc bump 1 0x10_4000 two_used 0xffff_ffff
      ≡ returns 0x10_4000 h' p)
    × (allocated h' p ≡ some n)
    × (n < 0xffff_ffff)
kmalloc_last_size =
    kmalloc-too_small bump 0 0x10_4000 two_used 0xffff_ffff two_used-IsValid (λ t. cc) (omega arith)
      (omega arith)
