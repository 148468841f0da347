-- ===== src/Heap/Init.antt =====
-- What heap_init, krealloc and heap_get_stats of kernel/heap.c promise.
use ronin_os.Base.{
  ℕ, zero, suc, ◌+◌, ◌-◌, ◌*◌, ◌^◌, ◌<◌, ◌≡◌, refl, ap, sym, subst, none, some, List, [], ◌∷◌,
  arith, Option-cases, inl, inr, add32, sub32,
}
use ronin_os.Heap.{Block, Heap, Frames, kheap_base, heap_initial_pages}
use ronin_os.Heap.Blocks.{Tiles, Tiles-le}
use ronin_os.Heap.Valid.{IsValid, allocated}
use ronin_os.Heap.Calls.{
  init_loop, init_heap, heap_init, Stats, no_stats, count_block, count_blocks, heap_get_stats,
}

init_loop-end :
    {F : Type 0} (fr : Frames F) (rounds : ℕ) (f : F) (end : ℕ) (r : F × ℕ)
    → end + rounds * 4096 < 2 ^ 32
    → init_loop fr rounds f end ≡ some r
    → r.1 ≡ end + rounds * 4096
unfolding init_loop
init_loop-end fr zero f end r l e = ground arith
init_loop-end fr (suc rounds) f end r l e =
    let f2 = (fr.map (fr.alloc f).0 end (fr.alloc f).1).0 in
    let wrap : add32 end 4096 ≡ end + 4096 = omega arith in
    ground (arith, init_loop-end fr rounds f2 (add32 end 4096) r (omega arith))

-- If heap_init does not panic it leaves a valid heap with nothing allocated.
pub heap_init-IsValid :
    {F : Type 0} (fr : Frames F) (f : F) {r : F × Heap}
    → heap_init fr f ≡ some r
    → IsValid r.1 × ((q : ℕ) → allocated r.1 q ≡ none)
unfolding heap_init
heap_init-IsValid {F} fr f {r} e =
    elim (Option-cases (init_loop fr heap_initial_pages f kheap_base)) [
      | inl n ↦ absurd (let k = rw (n, heap_init) at e in cc)
      | inr (q, s) ↦
          let end = init_loop-end fr heap_initial_pages f kheap_base q (omega arith) s in
          let same = some_eq (rw (s, heap_init) at e) in
          (
            subst (λ (x : F × Heap). IsValid x.1) same (fresh q.1 (omega arith)),
            λ p. ap (λ (x : F × Heap). allocated x.1 p) (sym same),
          )
    ]
  where
    some_eq : {x y : F × Heap} → some x ≡ some y → x ≡ y
    some_eq h = cc

    fresh : (end : ℕ) → end ≡ 0x1800_4000 → IsValid (init_heap end)
    fresh end h = record {
      top = end;
      tiles = (refl, omega arith, omega arith);
      some_block = λ q. cc;
      coalesced = (refl, tt);
      top_in = omega arith;
      end_in = omega arith;
      limit_in = omega arith;
      low = omega arith;
      aligned = refl;
      is_ready = refl;
    }

-- The bytes and blocks that are counted make up the region that the blocks tile.
count_blocks-sum :
    (s : Stats) (a e : ℕ) (bs : List Block)
    → Tiles a bs e
    → s.used_bytes + s.free_bytes + 16 * (s.used_blocks + s.free_blocks) + (e - a) < 2 ^ 31
    → let t = count_blocks s bs in
      t.used_bytes + t.free_bytes + 16 * (t.used_blocks + t.free_blocks)
      ≡ s.used_bytes + s.free_bytes + 16 * (s.used_blocks + s.free_blocks) + (e - a)
unfolding count_blocks count_block
count_blocks-sum s a e [] t l = omega arith
count_blocks-sum s a e (b ∷ bs) t l =
    let end = Tiles-le (a + 16 + b.size) e bs t.2 in
    let k = counts_one s b (omega arith) in
    omega (arith, count_blocks-sum (count_block s b) (a + 16 + b.size) e bs t.2 (omega arith))
  where
    counts_one :
        (s : Stats) (b : Block)
        → s.used_bytes + s.free_bytes + 16 * (s.used_blocks + s.free_blocks) + b.size + 16 < 2 ^ 31
        → let t = count_block s b in
          t.used_bytes + t.free_bytes + 16 * (t.used_blocks + t.free_blocks)
          ≡ s.used_bytes + s.free_bytes + 16 * (s.used_blocks + s.free_blocks) + b.size + 16
    counts_one s b l = ground arith

-- heap_get_stats of a valid heap accounts for every byte of the region that the blocks tile: the used
-- and the free bytes and 16 bytes for each counted block.
pub heap_get_stats-sum :
    (h : Heap) (v : IsValid h)
    → let t = heap_get_stats h in
      t.used_bytes + t.free_bytes + 16 * (t.used_blocks + t.free_blocks) + h.start ≡ v.top
unfolding heap_get_stats
heap_get_stats-sum h v =
    let s = record no_stats {
      heap_start = h.start;
      heap_end = h.end;
      total_bytes = sub32 h.end h.start;
    } in
    let le = Tiles-le h.start v.top h.blocks v.tiles in
    rw v.is_ready (
      omega (
        arith,
        count_blocks-sum s h.start v.top h.blocks v.tiles
            (omega (arith, v.top_in, v.end_in, v.low)),
      ))
