-- ===== src/Heap/Valid.antt =====
-- The well-formedness of the heap of kernel/heap.c, and that heap_expand keeps it.
use ronin_os.Base.{
  ℕ, ◌+◌, ◌%◌, ◌^◌, ◌≤◌, ◌<◌, ◌≡◌, refl, ◌≢◌, sym, subst, Bool, true, false, Option, List, [],
  arith, add32,
}
use ronin_os.Heap.{
  Block, Heap, Frames, Mapped, out_of_rounds, failed, mapped, map_rounds, heap_expand,
  heap_expand_from, align_up, frame_size, kheap_max_size,
}
use ronin_os.Heap.Words.{align_up_pages}
use ronin_os.Heap.Blocks.{Tiles, Tiles-le, Coalesced, table, NoRoom}
use ronin_os.Heap.Expand.{Attached, attach-Attached, MapEnds, map_loop-MapEnds}

-- A heap between calls: the blocks tile the region from `start` to `top`, which is mapped, and no
-- two neighbours are free.
pub record IsValid (h : Heap) : Type 0 where
  pub top : ℕ
  pub tiles : Tiles h.start h.blocks top
  pub some_block : h.blocks ≢ []
  pub coalesced : Coalesced h.blocks
  pub top_in : top ≤ h.end
  pub end_in : h.end ≤ h.limit
  pub limit_in : h.limit ≤ h.start + kheap_max_size
  pub low : h.limit < 2 ^ 30
  pub aligned : h.start % 16 ≡ 0
  pub is_ready : h.ready ≡ true

abbrev pub allocated : Heap → ℕ → Option ℕ
allocated h p = table h.blocks p

-- What an expansion does: on success there is room for the request, on failure the blocks are as
-- they were; in both cases the heap stays valid and no allocation changes.
pub record Expanded {F : Type 0} (h : Heap) (min_bytes : ℕ) (r : F × Heap × Bool) : Type 0 where
  pub valid : IsValid r.1
  pub same : (q : ℕ) → allocated r.1 q ≡ allocated h q
  pub start_same : r.1.start ≡ h.start
  pub room : r.2 ≡ true → ¬ NoRoom r.1.blocks min_bytes
  pub kept : r.2 ≡ false → r.1.blocks ≡ h.blocks

new_end :
    (h : Heap) (end' : ℕ)
    → IsValid h
    → h.end ≤ end'
    → end' ≤ h.limit
    → IsValid (record h { end = end' })
new_end h end' v lo hi = record {
  top = v.top;
  tiles = v.tiles;
  some_block = v.some_block;
  coalesced = v.coalesced;
  top_in = omega (arith, v.top_in);
  end_in = hi;
  limit_in = v.limit_in;
  low = v.low;
  aligned = v.aligned;
  is_ready = v.is_ready;
}

failed-Expanded :
    {F : Type 0} (h : Heap) (min_bytes end' : ℕ) (f : F)
    → IsValid h
    → h.end ≤ end'
    → end' ≤ h.limit
    → Expanded h min_bytes (f, record h { end = end' }, false)
failed-Expanded h min_bytes end' f v lo hi = record {
  valid = new_end h end' v lo hi;
  same = λ q. refl;
  start_same = refl;
  room = λ e. cc;
  kept = λ e. refl;
}

mapped-Expanded :
    {F : Type 0} (h : Heap) (min_bytes end' added : ℕ) (bs : List Block) (f : F)
    → (v : IsValid h) → end' ≡ h.end + added
    → end' ≤ h.limit
    → min_bytes + 16 ≤ added
    → Attached h.start v.top added h.blocks bs
    → Expanded h min_bytes (f, record h { end = end'; blocks = bs }, true)
mapped-Expanded h min_bytes end' added bs f v e hi m s = record {
  valid = record {
    top = v.top + added;
    tiles = s.tiles;
    some_block = λ q. s.room min_bytes m (subst (λ x. NoRoom x min_bytes) (sym q) tt);
    coalesced = s.coalesced v.coalesced;
    top_in = omega (arith, v.top_in);
    end_in = hi;
    limit_in = v.limit_in;
    low = v.low;
    aligned = v.aligned;
    is_ready = v.is_ready;
  };
  same = s.same;
  start_same = refl;
  room = λ e. s.room min_bytes m;
  kept = λ e. cc;
}

-- How heap_expand goes on from the end of its mapping loop.
ends-Expanded :
    {F : Type 0} (fr : Frames F) (f : F) (h : Heap) (min_bytes needed : ℕ) (r : Mapped F)
    → IsValid h
    → min_bytes + 16 ≤ needed
    → MapEnds h.limit h.end 0 needed r
    → Expanded h min_bytes (heap_expand_from fr f h r)
ends-Expanded fr f h min_bytes needed out_of_rounds v m e = absurd e
ends-Expanded fr f h min_bytes needed (failed f' end') v m e =
    failed-Expanded h min_bytes end' f' v e.0 e.1
ends-Expanded fr f h min_bytes needed (mapped f' end' added) v m e =
    let (bs, eq, s) =
      attach-Attached h.start v.top added h.blocks v.tiles v.some_block
        (omega (arith, v.top_in, v.end_in, v.low)) (omega arith) (omega arith) in
    rw (eq, heap_expand_from)
      (mapped-Expanded h min_bytes end' added bs f' v (omega arith) e.1 (omega arith) s)

-- heap_expand of a valid heap by at most 0xffff_eff0 bytes keeps it valid and every allocation,
-- whether or not it succeeds; if it does there is room for the bytes, and if not the blocks are as
-- they were.
pub heap_expand-Expanded :
    {F : Type 0} (fr : Frames F) (f : F) (h : Heap) (min_bytes : ℕ)
    → IsValid h
    → min_bytes ≤ 0xffff_eff0
    → Expanded h min_bytes (heap_expand fr f h min_bytes)
unfolding heap_expand
heap_expand-Expanded fr f h min_bytes v m =
    let a = align_up_pages (add32 min_bytes 16) (omega arith) in
    ends-Expanded fr f h min_bytes _ _ v (omega arith) (
      map_loop-MapEnds fr map_rounds f h.limit h.end 0 (align_up (add32 min_bytes 16) frame_size)
        v.end_in (omega (arith, v.low)) (omega arith)
        (omega (arith, v.end_in, v.limit_in, Tiles-le h.start v.top h.blocks v.tiles, v.top_in)))
