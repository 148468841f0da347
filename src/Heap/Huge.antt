-- ===== src/Heap/Huge.antt =====
-- Requests near 2 ^ 32, where the rounding of kernel/heap.c wraps.
use ronin_os.Base.{
  ℕ, zero, suc, ◌+◌, ◌%◌, ◌^◌, ◌≤◌, ◌<◌, ◌≡◌, refl, ◌∙◌, subst, Bool, true, false, none, some, List,
  [], ◌∷◌, arith, ltb, Bool-cases, Option-cases, inl, inr, add32, ltb→lt, ==_self,
}
use ronin_os.Heap.{
  Block, Heap, Frames, spins, returns, mapped, first_fit, attach, map_loop, map_rounds, heap_expand,
  heap_expand_from, kmalloc_loop, kmalloc, wanted_for, align_up, frame_size,
}
use ronin_os.Heap.Words.{wanted_for_bounds, wanted_for_wraps, align_up_wraps}
use ronin_os.Heap.Blocks.{Tiles, Tiles-le, NoRoom, Fits}
use ronin_os.Heap.Valid.{IsValid, allocated}
use ronin_os.Heap.Alloc.{open_guard, fits}

abbrev pub ends_free : List Block → Bool
ends_free [] = false
ends_free (b ∷ []) = b.free
ends_free (b ∷ c ∷ bs) = ends_free (c ∷ bs)

first_fit-too_big :
    (a e wanted : ℕ) (bs : List Block) → Tiles a bs e → e < wanted → first_fit bs wanted ≡ none
unfolding first_fit
first_fit-too_big a e wanted [] t l = refl
first_fit-too_big a e wanted (b ∷ bs) t l =
    let end = Tiles-le (a + 16 + b.size) e bs t.2 in
    ground (arith, first_fit-too_big (a + 16 + b.size) e wanted bs t.2 l)

attach-nothing :
    (a e : ℕ) (bs : List Block)
    → Tiles a bs e
    → e < 2 ^ 31
    → ends_free bs ≡ true
    → attach bs 0 ≡ some bs
unfolding attach
attach-nothing a e [] t l f = cc
attach-nothing a e (b ∷ []) t l f = ground arith
attach-nothing a e (b ∷ c ∷ bs) t l f = rw (attach-nothing (a + 16 + b.size) e (c ∷ bs) t.2 l f)

map_loop-nothing :
    {F : Type 0} (fr : Frames F) (f : F) (limit end : ℕ)
    → map_loop fr map_rounds f limit end 0 0 ≡ mapped f end 0
unfolding map_loop
map_loop-nothing fr f limit end = refl

align_up-zero : align_up 0 frame_size ≡ 0
unfolding align_up
align_up-zero = refl

needed_wraps :
    (size : ℕ)
    → 0xffff_eff0 < size
    → size ≤ 0xffff_fff0
    → align_up (add32 (wanted_for size) 16) frame_size ≡ 0
needed_wraps size lo hi =
    let b = wanted_for_bounds size hi in
    elim (Bool-cases (ltb (wanted_for size) 0xffff_fff0)) [
      | inl short ↦
          let w = ltb→lt _ _ short in
          let sum : add32 (wanted_for size) 16 ≡ wanted_for size + 16 = omega arith in
          rw sum (align_up_wraps (wanted_for size + 16) (omega arith) (omega arith))
      | inr full ↦
          let sum : add32 (wanted_for size) 16 ≡ 0 =
            at_top (wanted_for size) b.2 (omega arith) full in
          rw sum align_up-zero
    ]
  where
    at_top : (w : ℕ) → w % 16 ≡ 0 → w < 2 ^ 32 → ltb w 0xffff_fff0 ≡ false → add32 w 16 ≡ 0
    at_top w m l h = ground arith

expands_by_nothing :
    {F : Type 0} (fr : Frames F) (f : F) (h : Heap) (size : ℕ)
    → (v : IsValid h) → ends_free h.blocks ≡ true
    → 0xffff_eff0 < size
    → size ≤ 0xffff_fff0
    → heap_expand fr f h (wanted_for size) ≡ (f, h, true)
unfolding heap_expand
expands_by_nothing fr f h size v e lo hi = rw (
  needed_wraps size lo hi,
  map_loop-nothing fr f h.limit h.end,
  attach-nothing h.start v.top h.blocks v.tiles (omega (arith, v.top_in, v.end_in, v.low)) e,
  heap_expand_from,
)

kmalloc_loop-spins :
    {F : Type 0} (fr : Frames F) (fuel : ℕ) (f : F) (h : Heap) (wanted : ℕ)
    → first_fit h.blocks wanted ≡ none
    → heap_expand fr f h wanted ≡ (f, h, true)
    → kmalloc_loop fr fuel f h wanted ≡ spins
unfolding kmalloc_loop
kmalloc_loop-spins fr zero f h wanted n e = refl
kmalloc_loop-spins fr (suc fuel) f h wanted n e =
    rw (n, kmalloc_loop) (rw e (kmalloc_loop-spins fr fuel f h wanted n e))

-- kmalloc of a size from 2 ^ 32 - 4111 to 2 ^ 32 - 16, on a valid heap whose last block is free, never
-- returns: however many turns its loop is given, they are not enough.
pub kmalloc-spins :
    {F : Type 0} (fr : Frames F) (fuel : ℕ) (f : F) (h : Heap) (size : ℕ)
    → IsValid h
    → ends_free h.blocks ≡ true
    → 0xffff_eff0 < size
    → size ≤ 0xffff_fff0
    → kmalloc fr fuel f h size ≡ spins
unfolding kmalloc
kmalloc-spins fr fuel f h size v e lo hi =
    let b = wanted_for_bounds size hi in
    rw (open_guard h.ready size v.is_ready (omega arith)) (
      kmalloc_loop-spins fr fuel f h (wanted_for size)
        (first_fit-too_big h.start v.top (wanted_for size) h.blocks v.tiles
          (omega (arith, v.top_in, v.end_in, v.low)))
        (expands_by_nothing fr f h size v e lo hi))

-- kmalloc of one of the last 15 sizes below 2 ^ 32, on a valid heap with a free block, returns a
-- pointer to an allocation that is smaller than was asked for.
pub kmalloc-too_small :
    {F : Type 0} (fr : Frames F) (fuel : ℕ) (f : F) (h : Heap) (size : ℕ)
    → IsValid h
    → ¬ NoRoom h.blocks 0
    → 0xffff_fff0 < size
    → size < 2 ^ 32
    → (h' : Heap) × (p : ℕ) × (n : ℕ) × (kmalloc fr (suc fuel) f h size ≡ returns f h' p)
      × (allocated h' p ≡ some n)
      × (n < size)
unfolding kmalloc kmalloc_loop
kmalloc-too_small fr fuel f h size v room lo hi = elim (Option-cases (first_fit h.blocks 0)) [
  | inl e ↦ absurd (room (subst (Fits h.start v.top 0 h.blocks) e (fits h 0 v refl)))
  | inr (q, e) ↦
      let s = subst (Fits h.start v.top 0 h.blocks) e (fits h 0 v refl) in
      (
        record h { blocks = q.1 },
        q.0,
        s.size,
        rw (open_guard h.ready size v.is_ready (omega arith))
            (rw (wanted_for_wraps size lo hi) (rw (e, kmalloc_loop))),
        s.now q.0 ∙ rw (==_self q.0),
        omega (arith, s.within, v.top_in, v.end_in, v.low),
      )
]
