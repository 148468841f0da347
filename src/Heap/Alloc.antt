-- ===== src/Heap/Alloc.antt =====
-- kmalloc and kfree of kernel/heap.c against the table of allocations.
use ronin_os.Base.{
  ℕ, suc, ◌+◌, ◌%◌, ◌≤◌, ◌<◌, ◌≡◌, refl, ◌⊎◌, ◌∙◌, ap, sym, subst, Bool, true, false, not, ◌||◌,
  none, some, List, [], ◌∷◌, arith, ◌==◌, if◌then◌else◌, Bool-cases, Option-cases, inl, inr, sub32,
}
use ronin_os.Heap.{
  Block, Heap, Frames, Outcome, returns, first_fit, heap_expand, kmalloc_loop, kmalloc, kfree,
  wanted_for,
}
use ronin_os.Heap.Words.{wanted_for_bounds}
use ronin_os.Heap.Blocks.{
  Tiles, table, NoRoom, Fits, Placed, first_fit-Fits, table-above, table-within, table-disjoint,
}
use ronin_os.Heap.Release.{release-Freed}
use ronin_os.Heap.Valid.{IsValid, allocated, heap_expand-Expanded}

-- A new allocation at `p`: it was free, it holds `size` bytes and is aligned to 16, and no other
-- allocation has changed.
pub record Allocated (h h' : Heap) (size p : ℕ) : Type 0 where
  pub bytes : ℕ
  pub enough : size ≤ bytes
  pub fresh : allocated h p ≡ none
  pub now : (q : ℕ) → allocated h' q ≡ (if p == q then some bytes else allocated h q)
  pub aligned : p % 16 ≡ 0
  pub nonzero : 0 < p

-- What kmalloc returns: 0 and every allocation as it was, or a new allocation.
pub record Returned {F : Type 0} (h : Heap) (size : ℕ) (o : Outcome F) : Type 0 where
  pub frames : F
  pub heap : Heap
  pub pointer : ℕ
  pub returned : o ≡ returns frames heap pointer
  pub valid : IsValid heap
  pub result :
      ((pointer ≡ 0) × ((q : ℕ) → allocated heap q ≡ allocated h q)) ⊎ Allocated h heap size pointer

return_block :
    {F : Type 0} (f : F) (h : Heap) (wanted p : ℕ) (bs : List Block)
    → (v : IsValid h) → Placed h.start v.top wanted h.blocks p bs
    → Returned h wanted (returns f (record h { blocks = bs }) p)
return_block f h wanted p bs v s = record {
  frames = f;
  heap = record h { blocks = bs };
  pointer = p;
  returned = refl;
  valid = record {
    top = v.top;
    tiles = s.tiles;
    some_block = λ q.
        (let n = s.now p in let m = subst (λ x. table x p ≡ none) (sym q) refl in ground arith);
    coalesced = s.coalesced v.coalesced;
    top_in = v.top_in;
    end_in = v.end_in;
    limit_in = v.limit_in;
    low = v.low;
    aligned = v.aligned;
    is_ready = v.is_ready;
  };
  result = inr (record {
    bytes = s.size;
    enough = s.enough;
    fresh = s.was_free;
    now = s.now;
    aligned = s.aligned v.aligned;
    nonzero = omega (arith, s.above);
  });
}

pub fits :
    (h : Heap) (wanted : ℕ)
    → (v : IsValid h) → wanted % 16 ≡ 0
    → Fits h.start v.top wanted h.blocks (first_fit h.blocks wanted)
fits h wanted v w =
    first_fit-Fits h.start v.top wanted h.blocks v.tiles (omega (arith, v.top_in, v.end_in, v.low))
      w

-- Where there is room the search succeeds at once.
pub room-Returned :
    {F : Type 0} (fr : Frames F) (fuel : ℕ) (f : F) (h : Heap) (wanted : ℕ)
    → (v : IsValid h) → wanted % 16 ≡ 0
    → ¬ NoRoom h.blocks wanted
    → Returned h wanted (kmalloc_loop fr (suc fuel) f h wanted)
unfolding kmalloc_loop
room-Returned fr fuel f h wanted v w r = elim (Option-cases (first_fit h.blocks wanted)) [
  | inl e ↦ absurd (r (subst (Fits h.start v.top wanted h.blocks) e (fits h wanted v w)))
  | inr (q, e) ↦
      rw (e, kmalloc_loop)
        (return_block f h wanted q.0 q.1 v
          (subst (Fits h.start v.top wanted h.blocks) e (fits h wanted v w)))
]

-- What holds of a heap with the same allocations holds of this one.
same-Returned :
    {F : Type 0} (h h' : Heap) (wanted : ℕ) (o : Outcome F)
    → ((q : ℕ) → allocated h' q ≡ allocated h q)
    → Returned h' wanted o
    → Returned h wanted o
same-Returned h h' wanted o same s = record {
  frames = s.frames;
  heap = s.heap;
  pointer = s.pointer;
  returned = s.returned;
  valid = s.valid;
  result = elim s.result [
    | inl (z, eq) ↦ inl (z, λ q. eq q ∙ same q)
    | inr a ↦ inr (record {
      bytes = a.bytes;
      enough = a.enough;
      fresh = sym (same s.pointer) ∙ a.fresh;
      now = λ q. a.now q ∙ ap (λ o. if s.pointer == q then some a.bytes else o) (same q);
      aligned = a.aligned;
      nonzero = a.nonzero;
    })
  ];
}

kmalloc_loop-Returned :
    {F : Type 0} (fr : Frames F) (fuel : ℕ) (f : F) (h : Heap) (wanted : ℕ)
    → IsValid h
    → wanted % 16 ≡ 0
    → wanted ≤ 0xffff_eff0
    → Returned h wanted (kmalloc_loop fr (suc (suc fuel)) f h wanted)
unfolding kmalloc_loop
kmalloc_loop-Returned fr fuel f h wanted v w l = elim (Option-cases (first_fit h.blocks wanted)) [
  | inl e ↦
      let r = heap_expand fr f h wanted in
      let s = heap_expand-Expanded fr f h wanted v l in
      rw (e, kmalloc_loop)
        (elim (Bool-cases r.2) [
          | inl done ↦ rw done (
              same-Returned h r.1 wanted _ s.same
                (room-Returned fr fuel r.0 r.1 wanted s.valid w (s.room done)))
          | inr full ↦ rw full (record {
            frames = r.0;
            heap = r.1;
            pointer = 0;
            returned = refl;
            valid = s.valid;
            result = inl (refl, s.same);
          })
        ])
  | inr (q, e) ↦
      rw (e, kmalloc_loop)
        (return_block f h wanted q.0 q.1 v
          (subst (Fits h.start v.top wanted h.blocks) e (fits h wanted v w)))
]

pub open_guard : (r : Bool) (size : ℕ) → r ≡ true → 0 < size → (not r || size == 0) ≡ false
open_guard r size e p = ground arith

-- kmalloc of a size that is not within two pages of 2 ^ 32 returns, within two turns of its loop:
-- either 0, with every allocation as it was, or a pointer, aligned to 16 bytes, at which nothing was
-- allocated and now at least the size is, while every other allocation is as it was. The heap stays
-- valid.
pub kmalloc-Returned :
    {F : Type 0} (fr : Frames F) (fuel : ℕ) (f : F) (h : Heap) (size : ℕ)
    → IsValid h
    → 0 < size
    → size ≤ 0xffff_efe0
    → Returned h size (kmalloc fr (suc (suc fuel)) f h size)
unfolding kmalloc
kmalloc-Returned {F} fr fuel f h size v p l =
    let b = wanted_for_bounds size (omega arith) in
    let r = kmalloc_loop-Returned fr fuel f h (wanted_for size) v b.2 (omega arith) in
    rw (open_guard h.ready size v.is_ready p) (weaken r b.0)
  where
    weaken :
        {o : Outcome F}
        → Returned h (wanted_for size) o
        → size ≤ wanted_for size
        → Returned h size o
    weaken s le = record {
      frames = s.frames;
      heap = s.heap;
      pointer = s.pointer;
      returned = s.returned;
      valid = s.valid;
      result = elim s.result [
        | inl z ↦ inl z
        | inr a ↦ inr (record {
          bytes = a.bytes;
          enough = omega (arith, a.enough);
          fresh = a.fresh;
          now = a.now;
          aligned = a.aligned;
          nonzero = a.nonzero;
        })
      ];
    }

-- kfree of an allocated pointer finds its block, and afterwards exactly that allocation is gone; the
-- heap stays valid, so no two free neighbours are left.
pub kfree-Freed :
    (h : Heap) (p n : ℕ)
    → IsValid h
    → allocated h p ≡ some n
    → (h' : Heap) × (kfree h p ≡ some h')
      × IsValid h'
      × ((q : ℕ) → allocated h' q ≡ (if p == q then none else allocated h q))
unfolding kfree
kfree-Freed h p n v e =
    let low = table-above h.start v.top p n h.blocks v.tiles e in
    let high = table-within h.start v.top p n h.blocks v.tiles e in
    let header : sub32 p 16 + 16 ≡ p = omega (arith, v.top_in, v.end_in, v.low) in
    let (bs, eq, s) =
      release-Freed h.start v.top n (sub32 p 16) h.blocks v.tiles
        (omega (arith, v.top_in, v.end_in, v.low)) v.coalesced
        (subst (λ x. table h.blocks x ≡ some n) (sym header) e) in
    (
      record h { blocks = bs },
      rw (open_guard h.ready p v.is_ready (omega arith)) (rw (eq, kfree)),
      record {
        top = v.top;
        tiles = s.tiles;
        some_block = λ q. absurd (not_empty bs low high q s.tiles);
        coalesced = s.coalesced;
        top_in = v.top_in;
        end_in = v.end_in;
        limit_in = v.limit_in;
        low = v.low;
        aligned = v.aligned;
        is_ready = v.is_ready;
      },
      λ q. s.now q ∙ ap (λ x. if x == q then none else table h.blocks q) header,
    )
  where
    not_empty :
        (bs : List Block) → h.start + 16 ≤ p → p + n ≤ v.top → bs ≡ [] → Tiles h.start bs v.top → ⊥
    not_empty [] a b q t = omega arith
    not_empty (b ∷ bs) l g q t = cc

-- The allocations of a valid heap lie in its mapped region, behind a header, and no two overlap.
pub allocated-disjoint :
    (h : Heap) (p q n m : ℕ)
    → IsValid h
    → allocated h p ≡ some n
    → allocated h q ≡ some m
    → p < q
    → (h.start + 16 ≤ p) × (p + n + 16 ≤ q) × (q + m ≤ h.end)
allocated-disjoint h p q n m v e k lt = (
  table-above h.start v.top p n h.blocks v.tiles e,
  table-disjoint h.start v.top p q n m h.blocks v.tiles e k lt,
  omega (arith, table-within h.start v.top q m h.blocks v.tiles k, v.top_in),
)
