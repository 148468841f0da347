-- ===== src/Memory/Growth.antt =====
-- The pages that heap_init of kernel/heap.c maps, on the frames of kernel/mem/pmm.c and the tables of
-- kernel/mem/paging.c.
use ronin_os.Base.{
  ℕ, zero, suc, ◌+◌, ◌*◌, ◌/◌, ◌^◌, ◌≤◌, ◌<◌, ◌≡◌, refl, ◌∙◌, ap, true, false, Option, some, arith,
  ◌==◌, ==_iff, Bool-cases, inl, inr, add32,
}
use ronin_os.Pmm.{Pmm, is_set, pmm_alloc_frame}
use ronin_os.Pmm.Bitmap.{count_free}
use ronin_os.Pmm.Ranges
use ronin_os.Pmm.Alloc.{
  FirstFree, NoneFree, Taken, exhausted, allocated, pmm_alloc_frame-Allocation,
}
use ronin_os.Paging.{Paging, map_page, page_write}
use ronin_os.Paging.Tables
use ronin_os.Paging.Tables.{slot_of}
use ronin_os.Paging.Map.{Mapping, pool_empty, done}
use ronin_os.Paging.Pages.{map_page-Mapping}
use ronin_os.Heap.{Frames, frame_size, kheap_base}
use ronin_os.Heap.Calls.{init_loop, init_heap, heap_init}
use ronin_os.Memory.{Machine, running, alloc_on, map_on, frames_of}
use ronin_os.Memory.Backing.{Backed, next_page}

no_free :
    (p : Pmm) (n : ℕ) → n ≤ p.total_frames → NoneFree p 0 p.total_frames → count_free p.bitmap n ≡ 0
no_free p zero l h = refl
no_free p (suc n) l h =
    rw (h n (omega arith) (omega arith) (omega arith)) (omega (arith, no_free p n (omega arith) h))

-- A page more: the frame that is allocated, the state after it, and the state after its page is mapped.
pub record Grown (pool : ℕ) (p : Pmm) (g : Paging) (a e : ℕ) : Type 0 where
  pub frame : ℕ
  pub pmm_after : Pmm
  pub paging_after : Paging
  pub not_zero : (frame * 4096 == 0) ≡ false
  pub taken : alloc_on (running p g) ≡ (running pmm_after g, frame * 4096)
  pub placed :
      map_on pool (running pmm_after g) (e * 4096) (frame * 4096)
      ≡ (running pmm_after paging_after, true)
  pub backed : Backed pool pmm_after paging_after a (e + 1)
  pub free_left : pmm_after.free_frames + 1 ≡ p.free_frames
  pub used_left : paging_after.tables_used ≤ g.tables_used + 1

pub grow :
    {pool : ℕ} {p : Pmm} {g : Paging} (a e : ℕ)
    → a ≤ e
    → e < 2 ^ 20
    → 0 < p.free_frames
    → g.tables_used < 256
    → Backed pool p g a e
    → Grown pool p g a e
grow {pool} {p} {g} a e ae l free room b = elim (pmm_alloc_frame-Allocation p b.pmm b.ready) [
  | exhausted h q ↦
      absurd
        (let z = no_free p p.total_frames (omega arith) h in let f = b.pmm.free_is in omega arith)
  | allocated f first at t ↦
      let top : f < 131072 = (let u = first.below in let w = b.pmm.total_in in omega arith) in
      mapped_to f first top at t (
        map_page-Mapping b.paging (e * 4096) (f * 4096) page_write (omega arith) (omega arith)
          (omega arith) (omega arith))
]
  where
    mapped_to :
        (f : ℕ)
        → FirstFree p 0 f
        → f < 131072
        → (pmm_alloc_frame p).1 ≡ f * 4096
        → Taken p (pmm_alloc_frame p).0 f
        → Mapping pool g (e * 4096) (f * 4096) (map_page pool g (e * 4096) (f * 4096) page_write)
        → Grown pool p g a e
    mapped_to f first top at t (pool_empty x y z) = absurd (omega arith)
    mapped_to f first top at t (done g' q m) = record {
      frame = f;
      pmm_after = (pmm_alloc_frame p).0;
      paging_after = g';
      not_zero = elim (Bool-cases (f == 0)) [
        | inl h ↦
            (let u = first.unused in
              let v = b.low in let c = ap (is_set p.bitmap) ((==_iff f 0).0 h) in cc)
        | inr h ↦ ground arith
      ];
      taken = ap (λ n. (running (pmm_alloc_frame p).0 g, n)) at;
      placed = rw (q, map_on) refl;
      backed = next_page a e f ae l b first t m;
      free_left = t.counted;
      used_left = ground (arith, m.used);
    }

-- A round of the loop of heap_init that succeeds.
init_loop_round :
    {F : Type 0} (fr : Frames F) (rounds : ℕ) (f f1 f2 : F) (end frame : ℕ)
    → fr.alloc f ≡ (f1, frame)
    → fr.map f1 end frame ≡ (f2, true)
    → (frame == 0) ≡ false
    → init_loop fr (suc rounds) f end ≡ init_loop fr rounds f2 (add32 end frame_size)
unfolding init_loop
init_loop_round fr rounds f f1 f2 end frame a m z = rw a (rw m (rw z refl))

-- What the loop of heap_init leaves.
pub record Extended (pool : ℕ) (r : Option (Machine × ℕ)) (a e : ℕ) : Type 0 where
  pub pmm : Pmm
  pub paging : Paging
  pub ends : r ≡ some (running pmm paging, e * 4096)
  pub backed : Backed pool pmm paging a e

pub init_loop-Extended :
    {pool : ℕ} (rounds : ℕ) {p : Pmm} {g : Paging} (a e : ℕ)
    → a ≤ e
    → e + rounds < 2 ^ 20
    → rounds ≤ p.free_frames
    → g.tables_used + rounds ≤ 256
    → Backed pool p g a e
    → Extended pool (init_loop (frames_of pool) rounds (running p g) (e * 4096)) a (e + rounds)
unfolding init_loop
init_loop-Extended zero {p} {g} a e ae l free room b =
    let same : e + 0 ≡ e = omega arith in
    rw same (record { pmm = p; paging = g; ends = refl; backed = b })
init_loop-Extended {pool} (suc rounds) {p} {g} a e ae l free room b =
    let n = grow a e ae (omega arith) (omega arith) (omega arith) b in
    let next : add32 (e * 4096) 4096 ≡ (e + 1) * 4096 = omega arith in
    let same : e + suc rounds ≡ e + 1 + rounds = omega arith in
    let r =
      init_loop-Extended rounds a (e + 1) (omega arith) (omega arith) (omega (arith, n.free_left))
        (omega (arith, n.used_left)) n.backed in
    rw same (record {
      pmm = r.pmm;
      paging = r.paging;
      backed = r.backed;
      ends =
          init_loop_round (frames_of pool) rounds (running p g) _ _ (e * 4096) _ n.taken n.placed
            n.not_zero
          ∙ ap (init_loop (frames_of pool) rounds (running n.pmm_after n.paging_after)) next
          ∙ r.ends;
    })

-- Before any page, the machine is as its parts are.
pub no_pages :
    {pool : ℕ} {p : Pmm} {g : Paging} (a : ℕ)
    → Ranges.IsValid p
    → p.ready ≡ true
    → is_set p.bitmap 0 ≡ true
    → Tables.IsValid pool g
    → Backed pool p g a a
no_pages a v r z t = record {
  pmm = v;
  ready = r;
  low = z;
  paging = t;
  frame = λ n. 0;
  in_range = λ n x y. absurd (omega arith);
  in_use = λ n x y. absurd (omega arith);
  own = λ n k x y z w e. absurd (omega arith);
  translates = λ w x y. absurd (omega arith);
}

-- On a frame allocator that is ready, well-formed, keeps frame 0 in use and has four free frames, and
-- on well-formed page tables with room for four tables more, heap_init succeeds, and each of the four
-- pages of the heap that it leaves translates to a frame that is in use, no two pages to the same.
pub heap_init-Backed :
    {pool : ℕ} {p : Pmm} {g : Paging}
    → Ranges.IsValid p
    → p.ready ≡ true
    → is_set p.bitmap 0 ≡ true
    → 4 ≤ p.free_frames
    → Tables.IsValid pool g
    → g.tables_used + 4 ≤ 256
    → (p' : Pmm) × (g' : Paging) × (heap_init (frames_of pool) (running p g)
        ≡ some (running p' g', init_heap 0x1800_4000))
      × Backed pool p' g' (kheap_base / 4096) (0x1800_4000 / 4096)
unfolding heap_init
heap_init-Backed {pool} {p} {g} v r z free t room =
    let x =
      init_loop-Extended {pool = pool} 4 {p = p} {g = g} 0x18000 0x18000 (omega arith) (omega arith)
        free room (no_pages 0x18000 v r z t) in
    (x.pmm, x.paging, rw (x.ends, heap_init) refl, x.backed)
