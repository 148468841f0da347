-- ===== src/Pmm/Ranges.antt =====
-- The counters of kernel/mem/pmm.c against its bitmap, and the ranges that pmm_init reserves and frees.
use ronin_os.Base.{
  ℕ, zero, suc, ◌+◌, ◌-◌, ◌*◌, ◌/◌, ◌^◌, ◌≤◌, ◌<◌, ◌≡◌, refl, ◌∙◌, ap, sym, Bool, true, false, not,
  ◌&&◌, ◌⊎◌, arith, ◌==◌, ==_iff, leb, ltb, if◌then◌else◌, Bool-cases, inl, inr, add32,
}
use ronin_os.Base.Bits.{bit_and_pages}
use ronin_os.Pmm.{
  Pmm, align_up, align_down, set_frame, clear_frame, is_set, take_frame, give_frame, reserve_loop,
  free_loop, clamp, reserve_range, free_range,
}
use ronin_os.Pmm.Bitmap.{
  Words, set_frame-at, clear_frame-at, set_frame-Words, clear_frame-Words, count_free,
  count_free_le, count_free-at,
}

-- The counters count the frames below the total that are free and in use, and the bitmap has a bit
-- for each of them.
pub record IsValid (p : Pmm) : Type 0 where
  pub words : Words p.bitmap
  pub total_in : p.total_frames ≤ 131072
  pub max_is : p.max_addr ≡ p.total_frames * 4096
  pub free_is : p.free_frames ≡ count_free p.bitmap p.total_frames
  pub used_is : p.free_frames + p.used_frames ≡ p.total_frames

-- What the operations leave alone.
pub record IsSame (p p' : Pmm) : Type 0 where
  pub total_frames : p'.total_frames ≡ p.total_frames
  pub max_addr : p'.max_addr ≡ p.max_addr
  pub ready : p'.ready ≡ p.ready
  pub managed_bytes : p'.managed_bytes ≡ p.managed_bytes

pub take_frame-IsValid :
    (p : Pmm) (i : ℕ)
    → IsValid p
    → i < p.total_frames
    → is_set p.bitmap i ≡ false
    → IsValid (take_frame p i)
take_frame-IsValid p i v l f =
    let c = rw f at (
      count_free-at p.bitmap (set_frame p.bitmap i) i true (set_frame-at p.bitmap i) p.total_frames
        l) in
    record {
      words = set_frame-Words p.bitmap i v.words;
      total_in = v.total_in;
      max_is = v.max_is;
      free_is = omega (arith, v.free_is, v.used_is, v.total_in);
      used_is = omega (arith, v.free_is, v.used_is, v.total_in);
    }

pub give_frame-IsValid :
    (p : Pmm) (i : ℕ)
    → IsValid p
    → i < p.total_frames
    → is_set p.bitmap i ≡ true
    → IsValid (give_frame p i)
give_frame-IsValid p i v l f =
    let c = rw f at (
      count_free-at p.bitmap (clear_frame p.bitmap i) i false (clear_frame-at p.bitmap i)
        p.total_frames l) in
    let le = count_free_le (clear_frame p.bitmap i) p.total_frames in
    record {
      words = clear_frame-Words p.bitmap i v.words;
      total_in = v.total_in;
      max_is = v.max_is;
      free_is = omega (arith, v.free_is, v.used_is, v.total_in);
      used_is = omega (arith, v.free_is, v.used_is, v.total_in);
    }

-- The frames from `s` up to, but not including, `e` are all marked `r`, and no other has changed.
pub record Ranged (p p' : Pmm) (s e : ℕ) (r : Bool) : Type 0 where
  pub valid : IsValid p'
  pub same : IsSame p p'
  pub marks : (j : ℕ) → is_set p'.bitmap j ≡ (if leb s j && ltb j e then r else is_set p.bitmap j)

nothing : (p : Pmm) → IsSame p p
nothing p = record { total_frames = refl; max_addr = refl; ready = refl; managed_bytes = refl }

-- One round of a loop, which leaves bit `i` at `r`.
record Stepped (p p1 : Pmm) (i : ℕ) (r : Bool) : Type 0 where
  valid : IsValid p1
  same : IsSame p p1
  marks : (j : ℕ) → is_set p1.bitmap j ≡ (if i == j then r else is_set p.bitmap j)

one_round :
    (p p1 p' : Pmm) (i rounds : ℕ) (r : Bool)
    → Stepped p p1 i r
    → Ranged p1 p' (i + 1) (i + 1 + rounds) r
    → Ranged p p' i (i + suc rounds) r
one_round p p1 p' i rounds r q h = record {
  valid = h.valid;
  same = record {
    total_frames = h.same.total_frames ∙ q.same.total_frames;
    max_addr = h.same.max_addr ∙ q.same.max_addr;
    ready = h.same.ready ∙ q.same.ready;
    managed_bytes = h.same.managed_bytes ∙ q.same.managed_bytes;
  };
  marks = λ j. ground (arith, h.marks j, q.marks j);
}

no_round : (p : Pmm) (i e : ℕ) (r : Bool) → IsValid p → e ≤ i → Ranged p p i e r
no_round p i e r v l = record { valid = v; same = nothing p; marks = λ j. ground arith }

as_it_was :
    (p : Pmm) (i j : ℕ) (r : Bool)
    → is_set p.bitmap i ≡ r
    → is_set p.bitmap j ≡ (if i == j then r else is_set p.bitmap j)
as_it_was p i j r f = elim (Bool-cases (i == j)) [
  | inl e ↦ (let q = ap (is_set p.bitmap) ((==_iff i j).0 e) in rw e (sym q ∙ f))
  | inr n ↦ rw n refl
]

reserve_one :
    (p : Pmm) (i : ℕ)
    → IsValid p
    → i < p.total_frames
    → Stepped p (if not (is_set p.bitmap i) then take_frame p i else p) i true
reserve_one p i v l = elim (Bool-cases (is_set p.bitmap i)) [
  | inl f ↦ rw f (record { valid = v; same = nothing p; marks = λ j. as_it_was p i j true f })
  | inr f ↦ rw f (record {
    valid = take_frame-IsValid p i v l f;
    same = record { total_frames = refl; max_addr = refl; ready = refl; managed_bytes = refl };
    marks = set_frame-at p.bitmap i;
  })
]

free_one :
    (p : Pmm) (i : ℕ)
    → IsValid p
    → i < p.total_frames
    → Stepped p (if is_set p.bitmap i then give_frame p i else p) i false
free_one p i v l = elim (Bool-cases (is_set p.bitmap i)) [
  | inr f ↦ rw f (record { valid = v; same = nothing p; marks = λ j. as_it_was p i j false f })
  | inl f ↦ rw f (record {
    valid = give_frame-IsValid p i v l f;
    same = record { total_frames = refl; max_addr = refl; ready = refl; managed_bytes = refl };
    marks = clear_frame-at p.bitmap i;
  })
]

reserve_loop-Ranged :
    (rounds : ℕ) (p : Pmm) (i : ℕ)
    → IsValid p
    → i + rounds ≤ p.total_frames
    → Ranged p (reserve_loop rounds p i) i (i + rounds) true
unfolding reserve_loop
reserve_loop-Ranged zero p i v l = no_round p i (i + 0) true v (omega arith)
reserve_loop-Ranged (suc rounds) p i v l =
    let p1 = if not (is_set p.bitmap i) then take_frame p i else p in
    let s = reserve_one p i v (omega arith) in
    let t = s.same.total_frames in
    one_round p p1 _ i rounds true s (reserve_loop-Ranged rounds p1 (i + 1) s.valid (omega arith))

free_loop-Ranged :
    (rounds : ℕ) (p : Pmm) (i : ℕ)
    → IsValid p
    → i + rounds ≤ p.total_frames
    → Ranged p (free_loop rounds p i) i (i + rounds) false
unfolding free_loop
free_loop-Ranged zero p i v l = no_round p i (i + 0) false v (omega arith)
free_loop-Ranged (suc rounds) p i v l =
    let p1 = if is_set p.bitmap i then give_frame p i else p in
    let s = free_one p i v (omega arith) in
    let t = s.same.total_frames in
    one_round p p1 _ i rounds false s (free_loop-Ranged rounds p1 (i + 1) s.valid (omega arith))

-- The frames that a range of addresses touches.
abbrev pub touches : Pmm → (start end : ℕ) → ℕ → Bool
touches p start end j =
    ltb start end && ltb (j * 4096) end && ltb start (j * 4096 + 4096) && ltb j p.total_frames

-- The frames that a range of addresses touches are marked `r`, and no other has changed.
pub record Marked (p p' : Pmm) (start end : ℕ) (r : Bool) : Type 0 where
  pub valid : IsValid p'
  pub same : IsSame p p'
  pub marks :
      (j : ℕ) → is_set p'.bitmap j ≡ (if touches p start end j then r else is_set p.bitmap j)

align_down_page : (v : ℕ) → v < 2 ^ 32 → align_down v 4096 / 4096 ≡ v / 4096
unfolding align_down
align_down_page v l = omega (arith, bit_and_pages v l)

align_up_page : (v : ℕ) → v ≤ 2 ^ 31 → align_up v 4096 / 4096 ≡ (v + 4095) / 4096
unfolding align_up
align_up_page v l = omega (arith, bit_and_pages (add32 v 4095) (omega arith))

range_Marked :
    (p p' : Pmm) (start end : ℕ) (r : Bool)
    → IsValid p
    → start < end
    → start < p.max_addr
    → Ranged p p' (start / 4096) (start / 4096 + ((clamp p end + 4095) / 4096 - start / 4096)) r
    → Marked p p' start end r
range_Marked p p' start end r v l m h = record {
  valid = h.valid;
  same = h.same;
  marks = λ j. ground (arith, h.marks j, v.max_is);
}

no_range :
    (p : Pmm) (start end : ℕ) (r : Bool)
    → IsValid p
    → ((end ≤ start) ⊎ (p.max_addr ≤ start))
    → Marked p p start end r
no_range p start end r v o = record {
  valid = v;
  same = nothing p;
  marks = λ j. ground (arith, v.max_is);
}

range_bounds :
    (p : Pmm) (start end : ℕ)
    → IsValid p
    → start < end
    → start < p.max_addr
    → (align_down start 4096 / 4096 ≡ start / 4096)
      × (align_up (clamp p end) 4096 / 4096 ≡ (clamp p end + 4095) / 4096)
      × (start / 4096 + ((clamp p end + 4095) / 4096 - start / 4096) ≤ p.total_frames)
range_bounds p start end v l m =
    let c : clamp p end ≤ p.max_addr = ground arith in
    let d : start < clamp p end = ground arith in
    (
      align_down_page start (omega (arith, v.max_is, v.total_in)),
      align_up_page (clamp p end) (omega (arith, v.max_is, v.total_in)),
      omega (arith, v.max_is),
    )

-- reserve_range marks exactly the frames that the range touches as used, and the counters follow.
pub reserve_range-Marked :
    (p : Pmm) (start end : ℕ) → IsValid p → Marked p (reserve_range p start end) start end true
unfolding reserve_range
reserve_range-Marked p start end v = elim (Bool-cases (leb end start)) [
  | inl e ↦ rw e (no_range p start end true v (inl (ground arith)))
  | inr e ↦ elim (Bool-cases (leb p.max_addr start)) [
    | inl f ↦ rw (e, f) (no_range p start end true v (inr (ground arith)))
    | inr f ↦
        let b = range_bounds p start end v (ground arith) (ground arith) in
        rw (e, f, b.0, b.1)
          (range_Marked p _ start end true v (ground arith) (ground arith)
            (reserve_loop-Ranged _ p (start / 4096) v b.2))
  ]
]

-- free_range marks exactly the frames that the range touches as free, and the counters follow.
pub free_range-Marked :
    (p : Pmm) (start end : ℕ) → IsValid p → Marked p (free_range p start end) start end false
unfolding free_range
free_range-Marked p start end v = elim (Bool-cases (leb end start)) [
  | inl e ↦ rw e (no_range p start end false v (inl (ground arith)))
  | inr e ↦ elim (Bool-cases (leb p.max_addr start)) [
    | inl f ↦ rw (e, f) (no_range p start end false v (inr (ground arith)))
    | inr f ↦
        let b = range_bounds p start end v (ground arith) (ground arith) in
        rw (e, f, b.0, b.1)
          (range_Marked p _ start end false v (ground arith) (ground arith)
            (free_loop-Ranged _ p (start / 4096) v b.2))
  ]
]
