-- ===== src/Memory/Backing.antt =====
-- Each page of the heap stands on a frame of its own.
use ronin_os.Base.{
  ℕ, ◌+◌, ◌*◌, ◌/◌, ◌%◌, ◌^◌, ◌≤◌, ◌<◌, ◌≡◌, refl, ◌∙◌, ap, sym, true, false, some, arith, ◌==◌,
  ==_iff, ==_self, if◌then◌else◌, Bool-cases, if_both, inl, inr,
}
use ronin_os.Pmm.{Pmm, is_set}
use ronin_os.Pmm.Ranges
use ronin_os.Pmm.Alloc.{FirstFree, Taken}
use ronin_os.Paging.{Paging, translate}
use ronin_os.Paging.Tables
use ronin_os.Paging.Tables.{slot_of}
use ronin_os.Paging.Map.{Mapped}

-- The frame allocator and the page tables are well-formed, and the pages from `a` up to `e` translate
-- to frames that are in use, each to its own.
pub record Backed (pool : ℕ) (p : Pmm) (g : Paging) (a e : ℕ) : Type 0 where
  pub pmm : Ranges.IsValid p
  pub ready : p.ready ≡ true
  pub low : is_set p.bitmap 0 ≡ true
  pub paging : Tables.IsValid pool g
  pub frame : ℕ → ℕ
  pub in_range : (n : ℕ) → a ≤ n → n < e → frame n < p.total_frames
  pub in_use : (n : ℕ) → a ≤ n → n < e → is_set p.bitmap (frame n) ≡ true
  pub own : (n k : ℕ) → a ≤ n → n < e → a ≤ k → k < e → frame n ≡ frame k → n ≡ k
  pub translates :
      (w : ℕ)
      → a * 4096 ≤ w
      → w < e * 4096
      → translate pool g w ≡ some (frame (w / 4096) * 4096 + w % 4096)

-- A frame is taken and the next page mapped to it.
pub next_page :
    {pool : ℕ} {p p' : Pmm} {g g' : Paging} (a e f : ℕ)
    → a ≤ e
    → e < 2 ^ 20
    → Backed pool p g a e
    → FirstFree p 0 f
    → Taken p p' f
    → Mapped pool g g' (e * 4096) (f * 4096)
    → Backed pool p' g' a (e + 1)
next_page {pool} {p} {p'} {g} {g'} a e f ae l b first t q = record {
  pmm = t.valid;
  ready = t.same.ready ∙ b.ready;
  low = t.marks 0 ∙ (let z = b.low in ground arith);
  paging = q.valid;
  frame = λ n. if n == e then f else b.frame n;
  in_range = λ n x y. elim (Bool-cases (n == e)) [
    | inl h ↦ rw h (omega (arith, first.below, t.same.total_frames))
    | inr h ↦ rw h (omega (arith, b.in_range n x (ground arith), t.same.total_frames))
  ];
  in_use = λ n x y. elim (Bool-cases (n == e)) [
    | inl h ↦ rw h (t.marks f ∙ rw (==_self f) refl)
    | inr h ↦ rw h (
        t.marks (b.frame n)
        ∙ if_both (λ r. r ≡ true) (f == b.frame n) refl (b.in_use n x (ground arith)))
  ];
  own = λ n k x y z w h. elim (Bool-cases (n == e)) [
    | inl i ↦ elim (Bool-cases (k == e)) [
      | inl j ↦ (==_iff n e).0 i ∙ sym ((==_iff k e).0 j)
      | inr j ↦ absurd (taken k z (ground arith) (rw (i, j) at h))
    ]
    | inr i ↦ elim (Bool-cases (k == e)) [
      | inl j ↦ absurd (taken n x (ground arith) (sym (rw (i, j) at h)))
      | inr j ↦ b.own n k x (ground arith) z (ground arith) (rw (i, j) at h)
    ]
  ];
  translates = λ w x y. elim (Bool-cases (w / 4096 == e)) [
    | inl h ↦
        let here : (w / 4096 == e * 4096 / 4096) ≡ true = ground arith in
        rw h (q.translates w (omega arith) ∙ rw here refl)
    | inr h ↦
        let there : (w / 4096 == e * 4096 / 4096) ≡ false = ground arith in
        rw h (q.translates w (omega arith) ∙ rw there (b.translates w x (ground arith)))
  ];
}
  where
    taken : (n : ℕ) → a ≤ n → n < e → f ≡ b.frame n → ⊥
    taken n x y h =
        (let u = first.unused in let v = b.in_use n x y in let c = ap (is_set p.bitmap) h in cc)
