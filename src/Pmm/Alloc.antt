-- ===== src/Pmm/Alloc.antt =====
-- pmm_alloc_frame and pmm_free_frame of kernel/mem/pmm.c against the set of frames in use.
use Prim.Native.Nat.{bit_and, bit_or}
use ronin_os.Base.{
  ℕ, zero, suc, ◌+◌, ◌*◌, ◌/◌, ◌%◌, ◌^◌, ◌≤◌, ◌<◌, ◌≡◌, refl, ◌≢◌, ◌∙◌, ap, sym, subst, Bool, true,
  false, not, ◌||◌, Option, none, some, arith, ◌==◌, ==_iff, leb, ltb, if◌then◌else◌, Bool-cases,
  if_both, inl, inr, add32, sub32,
}
use ronin_os.Base.Bits.{bit, bit-complement, bit-zero, bit_and_low12}
use ronin_os.Pmm.{
  Pmm, with_word, set_frame, is_set, take_frame, give_frame, alloc_bits, alloc_words,
  pmm_alloc_frame, pmm_free_frame,
}
use ronin_os.Pmm.Bitmap.{is_set-bit, set_frame-at, clear_frame-at}
use ronin_os.Pmm.Ranges.{IsValid, IsSame, take_frame-IsValid, give_frame-IsValid}

frame_at : (b : ℕ → ℕ) (i k : ℕ) → k < 32 → is_set b (i * 32 + k) ≡ not (bit_and (b i) (2 ^ k) == 0)
unfolding is_set
frame_at b i k l =
    let word : (i * 32 + k) / 32 ≡ i = omega arith in
    let place : (i * 32 + k) % 32 ≡ k = omega arith in rw (word, place) refl

set_frame_at :
    (b : ℕ → ℕ) (i k : ℕ) → k < 32 → with_word b i (bit_or (b i) (2 ^ k)) ≡ set_frame b (i * 32 + k)
unfolding set_frame
set_frame_at b i k l =
    let word : (i * 32 + k) / 32 ≡ i = omega arith in
    let place : (i * 32 + k) % 32 ≡ k = omega arith in rw (word, place) refl

-- `f` is the first free frame from `from` on, below the total.
pub record FirstFree (p : Pmm) (from f : ℕ) : Type 0 where
  pub from_le : from ≤ f
  pub below : f < p.total_frames
  pub unused : is_set p.bitmap f ≡ false
  pub earlier : (j : ℕ) → from ≤ j → j < f → is_set p.bitmap j ≡ true

-- No frame from `from` up to `to` is free.
abbrev pub NoneFree : Pmm → ℕ → ℕ → Type 0
NoneFree p from to = (j : ℕ) → from ≤ j → j < to → j < p.total_frames → is_set p.bitmap j ≡ true

-- A search from `from` up to `to`.
abbrev Searched : Pmm → ℕ → ℕ → Option (Pmm × ℕ) → Type 0
Searched p from to none = NoneFree p from to
Searched p from to (some (p', f)) = FirstFree p from f × (f < to) × (p' ≡ take_frame p f)

-- A frame in use before the search, and the rest of it.
later :
    (p : Pmm) (from to : ℕ) (r : Option (Pmm × ℕ))
    → is_set p.bitmap from ≡ true
    → Searched p (from + 1) to r
    → Searched p from to r
later p from to none u h = λ j a b c. elim (Bool-cases (from == j)) [
  | inl e ↦ (let q = ap (is_set p.bitmap) ((==_iff from j).0 e) in sym q ∙ u)
  | inr e ↦ h j (ground arith) b c
]
later p from to (some (p', f)) u (h, l, q) = (
  record {
    from_le = omega (arith, h.from_le);
    below = h.below;
    unused = h.unused;
    earlier = λ j a b. elim (Bool-cases (from == j)) [
      | inl e ↦ (let q = ap (is_set p.bitmap) ((==_iff from j).0 e) in sym q ∙ u)
      | inr e ↦ h.earlier j (ground arith) b
    ];
  },
  l,
  q,
)

alloc_bits-Searched :
    (rounds : ℕ) (p : Pmm) (i k : ℕ)
    → p.total_frames ≤ 131072
    → i < 4096
    → k + rounds ≡ 32
    → Searched p (i * 32 + k) (i * 32 + 32) (alloc_bits rounds p i k)
unfolding alloc_bits
alloc_bits-Searched zero p i k t l e = λ j a b c. absurd (omega arith)
alloc_bits-Searched (suc rounds) p i k t l e =
    let sum : add32 (i * 32) k ≡ i * 32 + k = omega arith in
    let at = frame_at p.bitmap i k (omega arith) in
    rw sum (elim (Bool-cases (leb p.total_frames (i * 32 + k))) [
      | inl over ↦ rw over (λ j a b c. absurd (ground arith))
      | inr inside ↦ elim (Bool-cases (bit_and (p.bitmap i) (2 ^ k) == 0)) [
        | inl free ↦
            rw (inside, free)
              (
                record {
                  from_le = omega arith;
                  below = ground arith;
                  unused = at ∙ rw free refl;
                  earlier = λ j a b. absurd (omega arith);
                },
                omega arith,
                ap
                    (λ b. record p {
                      bitmap = b;
                      free_frames = sub32 p.free_frames 1;
                      used_frames = add32 p.used_frames 1;
                    })
                    (set_frame_at p.bitmap i k (omega arith)),
              )
        | inr used ↦
            let next : i * 32 + (k + 1) ≡ i * 32 + k + 1 = omega arith in
            rw (inside, used)
              (later p (i * 32 + k) (i * 32 + 32) _ (at ∙ rw used refl) (
                subst (λ x. Searched p x (i * 32 + 32) (alloc_bits rounds p i (k + 1))) next
                  (alloc_bits-Searched rounds p i (k + 1) t l (omega arith))))
      ]
    ])

-- A word of ones has no free frame.
full_word : (p : Pmm) (i : ℕ) → p.bitmap i ≡ 0xffff_ffff → NoneFree p (i * 32) (i * 32 + 32)
full_word p i e j a b c =
    let word : j / 32 ≡ i = omega arith in
    let ones : bit (j % 32) (p.bitmap (j / 32)) ≡ 1 =
      ap (λ k. bit (j % 32) (p.bitmap k)) word
      ∙ ap (bit (j % 32)) e
      ∙ bit-complement 32 (j % 32) 0 (omega arith) (omega arith)
      ∙ omega (arith, bit-zero (j % 32)) in
    is_set-bit p.bitmap j ∙ rw ones refl

join :
    (p : Pmm) (a b c : ℕ) (r : Option (Pmm × ℕ))
    → NoneFree p a b
    → a ≤ b
    → Searched p b c r
    → Searched p a c r
join p a b c none n l h = λ j x y z. elim (Bool-cases (ltb j b)) [
  | inl e ↦ n j x (ground arith) z
  | inr e ↦ h j (ground arith) y z
]
join p a b c (some (p', f)) n l (h, m, q) = (
  record {
    from_le = omega (arith, h.from_le);
    below = h.below;
    unused = h.unused;
    earlier = λ j x y. elim (Bool-cases (ltb j b)) [
      | inl e ↦ n j x (ground arith) (omega (arith, h.below))
      | inr e ↦ h.earlier j (ground arith) y
    ];
  },
  m,
  q,
)

or_rest :
    (p : Pmm) (i c : ℕ)
    → i * 32 + 32 ≤ c
    → (r rest : Option (Pmm × ℕ)) → Searched p (i * 32) (i * 32 + 32) r
    → Searched p (i * 32 + 32) c rest
    → Searched p (i * 32) c (elim r [ none ↦ rest | some q ↦ some q ])
or_rest p i c l none rest h k = join p (i * 32) (i * 32 + 32) c rest h (omega arith) k
or_rest p i c l (some (p', f)) rest (h, m, q) k = (h, omega arith, q)

alloc_words-Searched :
    (rounds : ℕ) (p : Pmm) (i : ℕ)
    → p.total_frames ≤ 131072
    → i + rounds ≤ 4096
    → Searched p (i * 32) ((i + rounds) * 32) (alloc_words rounds p i)
unfolding alloc_words
alloc_words-Searched zero p i t l = λ j a b c. absurd (omega arith)
alloc_words-Searched (suc rounds) p i t l =
    let first : i * 32 + 0 ≡ i * 32 = omega arith in
    let next : (i + 1) * 32 ≡ i * 32 + 32 = omega arith in
    let last : (i + 1 + rounds) * 32 ≡ (i + suc rounds) * 32 = omega arith in
    let rest =
      subst (λ x. Searched p (i * 32 + 32) x (alloc_words rounds p (i + 1))) last
        (subst (λ x. Searched p x ((i + 1 + rounds) * 32) (alloc_words rounds p (i + 1))) next
          (alloc_words-Searched rounds p (i + 1) t (omega arith))) in
    elim (Bool-cases (p.bitmap i == 0xffff_ffff)) [
      | inl full ↦
          rw full
            (join p (i * 32) (i * 32 + 32) _ _ (full_word p i (ground arith)) (omega arith) rest)
      | inr some_free ↦ rw some_free (
          or_rest p i ((i + suc rounds) * 32) (omega arith) _ _
            (subst (λ x. Searched p x (i * 32 + 32) (alloc_bits 32 p i 0)) first
              (alloc_bits-Searched 32 p i 0 t (omega arith) refl))
            rest)
    ]

when_ready :
    {A : Type 0} (P : A → Type 0) (b : Bool) (y : A) {x : A}
    → b ≡ true
    → P x
    → P (if not b then y else x)
when_ready P true y e h = h
when_ready P false y e h = cc

-- A frame that was free is now the only one whose mark has changed, and it is in use.
pub record Taken (p p' : Pmm) (f : ℕ) : Type 0 where
  pub valid : IsValid p'
  pub same : IsSame p p'
  pub counted : p'.free_frames + 1 ≡ p.free_frames
  pub marks : (j : ℕ) → is_set p'.bitmap j ≡ (if f == j then true else is_set p.bitmap j)

-- How pmm_alloc_frame answers: with 0 if no frame is free, else with the address of the first one.
pub data Allocation (p : Pmm) (r : Pmm × ℕ) : Type 0 where
  exhausted : NoneFree p 0 p.total_frames → r ≡ (p, 0) → Allocation p r
  allocated : (f : ℕ) → FirstFree p 0 f → r.1 ≡ f * 4096 → Taken p r.0 f → Allocation p r

take_frame-Taken :
    (p : Pmm) (f : ℕ)
    → IsValid p
    → f < p.total_frames
    → is_set p.bitmap f ≡ false
    → Taken p (take_frame p f) f
take_frame-Taken p f v l u =
    let w = take_frame-IsValid p f v l u in
    record {
      valid = w;
      same = record { total_frames = refl; max_addr = refl; ready = refl; managed_bytes = refl };
      counted = omega (arith, w.used_is, v.used_is, v.total_in);
      marks = set_frame-at p.bitmap f;
    }

-- pmm_alloc_frame, once the allocator is ready, takes the free frame of the lowest number and answers
-- its address; it answers 0 and changes nothing if no frame below the total is free.
pub pmm_alloc_frame-Allocation :
    (p : Pmm) → IsValid p → p.ready ≡ true → Allocation p (pmm_alloc_frame p)
unfolding pmm_alloc_frame
pmm_alloc_frame-Allocation p v r =
    when_ready (Allocation p) p.ready (p, 0) r
      (answer (alloc_words 4096 p 0) (alloc_words-Searched 4096 p 0 v.total_in (omega arith)))
  where
    answer :
        (o : Option (Pmm × ℕ))
        → Searched p 0 131072 o
        → Allocation p (elim o [ none ↦ (p, 0) | some (p', frame) ↦ (p', frame * 4096) ])
    answer none h = exhausted (λ j a b c. h j a (omega (arith, v.total_in)) c) refl
    answer (some (p', f)) (h, l, q) =
        allocated f h refl
          (subst (λ x. Taken p x f) (sym q) (take_frame-Taken p f v h.below h.unused))

-- A frame that was in use is now the only one whose mark has changed, and it is free.
pub record Given (p p' : Pmm) (f : ℕ) : Type 0 where
  pub valid : IsValid p'
  pub same : IsSame p p'
  pub marks : (j : ℕ) → is_set p'.bitmap j ≡ (if f == j then false else is_set p.bitmap j)

-- pmm_free_frame of the address of a frame below the total frees exactly this frame, whether or not it
-- was in use; of any other address, or before the allocator is ready, it changes nothing.
pub pmm_free_frame-Given :
    (p : Pmm) (addr : ℕ)
    → IsValid p
    → addr < 2 ^ 32
    → (p.ready ≡ true
        → addr % 4096 ≡ 0
        → addr / 4096 < p.total_frames
        → Given p (pmm_free_frame p addr) (addr / 4096))
      × (p.ready ≡ false → pmm_free_frame p addr ≡ p)
      × (addr % 4096 ≢ 0 → pmm_free_frame p addr ≡ p)
      × (p.total_frames ≤ addr / 4096 → pmm_free_frame p addr ≡ p)
unfolding pmm_free_frame
pmm_free_frame-Given p addr v l =
    let low = bit_and_low12 addr in
    (
      λ r a b.
          let here : (not p.ready || not (bit_and addr 4095 == 0)) ≡ false = ground arith in
          let inside : leb p.total_frames (addr / 4096) ≡ false = ground arith in
          rw (here, inside) (freed b),
      λ r.
          (let here : (not p.ready || not (bit_and addr 4095 == 0)) ≡ true = ground arith in
            rw here refl),
      λ n.
          (let here : (not p.ready || not (bit_and addr 4095 == 0)) ≡ true = ground arith in
            rw here refl),
      λ o.
          (let inside : leb p.total_frames (addr / 4096) ≡ true = ground arith in
            rw inside
              (if_both (λ x. x ≡ p) (not p.ready || not (bit_and addr 4095 == 0)) refl refl)),
    )
  where
    freed :
        addr / 4096 < p.total_frames
        → Given p
            (if is_set p.bitmap (addr / 4096) then give_frame p (addr / 4096) else p)
            (addr / 4096)
    freed b = elim (Bool-cases (is_set p.bitmap (addr / 4096))) [
      | inl u ↦ rw u (record {
        valid = give_frame-IsValid p (addr / 4096) v b u;
        same = record { total_frames = refl; max_addr = refl; ready = refl; managed_bytes = refl };
        marks = clear_frame-at p.bitmap (addr / 4096);
      })
      | inr u ↦ rw u (record {
        valid = v;
        same = record { total_frames = refl; max_addr = refl; ready = refl; managed_bytes = refl };
        marks = λ j. elim (Bool-cases (addr / 4096 == j)) [
          | inl e ↦
              (let q = ap (is_set p.bitmap) ((==_iff (addr / 4096) j).0 e) in rw e (sym q ∙ u))
          | inr e ↦ rw e refl
        ];
      })
    ]
