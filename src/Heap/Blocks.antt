-- ===== src/Heap/Blocks.antt =====
-- The block list of kernel/heap.c: what it stands for, and what first_fit, merge_next, release and
-- attach do to it.
use ronin_os.Base.{
  ℕ, ◌+◌, ◌%◌, ◌^◌, ◌≤◌, ◌<◌, ◌≡◌, refl, ◌∙◌, sym, subst, Bool, true, false, not, ◌&&◌, Option,
  none, some, List, [], ◌∷◌, ◌++◌, arith, ◌==◌, leb, ltb, if◌then◌else◌, Bool-cases, Option-cases,
  inl, inr, add32, sub32,
}
use ronin_os.Heap.{Block, split_block, mark_used, first_fit}

-- The blocks follow one another from `a` to `e` without a gap, in multiples of 16 bytes.
abbrev pub Tiles : ℕ → List Block → ℕ → Type 0
Tiles a [] e = a ≡ e
Tiles a (b ∷ bs) e = (b.addr ≡ a) × (b.size % 16 ≡ 0) × Tiles (a + 16 + b.size) bs e

abbrev pub starts_free : List Block → Bool
starts_free [] = false
starts_free (b ∷ bs) = b.free

-- No two neighbours are free.
abbrev pub Coalesced : List Block → Type 0
Coalesced [] = Unit
Coalesced (b ∷ bs) = ((b.free && starts_free bs) ≡ false) × Coalesced bs

-- The allocation at a pointer: the size of the used block whose payload begins there.
abbrev pub table : List Block → ℕ → Option ℕ
table [] q = none
table (b ∷ bs) q = if not b.free && b.addr + 16 == q then some b.size else table bs q

pub Tiles-le : (a e : ℕ) (bs : List Block) → Tiles a bs e → a ≤ e
Tiles-le a e [] t = omega arith
Tiles-le a e (b ∷ bs) t = omega (arith, Tiles-le (a + 16 + b.size) e bs t.2)

pub table-below : (a e q : ℕ) (bs : List Block) → Tiles a bs e → q < a + 16 → table bs q ≡ none
table-below a e q [] t l = refl
table-below a e q (b ∷ bs) t l =
    ground (arith, table-below (a + 16 + b.size) e q bs t.2 (omega arith))

pub table-above : (a e q n : ℕ) (bs : List Block) → Tiles a bs e → table bs q ≡ some n → a + 16 ≤ q
table-above a e q n bs t h = elim (Bool-cases (ltb q (a + 16))) [
  | inl low ↦
      let none_there = table-below a e q bs t (ground arith) in
      absurd (let k = sym h ∙ none_there in cc)
  | inr high ↦ ground arith
]

pub table-within : (a e q n : ℕ) (bs : List Block) → Tiles a bs e → table bs q ≡ some n → q + n ≤ e
table-within a e q n [] t h = cc
table-within a e q n (b ∷ bs) t h = elim (Bool-cases (not b.free && b.addr + 16 == q)) [
  | inl here ↦
      let size : b.size ≡ n = cc (rw here at h) in
      let at : b.addr + 16 ≡ q = ground arith in omega (arith, Tiles-le (a + 16 + b.size) e bs t.2)
  | inr below ↦ table-within (a + 16 + b.size) e q n bs t.2 (rw below at h)
]

-- Two allocations do not overlap, and there is a header between them.
pub table-disjoint :
    (a e p q n m : ℕ) (bs : List Block)
    → Tiles a bs e
    → table bs p ≡ some n
    → table bs q ≡ some m
    → p < q
    → p + n + 16 ≤ q
table-disjoint a e p q n m [] t h k lt = cc
table-disjoint a e p q n m (b ∷ bs) t h k lt = elim (Bool-cases (not b.free && b.addr + 16 == p)) [
  | inl here ↦
      let size : b.size ≡ n = cc (rw here at h) in
      let at : b.addr + 16 ≡ p = ground arith in
      let not_here : (not b.free && b.addr + 16 == q) ≡ false = ground arith in
      let above = table-above (a + 16 + b.size) e q m bs t.2 (rw not_here at k) in omega arith
  | inr below ↦
      let later : table bs p ≡ some n = rw below at h in
      let above = table-above (a + 16 + b.size) e p n bs t.2 later in
      let not_here : (not b.free && b.addr + 16 == q) ≡ false = ground arith in
      table-disjoint (a + 16 + b.size) e p q n m bs t.2 later (rw not_here at k) lt
]

-- What first_fit promises of its result.
pub record Placed (a e wanted : ℕ) (bs : List Block) (p : ℕ) (bs' : List Block) : Type 0 where
  pub tiles : Tiles a bs' e
  pub size : ℕ
  pub enough : wanted ≤ size
  pub was_free : table bs p ≡ none
  pub now : (q : ℕ) → table bs' q ≡ (if p == q then some size else table bs q)
  pub coalesced : Coalesced bs → Coalesced bs'
  pub head : starts_free bs' ≡ true → starts_free bs ≡ true
  pub above : a + 16 ≤ p
  pub within : p + size ≤ e
  pub aligned : a % 16 ≡ 0 → p % 16 ≡ 0

abbrev pub NoRoom : List Block → ℕ → Type 0
NoRoom [] wanted = Unit
NoRoom (b ∷ bs) wanted = ((b.free && leb wanted b.size) ≡ false) × NoRoom bs wanted

abbrev pub Fits : ℕ → ℕ → ℕ → List Block → Option (ℕ × List Block) → Type 0
Fits a e wanted bs none = NoRoom bs wanted
Fits a e wanted bs (some (p, bs')) = Placed a e wanted bs p bs'

-- The first block is taken, whole or split.
take_first :
    (a e wanted : ℕ) (b : Block) (bs : List Block)
    → Tiles a (b ∷ bs) e
    → e < 2 ^ 31
    → wanted % 16 ≡ 0
    → b.free ≡ true
    → wanted ≤ b.size
    → Placed a e wanted (b ∷ bs) (add32 b.addr 16) (mark_used (split_block b wanted) ++ bs)
unfolding split_block
take_first a e wanted b bs t l w f le =
    let end = Tiles-le (a + 16 + b.size) e bs t.2 in
    elim (Bool-cases (leb b.size (add32 (add32 wanted 16) 16))) [
      | inl whole ↦ rw whole (record {
        tiles = t;
        size = b.size;
        enough = le;
        was_free = ground (arith, table-below (a + 16 + b.size) e (add32 b.addr 16) bs t.2);
        now = λ q. ground arith;
        coalesced = λ c. (refl, c.1);
        head = λ h. cc;
        above = omega arith;
        within = omega arith;
        aligned = λ h. omega arith;
      })
      | inr cut ↦ rw cut (record {
        tiles = (
          t.0,
          w,
          (
            omega arith,
            ground arith,
            subst (λ x. Tiles x bs e)
                (let q : a + 16 + b.size ≡ a + 16 + wanted + 16 + sub32 (sub32 b.size wanted) 16 =
                    ground arith in
                  q)
                t.2,
          ),
        );
        size = wanted;
        enough = omega arith;
        was_free = ground (arith, table-below (a + 16 + b.size) e (add32 b.addr 16) bs t.2);
        now = λ q. ground arith;
        coalesced = λ c. (refl, (ground (arith, c.0), c.1));
        head = λ h. cc;
        above = omega arith;
        within = omega arith;
        aligned = λ h. omega arith;
      })
    ]

-- A block that is passed over stays as it is.
pass_over :
    (a e wanted p : ℕ) (b : Block) (bs bs' : List Block)
    → Tiles a (b ∷ bs) e
    → Placed (a + 16 + b.size) e wanted bs p bs'
    → Placed a e wanted (b ∷ bs) p (b ∷ bs')
pass_over a e wanted p b bs bs' t s = record {
  tiles = (t.0, t.1, s.tiles);
  size = s.size;
  enough = s.enough;
  was_free = ground (arith, s.was_free, s.above);
  now = λ q. ground (arith, s.now q, s.above);
  coalesced = λ c. (
    elim (Bool-cases (starts_free bs')) [
      | inl h ↦ let k = s.head h in ground (arith, c.0)
      | inr h ↦ ground arith
    ],
    s.coalesced c.1,
  );
  head = λ h. h;
  above = omega (arith, s.above);
  within = s.within;
  aligned = λ h. s.aligned (omega arith);
}

pub first_fit-Fits :
    (a e wanted : ℕ) (bs : List Block)
    → Tiles a bs e
    → e < 2 ^ 31
    → wanted % 16 ≡ 0
    → Fits a e wanted bs (first_fit bs wanted)
unfolding first_fit
first_fit-Fits a e wanted [] t l w = tt
first_fit-Fits a e wanted (b ∷ bs) t l w = elim (Bool-cases (b.free && leb wanted b.size)) [
  | inl hit ↦ rw hit (take_first a e wanted b bs t l w (ground arith) (ground arith))
  | inr miss ↦
      let ih = first_fit-Fits (a + 16 + b.size) e wanted bs t.2 l w in
      rw miss (elim (Option-cases (first_fit bs wanted)) [
        | inl n ↦ rw n (miss, subst (Fits (a + 16 + b.size) e wanted bs) n ih)
        | inr (r, s) ↦
            rw s (
              pass_over a e wanted r.0 b bs r.1 t (subst (Fits (a + 16 + b.size) e wanted bs) s ih))
      ])
]
