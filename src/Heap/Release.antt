-- ===== src/Heap/Release.antt =====
-- The freeing half of the block list of kernel/heap.c: merge_next and the body of kfree.
use ronin_os.Base.{
  ℕ, ◌+◌, ◌^◌, ◌<◌, ◌≡◌, refl, ◌∙◌, sym, subst, Bool, true, false, not, ◌&&◌, Option, none, some,
  List, [], ◌∷◌, arith, ◌==◌, if◌then◌else◌, Bool-cases, inl, inr, add32,
}
use ronin_os.Heap.{Block, merge_next, release_after, release}
use ronin_os.Heap.Blocks.{Tiles, Tiles-le, starts_free, Coalesced, table, table-below, table-above}

-- What merge_next promises for a free block: the same region and table, and no free neighbour.
record Merged (a e : ℕ) (b : Block) (bs : List Block) (out : List Block) : Type 0 where
  tiles : Tiles a out e
  same : (q : ℕ) → table out q ≡ table bs q
  coalesced : Coalesced bs → Coalesced out
  front : starts_free out ≡ true

merge_next-Merged :
    (a e : ℕ) (b : Block) (bs : List Block)
    → Tiles a (b ∷ bs) e
    → e < 2 ^ 31
    → b.free ≡ true
    → Merged a e b bs (merge_next b bs)
unfolding merge_next
merge_next-Merged a e b [] t l f = record {
  tiles = t;
  same = λ q. ground arith;
  coalesced = λ c. (ground arith, tt);
  front = f;
}
merge_next-Merged a e b (n ∷ bs) t l f =
    let end = Tiles-le (a + 16 + b.size + 16 + n.size) e bs t.2.2 in
    elim (Bool-cases n.free) [
      | inl h ↦ rw h (record {
        tiles = (
          t.0,
          ground arith,
          subst (λ x. Tiles x bs e)
              (let q : a + 16 + b.size + 16 + n.size ≡ a + 16 + add32 b.size (add32 16 n.size) =
                  omega arith in
                q)
              t.2.2,
        );
        same = λ q. ground arith;
        coalesced = λ c. (ground (arith, c.0), c.1);
        front = f;
      })
      | inr h ↦ rw h (record {
        tiles = t;
        same = λ q. ground arith;
        coalesced = λ c. (ground arith, c);
        front = f;
      })
    ]

-- What kfree promises: the region is the same, the table loses the pointer, and no two neighbours
-- are free.
pub record Freed (a e p : ℕ) (bs bs' : List Block) : Type 0 where
  pub tiles : Tiles a bs' e
  pub now : (q : ℕ) → table bs' q ≡ (if p == q then none else table bs q)
  pub coalesced : Coalesced bs'

abbrev freed : Block → Block
freed b = record b { free = true }

-- The used block at the front is freed.
free_front :
    (a e : ℕ) (b : Block) (bs : List Block)
    → Tiles a (b ∷ bs) e
    → e < 2 ^ 31
    → Coalesced (b ∷ bs)
    → b.free ≡ false
    → Freed a e (b.addr + 16) (b ∷ bs) (merge_next (record b { free = true }) bs)
free_front a e b bs t l c f =
    let m = merge_next-Merged a e (record b { free = true }) bs t l refl in
    record {
      tiles = m.tiles;
      now = λ q. m.same q ∙ ground (arith, table-below (a + 16 + b.size) e (b.addr + 16) bs t.2);
      coalesced = m.coalesced c.1;
    }

-- Freed behind a block that is free itself, the two are merged; behind a used one they are not.
free_behind :
    (a e p : ℕ) (prev : Block) (bs bs' : List Block) (x : Bool)
    → prev.free ≡ x
    → Tiles a (prev ∷ bs) e
    → e < 2 ^ 31
    → a + 16 < p
    → Freed (a + 16 + prev.size) e p bs bs'
    → Freed a e p (prev ∷ bs) (if x then merge_next prev bs' else prev ∷ bs')
      × (starts_free (if x then merge_next prev bs' else prev ∷ bs') ≡ x)
free_behind a e p prev bs bs' true h t l lt s =
    let m = merge_next-Merged a e prev bs' (t.0, t.1, s.tiles) l h in
    (
      record {
        tiles = m.tiles;
        now = λ q. m.same q ∙ s.now q ∙ ground arith;
        coalesced = m.coalesced s.coalesced;
      },
      m.front,
    )
free_behind a e p prev bs bs' false h t l lt s = (
  record {
    tiles = (t.0, t.1, s.tiles);
    now = λ q. ground (arith, s.now q);
    coalesced = (ground arith, s.coalesced);
  },
  h,
)

-- A block in front, that is not the one that is freed, keeps its own entry.
entry_in_front :
    (f : Bool) (addr size p q : ℕ) (o o' : Option ℕ)
    → addr + 16 < p
    → o' ≡ (if p == q then none else o)
    → (if not f && addr + 16 == q then some size else o')
      ≡ (if p == q then none else if not f && addr + 16 == q then some size else o)
entry_in_front f addr size p q o o' l e = ground arith

-- Freed further down, with the front of the rest as it was.
keep_front :
    (a e p : ℕ) (prev : Block) (bs bs' : List Block)
    → Tiles a (prev ∷ bs) e
    → a + 16 < p
    → Coalesced (prev ∷ bs)
    → starts_free bs' ≡ starts_free bs
    → Freed (a + 16 + prev.size) e p bs bs'
    → Freed a e p (prev ∷ bs) (prev ∷ bs')
keep_front a e p prev bs bs' t lt c same s = record {
  tiles = (t.0, t.1, s.tiles);
  now = λ q.
      entry_in_front prev.free prev.addr prev.size p q (table bs q) (table bs' q) (omega arith)
        (s.now q);
  coalesced = (rw same c.0, s.coalesced);
}

-- A pointer in the table is behind the header of a used block.
used_front :
    (a e n : ℕ) (b : Block) (bs : List Block)
    → Tiles a (b ∷ bs) e
    → table (b ∷ bs) (b.addr + 16) ≡ some n
    → b.free ≡ false
used_front a e n b bs t h = ground (arith, table-below (a + 16 + b.size) e (b.addr + 16) bs t.2)

release_after-Freed :
    (a e n addr : ℕ) (prev : Block) (bs : List Block)
    → Tiles a (prev ∷ bs) e
    → e < 2 ^ 31
    → Coalesced (prev ∷ bs)
    → table bs (addr + 16) ≡ some n
    → (bs' : List Block) × (release_after prev bs addr ≡ some bs')
      × Freed a e (addr + 16) (prev ∷ bs) bs'
      × (starts_free bs' ≡ prev.free)
unfolding release_after
release_after-Freed a e n addr prev [] t l c h = cc
release_after-Freed a e n addr prev (b ∷ bs) t l c h = elim (Bool-cases (b.addr == addr)) [
  | inl here ↦
      let same : b.addr ≡ addr = ground arith in
      let f : b.free ≡ false =
        used_front (a + 16 + prev.size) e n b bs t.2
          (subst (λ x. table (b ∷ bs) (x + 16) ≡ some n) (sym same) h) in
      let front =
        subst (λ x. Freed (a + 16 + prev.size) e (x + 16) (b ∷ bs) (merge_next (freed b) bs)) same
          (free_front (a + 16 + prev.size) e b bs t.2 l c.1 f) in
      let (s, g) =
        free_behind a e (addr + 16) prev (b ∷ bs) (merge_next (freed b) bs) prev.free refl t l
          (omega arith) front in
      (_, rw here refl, s, g)
  | inr below ↦
      let (bs', eq, s, g) =
        release_after-Freed (a + 16 + prev.size) e n addr b bs t.2 l c.1 (ground arith) in
      (
        prev ∷ bs',
        rw (below, eq) refl,
        keep_front a e (addr + 16) prev (b ∷ bs) bs' t
            (omega (arith, table-above (a + 16 + prev.size) e (addr + 16) n (b ∷ bs) t.2 h)) c g s,
        refl,
      )
]

-- Freeing a pointer of the table finds its block.
pub release-Freed :
    (a e n addr : ℕ) (bs : List Block)
    → Tiles a bs e
    → e < 2 ^ 31
    → Coalesced bs
    → table bs (addr + 16) ≡ some n
    → (bs' : List Block) × (release bs addr ≡ some bs') × Freed a e (addr + 16) bs bs'
unfolding release
release-Freed a e n addr [] t l c h = cc
release-Freed a e n addr (b ∷ bs) t l c h = elim (Bool-cases (b.addr == addr)) [
  | inl here ↦
      let same : b.addr ≡ addr = ground arith in
      let f =
        used_front a e n b bs t (subst (λ x. table (b ∷ bs) (x + 16) ≡ some n) (sym same) h) in
      (
        merge_next (freed b) bs,
        rw here,
        subst (λ x. Freed a e (x + 16) (b ∷ bs) (merge_next (freed b) bs)) same
            (free_front a e b bs t l c f),
      )
  | inr below ↦
      let (bs', eq, s, g) = release_after-Freed a e n addr b bs t l c (ground arith) in
      (bs', rw (below, eq), s)
]
