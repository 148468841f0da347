-- ===== src/Heap/Expand.antt =====
-- heap_expand of kernel/heap.c: the mapping loop and the block at the end.
use ronin_os.Base.{
  ℕ, zero, suc, ◌+◌, ◌*◌, ◌%◌, ◌^◌, ◌≤◌, ◌<◌, ◌≡◌, refl, ◌≢◌, Bool, true, not, some, List, [], ◌∷◌,
  arith, ◌==◌, ltb, Bool-cases, inl, inr, add32, sub32, if_both,
}
use ronin_os.Heap.{
  Block, Frames, Mapped, out_of_rounds, failed, mapped, attach, map_loop, frame_size,
}
use ronin_os.Heap.Blocks.{Tiles, starts_free, Coalesced, table, NoRoom}

-- What attach promises: the region grows by the bytes added, which a request that leaves room for a
-- header fits in; nothing that is allocated changes.
pub record Attached (a e added : ℕ) (bs bs' : List Block) : Type 0 where
  pub tiles : Tiles a bs' (e + added)
  pub same : (q : ℕ) → table bs' q ≡ table bs q
  pub coalesced : Coalesced bs → Coalesced bs'
  pub front : starts_free bs' ≡ starts_free bs
  pub room : (wanted : ℕ) → wanted + 16 ≤ added → ¬ NoRoom bs' wanted

pub attach-Attached :
    (a e added : ℕ) (bs : List Block)
    → Tiles a bs e
    → bs ≢ []
    → e + added < 2 ^ 31
    → added % 16 ≡ 0
    → 16 ≤ added
    → (bs' : List Block) × (attach bs added ≡ some bs') × Attached a e added bs bs'
unfolding attach
attach-Attached a e added [] t ne l m p = absurd (ne refl)
attach-Attached a e added (b ∷ []) t ne l m p = elim (Bool-cases b.free) [
  | inl h ↦ (
    record b { size = add32 b.size added } ∷ [],
    rw h,
    record {
      tiles = (t.0, ground arith, omega arith);
      same = λ q. ground arith;
      coalesced = λ c. (ground arith, tt);
      front = refl;
      room = λ w r s. ground (arith, s.0);
    },
  )
  | inr h ↦ (
    b ∷ record { addr = add32 (add32 b.addr 16) b.size; size = sub32 added 16; free = true } ∷ [],
    rw h,
    record {
      tiles = (t.0, t.1, (omega arith, omega arith, omega arith));
      same = λ q. ground arith;
      coalesced = λ c. (ground arith, (refl, tt));
      front = refl;
      room = λ w r s. ground (arith, s.1.0);
    },
  )
]
attach-Attached a e added (b ∷ c ∷ bs) t ne l m p =
    let (bs', eq, s) = attach-Attached (a + 16 + b.size) e added (c ∷ bs) t.2 (λ q. cc) l m p in
    (
      b ∷ bs',
      rw eq,
      record {
        tiles = (t.0, t.1, s.tiles);
        same = λ q. ground (arith, s.same q);
        coalesced = λ k. (rw s.front k.0, s.coalesced k.1);
        front = refl;
        room = λ w r k. s.room w r k.1;
      },
    )

-- How the mapping loop may end, from `end` and `added` on.
abbrev pub MapEnds : {F : Type 0} → (limit end added needed : ℕ) → Mapped F → Type 0
MapEnds limit end added needed out_of_rounds = ⊥
MapEnds limit end added needed (failed f end') = (end ≤ end') × (end' ≤ limit)
MapEnds limit end added needed (mapped f end' added') =
    (end' + added ≡ end + added')
    × (end' ≤ limit)
    × (needed ≤ added')
    × (added' % 4096 ≡ added % 4096)

-- One more page mapped in front of such an end.
MapEnds-page :
    {F : Type 0} (limit end added needed : ℕ) (r : Mapped F)
    → MapEnds limit (end + 4096) (added + 4096) needed r
    → MapEnds limit end added needed r
MapEnds-page limit end added needed out_of_rounds m = m
MapEnds-page limit end added needed (failed f end') m = omega arith
MapEnds-page limit end added needed (mapped f end' added') m = omega arith

pub map_loop-MapEnds :
    {F : Type 0} (fr : Frames F) (rounds : ℕ) (f : F) (limit end added needed : ℕ)
    → end ≤ limit
    → limit < 2 ^ 31
    → added ≤ end
    → limit < end + 4096 * rounds
    → MapEnds limit end added needed (map_loop fr rounds f limit end added needed)
unfolding map_loop
map_loop-MapEnds fr zero f limit end added needed le l a k = absurd (omega arith)
map_loop-MapEnds {F} fr (suc rounds) f limit end added needed le l a k =
    elim (Bool-cases (not (ltb added needed))) [
      | inl done ↦ rw done (refl, le, ground arith, refl)
      | inr more ↦ rw more (
          if_both P (frame == 0) (le_refl end, le)
            (elim (Bool-cases (ltb limit (add32 end frame_size))) [
              | inl full ↦ rw full (le_refl end, le)
              | inr room ↦ rw room (
                  if_both P (not step.1) (le_refl end, le)
                    (MapEnds-page limit end added needed _ (
                      rw (wrap end (omega arith), wrap added (omega arith))
                        (map_loop-MapEnds fr rounds step.0 limit (end + 4096) (added + 4096) needed
                          (ground arith) l (omega arith) (omega arith)))))
            ]))
    ]
  where
    P : Mapped F → Type 0
    P = MapEnds limit end added needed

    frame : ℕ
    frame = (fr.alloc f).1

    step : F × Bool
    step = fr.map (fr.alloc f).0 end frame

    wrap : (x : ℕ) → x < 2 ^ 31 → add32 x frame_size ≡ x + 4096
    wrap x h = omega arith

    le_refl : (x : ℕ) → x ≤ x
    le_refl x = omega arith
