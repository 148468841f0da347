-- ===== src/Sched/Find.antt =====
-- The round-robin search of kernel/sched/thread.c.
use ronin_os.Base.{
  ℕ, zero, suc, ◌+◌, ◌%◌, ◌≤◌, ◌<◌, ◌≡◌, refl, Bool, true, false, not, ◌&&◌, Option, none, some,
  arith, ◌==◌, Bool-cases, inl, inr,
}
use ronin_os.Sched.{Sched, state_of, is_runnable, find_loop, find_next_runnable}

-- A thread that the search may return.
abbrev pub eligible : Sched → ℕ → Bool → ℕ → Bool
eligible s from allow tid = not (not allow && tid == from) && is_runnable (state_of s tid)

-- The thread `i` places after `from`, round the table.
abbrev pub after : Sched → ℕ → ℕ → ℕ
after s from i = (from + i) % s.count

-- Of the places from `i` up to `n`, the first with an eligible thread; `none` if there is none.
pub record IsFirst (s : Sched) (from : ℕ) (allow : Bool) (i n tid : ℕ) : Type 0 where
  pub place : ℕ
  pub from_i : i ≤ place
  pub below_n : place < n
  pub there : tid ≡ after s from place
  pub fits : eligible s from allow tid ≡ true
  pub before : (j : ℕ) → i ≤ j → j < place → eligible s from allow (after s from j) ≡ false

abbrev pub Found : Sched → ℕ → Bool → ℕ → ℕ → Option ℕ → Type 0
Found s from allow i n none =
    (j : ℕ) → i ≤ j → j < n → eligible s from allow (after s from j) ≡ false
Found s from allow i n (some tid) = IsFirst s from allow i n tid

module _ (s : Sched) (from : ℕ) (allow : Bool) where
  extend :
      (i n : ℕ) (o : Option ℕ)
      → eligible s from allow (after s from i) ≡ false
      → Found s from allow (i + 1) n o
      → Found s from allow i n o
  extend i n none e f = λ j p q. elim (Bool-cases (i == j)) [
    | inl eq ↦ rw (let e' : j ≡ i = ground arith in e') e
    | inr ne ↦ f j (ground arith) q
  ]
  extend i n (some tid) e f = record {
    place = f.place;
    from_i = omega (arith, f.from_i);
    below_n = f.below_n;
    there = f.there;
    fits = f.fits;
    before = λ j p q. elim (Bool-cases (i == j)) [
      | inl eq ↦ rw (let e' : j ≡ i = ground arith in e') e
      | inr ne ↦ f.before j (ground arith) q
    ];
  }

  find_loop-Found :
      (rounds i n : ℕ) → n ≡ i + rounds → Found s from allow i n (find_loop rounds s from allow i)
  unfolding find_loop
  find_loop-Found zero i n e = λ j p q. absurd (omega arith)
  find_loop-Found (suc rounds) i n e =
      let ih = find_loop-Found rounds (i + 1) n (omega arith) in
      let tid = after s from i in
      elim (Bool-cases (not allow && tid == from)) [
        | inl skip ↦ rw skip (extend i n (find_loop rounds s from allow (i + 1)) (rw skip) ih)
        | inr turn ↦ elim (Bool-cases (is_runnable (state_of s tid))) [
          | inl ready ↦
              rw (turn, ready)
                (record {
                  place = i;
                  from_i = omega arith;
                  below_n = omega arith;
                  there = refl;
                  fits = rw (turn, ready);
                  before = λ j p q. absurd (omega arith);
                })
          | inr busy ↦
              rw (turn, busy)
                (extend i n (find_loop rounds s from allow (i + 1)) (rw (turn, busy)) ih)
        ]
      ]

-- The search of `thread_yield` and `thread_exit` returns the first eligible thread after `from`,
-- going once round the table, and -1 only if no thread of the table is eligible.
pub find_next_runnable-Found :
    (s : Sched) (from : ℕ) (allow : Bool)
    → Found s from allow 1 (s.count + 1) (find_next_runnable s from allow)
unfolding find_next_runnable
find_next_runnable-Found s from allow = elim (Bool-cases (s.count == 0)) [
  | inl empty ↦ rw empty (λ j p q. absurd (ground arith))
  | inr more ↦ rw more (find_loop-Found s from allow s.count 1 (s.count + 1) (omega arith))
]
