-- ===== src/Sched/Fair.antt =====
-- Fairness of the round-robin search: a ready thread is run within as many yields as there are
-- threads, if no thread is created or exits meanwhile.
use ronin_os.Base.{
  ℕ, suc, ◌+◌, ◌-◌, ◌%◌, ◌≤◌, ◌<◌, ◌≡◌, ◌≢◌, ◌⊎◌, ◌∙◌, ap, sym, subst, true, false, List, [], ◌∷◌,
  arith, ◌==◌, ltb, Bool-cases, Option-cases, inl, inr, length, take, ltb→lt, ==_iff,
}
use native.Mathlib.Nat.{mod-add-mod}
use ronin_os.Sched.{Sched, runnable, state_of, find_next_runnable, thread_yield}
use ronin_os.Sched.Find.{Found, IsFirst, eligible, after, find_next_runnable-Found}
use ronin_os.Sched.Invariant.{
  IsValid, find_next_runnable-IsNext, handover, thread_at-handover, thread_yield-some,
  thread_yield-IsValid,
}
use ronin_os.Sched.Reach.{place_of, find_next_runnable-none}

-- One yield for each saved stack pointer.
unfoldable pub yields : List ℕ → Sched → Sched
yields [] s = s
yields (saved ∷ more) s = yields more (thread_yield s saved).0

-- Thread `t` is ready, `d` places after the current one.
record IsWaiting (s : Sched) (t d : ℕ) : Type 0 where
  in_use : t < s.count
  other : t ≢ s.current
  ready : state_of s t ≡ runnable
  ahead : 1 ≤ d
  within : d ≤ s.count
  place : t ≡ after s s.current d

IsWaiting-eligible : (s : Sched) (t d : ℕ) → IsWaiting s t d → eligible s s.current false t ≡ true
IsWaiting-eligible s t d w = ground (arith, w.ready, w.other)

-- The first eligible thread is not behind the waiting one.
place_le :
    (s : Sched) (t d n : ℕ)
    → IsWaiting s t d
    → (f : IsFirst s s.current false 1 (s.count + 1) n) → f.place ≤ d
place_le s t d n w f = elim (Bool-cases (ltb d f.place)) [
  | inl behind ↦
      let no = f.before d w.ahead (ltb→lt _ _ behind) in
      let yes' : eligible s s.current false (after s s.current d) ≡ true =
        subst (λ x. eligible s s.current false x ≡ true) w.place (IsWaiting-eligible s t d w) in
      cc
  | inr e ↦ ground arith
]

-- Past the thread that is run, the waiting one is nearer.
handover-IsWaiting :
    (s : Sched) (saved t d n : ℕ)
    → IsValid s
    → IsWaiting s t d
    → (f : IsFirst s s.current false 1 (s.count + 1) n) → f.place < d
    → n ≢ t
    → n < s.count
    → IsWaiting (handover s s.current runnable n saved) t (d - f.place)
handover-IsWaiting s saved t d n v w f lt ne below =
    let at =
      thread_at-handover s s.current runnable n saved t
        (omega (arith, v.table, v.count_le, v.current_in)) (omega (arith, v.table, v.count_le)) in
    record {
      in_use = w.in_use;
      other = λ e. ne (sym e);
      ready = at.0 ∙ ground (arith, w.ready, ne);
      ahead = omega arith;
      within = omega (arith, w.within);
      place = w.place ∙ sym regroup;
    }
  where
    regroup : (n + (d - f.place)) % s.count ≡ (s.current + d) % s.count
    regroup =
        ap (λ k. (k + (d - f.place)) % s.count) f.there
        ∙ mod-add-mod (s.current + f.place) s.count (d - f.place)
        ∙ ap (λ k. k % s.count) (omega arith)

-- A yield runs the waiting thread or brings it nearer.
yield-IsWaiting :
    (s : Sched) (saved t d : ℕ)
    → IsValid s
    → IsWaiting s t d
    → ((thread_yield s saved).0.current ≡ t)
      ⊎ ((d' : ℕ) × (d' < d) × IsWaiting (thread_yield s saved).0 t d')
yield-IsWaiting s saved t d v w = elim (Option-cases (find_next_runnable s s.current false)) [
  | inl e ↦ absurd (find_next_runnable-none s s.current v.current_in e t w.in_use w.other w.ready)
  | inr (n, e) ↦
      let f =
        subst (Found s s.current false 1 (s.count + 1)) e
          (find_next_runnable-Found s s.current false) in
      let is = find_next_runnable-IsNext s s.current n (omega (arith, v.current_in)) e in
      let le = place_le s t d n w f in
      rw (thread_yield-some s saved n v e) (elim (Bool-cases (n == t)) [
        | inl same ↦ inl ((==_iff n t).0 same)
        | inr ne ↦
            let ne' : n ≢ t = λ p. ground arith in
            let lt : f.place < d = below n f.place f.there ne' le in
            inr (
              d - f.place,
              omega (arith, f.from_i),
              handover-IsWaiting s saved t d n v w f lt ne' is.below,
            )
      ])
]
  where
    below : (n k : ℕ) → n ≡ after s s.current k → n ≢ t → k ≤ d → k < d
    below n k at ne le = elim (Bool-cases (k == d)) [
      | inl e ↦ absurd (ne (at ∙ ap (after s s.current) ((==_iff k d).0 e) ∙ sym w.place))
      | inr e ↦ ground arith
    ]

yields-IsWaiting :
    (saves : List ℕ) (s : Sched) (t d : ℕ)
    → IsValid s
    → IsWaiting s t d
    → d ≤ length saves
    → (n : ℕ) × (n ≤ d) × ((yields (take n saves) s).current ≡ t)
unfolding yields
yields-IsWaiting [] s t d v w l = absurd (omega (arith, w.ahead))
yields-IsWaiting (saved ∷ more) s t d v w l = elim (yield-IsWaiting s saved t d v w) [
  | inl now ↦ (1, w.ahead, now)
  | inr (d', lt, w') ↦
      let (n, le, run) =
        yields-IsWaiting more (thread_yield s saved).0 t d' (thread_yield-IsValid s saved v) w'
          (omega arith) in
      (suc n, omega arith, run)
]

-- A ready thread becomes the current one after at most as many yields as there are threads in use,
-- whichever threads run in between.
pub yields-fair :
    (saves : List ℕ) (s : Sched) (t : ℕ)
    → IsValid s
    → t < s.count
    → state_of s t ≡ runnable
    → length saves ≡ s.count
    → (n : ℕ) × (n ≤ s.count) × ((yields (take n saves) s).current ≡ t)
yields-fair saves s t v l r e =
    let (d, lo, hi, at) = place_of s s.current t v.current_in l in
    let w : IsWaiting s t d = record {
      in_use = l;
      other = λ q. (let a = v.runs in cc);
      ready = r;
      ahead = lo;
      within = hi;
      place = at;
    } in
    let (n, le, run) = yields-IsWaiting saves s t d v w (omega arith) in (n, omega arith, run)
