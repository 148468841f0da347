-- ===== src/Sched/Reach.antt =====
-- The histories of the thread table of kernel/sched/thread.c: any sequence of its operations.
use ronin_os.Base.{
  ℕ, ◌+◌, ◌-◌, ◌%◌, ◌≤◌, ◌<◌, ◌≡◌, ◌≢◌, ◌↔◌, ◌∙◌, ap, sym, subst, false, Option, none, some, List,
  arith, ltb, Bool-cases, Option-cases, inl, inr,
}
use native.Mathlib.Nat.{mod-eq_of_lt}
use ronin_os.Sched.{
  Sched, runnable, zombie, state_of, set_state, find_next_runnable, thread_create, thread_yield,
  thread_exit, sched_set_preempt,
}
use ronin_os.Sched.Find.{Found, eligible, after, find_next_runnable-Found}
use ronin_os.Sched.Invariant.{
  IsValid, find_next_runnable-IsNext, thread_at-set_state, thread_exit-none, thread_exit-esp,
}

-- Every thread of the table is some number of places after `from`.
pub place_of :
    (s : Sched) (from i : ℕ)
    → from < s.count
    → i < s.count
    → (j : ℕ) × (1 ≤ j) × (j ≤ s.count) × (i ≡ after s from j)
place_of s from i f l = elim (Bool-cases (ltb from i)) [
  | inl e ↦ (
    i - from,
    ground arith,
    ground arith,
    let p : from + (i - from) ≡ i = ground arith in sym (ap (λ k. k % s.count) p ∙ mod-eq_of_lt l),
  )
  | inr e ↦ (
    i + s.count - from,
    ground arith,
    ground arith,
    let p : from + (i + s.count - from) ≡ i + s.count = ground arith in
        sym (ap (λ k. k % s.count) p ∙ mod_wrap i s.count l),
  )
]
  where
    mod_wrap : (x n : ℕ) → x < n → (x + n) % n ≡ x
    mod_wrap x n h = grind arith

-- The search finds nothing only if no other thread in use is ready.
pub find_next_runnable-none :
    (s : Sched) (from : ℕ)
    → from < s.count
    → find_next_runnable s from false ≡ none
    → (i : ℕ) → i < s.count
    → i ≢ from
    → state_of s i ≢ runnable
find_next_runnable-none s from f e i l ne r =
    let found =
      subst (Found s from false 1 (s.count + 1)) e (find_next_runnable-Found s from false) in
    let (j, lo, hi, at) = place_of s from i f l in
    let no : eligible s from false i ≡ false = rw at (found j lo (omega arith)) in
    ground (arith, no)

none_ready :
    (s : Sched) (from : ℕ)
    → from < s.count
    → ((i : ℕ) → i < s.count → i ≢ from → state_of s i ≢ runnable)
    → find_next_runnable s from false ≡ none
none_ready s from f h = elim (Option-cases (find_next_runnable s from false)) [
  | inl e ↦ e
  | inr (next, e) ↦
      let n = find_next_runnable-IsNext s from next (omega arith) e in
      absurd (h next n.below n.other n.ready)
]

zombie-same :
    (s : Sched)
    → IsValid s
    → (i : ℕ) → i ≢ s.current
    → state_of (set_state s s.current zombie) i ≡ state_of s i
zombie-same s v i ne = ground (
  arith,
  thread_at-set_state s s.current zombie i (omega (arith, v.table, v.count_le, v.current_in)),
)

-- `thread_exit` panics exactly when no other thread in use is ready.
pub thread_exit-panic :
    (s : Sched) (saved : ℕ)
    → IsValid s
    → ((thread_exit s saved).1 ≡ none)
      ↔ ((i : ℕ) → i < s.count → i ≢ s.current → state_of s i ≢ runnable)
thread_exit-panic s saved v = (panics, starved)
  where
    s1 : Sched
    s1 = set_state s s.current zombie

    panics :
        (thread_exit s saved).1 ≡ none
        → (i : ℕ) → i < s.count
        → i ≢ s.current
        → state_of s i ≢ runnable
    panics p i l ne r = elim (Option-cases (find_next_runnable s1 s.current false)) [
      | inl e ↦
          find_next_runnable-none s1 s.current v.current_in e i l ne (zombie-same s v i ne ∙ r)
      | inr (n, e) ↦ let (esp, q) = thread_exit-esp s saved n e in cc
    ]

    starved :
        ((i : ℕ) → i < s.count → i ≢ s.current → state_of s i ≢ runnable)
        → (thread_exit s saved).1 ≡ none
    starved h =
        ap (λ (q : Sched × Option ℕ). q.1)
          (thread_exit-none s saved (
            none_ready s1 s.current v.current_in
              (λ i l ne r. h i l ne (sym (zombie-same s v i ne) ∙ r))))

-- One call of an operation; `base` is what `kmalloc` answers.
pub data Step (s : Sched) : Sched → Type 0 where
  create :
      (name : Option (List ℕ)) (entry arg bootstrap base : ℕ)
      → Step s (thread_create (λ (h : Unit {0}) n. (h, base)) bootstrap tt s name entry arg).sched
  yield : (saved : ℕ) → Step s (thread_yield s saved).0
  exit : (saved esp : ℕ) → (thread_exit s saved).1 ≡ some esp → Step s (thread_exit s saved).0
  preempt : (enabled : ℕ) → Step s (sched_set_preempt s enabled).0

pub data Reach (s : Sched) : Sched → Type 0 where
  here : Reach s s
  next : {t u : Sched} → Reach s t → Step t u → Reach s u

-- A zombie in use.
pub record IsDead (s : Sched) (i : ℕ) : Type 0 where
  pub in_use : i < s.count
  pub dead : state_of s i ≡ zombie
