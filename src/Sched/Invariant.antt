-- ===== src/Sched/Invariant.antt =====
-- The well-formedness of the thread table of kernel/sched/thread.c, kept by every operation.
use ronin_os.Base.{
  ℕ, ◌+◌, ◌≤◌, ◌<◌, ◌≡◌, refl, ◌≢◌, ◌∙◌, ap, true, false, Option, none, some, List, arith, ◌==◌,
  Bool-cases, Option-cases, inl, inr, if◌then◌else◌, length, set, length-set, get_or-set,
  get_or-set_ne, subst, sym, if_both, leb,
}
use ronin_os.Sched.{
  Sched, Thread, ThreadState, runnable, running, zombie, zero_thread, thread_at, state_of,
  set_state, is_runnable, find_next_runnable, thread_max, sched_init, set_thread, with_stack,
  thread_stack_size, main_name, thread_create, Created, thread_yield, thread_exit, make_current,
  save_esp,
}
use ronin_os.Sched.Find.{Found, find_next_runnable-Found}

-- The table is full size, the current thread is in use and runs, no other thread in use runs, and
-- each thread in use has its index for its id.
pub record IsValid (s : Sched) : Type 0 where
  pub table : length s.threads ≡ thread_max
  pub count_le : s.count ≤ thread_max
  pub current_in : s.current < s.count
  pub runs : state_of s s.current ≡ running
  pub alone : (i : ℕ) → i < s.count → i ≢ s.current → state_of s i ≢ running
  pub ids : (i : ℕ) → i < s.count → (thread_at s i).tid ≡ i

-- A thread chosen by the search is another one, in use, and ready.
pub record IsNext (s : Sched) (from next : ℕ) : Type 0 where
  pub below : next < s.count
  pub other : next ≢ from
  pub ready : state_of s next ≡ runnable

runnable_of : (st : ThreadState) → is_runnable st ≡ true → st ≡ runnable
runnable_of runnable h = refl
runnable_of running h = cc
runnable_of zombie h = cc

pub find_next_runnable-IsNext :
    (s : Sched) (from next : ℕ)
    → 0 < s.count
    → find_next_runnable s from false ≡ some next
    → IsNext s from next
find_next_runnable-IsNext s from next c e =
    let f = subst (Found s from false 1 (s.count + 1)) e (find_next_runnable-Found s from false) in
    record {
      below = omega (arith, f.there);
      other = ground (arith, f.fits);
      ready = runnable_of _ (ground (arith, f.fits));
    }

-- Thread `from` gives up the processor in state `st`, and `next` takes it.
abbrev pub handover : Sched → ℕ → ThreadState → ℕ → ℕ → Sched
handover s from st next saved = save_esp (make_current (set_state s from st) next) from saved

-- What each of the three writes of a switch leaves in entry `i`.
pub thread_at-set_state :
    (s : Sched) (from : ℕ) (st : ThreadState) (i : ℕ)
    → from < length s.threads
    → (state_of (set_state s from st) i ≡ (if from == i then st else state_of s i))
      × ((thread_at (set_state s from st) i).tid ≡ (thread_at s i).tid)
thread_at-set_state s from st i f =
    ground
      (arith, get_or-set s.threads from i (record (thread_at s from) { state = st }) zero_thread)

thread_at-make_current :
    (s : Sched) (next i : ℕ)
    → next < length s.threads
    → (state_of (make_current s next) i ≡ (if next == i then running else state_of s i))
      × ((thread_at (make_current s next) i).tid ≡ (thread_at s i).tid)
thread_at-make_current s next i f =
    ground (
      arith,
      get_or-set s.threads next i (record (thread_at s next) { state = running }) zero_thread,
    )

thread_at-save_esp :
    (s : Sched) (from saved i : ℕ)
    → from < length s.threads
    → (state_of (save_esp s from saved) i ≡ state_of s i)
      × ((thread_at (save_esp s from saved) i).tid ≡ (thread_at s i).tid)
thread_at-save_esp s from saved i f =
    ground
      (arith, get_or-set s.threads from i (record (thread_at s from) { esp = saved }) zero_thread)

length-handover :
    (s : Sched) (from : ℕ) (st : ThreadState) (next saved : ℕ)
    → length (handover s from st next saved).threads ≡ length s.threads
length-handover s from st next saved =
    length-set (make_current (set_state s from st) next).threads from _
    ∙ length-set (set_state s from st).threads next _
    ∙ length-set s.threads from _

pub thread_at-handover :
    (s : Sched) (from : ℕ) (st : ThreadState) (next saved i : ℕ)
    → from < length s.threads
    → next < length s.threads
    → (state_of (handover s from st next saved) i
        ≡ (if next == i then running else if from == i then st else state_of s i))
      × ((thread_at (handover s from st next saved) i).tid ≡ (thread_at s i).tid)
thread_at-handover s from st next saved i f n =
    let s1 = set_state s from st in
    let s2 = make_current s1 next in
    let l1 : length s1.threads ≡ length s.threads = length-set s.threads from _ in
    let l2 : length s2.threads ≡ length s.threads = length-set s1.threads next _ ∙ l1 in
    let a = thread_at-set_state s from st i f in
    let b = thread_at-make_current s1 next i (omega arith) in
    let c = thread_at-save_esp s2 from saved i (omega arith) in
    (c.0 ∙ b.0 ∙ ap (λ x. if next == i then running else x) a.0, c.1 ∙ b.1 ∙ a.1)

handover-IsValid :
    (s : Sched) (st : ThreadState) (next saved : ℕ)
    → IsValid s
    → st ≢ running
    → next < s.count
    → IsValid (handover s s.current st next saved)
handover-IsValid s st next saved v ne n =
    let at =
      λ (i : ℕ). thread_at-handover s s.current st next saved i (omega arith) (omega arith) in
    record {
      table = length-handover s s.current st next saved ∙ v.table;
      count_le = v.count_le;
      current_in = n;
      runs = (at next).0 ∙ ground arith;
      alone = λ i p q e. ground (arith, at i, v.alone i);
      ids = λ i p. (at i).1 ∙ v.ids i p;
    }

pub thread_yield-none :
    (s : Sched) (saved : ℕ)
    → find_next_runnable s s.current false ≡ none
    → thread_yield s saved ≡ (s, none)
unfolding thread_yield
thread_yield-none s saved e = rw (e, thread_yield)

pub thread_yield-some :
    (s : Sched) (saved next : ℕ)
    → IsValid s
    → find_next_runnable s s.current false ≡ some next
    → (thread_yield s saved).0 ≡ handover s s.current runnable next saved
unfolding thread_yield
thread_yield-some s saved next v e = rw (e, v.runs, thread_yield)

pub thread_exit-some :
    (s : Sched) (saved next : ℕ)
    → find_next_runnable (set_state s s.current zombie) s.current false ≡ some next
    → (thread_exit s saved).0 ≡ handover s s.current zombie next saved
unfolding thread_exit
thread_exit-some s saved next e = rw (e, thread_exit)

pub thread_exit-none :
    (s : Sched) (saved : ℕ)
    → find_next_runnable (set_state s s.current zombie) s.current false ≡ none
    → thread_exit s saved ≡ (set_state s s.current zombie, none)
unfolding thread_exit
thread_exit-none s saved e = rw (e, thread_exit)

pub thread_exit-esp :
    (s : Sched) (saved next : ℕ)
    → find_next_runnable (set_state s s.current zombie) s.current false ≡ some next
    → (esp : ℕ) × ((thread_exit s saved).1 ≡ some esp)
unfolding thread_exit
thread_exit-esp s saved next e =
    ((thread_at (make_current (set_state s s.current zombie) next) next).esp, rw (e, thread_exit))

-- `thread_yield` keeps the table well-formed.
pub thread_yield-IsValid : (s : Sched) (saved : ℕ) → IsValid s → IsValid (thread_yield s saved).0
thread_yield-IsValid s saved v = elim (Option-cases (find_next_runnable s s.current false)) [
  | inl e ↦ rw (thread_yield-none s saved e) v
  | inr (next, e) ↦
      let n = find_next_runnable-IsNext s s.current next (omega (arith, v.current_in)) e in
      rw (thread_yield-some s saved next v e)
        (handover-IsValid s runnable next saved v (λ p. cc) n.below)
]

-- `thread_exit` leaves the table well-formed unless it panics.
pub thread_exit-IsValid :
    (s : Sched) (saved : ℕ) {esp : ℕ}
    → IsValid s
    → (thread_exit s saved).1 ≡ some esp
    → IsValid (thread_exit s saved).0
thread_exit-IsValid s saved v r =
    elim (Option-cases (find_next_runnable (set_state s s.current zombie) s.current false)) [
      | inl e ↦
          absurd (let p = ap (λ (q : Sched × Option ℕ). q.1) (thread_exit-none s saved e) in cc)
      | inr (next, e) ↦
          let n =
            find_next_runnable-IsNext (set_state s s.current zombie) s.current next
              (omega (arith, v.current_in)) e in
          rw (thread_exit-some s saved next e)
            (handover-IsValid s zombie next saved v (λ p. cc) n.below)
    ]

pub sched_init-IsValid : (s : Sched) → length s.threads ≡ thread_max → IsValid (sched_init s)
unfolding sched_init
sched_init-IsValid s l =
    let first = λ (i : ℕ).
      get_or-set s.threads 0 i (record zero_thread { state = running; name = main_name })
        zero_thread (omega arith) in
    record {
      table = length-set s.threads 0 _ ∙ l;
      count_le = omega arith;
      current_in = omega arith;
      runs = ground (arith, first 0);
      alone = λ i p q e. omega arith;
      ids = λ i p. ground (arith, first i);
    }

-- A write behind the entries in use, and the use of that entry.
beyond-IsValid : (s : Sched) (t : Thread) → IsValid s → IsValid (set_thread s s.count t)
beyond-IsValid s t v =
    let at = λ (i : ℕ) (p : i < s.count).
      get_or-set_ne s.threads s.count i t zero_thread (λ e. omega arith) in
    record {
      table = length-set s.threads s.count t ∙ v.table;
      count_le = v.count_le;
      current_in = v.current_in;
      runs = ap (λ (u : Thread). u.state) (at s.current v.current_in) ∙ v.runs;
      alone = λ i p q e. v.alone i p q (sym (ap (λ (u : Thread). u.state) (at i p)) ∙ e);
      ids = λ i p. ap (λ (u : Thread). u.tid) (at i p) ∙ v.ids i p;
    }

grow-IsValid :
    (s : Sched) (t : Thread)
    → IsValid s
    → s.count < thread_max
    → t.state ≡ runnable
    → t.tid ≡ s.count
    → IsValid (record s { threads = set s.threads s.count t; count = s.count + 1 })
grow-IsValid s t v l e f =
    let at = λ (i : ℕ). get_or-set s.threads s.count i t zero_thread (omega arith) in
    record {
      table = length-set s.threads s.count t ∙ v.table;
      count_le = omega arith;
      current_in = omega arith;
      runs = ground (arith, at s.current);
      alone = λ i p q r. ground (arith, at i, v.alone i);
      ids = λ i p. ground (arith, at i, v.ids i);
    }

-- `thread_create` keeps the table well-formed, whatever the allocator answers.
pub thread_create-IsValid :
    {H : Type 0} (kmalloc : H → ℕ → H × ℕ) (bootstrap : ℕ) (h : H) (s : Sched)
    (name : Option (List ℕ)) (entry arg : ℕ)
    → IsValid s
    → IsValid (thread_create kmalloc bootstrap h s name entry arg).sched
unfolding thread_create
thread_create-IsValid {H} kmalloc bootstrap h s name entry arg v =
    if_both P (entry == 0) v (elim (Bool-cases (leb thread_max s.count)) [
      | inl full ↦ rw full v
      | inr room ↦ rw room (if_both P (base == 0) w (grow-IsValid s' _ w (ground arith) refl refl))
    ])
  where
    P : Created H → Type 0
    P r = IsValid r.sched

    base : ℕ
    base = (kmalloc h thread_stack_size).1

    s' : Sched
    s' = with_stack kmalloc bootstrap s base

    w : IsValid s'
    w = beyond-IsValid s _ v
