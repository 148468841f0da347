-- ===== src/Sched.antt =====
-- kernel/sched/thread.c and thread.h: the thread table and the cooperative scheduler.
-- The static variables are the record `Sched`; `g_threads[32]` is a list of 32 entries. A thread id
-- of -1 is `none`. `kmalloc` is a parameter, over a heap state of its own (kernel/heap.c is one).
-- What `thread_switch` (kernel/sched/switch.S) does to this state is that it saves the
-- stack pointer in the entry of the thread that it leaves: that value is an argument, and the stack
-- pointer that it loads is part of the result.
pub mod Find
pub mod Invariant
pub mod Reach
pub mod Fair
mod Tests
use ronin_os.Base.{
  ℕ, zero, suc, ◌+◌, ◌-◌, ◌%◌, Bool, true, false, not, ◌&&◌, Option, none, some, List, [], ◌∷◌,
  ◌==◌, leb, ltb, if◌then◌else◌, get_or, set,
}

abbrev pub thread_max : ℕ
thread_max = 32

abbrev pub thread_stack_size : ℕ
thread_stack_size = 4096

pub data ThreadState : Type 0 where
  runnable running zombie : ThreadState

abbrev pub is_runnable : ThreadState → Bool
is_runnable runnable = true
is_runnable _ = false

abbrev pub is_running : ThreadState → Bool
is_running running = true
is_running _ = false

pub record Thread : Type 0 where
  pub esp : ℕ
  pub stack_base : ℕ
  pub stack_size : ℕ
  pub state : ThreadState
  pub name : List ℕ
  pub tid : ℕ
  pub entry : ℕ
  pub arg : ℕ

-- An entry of the zero-initialised table; `THREAD_RUNNABLE` is 0.
abbrev pub zero_thread : Thread
zero_thread = record {
  esp = 0;
  stack_base = 0;
  stack_size = 0;
  state = runnable;
  name = [];
  tid = 0;
  entry = 0;
  arg = 0;
}

pub record Sched : Type 0 where
  pub threads : List Thread
  pub count : ℕ
  pub current : ℕ
  pub preempt : Bool

abbrev pub thread_at : Sched → ℕ → Thread
thread_at s i = get_or s.threads i zero_thread

abbrev pub state_of : Sched → ℕ → ThreadState
state_of s i = (thread_at s i).state

abbrev pub set_thread : Sched → ℕ → Thread → Sched
set_thread s i t = record s { threads = set s.threads i t }

abbrev pub set_state : Sched → ℕ → ThreadState → Sched
set_state s i st =
    let t = thread_at s i in record s { threads = set s.threads i (record t { state = st }) }

-- The turn `i` of the search; `rounds` is `g_thread_count - i + 1`.
pub find_loop : ℕ → Sched → ℕ → Bool → ℕ → Option ℕ
find_loop zero s from allow i = none
find_loop (suc rounds) s from allow i =
    let rest = find_loop rounds s from allow (i + 1) in
    let tid = (from + i) % s.count in
    if not allow && tid == from
    then rest
    else if is_runnable (state_of s tid)
    then some tid
    else rest

pub find_next_runnable : Sched → ℕ → Bool → Option ℕ
find_next_runnable s from allow = if s.count == 0 then none else find_loop s.count s from allow 1

-- "main"
abbrev pub main_name : List ℕ
main_name = b'm' ∷ b'a' ∷ b'i' ∷ b'n' ∷ []

-- "thread"
abbrev pub default_name : List ℕ
default_name = b't' ∷ b'h' ∷ b'r' ∷ b'e' ∷ b'a' ∷ b'd' ∷ []

pub sched_init : Sched → Sched
sched_init s = record {
  threads = set s.threads 0 (record zero_thread { state = running; name = main_name });
  count = 1;
  current = 0;
  preempt = false;
}

abbrev pub name_or : Option (List ℕ) → List ℕ
name_or none = default_name
name_or (some n) = n

-- The five words that the new stack starts with, in the order in which they are stored.
abbrev pub stack_words : ℕ → ℕ → List (ℕ × ℕ)
stack_words top bootstrap =
    (top - 4, bootstrap) ∷ (top - 8, 0) ∷ (top - 12, 0) ∷ (top - 16, 0) ∷ (top - 20, 0) ∷ []

pub record Created (H : Type 0) : Type 0 where
  pub heap : H
  pub sched : Sched
  pub stores : List (ℕ × ℕ)
  pub tid : Option ℕ

module _ {H : Type 0} (kmalloc : H → ℕ → H × ℕ) (bootstrap : ℕ) where
  -- From `t->esp = sp` on; `s` has the stack of the new entry.
  abbrev pub fill_thread : H → Sched → Option (List ℕ) → ℕ → ℕ → ℕ → Created H
  fill_thread h s name entry arg base = record {
    heap = h;
    sched = record s {
      threads = set s.threads s.count (record {
        esp = base + thread_stack_size - 20;
        stack_base = base;
        stack_size = thread_stack_size;
        state = runnable;
        name = name_or name;
        tid = s.count;
        entry = entry;
        arg = arg;
      });
      count = s.count + 1;
    };
    stores = stack_words (base + thread_stack_size) bootstrap;
    tid = some s.count;
  }

  -- `t->stack_size` and `t->stack_base` are written before the result of `kmalloc` is tested.
  abbrev pub with_stack : Sched → ℕ → Sched
  with_stack s base =
      let t = thread_at s s.count in
      set_thread s s.count (record t { stack_size = thread_stack_size; stack_base = base })

  pub thread_create : H → Sched → Option (List ℕ) → (entry arg : ℕ) → Created H
  thread_create h s name entry arg =
      if entry == 0
      then record { heap = h; sched = s; stores = []; tid = none }
      else if leb thread_max s.count
      then record { heap = h; sched = s; stores = []; tid = none }
      else let (h', base) = kmalloc h thread_stack_size in
        let s' = with_stack s base in
        if base == 0
        then record { heap = h'; sched = s'; stores = []; tid = none }
        else fill_thread h' s' name entry arg base

-- `saved` is the stack pointer that `thread_switch` saves.
abbrev pub save_esp : Sched → ℕ → ℕ → Sched
save_esp s tid saved =
    let t = thread_at s tid in record s { threads = set s.threads tid (record t { esp = saved }) }

-- `next->state = THREAD_RUNNING; g_current_tid = next_tid;`
abbrev pub make_current : Sched → ℕ → Sched
make_current s next =
    let t = thread_at s next in
    record s { threads = set s.threads next (record t { state = running }); current = next }

-- The new state and, if threads are switched, the stack pointer that is loaded.
pub thread_yield : Sched → ℕ → Sched × Option ℕ
thread_yield s saved =
    let prev = s.current in
    elim (find_next_runnable s prev false) [
      | none ↦ (s, none)
      | some next ↦
          let s1 = if is_running (state_of s prev) then set_state s prev runnable else s in
          let s2 = make_current s1 next in (save_esp s2 prev saved, some (thread_at s2 next).esp)
    ]

-- `none` for the stack pointer is the panic "no runnable thread left".
pub thread_exit : Sched → ℕ → Sched × Option ℕ
thread_exit s saved =
    let dead = s.current in
    let s1 = set_state s dead zombie in
    elim (find_next_runnable s1 dead false) [
      | none ↦ (s1, none)
      | some next ↦
          let s2 = make_current s1 next in (save_esp s2 dead saved, some (thread_at s2 next).esp)
    ]

pub sched_set_preempt : Sched → ℕ → Sched × Bool
sched_set_preempt s enabled = let on = not (enabled == 0) in (record s { preempt = on }, on)

pub sched_is_preempt_enabled : Sched → Bool
sched_is_preempt_enabled s = s.preempt
