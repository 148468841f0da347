-- ===== src/Sched/Tests.antt =====
-- The scheduler at a table with a main thread and two more.
use ronin_os.Base.{
  ℕ, ◌+◌, ◌≤◌, ◌<◌, ◌≡◌, refl, ◌≢◌, ◌↔◌, false, none, some, [], ◌∷◌, arith, length, take, replicate,
}
use ronin_os.Sched.{
  Sched, runnable, zero_thread, state_of, find_loop, find_next_runnable, sched_init, thread_create,
  thread_yield, thread_exit,
}
use ronin_os.Sched.Find.{Found, find_next_runnable-Found}
use ronin_os.Sched.Invariant.{
  IsValid, sched_init-IsValid, thread_create-IsValid, thread_yield-IsValid, thread_exit-IsValid,
}
use ronin_os.Sched.Reach.{IsDead, thread_exit-panic}
use ronin_os.Sched.Fair.{yields, yields-fair}

-- The zero-initialised table.
abbrev blank : Sched
blank = record { threads = replicate 32 zero_thread; count = 0; current = 0; preempt = false }

abbrev heap_alloc : Unit {0} → ℕ → Unit {0} × ℕ
heap_alloc h n = (h, 0x1800_0010)

abbrev no_memory : Unit {0} → ℕ → Unit {0} × ℕ
no_memory h n = (h, 0)

main_only : Sched
main_only = sched_init blank

two : Sched
two = (thread_create heap_alloc 0x1000 tt main_only none 0x2000 0).sched

three : Sched
three = (thread_create heap_alloc 0x1000 tt two none 0x3000 7).sched

main_only-IsValid : IsValid main_only
unfolding main_only
main_only-IsValid = sched_init-IsValid blank refl

two-IsValid : IsValid two
unfolding two
two-IsValid = thread_create-IsValid heap_alloc 0x1000 tt main_only none 0x2000 0 main_only-IsValid

three-IsValid : IsValid three
unfolding three
three-IsValid = thread_create-IsValid heap_alloc 0x1000 tt two none 0x3000 7 two-IsValid

round_robin : (yields (1 ∷ 2 ∷ []) three).current ≡ 2
unfolding yields three two main_only sched_init thread_create thread_yield find_next_runnable
    find_loop
round_robin = refl

create_fails : (thread_create no_memory 0x1000 tt main_only none 0x2000 0).tid ≡ none
unfolding main_only sched_init thread_create
create_fails = refl

-- The second thread has exited.
one_dead : Sched
one_dead = (thread_exit (yields (1 ∷ []) three) 5).0

one_dead-switch : (thread_exit (yields (1 ∷ []) three) 5).1 ≡ some 0x1800_0ffc
unfolding yields three two main_only sched_init thread_create thread_yield thread_exit
    find_next_runnable find_loop
one_dead-switch = refl

one_dead-IsValid : IsValid one_dead
unfolding one_dead yields
one_dead-IsValid =
    thread_exit-IsValid _ 5 (thread_yield-IsValid three 1 three-IsValid) one_dead-switch

one_dead-IsDead : IsDead one_dead 1
unfolding one_dead yields three two main_only sched_init thread_create thread_yield thread_exit
    find_next_runnable find_loop
one_dead-IsDead = record { in_use = omega arith; dead = refl }

find_next_runnable-Found_example :
    Found three 0 false 1 (three.count + 1) (find_next_runnable three 0 false)
find_next_runnable-Found_example = find_next_runnable-Found three 0 false

three_create-IsValid : IsValid (thread_create no_memory 0x1000 tt three none 0x2000 0).sched
three_create-IsValid = thread_create-IsValid no_memory 0x1000 tt three none 0x2000 0 three-IsValid

three_yield-IsValid : IsValid (thread_yield three 9).0
three_yield-IsValid = thread_yield-IsValid three 9 three-IsValid

thread_exit-panic_instance :
    ((thread_exit main_only 1).1 ≡ none)
    ↔ ((i : ℕ) → i < main_only.count → i ≢ main_only.current → state_of main_only i ≢ runnable)
thread_exit-panic_instance = thread_exit-panic main_only 1 main_only-IsValid

three-ready : state_of three 2 ≡ runnable
unfolding three two main_only sched_init thread_create
three-ready = refl

three-count : (2 < three.count) × (length {A = ℕ} (1 ∷ 2 ∷ 3 ∷ []) ≡ three.count)
unfolding three two main_only sched_init thread_create
three-count = (omega arith, refl)

yields-fair_example :
    (n : ℕ) × (n ≤ three.count) × ((yields (take n (1 ∷ 2 ∷ 3 ∷ [])) three).current ≡ 2)
yields-fair_example =
    yields-fair (1 ∷ 2 ∷ 3 ∷ []) three 2 three-IsValid three-count.0 three-ready three-count.1
