-- ===== src/Synch/Tests.antt =====
-- Runs of synch.c: thread 4096 takes a lock, and 8192 waits for it.
use tiny_os.Common.{
  ◌≡◌, ◌≢◌, ◌⊎◌, refl, true, false, some, arith, ◌==◌, if◌then◌else◌, ℕ, List, [], ◌∷◌, Bool-cases,
  inl, inr,
}
use tiny_os.Thread.{
  Kernel, is_blocked, thread_current, thread_block, thread_yield, schedule, schedule_tail,
}
use tiny_os.Thread.Tests.{four_threads, four_threads-IsKernel}
use tiny_os.Synch.{
  Semaphore, Lock, sema_down_turn, lock_acquire_enter, lock_acquire_leave,
  lock_held_by_current_thread, lock_init, sema_init,
}
use tiny_os.Synch.Machine.{
  acquiring, owns, is_acquiring, is_inside, Machine, current, goes, enter, turn, leave, yield, Run,
  done, next,
}
use tiny_os.Synch.Invariant.{can_run, IsMachine}
use tiny_os.Synch.Condition.{cond_broadcast}
use tiny_os.Synch.Condition.Broadcast.{IsWaiting, Broadcast, cond_broadcast-Broadcast}
use tiny_os.Synch.Exclusion.{
  start, start-IsMachine, Step-IsMachine, mutual_exclusion, no_lost_wakeup, held-is_inside,
  Succeeds, no_assert_fails,
}

busy_4096 : ◌≢◌ {A = ℕ} 4096 16384
busy_4096 e = ground arith

busy_8192 : ◌≢◌ {A = ℕ} 8192 16384
busy_8192 e = ground arith

-- 4096 takes the lock, the timer ends its slice, and 8192 enters lock_acquire and is put to sleep.
abbrev contended :
    (m : Machine) × Run (start four_threads) m
    × (owns (m.place 4096) ≡ true)
    × (is_blocked (m.kernel.status 8192) ≡ true)
    × (is_acquiring (m.place 8192) ≡ true)
    × (is_inside (m.place (current m)) ≡ true)
unfolding lock_acquire_enter lock_held_by_current_thread thread_current lock_init sema_init
    sema_down_turn lock_acquire_leave thread_yield thread_block schedule schedule_tail
contended = (
  _,
  next
      (next
        (next
          (next (next (next done (enter refl busy_4096 refl)) (turn {got = true} refl refl))
            (leave refl refl))
          (yield refl))
        (enter refl busy_8192 refl))
      (turn {got = false} refl refl),
  refl,
  refl,
  refl,
  refl,
)

mutual_exclusion_example : ◌≡◌ {A = ℕ} 4096 4096
mutual_exclusion_example =
    mutual_exclusion four_threads-IsKernel contended.1 4096 4096 contended.2 contended.2

no_lost_wakeup_example :
    (t : ℕ) × ((owns (contended.0.place t) ≡ true)
      ⊎ ((is_acquiring (contended.0.place t) ≡ true)
          × (can_run (contended.0.kernel.status t) ≡ true)))
no_lost_wakeup_example =
    no_lost_wakeup four_threads-IsKernel contended.1 8192 contended.3 contended.4

held-is_inside_example :
    lock_held_by_current_thread contended.0.lock contended.0.kernel
    ≡ some (is_inside (contended.0.place (current contended.0)))
held-is_inside_example = held-is_inside four_threads-IsKernel contended.1

no_assert_fails_example : Succeeds contended.0 (contended.0.place (current contended.0))
no_assert_fails_example = no_assert_fails four_threads-IsKernel contended.1

Step-IsMachine_example :
    IsMachine (goes (start four_threads) four_threads (start four_threads).lock acquiring)
unfolding lock_acquire_enter lock_held_by_current_thread thread_current lock_init
Step-IsMachine_example =
    Step-IsMachine (enter refl busy_4096 refl) (start-IsMachine four_threads four_threads-IsKernel)

-- 12288 sleeps in the semaphore of its element, the thread of the other has not come that far.
abbrev semas : ℕ → Semaphore
semas w =
    if w == 40
    then record { value = 0; waiters = 12288 ∷ [] }
    else record { value = 0; waiters = [] }

abbrev held_lock : Lock
held_lock = record { holder = 4096; semaphore = record { value = 0; waiters = [] } }

two-IsWaiting : IsWaiting four_threads semas (44 ∷ 40 ∷ [])
two-IsWaiting = record {
  distinct = (refl, (refl, tt));
  elems = λ w h. elim (Bool-cases (w == 40)) [
    | inl e ↦ inr (12288, rw e refl, refl, λ f. ground arith)
    | inr e ↦ inl (rw e refl)
  ];
  threads = λ v w t hv hw ev ew. elim (Bool-cases (v == 40)) [
    | inl e ↦ elim (Bool-cases (w == 40)) [
      | inl f ↦ ground arith
      | inr f ↦ let bad : ◌≡◌ {A = List ℕ} [] (t ∷ []) = rw f at ew in cc
    ]
    | inr e ↦ let bad : ◌≡◌ {A = List ℕ} [] (t ∷ []) = rw e at ev in cc
  ];
}

cond_broadcast-Broadcast_example :
    (semas' : ℕ → Semaphore) × (k' : Kernel) × (cond_broadcast false
        (record { waiters = 44 ∷ 40 ∷ [] })
        held_lock
        semas
        four_threads
      ≡ some (record { waiters = [] }, (semas', k')))
    × Broadcast held_lock semas four_threads (44 ∷ 40 ∷ []) semas' k'
cond_broadcast-Broadcast_example =
    cond_broadcast-Broadcast held_lock (44 ∷ 40 ∷ []) semas four_threads four_threads-IsKernel refl
      two-IsWaiting
