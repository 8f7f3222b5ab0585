-- ===== src/Synch/Condition.antt =====
-- threads/synch.c: condition variables. The element that a thread waits with is on its stack; it is its
-- address, and `semas` holds the semaphore at each address. `handler` is intr_context (), `none` a
-- failed ASSERT. Each call is a run into which no timer interrupt comes; one that sleeps is
-- modelled up to its call of sema_down.

pub mod Broadcast
use tiny_os.Common.{
  ℕ, zero, suc, Bool, true, false, not, Option, none, some, List, [], ◌∷◌, ◌++◌, ◌==◌,
  if◌then◌else◌, length, ◌+◌,
}
use tiny_os.Common.Panic.{assert, ◌>>=◌, ◌>>◌}
use tiny_os.Thread.{Kernel}
use tiny_os.Synch.{
  Semaphore, Lock, sema_init, sema_up, lock_held_by_current_thread, lock_release_enter,
}

pub record Condition : Type 0 where
  pub waiters : List ℕ

abbrev pub put_sema : (ℕ → Semaphore) → ℕ → Semaphore → ℕ → Semaphore
put_sema semas w s v = if w == v then s else semas v

pub cond_init : Condition
cond_init = record { waiters = [] }

-- cond_wait with the element `w` up to its call of sema_down: sema_down_turn on the semaphore of `w`
-- and then lock_acquire follow.
pub cond_wait_enter :
    Bool
    → ℕ
    → Condition
    → Lock
    → (ℕ → Semaphore)
    → Kernel
    → Option (Condition × (Lock × ((ℕ → Semaphore) × Kernel)))
cond_wait_enter handler w cond lock semas k = do
  assert (not handler)
  held ← lock_held_by_current_thread lock k
  assert held
  let semas1 = put_sema semas w (sema_init 0)
  l ← lock_release_enter lock k
  r ← sema_up l.semaphore k
  some
      (record { waiters = cond.waiters ++ (w ∷ []) }, (record l { semaphore = r.0 }, (semas1, r.1)))

-- The element at the front is taken and its semaphore is put up.
pub signal_first :
    List ℕ → (ℕ → Semaphore) → Kernel → Option (Condition × ((ℕ → Semaphore) × Kernel))
signal_first [] semas k = some (record { waiters = [] }, (semas, k))
signal_first (w ∷ ws) semas k =
    sema_up (semas w) k >>= λ r. some (record { waiters = ws }, (put_sema semas w r.0, r.1))

pub cond_signal :
    Bool
    → Condition
    → Lock
    → (ℕ → Semaphore)
    → Kernel
    → Option (Condition × ((ℕ → Semaphore) × Kernel))
cond_signal handler cond lock semas k = do
  assert (not handler)
  held ← lock_held_by_current_thread lock k
  assert held
  signal_first cond.waiters semas k

abbrev is_empty : List ℕ → Bool
is_empty [] = true
is_empty _ = false

pub broadcast_loop :
    ℕ
    → Bool
    → Condition
    → Lock
    → (ℕ → Semaphore)
    → Kernel
    → Option (Condition × ((ℕ → Semaphore) × Kernel))
broadcast_loop zero handler cond lock semas k = none
broadcast_loop (suc fuel) handler cond lock semas k =
    let rest = cond_signal handler cond lock semas k >>= λ r.
    broadcast_loop fuel handler r.0 lock r.1.0 r.1.1 in
    if is_empty cond.waiters then some (cond, (semas, k)) else rest

pub cond_broadcast :
    Bool
    → Condition
    → Lock
    → (ℕ → Semaphore)
    → Kernel
    → Option (Condition × ((ℕ → Semaphore) × Kernel))
cond_broadcast handler cond lock semas k =
    broadcast_loop (length cond.waiters + 1) handler cond lock semas k
