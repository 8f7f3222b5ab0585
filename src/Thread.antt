-- ===== src/Thread.antt =====
-- threads/thread.c: the states of threads, the ready list and the scheduler. A thread is the address
-- of its `struct thread`, 0 is NULL. A list of threads is the list of its elements, front first.
-- `none` is a failed ASSERT. Each function is one run with interrupts off; where it switches
-- threads, the state that it returns is the one in which the next thread starts to run.

pub mod Scheduler
pub mod Switches
pub mod Tests
use tiny_os.Common.{
  ℕ, ◌+◌, Bool, true, false, not, ◌&&◌, Option, none, some, List, [], ◌∷◌, ◌++◌, ◌==◌, leb,
  if◌then◌else◌,
}
use tiny_os.Common.Panic.{assert, ◌>>=◌, ◌>>◌}

pub data ThreadStatus : Type 0 where
  running : ThreadStatus
  ready : ThreadStatus
  blocked : ThreadStatus
  dying : ThreadStatus
  dead : ThreadStatus

abbrev pub is_running : ThreadStatus → Bool
is_running running = true
is_running _ = false

abbrev pub is_ready : ThreadStatus → Bool
is_ready ready = true
is_ready _ = false

abbrev pub is_blocked : ThreadStatus → Bool
is_blocked blocked = true
is_blocked _ = false

abbrev pub is_dying : ThreadStatus → Bool
is_dying dying = true
is_dying _ = false

-- The variables of thread.c and the members `status`, `magic` and `pagedir` of every thread.
-- `running_thread` is the thread that the stack pointer is in, `destroyed` the pages that were
-- given to palloc_free_page, newest first.
pub record Kernel : Type 0 where
  pub status : ℕ → ThreadStatus
  pub magic : ℕ → ℕ
  pub pagedir : ℕ → ℕ
  pub running_thread : ℕ
  pub ready_list : List ℕ
  pub idle_thread : ℕ
  pub initial_thread : ℕ
  pub idle_ticks : ℕ
  pub kernel_ticks : ℕ
  pub user_ticks : ℕ
  pub thread_ticks : ℕ
  pub destroyed : List ℕ

abbrev pub put : (ℕ → ThreadStatus) → ℕ → ThreadStatus → ℕ → ThreadStatus
put f t s u = if t == u then s else f u

abbrev pub thread_magic : ℕ
thread_magic = 3446325067

abbrev pub time_slice : ℕ
time_slice = 4

abbrev pub is_thread : Kernel → ℕ → Bool
is_thread k t = not (t == 0) && k.magic t == thread_magic

unfoldable pub thread_current : Kernel → Option ℕ
thread_current k = do
  let t = k.running_thread
  assert (is_thread k t)
  assert (is_running (k.status t))
  some t

-- The thread that is taken and the ready list that is left.
abbrev pub pick : ℕ → List ℕ → ℕ × List ℕ
pick idle [] = (idle, [])
pick idle (x ∷ xs) = (x, xs)

abbrev pub next_thread_to_run : Kernel → ℕ × List ℕ
next_thread_to_run k = pick k.idle_thread k.ready_list

-- The running thread is the one that was switched to; `prev` is NULL if there was no switch.
unfoldable pub schedule_tail : ℕ → Kernel → Option Kernel
schedule_tail prev k = do
  let cur = k.running_thread
  let k1 = record k { status = put k.status cur running; thread_ticks = 0 }
  if not (prev == 0) && (is_dying (k1.status prev) && not (prev == k1.initial_thread))
      then (assert (not (prev == cur)) >> some (record k1 { destroyed = prev ∷ k1.destroyed }))
      else some k1

unfoldable pub schedule : Kernel → Option Kernel
schedule k = do
  let cur = k.running_thread
  let next = (next_thread_to_run k).0
  let k1 = record k { ready_list = (next_thread_to_run k).1 }
  assert (not (is_running (k1.status cur)))
  assert (is_thread k1 next)
  if cur == next
      then schedule_tail 0 k1
      else schedule_tail cur (record k1 { running_thread = next })

unfoldable pub thread_block : Kernel → Option Kernel
thread_block k = do t ← thread_current k; schedule (record k { status = put k.status t blocked })

unfoldable pub thread_unblock : ℕ → Kernel → Option Kernel
thread_unblock t k = do
  assert (is_thread k t)
  assert (is_blocked (k.status t))
  some (record k { ready_list = k.ready_list ++ (t ∷ []); status = put k.status t ready })

unfoldable pub thread_yield : Kernel → Option Kernel
thread_yield k = do
  cur ← thread_current k
  let k1 = if cur == k.idle_thread then k else record k { ready_list = k.ready_list ++ (cur ∷ []) }
  schedule (record k1 { status = put k1.status cur ready })

-- The end of thread_exit, from where it turns interrupts off.
pub exit_switch : Kernel → Option Kernel
exit_switch k = do t ← thread_current k; schedule (record k { status = put k.status t dying })

-- The result says whether intr_yield_on_return is called.
pub thread_tick : Kernel → Option (Bool × Kernel)
thread_tick k = do
  t ← thread_current k
  let k1 =
      if t == k.idle_thread
      then record k { idle_ticks = k.idle_ticks + 1 }
      else if not (k.pagedir t == 0)
      then record k { user_ticks = k.user_ticks + 1 }
      else record k { kernel_ticks = k.kernel_ticks + 1 }
  let k2 = record k1 { thread_ticks = k1.thread_ticks + 1 }
  some (leb time_slice k2.thread_ticks, k2)
