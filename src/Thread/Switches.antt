-- ===== src/Thread/Switches.antt =====
-- The calls of thread.c that give up the processor or wake a thread.
use tiny_os.Common.{
  ℕ, ◌≡◌, ◌≢◌, refl, subst, ◌∙◌, Bool, true, false, none, some, List, [], ◌∷◌, ◌++◌, ◌==◌,
  if◌then◌else◌, arith, Bool-cases, inl, inr, ==_refl,
}
use tiny_os.Common.Members.{has-append, Distinct-snoc}
use tiny_os.Thread.{
  ThreadStatus, running, ready, blocked, dying, is_running, is_ready, is_blocked, Kernel, put, pick,
  is_thread, thread_current, schedule, thread_block, thread_unblock, thread_yield, exit_switch,
}
use tiny_os.Thread.Scheduler.{
  alive, IsQueue, IsKernel, pick-here, switched, schedule-switched, switched-IsKernel,
}

-- A switch away from the thread that runs in `k`, which leaves it in state `s`, to the first
-- thread of `queue`, or to the idle thread if there is none. No other thread changes its state.
pub record Switched (k : Kernel) (s : ThreadStatus) (queue : List ℕ) (k' : Kernel) : Type 0 where
  pub kernel : IsKernel k'
  pub order : (k'.running_thread, k'.ready_list) ≡ pick k.idle_thread queue
  pub idle_same : k'.idle_thread ≡ k.idle_thread
  pub statuses :
      (t : ℕ) → k'.status t ≡ put (put k.status k.running_thread s) k'.running_thread running t

module _ (k : Kernel) (wf : IsKernel k) where
  current_running : is_running (k.status k.running_thread) ≡ true
  current_running = wf.alone k.running_thread ∙ ==_refl k.running_thread

  pub thread_current-running : thread_current k ≡ some k.running_thread
  unfolding thread_current
  thread_current-running =
      let r = current_running in
      let live = wf.queue.threads k.running_thread (ground arith) in rw (live, r) refl

  -- The state in which `schedule` is called: the running thread is in state `s`.
  abbrev leaving : ThreadStatus → List ℕ → Kernel
  leaving s queue = record k { ready_list = queue; status = put k.status k.running_thread s }

  module _ (s : ThreadStatus) (queue : List ℕ) (q : IsQueue (leaving s queue))
      (off : is_running s ≡ false) where
    leaving-off : (t : ℕ) → is_running ((leaving s queue).status t) ≡ false
    leaving-off t = let r = wf.alone t in ground arith

    leaving-Switched : Switched k s queue (switched (leaving s queue))
    leaving-Switched = record {
      kernel = switched-IsKernel (leaving s queue) q leaving-off;
      order = refl;
      idle_same = refl;
      statuses = λ t. refl;
    }

    leaving-schedule : schedule (leaving s queue) ≡ some (switched (leaving s queue))
    leaving-schedule = schedule-switched (leaving s queue) q (leaving-off k.running_thread)

  leaving-threads :
      (s : ThreadStatus) (queue : List ℕ) (t : ℕ)
      → alive ((leaving s queue).status t) ≡ true
      → is_thread k t ≡ true
  leaving-threads s queue t a =
      let r = wf.alone t in
      elim (Bool-cases (k.running_thread == t)) [
        | inl here ↦ wf.queue.threads t (ground arith)
        | inr there ↦ wf.queue.threads t (ground arith)
      ]

  leaving-IsQueue :
      (s : ThreadStatus)
      → is_ready s ≡ false
      → ((k.running_thread == k.idle_thread) ≡ true → alive s ≡ true)
      → IsQueue (leaving s k.ready_list)
  leaving-IsQueue s waits idle_live = record {
    queued = λ t. let p = wf.queue.queued t in let r = wf.alone t in ground arith;
    distinct = wf.queue.distinct;
    threads = leaving-threads s k.ready_list;
    idle_alive = let i = wf.queue.idle_alive in ground arith;
  }

  -- The idle thread never enters the ready list.
  abbrev pub yielding : List ℕ
  yielding =
      if k.running_thread == k.idle_thread
      then k.ready_list
      else k.ready_list ++ (k.running_thread ∷ [])

  yielding-IsQueue : IsQueue (leaving ready yielding)
  yielding-IsQueue = record {
    queued = λ t.
        let p = wf.queue.queued t in
        let r = wf.alone t in
        let h = has-append t k.ready_list (k.running_thread ∷ []) in
        elim (Bool-cases (k.running_thread == k.idle_thread)) [
          | inl idle ↦ rw idle (ground arith)
          | inr other ↦ rw (other, h) (ground arith)
        ];
    distinct = elim (Bool-cases (k.running_thread == k.idle_thread)) [
      | inl idle ↦ rw idle wf.queue.distinct
      | inr other ↦
          let p = wf.queue.queued k.running_thread in
          let r = current_running in
          rw other (Distinct-snoc k.ready_list k.running_thread wf.queue.distinct (ground arith))
    ];
    threads = leaving-threads ready yielding;
    idle_alive = let i = wf.queue.idle_alive in ground arith;
  }

  -- Blocking never fails an ASSERT; the running thread becomes blocked, and the thread at the front
  -- of the ready list runs, or the idle thread if there is none.
  pub thread_block-Switched :
      (k' : Kernel) × (thread_block k ≡ some k') × Switched k blocked k.ready_list k'
  unfolding thread_block
  thread_block-Switched =
      let q = leaving-IsQueue blocked refl (λ e. refl) in
      (
        switched (leaving blocked k.ready_list),
        rw thread_current-running (leaving-schedule blocked k.ready_list q refl),
        leaving-Switched blocked k.ready_list q refl,
      )

  -- Yielding never fails an ASSERT; the running thread becomes ready, and goes to the end of the
  -- ready list unless it is the idle thread, before the thread at the front is taken.
  pub thread_yield-Switched :
      (k' : Kernel) × (thread_yield k ≡ some k') × Switched k ready yielding k'
  unfolding thread_yield
  thread_yield-Switched = (
    switched (leaving ready yielding),
    rw thread_current-running (elim (Bool-cases (k.running_thread == k.idle_thread)) [
      | inl idle ↦ rw idle (
          let keep = λ (b : Bool).
            leaving ready (if b then k.ready_list else k.ready_list ++ (k.running_thread ∷ [])) in
          leaving-schedule ready k.ready_list (subst (λ b. IsQueue (keep b)) idle yielding-IsQueue)
            refl)
      | inr other ↦ rw other (
          let keep = λ (b : Bool).
            leaving ready (if b then k.ready_list else k.ready_list ++ (k.running_thread ∷ [])) in
          leaving-schedule ready (k.ready_list ++ (k.running_thread ∷ []))
            (subst (λ b. IsQueue (keep b)) other yielding-IsQueue) refl)
    ]),
    leaving-Switched ready yielding yielding-IsQueue refl,
  )

  -- The thread that runs is not the one that is taken next, if it is not the idle thread.
  pub next-other :
      k.running_thread ≢ k.idle_thread
      → (k.running_thread == (pick k.idle_thread k.ready_list).0) ≡ false
  next-other other = elim (pick-here k.idle_thread k.ready_list) [
    | inl taken ↦
        let p = wf.queue.queued (pick k.idle_thread k.ready_list).0 in
        let r = wf.alone (pick k.idle_thread k.ready_list).0 in ground arith
    | inr idle ↦ rw idle (ground arith)
  ]

  -- The end of thread_exit never fails an ASSERT when another thread than the idle thread exits: the
  -- thread is dying, another one runs, and the page of the thread is freed unless it is the
  -- initial thread.
  pub exit_switch-Switched :
      k.running_thread ≢ k.idle_thread
      → (k' : Kernel) × (exit_switch k ≡ some k')
        × Switched k dying k.ready_list k'
        × (k'.destroyed ≡ (
            if k.running_thread == k.initial_thread
            then k.destroyed
            else k.running_thread ∷ k.destroyed))
  unfolding exit_switch
  exit_switch-Switched other =
      let q = leaving-IsQueue dying refl (λ e. ground arith) in
      (
        switched (leaving dying k.ready_list),
        rw thread_current-running (leaving-schedule dying k.ready_list q refl),
        leaving-Switched dying k.ready_list q refl,
        (let r = current_running in
            let live = wf.queue.threads k.running_thread (ground arith) in
            let real : (k.running_thread == 0) ≡ false = ground arith in
            let same = ==_refl k.running_thread in
            let n = next-other other in
            elim (Bool-cases (k.running_thread == k.initial_thread)) [
              | inl initial ↦ rw (initial, n, real, same) refl
              | inr later ↦ rw (later, n, real, same) refl
            ]),
      )

-- A thread that is woken.
pub record Woken (k : Kernel) (w : ℕ) (k' : Kernel) : Type 0 where
  pub kernel : IsKernel k'
  pub order : k'.ready_list ≡ k.ready_list ++ (w ∷ [])
  pub running_same : k'.running_thread ≡ k.running_thread
  pub idle_same : k'.idle_thread ≡ k.idle_thread
  pub statuses : (t : ℕ) → k'.status t ≡ put k.status w ready t

-- Waking a blocked thread other than the idle thread never fails an ASSERT: it goes to the end of
-- the ready list and becomes ready, and the running thread goes on.
pub thread_unblock-Woken :
    (k : Kernel) (w : ℕ)
    → IsKernel k
    → is_blocked (k.status w) ≡ true
    → w ≢ k.idle_thread
    → (k' : Kernel) × (thread_unblock w k ≡ some k') × Woken k w k'
unfolding thread_unblock
thread_unblock-Woken k w wf asleep other =
    let live = wf.queue.threads w (ground arith) in
    let p = wf.queue.queued w in
    (
      record k { ready_list = k.ready_list ++ (w ∷ []); status = put k.status w ready },
      rw (live, asleep) refl,
      record {
        kernel = record {
          queue = record {
            queued = λ t.
                let h = has-append t k.ready_list (w ∷ []) in
                let o = wf.queue.queued t in rw h (ground arith);
            distinct = Distinct-snoc k.ready_list w wf.queue.distinct (ground arith);
            threads = λ t a. elim (Bool-cases (w == t)) [
              | inl here ↦
                  let same : w ≡ t = ground arith in subst (λ u. is_thread k u ≡ true) same live
              | inr there ↦ wf.queue.threads t (ground arith)
            ];
            idle_alive = let i = wf.queue.idle_alive in ground arith;
          };
          alone = λ t. let r = wf.alone t in ground arith;
        };
        order = refl;
        running_same = refl;
        idle_same = refl;
        statuses = λ t. refl;
      },
    )

-- `thread_unblock` panics when the thread is not blocked.
pub unblock_asleep :
    (k : Kernel) (w : ℕ) (k' : Kernel)
    → thread_unblock w k ≡ some k'
    → is_blocked (k.status w) ≡ true
unfolding thread_unblock
unblock_asleep k w k' e = elim (Bool-cases (is_blocked (k.status w))) [
  | inl a ↦ a
  | inr n ↦ elim (Bool-cases (is_thread k w)) [
    | inl l ↦ let f : thread_unblock w k ≡ none = rw (l, n) refl in cc
    | inr l ↦ let f : thread_unblock w k ≡ none = rw l refl in cc
  ]
]
