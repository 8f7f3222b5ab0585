-- ===== src/Synch/Invariant.antt =====
-- What holds of the lock and its threads in every state of the machine.
use tiny_os.Common.{
  ℕ, ◌≡◌, ◌⊎◌, refl, ap, sym, subst, ◌∙◌, Bool, true, false, not, ◌&&◌, List, [], ◌∷◌, ◌++◌, ◌==◌,
  if◌then◌else◌, arith, Bool-cases, inl, inr,
}
use tiny_os.Common.Members.{has, has-append, Distinct}
use tiny_os.Thread.{ThreadStatus, is_blocked, is_running, Kernel, running, ready}
use tiny_os.Thread.Scheduler.{IsKernel, pick-here}
use tiny_os.Thread.Switches.{yielding, Switched}
use tiny_os.Synch.{Semaphore}
use tiny_os.Synch.Machine.{Place, is_outside, is_acquiring, is_inside, owns, Machine}

abbrev pub can_run : ThreadStatus → Bool
can_run running = true
can_run ready = true
can_run _ = false

pub can_run-awake : (s : ThreadStatus) → can_run s ≡ true → is_blocked s ≡ false
can_run-awake s h = ground arith

pub running-can_run : (s : ThreadStatus) → is_running s ≡ true → can_run s ≡ true
running-can_run s h = ground arith

-- The semaphore's value counts the lock: 1 when no thread owns it, 0 when exactly one does.
abbrev pub Owned : ℕ → (ℕ → Place) → Type 0
Owned v place =
    ((v ≡ 1) × ((t : ℕ) → owns (place t) ≡ false))
    ⊎ ((v ≡ 0) × ((o : ℕ) × ((t : ℕ) → owns (place t) ≡ (t == o))))

-- If the lock is free while a thread waits for it, some thread that can run is about to take it.
abbrev pub Awake : Semaphore → (ℕ → ThreadStatus) → (ℕ → Place) → Type 0
Awake s status place =
    (w : ℕ)
    → s.value ≡ 1
    → has w s.waiters ≡ true
    → (t : ℕ) × (is_acquiring (place t) ≡ true) × (can_run (status t) ≡ true)

pub record IsMachine (m : Machine) : Type 0 where
  pub kernel : IsKernel m.kernel
  pub waiting :
      (t : ℕ)
      → has t m.lock.semaphore.waiters
        ≡ (is_blocked (m.kernel.status t) && is_acquiring (m.place t))
  pub distinct : Distinct m.lock.semaphore.waiters
  pub owned : Owned m.lock.semaphore.value m.place
  pub held : (t : ℕ) → is_inside (m.place t) ≡ (not (t == 0) && t == m.lock.holder)
  pub idle_outside : is_outside (m.place m.kernel.idle_thread) ≡ true
  pub awake : Awake m.lock.semaphore m.kernel.status m.place

-- A change of the kernel only, which wakes no waiter and stops no thread that takes the lock.
pub kernel_changes :
    (m : Machine) (k : Kernel)
    → IsMachine m
    → IsKernel k
    → k.idle_thread ≡ m.kernel.idle_thread
    → ((t : ℕ)
        → is_acquiring (m.place t) ≡ true
        → (is_blocked (k.status t) ≡ is_blocked (m.kernel.status t))
          × (can_run (k.status t) ≡ can_run (m.kernel.status t)))
    → IsMachine (record m { kernel = k })
kernel_changes m k inv wf idle same = record {
  kernel = wf;
  waiting = λ t. elim (Bool-cases (is_acquiring (m.place t))) [
    | inl a ↦ (let p = same t a in let w = inv.waiting t in ground arith)
    | inr o ↦ (let w = inv.waiting t in ground arith)
  ];
  distinct = inv.distinct;
  owned = inv.owned;
  held = inv.held;
  idle_outside = subst (λ i. is_outside (m.place i) ≡ true) (sym idle) inv.idle_outside;
  awake = λ w v h. let a = inv.awake w v h in (a.0, a.1, (same a.0 a.1).1 ∙ a.2);
}

-- A switch keeps whether the other threads than the idle thread are blocked and can run, the
-- thread that gives up the processor apart.
module _ (k : Kernel) (wf : IsKernel k) (s : ThreadStatus) (queue : List ℕ) (k' : Kernel)
    (sw : Switched k s queue k')
    (from_queue : (t : ℕ) → has t queue ≡ true → can_run (k.status t) ≡ true) where
  pub chosen :
      (k'.running_thread == k.idle_thread) ≡ false → can_run (k.status k'.running_thread) ≡ true
  chosen other = elim (pick-here k.idle_thread queue) [
    | inl h ↦
        from_queue k'.running_thread
          (subst (λ t. has t queue ≡ true) (sym (ap (λ p. p.0) sw.order)) h)
    | inr i ↦
        let same : k'.running_thread ≡ k.idle_thread = ap (λ p. p.0) sw.order ∙ i in ground arith
  ]

  pub switch_same :
      (t : ℕ)
      → (t == k.idle_thread) ≡ false
      → ((t == k.running_thread) ≡ true → can_run s ≡ true)
      → (is_blocked (k'.status t) ≡ is_blocked (k.status t))
        × (can_run (k'.status t) ≡ can_run (k.status t))
  switch_same t other stays =
      let r = wf.alone t in
      let st = sw.statuses t in
      elim (Bool-cases (k'.running_thread == t)) [
        | inl here ↦
            let same : k'.running_thread ≡ t = ground arith in
            let c : can_run (k.status t) ≡ true =
              subst (λ u. can_run (k.status u) ≡ true) same (chosen (rw same other)) in
            let b = can_run-awake (k.status t) c in
            let e : k'.status t ≡ running = st ∙ rw here refl in rw (e, b, c) (refl, refl)
        | inr there ↦ elim (Bool-cases (k.running_thread == t)) [
          | inl cur ↦
              let e : k'.status t ≡ s = st ∙ rw (there, cur) refl in
              let c = stays (ground arith) in
              let b = can_run-awake s c in
              let on : is_running (k.status t) ≡ true = ground arith in
              let was = running-can_run (k.status t) on in
              let was_awake = can_run-awake (k.status t) was in
              rw (e, b, c, was, was_awake) (refl, refl)
          | inr away ↦
              let e : k'.status t ≡ k.status t = st ∙ rw (there, away) refl in rw e (refl, refl)
        ]
      ]

pub yield_same :
    (k : Kernel) (wf : IsKernel k) (t : ℕ)
    → has t (yielding k wf) ≡ true
    → can_run (k.status t) ≡ true
yield_same k wf t h =
    let p = wf.queue.queued t in
    let r = wf.alone t in
    let a = has-append t k.ready_list (k.running_thread ∷ []) in
    let queue = λ (b : Bool). if b then k.ready_list else k.ready_list ++ (k.running_thread ∷ []) in
    elim (Bool-cases (k.running_thread == k.idle_thread)) [
      | inl idle ↦ let i = subst (λ b. has t (queue b) ≡ true) idle h in ground arith
      | inr other ↦ let i = subst (λ b. has t (queue b) ≡ true) other h in ground arith
    ]

pub ready_same :
    (k : Kernel) → IsKernel k → (t : ℕ) → has t k.ready_list ≡ true → can_run (k.status t) ≡ true
ready_same k wf t h = let p = wf.queue.queued t in ground arith
