-- ===== src/Thread/Scheduler.antt =====
-- The scheduler of thread.c keeps the ready list and the states of the threads in step.
use tiny_os.Common.{
  ℕ, ◌≡◌, refl, sym, subst, ◌⊎◌, Bool, true, false, not, ◌&&◌, some, List, [], ◌∷◌, ◌==◌,
  if◌then◌else◌, arith, Bool-cases, inl, inr,
}
use tiny_os.Common.Members.{has, Distinct}
use tiny_os.Thread.{
  ThreadStatus, running, ready, blocked, is_running, is_ready, is_dying, Kernel, put, pick,
  is_thread, next_thread_to_run, schedule_tail, schedule,
}

abbrev pub alive : ThreadStatus → Bool
alive running = true
alive ready = true
alive blocked = true
alive _ = false

-- The ready list holds each ready thread but the idle thread once, and no other thread; what
-- is alive is a thread.
pub record IsQueue (k : Kernel) : Type 0 where
  pub queued : (t : ℕ) → has t k.ready_list ≡ (is_ready (k.status t) && not (t == k.idle_thread))
  pub distinct : Distinct k.ready_list
  pub threads : (t : ℕ) → alive (k.status t) ≡ true → is_thread k t ≡ true
  pub idle_alive : alive (k.status k.idle_thread) ≡ true

-- And exactly one thread is running, the one that the processor is in.
pub record IsKernel (k : Kernel) : Type 0 where
  pub queue : IsQueue k
  pub alone : (t : ℕ) → is_running (k.status t) ≡ (t == k.running_thread)

abbrev pub next_thread : Kernel → ℕ
next_thread k = (next_thread_to_run k).0

-- The thread switched from is destroyed.
abbrev pub is_destroyed : Kernel → Bool
is_destroyed k =
    let cur = k.running_thread in
    not (cur == next_thread k)
    && (not (cur == 0) && (is_dying (k.status cur) && not (cur == k.initial_thread)))

-- The state after a switch to the next thread.
abbrev pub switched : Kernel → Kernel
switched k = record k {
  running_thread = next_thread k;
  ready_list = (next_thread_to_run k).1;
  status = put k.status (next_thread k) running;
  thread_ticks = 0;
  destroyed = if is_destroyed k then k.running_thread ∷ k.destroyed else k.destroyed;
}

module _ (idle : ℕ) where
  pub pick-here : (xs : List ℕ) → (has (pick idle xs).0 xs ≡ true) ⊎ ((pick idle xs).0 ≡ idle)
  pick-here [] = inr refl
  pick-here (x ∷ xs) = inl (ground arith)

  has-pick :
      (xs : List ℕ) (t : ℕ)
      → Distinct xs
      → has t (pick idle xs).1 ≡ (has t xs && not (t == (pick idle xs).0))
  has-pick [] t d = refl
  has-pick (x ∷ xs) t d = elim (Bool-cases (t == x)) [
    | inl here ↦ let same : t ≡ x = ground arith in rw same (ground (arith, d.0))
    | inr there ↦ ground arith
  ]

  Distinct-pick : (xs : List ℕ) → Distinct xs → Distinct (pick idle xs).1
  Distinct-pick [] d = d
  Distinct-pick (x ∷ xs) d = d.1

module _ (k : Kernel) (q : IsQueue k) where
  next_alive : alive (k.status (next_thread k)) ≡ true
  next_alive = elim (pick-here k.idle_thread k.ready_list) [
    | inl h ↦ let p = q.queued (next_thread k) in ground arith
    | inr h ↦ subst (λ t. alive (k.status t) ≡ true) (sym h) q.idle_alive
  ]

  pub schedule-switched :
      is_running (k.status k.running_thread) ≡ false → schedule k ≡ some (switched k)
  unfolding schedule schedule_tail
  schedule-switched off =
      let cur = k.running_thread in
      let live = q.threads (next_thread k) next_alive in
      elim (Bool-cases (cur == next_thread k)) [
        | inl e ↦ let same : next_thread k ≡ cur = ground arith in rw (off, live, e) (rw same refl)
        | inr e ↦
            let other : (next_thread k == cur) ≡ false = ground arith in
            elim (Bool-cases
              (not (cur == 0) && (is_dying (k.status cur) && not (cur == k.initial_thread)))) [
                | inl gone ↦ rw (off, live, e, other, gone) refl
                | inr kept ↦ rw (off, live, e, other, kept) refl
              ]
      ]

  pub switched-IsKernel : ((t : ℕ) → is_running (k.status t) ≡ false) → IsKernel (switched k)
  switched-IsKernel off = record {
    queue = record {
      queued = λ t.
          let h = has-pick k.idle_thread k.ready_list t q.distinct in
          let p = q.queued t in let o = off t in ground arith;
      distinct = Distinct-pick k.idle_thread k.ready_list q.distinct;
      threads = λ t a. elim (Bool-cases (next_thread k == t)) [
        | inl here ↦
            let same : next_thread k ≡ t = ground arith in
            subst (λ u. is_thread k u ≡ true) same (q.threads (next_thread k) next_alive)
        | inr there ↦ q.threads t (ground arith)
      ];
      idle_alive = let i = q.idle_alive in ground arith;
    };
    alone = λ t. let o = off t in ground arith;
  }
