-- ===== src/Synch/Condition/Broadcast.antt =====
-- The threads that cond_signal and cond_broadcast of threads/synch.c wake, and their order.
use tiny_os.Common.{
  ℕ, zero, suc, ◌+◌, ◌%◌, ◌^◌, ◌<◌, ◌≡◌, ◌≢◌, ◌⊎◌, inl, inr, refl, sym, ap, ◌∙◌, subst, true, false,
  some, List, [], ◌∷◌, ◌++◌, ◌==◌, if◌then◌else◌, length, arith, Bool-cases, ==_iff, ==_refl, ne→==,
}
use tiny_os.Common.Members.{has, Distinct, has-append}
use mathlib.Core.List.{append_assoc, append-nil}
use tiny_os.Thread.{Kernel, is_blocked}
use tiny_os.Thread.Scheduler.{IsKernel}
use tiny_os.Thread.Switches.{thread_current-running}
use tiny_os.Synch.{Semaphore, Lock, sema_up, lock_held_by_current_thread}
use tiny_os.Synch.Semaphores.{sema_up-wakes, sema_up-counts}
use tiny_os.Synch.Condition.{
  Condition, put_sema, signal_first, cond_signal, broadcast_loop, cond_broadcast,
}

-- The thread that waits with an element sleeps in its semaphore, or has not come that far.
abbrev pub IsElem : Kernel → Semaphore → Type 0
IsElem k s =
    (s.waiters ≡ [])
    ⊎ ((t : ℕ) × (s.waiters ≡ t ∷ []) × (is_blocked (k.status t) ≡ true) × (t ≢ k.idle_thread))

-- The elements are different and their threads are, too.
pub record IsWaiting (k : Kernel) (semas : ℕ → Semaphore) (ws : List ℕ) : Type 0 where
  pub distinct : Distinct ws
  pub elems : (w : ℕ) → has w ws ≡ true → IsElem k (semas w)
  pub threads :
      (v w t : ℕ)
      → has v ws ≡ true
      → has w ws ≡ true
      → (semas v).waiters ≡ t ∷ []
      → (semas w).waiters ≡ t ∷ []
      → v ≡ w

-- The threads that sleep, in the order of their elements.
abbrev pub sleepers : (ℕ → Semaphore) → List ℕ → List ℕ
sleepers semas [] = []
sleepers semas (w ∷ ws) = (semas w).waiters ++ sleepers semas ws

abbrev pub upped : Semaphore → Semaphore
upped s = record { value = (s.value + 1) % 2 ^ 32; waiters = [] }

-- The threads are woken: they come behind the ready ones, and the running thread goes on.
pub record AreWoken (k : Kernel) (ts : List ℕ) (k' : Kernel) : Type 0 where
  pub kernel : IsKernel k'
  pub order : k'.ready_list ≡ k.ready_list ++ ts
  pub running_same : k'.running_thread ≡ k.running_thread
  pub idle_same : k'.idle_thread ≡ k.idle_thread
  pub others_same : (t : ℕ) → has t ts ≡ false → k'.status t ≡ k.status t

sema_up-AreWoken :
    (k : Kernel) (s : Semaphore)
    → IsKernel k
    → IsElem k s
    → (k' : Kernel) × (sema_up s k ≡ some (upped s, k')) × AreWoken k s.waiters k'
sema_up-AreWoken k s wf (inl nobody) = (
  k,
  subst (λ ws. sema_up s k ≡ some (record { value = (s.value + 1) % 2 ^ 32; waiters = ws }, k))
      nobody (sema_up-counts k s nobody),
  record {
    kernel = wf;
    order = sym (ap (λ ts. k.ready_list ++ ts) nobody ∙ append-nil k.ready_list);
    running_same = refl;
    idle_same = refl;
    others_same = λ t h. refl;
  },
)
sema_up-AreWoken k s wf (inr (t, one, asleep, other)) =
    let r = sema_up-wakes k wf s t [] one asleep other in
    (
      r.0,
      r.1,
      record {
        kernel = r.2.kernel;
        order = r.2.order ∙ sym (ap (λ ts. k.ready_list ++ ts) one);
        running_same = r.2.running_same;
        idle_same = r.2.idle_same;
        others_same = λ u h.
            let n : has u (t ∷ []) ≡ false = subst (λ ts. has u ts ≡ false) one h in
            let e : (t == u) ≡ false = ground arith in r.2.statuses u ∙ rw e refl;
      },
    )

sleepers-put :
    (semas : ℕ → Semaphore) (w : ℕ) (s : Semaphore) (ws : List ℕ)
    → has w ws ≡ false
    → sleepers (put_sema semas w s) ws ≡ sleepers semas ws
sleepers-put semas w s [] h = refl
sleepers-put semas w s (v ∷ ws) h =
    let e : (w == v) ≡ false = ground arith in
    let ih = sleepers-put semas w s ws (ground arith) in rw (e, ih) refl

-- The threads of two elements differ.
thread-other :
    (k : Kernel) (semas : ℕ → Semaphore) (ws : List ℕ) (v w t : ℕ)
    → IsWaiting k semas ws
    → has v ws ≡ true
    → has w ws ≡ true
    → (v == w) ≡ false
    → (semas v).waiters ≡ t ∷ []
    → has t (semas w).waiters ≡ false
thread-other k semas ws v w t i hv hw other one = elim (i.elems w hw) [
  | inl nobody ↦ ap (has t) nobody
  | inr (u, only, asleep, busy) ↦ ap (has t) only ∙ elim (Bool-cases (t == u)) [
    | inl e ↦
        let same : t ≡ u = (==_iff t u).0 e in
        let p = i.threads v w u hv hw (one ∙ ap (λ x. x ∷ []) same) only in absurd (ground arith)
    | inr e ↦ rw e refl
  ]
]

-- After the element at the front was signalled, the others wait as before.
IsWaiting-rest :
    (k k' : Kernel) (semas : ℕ → Semaphore) (w : ℕ) (ws : List ℕ)
    → IsWaiting k semas (w ∷ ws)
    → AreWoken k (semas w).waiters k'
    → IsWaiting k' (put_sema semas w (upped (semas w))) ws
IsWaiting-rest k k' semas w ws i woken =
    let d = i.distinct in
    let out : (v : ℕ) → has v ws ≡ true → (w == v) ≡ false =
      λ v h. ne→== w v (λ e. let p = ap (λ x. has x ws) e in cc) in
    let kept : (v : ℕ) → has v ws ≡ true → put_sema semas w (upped (semas w)) v ≡ semas v =
      λ v h. let e = out v h in rw e refl in
    let first : has w (w ∷ ws) ≡ true = let e = ==_refl w in ground arith in
    record {
      distinct = d.1;
      elems = λ v h.
          let later : has v (w ∷ ws) ≡ true = ground arith in
          subst (IsElem k') (sym (kept v h)) (elim (i.elems v later) [
            | inl nobody ↦ inl nobody
            | inr (t, one, asleep, busy) ↦
                let apart : (v == w) ≡ false = let e = out v h in ground arith in
                let same =
                  woken.others_same t
                    (thread-other k semas (w ∷ ws) v w t i later first apart one) in
                inr (
                  t,
                  one,
                  ap is_blocked same ∙ asleep,
                  subst (λ n. t ≢ n) (sym woken.idle_same) busy,
                )
          ]);
      threads = λ u v t hu hv eu ev.
          i.threads u v t (ground arith) (ground arith) (ap (λ s. s.waiters) (sym (kept u hu)) ∙ eu)
            (ap (λ s. s.waiters) (sym (kept v hv)) ∙ ev);
    }

AreWoken-append :
    (k k1 k2 : Kernel) (ss ts : List ℕ)
    → AreWoken k ss k1
    → AreWoken k1 ts k2
    → AreWoken k (ss ++ ts) k2
AreWoken-append k k1 k2 ss ts a b = record {
  kernel = b.kernel;
  order = b.order ∙ ap (λ l. l ++ ts) a.order ∙ append_assoc k.ready_list ss ts;
  running_same = b.running_same ∙ a.running_same;
  idle_same = b.idle_same ∙ a.idle_same;
  others_same = λ t h.
      let e = has-append t ss ts in b.others_same t (ground arith) ∙ a.others_same t (ground arith);
}

module _ (lock : Lock) where
  -- All of the threads are woken, in the order in which they came, and each semaphore is put up.
  pub record Broadcast (semas : ℕ → Semaphore) (k : Kernel) (ws : List ℕ) (semas' : ℕ → Semaphore)
      (k' : Kernel) : Type 0 where
    pub woken : AreWoken k (sleepers semas ws) k'
    pub semaphores : (w : ℕ) → semas' w ≡ (if has w ws then upped (semas w) else semas w)

  signal_first-held :
      (k : Kernel) (c : Condition) (semas : ℕ → Semaphore)
      → IsKernel k
      → lock.holder ≡ k.running_thread
      → cond_signal false c lock semas k ≡ signal_first c.waiters semas k
  unfolding cond_signal lock_held_by_current_thread
  signal_first-held k c semas wf holds =
      let e : (lock.holder == k.running_thread) ≡ true =
        (==_iff lock.holder k.running_thread).1 holds in
      rw (thread_current-running k wf, e) refl

  broadcast_loop-Broadcast :
      (fuel : ℕ) (ws : List ℕ) (semas : ℕ → Semaphore) (k : Kernel)
      → length ws < fuel
      → IsKernel k
      → lock.holder ≡ k.running_thread
      → IsWaiting k semas ws
      → (semas' : ℕ → Semaphore) × (k' : Kernel) × (broadcast_loop fuel false
            (record { waiters = ws })
            lock
            semas
            k
          ≡ some (record { waiters = [] }, (semas', k')))
        × Broadcast semas k ws semas' k'
  unfolding broadcast_loop signal_first
  broadcast_loop-Broadcast zero ws semas k f wf holds i = absurd (omega arith)
  broadcast_loop-Broadcast (suc fuel) [] semas k f wf holds i = (
    semas,
    k,
    refl,
    record {
      woken = record {
        kernel = wf;
        order = sym (append-nil k.ready_list);
        running_same = refl;
        idle_same = refl;
        others_same = λ t h. refl;
      };
      semaphores = λ w. refl;
    },
  )
  broadcast_loop-Broadcast (suc fuel) (w ∷ ws) semas k f wf holds i =
      let first : has w (w ∷ ws) ≡ true = let e = ==_refl w in ground arith in
      let r = sema_up-AreWoken k (semas w) wf (i.elems w first) in
      let semas1 = put_sema semas w (upped (semas w)) in
      let rest =
        broadcast_loop-Broadcast fuel ws semas1 r.0 (omega arith) r.2.kernel
          (holds ∙ sym r.2.running_same) (IsWaiting-rest k r.0 semas w ws i r.2) in
      let held = signal_first-held k (record { waiters = w ∷ ws }) semas wf holds in
      let out : has w ws ≡ false = i.distinct.0 in
      let same = sleepers-put semas w (upped (semas w)) ws out in
      (
        rest.0,
        rest.1,
        rw (held, r.1) rest.2,
        record {
          woken =
              AreWoken-append k r.0 rest.1 (semas w).waiters (sleepers semas ws) r.2
                (subst (λ ts. AreWoken r.0 ts rest.1) same rest.3.woken);
          semaphores = λ v. rest.3.semaphores v ∙ elim (Bool-cases (w == v)) [
            | inl e ↦
                let q : w ≡ v = (==_iff w v).0 e in
                let o : has v ws ≡ false = subst (λ x. has x ws ≡ false) q out in
                let g : (v == w) ≡ true = ground arith in rw (o, e, g) (ap (λ x. upped (semas x)) q)
            | inr e ↦ let g : (v == w) ≡ false = ground arith in rw (e, g) refl
          ];
        },
      )

  -- cond_broadcast by the thread that holds the lock returns, and no ASSERT fails, where each waiter
  -- has its own element and sleeps in its semaphore or has not yet come to sema_down: no element is
  -- left, every waiter that sleeps is woken, in the order in which they came to wait, and each of
  -- their semaphores is put up once.
  pub cond_broadcast-Broadcast :
      (ws : List ℕ) (semas : ℕ → Semaphore) (k : Kernel)
      → IsKernel k
      → lock.holder ≡ k.running_thread
      → IsWaiting k semas ws
      → (semas' : ℕ → Semaphore) × (k' : Kernel) × (cond_broadcast false
            (record { waiters = ws })
            lock
            semas
            k
          ≡ some (record { waiters = [] }, (semas', k')))
        × Broadcast semas k ws semas' k'
  unfolding cond_broadcast
  cond_broadcast-Broadcast ws semas k wf holds i =
      broadcast_loop-Broadcast (length ws + 1) ws semas k (omega arith) wf holds i
