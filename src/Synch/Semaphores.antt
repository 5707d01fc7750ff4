-- ===== src/Synch/Semaphores.antt =====
-- One call of `sema_down_once` and of `sema_up` of src/threads/synch.c, on every branch.
use operating_system.Common.{
  ℕ, suc, ◌+◌, ◌%◌, ◌^◌, ◌≤◌, ◌<◌, ◌≡◌, ◌≢◌, sym, ap, subst, ◌∙◌, Bool, true, false, some, List, [],
  ◌∷◌, arith, ◌==◌, if◌then◌else◌, assert-true, if-true, if-false, ==_ne, ==_eq, ◌>>=◌,
}
use native.Mathlib.Decide.{ℕ_discrete, dec_lt}
use operating_system.KernelList.{list_insert_ordered}
use operating_system.KernelList.Order.{IsSorted, count-insert_ordered, insert_ordered-IsSorted}
use operating_system.Sched.State.{blocked, Thread, Kernel}
use operating_system.Sched.{priority_greater, thread_block, thread_unblock, thread_check_preempt}
use operating_system.Sched.Queues.{
  times, IsValid, IsSorted-cong, priority-IsOrder, thread_unblock-some, unblocked,
}
use operating_system.Sched.Switching.{
  current_not_asleep, running≢blocked, not-false, unblocked-IsValid,
}
use operating_system.Sched.Keeps.{
  Parked, Keeps, Any, CanRun, Keeps-trans, Switched-Keeps, status-Keeps, stopping,
  stopping-AreQueues,
}
use operating_system.Sched.Keeps.Operations.{
  thread_block-Switched, thread_unblock-Keeps, thread_check_preempt-Kept,
}
use operating_system.Synch.{Semaphore, sema_wait, sema_down_once, wake_one, sema_up}

-- What holds of a semaphore's queue in a kernel: its threads are parked, once each, the first ones
-- of the highest priority.
pub record IsQueue (k : Kernel) (waiters : List ℕ) : Type 0 where
  pub parked : (t : ℕ) → 0 < times t waiters → Parked k t
  pub once : (t : ℕ) → times t waiters ≤ 1
  pub sorted : IsSorted (priority_greater k.thread) waiters

-- An operation that keeps the queue's threads parked keeps the queue.
pub Keeps-IsQueue :
    (Q : ℕ → Type 0) (k k' : Kernel) (ts : List ℕ)
    → Keeps (λ t. 0 < times t ts) Q k k'
    → IsQueue k ts
    → IsQueue k' ts
Keeps-IsQueue Q k k' ts keeps q = record {
  parked = λ t p. keeps.parked t p (q.parked t p);
  once = q.once;
  sorted =
      IsSorted-cong (priority_greater k.thread) (priority_greater k'.thread) ts
        (λ a b p r. rw (keeps.priority a p (q.parked a p), keeps.priority b r (q.parked b r)))
        q.sorted;
}

-- The queue with the thread that stops added.
abbrev queued : Kernel → List ℕ → List ℕ
queued k ts = list_insert_ordered (priority_greater k.thread) ts k.current

module _ {k : Kernel} (v : IsValid k) {ts : List ℕ} (q : IsQueue k ts) where
  queued-times : (t : ℕ) → times t (queued k ts) ≡ (if k.current == t then 1 else 0) + times t ts
  queued-times t = count-insert_ordered _ (λ y. y == t) ts k.current

  pub current_not_waiting : times k.current ts ≡ 0
  current_not_waiting = elim (dec_lt 0 (times k.current ts)) [
    | yes p ↦ absurd (running≢blocked (sym v.on_cpu ∙ (q.parked k.current p).stopped))
    | no np ↦ omega arith
  ]

  -- Once the running thread is BLOCKED and in the queue, the queue is in order.
  stopping-IsQueue : k.current ≢ k.idle_thread → IsQueue (stopping k) (queued k ts)
  stopping-IsQueue busy = record {
    parked = λ t p. elim (ℕ_discrete t k.current) [
      | yes e ↦ record {
        stopped = ground (arith, e);
        awake = rw e (current_not_asleep v);
        busy = λ i. busy (sym e ∙ i);
      }
      | no ne ↦
          let old = q.parked t (ground (arith, queued-times t)) in
          record {
            stopped =
                ap (λ (r : Thread). r.status)
                  (if-false (t == k.current) _ _ (==_ne {a = t} {b = k.current} ne))
                ∙ old.stopped;
            awake = old.awake;
            busy = old.busy;
          }
    ];
    once = λ t. ground (arith, queued-times t, q.once t, current_not_waiting);
    sorted =
        IsSorted-cong (priority_greater k.thread) (priority_greater (stopping k).thread)
          (queued k ts) (λ a b p r. ground arith)
          (insert_ordered-IsSorted _ (priority-IsOrder k.thread) ts k.current q.sorted);
  }

  module _ (Q : ℕ → Type 0) (sema : Semaphore) (e : sema.waiters ≡ ts) where
    -- With a value of 0, the running thread goes into the queue and another runs.
    pub sema_down_once-waits :
        sema.value ≡ 0
        → k.intr_context ≡ false
        → k.current ≢ k.idle_thread
        → ((t : ℕ) → Q t → t ≢ k.current)
        → (k' : Kernel) × (sema_down_once k sema
            ≡ some (false, k', record sema { waiters = queued k ts }))
          × IsValid k'
          × IsQueue k' (queued k ts)
          × ((t : ℕ) → Q t → CanRun (k.thread t).status → CanRun (k'.thread t).status)
    unfolding sema_down_once
    sema_down_once-waits z ni busy out =
        let (k', call, s) = thread_block-Switched Any Q v ni in
        let keeps = Switched-Keeps Any Q (stopping-AreQueues v) s in
        let stop = status-Keeps Any Q v k.ready_list blocked (λ t q e. absurd (out t q e)) in
        (
          k',
          assert-true _ _ (not-false ni)
              ∙ if-true (sema.value == 0) _ _ (==_eq z)
              ∙ waited call
              ∙ ap (λ xs. some (false, k', record sema { waiters = queued k xs })) e,
          s.valid,
          Keeps-IsQueue Q (stopping k) k' (queued k ts)
              (record {
                idle = keeps.idle;
                parked = λ t p. keeps.parked t tt;
                priority = λ t p. keeps.priority t tt;
                runnable = keeps.runnable;
              })
              (stopping-IsQueue busy),
          λ t q h. keeps.runnable t q (stop.runnable t q h),
        )
      where
        waited :
            {k' : Kernel}
            → thread_block k ≡ some k'
            → ◌>>=◌ {B = Bool × Kernel × Semaphore}
                (sema_wait k sema)
                (λ (k', sema'). some (false, k', sema'))
              ≡ some (false, k', record sema { waiters = queued k sema.waiters })
        waited call = rw call

    -- With a unit to take, it takes it and runs on.
    pub sema_down_once-takes :
        (n : ℕ)
        → sema.value ≡ suc n
        → k.intr_context ≡ false
        → sema_down_once k sema ≡ some (true, k, record sema { value = n })
    unfolding sema_down_once
    sema_down_once-takes n z ni =
        assert-true _ _ (not-false ni)
        ∙ if-false (sema.value == 0) _ _ (ground (arith, z))
        ∙ ap (λ m. some (true, k, record sema { value = m })) (omega arith)

-- What `sema_up` achieves that leaves the queue `ts`: the threads `ws` that it took off can run.
pub record Upped (k : Kernel) (sema : Semaphore) (ws ts : List ℕ) : Type 0 where
  pub after : Kernel
  pub call :
      sema_up k sema ≡ some (after, record { value = (sema.value + 1) % 2 ^ 32; waiters = ts })
  pub valid : IsValid after
  pub queue : IsQueue after ts
  pub woken : (t : ℕ) → 0 < times t ws → CanRun (after.thread t).status
  pub runnable : (t : ℕ) → CanRun (k.thread t).status → CanRun (after.thread t).status

module _ {k : Kernel} (v : IsValid k) (sema : Semaphore) where
  sema_up-at :
      (ts : List ℕ) (k1 k2 : Kernel)
      → wake_one k sema.waiters ≡ some (k1, ts)
      → thread_check_preempt k1 ≡ some k2
      → sema_up k sema ≡ some (k2, record { value = (sema.value + 1) % 2 ^ 32; waiters = ts })
  unfolding sema_up
  sema_up-at ts k1 k2 a b = rw (a, b)

  wake_one-cons :
      (t : ℕ) (ts : List ℕ) {k1 : Kernel}
      → sema.waiters ≡ t ∷ ts
      → thread_unblock k t ≡ some k1
      → wake_one k sema.waiters ≡ some (k1, ts)
  unfolding wake_one
  wake_one-cons t ts e u = ap (wake_one k) e ∙ ap (λ o. o >>= (λ k'. some (k', ts))) u

  pub sema_up-idle : sema.waiters ≡ [] → Upped k sema [] []
  unfolding wake_one
  sema_up-idle e =
      let y = thread_check_preempt-Kept Any Any v in
      record {
        after = y.after;
        call = sema_up-at [] k y.after (ap (wake_one k) e) y.call;
        valid = y.valid;
        queue = record {
          parked = λ t p. absurd (omega arith);
          once = λ t. omega arith;
          sorted = tt;
        };
        woken = λ t p. absurd (omega arith);
        runnable = λ t. y.keeps.runnable t tt;
      }

  module _ (t : ℕ) (ts : List ℕ) (e : sema.waiters ≡ t ∷ ts) (q : IsQueue k (t ∷ ts)) where
    head_not_behind : (x : ℕ) → 0 < times x ts → x ≢ t
    head_not_behind x p same = absurd (ground (arith, q.once t, p, same))

    pub sema_up-wakes : Upped k sema (t ∷ []) ts
    sema_up-wakes =
        let P : ℕ → Type 0 = λ x. 0 < times x ts in
        let park : Parked k t = q.parked t (ground arith) in
        let keep = thread_unblock-Keeps P Any t park head_not_behind in
        let y = thread_check_preempt-Kept P Any (unblocked-IsValid v t park.stopped park.awake) in
        let keeps = Keeps-trans P Any keep y.keeps in
        record {
          after = y.after;
          call =
              sema_up-at ts (unblocked k t) y.after
                (wake_one-cons t ts e (thread_unblock-some v.queues t park.stopped)) y.call;
          valid = y.valid;
          queue = Keeps-IsQueue Any k y.after ts keeps (record {
            parked = λ x p. q.parked x (omega arith);
            once = λ x. omega (arith, q.once x);
            sorted = q.sorted.1;
          });
          woken = λ x p. y.keeps.runnable x tt (
              subst CanRun
                (sym (ap (λ (r : Thread). r.status) (if-true (x == t) _ _ (ground (arith, p)))))
                tt);
          runnable = λ x. keeps.runnable x tt;
        }
