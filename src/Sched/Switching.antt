-- ===== src/Sched/Switching.antt =====
-- Yielding, preemption, sleeping and waking in src/threads/thread.c.
use operating_system.Common.{
  ℕ, ◌+◌, ◌<◌, ◌≡◌, ◌≢◌, refl, sym, ap, subst, ◌∙◌, Bool, true, false, some, List, [], ◌∷◌, arith,
  ◌==◌, if◌then◌else◌, Bool-cases, inl, inr, not, assert-true, if-true, if-false,
}
use native.Mathlib.Decide.{ℕ_discrete, dec_lt}
use operating_system.KernelList.{list_insert_ordered}
use operating_system.KernelList.Order.{IsSorted, count-insert_ordered}
use operating_system.Sched.State.{Status, running, ready, blocked, Kernel}
use operating_system.Sched.{
  priority_greater, set_status, thread_unblock, schedule, thread_yield, need_yield,
  thread_check_preempt,
}
use operating_system.Sched.Queues.{
  times, AreQueues, IsValid, IsBest, NoneRunning, Switched, schedule-Switched, ready_added,
  ready-IsSorted_cong, sleep-IsSorted_cong, set_status-SameKeys, priority-IsOrder, All-at_times,
  unblocked, thread_unblock-some, unblocked-AreQueues,
}

running≢ready : running ≢ ready
running≢ready e = cc

pub running≢blocked : running ≢ blocked
running≢blocked e = cc

-- The running thread stands in no queue.
module _ {k : Kernel} (v : IsValid k) where
  pub current_not_ready : times k.current k.ready_list ≡ 0
  current_not_ready = elim (dec_lt 0 (times k.current k.ready_list)) [
    | yes p ↦ absurd (running≢ready (sym v.on_cpu ∙ v.queues.ready_status k.current p))
    | no np ↦ omega arith
  ]

  pub current_not_asleep : times k.current k.sleep_list ≡ 0
  current_not_asleep = elim (dec_lt 0 (times k.current k.sleep_list)) [
    | yes p ↦ absurd (running≢blocked (sym v.on_cpu ∙ v.queues.sleep_status k.current p))
    | no np ↦ omega arith
  ]

  -- Once the running thread has another status, none is running.
  pub none_running : (s : Status) → s ≢ running → NoneRunning (set_status k k.current s)
  none_running s ne t e = elim (ℕ_discrete t k.current) [
    | yes p ↦ ne (ground arith)
    | no np ↦ np (v.only t (ground arith))
  ]

  -- The running thread gets READY and does not enter the run queue (only the idle thread does so).
  yield_idle-AreQueues : AreQueues (set_status k k.current ready)
  yield_idle-AreQueues =
      let th' = (set_status k k.current ready).thread in
      let keys = set_status-SameKeys k k.current ready in
      record {
        ready_sorted = ready-IsSorted_cong k.thread th' k.ready_list keys v.queues.ready_sorted;
        ready_once = v.queues.ready_once;
        ready_status = λ x p. ground (arith, v.queues.ready_status x);
        sleep_sorted = sleep-IsSorted_cong k.thread th' k.sleep_list keys v.queues.sleep_sorted;
        sleep_once = v.queues.sleep_once;
        sleep_status = λ x p. ground (arith, v.queues.sleep_status x, current_not_asleep);
        idle_awake = v.queues.idle_awake;
      }

pub not-false : {b : Bool} → b ≡ false → not b ≡ true
not-false h = rw h

-- The state of a thread that is about to give up the processor.
abbrev pub yielding : Kernel → Kernel
yielding k =
    set_status
      (record k {
        ready_list =
            if k.current == k.idle_thread
            then k.ready_list
            else list_insert_ordered (priority_greater k.thread) k.ready_list k.current;
      })
      k.current ready

pub yielding-AreQueues : (k : Kernel) → IsValid k → AreQueues (yielding k)
yielding-AreQueues k v = elim (Bool-cases (k.current == k.idle_thread)) [
  | inl e ↦ rw e (yield_idle-AreQueues v)
  | inr e ↦
      let r =
        ready_added k k.current (set_status k k.current ready).thread v.queues
          (λ st. running≢ready (sym v.on_cpu ∙ st)) (set_status-SameKeys k k.current ready)
          (ground arith) (λ x ne. ground arith) in
      let i = yield_idle-AreQueues v in
      rw e (record {
        ready_sorted = r.0;
        ready_once = r.1;
        ready_status = r.2;
        sleep_sorted = i.sleep_sorted;
        sleep_once = i.sleep_once;
        sleep_status = i.sleep_status;
        idle_awake = i.idle_awake;
      })
]

-- Outside an interrupt, from a state that meets the invariant, `thread_yield` does not panic, the
-- invariant holds afterwards, no thread of the run queue is above the running one, and the threads
-- that run or wait are those of before.
pub thread_yield_lem :
    {k : Kernel}
    → IsValid k
    → k.intr_context ≡ false
    → (k' : Kernel) × (thread_yield k ≡ some k') × IsValid k' × IsBest k' × Switched (yielding k) k'
unfolding thread_yield
thread_yield_lem {k} v ni =
    let (k', s) =
      schedule-Switched (yielding k) (yielding-AreQueues k v)
        (none_running v ready (λ e. running≢ready (sym e))) in
    (k', assert-true _ (schedule (yielding k)) (not-false ni) ∙ s.call, s.valid, s.best, s)

-- The head of the run queue is not above the running thread: then none is.
IsBest-of_head :
    (k : Kernel) (xs : List ℕ)
    → k.ready_list ≡ xs
    → IsSorted (priority_greater k.thread) xs
    → need_yield k ≡ false
    → IsBest k
unfolding need_yield
IsBest-of_head k [] e s h t p = absurd (omega (arith, ap (times t) e))
IsBest-of_head k (x ∷ xs) e s h t p =
    let top : priority_greater k.thread x k.current ≡ false = rw e at h in
    let p' : 0 < times t (x ∷ xs) = subst (λ ys. 0 < times t ys) e p in
    elim (ℕ_discrete x t) [
      | yes same ↦ subst (λ y. priority_greater k.thread y k.current ≡ false) same top
      | no ne ↦
          (priority-IsOrder k.thread).not_trans k.current x t top
            (All-at_times (λ y. priority_greater k.thread y x ≡ false) xs s.0 t (ground arith))
    ]

-- Outside an interrupt, from a state that meets the invariant, `thread_check_preempt` never panics,
-- the invariant holds afterwards and no thread of the run queue has a higher priority than the
-- running one; it changes nothing if no yield was needed.
pub thread_check_preempt_lem :
    {k : Kernel}
    → IsValid k
    → k.intr_context ≡ false
    → (k' : Kernel) × (thread_check_preempt k ≡ some k')
      × IsValid k'
      × IsBest k'
      × (need_yield k ≡ false → k' ≡ k)
unfolding thread_check_preempt
thread_check_preempt_lem {k} v ni = elim (Bool-cases (need_yield k)) [
  | inl t ↦
      let (k', e, valid, best, s) = thread_yield_lem v ni in
      (
        k',
        if-true (need_yield k) _ _ t ∙ if-false k.intr_context _ _ ni ∙ e,
        valid,
        best,
        λ h. absurd (clash (sym t ∙ h)),
      )
  | inr t ↦ (k, rw t, v, IsBest-of_head k k.ready_list refl v.queues.ready_sorted t, λ h. refl)
]
  where
    clash : true ≢ false
    clash h = cc

-- Inside an interrupt handler it never switches: it asks for a yield at the end of the interrupt
-- exactly when the head of the run queue is above the running thread.
pub thread_check_preempt_intr :
    (k : Kernel)
    → k.intr_context ≡ true
    → thread_check_preempt k
      ≡ some (record k { yield_on_return = if need_yield k then true else k.yield_on_return })
unfolding thread_check_preempt
thread_check_preempt_intr k i = elim (Bool-cases (need_yield k)) [
  | inl t ↦ ground arith
  | inr t ↦ ground arith
]

pub unblocked-IsValid :
    {k : Kernel} (v : IsValid k) (t : ℕ)
    → (k.thread t).status ≡ blocked
    → times t k.sleep_list ≡ 0
    → IsValid (unblocked k t)
unblocked-IsValid {k} v t st out = record {
  queues = unblocked-AreQueues v.queues t st out;
  on_cpu = elim (ℕ_discrete k.current t) [
    | yes e ↦
        absurd
          (running≢blocked (sym v.on_cpu ∙ subst (λ y. (k.thread y).status ≡ blocked) (sym e) st))
    | no ne ↦ ground (arith, v.on_cpu)
  ];
  only = λ x e. ground (arith, v.only x);
}

-- From a state that meets the invariant, `thread_unblock` of a BLOCKED thread outside the sleep
-- queue does not panic and keeps the running thread; the thread is READY and enters the run queue
-- once, and the invariant holds.
pub thread_unblock_lem :
    {k : Kernel} (v : IsValid k) (t : ℕ)
    → (k.thread t).status ≡ blocked
    → times t k.sleep_list ≡ 0
    → (k' : Kernel) × (thread_unblock k t ≡ some k')
      × IsValid k'
      × (k'.current ≡ k.current)
      × ((k'.thread t).status ≡ ready)
      × ((x : ℕ) → times x k'.ready_list ≡ (if t == x then 1 else 0) + times x k.ready_list)
thread_unblock_lem {k} v t st out = (
  unblocked k t,
  thread_unblock-some v.queues t st,
  unblocked-IsValid v t st out,
  refl,
  ground arith,
  λ x. count-insert_ordered _ (λ y. y == x) k.ready_list t,
)
