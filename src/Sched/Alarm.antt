-- ===== src/Sched/Alarm.antt =====
-- The alarm clock of src/threads/thread.c: `thread_sleep` and `thread_wake_up`.
use operating_system.Common.{
  ℕ, ◌+◌, ◌≤◌, ◌<◌, ◌≡◌, ◌≢◌, refl, sym, ap, subst, ◌∙◌, Bool, true, false, some, List, [], ◌∷◌,
  arith, ◌==◌, ltb, if◌then◌else◌, inl, ◌>>=◌, ◌⊎◌, assert-true, if-true, if-false, lt→ltb, le→ltb,
}
use native.Mathlib.Decide.{ℕ_discrete, dec_lt}
use operating_system.KernelList.{list_insert_ordered}
use operating_system.KernelList.Order.{IsSorted, count-insert_ordered, insert_ordered-IsSorted}
use operating_system.Sched.State.{ready, blocked, Thread, Kernel, update_thread}
use operating_system.Sched.{
  wakeup_tick_less, set_status, thread_block, thread_check_preempt, thread_sleep, wake_from,
  thread_wake_up,
}
use operating_system.Sched.Queues.{
  times, AreQueues, IsValid, IsBest, NoneRunning, Switched, schedule-Switched, IsSorted-cong,
  sleep-IsSorted_cong, wakeup-IsOrder, All-at_times, unblocked, thread_unblock-some,
  unblocked-AreQueues,
}
use operating_system.Sched.Switching.{
  not-false, running≢blocked, current_not_ready, current_not_asleep, thread_check_preempt_intr,
}

-- The state of a thread that is about to sleep until `w`.
abbrev pub sleeping : Kernel → ℕ → Kernel
sleeping k w =
    let k1 = update_thread k k.current (λ r. record r { wakeup_tick = w }) in
    set_status
      (record k1 {
        sleep_list = list_insert_ordered (wakeup_tick_less k1.thread) k1.sleep_list k.current;
      })
      k.current blocked

module _ {k : Kernel} (w : ℕ) (v : IsValid k) (awake : (k.current == k.idle_thread) ≡ false) where
  sleep_count :
      (x : ℕ)
      → times x (sleeping k w).sleep_list ≡ (if k.current == x then 1 else 0) + times x k.sleep_list
  sleep_count x = count-insert_ordered _ (λ y. y == x) k.sleep_list k.current

  pub sleeping-AreQueues : AreQueues (sleeping k w)
  sleeping-AreQueues =
      let k1 : Kernel = update_thread k k.current (λ r. record r { wakeup_tick = w }) in
      record {
        ready_sorted =
            IsSorted-cong _ _ k.ready_list (λ a b p q. ground arith) v.queues.ready_sorted;
        ready_once = v.queues.ready_once;
        ready_status = λ x p. ground (arith, v.queues.ready_status x, current_not_ready v);
        sleep_sorted =
            sleep-IsSorted_cong k1.thread (sleeping k w).thread (sleeping k w).sleep_list
              (λ x. (ground arith, ground arith))
              (insert_ordered-IsSorted _ (wakeup-IsOrder k1.thread) k.sleep_list k.current (
                IsSorted-cong (wakeup_tick_less k.thread) _ k.sleep_list
                  (λ a b p q. ground (arith, current_not_asleep v)) v.queues.sleep_sorted));
        sleep_once =
            λ x. ground (arith, sleep_count x, v.queues.sleep_once x, current_not_asleep v);
        sleep_status = λ x p. ground (arith, sleep_count x, v.queues.sleep_status x);
        idle_awake = ground (arith, sleep_count k.idle_thread, v.queues.idle_awake);
      }

  pub sleeping-NoneRunning : NoneRunning (sleeping k w)
  sleeping-NoneRunning t e = elim (ℕ_discrete t k.current) [
    | yes p ↦ running≢blocked (sym e ∙ ground arith)
    | no np ↦ np (v.only t (ground arith))
  ]

  pub thread_sleep-Switched :
      k.intr_context ≡ false
      → (k' : Kernel) × (thread_sleep k w ≡ some k') × Switched (sleeping k w) k'
  unfolding thread_sleep thread_block
  thread_sleep-Switched ni =
      let (k', s) = schedule-Switched (sleeping k w) sleeping-AreQueues sleeping-NoneRunning in
      (
        k',
        assert-true _ _ (not-false ni)
            ∙ assert-true _ _ (not-false awake)
            ∙ assert-true _ _ (not-false ni)
            ∙ s.call,
        s,
      )

  -- Outside an interrupt, from a state that meets the invariant and by a thread other than the idle
  -- thread, `thread_sleep` does not panic: the thread is BLOCKED and stands once in the sleep queue
  -- with its tick, the invariant holds, and no thread of the run queue is above the running one.
  pub thread_sleep_lem :
      k.intr_context ≡ false
      → (k' : Kernel) × (thread_sleep k w ≡ some k')
        × IsValid k'
        × IsBest k'
        × (times k.current k'.sleep_list ≡ 1)
        × ((k'.thread k.current).wakeup_tick ≡ w)
        × ((k'.thread k.current).status ≡ blocked)
  thread_sleep_lem ni =
      let (k', e, s) = thread_sleep-Switched ni in
      let asleep : times k.current k'.sleep_list ≡ 1 =
        ap (times k.current) s.sleepers
        ∙ ground (arith, sleep_count k.current, current_not_asleep v) in
      (
        k',
        e,
        s.valid,
        s.best,
        asleep,
        ap (λ (th : ℕ → Thread). (th k.current).wakeup_tick) s.statuses ∙ ground arith,
        s.valid.queues.sleep_status k.current (omega arith),
      )

-- `k` with `ts` for its sleep queue.
abbrev with_sleepers : Kernel → List ℕ → Kernel
with_sleepers k ts = record k { sleep_list = ts }

-- One round of the loop: the head of the sleep queue is unblocked.
abbrev one_woken : Kernel → ℕ → List ℕ → Kernel
one_woken k t ts = unblocked (with_sleepers k ts) t

module _ (k : Kernel) (t : ℕ) (ts : List ℕ) (v : IsValid (with_sleepers k (t ∷ ts))) where
  tail_AreQueues : AreQueues (with_sleepers k ts)
  tail_AreQueues = record {
    ready_sorted = v.queues.ready_sorted;
    ready_once = v.queues.ready_once;
    ready_status = v.queues.ready_status;
    sleep_sorted = v.queues.sleep_sorted.1;
    sleep_once = λ x. omega (arith, v.queues.sleep_once x);
    sleep_status = λ x p. v.queues.sleep_status x (omega arith);
    idle_awake = omega (arith, v.queues.idle_awake);
  }

  head_blocked : (k.thread t).status ≡ blocked
  head_blocked = v.queues.sleep_status t (ground arith)

  head_once : times t ts ≡ 0
  head_once = ground (arith, v.queues.sleep_once t)

  head_not_current : t ≢ k.current
  head_not_current e =
      running≢blocked (sym v.on_cpu ∙ subst (λ x. (k.thread x).status ≡ blocked) e head_blocked)

  one_woken-IsValid : IsValid (one_woken k t ts)
  one_woken-IsValid = record {
    queues = unblocked-AreQueues tail_AreQueues t head_blocked head_once;
    on_cpu = ground (arith, v.on_cpu, head_not_current);
    only = λ x e. ground (arith, v.only x);
  }

-- What the loop leaves of a state whose sleep queue was `ts`.
pub record Woken (k : Kernel) (ts : List ℕ) (k' : Kernel) : Type 0 where
  pub valid : IsValid k'
  pub current : k'.current ≡ k.current
  pub context : k'.intr_context ≡ k.intr_context
  pub idle : k'.idle_thread ≡ k.idle_thread
  pub sleepers :
      (x : ℕ)
      → times x k'.sleep_list ≡ (if ltb k.ticks (k.thread x).wakeup_tick then times x ts else 0)
  pub woken :
      (x : ℕ) → 0 < times x ts → (k.thread x).wakeup_tick ≤ k.ticks → (k'.thread x).status ≡ ready
  pub queued :
      (x : ℕ)
      → times x k'.ready_list
        ≡ times x k.ready_list + (if ltb k.ticks (k.thread x).wakeup_tick then 0 else times x ts)
  pub others :
      (x : ℕ) → (times x ts ≡ 0) ⊎ (k.ticks < (k.thread x).wakeup_tick) → k'.thread x ≡ k.thread x

-- A sleeper behind the head wakes no earlier.
later_wakeup :
    (k : Kernel) (t : ℕ) (ts : List ℕ) (x : ℕ)
    → IsSorted (wakeup_tick_less k.thread) (t ∷ ts)
    → 0 < times x (t ∷ ts)
    → (k.thread t).wakeup_tick ≤ (k.thread x).wakeup_tick
later_wakeup k t ts x s p = elim (ℕ_discrete t x) [
  | yes e ↦ subst (λ y. (k.thread t).wakeup_tick ≤ (k.thread y).wakeup_tick) e (omega arith)
  | no ne ↦
      let h = All-at_times (λ y. wakeup_tick_less k.thread y t ≡ false) ts s.0 x (ground arith) in
      ground arith
]

wake_from-Woken :
    (k : Kernel) (ts : List ℕ)
    → IsValid (with_sleepers k ts)
    → (k' : Kernel) × (wake_from k ts ≡ some k') × Woken k ts k'
unfolding wake_from
wake_from-Woken k [] v = (
  with_sleepers k [],
  refl,
  record {
    valid = v;
    current = refl;
    context = refl;
    idle = refl;
    sleepers = λ x. ground arith;
    woken = λ x p h. absurd (omega arith);
    queued = λ x. ground arith;
    others = λ x h. refl;
  },
)
wake_from-Woken k (t ∷ ts) v = elim (dec_lt k.ticks (k.thread t).wakeup_tick) [
  | yes h ↦ (
    with_sleepers k (t ∷ ts),
    if-true _ _ _ (lt→ltb k.ticks (k.thread t).wakeup_tick h),
    record {
      valid = v;
      current = refl;
      context = refl;
      idle = refl;
      sleepers = λ x. ground (arith, later_wakeup k t ts x v.queues.sleep_sorted);
      woken = λ x p q. absurd (omega (arith, later_wakeup k t ts x v.queues.sleep_sorted p));
      queued = λ x. ground (arith, later_wakeup k t ts x v.queues.sleep_sorted);
      others = λ x o. refl;
    },
  )
  | no h ↦
      let k2 = one_woken k t ts in
      let (k', e, w) = wake_from-Woken k2 ts (one_woken-IsValid k t ts v) in
      let added : (x : ℕ)
          → times x k2.ready_list ≡ (if t == x then 1 else 0) + times x k.ready_list =
        λ x. count-insert_ordered _ (λ y. y == x) k.ready_list t in
      (
        k',
        if-false _ _ _ (le→ltb k.ticks (k.thread t).wakeup_tick (omega arith))
            ∙ (ap (λ m. m >>= λ s. wake_from s ts)
                  (thread_unblock-some (tail_AreQueues k t ts v) t (head_blocked k t ts v))
                ∙ e),
        record {
          valid = w.valid;
          current = w.current;
          context = w.context;
          idle = w.idle;
          sleepers = λ x. w.sleepers x ∙ ground arith;
          woken = λ x p q. elim (ℕ_discrete x t) [
            | yes same ↦
                subst (λ y. (k'.thread y).status ≡ ready) (sym same)
                  (ap (λ (r : Thread). r.status) (w.others t (inl (head_once k t ts v)))
                    ∙ ground arith)
            | no ne ↦ w.woken x (ground arith) (ground arith)
          ];
          queued = λ x. w.queued x ∙ ground (arith, added x, head_once k t ts v);
          others = λ x o. w.others x (ground arith) ∙ ground arith;
        },
      )
]

flagged-Woken :
    (k : Kernel) (ts : List ℕ) (k' : Kernel) (b : Bool)
    → Woken k ts k'
    → Woken k ts (record k' { yield_on_return = b })
flagged-Woken k ts k' b w = record {
  valid = record {
    queues = record {
      ready_sorted = w.valid.queues.ready_sorted;
      ready_once = w.valid.queues.ready_once;
      ready_status = w.valid.queues.ready_status;
      sleep_sorted = w.valid.queues.sleep_sorted;
      sleep_once = w.valid.queues.sleep_once;
      sleep_status = w.valid.queues.sleep_status;
      idle_awake = w.valid.queues.idle_awake;
    };
    on_cpu = w.valid.on_cpu;
    only = w.valid.only;
  };
  current = w.current;
  context = w.context;
  idle = w.idle;
  sleepers = w.sleepers;
  woken = w.woken;
  queued = w.queued;
  others = w.others;
}

-- From a state that meets the invariant, in an interrupt, `thread_wake_up` never panics and the
-- same thread stays the running one; exactly the sleepers whose tick has come leave the sleep queue
-- for the run queue and are READY there, every other thread is as before, and the invariant holds.
pub thread_wake_up_lem :
    (k : Kernel)
    → IsValid k
    → k.intr_context ≡ true
    → (k' : Kernel) × (thread_wake_up k ≡ some k') × Woken k k.sleep_list k'
unfolding thread_wake_up
thread_wake_up_lem k v i =
    let (k', e, w) = wake_from-Woken k k.sleep_list v in
    (
      _,
      ap (λ m. m >>= thread_check_preempt) e ∙ thread_check_preempt_intr k' (w.context ∙ i),
      flagged-Woken k k.sleep_list k' _ w,
    )
