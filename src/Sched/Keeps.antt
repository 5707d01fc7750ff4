-- ===== src/Sched/Keeps.antt =====
-- What the operations of src/threads/thread.c leave alone: threads that are blocked and wait for
-- something other than a tick.
pub mod Operations
use operating_system.Common.{
  ℕ, ◌+◌, ◌-◌, length, ◌≤◌, ◌<◌, ◌≡◌, ◌≢◌, refl, sym, ap, subst, ◌∙◌, Bool, true, false, Option,
  some, List, [], ◌∷◌, arith, ◌==◌, if◌then◌else◌, Bool-cases, inl, inr, assert-true, if-true,
  if-false, ==_ne, ==_eq,
}
use native.Mathlib.Decide.{ℕ_discrete, dec_lt}
use operating_system.Sched.State.{Status, running, ready, blocked, Thread, Kernel, update_at}
use operating_system.KernelList.Order.{count-insert_ordered}
use operating_system.Sched.{
  remove, set_status, thread_unblock, thread_block, thread_yield, need_yield, thread_check_preempt,
  thread_sleep, thread_wake_up,
}
use operating_system.Sched.Queues.{
  times, AreQueues, IsValid, Switched, schedule-Switched, unblocked, ready-IsSorted_cong,
  sleep-IsSorted_cong, set_status-SameKeys, thread_unblock-some,
}
use operating_system.Sched.Switching.{
  running≢blocked, none_running, current_not_ready, yielding, yielding-AreQueues, thread_yield_lem,
  unblocked-IsValid, not-false,
}
use operating_system.Sched.Alarm.{
  thread_wake_up_lem, sleeping, sleeping-AreQueues, thread_sleep-Switched,
}

-- A thread that is BLOCKED, not asleep, and not the idle thread.
pub record Parked (k : Kernel) (t : ℕ) : Type 0 where
  pub stopped : (k.thread t).status ≡ blocked
  pub awake : times t k.sleep_list ≡ 0
  pub busy : t ≢ k.idle_thread

-- A thread that runs, or will run without another's help.
abbrev pub CanRun : Status → Type 0
CanRun running = Unit
CanRun ready = Unit
CanRun _ = ⊥

-- The threads of `P` that are parked stay so, with their priority; those of `Q` that can run still
-- can.
pub record Keeps (P Q : ℕ → Type 0) (k k' : Kernel) : Type 0 where
  pub idle : k'.idle_thread ≡ k.idle_thread
  pub parked : (t : ℕ) → P t → Parked k t → Parked k' t
  pub priority : (t : ℕ) → P t → Parked k t → (k'.thread t).priority ≡ (k.thread t).priority
  pub runnable : (t : ℕ) → Q t → CanRun (k.thread t).status → CanRun (k'.thread t).status

-- Every thread.
abbrev pub Any : ℕ → Type 0
Any t = Unit

pub Keeps-refl : (P Q : ℕ → Type 0) (k : Kernel) → Keeps P Q k k
Keeps-refl P Q k = record {
  idle = refl;
  parked = λ t p h. h;
  priority = λ t p h. refl;
  runnable = λ t p h. h;
}

pub Keeps-trans :
    (P Q : ℕ → Type 0) {k k1 k2 : Kernel} → Keeps P Q k k1 → Keeps P Q k1 k2 → Keeps P Q k k2
Keeps-trans P Q a b = record {
  idle = b.idle ∙ a.idle;
  parked = λ t p h. b.parked t p (a.parked t p h);
  priority = λ t p h. b.priority t p (a.parked t p h) ∙ a.priority t p h;
  runnable = λ t p h. b.runnable t p (a.runnable t p h);
}

-- `Keeps` from the threads and queues themselves.
pub same_thread-Keeps :
    (P Q : ℕ → Type 0) (k k' : Kernel)
    → k'.idle_thread ≡ k.idle_thread
    → ((t : ℕ) → P t → Parked k t → k'.thread t ≡ k.thread t)
    → ((t : ℕ) → P t → Parked k t → times t k'.sleep_list ≡ 0)
    → ((t : ℕ) → Q t → CanRun (k.thread t).status → CanRun (k'.thread t).status)
    → Keeps P Q k k'
same_thread-Keeps P Q k k' i th sl run = record {
  idle = i;
  parked = λ t p h. record {
    stopped = ap (λ (r : Thread). r.status) (th t p h) ∙ h.stopped;
    awake = sl t p h;
    busy = λ e. h.busy (e ∙ i);
  };
  priority = λ t p h. ap (λ (r : Thread). r.priority) (th t p h);
  runnable = run;
}

pub times-remove :
    (u : ℕ) (xs : List ℕ) (t : ℕ)
    → times t (remove u xs) ≡ (if u == t then times t xs - 1 else times t xs)
unfolding remove
times-remove u [] t = ground arith
times-remove u (x ∷ xs) t = ground (arith, times-remove u xs t)

pub length-remove : (u : ℕ) (xs : List ℕ) → length xs ≤ length (remove u xs) + 1
unfolding remove
length-remove u [] = omega arith
length-remove u (x ∷ xs) = ground (arith, length-remove u xs)

pub length-remove_member :
    (u : ℕ) (xs : List ℕ) → 0 < times u xs → length (remove u xs) + 1 ≡ length xs
unfolding remove
length-remove_member u [] p = absurd (omega arith)
length-remove_member u (x ∷ xs) p = ground (arith, length-remove_member u xs, p)

-- A thread that gets a status in which it can run, among others.
pub set-CanRun :
    (th : ℕ → Thread) (t u : ℕ) (s : Status)
    → (t ≡ u → CanRun s)
    → CanRun (th t).status
    → CanRun (update_at th u (λ r. record r { status = s }) t).status
set-CanRun th t u s ok h = elim (ℕ_discrete t u) [
  | yes e ↦
      subst CanRun (sym (ap (λ (r : Thread). r.status) (if-true (t == u) _ _ (==_eq e)))) (ok e)
  | no ne ↦
      subst CanRun
        (sym (ap (λ (r : Thread). r.status) (if-false (t == u) _ _ (==_ne {a = t} {b = u} ne)))) h
]

-- The thread that is switched to was not parked.
pub Switched-Keeps :
    (P Q : ℕ → Type 0) {k k' : Kernel} → AreQueues k → Switched k k' → Keeps P Q k k'
Switched-Keeps P Q {k} {k'} q s =
    same_thread-Keeps P Q k k' s.idle
      (λ t p h.
        ap (λ (th : ℕ → Thread). th t) s.statuses
        ∙ if-false (t == k'.current) _ _ (==_ne {a = t} {b = k'.current} (other t h)))
      (λ t p h. ap (times t) s.sleepers ∙ h.awake)
      (λ t p h.
        subst (λ (th : ℕ → Thread). CanRun (th t).status) (sym s.statuses)
          (set-CanRun k.thread t k'.current running (λ e. tt) h))
  where
    ready≢blocked : ready ≢ blocked
    ready≢blocked e = cc

    other : (t : ℕ) → Parked k t → t ≢ k'.current
    other t h e = elim s.head [
      | inl front ↦
          ready≢blocked
            (sym (q.ready_status t (subst (λ xs. 0 < times t xs) front (ground arith))) ∙ h.stopped)
      | inr (none_ready, left, idles) ↦ h.busy (e ∙ idles)
    ]

-- A change of the running thread's status.
pub status-Keeps :
    (P Q : ℕ → Type 0) {k : Kernel}
    → IsValid k
    → (xs : List ℕ) (s : Status) → ((t : ℕ) → Q t → t ≡ k.current → CanRun s)
    → Keeps P Q k (set_status (record k { ready_list = xs }) k.current s)
status-Keeps P Q {k} v xs s ok =
    same_thread-Keeps P Q k _ refl
      (λ t p h. if-false (t == k.current) _ _ (
        ==_ne {a = t} {b = k.current} (λ e.
          running≢blocked (sym v.on_cpu ∙ subst (λ x. (k.thread x).status ≡ blocked) e h.stopped))))
      (λ t p h. h.awake) (λ t p. set-CanRun k.thread t k.current s (ok t p))

-- The flags of the interrupt are no part of the invariant.
pub flags-IsValid :
    {k : Kernel} (b c : Bool)
    → IsValid k
    → IsValid (record k { yield_on_return = b; intr_context = c })
flags-IsValid b c v = record {
  queues = record {
    ready_sorted = v.queues.ready_sorted;
    ready_once = v.queues.ready_once;
    ready_status = v.queues.ready_status;
    sleep_sorted = v.queues.sleep_sorted;
    sleep_once = v.queues.sleep_once;
    sleep_status = v.queues.sleep_status;
    idle_awake = v.queues.idle_awake;
  };
  on_cpu = v.on_cpu;
  only = v.only;
}

-- What an operation achieves that returns `r`.
pub record Kept (P Q : ℕ → Type 0) (k : Kernel) (r : Option Kernel) : Type 0 where
  pub after : Kernel
  pub call : r ≡ some after
  pub valid : IsValid after
  pub keeps : Keeps P Q k after

-- The state of a running thread that blocks.
abbrev pub stopping : Kernel → Kernel
stopping k = set_status k k.current blocked

pub stopping-AreQueues : {k : Kernel} → IsValid k → AreQueues (stopping k)
stopping-AreQueues {k} v =
    let th' = (stopping k).thread in
    let keys = set_status-SameKeys k k.current blocked in
    record {
      ready_sorted = ready-IsSorted_cong k.thread th' k.ready_list keys v.queues.ready_sorted;
      ready_once = v.queues.ready_once;
      ready_status = λ x p. ground (arith, v.queues.ready_status x, current_not_ready v);
      sleep_sorted = sleep-IsSorted_cong k.thread th' k.sleep_list keys v.queues.sleep_sorted;
      sleep_once = v.queues.sleep_once;
      sleep_status = λ x p. ground (arith, v.queues.sleep_status x);
      idle_awake = v.queues.idle_awake;
    }
