-- ===== src/Mlfqs/Keeps.antt =====
-- The changes of a thread's priority in src/threads/thread.c that leave BLOCKED threads alone.
use operating_system.Common.{
  ℕ, ◌<◌, ◌≡◌, ◌≢◌, refl, sym, subst, ◌∙◌, ap₂, false, ltb, if-false, arith,
}
use native.Mathlib.Decide.{dec_lt}
use operating_system.Common.Int.{ℤ}
use operating_system.Sched.State.{Kernel, ready, blocked}
use operating_system.Sched.{priority_greater, set_priority, thread_check_preempt}
use operating_system.Sched.Queues.{times, IsValid, IsSorted-cong}
use operating_system.Sched.Switching.{running≢blocked, current_not_ready}
use operating_system.Sched.Keeps.{Parked, Keeps, CanRun, same_thread-Keeps}
use operating_system.Mlfqs.{thread_aging, thread_set_priority}
use operating_system.Mlfqs.Aging.{aged, aged_thread, aged_status}

-- The state in which `thread_set_priority` tests for preemption.
abbrev pub reset : Kernel → ℤ → Kernel
reset k p = set_priority k k.current p

pub thread_aging-call : (k : Kernel) → thread_aging k ≡ thread_check_preempt (aged k)
unfolding thread_aging
thread_aging-call k = refl

pub thread_set_priority-call :
    (k : Kernel) (p : ℤ) → thread_set_priority k p ≡ thread_check_preempt (reset k p)
unfolding thread_set_priority
thread_set_priority-call k p = refl

ready≢blocked : ready ≢ blocked
ready≢blocked e = cc

ltb_zero : {n : ℕ} → n ≡ 0 → ltb 0 n ≡ false
ltb_zero {n} e = ground arith

module _ (P Q : ℕ → Type 0) {k : Kernel} (v : IsValid k) where
  not_ready : (t : ℕ) → Parked k t → times t k.ready_list ≡ 0
  not_ready t h = elim (dec_lt 0 (times t k.ready_list)) [
    | yes p ↦ absurd (ready≢blocked (sym (v.queues.ready_status t p) ∙ h.stopped))
    | no np ↦ omega arith
  ]

  -- `thread_aging` changes threads of the run queue only.
  pub aged-Keeps : Keeps P Q k (aged k)
  aged-Keeps =
      same_thread-Keeps P Q k (aged k) refl
        (λ t p h.
          aged_thread v t ∙ if-false (ltb 0 (times t k.ready_list)) _ _ (ltb_zero (not_ready t h)))
        (λ t p h. h.awake) (λ t p. subst CanRun (sym (aged_status v t)))

module _ {k : Kernel} (p : ℤ) (v : IsValid k) where
  reset_status : (t : ℕ) → ((reset k p).thread t).status ≡ (k.thread t).status
  reset_status t = ground arith

  reset_wakeup : (t : ℕ) → ((reset k p).thread t).wakeup_tick ≡ (k.thread t).wakeup_tick
  reset_wakeup t = ground arith

  reset_other : (t : ℕ) → t ≢ k.current → (reset k p).thread t ≡ k.thread t
  reset_other t ne = ground arith

  queued : (t : ℕ) → 0 < times t k.ready_list → t ≢ k.current
  queued t q e =
      let at_current = subst (λ x. 0 < times x k.ready_list) e q in
      absurd (omega (arith, current_not_ready v, at_current))

  pub reset-IsValid : IsValid (reset k p)
  reset-IsValid = record {
    queues = record {
      ready_sorted =
          IsSorted-cong (priority_greater k.thread) (priority_greater (reset k p).thread)
            k.ready_list (λ a b q r. rw (reset_other a (queued a q), reset_other b (queued b r)))
            v.queues.ready_sorted;
      ready_once = v.queues.ready_once;
      ready_status = λ x q. reset_status x ∙ v.queues.ready_status x q;
      sleep_sorted =
          IsSorted-cong _ _ k.sleep_list
            (λ a b q r. ap₂ (λ (m n : ℕ). ltb m n) (reset_wakeup a) (reset_wakeup b))
            v.queues.sleep_sorted;
      sleep_once = v.queues.sleep_once;
      sleep_status = λ x q. reset_status x ∙ v.queues.sleep_status x q;
      idle_awake = v.queues.idle_awake;
    };
    on_cpu = reset_status k.current ∙ v.on_cpu;
    only = λ x e. v.only x (sym (reset_status x) ∙ e);
  }

module _ (P Q : ℕ → Type 0) {k : Kernel} (p : ℤ) (v : IsValid k) where
  -- The running thread is not BLOCKED.
  pub reset-Keeps : Keeps P Q k (reset k p)
  reset-Keeps =
      same_thread-Keeps P Q k (reset k p) refl
        (λ t q h. reset_other p v t (λ e.
          running≢blocked (sym v.on_cpu ∙ subst (λ x. (k.thread x).status ≡ blocked) e h.stopped)))
        (λ t q h. h.awake) (λ t q. subst CanRun (sym (reset_status p v t)))
