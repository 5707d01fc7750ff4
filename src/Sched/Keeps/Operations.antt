-- ===== src/Sched/Keeps/Operations.antt =====
-- The operations of src/threads/thread.c, one by one: the threads that they leave parked, and those
-- that still can run.
use operating_system.Common.{
  ℕ, ◌≡◌, ◌≢◌, refl, sym, subst, ◌∙◌, true, false, some, arith, ◌==◌, Bool-cases, inl, inr,
  assert-true, if-true, if-false, ==_ne,
}
use native.Mathlib.Decide.{dec_lt}
use operating_system.Sched.State.{ready, blocked, Thread, Kernel}
use operating_system.KernelList.Order.{count-insert_ordered}
use operating_system.Sched.{
  thread_unblock, thread_block, thread_yield, need_yield, thread_check_preempt, thread_sleep,
  thread_wake_up,
}
use operating_system.Sched.Queues.{
  times, IsValid, Switched, schedule-Switched, unblocked, thread_unblock-some,
}
use operating_system.Sched.Switching.{
  running≢blocked, none_running, yielding, yielding-AreQueues, thread_yield_lem, unblocked-IsValid,
  not-false,
}
use operating_system.Sched.Alarm.{
  thread_wake_up_lem, sleeping, sleeping-AreQueues, thread_sleep-Switched,
}
use operating_system.Sched.Keeps.{
  Parked, Keeps, CanRun, Keeps-refl, Keeps-trans, same_thread-Keeps, set-CanRun, Switched-Keeps,
  status-Keeps, flags-IsValid, Kept, stopping, stopping-AreQueues,
}

module _ (P Q : ℕ → Type 0) {k : Kernel} (v : IsValid k) where
  pub thread_yield-Kept : k.intr_context ≡ false → Kept P Q k (thread_yield k)
  thread_yield-Kept ni =
      let (k', e, valid, best, s) = thread_yield_lem v ni in
      record {
        after = k';
        call = e;
        valid = valid;
        keeps =
            Keeps-trans P Q (status-Keeps P Q v (yielding k).ready_list ready (λ t p e. tt))
              (Switched-Keeps P Q (yielding-AreQueues k v) s);
      }

  -- In an interrupt it asks for a yield, outside one it yields, and only if need be.
  pub thread_check_preempt-Kept : Kept P Q k (thread_check_preempt k)
  unfolding thread_check_preempt
  thread_check_preempt-Kept = elim (Bool-cases (need_yield k)) [
    | inr t ↦ record { after = k; call = if-false _ _ _ t; valid = v; keeps = Keeps-refl P Q k }
    | inl t ↦ elim (Bool-cases k.intr_context) [
      | inl i ↦ record {
        after = record k { yield_on_return = true };
        call = if-true _ _ _ t ∙ if-true _ _ _ i;
        valid = flags-IsValid true k.intr_context v;
        keeps = flag-Keeps;
      }
      | inr i ↦
          let y = thread_yield-Kept i in
          record {
            after = y.after;
            call = if-true _ _ _ t ∙ if-false _ _ _ i ∙ y.call;
            valid = y.valid;
            keeps = y.keeps;
          }
    ]
  ]
    where
      flag-Keeps : Keeps P Q k (record k { yield_on_return = true })
      flag-Keeps = same_thread-Keeps P Q k _ refl (λ t p h. refl) (λ t p h. h.awake) (λ t p h. h)

  -- `thread_block`: the running thread is BLOCKED, and another runs.
  pub thread_block-Switched :
      k.intr_context ≡ false → (k' : Kernel) × (thread_block k ≡ some k') × Switched (stopping k) k'
  unfolding thread_block
  thread_block-Switched ni =
      let (k', s) =
        schedule-Switched (stopping k) (stopping-AreQueues v)
          (none_running v blocked (λ e. running≢blocked (sym e))) in
      (k', assert-true _ _ (not-false ni) ∙ s.call, s)

  pub thread_block-Kept :
      k.intr_context ≡ false → ((t : ℕ) → Q t → t ≢ k.current) → Kept P Q k (thread_block k)
  thread_block-Kept ni out =
      let (k', e, s) = thread_block-Switched ni in
      record {
        after = k';
        call = e;
        valid = s.valid;
        keeps =
            Keeps-trans P Q (status-Keeps P Q v k.ready_list blocked (λ t q e. absurd (out t q e)))
              (Switched-Keeps P Q (stopping-AreQueues v) s);
      }

  CanRun-awake : (t : ℕ) → CanRun (k.thread t).status → times t k.sleep_list ≡ 0
  CanRun-awake t h = elim (dec_lt 0 (times t k.sleep_list)) [
    | yes p ↦ absurd (subst CanRun (v.queues.sleep_status t p) h)
    | no np ↦ omega arith
  ]

  -- Waking sleepers touches no parked thread.
  pub thread_wake_up-Kept : k.intr_context ≡ true → Kept P Q k (thread_wake_up k)
  thread_wake_up-Kept i =
      let (k', e, w) = thread_wake_up_lem k v i in
      record {
        after = k';
        call = e;
        valid = w.valid;
        keeps =
            same_thread-Keeps P Q k k' w.idle (λ t p h. w.others t (inl h.awake))
              (λ t p h. w.sleepers t ∙ ground (arith, h.awake))
              (λ t q h.
                subst (λ (r : Thread). CanRun r.status) (sym (w.others t (inl (CanRun-awake t h))))
                  h);
      }

  pub thread_sleep-Kept :
      (w : ℕ)
      → (k.current == k.idle_thread) ≡ false
      → k.intr_context ≡ false
      → ((t : ℕ) → Q t → t ≢ k.current)
      → Kept P Q k (thread_sleep k w)
  thread_sleep-Kept w awake ni out =
      let (k', e, s) = thread_sleep-Switched w v awake ni in
      record {
        after = k';
        call = e;
        valid = s.valid;
        keeps =
            Keeps-trans P Q
              (same_thread-Keeps P Q k (sleeping k w) refl
                (λ t p h. let ne = apart t h in ground arith)
                (λ t p h.
                  let ne = apart t h in
                  count-insert_ordered _ (λ y. y == t) k.sleep_list k.current
                  ∙ ground (arith, h.awake))
                (λ t q h. let ne = out t q in ground arith))
              (Switched-Keeps P Q (sleeping-AreQueues w v awake) s);
      }
    where
      apart : (t : ℕ) → Parked k t → t ≢ k.current
      apart t h e =
          running≢blocked (sym v.on_cpu ∙ subst (λ x. (k.thread x).status ≡ blocked) e h.stopped)

-- `thread_unblock` of one parked thread leaves the others parked.
module _ (P Q : ℕ → Type 0) {k : Kernel} (t : ℕ) (h : Parked k t) where
  pub thread_unblock-Keeps : ((x : ℕ) → P x → x ≢ t) → Keeps P Q k (unblocked k t)
  thread_unblock-Keeps others =
      same_thread-Keeps P Q k (unblocked k t) refl
        (λ x p g. if-false (x == t) _ _ (==_ne {a = x} {b = t} (others x p))) (λ x p g. g.awake)
        (λ x q. set-CanRun k.thread x t ready (λ e. tt))

  pub thread_unblock-Kept : IsValid k → ((x : ℕ) → P x → x ≢ t) → Kept P Q k (thread_unblock k t)
  thread_unblock-Kept v others = record {
    after = unblocked k t;
    call = thread_unblock-some v.queues t h.stopped;
    valid = unblocked-IsValid v t h.stopped h.awake;
    keeps = thread_unblock-Keeps others;
  }
