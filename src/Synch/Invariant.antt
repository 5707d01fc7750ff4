-- ===== src/Synch/Invariant.antt =====
-- The invariant of a semaphore of src/threads/synch.c among the threads of the kernel.
use operating_system.Common.{
  ℕ, suc, zero, ◌+◌, ◌-◌, ◌%◌, ◌^◌, ◌≤◌, ◌<◌, ◌≡◌, ◌≢◌, refl, sym, ap, subst, ◌∙◌, Bool, false,
  Option, some, List, [], ◌∷◌, ◌++◌, arith, ◌==◌, if◌then◌else◌, inl, inr, ◌⊎◌, length, ==_ne, ltb,
  Bool-cases, if-true, if-false, some_injective,
}
use native.Mathlib.Decide.{ℕ_discrete, dec_lt}
use operating_system.Sched.State.{Kernel}
use operating_system.Sched.{remove}
use operating_system.Sched.Queues.{times, IsValid}
use operating_system.Sched.Keeps.{
  Keeps, Keeps-trans, Kept, Any, CanRun, times-remove, length-remove,
}
use operating_system.Sched.Keeps.Operations.{
  thread_yield-Kept, thread_check_preempt-Kept, thread_sleep-Kept, thread_block-Kept,
  thread_unblock-Kept, thread_wake_up-Kept,
}
use operating_system.Synch.{Semaphore, sema_down_once, sema_try_down, sema_up}
use operating_system.Mlfqs.Aging.{aged-IsValid}
use operating_system.Mlfqs.Keeps.{
  aged-Keeps, reset-IsValid, reset-Keeps, thread_aging-call, thread_set_priority-call,
}
use operating_system.Synch.Semaphores.{
  IsQueue, Keeps-IsQueue, sema_down_once-waits, sema_down_once-takes, sema_up-idle, sema_up-wakes,
}
use operating_system.Synch.System.{
  System, head_of, KernelStep, yields, preempts, sleeps, blocks, unblocks, ticks, ages, sets,
  interrupts,
}

pub record Holds (s : System) : Type 0 where
  pub valid : IsValid s.kernel
  pub queue : IsQueue s.kernel s.sema.waiters
  pub alive : (t : ℕ) → 0 < times t s.woken → CanRun (s.kernel.thread t).status
  pub alive_once : (t : ℕ) → times t s.woken ≤ 1
  pub no_lost : (s.sema.waiters ≡ []) ⊎ (s.sema.value ≤ length s.woken)

-- The result of a call is the one that is known.
Kept-at :
    (P Q : ℕ → Type 0) {k : Kernel} {r : Option Kernel} (k' : Kernel)
    → Kept P Q k r
    → r ≡ some k'
    → IsValid k' × Keeps P Q k k'
Kept-at P Q k' kept e =
    subst (λ x. IsValid x × Keeps P Q _ x) (some_injective (sym kept.call ∙ e))
      (kept.valid, kept.keeps)

module _ (s : System) (h : Holds s) where
  abbrev P : ℕ → Type 0
  P t = 0 < times t s.sema.waiters

  abbrev Q : ℕ → Type 0
  Q t = 0 < times t s.woken

  moved : (k' : Kernel) → IsValid k' × Keeps P Q s.kernel k' → Holds (record s { kernel = k' })
  moved k' (valid, keeps) = record {
    valid = valid;
    queue = Keeps-IsQueue Q s.kernel k' s.sema.waiters keeps h.queue;
    alive = λ t p. keeps.runnable t p (h.alive t p);
    alive_once = h.alive_once;
    no_lost = h.no_lost;
  }

  absent : times s.kernel.current s.woken ≡ 0 → (t : ℕ) → Q t → t ≢ s.kernel.current
  absent z t p e = let at_current = subst Q e p in absurd (omega arith)

  pub moves-Holds :
      (k' : Kernel)
      → KernelStep s.kernel s.sema.waiters s.woken k'
      → Holds (record s { kernel = k' })
  moves-Holds k' (yields _ ni e) = moved k' (Kept-at P Q k' (thread_yield-Kept P Q h.valid ni) e)
  moves-Holds k' (preempts _ e) =
      moved k' (Kept-at P Q k' (thread_check_preempt-Kept P Q h.valid) e)
  moves-Holds k' (sleeps _ w ni busy out e) =
      moved k' (Kept-at P Q k' (thread_sleep-Kept P Q h.valid w (==_ne busy) ni (absent out)) e)
  moves-Holds k' (blocks _ ni out e) =
      moved k' (Kept-at P Q k' (thread_block-Kept P Q h.valid ni (absent out)) e)
  moves-Holds k' (unblocks _ t parked out e) = moved k' (
      Kept-at P Q k'
        (thread_unblock-Kept P Q t parked h.valid
          (λ x p same. let at_t = subst P same p in absurd (omega arith)))
        e)
  moves-Holds k' (ticks _ i e) = moved k' (Kept-at P Q k' (thread_wake_up-Kept P Q h.valid i) e)
  moves-Holds k' (ages _ i e) =
      let (valid, keeps) =
        Kept-at P Q k' (thread_check_preempt-Kept P Q (aged-IsValid h.valid))
          (sym (thread_aging-call s.kernel) ∙ e) in
      moved k' (valid, Keeps-trans P Q (aged-Keeps P Q h.valid) keeps)
  moves-Holds k' (sets _ p e) =
      let (valid, keeps) =
        Kept-at P Q k' (thread_check_preempt-Kept P Q (reset-IsValid p h.valid))
          (sym (thread_set_priority-call s.kernel p) ∙ e) in
      moved k' (valid, Keeps-trans P Q (reset-Keeps P Q p h.valid) keeps)
  moves-Holds k' (interrupts b c _ _ _ _) = moved k' (counted, flags)
    where
      counted : IsValid k'
      counted = record {
        queues = record {
          ready_sorted = h.valid.queues.ready_sorted;
          ready_once = h.valid.queues.ready_once;
          ready_status = h.valid.queues.ready_status;
          sleep_sorted = h.valid.queues.sleep_sorted;
          sleep_once = h.valid.queues.sleep_once;
          sleep_status = h.valid.queues.sleep_status;
          idle_awake = h.valid.queues.idle_awake;
        };
        on_cpu = h.valid.on_cpu;
        only = h.valid.only;
      }

      flags : Keeps P Q s.kernel k'
      flags = record {
        idle = refl;
        parked = λ t p h. record { stopped = h.stopped; awake = h.awake; busy = h.busy };
        priority = λ t p h. refl;
        runnable = λ t p h. h;
      }

  -- The state after a test of `value`.
  abbrev pub downed : Bool × Kernel × Semaphore → System
  downed (got, k', sema') = record {
    kernel = k';
    sema = sema';
    woken = remove s.kernel.current s.woken;
  }

  left : (t : ℕ) → 0 < times t (remove s.kernel.current s.woken) → 0 < times t s.woken
  left t p = ground (arith, times-remove s.kernel.current s.woken t)

  left_once : (t : ℕ) → times t (remove s.kernel.current s.woken) ≤ 1
  left_once t = ground (arith, times-remove s.kernel.current s.woken t, h.alive_once t)

  left_others : (t : ℕ) → 0 < times t (remove s.kernel.current s.woken) → t ≢ s.kernel.current
  left_others t p e =
      absurd (ground (arith, times-remove s.kernel.current s.woken t, h.alive_once t, p, e))

  -- One test of `value` does not panic, and keeps the invariant.
  pub downs-Holds :
      s.kernel.intr_context ≡ false
      → s.kernel.current ≢ s.kernel.idle_thread
      → (r : Bool × Kernel × Semaphore) × (sema_down_once s.kernel s.sema ≡ some r)
        × Holds (downed r)
        × (s.sema.value ≡ r.2.value + (if r.0 then 1 else 0))
  downs-Holds ni busy = by_value s.sema.value refl
    where
      by_value :
          (n : ℕ)
          → s.sema.value ≡ n
          → (r : Bool × Kernel × Semaphore) × (sema_down_once s.kernel s.sema ≡ some r)
            × Holds (downed r)
            × (s.sema.value ≡ r.2.value + (if r.0 then 1 else 0))
      by_value zero z =
          let (k', call, valid, queue, run) =
            sema_down_once-waits h.valid h.queue
              (λ t. 0 < times t (remove s.kernel.current s.woken)) s.sema refl z ni busy
              left_others in
          (
            _,
            call,
            record {
              valid = valid;
              queue = queue;
              alive = λ t p. run t p (h.alive t (left t p));
              alive_once = left_once;
              no_lost = inr (omega arith);
            },
            omega arith,
          )
      by_value (suc n) z = (
        _,
        sema_down_once-takes h.valid h.queue Any s.sema refl n z ni,
        record {
          valid = h.valid;
          queue = h.queue;
          alive = λ t p. h.alive t (left t p);
          alive_once = left_once;
          no_lost = elim h.no_lost [
            | inl e ↦ inl e
            | inr le ↦ inr (omega (arith, length-remove s.kernel.current s.woken))
          ];
        },
        omega arith,
      )

  -- The state after `sema_up`.
  abbrev pub upped_to : Kernel × Semaphore → System
  upped_to (k', sema') = record {
    kernel = k';
    sema = sema';
    woken = head_of s.sema.waiters ++ s.woken;
  }

  -- `sema_up` does not panic, and keeps the invariant.
  pub ups-Holds :
      (r : Kernel × Semaphore) × (sema_up s.kernel s.sema ≡ some r)
      × Holds (upped_to r)
      × (r.1.value ≡ (s.sema.value + 1) % 2 ^ 32)
  ups-Holds = by_queue s.sema.waiters refl
    where
      mod_le : (n : ℕ) → n % 2 ^ 32 ≤ n
      mod_le n = omega arith

      cons_nil : {x : ℕ} {xs : List ℕ} → x ∷ xs ≢ []
      cons_nil e = cc

      added :
          {x : ℕ} {xs : List ℕ}
          → s.sema.waiters ≡ x ∷ xs
          → (t : ℕ)
          → times t (head_of s.sema.waiters ++ s.woken)
            ≡ (if x == t then 1 else 0) + times t s.woken
      added e t = ap (λ ys. times t (head_of ys ++ s.woken)) e

      stopped : {x : ℕ} {xs : List ℕ} → IsQueue s.kernel (x ∷ xs) → times x s.woken ≡ 0
      stopped {x} queue = elim (dec_lt 0 (times x s.woken)) [
        | yes p ↦ absurd (subst CanRun (queue.parked x (ground arith)).stopped (h.alive x p))
        | no np ↦ omega arith
      ]

      by_queue :
          (ts : List ℕ)
          → s.sema.waiters ≡ ts
          → (r : Kernel × Semaphore) × (sema_up s.kernel s.sema ≡ some r)
            × Holds (upped_to r)
            × (r.1.value ≡ (s.sema.value + 1) % 2 ^ 32)
      by_queue [] e =
          let u = sema_up-idle h.valid s.sema e in
          (
            _,
            u.call,
            record {
              valid = u.valid;
              queue = u.queue;
              alive = λ t p.
                  u.runnable t (h.alive t (subst (λ xs. 0 < times t (head_of xs ++ s.woken)) e p));
              alive_once =
                  λ t. subst (λ xs. times t (head_of xs ++ s.woken) ≤ 1) (sym e) (h.alive_once t);
              no_lost = inl refl;
            },
            refl,
          )
      by_queue (x ∷ xs) e =
          let queue = subst (IsQueue s.kernel) e h.queue in
          let u = sema_up-wakes h.valid s.sema x xs e queue in
          (
            _,
            u.call,
            record {
              valid = u.valid;
              queue = u.queue;
              alive = λ t p. elim (ℕ_discrete x t) [
                | yes same ↦ u.woken t (ground arith)
                | no ne ↦ u.runnable t (h.alive t (ground (arith, added e t)))
              ];
              alive_once = λ t. ground (arith, added e t, h.alive_once t, stopped queue);
              no_lost = inr (elim h.no_lost [
                | inl none_left ↦ absurd (cons_nil (sym e ∙ none_left))
                | inr le ↦
                    let longer = ap (λ ys. length (head_of ys ++ s.woken)) e in
                    omega (arith, mod_le (s.sema.value + 1))
              ]);
            },
            refl,
          )

  -- `sema_try_down` takes a unit if there is one, and keeps the invariant.
  pub tries-Holds :
      Holds (record s { sema = (sema_try_down s.sema).1 })
      × (s.sema.value
          ≡ (sema_try_down s.sema).1.value + (if (sema_try_down s.sema).0 then 1 else 0))
  unfolding sema_try_down
  tries-Holds = elim (Bool-cases (ltb 0 s.sema.value)) [
    | inl pos_value ↦
        subst Tried (sym (if-true (ltb 0 s.sema.value) _ _ pos_value))
          (lowered (s.sema.value - 1) (omega arith), ground arith)
    | inr no_value ↦ subst Tried (sym (if-false (ltb 0 s.sema.value) _ _ no_value)) (h, omega arith)
  ]
    where
      Tried : Bool × Semaphore → Type 0
      Tried (success, sema') =
          Holds (record s { sema = sema' })
          × (s.sema.value ≡ sema'.value + (if success then 1 else 0))

      lowered : (n : ℕ) → n ≤ s.sema.value → Holds (record s { sema = record s.sema { value = n } })
      lowered n le = record {
        valid = h.valid;
        queue = h.queue;
        alive = h.alive;
        alive_once = h.alive_once;
        no_lost = elim h.no_lost [ inl e ↦ inl e | inr under ↦ inr (omega arith) ];
      }
