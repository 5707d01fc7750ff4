-- ===== src/Synch/Progress.antt =====
-- What the invariant of a semaphore of src/threads/synch.c gives in every state that is reached.
use operating_system.Common.{
  ℕ, ◌+◌, ◌-◌, ◌%◌, ◌^◌, ◌≤◌, ◌<◌, ◌≡◌, refl, sym, subst, ◌∙◌, Bool, true, false, some, List, [],
  ◌∷◌, arith, inl, inr, ◌⊎◌, length, All, some_injective,
}
use operating_system.Sched.State.{Kernel}
use operating_system.Sched.{priority_greater}
use operating_system.Sched.Queues.{times, IsValid}
use operating_system.Sched.Keeps.{CanRun, Any}
use operating_system.Synch.{Semaphore, sema_init, sema_down_once, sema_up}
use operating_system.Synch.Semaphores.{IsQueue, sema_up-wakes, sema_down_once-takes}
use operating_system.Synch.System.{System, Step, downs, ups, tries, moves, Reach, starts, then_}
use operating_system.Synch.Invariant.{
  Holds, downs-Holds, ups-Holds, tries-Holds, downed, upped_to, moves-Holds,
}

pub Step-Holds : (s s' : System) → Step s s' → Holds s → Holds s'
Step-Holds s _ (downs got k' sema' ni busy call) h =
    let (r, call', h', units) = downs-Holds s h ni busy in
    subst (λ r. Holds (downed s h r)) (some_injective (sym call' ∙ call)) h'
Step-Holds s _ (ups k' sema' call) h =
    let (r, call', h', units) = ups-Holds s h in
    subst (λ r. Holds (upped_to s h r)) (some_injective (sym call' ∙ call)) h'
Step-Holds s _ (tries success sema' call) h =
    subst (λ (r : Bool × Semaphore). Holds (record s { sema = r.1 })) call (tries-Holds s h).0
Step-Holds s _ (moves k' m) h = moves-Holds s h k' m

-- In every state that the steps of a semaphore lead to from `sema_init` in a valid kernel, where
-- `thread_mlfqs` is off, the kernel is valid; the waiters are BLOCKED, once each and sorted by
-- priority; the woken threads are READY or RUNNING, once each; and nobody waits or the value is at
-- most the number of woken threads.
pub Reach-Holds : (k : Kernel) (value : ℕ) (s : System) → IsValid k → Reach k value s → Holds s
unfolding sema_init
Reach-Holds k value s v starts = record {
  valid = v;
  queue = record { parked = λ t p. absurd (omega arith); once = λ t. omega arith; sorted = tt };
  alive = λ t p. absurd (omega arith);
  alive_once = λ t. omega arith;
  no_lost = inl refl;
}
Reach-Holds k value s v (then_ s0 _ r step) = Step-Holds s0 s step (Reach-Holds k value s0 v r)

some_member : (xs : List ℕ) → 0 < length xs → (t : ℕ) × (0 < times t xs)
some_member [] p = absurd (omega arith)
some_member (x ∷ xs) p = (x, ground arith)

-- A woken thread that can run, and a test of `value` that succeeds.
abbrev pub HasWakeup : System → Type 0
HasWakeup s =
    (t : ℕ) × (0 < times t s.woken)
    × CanRun (s.kernel.thread t).status
    × (sema_down_once s.kernel s.sema
        ≡ some (true, s.kernel, record s.sema { value = s.sema.value - 1 }))

pub Holds-wakeup :
    (s : System) (waiting : ℕ)
    → Holds s
    → 0 < times waiting s.sema.waiters
    → 0 < s.sema.value
    → s.kernel.intr_context ≡ false
    → HasWakeup s
Holds-wakeup s waiting h p unit ni =
    let (t, q) = some_member s.woken (enough h.no_lost) in
    (
      t,
      q,
      h.alive t q,
      sema_down_once-takes h.valid h.queue Any s.sema refl (s.sema.value - 1) (omega arith) ni,
    )
  where
    enough : (s.sema.waiters ≡ []) ⊎ (s.sema.value ≤ length s.woken) → 0 < length s.woken
    enough (inl e) = let none_left = subst (λ xs. 0 < times waiting xs) e p in absurd (omega arith)
    enough (inr le) = omega arith

-- In every state that the steps of a semaphore lead to from `sema_init` in a valid kernel, if a
-- thread waits, the value is above 0 and no interrupt is being handled, then a thread that
-- `sema_up` has woken is READY or RUNNING and has not tested the value since, and a test of the
-- value now takes a unit.
pub no_lost_wakeup :
    (k : Kernel) (value : ℕ) (s : System) (waiting : ℕ)
    → IsValid k
    → Reach k value s
    → 0 < times waiting s.sema.waiters
    → 0 < s.sema.value
    → s.kernel.intr_context ≡ false
    → HasWakeup s
no_lost_wakeup k value s waiting v r p unit ni =
    Holds-wakeup s waiting (Reach-Holds k value s v r) p unit ni

-- In every state that the steps of a semaphore lead to from `sema_init` in a valid kernel, where
-- `thread_mlfqs` is off, if threads wait, no waiter has a higher priority than the first, and
-- `sema_up` does not panic, takes the first off the queue and adds one to the value modulo 2^32;
-- that thread is then READY or RUNNING and the kernel is valid.
pub sema_up_lem :
    (k : Kernel) (value : ℕ) (s : System) (t : ℕ) (ts : List ℕ)
    → IsValid k
    → Reach k value s
    → s.sema.waiters ≡ t ∷ ts
    → All (λ u. priority_greater s.kernel.thread u t ≡ false) ts
      × ((k' : Kernel) × (sema_up s.kernel s.sema
            ≡ some (k', record { value = (s.sema.value + 1) % 2 ^ 32; waiters = ts }))
          × CanRun (k'.thread t).status
          × IsValid k')
sema_up_lem k value s t ts v r e =
    let h = Reach-Holds k value s v r in
    let queue = subst (IsQueue s.kernel) e h.queue in
    let u = sema_up-wakes h.valid s.sema t ts e queue in
    (queue.sorted.0, (u.after, u.call, u.woken t (ground arith), u.valid))
