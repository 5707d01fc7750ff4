-- ===== src/Synch/Mutex.antt =====
-- Mutual exclusion and progress for the locks of src/threads/synch.c.
use operating_system.Common.{
  ℕ, ◌+◌, ◌<◌, ◌≡◌, refl, sym, ap, subst, ◌∙◌, Bool, true, false, Option, none, some, List, [], ◌∷◌,
  ◌++◌, arith, inl, length, not, some_injective, assert-passed, if◌then◌else◌, ◌==◌,
}
use operating_system.Sched.State.{Kernel}
use operating_system.Sched.{remove}
use operating_system.Sched.Queues.{times, IsValid}
use operating_system.Sched.Keeps.{length-remove_member}
use operating_system.Synch.{
  Semaphore, sema_init, sema_down_once, sema_try_down, sema_up, Lock, lock_init,
  lock_held_by_current_thread, lock_acquire_check, lock_acquire_down, lock_try_acquire_down,
  set_holder, lock_release_clear, lock_release_up,
}
use operating_system.Synch.System.{head_of}
use operating_system.Synch.Invariant.{Holds, downs-Holds, ups-Holds, tries-Holds, moves-Holds}
use operating_system.Synch.Progress.{HasWakeup, Holds-wakeup}
use operating_system.Synch.Locks.{
  LockSystem, semaphore_of, LockStep, downs, holds, clears, ups, tries, moves, LockReach, starts,
  then_, held,
}

-- The semaphore's invariant, and the one unit of the lock: it is in the semaphore, or at one thread.
pub record LockHolds (s : LockSystem) : Type 0 where
  pub sema : Holds (semaphore_of s)
  pub unit : s.lock.semaphore.value + length s.taking + length s.leaving + held s.lock.holder ≡ 1

length-if :
    (b : Bool) (t : ℕ) (xs : List ℕ)
    → length (if b then t ∷ xs else xs) ≡ length xs + (if b then 1 else 0)
length-if true t xs = omega arith
length-if false t xs = omega arith

-- What the steps of the lock are on its semaphore.
check-context :
    (k : Kernel) (lock lock' : Lock)
    → lock_acquire_check k lock ≡ some lock'
    → k.intr_context ≡ false
unfolding lock_acquire_check
check-context k lock lock' e = ground (arith, e)

acquire_down-at :
    (k : Kernel) (lock : Lock) (got : Bool) (k' : Kernel) (lock' : Lock)
    (r : Bool × Kernel × Semaphore)
    → lock_acquire_down k lock ≡ some (got, k', lock')
    → sema_down_once k lock.semaphore ≡ some r
    → ◌≡◌ {A = Bool × Kernel × Lock} (got, k', lock') (r.0, r.1, record lock { semaphore = r.2 })
unfolding lock_acquire_down
acquire_down-at k lock got k' lock' r e call = some_injective (sym e ∙ rw call)

release_up-at :
    (k : Kernel) (lock : Lock) (k' : Kernel) (lock' : Lock) (r : Kernel × Semaphore)
    → lock_release_up k lock ≡ some (k', lock')
    → sema_up k lock.semaphore ≡ some r
    → ◌≡◌ {A = Kernel × Lock} (k', lock') (r.0, record lock { semaphore = r.1 })
unfolding lock_release_up
release_up-at k lock k' lock' r e call = some_injective (sym e ∙ rw call)

try_acquire-at :
    (k : Kernel) (lock : Lock) (success : Bool) (lock' : Lock)
    → lock_try_acquire_down k lock ≡ some (success, lock')
    → ◌≡◌ {A = Bool × Lock}
        (success, lock')
        (
          (sema_try_down lock.semaphore).0,
          record lock { semaphore = (sema_try_down lock.semaphore).1 },
        )
unfolding lock_try_acquire_down
try_acquire-at k lock success lock' e =
    some_injective (sym (assert-passed (not (lock_held_by_current_thread k lock)) _ _ e).1)

-- `lock_release` is refused to a thread that does not hold the lock.
release_clear-at :
    (k : Kernel) (lock lock' : Lock)
    → lock_release_clear k lock ≡ some lock'
    → (lock.holder ≡ some k.current) × (lock' ≡ record lock { holder = none })
unfolding lock_release_clear lock_held_by_current_thread
release_clear-at k lock lock' e =
    let (mine, at) = assert-passed (lock_held_by_current_thread k lock) _ _ e in
    (holder-at lock.holder mine, some_injective (sym at))
  where
    holder-at :
        (o : Option ℕ)
        → (elim o [ none ↦ false | some t ↦ t == k.current ]) ≡ true
        → o ≡ some k.current
    holder-at none h = cc
    holder-at (some t) h = ap some (ground (arith, h))

LockStep-Holds : (s s' : LockSystem) → LockStep s s' → LockHolds s → LockHolds s'
unfolding set_holder
LockStep-Holds s _ (downs got k' lock' busy _ _ check down) h =
    let ni = check-context s.kernel s.lock s.lock check in
    let (r, call, after, unit) = downs-Holds (semaphore_of s) h.sema ni busy in
    subst
      (λ (r : Bool × Kernel × Lock). LockHolds (record s {
        kernel = r.1;
        lock = r.2;
        woken = remove s.kernel.current s.woken;
        taking = if r.0 then s.kernel.current ∷ s.taking else s.taking;
      }))
      (sym (acquire_down-at s.kernel s.lock got k' lock' r down call))
      (record {
        sema = after;
        unit = omega (arith, h.unit, unit, length-if r.0 s.kernel.current s.taking);
      })
LockStep-Holds s _ (holds p) h = record {
  sema = h.sema;
  unit = omega (arith, h.unit, p, length-remove_member s.kernel.current s.taking p);
}
LockStep-Holds s _ (clears lock' _ _ e) h =
    let (mine, at) = release_clear-at s.kernel s.lock lock' e in
    subst (λ l. LockHolds (record s { lock = l; leaving = s.kernel.current ∷ s.leaving })) (sym at)
      (record { sema = h.sema; unit = omega (arith, h.unit, ap held mine) })
LockStep-Holds s _ (ups k' lock' p up) h =
    let (r, call, after, unit) = ups-Holds (semaphore_of s) h.sema in
    subst
      (λ (r : Kernel × Lock). LockHolds (record s {
        kernel = r.0;
        lock = r.1;
        woken = head_of s.lock.semaphore.waiters ++ s.woken;
        leaving = remove s.kernel.current s.leaving;
      }))
      (sym (release_up-at s.kernel s.lock k' lock' r up call))
      (record {
        sema = after;
        unit = omega (arith, h.unit, unit, length-remove_member s.kernel.current s.leaving p);
      })
LockStep-Holds s _ (tries success lock' _ _ e) h =
    let (after, unit) = tries-Holds (semaphore_of s) h.sema in
    subst
      (λ (r : Bool × Lock).
        LockHolds
          (record s { lock = r.1; taking = if r.0 then s.kernel.current ∷ s.taking else s.taking }))
      (sym (try_acquire-at s.kernel s.lock success lock' e))
      (record {
        sema = after;
        unit = omega (
          arith,
          h.unit,
          unit,
          length-if (sema_try_down s.lock.semaphore).0 s.kernel.current s.taking,
        );
      })
LockStep-Holds s _ (moves k' m) h = record {
  sema = moves-Holds (semaphore_of s) h.sema k' m;
  unit = h.unit;
}

-- The invariant of a lock, from `lock_init` on.
pub LockReach-Holds : (k : Kernel) (s : LockSystem) → IsValid k → LockReach k s → LockHolds s
unfolding lock_init sema_init
LockReach-Holds k s v starts = record {
  sema = record {
    valid = v;
    queue = record { parked = λ t p. absurd (omega arith); once = λ t. omega arith; sorted = tt };
    alive = λ t p. absurd (omega arith);
    alive_once = λ t. omega arith;
    no_lost = inl refl;
  };
  unit = refl;
}
LockReach-Holds k s v (then_ s0 _ r step) = LockStep-Holds s0 s step (LockReach-Holds k s0 v r)

length-nil : (xs : List ℕ) → length xs ≡ 0 → xs ≡ []
length-nil [] e = refl
length-nil (x ∷ xs) e = absurd (omega arith)

try_down-none : (sema : Semaphore) → sema.value ≡ 0 → sema_try_down sema ≡ (false, sema)
unfolding sema_try_down
try_down-none sema z = rw z

-- In every state that the steps of a lock lead to from `lock_init` in a valid kernel, when a thread
-- is recorded as the holder, no other thread is between taking the semaphore and setting `holder`
-- or between resetting `holder` and `sema_up`, and the semaphore has no unit that a further thread
-- could take.
pub mutual_exclusion :
    (k : Kernel) (s : LockSystem) (t : ℕ)
    → IsValid k
    → LockReach k s
    → s.lock.holder ≡ some t
    → (s.taking ≡ [])
      × (s.leaving ≡ [])
      × (sema_try_down s.lock.semaphore ≡ (false, s.lock.semaphore))
mutual_exclusion k s t v r e =
    let h = LockReach-Holds k s v r in
    let one = ap held e in
    (
      length-nil s.taking (omega (arith, h.unit)),
      length-nil s.leaving (omega (arith, h.unit)),
      try_down-none s.lock.semaphore (omega (arith, h.unit)),
    )

-- In every state that the steps of a lock lead to from `lock_init` in a valid kernel, if a thread
-- waits, nobody holds the lock or is on the way in or out, and no interrupt is being handled, then
-- a thread that was woken is READY or RUNNING and has not tested the semaphore since, and a test
-- now takes the unit.
pub lock_progress :
    (k : Kernel) (s : LockSystem) (waiting : ℕ)
    → IsValid k
    → LockReach k s
    → 0 < times waiting s.lock.semaphore.waiters
    → s.lock.holder ≡ none
    → s.taking ≡ []
    → s.leaving ≡ []
    → s.kernel.intr_context ≡ false
    → HasWakeup (semaphore_of s)
lock_progress k s waiting v r p free nt nl ni =
    let h = LockReach-Holds k s v r in
    let no_holder = ap held free in
    let no_taking = ap length nt in
    let no_leaving = ap length nl in
    Holds-wakeup (semaphore_of s) waiting h.sema p (omega (arith, h.unit)) ni
