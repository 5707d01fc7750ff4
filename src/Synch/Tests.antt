-- ===== src/Synch/Tests.antt =====
-- The theorems on src/threads/synch.c at concrete states.
use operating_system.Common.{◌≡◌, refl, true, false, none, some, [], ◌∷◌, arith, All}
use operating_system.Sched.{
  thread_unblock, next_thread_to_run, schedule, thread_block, thread_yield, thread_check_preempt,
  need_yield, remove, priority_greater,
}
use operating_system.Sched.State.{Kernel}
use operating_system.Sched.Queues.{switched, unblocked, IsValid}
use operating_system.Sched.Switching.{yielding}
use operating_system.Sched.Keeps.{stopping, CanRun}
use operating_system.Sched.Sample.{kernel, kernel-IsValid}
use operating_system.Synch.{
  sema_init, sema_down_once, sema_up, wake_one, sema_try_down, lock_init, lock_acquire_check,
  lock_acquire_down, lock_held_by_current_thread, set_holder, lock_release_clear, lock_release_up,
}
use operating_system.Synch.System.{
  System, start, Reach, starts, then_, downs, ups, unblocks, preempts,
}
use operating_system.Synch.Invariant.{Holds}
use operating_system.Synch.Progress.{Reach-Holds, HasWakeup, no_lost_wakeup, sema_up_lem}
use operating_system.Synch.Locks.{LockSystem, semaphore_of, LockReach}
use operating_system.Synch.Locks
use operating_system.Synch.Mutex.{mutual_exclusion, lock_progress}

-- Threads 1 and 2 wait for a semaphore, and the idle thread runs.
abbrev one_waits : System
one_waits = record {
  kernel = switched (stopping (kernel false)) 2 [];
  sema = record { value = 0; waiters = 1 ∷ [] };
  woken = remove 1 [];
}

abbrev two_wait : System
two_wait = record {
  kernel = switched (stopping one_waits.kernel) 9 [];
  sema = record { value = 0; waiters = 2 ∷ 1 ∷ [] };
  woken = remove 2 one_waits.woken;
}

one_waits-Reach : Reach (kernel false) 0 one_waits
unfolding sema_init sema_down_once thread_block schedule next_thread_to_run
one_waits-Reach =
    then_ (start (kernel false) 0) one_waits starts
      (downs false _ _ refl (λ e. absurd (omega arith)) refl)

two_wait-Reach : Reach (kernel false) 0 two_wait
unfolding sema_down_once thread_block schedule next_thread_to_run
two_wait-Reach =
    then_ one_waits two_wait one_waits-Reach (downs false _ _ refl (λ e. absurd (omega arith)) refl)

-- Then one unit is given.
abbrev one_woken : System
one_woken = record {
  kernel = unblocked two_wait.kernel 2;
  sema = record { value = 1; waiters = 1 ∷ [] };
  woken = 2 ∷ two_wait.woken;
}

one_woken-Reach : Reach (kernel false) 0 one_woken
unfolding sema_up wake_one thread_unblock thread_check_preempt need_yield
one_woken-Reach = then_ two_wait one_woken two_wait-Reach (ups _ _ refl)

no_lost_wakeup_example : HasWakeup one_woken
no_lost_wakeup_example =
    no_lost_wakeup (kernel false) 0 one_woken 1 (kernel-IsValid false) one_woken-Reach (omega arith)
      (omega arith) refl

sema_up_lem_example :
    All (λ u. priority_greater two_wait.kernel.thread u 2 ≡ false) (1 ∷ [])
    × ((k' : Kernel) × (sema_up two_wait.kernel two_wait.sema
          ≡ some (k', record { value = 1; waiters = 1 ∷ [] }))
        × CanRun (k'.thread 2).status
        × IsValid k')
sema_up_lem_example =
    sema_up_lem (kernel false) 0 two_wait 2 (1 ∷ []) (kernel-IsValid false) two_wait-Reach refl

-- Thread 1 has the lock, threads 5 and 2 wait for it, and thread 1 gives it up.
abbrev taken : LockSystem
taken = record {
  kernel = kernel false;
  lock = record { holder = none; semaphore = record { value = 0; waiters = [] } };
  woken = remove 1 [];
  taking = 1 ∷ [];
  leaving = [];
}

abbrev locked : LockSystem
locked = record taken {
  lock = record { holder = some 1; semaphore = record { value = 0; waiters = [] } };
  taking = remove 1 (1 ∷ []);
}

locked-Reach : LockReach (kernel false) locked
unfolding lock_init sema_init lock_acquire_check lock_held_by_current_thread lock_acquire_down
    sema_down_once set_holder
locked-Reach =
    Locks.then_ taken locked
      (Locks.then_ _ taken Locks.starts
        (Locks.downs true _ _ (λ e. absurd (omega arith)) refl refl refl refl))
      (Locks.holds (omega arith))

mutual_exclusion_example :
    (locked.taking ≡ [])
    × (locked.leaving ≡ [])
    × (sema_try_down locked.lock.semaphore ≡ (false, locked.lock.semaphore))
mutual_exclusion_example =
    mutual_exclusion (kernel false) locked 1 (kernel-IsValid false) locked-Reach refl

abbrev with_5 : LockSystem
with_5 = record locked { kernel = unblocked (kernel false) 5 }

abbrev runs_5 : LockSystem
runs_5 = record with_5 { kernel = switched (yielding with_5.kernel) 5 (2 ∷ 1 ∷ []) }

with_5-Reach : LockReach (kernel false) with_5
unfolding thread_unblock
with_5-Reach = Locks.then_ locked with_5 locked-Reach (
    Locks.moves _ (
      unblocks _ 5 (record { stopped = refl; awake = refl; busy = λ e. absurd (omega arith) }) refl
        refl))

runs_5-Reach : LockReach (kernel false) runs_5
unfolding thread_check_preempt need_yield thread_yield schedule next_thread_to_run
runs_5-Reach = Locks.then_ with_5 runs_5 with_5-Reach (Locks.moves _ (preempts _ refl))

abbrev waits_5 : LockSystem
waits_5 = record runs_5 {
  kernel = switched (stopping runs_5.kernel) 2 (1 ∷ []);
  lock = record { holder = some 1; semaphore = record { value = 0; waiters = 5 ∷ [] } };
  woken = remove 5 runs_5.woken;
}

abbrev waits_2 : LockSystem
waits_2 = record waits_5 {
  kernel = switched (stopping waits_5.kernel) 1 [];
  lock = record { holder = some 1; semaphore = record { value = 0; waiters = 5 ∷ 2 ∷ [] } };
  woken = remove 2 waits_5.woken;
}

waits_5-Reach : LockReach (kernel false) waits_5
unfolding lock_acquire_check lock_held_by_current_thread lock_acquire_down sema_down_once
    thread_block schedule next_thread_to_run remove
waits_5-Reach =
    Locks.then_ runs_5 waits_5 runs_5-Reach
      (Locks.downs false _ _ (λ e. absurd (omega arith)) refl refl refl refl)

waits_2-Reach : LockReach (kernel false) waits_2
unfolding lock_acquire_check lock_held_by_current_thread lock_acquire_down sema_down_once
    thread_block schedule next_thread_to_run remove
waits_2-Reach =
    Locks.then_ waits_5 waits_2 waits_5-Reach
      (Locks.downs false _ _ (λ e. absurd (omega arith)) refl refl refl refl)

abbrev cleared : LockSystem
cleared = record waits_2 {
  lock = record { holder = none; semaphore = record { value = 0; waiters = 5 ∷ 2 ∷ [] } };
  leaving = 1 ∷ [];
}

abbrev upped : LockSystem
upped = record cleared {
  kernel = switched (yielding (unblocked waits_2.kernel 5)) 5 (1 ∷ []);
  lock = record { holder = none; semaphore = record { value = 1; waiters = 2 ∷ [] } };
  woken = 5 ∷ cleared.woken;
  leaving = remove 1 (1 ∷ []);
}

cleared-Reach : LockReach (kernel false) cleared
unfolding lock_release_clear lock_held_by_current_thread remove
cleared-Reach = Locks.then_ waits_2 cleared waits_2-Reach (Locks.clears _ refl refl refl)

upped-Reach : LockReach (kernel false) upped
unfolding lock_release_up sema_up wake_one thread_unblock thread_check_preempt need_yield
    thread_yield schedule next_thread_to_run
upped-Reach = Locks.then_ cleared upped cleared-Reach (Locks.ups _ _ (omega arith) refl)

lock_progress_example : HasWakeup (semaphore_of upped)
unfolding remove
lock_progress_example =
    lock_progress (kernel false) upped 2 (kernel-IsValid false) upped-Reach (omega arith) refl refl
      refl refl

Reach-Holds_example : Holds one_woken
Reach-Holds_example = Reach-Holds (kernel false) 0 one_woken (kernel-IsValid false) one_woken-Reach
