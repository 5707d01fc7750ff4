-- ===== src/Synch/System.antt =====
-- One semaphore of src/threads/synch.c among the threads of the kernel: the steps by which threads,
-- other semaphores and interrupts change its state.
use operating_system.Common.{ℕ, ◌≡◌, ◌≢◌, Bool, true, false, some, List, [], ◌∷◌, ◌++◌}
use operating_system.Sched.State.{Kernel}
use operating_system.Sched.{
  thread_unblock, thread_block, thread_yield, thread_check_preempt, thread_sleep, thread_wake_up,
  remove,
}
use operating_system.Sched.Queues.{times}
use operating_system.Sched.Keeps.{Parked}
use operating_system.Common.Int.{ℤ}
use operating_system.Mlfqs.{thread_aging, thread_set_priority}
use operating_system.Synch.{Semaphore, sema_init, sema_down_once, sema_try_down, sema_up}

-- `woken` are the threads that `sema_up` has unblocked and that have not tested `value` again.
pub record System : Type 0 where
  pub kernel : Kernel
  pub sema : Semaphore
  pub woken : List ℕ

-- The thread that `sema_up` takes off the queue, if there is one.
abbrev pub head_of : List ℕ → List ℕ
head_of [] = []
head_of (t ∷ ts) = t ∷ []

-- What else happens in the kernel among the threads that exist, where `thread_mlfqs` is off: with
-- it, `thread_foreach` gives BLOCKED waiters new priorities and does not sort them again. A timer
-- interrupt is `interrupts`, `ticks` and, with `thread_prior_aging`, `ages`. A thread that waits on
-- this semaphore is not unblocked by others, and one that has been woken does nothing but test
-- `value` again before it blocks.
pub data KernelStep (k : Kernel) (waiters woken : List ℕ) : Kernel → Type 0 where
  yields :
      (k' : Kernel)
      → k.intr_context ≡ false
      → thread_yield k ≡ some k'
      → KernelStep k waiters woken k'
  preempts : (k' : Kernel) → thread_check_preempt k ≡ some k' → KernelStep k waiters woken k'
  sleeps :
      (k' : Kernel) (wakeup_tick : ℕ)
      → k.intr_context ≡ false
      → k.current ≢ k.idle_thread
      → times k.current woken ≡ 0
      → thread_sleep k wakeup_tick ≡ some k'
      → KernelStep k waiters woken k'
  blocks :
      (k' : Kernel)
      → k.intr_context ≡ false
      → times k.current woken ≡ 0
      → thread_block k ≡ some k'
      → KernelStep k waiters woken k'
  unblocks :
      (k' : Kernel) (t : ℕ)
      → Parked k t
      → times t waiters ≡ 0
      → thread_unblock k t ≡ some k'
      → KernelStep k waiters woken k'
  ticks :
      (k' : Kernel)
      → k.intr_context ≡ true
      → thread_wake_up k ≡ some k'
      → KernelStep k waiters woken k'
  ages :
      (k' : Kernel)
      → k.intr_context ≡ true
      → thread_aging k ≡ some k'
      → KernelStep k waiters woken k'
  sets :
      (k' : Kernel) (new_priority : ℤ)
      → thread_set_priority k new_priority ≡ some k'
      → KernelStep k waiters woken k'
  interrupts :
      (b c : Bool) (ticks idle_ticks kernel_ticks thread_ticks : ℕ)
      → KernelStep k waiters woken (record k {
        yield_on_return = b;
        intr_context = c;
        ticks = ticks;
        idle_ticks = idle_ticks;
        kernel_ticks = kernel_ticks;
        thread_ticks = thread_ticks;
      })

pub data Step (s : System) : System → Type 0 where
  downs :
      (got : Bool) (k' : Kernel) (sema' : Semaphore)
      → s.kernel.intr_context ≡ false
      → s.kernel.current ≢ s.kernel.idle_thread
      → sema_down_once s.kernel s.sema ≡ some (got, k', sema')
      → Step s (record { kernel = k'; sema = sema'; woken = remove s.kernel.current s.woken })
  ups :
      (k' : Kernel) (sema' : Semaphore)
      → sema_up s.kernel s.sema ≡ some (k', sema')
      → Step s (record { kernel = k'; sema = sema'; woken = head_of s.sema.waiters ++ s.woken })
  tries :
      (success : Bool) (sema' : Semaphore)
      → sema_try_down s.sema ≡ (success, sema')
      → Step s (record s { sema = sema' })
  moves :
      (k' : Kernel)
      → KernelStep s.kernel s.sema.waiters s.woken k'
      → Step s (record s { kernel = k' })

-- The semaphore as `sema_init` leaves it, in some kernel.
abbrev pub start : Kernel → ℕ → System
start k value = record { kernel = k; sema = sema_init value; woken = [] }

pub data Reach (k : Kernel) (value : ℕ) : System → Type 0 where
  starts : Reach k value (start k value)
  then_ : (s s' : System) → Reach k value s → Step s s' → Reach k value s'
