-- ===== src/Synch/Locks.antt =====
-- One lock of src/threads/synch.c among the threads of the kernel: `lock_acquire`,
-- `lock_try_acquire` and `lock_release` in the steps between which other threads can run.
use operating_system.Common.{
  ℕ, ◌<◌, ◌≡◌, ◌≢◌, Bool, Option, none, some, List, [], ◌∷◌, ◌++◌, if◌then◌else◌,
}
use operating_system.Sched.State.{Kernel}
use operating_system.Sched.{remove}
use operating_system.Sched.Queues.{times}
use operating_system.Synch.{
  Lock, lock_init, lock_acquire_check, lock_acquire_down, lock_try_acquire_down, set_holder,
  lock_release_clear, lock_release_up,
}
use operating_system.Synch.System.{System, KernelStep, head_of}

-- `taking` are the threads that have the semaphore's unit and have not set `holder` yet, `leaving`
-- those that have reset `holder` and have not called `sema_up` yet.
pub record LockSystem : Type 0 where
  pub kernel : Kernel
  pub lock : Lock
  pub woken : List ℕ
  pub taking : List ℕ
  pub leaving : List ℕ

-- The semaphore of the lock, as a system of its own.
abbrev pub semaphore_of : LockSystem → System
semaphore_of s = record { kernel = s.kernel; sema = s.lock.semaphore; woken = s.woken }

-- A thread that is inside `lock_acquire` or `lock_release` goes on there.
pub data LockStep (s : LockSystem) : LockSystem → Type 0 where
  downs :
      (got : Bool) (k' : Kernel) (lock' : Lock)
      → s.kernel.current ≢ s.kernel.idle_thread
      → times s.kernel.current s.taking ≡ 0
      → times s.kernel.current s.leaving ≡ 0
      → lock_acquire_check s.kernel s.lock ≡ some s.lock
      → lock_acquire_down s.kernel s.lock ≡ some (got, k', lock')
      → LockStep s (record s {
        kernel = k';
        lock = lock';
        woken = remove s.kernel.current s.woken;
        taking = if got then s.kernel.current ∷ s.taking else s.taking;
      })
  holds :
      0 < times s.kernel.current s.taking
      → LockStep s (record s {
        lock = set_holder s.kernel s.lock;
        taking = remove s.kernel.current s.taking;
      })
  clears :
      (lock' : Lock)
      → times s.kernel.current s.taking ≡ 0
      → times s.kernel.current s.leaving ≡ 0
      → lock_release_clear s.kernel s.lock ≡ some lock'
      → LockStep s (record s { lock = lock'; leaving = s.kernel.current ∷ s.leaving })
  ups :
      (k' : Kernel) (lock' : Lock)
      → 0 < times s.kernel.current s.leaving
      → lock_release_up s.kernel s.lock ≡ some (k', lock')
      → LockStep s (record s {
        kernel = k';
        lock = lock';
        woken = head_of s.lock.semaphore.waiters ++ s.woken;
        leaving = remove s.kernel.current s.leaving;
      })
  tries :
      (success : Bool) (lock' : Lock)
      → times s.kernel.current s.taking ≡ 0
      → times s.kernel.current s.leaving ≡ 0
      → lock_try_acquire_down s.kernel s.lock ≡ some (success, lock')
      → LockStep s (record s {
        lock = lock';
        taking = if success then s.kernel.current ∷ s.taking else s.taking;
      })
  moves :
      (k' : Kernel)
      → KernelStep s.kernel s.lock.semaphore.waiters s.woken k'
      → LockStep s (record s { kernel = k' })

pub data LockReach (k : Kernel) : LockSystem → Type 0 where
  starts :
      LockReach k (record { kernel = k; lock = lock_init; woken = []; taking = []; leaving = [] })
  then_ : (s s' : LockSystem) → LockReach k s → LockStep s s' → LockReach k s'

-- How many threads are at the lock: hold it, or are on their way in or out.
abbrev pub held : Option ℕ → ℕ
held none = 0
held (some t) = 1
