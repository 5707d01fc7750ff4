-- ===== src/Synch.antt =====
-- src/threads/synch.c: counting semaphores and locks. A semaphore is a value of its own, passed and
-- returned; a thread is its number. `none` is a failed ASSERT. Interrupts are off in each of the
-- steps that a thread makes in `sema_down`: the loop is cut where `thread_block` lets another thread
-- run, and goes on, with a further call of `sema_down_once`, when the thread runs again.
pub mod Semaphores
pub mod System
pub mod Invariant
pub mod Progress
pub mod Locks
pub mod Mutex
mod Tests
use operating_system.Common.{
  ℕ, ◌+◌, ◌-◌, ◌%◌, ◌^◌, Bool, true, false, not, Option, none, some, List, [], ◌∷◌, ◌==◌, ltb,
  if◌then◌else◌, ◌>>=◌, ◌>>◌, assert,
}
use operating_system.KernelList.{list_insert_ordered}
use operating_system.Sched.State.{Kernel}
use operating_system.Sched.{priority_greater, thread_unblock, thread_block, thread_check_preempt}

pub record Semaphore : Type 0 where
  pub value : ℕ
  pub waiters : List ℕ

pub sema_init : ℕ → Semaphore
sema_init value = record { value = value % 2 ^ 32; waiters = [] }

-- The body of the loop of `sema_down`: into the queue, and block.
abbrev pub sema_wait : Kernel → Semaphore → Option (Kernel × Semaphore)
sema_wait k sema = do
  k' ← thread_block k
  let queue = list_insert_ordered (priority_greater k.thread) sema.waiters k.current
  some (k', record sema { waiters = queue })

-- What the running thread does in `sema_down` until it has its unit (`true`) or blocks (`false`):
-- one test of `value`.
pub sema_down_once : Kernel → Semaphore → Option (Bool × Kernel × Semaphore)
sema_down_once k sema = do
  assert (not k.intr_context)
  if sema.value == 0
      then sema_wait k sema >>= (λ (k', sema'). some (false, k', sema'))
      else some (true, k, record sema { value = sema.value - 1 })

pub sema_try_down : Semaphore → Bool × Semaphore
sema_try_down sema =
    if ltb 0 sema.value then (true, record sema { value = sema.value - 1 }) else (false, sema)

-- The first part of `sema_up`: the head of `waiters`, if there is one, leaves it and is unblocked.
pub wake_one : Kernel → List ℕ → Option (Kernel × List ℕ)
wake_one k [] = some (k, [])
wake_one k (t ∷ ts) = thread_unblock k t >>= λ k'. some (k', ts)

pub sema_up : Kernel → Semaphore → Option (Kernel × Semaphore)
sema_up k sema = do
  (k1, ts) ← wake_one k sema.waiters
  k2 ← thread_check_preempt k1
  some (k2, record { value = (sema.value + 1) % 2 ^ 32; waiters = ts })

-- `holder` is `none` for NULL.
pub record Lock : Type 0 where
  pub holder : Option ℕ
  pub semaphore : Semaphore

pub lock_init : Lock
lock_init = record { holder = none; semaphore = sema_init 1 }

pub lock_held_by_current_thread : Kernel → Lock → Bool
lock_held_by_current_thread k lock = elim lock.holder [ none ↦ false | some t ↦ t == k.current ]

-- `lock_acquire`, cut where another thread can run: its assertions, each test of the semaphore
-- (`sema_down_once`), and the assignment of `holder`.
pub lock_acquire_check : Kernel → Lock → Option Lock
lock_acquire_check k lock = do
  assert (not k.intr_context)
  assert (not (lock_held_by_current_thread k lock))
  some lock

pub lock_acquire_down : Kernel → Lock → Option (Bool × Kernel × Lock)
lock_acquire_down k lock = do
  (got, k', sema) ← sema_down_once k lock.semaphore
  some (got, k', record lock { semaphore = sema })

pub set_holder : Kernel → Lock → Lock
set_holder k lock = record lock { holder = some k.current }

-- `lock_try_acquire` up to the same assignment.
pub lock_try_acquire_down : Kernel → Lock → Option (Bool × Lock)
lock_try_acquire_down k lock = do
  assert (not (lock_held_by_current_thread k lock))
  let (success, sema) = sema_try_down lock.semaphore
  some (success, record lock { semaphore = sema })

-- `lock_release`, cut the same way: the assertion with the reset of `holder`, and `sema_up`.
pub lock_release_clear : Kernel → Lock → Option Lock
lock_release_clear k lock = do
  assert (lock_held_by_current_thread k lock)
  some (record lock { holder = none })

pub lock_release_up : Kernel → Lock → Option (Kernel × Lock)
lock_release_up k lock = do
  (k', sema) ← sema_up k lock.semaphore
  some (k', record lock { semaphore = sema })
