-- ===== src/Sched.antt =====
-- src/threads/thread.c, with the alarm clock, priority scheduling, aging and the BSD scheduler, as
-- built without USERPROG. A thread goes by the number that stands for its `struct thread *`; the
-- stack, the name, the magic number and the switch of stacks are not modelled, so a call that
-- switches threads is seen as the change that it makes to the kernel's state. Interrupts are off in
-- each of these operations, so each is one step. `none` is a failed ASSERT or a divide error.
pub mod State
pub mod Queues
pub mod Switching
pub mod Alarm
pub mod Keeps
pub mod Sample
mod Tests
use operating_system.Common.{
  ℕ, zero, suc, ◌+◌, ◌%◌, Bool, true, false, not, ◌&&◌, Option, none, some, List, [], ◌∷◌, ◌++◌,
  ◌==◌, ltb, leb, if◌then◌else◌, length, ◌>>=◌, ◌>>◌, assert,
}
use operating_system.Common.Int.{ℤ, pos, negsuc, ltb_ℤ, int32, ◌*ℤ◌, ◌+ℤ◌}
use operating_system.FixedPoint.{
  fp_from_int, fp_to_int_zero, fp_to_int_nearest, fp_to_int_up, fp_add, fp_sub, fp_add_int,
  fp_sub_int, fp_mul, fp_mul_int, fp_div, fp_div_int,
}
use operating_system.KernelList.{list_insert_ordered, list_sort}
use operating_system.Sched.State.{
  Status, running, ready, blocked, dying, status_eq, Thread, Kernel, update_thread, pri_min,
  pri_max,
}

-- `thread_priority_greater` and `wakeup_tick_less` on the threads as they are now.
abbrev pub priority_greater : (ℕ → Thread) → ℕ → ℕ → Bool
priority_greater th a b = ltb_ℤ (th b).priority (th a).priority

abbrev pub wakeup_tick_less : (ℕ → Thread) → ℕ → ℕ → Bool
wakeup_tick_less th a b = ltb (th a).wakeup_tick (th b).wakeup_tick

abbrev pub set_status : Kernel → ℕ → Status → Kernel
set_status k t s = update_thread k t (λ r. record r { status = s })

abbrev pub set_priority : Kernel → ℕ → ℤ → Kernel
set_priority k t p = update_thread k t (λ r. record r { priority = p })

unfoldable pub thread_unblock : Kernel → ℕ → Option Kernel
thread_unblock k t = do
  assert (status_eq (k.thread t).status blocked)
  let k' = record k { ready_list = list_insert_ordered (priority_greater k.thread) k.ready_list t }
  some (set_status k' t ready)

-- The thread to run next, and the run queue without it.
unfoldable pub next_thread_to_run : Kernel → ℕ × List ℕ
next_thread_to_run k = elim k.ready_list [ [] ↦ (k.idle_thread, []) | t ∷ ts ↦ (t, ts) ]

-- `schedule` with the tail of the switch, `thread_schedule_tail`, in the thread that comes to run.
-- The page of a dying thread is freed there, which the state does not show.
unfoldable pub schedule : Kernel → Option Kernel
schedule k =
    let (next, rest) = next_thread_to_run k in
    do
      assert (not (status_eq (k.thread k.current).status running))
      let k' = record k { ready_list = rest; current = next; thread_ticks = 0 }
      some (set_status k' next running)

unfoldable pub thread_block : Kernel → Option Kernel
thread_block k = assert (not k.intr_context) >> schedule (set_status k k.current blocked)

unfoldable pub thread_yield : Kernel → Option Kernel
thread_yield k = do
  assert (not k.intr_context)
  let queue =
      if k.current == k.idle_thread
      then k.ready_list
      else list_insert_ordered (priority_greater k.thread) k.ready_list k.current
  schedule (set_status (record k { ready_list = queue }) k.current ready)

-- `list_remove` of a thread's element.
unfoldable pub remove : ℕ → List ℕ → List ℕ
remove t [] = []
remove t (x ∷ xs) = if x == t then xs else x ∷ remove t xs

pub thread_exit : Kernel → Option Kernel
thread_exit k = do
  assert (not k.intr_context)
  let k' = record k { all_list = remove k.current k.all_list }
  schedule (set_status k' k.current dying)

-- The head of the run queue has a higher priority than the running thread.
unfoldable pub need_yield : Kernel → Bool
need_yield k = elim k.ready_list [ [] ↦ false | t ∷ ts ↦ priority_greater k.thread t k.current ]

-- Outside an interrupt the running thread yields; inside one, the yield is put off to its end.
unfoldable pub thread_check_preempt : Kernel → Option Kernel
thread_check_preempt k =
    if need_yield k
    then if k.intr_context then some (record k { yield_on_return = true }) else thread_yield k
    else some k

pub thread_sleep : Kernel → ℕ → Option Kernel
thread_sleep k wakeup_tick = do
  assert (not k.intr_context)
  assert (not (k.current == k.idle_thread))
  let k' = update_thread k k.current (λ r. record r { wakeup_tick = wakeup_tick })
  let queue = list_insert_ordered (wakeup_tick_less k'.thread) k'.sleep_list k.current
  thread_block (record k' { sleep_list = queue })

-- The loop of `thread_wake_up` over the sleeping threads that are left.
pub wake_from : Kernel → List ℕ → Option Kernel
wake_from k [] = some (record k { sleep_list = [] })
wake_from k (t ∷ ts) =
    if ltb k.ticks (k.thread t).wakeup_tick
    then some (record k { sleep_list = t ∷ ts })
    else (thread_unblock (record k { sleep_list = ts }) t >>= λ k'. wake_from k' ts)

pub thread_wake_up : Kernel → Option Kernel
thread_wake_up k = wake_from k k.sleep_list >>= thread_check_preempt
