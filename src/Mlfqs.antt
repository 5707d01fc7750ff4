-- ===== src/Mlfqs.antt =====
-- The timer tick of src/threads/thread.c and src/devices/timer.c: aging, the BSD scheduler
-- (`-mlfqs`), and the calls that set a thread's priority or niceness. The build is the one without
-- USERPROG. `none` is a failed ASSERT or a divide error.
pub mod Aging
pub mod Priority
pub mod Keeps
pub mod Slice
mod Tests
use operating_system.Common.{
  ℕ, ◌+◌, ◌%◌, Bool, true, false, not, ◌&&◌, Option, none, some, List, [], ◌∷◌, ◌==◌, ltb, leb,
  if◌then◌else◌, length, ◌>>=◌, ◌>>◌, assert,
}
use operating_system.Common.Int.{ℤ, pos, ltb_ℤ, int32, ◌*ℤ◌, ◌+ℤ◌}
use operating_system.FixedPoint.{
  fp_from_int, fp_to_int_zero, fp_to_int_nearest, fp_to_int_up, fp_add, fp_sub, fp_add_int,
  fp_sub_int, fp_mul, fp_mul_int, fp_div, fp_div_int,
}
use operating_system.KernelList.{list_sort}
use operating_system.Sched.State.{
  Thread, Kernel, update_at, update_thread, pri_min, pri_max, timer_freq, time_slice,
}
use operating_system.Sched.{priority_greater, set_priority, thread_check_preempt, thread_wake_up}

-- One thread of the loop of `thread_aging`.
abbrev pub age_one : Thread → Thread
age_one r = if ltb_ℤ r.priority pri_max then record r { priority = r.priority +ℤ pos 1 } else r

pub age_from : (ℕ → Thread) → List ℕ → ℕ → Thread
age_from th [] = th
age_from th (t ∷ ts) = age_from (update_at th t age_one) ts

pub thread_aging : Kernel → Option Kernel
thread_aging k = thread_check_preempt (record k { thread = age_from k.thread k.ready_list })

-- PRI_MAX - (recent_cpu / 4) - (nice * 2), before it is cut to the range of priorities.
pub raw_priority : Thread → Option ℤ
raw_priority r = fp_div_int r.recent_cpu (pos 4) >>= λ q.
    some (fp_to_int_zero (fp_sub_int (fp_sub (fp_from_int pri_max) q) (int32 (r.nice *ℤ pos 2))))

abbrev pub clamp_priority : ℤ → ℤ
clamp_priority p = if ltb_ℤ p pri_min then pri_min else if ltb_ℤ pri_max p then pri_max else p

pub thread_calc_priority : Kernel → ℕ → Option Kernel
thread_calc_priority k t =
    raw_priority (k.thread t) >>= λ p. some (set_priority k t (clamp_priority p))

-- (2 * load_avg) / (2 * load_avg + 1)
pub decay : ℤ → Option ℤ
decay load_avg =
    fp_div (fp_mul_int load_avg (pos 2)) (fp_add_int (fp_mul_int load_avg (pos 2)) (pos 1))

pub thread_update_recent_cpu : Kernel → ℕ → Option Kernel
thread_update_recent_cpu k t = do
  coef ← decay k.load_avg
  some (
      update_thread k t
        (λ r. record r { recent_cpu = fp_add_int (fp_mul coef r.recent_cpu) r.nice }))

pub thread_update_priority : Kernel → ℕ → Option Kernel
thread_update_priority k t = if t == k.idle_thread then some k else thread_calc_priority k t

-- The loop of `thread_foreach` over the threads that are left.
pub foreach_from : (Kernel → ℕ → Option Kernel) → Kernel → List ℕ → Option Kernel
foreach_from f k [] = some k
foreach_from f k (t ∷ ts) = f k t >>= λ k'. foreach_from f k' ts

pub thread_foreach : (Kernel → ℕ → Option Kernel) → Kernel → Option Kernel
thread_foreach f k = foreach_from f k k.all_list

-- load_avg = (59/60) * load_avg + (1/60) * ready_threads
pub next_load_avg : Kernel → Option ℤ
next_load_avg k =
    let ready_threads = length k.ready_list + (if k.current == k.idle_thread then 0 else 1) in
    do
      a ← fp_div (fp_from_int (pos 59)) (fp_from_int (pos 60))
      b ← fp_div (fp_from_int (pos 1)) (fp_from_int (pos 60))
      some (fp_add (fp_mul a k.load_avg) (fp_mul_int b (int32 (pos ready_threads))))

pub second_work : Kernel → Option Kernel
second_work k =
    next_load_avg k >>= λ avg. thread_foreach thread_update_recent_cpu (record k { load_avg = avg })

pub slice_work : Kernel → Option Kernel
slice_work k = do
  k1 ← thread_foreach thread_update_priority k
  sorted ← list_sort (priority_greater k1.thread) k1.ready_list
  thread_check_preempt (record k1 { ready_list = sorted })

pub thread_mlfqs_tick : Kernel → Option Kernel
thread_mlfqs_tick k = do
  let k1 =
      if k.current == k.idle_thread
      then k
      else update_thread k k.current
          (λ r. record r { recent_cpu = fp_add_int r.recent_cpu (pos 1) })
  k2 ← if k.ticks % timer_freq == 0 then second_work k1 else some k1
  if k.ticks % time_slice == 0 then slice_work k2 else some k2

-- `thread_tick` without USERPROG.
pub thread_tick : Kernel → Option Kernel
thread_tick k = do
  let k1 =
      if k.current == k.idle_thread
      then record k { idle_ticks = k.idle_ticks + 1 }
      else record k { kernel_ticks = k.kernel_ticks + 1 }
  let k2 = record k1 { thread_ticks = k.thread_ticks + 1 }
  let k3 = if leb time_slice (k.thread_ticks + 1) then record k2 { yield_on_return = true } else k2
  k4 ← thread_wake_up k3
  k5 ← if k.thread_prior_aging then thread_aging k4 else some k4
  if k.thread_mlfqs then thread_mlfqs_tick k5 else some k5

-- `timer_interrupt`, an external interrupt.
pub timer_interrupt : Kernel → Option Kernel
timer_interrupt k = thread_tick (record k { ticks = k.ticks + 1 })

pub thread_set_priority : Kernel → ℤ → Option Kernel
thread_set_priority k new_priority = thread_check_preempt (set_priority k k.current new_priority)

pub thread_get_priority : Kernel → ℤ
thread_get_priority k = (k.thread k.current).priority

pub thread_set_nice : Kernel → ℤ → Option Kernel
thread_set_nice k nice =
    let k1 = update_thread k k.current (λ r. record r { nice = nice }) in
    if k.thread_mlfqs then (thread_calc_priority k1 k.current >>= thread_check_preempt) else some k1

pub thread_get_nice : Kernel → ℤ
thread_get_nice k = (k.thread k.current).nice

pub thread_get_load_avg : Kernel → ℤ
thread_get_load_avg k = fp_to_int_nearest (fp_mul_int k.load_avg (pos 100))

pub thread_get_recent_cpu : Kernel → ℤ
thread_get_recent_cpu k = fp_to_int_up (fp_mul_int (k.thread k.current).recent_cpu (pos 100))
