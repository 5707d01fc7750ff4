-- ===== src/Sched/Tests.antt =====
-- The theorems on the scheduler and the alarm clock of src/threads/thread.c at a kernel of five
-- threads.
use operating_system.Common.{◌≡◌, refl, true, false, some, [], ◌∷◌, arith}
use operating_system.Sched.State.{blocked, Kernel}
use operating_system.Sched.{
  set_status, thread_yield, need_yield, thread_check_preempt, thread_sleep, thread_wake_up,
}
use operating_system.Sched.Queues.{times, AreQueues, IsValid, IsBest, Switched}
use operating_system.Sched.Sample.{kernel, kernel-IsValid}
use operating_system.Sched.Switching.{yielding, thread_yield_lem, thread_check_preempt_lem}
use operating_system.Sched.Alarm.{Woken, thread_sleep_lem, thread_wake_up_lem}

thread_check_preempt_lem_example :
    (k' : Kernel) × (thread_check_preempt (kernel false) ≡ some k')
    × IsValid k'
    × IsBest k'
    × (need_yield (kernel false) ≡ false → k' ≡ kernel false)
thread_check_preempt_lem_example = thread_check_preempt_lem (kernel-IsValid false) refl

thread_yield_lem_example :
    (k' : Kernel) × (thread_yield (kernel false) ≡ some k')
    × IsValid k'
    × IsBest k'
    × Switched (yielding (kernel false)) k'
thread_yield_lem_example = thread_yield_lem (kernel-IsValid false) refl

thread_sleep_lem_example :
    (k' : Kernel) × (thread_sleep (kernel false) 17 ≡ some k')
    × IsValid k'
    × IsBest k'
    × (times 1 k'.sleep_list ≡ 1)
    × ((k'.thread 1).wakeup_tick ≡ 17)
    × ((k'.thread 1).status ≡ blocked)
thread_sleep_lem_example = thread_sleep_lem 17 (kernel-IsValid false) refl refl

-- At tick 15 thread 3 is due and thread 4 is not.
thread_wake_up_lem_example :
    (k' : Kernel) × (thread_wake_up (kernel true) ≡ some k') × Woken (kernel true) (3 ∷ 4 ∷ []) k'
thread_wake_up_lem_example = thread_wake_up_lem (kernel true) (kernel-IsValid true) refl

-- Thread 1 has blocked, and thread 2 is next.
abbrev idle_now : Kernel
idle_now = set_status (kernel false) 1 blocked

idle_now-AreQueues : AreQueues idle_now
idle_now-AreQueues = record {
  ready_sorted = (tt, tt);
  ready_once = λ t. ground arith;
  ready_status = λ t p. ground arith;
  sleep_sorted = ((refl, tt), (tt, tt));
  sleep_once = λ t. ground arith;
  sleep_status = λ t p. ground arith;
  idle_awake = refl;
}
