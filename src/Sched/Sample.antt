-- ===== src/Sched/Sample.antt =====
-- A kernel of five threads at which the theorems on src/threads/thread.c are applied.
use operating_system.Common.{
  ℕ, ◌+◌, refl, Bool, true, false, [], ◌∷◌, arith, ◌==◌, ltb, if◌then◌else◌,
}
use operating_system.Common.Int.{pos}
use operating_system.Sched.State.{Status, running, ready, blocked, dying, Thread, Kernel}
use operating_system.Sched.Queues.{IsValid}

abbrev status_of : ℕ → Status
status_of t =
    if t == 1 then running else if t == 2 then ready else if ltb t 6 then blocked else dying

-- Threads 3 and 4 sleep until ticks 10 and 20, thread 5 waits for a semaphore.
abbrev pub thread_of : ℕ → Thread
thread_of t = record {
  tid = t;
  status = status_of t;
  priority = pos (30 + t);
  wakeup_tick = if t == 3 then 10 else 20;
  nice = pos 0;
  recent_cpu = pos 0;
}

-- `intr` says whether an interrupt is being handled.
abbrev pub kernel : (intr : Bool) → Kernel
kernel intr = record {
  thread = thread_of;
  ready_list = 2 ∷ [];
  all_list = 1 ∷ 2 ∷ 3 ∷ 4 ∷ 5 ∷ [];
  sleep_list = 3 ∷ 4 ∷ [];
  current = 1;
  idle_thread = 9;
  ticks = 15;
  thread_ticks = 0;
  idle_ticks = 0;
  kernel_ticks = 0;
  load_avg = pos 0;
  thread_mlfqs = false;
  thread_prior_aging = true;
  intr_context = intr;
  yield_on_return = false;
  next_tid = 6;
}

pub kernel-IsValid : (intr : Bool) → IsValid (kernel intr)
kernel-IsValid intr = record {
  queues = record {
    ready_sorted = (tt, tt);
    ready_once = λ t. ground arith;
    ready_status = λ t p. ground arith;
    sleep_sorted = ((refl, tt), (tt, tt));
    sleep_once = λ t. ground arith;
    sleep_status = λ t p. ground arith;
    idle_awake = refl;
  };
  on_cpu = refl;
  only = λ t e. ground arith;
}
