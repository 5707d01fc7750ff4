-- ===== src/Sched/State.antt =====
-- The state of src/threads/thread.c: `struct thread` and the statics of the file.
use operating_system.Common.{ℕ, Bool, true, false, List, ◌==◌, if◌then◌else◌}
use operating_system.Common.Int.{ℤ, pos}

-- `enum thread_status`
pub data Status : Type 0 where
  running ready blocked dying : Status

abbrev pub status_eq : Status → Status → Bool
status_eq running running = true
status_eq ready ready = true
status_eq blocked blocked = true
status_eq dying dying = true
status_eq _ _ = false

-- `struct thread`, the fields that the scheduler reads. `recent_cpu` is a fixed-point number.
pub record Thread : Type 0 where
  pub tid : ℕ
  pub status : Status
  pub priority : ℤ
  pub wakeup_tick : ℕ
  pub nice : ℤ
  pub recent_cpu : ℤ

-- The statics, with `ticks` of timer.c and the two flags of interrupt.c.
pub record Kernel : Type 0 where
  pub thread : ℕ → Thread
  pub ready_list : List ℕ
  pub all_list : List ℕ
  pub sleep_list : List ℕ
  pub current : ℕ
  pub idle_thread : ℕ
  pub ticks : ℕ
  pub thread_ticks : ℕ
  pub idle_ticks : ℕ
  pub kernel_ticks : ℕ
  pub load_avg : ℤ
  pub thread_mlfqs : Bool
  pub thread_prior_aging : Bool
  pub intr_context : Bool
  pub yield_on_return : Bool
  pub next_tid : ℕ

abbrev pub update_at : (ℕ → Thread) → ℕ → (Thread → Thread) → ℕ → Thread
update_at th t f x = if x == t then f (th x) else th x

abbrev pub update_thread : Kernel → ℕ → (Thread → Thread) → Kernel
update_thread k t f = record k { thread = update_at k.thread t f }

abbrev pub pri_min : ℤ
pri_min = pos 0

abbrev pub pri_default : ℤ
pri_default = pos 31

abbrev pub pri_max : ℤ
pri_max = pos 63

-- TIMER_FREQ and TIME_SLICE
abbrev pub timer_freq : ℕ
timer_freq = 100

abbrev pub time_slice : ℕ
time_slice = 4
