-- ===== src/Mlfqs/Tests.antt =====
-- The theorems on aging and on the BSD scheduler of src/threads/thread.c at given threads.
use operating_system.Common.{
  ℕ, ◌≡◌, refl, true, false, some, [], ◌∷◌, arith, ltb, if◌then◌else◌, ◌&&◌,
}
use operating_system.Common.Int.{pos, ltb_ℤ, ◌+ℤ◌, ◌≤ℤ◌, negsuc, quot}
use operating_system.FixedPoint.{fp_f}
use operating_system.Sched.State.{Kernel, Thread}
use operating_system.Sched.{need_yield}
use operating_system.Sched.Queues.{times, IsValid}
use operating_system.Sched.Sample.{thread_of, kernel, kernel-IsValid}
use operating_system.Mlfqs.Slice.{Recomputed, slice_work_lem}
use operating_system.Mlfqs.{slice_work, thread_aging, raw_priority}
use operating_system.Mlfqs.Aging.{aged, thread_aging_lem}
use operating_system.Mlfqs.Priority.{exact, raw_priority-exact}

thread_aging_lem_example :
    (thread_aging (kernel true)
      ≡ some (record (aged (kernel true)) {
        yield_on_return = if need_yield (aged (kernel true)) then true else false;
      }))
    × IsValid (aged (kernel true))
    × ((x : ℕ)
        → (aged (kernel true)).thread x ≡ record (thread_of x) {
          priority =
              if ltb 0 (times x (2 ∷ [])) && ltb_ℤ (thread_of x).priority (pos 63)
              then (thread_of x).priority +ℤ pos 1
              else (thread_of x).priority;
        })
    × ((x : ℕ)
        → (thread_of x).priority ≤ℤ pos 63
        → ((aged (kernel true)).thread x).priority ≤ℤ pos 63)
thread_aging_lem_example = thread_aging_lem (kernel-IsValid true) refl

-- Two and a half seconds of the processor, and a niceness of 3 or of -3.
abbrev busy : Thread
busy = record (thread_of 2) { recent_cpu = pos 4096000; nice = pos 3 }

abbrev lazy : Thread
lazy = record (thread_of 2) { recent_cpu = pos 16384; nice = negsuc 2 }

raw_priority-exact_example :
    raw_priority busy ≡ some (quot (exact (quot (pos 4096000) 4) (pos 3)) fp_f)
raw_priority-exact_example =
    raw_priority-exact busy (omega arith, omega arith) (omega arith, omega arith)

slice_work_lem_example :
    (k' : Kernel) × (slice_work (kernel true) ≡ some k')
    × IsValid k'
    × (k'.current ≡ 1)
    × Recomputed 9 (kernel true).all_list thread_of k'.thread
    × ((x : ℕ) → times x k'.ready_list ≡ times x (2 ∷ []))
slice_work_lem_example =
    slice_work_lem (kernel-IsValid true) refl
      (λ x. ((omega arith, omega arith), (omega arith, omega arith)))
