-- ===== src/Mlfqs/Slice.antt =====
-- The recomputation of all priorities in `thread_mlfqs_tick` of src/threads/thread.c.
use operating_system.Common.{
  ℕ, ◌≡◌, refl, ap, sym, subst, ◌∙◌, Bool, true, some, List, [], ◌∷◌, arith, ◌==◌, ltb,
  if◌then◌else◌, Bool-cases, inl, inr, if-true, if-false, ◌>>=◌, ap₂, ◌&&◌, not, ◌+◌, false,
}
use operating_system.Common.Int.{IsInt, ℤ, pos, ltb_ℤ, quot}
use operating_system.FixedPoint.{fp_f}
use operating_system.KernelList.{list_sort}
use operating_system.KernelList.Order.{IsSorted}
use operating_system.KernelList.Sort.{list_sort-IsSorted}
use operating_system.Sched.State.{Thread, Kernel, update_at}
use native.Mathlib.Decide.{ℕ_discrete}
use operating_system.Sched.{priority_greater, set_priority, thread_check_preempt, need_yield}
use operating_system.Sched.Queues.{times, IsValid, IsSorted-cong, priority-IsOrder}
use operating_system.Sched.Switching.{thread_check_preempt_intr}
use operating_system.Mlfqs.{thread_update_priority, foreach_from, thread_foreach, slice_work}
use operating_system.Mlfqs.Priority.{exact, IsNice, thread_calc_priority_lem}

-- Each thread's `recent_cpu` is an `int`, and its niceness in the range that the manual gives.
abbrev pub IsBounded : (ℕ → Thread) → Type 0
IsBounded th = (x : ℕ) → IsInt (th x).recent_cpu × IsNice (th x).nice

-- Threads that differ in their priorities at most.
abbrev pub Reprioritised : (ℕ → Thread) → (ℕ → Thread) → Type 0
Reprioritised th th' = (x : ℕ) → th' x ≡ record (th x) { priority = (th' x).priority }

-- The priority that the formula gives: PRI_MAX - recent_cpu / 4 - 2 * nice in 2 ^ -14ths, where the
-- quotient by 4 is cut towards zero, cut towards zero and then to 0 ... 63.
pub formula : Thread → ℤ
formula r =
    let p = quot (exact (quot r.recent_cpu 4) r.nice) fp_f in
    if ltb_ℤ p (pos 0) then pos 0 else if ltb_ℤ (pos 63) p then pos 63 else p

-- The threads after the loop has gone over `ts`.
abbrev pub Recomputed : ℕ → List ℕ → (ℕ → Thread) → (ℕ → Thread) → Type 0
Recomputed idle ts th th' =
    (x : ℕ)
    → th' x ≡ record (th x) {
      priority = if ltb 0 (times x ts) && not (x == idle) then formula (th x) else (th x).priority;
    }

-- A thread other than the idle one, set to the formula's value.
set_one :
    (th : ℕ → Thread) (t idle : ℕ)
    → (t == idle) ≡ false
    → (p : ℤ) → p ≡ formula (th t)
    → Recomputed idle (t ∷ []) th (update_at th t (λ r. record r { priority = p }))
set_one th t idle e p value x = elim (ℕ_discrete x t) [
  | yes same ↦
      let value' : p ≡ formula (th x) = subst (λ y. p ≡ formula (th y)) (sym same) value in
      ap (λ (q : ℤ). update_at th t (λ r. record r { priority = q }) x) value' ∙ ground arith
  | no other ↦ ground arith
]

update_lem :
    (k : Kernel) (t : ℕ)
    → IsBounded k.thread
    → (th' : ℕ → Thread) × (thread_update_priority k t ≡ some (record k { thread = th' }))
      × Recomputed k.idle_thread (t ∷ []) k.thread th'
unfolding thread_update_priority formula
update_lem k t b = elim (Bool-cases (t == k.idle_thread)) [
  | inl e ↦ (k.thread, if-true _ _ _ e, λ x. ground arith)
  | inr e ↦
      let (p, eq, value, low, high) = thread_calc_priority_lem k t (b t).0 (b t).1 in
      (
        (set_priority k t p).thread,
        if-false _ _ _ e ∙ eq,
        set_one k.thread t k.idle_thread e p value,
      )
]

Reprioritised-IsBounded :
    (th th' : ℕ → Thread) → Reprioritised th th' → IsBounded th → IsBounded th'
Reprioritised-IsBounded th th' r b x = (
  subst IsInt (sym (ap (λ (s : Thread). s.recent_cpu) (r x))) (b x).0,
  subst IsNice (sym (ap (λ (s : Thread). s.nice) (r x))) (b x).1,
)

Recomputed-Reprioritised :
    (idle : ℕ) (ts : List ℕ) (th th' : ℕ → Thread)
    → Recomputed idle ts th th'
    → Reprioritised th th'
Recomputed-Reprioritised idle ts th th' r x =
    r x
    ∙ ap (λ (p : ℤ). record (th x) { priority = p }) (sym (ap (λ (s : Thread). s.priority) (r x)))

-- The formula gives the same priority when it is applied again.
twice :
    (f p : ℤ) (idle x t n : ℕ)
    → (if ltb 0 n && not (x == idle)
        then f
        else if ltb 0 ((if t == x then 1 else 0) + 0) && not (x == idle)
        then f
        else p)
      ≡ (if ltb 0 ((if t == x then 1 else 0) + n) && not (x == idle) then f else p)
twice f p idle x t n = ground arith

Recomputed-cons :
    (idle t : ℕ) (ts : List ℕ) (th th1 th2 : ℕ → Thread)
    → Recomputed idle (t ∷ []) th th1
    → Recomputed idle ts th1 th2
    → Recomputed idle (t ∷ ts) th th2
unfolding formula
Recomputed-cons idle t ts th th1 th2 r s x =
    s x
    ∙ (ap
          (λ (u : Thread). record u {
            priority = if ltb 0 (times x ts) && not (x == idle) then formula u else u.priority;
          })
          (r x)
        ∙ ap (λ (p : ℤ). record (th x) { priority = p })
            (twice (formula (th x)) (th x).priority idle x t (times x ts)))

foreach_lem :
    (ts : List ℕ) (k : Kernel)
    → IsBounded k.thread
    → (th' : ℕ → Thread) × (foreach_from thread_update_priority k ts
        ≡ some (record k { thread = th' }))
      × Recomputed k.idle_thread ts k.thread th'
unfolding foreach_from
foreach_lem [] k b = (k.thread, refl, λ x. refl)
foreach_lem (t ∷ ts) k b =
    let (th1, e1, r1) = update_lem k t b in
    let (th2, e2, r2) =
      foreach_lem ts (record k { thread = th1 })
        (Reprioritised-IsBounded k.thread th1
          (Recomputed-Reprioritised k.idle_thread (t ∷ []) k.thread th1 r1) b) in
    (
      th2,
      ap (λ m. m >>= λ s. foreach_from thread_update_priority s ts) e1 ∙ e2,
      Recomputed-cons k.idle_thread t ts k.thread th1 th2 r1 r2,
    )

-- The state before the test for preemption.
abbrev resorted : Kernel → (ℕ → Thread) → List ℕ → Kernel
resorted k th' queue = record k { thread = th'; ready_list = queue }

resorted-IsValid :
    {k : Kernel} (v : IsValid k) (th' : ℕ → Thread) (queue : List ℕ) (b : Bool)
    → Reprioritised k.thread th'
    → IsSorted (priority_greater th') queue
    → ((x : ℕ) → times x queue ≡ times x k.ready_list)
    → IsValid (record (resorted k th' queue) { yield_on_return = b })
resorted-IsValid {k} v th' queue b r sorted same = record {
  queues = record {
    ready_sorted = sorted;
    ready_once = λ x. omega (arith, same x, v.queues.ready_once x);
    ready_status = λ x p. status x ∙ v.queues.ready_status x (omega (arith, same x));
    sleep_sorted =
        IsSorted-cong _ _ k.sleep_list (λ a c p q. ap₂ (λ (m n : ℕ). ltb m n) (wakeup a) (wakeup c))
          v.queues.sleep_sorted;
    sleep_once = v.queues.sleep_once;
    sleep_status = λ x p. status x ∙ v.queues.sleep_status x p;
    idle_awake = v.queues.idle_awake;
  };
  on_cpu = status k.current ∙ v.on_cpu;
  only = λ x e. v.only x (sym (status x) ∙ e);
}
  where
    status : (x : ℕ) → (th' x).status ≡ (k.thread x).status
    status x = ap (λ (s : Thread). s.status) (r x)

    wakeup : (x : ℕ) → (th' x).wakeup_tick ≡ (k.thread x).wakeup_tick
    wakeup x = ap (λ (s : Thread). s.wakeup_tick) (r x)

-- In an interrupt, from a state that meets the invariant and in which each `recent_cpu` is an `int`
-- and each niceness from -20 to 20, the recomputation at the end of a time slice does not panic and
-- keeps the running thread: each thread of the list of all threads but the idle thread gets the
-- priority PRI_MAX - recent_cpu / 4 - 2 * nice (in 2 ^ -14ths, the quotient cut towards zero, then
-- the difference cut towards zero and to 0 ... 63), nothing else of a thread changes and no other
-- thread does, the run queue is sorted by the new priorities and holds the same threads, and the
-- invariant holds.
pub slice_work_lem :
    {k : Kernel}
    → IsValid k
    → k.intr_context ≡ true
    → IsBounded k.thread
    → (k' : Kernel) × (slice_work k ≡ some k')
      × IsValid k'
      × (k'.current ≡ k.current)
      × Recomputed k.idle_thread k.all_list k.thread k'.thread
      × ((x : ℕ) → times x k'.ready_list ≡ times x k.ready_list)
unfolding slice_work thread_foreach
slice_work_lem {k} v i b =
    let (th', e1, r) = foreach_lem k.all_list k b in
    let (queue, e2, sorted, same) =
      list_sort-IsSorted (priority_greater th') (priority-IsOrder th') k.ready_list in
    let s = resorted k th' queue in
    (
      _,
      ap
            (λ m. m >>= λ k1. list_sort (priority_greater k1.thread) k1.ready_list >>= λ q.
              thread_check_preempt (record k1 { ready_list = q }))
            e1
          ∙ (ap (λ m. m >>= λ q. thread_check_preempt (resorted k th' q)) e2
              ∙ thread_check_preempt_intr s i),
      resorted-IsValid v th' queue (if need_yield s then true else k.yield_on_return)
          (Recomputed-Reprioritised k.idle_thread k.all_list k.thread th' r) sorted
          (λ x. same (λ y. y == x)),
      refl,
      r,
      λ x. same (λ y. y == x),
    )
