-- ===== src/Mlfqs/Aging.antt =====
-- Priority aging in src/threads/thread.c.
use operating_system.Common.{
  ℕ, zero, suc, ◌+◌, ◌≤◌, ◌<◌, ◌≡◌, refl, sym, ap, ap₂, ◌∙◌, true, false, some, List, [], ◌∷◌,
  arith, ◌==◌, ltb, if◌then◌else◌, ◌&&◌, Bool, Bool-cases, subst, inl, inr, if-true, if-false,
  false,
}
use operating_system.Common.Int.{ltb_ℤ, ◌+ℤ◌, ◌≤ℤ◌, pos}
use operating_system.Sched.State.{Thread, Kernel, update_at}
use operating_system.Sched.{priority_greater, need_yield}
use operating_system.Sched.Queues.{times, IsValid, IsSorted-mono, IsSorted-cong}
use operating_system.Sched.Switching.{thread_check_preempt_intr}
use operating_system.Mlfqs.{age_one, age_from, thread_aging}

-- One step of the loop: `n` is how often thread `x` stands in the rest of the queue.
age_step :
    (f : Thread → Thread) (th : ℕ → Thread) (x t n : ℕ)
    → (if t == x then 1 else 0) + n ≤ 1
    → (if ltb 0 n then f (update_at th t f x) else update_at th t f x)
      ≡ (if ltb 0 ((if t == x then 1 else 0) + n) then f (th x) else th x)
age_step f th x t zero h = ground arith
age_step f th x t (suc n) h = ground arith

-- A queue in which each thread stands once ages each of its threads once, and no other.
age_from_lem :
    (ts : List ℕ) (th : ℕ → Thread)
    → ((x : ℕ) → times x ts ≤ 1)
    → (x : ℕ) → age_from th ts x ≡ (if ltb 0 (times x ts) then age_one (th x) else th x)
unfolding age_from
age_from_lem [] th once x = refl
age_from_lem (t ∷ ts) th once x =
    age_from_lem ts (update_at th t age_one) (λ y. omega (arith, once y)) x
    ∙ age_step age_one th x t (times x ts) (once x)

-- Ageing keeps the order of two priorities, although those at PRI_MAX stay.
age_mono :
    (r s : Thread)
    → ltb_ℤ s.priority r.priority ≡ false
    → ltb_ℤ (age_one s).priority (age_one r).priority ≡ false
unfolding ◌+ℤ◌
age_mono r s h = ground arith

-- Ageing adds one to a priority below PRI_MAX, and changes nothing else.
age_one_lem :
    (b : Bool) (r : Thread)
    → (if b then age_one r else r) ≡ record r {
      priority = if b && ltb_ℤ r.priority (pos 63) then r.priority +ℤ pos 1 else r.priority;
    }
age_one_lem true r = elim (Bool-cases (ltb_ℤ r.priority (pos 63))) [
  | inl e ↦ rw (e, if-true)
  | inr e ↦ rw (e, if-false)
]
age_one_lem false r = refl

age_one_max :
    (b : Bool) (r : Thread) → r.priority ≤ℤ pos 63 → (if b then age_one r else r).priority ≤ℤ pos 63
unfolding ◌+ℤ◌
age_one_max b r h = ground arith

-- The state in which `thread_aging` tests for preemption.
abbrev pub aged : Kernel → Kernel
aged k = record k { thread = age_from k.thread k.ready_list }

module _ {k : Kernel} (v : IsValid k) where
  -- What `thread_aging` does to a thread: one more up to PRI_MAX in the run queue, nothing outside.
  pub aged_thread :
      (x : ℕ)
      → (aged k).thread x
        ≡ (if ltb 0 (times x k.ready_list) then age_one (k.thread x) else k.thread x)
  aged_thread = age_from_lem k.ready_list k.thread v.queues.ready_once

  aged_in : (x : ℕ) → 0 < times x k.ready_list → (aged k).thread x ≡ age_one (k.thread x)
  aged_in x p = aged_thread x ∙ ground arith

  pub aged_status : (x : ℕ) → ((aged k).thread x).status ≡ (k.thread x).status
  aged_status x = ap (λ (r : Thread). r.status) (aged_thread x) ∙ ground arith

  aged_wakeup : (x : ℕ) → ((aged k).thread x).wakeup_tick ≡ (k.thread x).wakeup_tick
  aged_wakeup x = ap (λ (r : Thread). r.wakeup_tick) (aged_thread x) ∙ ground arith

  aged_order :
      (a b : ℕ)
      → 0 < times a k.ready_list
      → 0 < times b k.ready_list
      → priority_greater k.thread a b ≡ false
      → priority_greater (aged k).thread a b ≡ false
  aged_order a b p q h =
      ap₂ (λ (r s : Thread). ltb_ℤ s.priority r.priority) (aged_in a p) (aged_in b q)
      ∙ age_mono (k.thread a) (k.thread b) h

  pub aged-IsValid : IsValid (aged k)
  aged-IsValid = record {
    queues = record {
      ready_sorted = IsSorted-mono _ _ k.ready_list aged_order v.queues.ready_sorted;
      ready_once = v.queues.ready_once;
      ready_status = λ x p. aged_status x ∙ v.queues.ready_status x p;
      sleep_sorted =
          IsSorted-cong _ _ k.sleep_list
            (λ a b p q. ap₂ (λ (m n : ℕ). ltb m n) (aged_wakeup a) (aged_wakeup b))
            v.queues.sleep_sorted;
      sleep_once = v.queues.sleep_once;
      sleep_status = λ x p. aged_status x ∙ v.queues.sleep_status x p;
      idle_awake = v.queues.idle_awake;
    };
    on_cpu = aged_status k.current ∙ v.on_cpu;
    only = λ x e. v.only x (sym (aged_status x) ∙ e);
  }

-- In an interrupt, from a state that meets the invariant, `thread_aging` does not panic; it raises
-- by one the priority of each thread of the run queue that is below 63 and changes nothing else of
-- any thread, so that no priority up to 63 gets above it; the invariant holds of the unsorted
-- queue, and a yield is asked for exactly if the head is then above the running thread (an earlier
-- request stays).
pub thread_aging_lem :
    {k : Kernel}
    → IsValid k
    → k.intr_context ≡ true
    → (thread_aging k
        ≡ some (record (aged k) {
          yield_on_return = if need_yield (aged k) then true else k.yield_on_return;
        }))
      × IsValid (aged k)
      × ((x : ℕ)
          → (aged k).thread x ≡ record (k.thread x) {
            priority =
                if ltb 0 (times x k.ready_list) && ltb_ℤ (k.thread x).priority (pos 63)
                then (k.thread x).priority +ℤ pos 1
                else (k.thread x).priority;
          })
      × ((x : ℕ) → (k.thread x).priority ≤ℤ pos 63 → ((aged k).thread x).priority ≤ℤ pos 63)
unfolding thread_aging
thread_aging_lem {k} v i = (
  thread_check_preempt_intr (aged k) i,
  aged-IsValid v,
  λ x. aged_thread v x ∙ age_one_lem (ltb 0 (times x k.ready_list)) (k.thread x),
  λ x h.
      subst (λ (r : Thread). r.priority ≤ℤ pos 63) (sym (aged_thread v x))
        (age_one_max (ltb 0 (times x k.ready_list)) (k.thread x) h),
)
