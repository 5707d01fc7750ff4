-- ===== src/Sched/Queues.antt =====
-- The queues of src/threads/thread.c: the invariant of the run queue and the sleep queue, and the
-- switch to the next thread.
use operating_system.Common.{
  ℕ, ◌+◌, ◌≤◌, ◌<◌, ◌≡◌, ◌≢◌, refl, sym, ap, subst, ◌∙◌, Bool, true, false, some, List, [], ◌∷◌,
  arith, ◌==◌, if◌then◌else◌, All, inl, inr, not, ◌⊎◌,
}
use native.Mathlib.Decide.{ℕ_discrete, dec_lt}
use operating_system.KernelList.{list_insert_ordered}
use operating_system.KernelList.Order.{
  IsOrder, IsSorted, count, count-insert_ordered, insert_ordered-IsSorted,
}
use operating_system.Sched.State.{
  Status, running, ready, blocked, dying, status_eq, Thread, Kernel, update_at,
}
use operating_system.Sched.{
  priority_greater, wakeup_tick_less, set_status, thread_unblock, next_thread_to_run, schedule,
}

-- How often a thread stands in a queue.
abbrev pub times : ℕ → List ℕ → ℕ
times t xs = count (λ x. x == t) xs

pub priority-IsOrder : (th : ℕ → Thread) → IsOrder (priority_greater th)
priority-IsOrder th = record { asym = λ a b h. ground arith; not_trans = λ a b c h k. ground arith }

pub wakeup-IsOrder : (th : ℕ → Thread) → IsOrder (wakeup_tick_less th)
wakeup-IsOrder th = record { asym = λ a b h. ground arith; not_trans = λ a b c h k. ground arith }

pub All-of_times : (P : ℕ → Type 0) (xs : List ℕ) → ((t : ℕ) → 0 < times t xs → P t) → All P xs
All-of_times P [] h = tt
All-of_times P (x ∷ xs) h = (h x (ground arith), All-of_times P xs (λ t p. h t (omega arith)))

pub All-at_times : (P : ℕ → Type 0) (xs : List ℕ) → All P xs → (t : ℕ) → 0 < times t xs → P t
All-at_times P [] h t p = absurd (omega arith)
All-at_times P (x ∷ xs) h t p = elim (ℕ_discrete x t) [
  | yes e ↦ subst P e h.0
  | no ne ↦ All-at_times P xs h.1 t (ground arith)
]

-- A queue stays sorted when the comparison changes on no two of its elements.
pub IsSorted-cong :
    (less less' : ℕ → ℕ → Bool) (xs : List ℕ)
    → ((a b : ℕ) → 0 < times a xs → 0 < times b xs → less' a b ≡ less a b)
    → IsSorted less xs
    → IsSorted less' xs
IsSorted-cong less less' [] h s = tt
IsSorted-cong less less' (x ∷ xs) h s = (
  All-of_times _ xs
      (λ t p. h t x (omega arith) (ground arith) ∙ All-at_times (λ y. less y x ≡ false) xs s.0 t p),
  IsSorted-cong less less' xs (λ a b p q. h a b (omega arith) (omega arith)) s.1,
)

-- Nor does it matter when pairs that were in order stay so.
pub IsSorted-mono :
    (less less' : ℕ → ℕ → Bool) (xs : List ℕ)
    → ((a b : ℕ) → 0 < times a xs → 0 < times b xs → less a b ≡ false → less' a b ≡ false)
    → IsSorted less xs
    → IsSorted less' xs
IsSorted-mono less less' [] h s = tt
IsSorted-mono less less' (x ∷ xs) h s = (
  All-of_times _ xs
      (λ t p. h t x (omega arith) (ground arith) (All-at_times (λ y. less y x ≡ false) xs s.0 t p)),
  IsSorted-mono less less' xs (λ a b p q. h a b (omega arith) (omega arith)) s.1,
)

-- What holds of the queues at every moment, also in the middle of a switch.
pub record AreQueues (k : Kernel) : Type 0 where
  pub ready_sorted : IsSorted (priority_greater k.thread) k.ready_list
  pub ready_once : (t : ℕ) → times t k.ready_list ≤ 1
  pub ready_status : (t : ℕ) → 0 < times t k.ready_list → (k.thread t).status ≡ ready
  pub sleep_sorted : IsSorted (wakeup_tick_less k.thread) k.sleep_list
  pub sleep_once : (t : ℕ) → times t k.sleep_list ≤ 1
  pub sleep_status : (t : ℕ) → 0 < times t k.sleep_list → (k.thread t).status ≡ blocked
  pub idle_awake : times k.idle_thread k.sleep_list ≡ 0

-- Between two operations exactly the current thread is running.
pub record IsValid (k : Kernel) : Type 0 where
  pub queues : AreQueues k
  pub on_cpu : (k.thread k.current).status ≡ running
  pub only : (t : ℕ) → (k.thread t).status ≡ running → t ≡ k.current

-- No thread in the run queue has a higher priority than the running one.
abbrev pub IsBest : Kernel → Type 0
IsBest k = (t : ℕ) → 0 < times t k.ready_list → priority_greater k.thread t k.current ≡ false

-- Threads that keep their priority and their wake-up time.
abbrev pub SameKeys : (ℕ → Thread) → (ℕ → Thread) → Type 0
SameKeys th th' =
    (t : ℕ) → ((th' t).priority ≡ (th t).priority) × ((th' t).wakeup_tick ≡ (th t).wakeup_tick)

priority_cong :
    (th th' : ℕ → Thread)
    → SameKeys th th'
    → (a b : ℕ) → priority_greater th' a b ≡ priority_greater th a b
priority_cong th th' h a b = rw ((h a).0, (h b).0)

wakeup_cong :
    (th th' : ℕ → Thread)
    → SameKeys th th'
    → (a b : ℕ) → wakeup_tick_less th' a b ≡ wakeup_tick_less th a b
wakeup_cong th th' h a b = rw ((h a).1, (h b).1)

-- Sorted queues stay sorted while the keys stay.
pub ready-IsSorted_cong :
    (th th' : ℕ → Thread) (xs : List ℕ)
    → SameKeys th th'
    → IsSorted (priority_greater th) xs
    → IsSorted (priority_greater th') xs
ready-IsSorted_cong th th' xs h = IsSorted-cong _ _ xs (λ a b p r. priority_cong th th' h a b)

pub sleep-IsSorted_cong :
    (th th' : ℕ → Thread) (xs : List ℕ)
    → SameKeys th th'
    → IsSorted (wakeup_tick_less th) xs
    → IsSorted (wakeup_tick_less th') xs
sleep-IsSorted_cong th th' xs h = IsSorted-cong _ _ xs (λ a b p r. wakeup_cong th th' h a b)

pub set_status-SameKeys :
    (k : Kernel) (t : ℕ) (s : Status) → SameKeys k.thread (set_status k t s).thread
set_status-SameKeys k t s x = (ground arith, ground arith)

-- The state after `thread_unblock`.
abbrev pub unblocked : Kernel → ℕ → Kernel
unblocked k t =
    set_status
      (record k { ready_list = list_insert_ordered (priority_greater k.thread) k.ready_list t }) t
      ready

-- `t` is new to the run queue, and gets READY there.
pub ready_added :
    (k : Kernel) (t : ℕ) (th' : ℕ → Thread)
    → AreQueues k
    → (k.thread t).status ≢ ready
    → SameKeys k.thread th'
    → (th' t).status ≡ ready
    → ((x : ℕ) → x ≢ t → (th' x).status ≡ (k.thread x).status)
    → let xs = list_insert_ordered (priority_greater k.thread) k.ready_list t in
      IsSorted (priority_greater th') xs
      × ((x : ℕ) → times x xs ≤ 1)
      × ((x : ℕ) → 0 < times x xs → (th' x).status ≡ ready)
ready_added k t th' q st keys now else' = (
  ready-IsSorted_cong k.thread th' _ keys
      (insert_ordered-IsSorted _ (priority-IsOrder k.thread) k.ready_list t q.ready_sorted),
  λ x. ground (arith, cnt x, q.ready_once x, absent),
  λ x p. elim (ℕ_discrete x t) [
    | yes e ↦ rw e now
    | no ne ↦ else' x ne ∙ q.ready_status x (ground (arith, cnt x))
  ],
)
  where
    cnt :
        (x : ℕ)
        → times x (list_insert_ordered (priority_greater k.thread) k.ready_list t)
          ≡ (if t == x then 1 else 0) + times x k.ready_list
    cnt x = count-insert_ordered _ (λ y. y == x) k.ready_list t

    absent : times t k.ready_list ≡ 0
    absent = elim (dec_lt 0 (times t k.ready_list)) [
      | yes p ↦ absurd (st (q.ready_status t p))
      | no np ↦ omega arith
    ]

module _ {k : Kernel} (q : AreQueues k) (t : ℕ) (st : (k.thread t).status ≡ blocked) where
  pub thread_unblock-some : thread_unblock k t ≡ some (unblocked k t)
  unfolding thread_unblock
  thread_unblock-some = rw st

  -- A blocked thread that does not sleep goes to its place in the run queue, and is READY.
  pub unblocked-AreQueues : times t k.sleep_list ≡ 0 → AreQueues (unblocked k t)
  unblocked-AreQueues out =
      let r =
        ready_added k t (unblocked k t).thread q (λ e. clash (sym st ∙ e))
          (set_status-SameKeys k t ready) (ground arith) (λ x ne. ground arith) in
      record {
        ready_sorted = r.0;
        ready_once = r.1;
        ready_status = r.2;
        sleep_sorted =
            sleep-IsSorted_cong k.thread (unblocked k t).thread k.sleep_list
              (set_status-SameKeys k t ready) q.sleep_sorted;
        sleep_once = q.sleep_once;
        sleep_status = λ x p. ground (arith, q.sleep_status x);
        idle_awake = q.idle_awake;
      }
    where
      clash : blocked ≢ ready
      clash e = cc

-- The state after a switch to `t`, with `rest` left in the run queue.
abbrev pub switched : Kernel → ℕ → List ℕ → Kernel
switched k t rest =
    set_status (record k { ready_list = rest; current = t; thread_ticks = 0 }) t running

abbrev pub NoneRunning : Kernel → Type 0
NoneRunning k = (t : ℕ) → (k.thread t).status ≢ running

not_running : (s : Status) → s ≢ running → not (status_eq s running) ≡ true
not_running running h = absurd (h refl)
not_running ready h = refl
not_running blocked h = refl
not_running dying h = refl

schedule-some :
    (k : Kernel)
    → NoneRunning k
    → schedule k ≡ some (switched k (next_thread_to_run k).0 (next_thread_to_run k).1)
unfolding schedule
schedule-some k nr = rw (not_running (k.thread k.current).status (nr k.current))

-- A switch leaves the keys of the threads alone.
switched-SameKeys :
    (k : Kernel) (t : ℕ) (rest : List ℕ) → SameKeys k.thread (switched k t rest).thread
switched-SameKeys k t rest x = (ground arith, ground arith)

-- The queues after a switch to `t`, which leaves the run queue or was not in it.
switched-IsValid :
    (k : Kernel) (t : ℕ) (rest : List ℕ)
    → AreQueues k
    → NoneRunning k
    → IsSorted (priority_greater k.thread) rest
    → ((x : ℕ) → times x rest + (if t == x then 1 else 0) ≤ 1)
    → ((x : ℕ) → 0 < times x rest → (k.thread x).status ≡ ready)
    → times t k.sleep_list ≡ 0
    → IsValid (switched k t rest)
switched-IsValid k t rest q nr s once st awake =
    let keys = switched-SameKeys k t rest in
    record {
      queues = record {
        ready_sorted = ready-IsSorted_cong k.thread (switched k t rest).thread rest keys s;
        ready_once = λ x. omega (arith, once x);
        ready_status = λ x p. ground (arith, st x, once x);
        sleep_sorted =
            sleep-IsSorted_cong k.thread (switched k t rest).thread k.sleep_list keys
              q.sleep_sorted;
        sleep_once = q.sleep_once;
        sleep_status = λ x p. ground (arith, q.sleep_status x);
        idle_awake = q.idle_awake;
      };
      on_cpu = ground arith;
      only = λ x e. ground (arith, nr x);
    }

-- What `schedule` does when no thread runs any more: it never panics, a thread runs, and no thread
-- that is left in the run queue has a higher priority; the idle thread runs only if the queue is
-- empty.
pub record Switched (k k' : Kernel) : Type 0 where
  pub call : schedule k ≡ some k'
  pub valid : IsValid k'
  pub best : IsBest k'
  pub head :
      (k'.current ∷ k'.ready_list ≡ k.ready_list)
      ⊎ ((k.ready_list ≡ []) × (k'.ready_list ≡ []) × (k'.current ≡ k.idle_thread))
  pub statuses : k'.thread ≡ update_at k.thread k'.current (λ r. record r { status = running })
  pub sleepers : k'.sleep_list ≡ k.sleep_list
  pub idle : k'.idle_thread ≡ k.idle_thread
  pub context : k'.intr_context ≡ k.intr_context

head-IsBest :
    (k : Kernel) (t : ℕ) (ts : List ℕ)
    → All (λ y. priority_greater k.thread y t ≡ false) ts
    → IsBest (switched k t ts)
head-IsBest k t ts h x p =
    let before = All-at_times (λ y. priority_greater k.thread y t ≡ false) ts h x p in
    priority_cong k.thread (switched k t ts).thread (switched-SameKeys k t ts) x t ∙ before

next_lem :
    (k : Kernel) (t : ℕ) (ts : List ℕ) → k.ready_list ≡ t ∷ ts → next_thread_to_run k ≡ (t, ts)
unfolding next_thread_to_run
next_lem k t ts e = ground arith

next-nil : (k : Kernel) → k.ready_list ≡ [] → next_thread_to_run k ≡ (k.idle_thread, [])
unfolding next_thread_to_run
next-nil k e = ground arith

schedule_at :
    (k : Kernel) (t : ℕ) (ts : List ℕ)
    → NoneRunning k
    → next_thread_to_run k ≡ (t, ts)
    → schedule k ≡ some (switched k t ts)
schedule_at k t ts nr e = schedule-some k nr ∙ ap (λ (p : ℕ × List ℕ). some (switched k p.0 p.1)) e

schedule_to :
    (k : Kernel)
    → AreQueues k
    → NoneRunning k
    → (xs : List ℕ) → k.ready_list ≡ xs
    → (k' : Kernel) × Switched k k'
schedule_to k q nr [] e = (
  switched k k.idle_thread [],
  record {
    call = schedule_at k k.idle_thread [] nr (next-nil k e);
    valid =
        switched-IsValid k k.idle_thread [] q nr tt (λ x. ground arith)
          (λ x p. absurd (omega arith)) q.idle_awake;
    best = λ t p. absurd (omega arith);
    head = inr (e, refl, refl);
    statuses = refl;
    sleepers = refl;
    idle = refl;
    context = refl;
  },
)
schedule_to k q nr (t ∷ ts) e =
    let sorted : IsSorted (priority_greater k.thread) (t ∷ ts) =
      subst (IsSorted (priority_greater k.thread)) e q.ready_sorted in
    let once : (x : ℕ) → times x (t ∷ ts) ≤ 1 =
      λ x. subst (λ xs. times x xs ≤ 1) e (q.ready_once x) in
    let status : (x : ℕ) → 0 < times x (t ∷ ts) → (k.thread x).status ≡ ready =
      λ x. subst (λ xs. 0 < times x xs → (k.thread x).status ≡ ready) e (q.ready_status x) in
    (
      switched k t ts,
      record {
        call = schedule_at k t ts nr (next_lem k t ts e);
        valid =
            switched-IsValid k t ts q nr sorted.1 (λ x. omega (arith, once x))
              (λ x p. status x (omega arith)) (awake (status t (ground arith)));
        best = head-IsBest k t ts sorted.0;
        head = inl (sym e);
        statuses = refl;
        sleepers = refl;
        idle = refl;
        context = refl;
      },
    )
  where
    ready_blocked : ready ≢ blocked
    ready_blocked h = cc

    awake : (k.thread t).status ≡ ready → times t k.sleep_list ≡ 0
    awake st = elim (dec_lt 0 (times t k.sleep_list)) [
      | yes p ↦ absurd (ready_blocked (sym st ∙ q.sleep_status t p))
      | no np ↦ omega arith
    ]

-- When the queues are in order and no thread is RUNNING, `schedule` does not panic: a thread runs,
-- the invariant holds, and no thread of the run queue has a higher priority than it; the sleep
-- queue and the other threads are as before.
pub schedule-Switched : (k : Kernel) → AreQueues k → NoneRunning k → (k' : Kernel) × Switched k k'
schedule-Switched k q nr = schedule_to k q nr k.ready_list refl
