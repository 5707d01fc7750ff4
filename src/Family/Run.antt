-- ===== src/Family/Run.antt =====
-- Runs of parents and children of src/userprog/process.c: every step keeps the state valid.
use operating_system.Common.{
  ℕ, ◌≡◌, ◌≢◌, refl, ◌∙◌, sym, ap, subst, inl, inr, ◌⊎◌, true, false, Option, none, some, List, [],
  ◌∷◌, ◌++◌, arith, if◌then◌else◌, ◌==◌, ==_eq, ==_ne, if-true, if-false, Bool-cases, Option-cases,
  some_injective, none≢some, true≢false, assert-passed,
}
use native.Mathlib.Decide.{ℕ_discrete}
use operating_system.Common.Int.{ℤ}
use operating_system.Family.{
  running, reaping, Proc, Family, put, mem, remove, new_proc, is_running, is_reaping, is_free,
  spawn, execute_loaded, process_exit, wait_reap, Event, spawns, starts, sees_loaded, exits,
  releases, dies, sees_exit, reaps, step, is_orderly, all_waited, is_nil,
}
use operating_system.Family.Invariant.{
  IsSound, Inv, Valid, put_self, put_other, put-Inv, adopt-Inv, fresh-Inv,
}
use operating_system.Family.Steps.{
  at-IsLive, running_stage, reaping_stage, passed, start_process-Valid, execute_loaded-Valid,
  die-Valid, wait_exit-Valid, both_true,
}
use operating_system.Family.Reap.{wait_reap_lem}
use operating_system.Family.Exit.{process_exit_lem}

mem-append : (l : List ℕ) (c k : ℕ) → mem (l ++ (c ∷ [])) k ≡ true → (mem l k ≡ true) ⊎ (c ≡ k)
mem-append [] c k h = inr (ground arith)
mem-append (x ∷ l) c k h = elim (ℕ_discrete x k) [
  | yes e ↦ inl (if-true _ _ _ (==_eq e))
  | no ne ↦ elim (mem-append l c k (sym (if-false _ _ _ (==_ne ne)) ∙ h)) [
    | inl m ↦ inl (if-false _ _ _ (==_ne ne) ∙ m)
    | inr e ↦ inr e
  ]
]

once-append :
    (l : List ℕ) (c k : ℕ)
    → mem l c ≡ false
    → mem (remove l k) k ≡ false
    → mem (remove (l ++ (c ∷ [])) k) k ≡ false
once-append [] c k new once = ground arith
once-append (x ∷ l) c k new once = elim (ℕ_discrete x k) [
  | yes e ↦
      let last : mem l k ≡ false =
        ap (λ r. mem r k) (sym (if-true (x == k) l _ (==_eq e))) ∙ once in
      ap (λ r. mem r k) (if-true (x == k) (l ++ (c ∷ [])) _ (==_eq e))
      ∙ not_added last (λ q. head_ne (e ∙ sym q))
  | no ne ↦
      let before : mem (remove l k) k ≡ false =
        sym (if-false (x == k) true (mem (remove l k) k) (==_ne ne))
        ∙ ap (λ r. mem r k) (sym (if-false (x == k) l _ (==_ne ne)))
        ∙ once in
      ap (λ r. mem r k) (if-false (x == k) (l ++ (c ∷ [])) _ (==_ne ne))
      ∙ if-false (x == k) true _ (==_ne ne)
      ∙ once-append l c k tail_new before
]
  where
    head_ne : x ≢ c
    head_ne e = true≢false (sym (if-true (x == c) _ _ (==_eq e)) ∙ new)

    tail_new : mem l c ≡ false
    tail_new = sym (if-false (x == c) _ _ (==_ne head_ne)) ∙ new

    not_added : mem l k ≡ false → c ≢ k → mem (l ++ (c ∷ [])) k ≡ false
    not_added out ne = elim (Bool-cases (mem (l ++ (c ∷ [])) k)) [
      | inr f ↦ f
      | inl t ↦ elim (mem-append l c k t) [
        | inl m ↦ absurd (true≢false (sym m ∙ out))
        | inr q ↦ absurd (ne q)
      ]
    ]

spawn-Valid : (f f' : Family) (p c : ℕ) → Valid f → spawn f p c ≡ some f' → Valid f'
unfolding spawn
spawn-Valid f f' p c (parent, i) h =
    let (t, e, h1) = passed (f p) _ f' h in
    let (run, h2) = assert-passed (is_running t.stage) _ f' h1 in
    let (g, h3) = assert-passed (is_free (f c)) _ f' h2 in
    let free = free_tid (f c) g in
    let y = at-IsLive f parent p t running i e (running_stage t.stage run) refl in
    let orphan : parent c ≡ none = elim (Option-cases (parent c)) [
      | inl n ↦ n
      | inr (q, a) ↦ let (u, hu) = i.there c q a in absurd (none≢some (sym free ∙ hu))
    ] in
    let apart : p ≢ c = λ s. none≢some (sym free ∙ ap f (sym s) ∙ e) in
    let i1 = fresh-Inv f none parent c i free in
    let f1 = put f c (some new_proc) in
    let i2 = adopt-Inv f1 none parent p c new_proc i1 (put_self f c (some new_proc)) refl orphan in
    let e1 : f1 p ≡ some t = put_other f c p (some new_proc) apart ∙ e in
    let parent' : ℕ → Option ℕ = λ j. if j == c then some p else parent j in
    let unlisted : mem t.children c ≡ false = elim (Bool-cases (mem t.children c)) [
      | inr n ↦ n
      | inl m ↦ absurd (none≢some (sym orphan ∙ y.lists c m))
    ] in
    let i3 =
      put-Inv f1 none parent' p t (record t { children = t.children ++ (c ∷ []) }) i2 e1
        (record {
          lists = inr (λ k m. elim (mem-append t.children c k m) [
            | inl old ↦
                if-false (k == c) _ _
                  (==_ne (λ s. none≢some (sym orphan ∙ ap parent (sym s) ∙ y.lists k old)))
                ∙ y.lists k old
            | inr new ↦ if-true (k == c) _ _ (==_eq (sym new))
          ]);
          once = inr (λ k. once-append t.children c k unlisted (y.once k));
          signals = inr y.silent;
          stays = (i2.sound p t e1).stays;
        })
        (λ k s. absurd (true≢false (sym run ∙ ap is_running s))) (λ s. s) in
    (parent', subst (λ k. Inv k none parent') (some_injective h3) i3)
  where
    free_tid : (o : Option Proc) → is_free o ≡ true → o ≡ none
    free_tid none g = refl
    free_tid (some t) g = cc

reaping_now :
    (f f' : Family) (p c : ℕ) (status : ℤ)
    → wait_reap f p c ≡ some (status, f')
    → (t : Proc) × (f p ≡ some t) × (t.stage ≡ reaping c)
unfolding wait_reap
reaping_now f f' p c status h =
    let (t, e, h1) = passed (f p) _ (status, f') h in
    let (g, h2) = assert-passed (is_reaping t.stage c) _ (status, f') h1 in
    (t, e, reaping_stage t.stage c g)

wait_reap-Valid :
    (f f' : Family) (p c : ℕ) (status : ℤ)
    → Valid f
    → wait_reap f p c ≡ some (status, f')
    → Valid f'
wait_reap-Valid f f' p c status v h =
    let (t, e, s) = reaping_now f f' p c status h in
    let (u, g, run, r) = wait_reap_lem f p c t v e s in
    let both : ◌≡◌ {A = ℤ × Family} (u.exit_status, g) (status, f') =
      some_injective (sym run ∙ h) in
    subst Valid (ap (λ q. q.1) both) r.keeps

pub running_now :
    (f f' : Family) (p : ℕ) (status : ℤ)
    → process_exit f p status ≡ some f'
    → (t : Proc) × (f p ≡ some t) × (t.stage ≡ running)
unfolding process_exit
running_now f f' p status h =
    let (t, e, h1) = passed (f p) _ f' h in
    let (g, h2) = assert-passed (is_running t.stage) _ f' h1 in (t, e, running_stage t.stage g)

-- What `all_waited` says of a process.
pub waited :
    (o : Option Proc) (t : Proc)
    → o ≡ some t
    → all_waited o ≡ true
    → (t.has_pagedir ≡ true) × (t.children ≡ [])
waited none t e h = absurd (none≢some e)
waited (some u) t e h =
    let same : u ≡ t = some_injective e in
    let (d, n) = both_true u.has_pagedir (is_nil u.children) h in
    (sym (ap (λ v. v.has_pagedir) same) ∙ d, sym (ap (λ v. v.children) same) ∙ nil u.children n)
  where
    nil : (l : List ℕ) → is_nil l ≡ true → l ≡ []
    nil [] h = refl
    nil (x ∷ l) h = cc

pub process_exit-Valid :
    (f f' : Family) (p : ℕ) (status : ℤ)
    → Valid f
    → all_waited (f p) ≡ true
    → process_exit f p status ≡ some f'
    → Valid f'
process_exit-Valid f f' p status v o h =
    let (t, e, s) = running_now f f' p status h in
    let (d, c) = waited (f p) t e o in
    let (g, run, r) = process_exit_lem f p t status v e s d c in
    subst Valid (some_injective (sym run ∙ h)) r.keeps

-- Whatever a thread does next from a valid state, but for a process that exits before it has waited
-- for its children or without a page directory, the state stays valid.
pub step-Valid :
    (f f' : Family) (e : Event) → Valid f → is_orderly f e ≡ true → step f e ≡ some f' → Valid f'
step-Valid f f' (spawns p c) v o h = spawn-Valid f f' p c v h
step-Valid f f' (starts c success created) v o h = start_process-Valid f f' c success created v h
step-Valid f f' (sees_loaded p c) v o h =
    let (r, e, h1) = passed (execute_loaded f p c) (λ r. some r.1) f' h in
    subst Valid (some_injective h1) (execute_loaded-Valid f r.1 p c r.0 v e)
step-Valid f f' (exits p status) v o h = process_exit-Valid f f' p status v o h
step-Valid f f' (releases p) v o h = absurd (true≢false (sym o))
step-Valid f f' (dies c) v o h = die-Valid f f' c v h
step-Valid f f' (sees_exit p c) v o h = wait_exit-Valid f f' p c v h
step-Valid f f' (reaps p c) v o h =
    let (r, e, h1) = passed (wait_reap f p c) (λ r. some r.1) f' h in
    subst Valid (some_injective h1) (wait_reap-Valid f r.1 p c r.0 v e)

-- A run of events from one state to another, in which each process that exits has a page directory
-- and has waited for its children.
pub data Run (f : Family) : Family → Type 0 where
  begin : Run f f
  next :
      {g g' : Family}
      → Run f g
      → (e : Event) → is_orderly g e ≡ true
      → step g e ≡ some g'
      → Run f g'

-- Every run of the steps of processes - starting a child, the end of `load`, `process_execute` and
-- `process_wait` past their `sema_down`, the end of `process_wait`, `process_exit` of a process
-- that has a page directory and has waited for its children, and the death of a process - leads
-- from a valid state to a valid one: a child that a live process lists is not freed, and one that
-- is being reaped is at the end of `process_exit`.
pub run-Valid : (f g : Family) → Valid f → Run f g → Valid g
run-Valid f g v begin = v
run-Valid f g v (next {g = g0} r e o h) = step-Valid g0 g e (run-Valid f g0 v r) o h

-- One process, `p`, that runs and has no children.
abbrev pub first : ℕ → Family
first p = put (λ q. none) p (some (record new_proc { stage = running }))

pub first-Valid : (p : ℕ) → Valid (first p)
first-Valid p = (
  (λ c. none),
  record {
    sound = λ q t e. sound q t (the q t e);
    there = λ c q e. absurd (none≢some e);
    reaped =
        λ q c t e s. absurd (true≢false (ap is_running (sym (ap (λ v. v.stage) (the q t e)) ∙ s)));
  },
)
  where
    one : Proc
    one = record new_proc { stage = running }

    the : (q : ℕ) (t : Proc) → first p q ≡ some t → t ≡ one
    the q t e = elim (Bool-cases (q == p)) [
      | inl h ↦ some_injective (sym e ∙ if-true (q == p) _ _ h)
      | inr h ↦ absurd (none≢some (sym (if-false (q == p) _ _ h) ∙ e))
    ]

    sound : (q : ℕ) (t : Proc) → t ≡ one → IsSound none (λ c. none) q t
    sound q t e = subst (IsSound none (λ c. none) q) (sym e) (record {
      lists = inr (λ c m. absurd (true≢false (sym m)));
      once = inr (λ c. refl);
      signals = inr refl;
      stays = inl refl;
    })
