-- ===== src/Family/Freed.antt =====
-- Where `process_exit` of src/userprog/process.c lets a thread be read after its page was freed.
use operating_system.Common.{
  ℕ, ◌+◌, ◌≡◌, ◌≢◌, ◌∙◌, sym, ap, true, false, none, some, List, [], ◌∷◌, arith, ltb,
  some_injective, true≢false,
}
use operating_system.Common.Int.{ℤ}
use operating_system.Family.{
  running, releasing, exiting, Proc, Family, put, mem, is_running, is_exiting, release,
  process_exit, release_next, die, wait_exit, execute_loaded,
}
use operating_system.Family.Invariant.{put_self, put_other}

module _ (f : Family) (p c : ℕ) (t u : Proc) (status : ℤ) (at_p : f p ≡ some t)
    (at_c : f c ≡ some u) where
  abbrev first_up : Family
  first_up = put f c (some (record u { destroy_sema = u.destroy_sema + 1 }))

  -- The first child is signalled.
  abbrev signalled : Family
  signalled = put first_up p (some (record t { exit_status = status; stage = releasing c }))

  signals_first :
      (cs : List ℕ)
      → t.stage ≡ running
      → t.children ≡ c ∷ cs
      → process_exit f p status ≡ some signalled
  unfolding process_exit release
  signals_first cs s l = rw (at_p, ap is_running s, l, at_c)

  child_at : c ≢ p → signalled c ≡ some (record u { destroy_sema = u.destroy_sema + 1 })
  child_at ne = put_other first_up p c _ ne ∙ put_self f c _

  child_dies : c ≢ p → u.stage ≡ exiting → die signalled c ≡ some (put signalled c none)
  unfolding die
  child_dies ne s =
      let more : ltb 0 (u.destroy_sema + 1) ≡ true = ground arith in
      rw (child_at ne, ap is_exiting s, more)

  reads_freed : p ≢ c → release_next (put signalled c none) p ≡ none
  unfolding release_next
  reads_freed ne =
      rw (put_other signalled c p none ne ∙ put_self first_up p _, put_self signalled c none)

-- If the first child that a running process lists is at the end of `process_exit`, then the
-- `process_exit` of the process gets past the `sema_up` of that child, the child can then die, and
-- after that the next step of the loop over the children reads the freed page of the child.
pub exit_reads_freed :
    (f : Family) (p c : ℕ) (cs : List ℕ) (t u : Proc) (status : ℤ)
    → f p ≡ some t
    → t.stage ≡ running
    → t.children ≡ c ∷ cs
    → f c ≡ some u
    → u.stage ≡ exiting
    → (f1 : Family) × (f2 : Family) × (process_exit f p status ≡ some f1)
      × (die f1 c ≡ some f2)
      × (release_next f2 p ≡ none)
exit_reads_freed f p c cs t u status at_p s l at_c end =
    let apart : c ≢ p = λ q. true≢false (
      sym (ap is_exiting end)
      ∙ ap (λ v. is_exiting v.stage) (some_injective (sym at_c ∙ ap f q ∙ at_p))
      ∙ ap is_exiting s) in
    (
      _,
      _,
      signals_first f p c t u status at_p at_c cs s l,
      child_dies f p c t u status at_p at_c apart end,
      reads_freed f p c t u status at_p at_c (λ q. apart (sym q)),
    )

dies_at_once :
    (f : Family) (c : ℕ) (u : Proc) (status : ℤ)
    → f c ≡ some u
    → u.stage ≡ running
    → u.has_pagedir ≡ false
    → u.children ≡ []
    → process_exit f c status ≡ some (put f c none)
unfolding process_exit release
dies_at_once f c u status e s d l = rw (e, ap is_running s, l, d)

-- If a running process lists a child that runs without a page directory and has no children, then
-- `process_exit` of the child frees it at once, its parent still lists it, and both a
-- `process_wait` and a `process_execute` of the parent that wait for that child read the freed page.
pub exit_leaves_listed :
    (f : Family) (p c : ℕ) (t u : Proc) (status : ℤ)
    → f p ≡ some t
    → t.stage ≡ running
    → mem t.children c ≡ true
    → p ≢ c
    → f c ≡ some u
    → u.stage ≡ running
    → u.has_pagedir ≡ false
    → u.children ≡ []
    → (f' : Family) × (process_exit f c status ≡ some f')
      × (f' p ≡ some t)
      × (f' c ≡ none)
      × (wait_exit f' p c ≡ none)
      × (execute_loaded f' p c ≡ none)
unfolding wait_exit execute_loaded
exit_leaves_listed f p c t u status at_p s m apart at_c sc d l =
    let stays : put f c none p ≡ some t = put_other f c p none apart ∙ at_p in
    (
      put f c none,
      dies_at_once f c u status at_c sc d l,
      stays,
      put_self f c none,
      rw (stays, ap is_running s, m, put_self f c none),
      rw (stays, ap is_running s, m, put_self f c none),
    )
