-- ===== src/Family/Exit.antt =====
-- `process_exit` of src/userprog/process.c for a process that has waited for its children.
use operating_system.Common.{
  ℕ, ◌+◌, ◌≡◌, refl, ◌∙◌, sym, ap, subst, inl, true, Option, none, some, [], arith, some_injective,
  true≢false,
}
use operating_system.Common.Int.{ℤ}
use operating_system.Family.{
  running, exiting, Proc, Family, put, is_running, is_exiting, release, process_exit,
}
use operating_system.Family.Invariant.{IsSound, Valid, put_self, put-Inv, settle-Inv, leave-Inv}
use operating_system.Family.Steps.{at-IsLive}

-- What `process_exit` of `p` leaves.
pub record Exited (f f' : Family) (p : ℕ) (t : Proc) (status : ℤ) : Type 0 where
  pub keeps : Valid f'
  pub at_end :
      (t' : Proc) × (f' p ≡ some t')
      × (t'.stage ≡ exiting)
      × (t'.exit_status ≡ status)
      × (t'.exit_sema ≡ 1)

pub exit_run :
    (f : Family) (p : ℕ) (t : Proc) (status : ℤ)
    → f p ≡ some t
    → t.stage ≡ running
    → t.has_pagedir ≡ true
    → t.children ≡ []
    → process_exit f p status
      ≡ some (
          put f p (
            some (record t { stage = exiting; exit_status = status; exit_sema = t.exit_sema + 1 })))
unfolding process_exit release
exit_run f p t status e s d c = rw (e, ap is_running s, c, d)

-- From a valid state, `process_exit` of a process that has a page directory and has waited for its
-- children gets to its end.
pub process_exit_lem :
    (f : Family) (p : ℕ) (t : Proc) (status : ℤ)
    → Valid f
    → f p ≡ some t
    → t.stage ≡ running
    → t.has_pagedir ≡ true
    → t.children ≡ []
    → (f' : Family) × (process_exit f p status ≡ some f') × Exited f f' p t status
process_exit_lem f p t status (parent, i) e s d c =
    let y = at-IsLive f parent p t running i e s refl in
    let i1 = leave-Inv f parent p i in
    let t' : Proc = record t {
      stage = exiting;
      exit_status = status;
      exit_sema = t.exit_sema + 1;
    } in
    let f' = put f p (some t') in
    let over : (x : Option ℕ) → IsSound x parent p t' = λ x. record {
      lists = inl (inl refl);
      once = inl (inl refl);
      signals = inl refl;
      stays = (i1.sound p t e).stays;
    } in
    let i2 =
      put-Inv f (some p) parent p t t' i1 e (over (some p))
        (λ k q. absurd (true≢false (ap is_exiting q))) (λ q. refl) in
    let i3 = settle-Inv f' parent p i2 (λ v hv.
      subst (IsSound none parent p) (some_injective (sym (put_self f p (some t')) ∙ hv))
        (over none)) in
    (
      f',
      exit_run f p t status e s d c,
      record {
        keeps = (parent, i3);
        at_end = (t', put_self f p (some t'), refl, refl, omega (arith, y.silent));
      },
    )
