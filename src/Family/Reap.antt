-- ===== src/Family/Reap.antt =====
-- `process_wait` of src/userprog/process.c past its `sema_down`, from a valid state: the child is there.
use operating_system.Common.{
  ℕ, ◌+◌, ◌≡◌, ◌≢◌, refl, ◌∙◌, sym, ap, subst, inl, inr, true, false, Option, none, some, List, [],
  ◌∷◌, arith, if◌then◌else◌, ◌==◌, ltb, ==_eq, ==_ne, if-true, if-false, Bool-cases, some_injective,
  true≢false, lt→ltb,
}
use operating_system.Family.{
  running, reaping, exiting, Proc, Family, put, mem, remove, is_running, is_exiting, is_reaping,
  die, wait_reap,
}
use operating_system.Family.Invariant.{
  IsSound, Valid, put_self, put_other, put-Inv, orphan-Inv, settle-Inv, leave-Inv,
}
use operating_system.Family.Steps.{at-IsLive}

-- A removed child is not listed, and the others are.
mem-remove : (l : List ℕ) (c k : ℕ) → mem (remove l c) k ≡ true → mem l k ≡ true
mem-remove [] c k h = h
mem-remove (x ∷ l) c k h = ground (arith, mem-remove l c k)

once-remove :
    (l : List ℕ) (c k : ℕ)
    → ((j : ℕ) → mem (remove l j) j ≡ false)
    → mem (remove (remove l c) k) k ≡ false
once-remove l c k once = elim (Bool-cases (mem (remove (remove l c) k) k)) [
  | inr f ↦ f
  | inl t ↦ absurd (true≢false (sym (twice l c k t) ∙ once k))
]
  where
    twice :
        (l : List ℕ) (c k : ℕ) → mem (remove (remove l c) k) k ≡ true → mem (remove l k) k ≡ true
    twice [] c k h = h
    twice (x ∷ l) c k h = ground (arith, twice l c k, mem-remove l c k, mem-remove l k k)

-- What the parent `p` finds when it reaps its child `c`, and what it leaves.
pub record Reaped (f f' : Family) (p c : ℕ) (t u : Proc) : Type 0 where
  pub child : f c ≡ some u
  pub at_end : u.stage ≡ exiting
  pub keeps : Valid f'
  pub unlisted : (t' : Proc) × (f' p ≡ some t') × (mem t'.children c ≡ false) × (t'.stage ≡ running)
  pub may_die : die f' c ≡ some (put f' c none)

reap_run :
    (f : Family) (p c : ℕ) (t u : Proc)
    → f p ≡ some t
    → is_reaping t.stage c ≡ true
    → f c ≡ some u
    → wait_reap f p c
      ≡ some (
        u.exit_status,
        put
            (put f c (some (record u { destroy_sema = u.destroy_sema + 1 })))
            p
            (some (record t { stage = running; children = remove t.children c })),
      )
unfolding wait_reap
reap_run f p c t u e g h = rw (e, g, h)

die_run :
    (f : Family) (c : ℕ) (u : Proc)
    → f c ≡ some u
    → is_exiting u.stage ≡ true
    → ltb 0 u.destroy_sema ≡ true
    → die f c ≡ some (put f c none)
unfolding die
die_run f c u e g h = rw (e, g, h)

-- In a valid state, a parent in `process_wait` past the `sema_down` finds its child still there, at the
-- end of `process_exit`, and returns the status that the child stored. Afterwards the parent does not
-- list the child any more, the child can go past its own `sema_down` and die, and the state is valid.
pub wait_reap_lem :
    (f : Family) (p c : ℕ) (t : Proc)
    → Valid f
    → f p ≡ some t
    → t.stage ≡ reaping c
    → (u : Proc) × (f' : Family) × (wait_reap f p c ≡ some (u.exit_status, f'))
      × Reaped f f' p c t u
wait_reap_lem f p c t (parent, i) e s =
    let (m, u, h, end) = i.reaped p c t e s in
    let y = at-IsLive f parent p t (reaping c) i e s refl in
    let apart : p ≢ c = λ q.
      let same : t ≡ u = some_injective (sym e ∙ ap f q ∙ h) in
      true≢false (ap is_exiting (sym end ∙ sym (ap (λ v. v.stage) same) ∙ s)) in
    let u' : Proc = record u { destroy_sema = u.destroy_sema + 1 } in
    let t' : Proc = record t { stage = running; children = remove t.children c } in
    let parent' : ℕ → Option ℕ = λ j. if j == c then none else parent j in
    let f1 = put f c (some u') in
    let f2 = put f1 p (some t') in
    let i1 =
      orphan-Inv f (some p) parent c (leave-Inv f parent p i)
        (λ q v hq mq pq. inr (sym (y.lists c m) ∙ pq)) in
    let z = i1.sound c u h in
    let over : is_exiting u.stage ≡ true = ap is_exiting end in
    let i2 =
      put-Inv f (some p) parent' c u u' i1 h
        (record {
          lists = inl (inl over);
          once = inl (inl over);
          signals = inl over;
          stays = inl (if-true (c == c) _ _ (==_eq refl));
        })
        (λ k q. i1.reaped c k u h q) (λ q. q) in
    let e1 : f1 p ≡ some t = put_other f c p (some u') apart ∙ e in
    let sound : (x : Option ℕ) → IsSound x parent' p t' = λ x. record {
      lists = inr (λ k mk.
          if-false (k == c) _ _
            (==_ne (λ q. true≢false (sym mk ∙ ap (mem (remove t.children c)) q ∙ y.once c)))
          ∙ y.lists k (mem-remove t.children c k mk));
      once = inr (λ k. once-remove t.children c k y.once);
      signals = inr y.silent;
      stays = elim y.stays [
        | inl n ↦ inl (if-false (p == c) _ _ (==_ne apart) ∙ n)
        | inr d ↦ inr d
      ];
    } in
    let i3 =
      put-Inv f1 (some p) parent' p t t' i2 e1 (sound (some p))
        (λ k q. absurd (true≢false (ap is_running q)))
        (λ q. absurd (true≢false (sym (ap is_exiting q) ∙ ap is_exiting s))) in
    let i4 = settle-Inv f2 parent' p i3 (λ v hv.
      subst (IsSound none parent' p) (some_injective (sym (put_self f1 p (some t')) ∙ hv))
        (sound none)) in
    (
      u,
      f2,
      reap_run f p c t u e (ap (λ v. is_reaping v c) s ∙ ==_eq refl) h,
      record {
        child = h;
        at_end = end;
        keeps = (parent', i4);
        unlisted = (t', put_self f1 p (some t'), y.once c, refl);
        may_die =
            die_run f2 c u'
              (put_other f1 p c (some t') (λ q. apart (sym q)) ∙ put_self f c (some u')) over
              (lt→ltb 0 (u.destroy_sema + 1) (omega arith));
      },
    )
