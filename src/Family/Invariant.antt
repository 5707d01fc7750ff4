-- ===== src/Family/Invariant.antt =====
-- The invariant of parents and children in src/userprog/process.c: a child that a live parent lists is
-- not freed. Every step keeps it.
use operating_system.Common.{
  ℕ, ◌≡◌, ◌≢◌, refl, ◌∙◌, sym, ap, subst, inl, inr, ◌⊎◌, true, false, Option, none, some, List,
  if◌then◌else◌, ◌==◌, ==_eq, ==_ne, if-true, if-false, Bool-cases, some_injective, none≢some,
  true≢false,
}
use native.Mathlib.Decide.{ℕ_discrete}
use operating_system.Family.{
  loading, reaping, exiting, Proc, Family, put, mem, remove, new_proc, is_exiting,
}

-- A process at its end, or the one that `process_exit` is at work on.
abbrev pub IsLeaving : Option ℕ → ℕ → Proc → Type 0
IsLeaving x p t = (is_exiting t.stage ≡ true) ⊎ (x ≡ some p)

-- What holds of the thread `t` of tid `p`, if `parent` gives each child its live parent.
pub record IsSound (x : Option ℕ) (parent : ℕ → Option ℕ) (p : ℕ) (t : Proc) : Type 0 where
  -- A live process lists its children only, and none twice.
  pub lists : IsLeaving x p t ⊎ ((c : ℕ) → mem t.children c ≡ true → parent c ≡ some p)
  pub once : IsLeaving x p t ⊎ ((c : ℕ) → mem (remove t.children c) c ≡ false)
  -- Only a process at its end has signalled it.
  pub signals : (is_exiting t.stage ≡ true) ⊎ (t.exit_sema ≡ 0)
  -- A process with a live parent may not die yet.
  pub stays : (parent p ≡ none) ⊎ (t.destroy_sema ≡ 0)

-- The child `c` of a process with these children is listed and at its end.
abbrev pub IsReaped : Family → List ℕ → ℕ → Type 0
IsReaped f children c = (mem children c ≡ true) × (u : Proc) × (f c ≡ some u) × (u.stage ≡ exiting)

-- Every thread is sound, and every child of a live parent is there; a child that is being reaped is
-- listed and at its end.
pub record Inv (f : Family) (x : Option ℕ) (parent : ℕ → Option ℕ) : Type 0 where
  pub sound : (p : ℕ) (t : Proc) → f p ≡ some t → IsSound x parent p t
  pub there : (c p : ℕ) → parent c ≡ some p → (t : Proc) × (f c ≡ some t)
  pub reaped : (p c : ℕ) (t : Proc) → f p ≡ some t → t.stage ≡ reaping c → IsReaped f t.children c

pub put_self : (f : Family) (p : ℕ) (o : Option Proc) → put f p o p ≡ o
put_self f p o = if-true (p == p) _ _ (==_eq refl)

pub put_other : (f : Family) (p q : ℕ) (o : Option Proc) → q ≢ p → put f p o q ≡ f q
put_other f p q o ne = if-false (q == p) _ _ (==_ne ne)

-- A thread is exchanged for one that is sound as well and as far.
pub put-Inv :
    (f : Family) (x : Option ℕ) (parent : ℕ → Option ℕ) (p : ℕ) (t t' : Proc)
    → Inv f x parent
    → f p ≡ some t
    → IsSound x parent p t'
    → ((c : ℕ) → t'.stage ≡ reaping c → IsReaped f t'.children c)
    → (t.stage ≡ exiting → t'.stage ≡ exiting)
    → Inv (put f p (some t')) x parent
put-Inv f x parent p t t' i h ok reaps' ends = record {
  sound = λ q u e. elim (ℕ_discrete q p) [
    | no ne ↦ i.sound q u (sym (put_other f p q (some t') ne) ∙ e)
    | yes s ↦
        subst (IsSound x parent q)
          (some_injective (sym (put_self f p (some t')) ∙ ap (put f p (some t')) (sym s) ∙ e))
          (subst (λ k. IsSound x parent k t') (sym s) ok)
  ];
  there = λ c q e. elim (ℕ_discrete c p) [
    | no ne ↦ let (u, h') = i.there c q e in (u, put_other f p c (some t') ne ∙ h')
    | yes s ↦ (t', ap (put f p (some t')) s ∙ put_self f p (some t'))
  ];
  reaped = λ q c u e g. elim (ℕ_discrete q p) [
    | no ne ↦
        let (m, w, hw, end) = i.reaped q c u (sym (put_other f p q (some t') ne) ∙ e) g in
        (let (a, b, d) = still c w hw end in (m, a, b, d))
    | yes s ↦
        let same : t' ≡ u =
          some_injective (sym (put_self f p (some t')) ∙ ap (put f p (some t')) (sym s) ∙ e) in
        let (m, w, hw, end) = reaps' c (ap (λ v. v.stage) same ∙ g) in
        (let (a, b, d) = still c w hw end in (subst (λ v. mem v.children c ≡ true) same m, a, b, d))
  ];
}
  where
    still :
        (c : ℕ) (w : Proc)
        → f c ≡ some w
        → w.stage ≡ exiting
        → (u : Proc) × (put f p (some t') c ≡ some u) × (u.stage ≡ exiting)
    still c w hw x = elim (ℕ_discrete c p) [
      | no ne ↦ (w, put_other f p c (some t') ne ∙ hw, x)
      | yes s ↦
          let same : t ≡ w = some_injective (sym h ∙ ap f (sym s) ∙ hw) in
          (t', ap (put f p (some t')) s ∙ put_self f p (some t'), ends (ap (λ v. v.stage) same ∙ x))
    ]

-- `c` loses its parent, which does not list it any more or is leaving.
pub orphan-Inv :
    (f : Family) (x : Option ℕ) (parent : ℕ → Option ℕ) (c : ℕ)
    → Inv f x parent
    → ((q : ℕ) (t : Proc)
        → f q ≡ some t
        → mem t.children c ≡ true
        → parent c ≡ some q
        → IsLeaving x q t)
    → Inv f x (λ j. if j == c then none else parent j)
orphan-Inv f x parent c i left = record {
  sound = λ q t e.
      let y = i.sound q t e in
      record {
        lists = elim y.lists [
          | inl l ↦ inl l
          | inr l ↦ listed q t e l (Bool-cases (mem t.children c))
        ];
        once = y.once;
        signals = y.signals;
        stays = elim (Bool-cases (q == c)) [
          | inl s ↦ inl (if-true (q == c) _ _ s)
          | inr ne ↦ elim y.stays [ inl n ↦ inl (if-false (q == c) _ _ ne ∙ n) | inr d ↦ inr d ]
        ];
      };
  there = λ k q e. i.there k q (was k q e (Bool-cases (k == c)));
  reaped = i.reaped;
}
  where
    was :
        (k q : ℕ)
        → (if k == c then none else parent k) ≡ some q
        → ((k == c) ≡ true) ⊎ ((k == c) ≡ false)
        → parent k ≡ some q
    was k q e (inl s) = absurd (none≢some (sym (if-true (k == c) _ _ s) ∙ e))
    was k q e (inr ne) = sym (if-false (k == c) _ _ ne) ∙ e

    listed :
        (q : ℕ) (t : Proc)
        → f q ≡ some t
        → ((k : ℕ) → mem t.children k ≡ true → parent k ≡ some q)
        → (mem t.children c ≡ true) ⊎ (mem t.children c ≡ false)
        → IsLeaving x q t
          ⊎ ((k : ℕ) → mem t.children k ≡ true → (if k == c then none else parent k) ≡ some q)
    listed q t e l (inl m) = inl (left q t e m (l c m))
    listed q t e l (inr m) = inr (λ k mk. elim (ℕ_discrete k c) [
      | yes s ↦ let bad : true ≡ false = sym mk ∙ ap (mem t.children) s ∙ m in cc
      | no ne ↦ if-false (k == c) _ _ (==_ne ne) ∙ l k mk
    ])

-- `c`, which had no parent, becomes a child of `p`.
pub adopt-Inv :
    (f : Family) (x : Option ℕ) (parent : ℕ → Option ℕ) (p c : ℕ) (u : Proc)
    → Inv f x parent
    → f c ≡ some u
    → u.destroy_sema ≡ 0
    → parent c ≡ none
    → Inv f x (λ j. if j == c then some p else parent j)
adopt-Inv f x parent p c u i h zero' free = record {
  sound = λ q t e.
      let y = i.sound q t e in
      record {
        lists = elim y.lists [
          | inl l ↦ inl l
          | inr l ↦ inr (λ k m.
              if-false (k == c) _ _ (==_ne (λ s. none≢some (sym free ∙ ap parent (sym s) ∙ l k m)))
              ∙ l k m)
        ];
        once = y.once;
        signals = y.signals;
        stays = elim (ℕ_discrete q c) [
          | yes s ↦ inr (ap (λ v. v.destroy_sema) (some_injective (sym e ∙ ap f s ∙ h)) ∙ zero')
          | no ne ↦ elim y.stays [
            | inl n ↦ inl (if-false (q == c) _ _ (==_ne ne) ∙ n)
            | inr d ↦ inr d
          ]
        ];
      };
  there = λ k q e. elim (ℕ_discrete k c) [
    | yes s ↦ (u, ap f s ∙ h)
    | no ne ↦ i.there k q (sym (if-false (k == c) _ _ (==_ne ne)) ∙ e)
  ];
  reaped = i.reaped;
}

-- A thread of a tid that was free.
pub fresh-Inv :
    (f : Family) (x : Option ℕ) (parent : ℕ → Option ℕ) (c : ℕ)
    → Inv f x parent
    → f c ≡ none
    → Inv (put f c (some new_proc)) x parent
fresh-Inv f x parent c i free = record {
  sound = λ q t e. elim (ℕ_discrete q c) [
    | no ne ↦ i.sound q t (sym (put_other f c q (some new_proc) ne) ∙ e)
    | yes s ↦
        subst (IsSound x parent q)
          (some_injective
            (sym (put_self f c (some new_proc)) ∙ ap (put f c (some new_proc)) (sym s) ∙ e))
          (record {
            lists = inr (λ k m. cc);
            once = inr (λ k. refl);
            signals = inr refl;
            stays = inr refl;
          })
  ];
  there =
      λ k q e. let (t, h) = i.there k q e in (t, put_other f c k (some new_proc) (other k t h) ∙ h);
  reaped = λ q k t e g. elim (ℕ_discrete q c) [
    | no ne ↦
        let (m, u, h, end) = i.reaped q k t (sym (put_other f c q (some new_proc) ne) ∙ e) g in
        (m, u, put_other f c k (some new_proc) (other k u h) ∙ h, end)
    | yes s ↦
        let same : new_proc ≡ t =
          some_injective
            (sym (put_self f c (some new_proc)) ∙ ap (put f c (some new_proc)) (sym s) ∙ e) in
        absurd (loading_only k (ap (λ v. v.stage) same ∙ g))
  ];
}
  where
    other : (k : ℕ) (t : Proc) → f k ≡ some t → k ≢ c
    other k t h s = none≢some (sym free ∙ ap f (sym s) ∙ h)

    loading_only : (k : ℕ) → loading ≢ reaping k
    loading_only k e = cc

-- `c`, which has no parent, dies.
pub die-Inv :
    (f : Family) (parent : ℕ → Option ℕ) (c : ℕ)
    → Inv f none parent
    → parent c ≡ none
    → Inv (put f c none) none parent
die-Inv f parent c i free = record {
  sound = λ q t e. i.sound q t (was q t e);
  there = λ k q e.
      let (t, h) = i.there k q e in
      (t, put_other f c k none (λ s. none≢some (sym free ∙ ap parent (sym s) ∙ e)) ∙ h);
  reaped = λ q k t e g.
      let (m, u, h, end) = i.reaped q k t (was q t e) g in
      (
        m,
        u,
        put_other f c k none
              (λ s. none≢some (sym free ∙ ap parent (sym s) ∙ child q k t (was q t e) g m))
            ∙ h,
        end,
      );
}
  where
    was : (q : ℕ) (t : Proc) → put f c none q ≡ some t → f q ≡ some t
    was q t e = elim (ℕ_discrete q c) [
      | no ne ↦ sym (put_other f c q none ne) ∙ e
      | yes s ↦ absurd (none≢some (sym (put_self f c none) ∙ ap (put f c none) (sym s) ∙ e))
    ]

    child :
        (q k : ℕ) (t : Proc)
        → f q ≡ some t
        → t.stage ≡ reaping k
        → mem t.children k ≡ true
        → parent k ≡ some q
    child q k t e g m = elim (i.sound q t e).lists [
      | inr l ↦ l k m
      | inl left ↦ absurd (elim left [
        | inl z ↦ let bad : false ≡ true = sym (ap is_exiting g) ∙ z in true≢false (sym bad)
        | inr z ↦ none≢some z
      ])
    ]

-- Once the process in the middle of `process_exit` is sound by itself, no process is.
pub settle-Inv :
    (f : Family) (parent : ℕ → Option ℕ) (p : ℕ)
    → Inv f (some p) parent
    → ((t : Proc) → f p ≡ some t → IsSound none parent p t)
    → Inv f none parent
settle-Inv f parent p i ok = record {
  sound = λ q t e. elim (ℕ_discrete q p) [
    | yes s ↦ subst (λ k. IsSound none parent k t) (sym s) (ok t (ap f (sym s) ∙ e))
    | no ne ↦
        let y = i.sound q t e in
        record {
          lists = elim y.lists [ inl l ↦ inl (narrow q t ne l) | inr l ↦ inr l ];
          once = elim y.once [ inl l ↦ inl (narrow q t ne l) | inr l ↦ inr l ];
          signals = y.signals;
          stays = y.stays;
        }
  ];
  there = i.there;
  reaped = i.reaped;
}
  where
    narrow : (q : ℕ) (t : Proc) → q ≢ p → IsLeaving (some p) q t → IsLeaving none q t
    narrow q t ne (inl e) = inl e
    narrow q t ne (inr s) = absurd (ne (sym (some_injective s)))

pub leave-Inv :
    (f : Family) (parent : ℕ → Option ℕ) (p : ℕ) → Inv f none parent → Inv f (some p) parent
leave-Inv f parent p i = record {
  sound = λ q t e.
      let y = i.sound q t e in
      record {
        lists = elim y.lists [ inl l ↦ inl (widen q t l) | inr l ↦ inr l ];
        once = elim y.once [ inl l ↦ inl (widen q t l) | inr l ↦ inr l ];
        signals = y.signals;
        stays = y.stays;
      };
  there = i.there;
  reaped = i.reaped;
}
  where
    widen : (q : ℕ) (t : Proc) → IsLeaving none q t → IsLeaving (some p) q t
    widen q t (inl e) = inl e
    widen q t (inr s) = absurd (none≢some s)

-- A state that the steps of a family keep.
abbrev pub Valid : Family → Type 0
Valid f = (parent : ℕ → Option ℕ) × Inv f none parent
