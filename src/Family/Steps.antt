-- ===== src/Family/Steps.antt =====
-- The steps of parents and children in src/userprog/process.c, from a valid state: none uses a thread
-- that was freed, and `process_wait` returns the status that its child exited with.
use operating_system.Common.{
  ℕ, ◌-◌, ◌≡◌, ◌≢◌, refl, ◌∙◌, sym, ap, subst, inl, inr, ◌⊎◌, Bool, true, false, ◌&&◌, Option, none,
  some, arith, ltb, some_injective, none≢some, true≢false, ◌>>=◌, assert-passed,
}
use operating_system.Family.{
  Stage, loading, running, reaping, releasing, exiting, Proc, Family, put, mem, remove, is_running,
  is_loading, is_exiting, is_reaping, start_process, execute_loaded, die, wait_exit,
}
use operating_system.Family.Invariant.{
  IsLeaving, IsSound, Inv, Valid, put_self, put_other, put-Inv, die-Inv,
}

pub running_stage : (s : Stage) → is_running s ≡ true → s ≡ running
running_stage running h = refl
running_stage loading h = cc
running_stage (reaping c) h = cc
running_stage (releasing c) h = cc
running_stage exiting h = cc

exiting_stage : (s : Stage) → is_exiting s ≡ true → s ≡ exiting
exiting_stage exiting h = refl
exiting_stage loading h = cc
exiting_stage (reaping c) h = cc
exiting_stage (releasing c) h = cc
exiting_stage running h = cc

pub loading_stage : (s : Stage) → is_loading s ≡ true → s ≡ loading
loading_stage loading h = refl
loading_stage exiting h = cc
loading_stage (reaping c) h = cc
loading_stage (releasing c) h = cc
loading_stage running h = cc

pub reaping_stage : (s : Stage) (c : ℕ) → is_reaping s c ≡ true → s ≡ reaping c
reaping_stage (reaping d) c h = ap reaping (ground arith)
reaping_stage loading c h = cc
reaping_stage exiting c h = cc
reaping_stage (releasing d) c h = cc
reaping_stage running c h = cc

-- What a process that is not at its end has.
pub record IsLive (parent : ℕ → Option ℕ) (p : ℕ) (t : Proc) : Type 0 where
  pub lists : (c : ℕ) → mem t.children c ≡ true → parent c ≡ some p
  pub once : (c : ℕ) → mem (remove t.children c) c ≡ false
  pub silent : t.exit_sema ≡ 0
  pub stays : (parent p ≡ none) ⊎ (t.destroy_sema ≡ 0)

sound-IsLive :
    (parent : ℕ → Option ℕ) (p : ℕ) (t : Proc)
    → IsSound none parent p t
    → is_exiting t.stage ≡ false
    → IsLive parent p t
sound-IsLive parent p t y live = record {
  lists = elim y.lists [ inl l ↦ absurd (not_leaving l) | inr l ↦ l ];
  once = elim y.once [ inl l ↦ absurd (not_leaving l) | inr l ↦ l ];
  silent = elim y.signals [ inl l ↦ absurd (true≢false (sym l ∙ live)) | inr l ↦ l ];
  stays = y.stays;
}
  where
    not_leaving : IsLeaving none p t → ⊥
    not_leaving (inl e) = true≢false (sym e ∙ live)
    not_leaving (inr e) = none≢some e

pub live-IsSound :
    (x : Option ℕ) (parent : ℕ → Option ℕ) (p : ℕ) (t : Proc)
    → IsLive parent p t
    → IsSound x parent p t
live-IsSound x parent p t y = record {
  lists = inr y.lists;
  once = inr y.once;
  signals = inr y.silent;
  stays = y.stays;
}

-- A live process and the facts on it.
pub at-IsLive :
    (f : Family) (parent : ℕ → Option ℕ) (p : ℕ) (t : Proc) (s : Stage)
    → Inv f none parent
    → f p ≡ some t
    → t.stage ≡ s
    → is_exiting s ≡ false
    → IsLive parent p t
at-IsLive f parent p t s i h e live =
    sound-IsLive parent p t (i.sound p t h) (ap is_exiting e ∙ live)

pub both_true : (a b : Bool) → (a && b) ≡ true → (a ≡ true) × (b ≡ true)
both_true true b h = (refl, h)
both_true false b h = cc

-- One guarded step: what `some` of it says.
pub passed :
    {A B : Type 0} (o : Option A) (k : A → Option B) (r : B)
    → (o >>= k) ≡ some r
    → (a : A) × (o ≡ some a) × (k a ≡ some r)
passed none k r h = absurd (none≢some h)
passed (some a) k r h = (a, refl, h)

pub start_process-Valid :
    (f f' : Family) (c : ℕ) (success created : Bool)
    → Valid f
    → start_process f c success created ≡ some f'
    → Valid f'
unfolding start_process
start_process-Valid f f' c success created (parent, i) h =
    let (t, e, h1) = passed (f c) _ f' h in
    let (g, h2) = assert-passed (is_loading t.stage) _ f' h1 in
    let y = at-IsLive f parent c t loading i e (loading_stage t.stage g) refl in
    (
      parent,
      subst (λ k. Inv k none parent) (some_injective h2)
          (put-Inv f none parent c t _ i e
            (record {
              lists = inr y.lists;
              once = inr y.once;
              signals = inr y.silent;
              stays = y.stays;
            })
            (λ k s. absurd (true≢false (ap is_running s)))
            (λ s.
              absurd
                (true≢false (sym (ap is_exiting s) ∙ ap is_exiting (loading_stage t.stage g))))),
    )

-- The common part of two steps: a process that is not at its end changes only its semaphores.
same_stage-Valid :
    (f : Family) (parent : ℕ → Option ℕ) (c : ℕ) (t : Proc) (n : ℕ)
    → Inv f none parent
    → f c ≡ some t
    → Inv (put f c (some (record t { load_sema = n }))) none parent
same_stage-Valid f parent c t n i e =
    put-Inv f none parent c t (record t { load_sema = n }) i e
      (let y = i.sound c t e in
        record { lists = y.lists; once = y.once; signals = y.signals; stays = y.stays })
      (λ k s. i.reaped c k t e s) (λ s. s)

pub execute_loaded-Valid :
    (f f' : Family) (p c : ℕ) (ok : Bool)
    → Valid f
    → execute_loaded f p c ≡ some (ok, f')
    → Valid f'
unfolding execute_loaded
execute_loaded-Valid f f' p c ok (parent, i) h =
    let (t, e, h1) = passed (f p) _ (ok, f') h in
    let (g, h2) = assert-passed (is_running t.stage && mem t.children c) _ (ok, f') h1 in
    let (u, e2, h3) = passed (f c) _ (ok, f') h2 in
    let (g2, h4) = assert-passed (ltb 0 u.load_sema) _ (ok, f') h3 in
    let both : ◌≡◌ {A = Bool × Family}
        (u.is_loaded, put f c (some (record u { load_sema = u.load_sema - 1 }))) (ok, f') =
      some_injective h4 in
    (
      parent,
      subst (λ k. Inv k none parent) (ap (λ r. r.1) both)
          (same_stage-Valid f parent c u (u.load_sema - 1) i e2),
    )

pub die-Valid : (f f' : Family) (c : ℕ) → Valid f → die f c ≡ some f' → Valid f'
unfolding die
die-Valid f f' c (parent, i) h =
    let (t, e, h1) = passed (f c) _ f' h in
    let (g, h2) = assert-passed (is_exiting t.stage && ltb 0 t.destroy_sema) _ f' h1 in
    let free : parent c ≡ none = elim (i.sound c t e).stays [
      | inl n ↦ n
      | inr z ↦ absurd (
          true≢false
            (sym (both_true (is_exiting t.stage) (ltb 0 t.destroy_sema) g).1 ∙ ap (ltb 0) z))
    ] in
    (parent, subst (λ k. Inv k none parent) (some_injective h2) (die-Inv f parent c i free))

pub wait_exit-Valid : (f f' : Family) (p c : ℕ) → Valid f → wait_exit f p c ≡ some f' → Valid f'
unfolding wait_exit
wait_exit-Valid f f' p c (parent, i) h =
    let (t, e, h1) = passed (f p) _ f' h in
    let (g, h2) = assert-passed (is_running t.stage && mem t.children c) _ f' h1 in
    let (run, m) = both_true (is_running t.stage) (mem t.children c) g in
    let (u, e2, h3) = passed (f c) _ f' h2 in
    let (g2, h4) = assert-passed (ltb 0 u.exit_sema) _ f' h3 in
    let y = at-IsLive f parent p t running i e (running_stage t.stage run) refl in
    let z = i.sound c u e2 in
    let over : is_exiting u.stage ≡ true = elim z.signals [
      | inl x ↦ x
      | inr x ↦ absurd (true≢false (sym g2 ∙ ap (ltb 0) x))
    ] in
    let apart : p ≢ c = λ s.
      let same : t ≡ u = some_injective (sym e ∙ ap f s ∙ e2) in
      true≢false (
        sym over
        ∙ sym (ap (λ v. is_exiting v.stage) same)
        ∙ ap is_exiting (running_stage t.stage run)) in
    let u' : Proc = record u { exit_sema = u.exit_sema - 1 } in
    let i1 =
      put-Inv f none parent c u u' i e2
        (record {
          lists = inl (inl over);
          once = inl (inl over);
          signals = inl over;
          stays = z.stays;
        })
        (λ k s. i.reaped c k u e2 s) (λ s. s) in
    let f1 = put f c (some u') in
    let e1 : f1 p ≡ some t = put_other f c p (some u') apart ∙ e in
    let i2 =
      put-Inv f1 none parent p t (record t { stage = reaping c }) i1 e1
        (record { lists = inr y.lists; once = inr y.once; signals = inr y.silent; stays = y.stays })
        (λ k s.
          let same : c ≡ k = child_of s in
          (
            subst (λ n. mem t.children n ≡ true) same m,
            u',
            ap f1 (sym same) ∙ put_self f c (some u'),
            exiting_stage u.stage over,
          ))
        (λ s.
          absurd
            (true≢false (sym (ap is_exiting s) ∙ ap is_exiting (running_stage t.stage run)))) in
    (parent, subst (λ k. Inv k none parent) (some_injective h4) i2)
  where
    child_of : {a b : ℕ} → reaping a ≡ reaping b → a ≡ b
    child_of s = cc
