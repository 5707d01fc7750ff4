-- ===== src/Family/Status.antt =====
-- The exit status of a process in src/userprog/process.c, from its `process_exit` to the `process_wait`
-- of its parent, whatever other threads do in between.
use operating_system.Common.{
  ℕ, ◌+◌, ◌-◌, ◌≡◌, ◌≢◌, refl, ◌∙◌, sym, ap, subst, Bool, true, false, not, ◌&&◌, Option, none,
  some, ◌==◌, ltb, ==_eq, some_injective, true≢false, assert-passed,
}
use native.Mathlib.Decide.{ℕ_discrete}
use operating_system.Common.Int.{ℤ}
use operating_system.Family.{
  running, reaping, exiting, Proc, Family, put, mem, remove, new_proc, is_running, is_loading,
  is_exiting, is_reaping, is_free, spawn, start_process, execute_loaded, process_exit, die,
  wait_exit, wait_reap, Event, spawns, starts, sees_loaded, exits, releases, dies, sees_exit, reaps,
  step, is_orderly, all_waited,
}
use operating_system.Family.Invariant.{Valid, put_self, put_other}
use operating_system.Family.Steps.{passed, running_stage, loading_stage, reaping_stage, both_true}
use operating_system.Family.Reap.{wait_reap_lem}
use operating_system.Family.Exit.{process_exit_lem, exit_run}
use operating_system.Family.Run.{waited, step-Valid, process_exit-Valid, running_now}

-- The process `c` is at its end with a status.
abbrev pub HasEnded : Family → ℕ → ℤ → Type 0
HasEnded f c status = (u : Proc) × (f c ≡ some u) × (u.stage ≡ exiting) × (u.exit_status ≡ status)

-- A thread at another stage is another thread.
other_thread :
    (f : Family) (c p : ℕ) (status : ℤ) (t : Proc)
    → HasEnded f c status
    → f p ≡ some t
    → is_exiting t.stage ≡ false
    → c ≢ p
other_thread f c p status t (u, h, end, k) e live s = true≢false (
    sym (ap is_exiting end)
    ∙ ap (λ v. is_exiting v.stage) (some_injective (sym h ∙ ap f s ∙ e))
    ∙ live)

put_apart :
    (f : Family) (c p : ℕ) (status : ℤ) (o : Option Proc)
    → HasEnded f c status
    → c ≢ p
    → HasEnded (put f p o) c status
put_apart f c p status o (u, h, end, k) ne = (u, put_other f p c o ne ∙ h, end, k)

-- Its semaphores may change.
put_same :
    (f : Family) (c d : ℕ) (status : ℤ) (t t' : Proc)
    → HasEnded f c status
    → f d ≡ some t
    → t'.stage ≡ t.stage
    → t'.exit_status ≡ t.exit_status
    → HasEnded (put f d (some t')) c status
put_same f c d status t t' (u, h, end, k) e a b = elim (ℕ_discrete c d) [
  | no ne ↦ (u, put_other f d c (some t') ne ∙ h, end, k)
  | yes s ↦
      let same : t ≡ u = some_injective (sym e ∙ ap f (sym s) ∙ h) in
      (
        t',
        ap (put f d (some t')) s ∙ put_self f d (some t'),
        a ∙ ap (λ v. v.stage) same ∙ end,
        b ∙ ap (λ v. v.exit_status) same ∙ k,
      )
]

-- The event is not the death of `c`.
abbrev pub spares : Event → ℕ → Bool
spares (dies d) c = not (d == c)
spares e c = true

module _ (f f' : Family) (c : ℕ) (status : ℤ) (h : HasEnded f c status) where
  spawn-HasEnded : (p d : ℕ) → spawn f p d ≡ some f' → HasEnded f' c status
  unfolding spawn
  spawn-HasEnded p d e =
      let (t, ht, e1) = passed (f p) _ f' e in
      let (run, e2) = assert-passed (is_running t.stage) _ f' e1 in
      let (g, e3) = assert-passed (is_free (f d)) _ f' e2 in
      let ne_p = other_thread f c p status t h ht (ap is_exiting (running_stage t.stage run)) in
      let ne_d : c ≢ d = λ s. taken_tid (ap is_free (sym (h.1) ∙ ap f s) ∙ g) in
      subst (λ k. HasEnded k c status) (some_injective e3)
        (put_apart (put f d (some new_proc)) c p status _
          (put_apart f c d status (some new_proc) h ne_d) ne_p)
    where
      taken_tid : false ≡ true → ⊥
      taken_tid q = true≢false (sym q)

  start_process-HasEnded :
      (d : ℕ) (success created : Bool)
      → start_process f d success created ≡ some f'
      → HasEnded f' c status
  unfolding start_process
  start_process-HasEnded d success created e =
      let (t, ht, e1) = passed (f d) _ f' e in
      let (g, e2) = assert-passed (is_loading t.stage) _ f' e1 in
      subst (λ k. HasEnded k c status) (some_injective e2)
        (put_apart f c d status _ h
          (other_thread f c d status t h ht (ap is_exiting (loading_stage t.stage g))))

  execute_loaded-HasEnded :
      (p d : ℕ) (ok : Bool) → execute_loaded f p d ≡ some (ok, f') → HasEnded f' c status
  unfolding execute_loaded
  execute_loaded-HasEnded p d ok e =
      let (t, ht, e1) = passed (f p) _ (ok, f') e in
      let (g, e2) = assert-passed (is_running t.stage && mem t.children d) _ (ok, f') e1 in
      let (u, hu, e3) = passed (f d) _ (ok, f') e2 in
      let (g2, e4) = assert-passed (ltb 0 u.load_sema) _ (ok, f') e3 in
      let both : ◌≡◌ {A = Bool × Family}
          (u.is_loaded, put f d (some (record u { load_sema = u.load_sema - 1 }))) (ok, f') =
        some_injective e4 in
      subst (λ k. HasEnded k c status) (ap (λ r. r.1) both)
        (put_same f c d status u (record u { load_sema = u.load_sema - 1 }) h hu refl refl)

  process_exit-HasEnded :
      (p : ℕ) (s : ℤ)
      → all_waited (f p) ≡ true
      → process_exit f p s ≡ some f'
      → HasEnded f' c status
  process_exit-HasEnded p s o e =
      let (t, ht, run) = running_now f f' p s e in
      let (d, n) = waited (f p) t ht o in
      subst (λ k. HasEnded k c status) (some_injective (sym (exit_run f p t s ht run d n) ∙ e))
        (put_apart f c p status _ h (other_thread f c p status t h ht (ap is_exiting run)))

  die-HasEnded : (d : ℕ) → d ≢ c → die f d ≡ some f' → HasEnded f' c status
  unfolding die
  die-HasEnded d ne e =
      let (t, ht, e1) = passed (f d) _ f' e in
      let (g, e2) = assert-passed (is_exiting t.stage && ltb 0 t.destroy_sema) _ f' e1 in
      subst (λ k. HasEnded k c status) (some_injective e2)
        (put_apart f c d status none h (λ q. ne (sym q)))

  wait_exit-HasEnded : (p d : ℕ) → wait_exit f p d ≡ some f' → HasEnded f' c status
  unfolding wait_exit
  wait_exit-HasEnded p d e =
      let (t, ht, e1) = passed (f p) _ f' e in
      let (g, e2) = assert-passed (is_running t.stage && mem t.children d) _ f' e1 in
      let (u, hu, e3) = passed (f d) _ f' e2 in
      let (g2, e4) = assert-passed (ltb 0 u.exit_sema) _ f' e3 in
      let u' : Proc = record u { exit_sema = u.exit_sema - 1 } in
      subst (λ k. HasEnded k c status) (some_injective e4)
        (put_apart (put f d (some u')) c p status _ (put_same f c d status u u' h hu refl refl) (
          other_thread f c p status t h ht (
            ap is_exiting
              (running_stage t.stage (both_true (is_running t.stage) (mem t.children d) g).0))))

  wait_reap-HasEnded : (p d : ℕ) (s : ℤ) → wait_reap f p d ≡ some (s, f') → HasEnded f' c status
  unfolding wait_reap
  wait_reap-HasEnded p d s e =
      let (t, ht, e1) = passed (f p) _ (s, f') e in
      let (g, e2) = assert-passed (is_reaping t.stage d) _ (s, f') e1 in
      let (u, hu, e3) = passed (f d) _ (s, f') e2 in
      let u' : Proc = record u { destroy_sema = u.destroy_sema + 1 } in
      let t' : Proc = record t { stage = running; children = remove t.children d } in
      let both : ◌≡◌ {A = ℤ × Family} (u.exit_status, put (put f d (some u')) p (some t')) (s, f') =
        some_injective e3 in
      subst (λ k. HasEnded k c status) (ap (λ r. r.1) both)
        (put_apart (put f d (some u')) c p status _ (put_same f c d status u u' h hu refl refl)
          (other_thread f c p status t h ht (ap is_exiting (reaping_stage t.stage d g))))

  step-HasEnded :
      (e : Event)
      → spares e c ≡ true
      → is_orderly f e ≡ true
      → step f e ≡ some f'
      → HasEnded f' c status
  step-HasEnded (spawns p d) g o e = spawn-HasEnded p d e
  step-HasEnded (starts d success created) g o e = start_process-HasEnded d success created e
  step-HasEnded (sees_loaded p d) g o e =
      let (r, e1, e2) = passed (execute_loaded f p d) (λ r. some r.1) f' e in
      execute_loaded-HasEnded p d r.0 (e1 ∙ ap (λ k. some (r.0, k)) (some_injective e2))
  step-HasEnded (exits p s) g o e = process_exit-HasEnded p s o e
  step-HasEnded (releases p) g o e = absurd (true≢false (sym o))
  step-HasEnded (dies d) g o e = die-HasEnded d (λ q. true≢false (sym g ∙ ap not (==_eq q))) e
  step-HasEnded (sees_exit p d) g o e = wait_exit-HasEnded p d e
  step-HasEnded (reaps p d) g o e =
      let (r, e1, e2) = passed (wait_reap f p d) (λ r. some r.1) f' e in
      wait_reap-HasEnded p d r.0 (e1 ∙ ap (λ k. some (r.0, k)) (some_injective e2))

-- A run in which `c` does not die, and each process that exits has a page directory and has waited
-- for its children.
pub data RunOf (c : ℕ) (f : Family) : Family → Type 0 where
  begin : RunOf c f f
  next :
      {g g' : Family}
      → RunOf c f g
      → (e : Event) → spares e c ≡ true
      → is_orderly g e ≡ true
      → step g e ≡ some g'
      → RunOf c f g'

RunOf-keeps :
    (c : ℕ) (f g : Family) (status : ℤ)
    → Valid f
    → HasEnded f c status
    → RunOf c f g
    → Valid g × HasEnded g c status
RunOf-keeps c f g status v h begin = (v, h)
RunOf-keeps c f g status v h (next {g = g0} r e s o q) =
    let (v0, h0) = RunOf-keeps c f g0 status v h r in
    (step-Valid g0 g e v0 o q, step-HasEnded g0 g c status h0 e s o q)

-- If `c`, a process that has a page directory and has waited for its children, exits with a status
-- in a valid state, and then threads take any steps but the death of `c` - where each process that
-- exits has a page directory and has waited for its children - until a process is in `process_wait`
-- for `c` past its `sema_down`, then `process_wait` returns that status, the process does not list
-- `c` any more, and `c` may die.
pub exit_then_wait :
    (f g h : Family) (p c : ℕ) (t : Proc) (status : ℤ)
    → Valid f
    → all_waited (f c) ≡ true
    → process_exit f c status ≡ some g
    → RunOf c g h
    → h p ≡ some t
    → t.stage ≡ reaping c
    → (h' : Family) × (wait_reap h p c ≡ some (status, h'))
      × ((t' : Proc) × (h' p ≡ some t') × (mem t'.children c ≡ false))
      × (die h' c ≡ some (put h' c none))
exit_then_wait f g h p c t status v o x run e s =
    let (t0, e0, s0) = running_now f g c status x in
    let (d, n0) = waited (f c) t0 e0 o in
    let (g', x', r) = process_exit_lem f c t0 status v e0 s0 d n0 in
    let same : g' ≡ g = some_injective (sym x' ∙ x) in
    let (t1, h1, end, st, n) = r.at_end in
    let ended : HasEnded g c status = subst (λ k. HasEnded k c status) same (t1, h1, end, st) in
    let (vh, (u', hu', end', st')) =
      RunOf-keeps c g h status (process_exit-Valid f g c status v o x) ended run in
    let (u, h', w, q) = wait_reap_lem h p c t vh e s in
    let (t2, h2, out, run2) = q.unlisted in
    let agree : u.exit_status ≡ status =
      ap (λ v. v.exit_status) (some_injective (sym q.child ∙ hu')) ∙ st' in
    (h', w ∙ ap (λ k. some (k, h')) agree, (t2, h2, out), q.may_die)
