-- ===== src/Frame/Clock.antt =====
-- The clock of `frame_evict` in src/vm/frame.c.
use operating_system.Common.{
  ℕ, zero, suc, ◌+◌, ◌*◌, ◌<◌, ◌≡◌, ◌≢◌, refl, ap, sym, subst, ◌∙◌, Bool, true, false, ◌||◌, ◌⊎◌,
  inl, inr, none, some, List, [], ◌∷◌, ◌++◌, if◌then◌else◌, length, arith, Bool-cases, All, if-true,
  if-false, not, ap₂, length-append,
}
use mathlib.Core.List.{append-nil, append_assoc}
use operating_system.KernelList.Order.{count, count-append}
use operating_system.Frame.{Frame, Pte, update_pte, is_null, visit, Choice, choose}

-- A frame that the clock may take: it is not pinned and holds a page.
abbrev pub IsEvictable : Frame → Type 0
IsEvictable f = (f.pinned ≡ false) × (is_null f.page ≡ false)

abbrev pub is_accessed : (ℕ → ℕ → Pte) → Frame → Bool
is_accessed pte f = (pte f.owner f.upage).accessed

-- The clock clears accessed bits and changes nothing else of the entries.
pub record Cleared (pte pte' : ℕ → ℕ → Pte) : Type 0 where
  pub accessed : (t u : ℕ) → (pte t u).accessed ≡ false → (pte' t u).accessed ≡ false
  pub dirty : (t u : ℕ) → (pte' t u).dirty ≡ (pte t u).dirty
  pub present : (t u : ℕ) → (pte' t u).present ≡ (pte t u).present

Cleared-refl : (pte : ℕ → ℕ → Pte) → Cleared pte pte
Cleared-refl pte = record { accessed = λ t u h. h; dirty = λ t u. refl; present = λ t u. refl }

Cleared-trans : {p q r : ℕ → ℕ → Pte} → Cleared p q → Cleared q r → Cleared p r
Cleared-trans a b = record {
  accessed = λ t u h. b.accessed t u (a.accessed t u h);
  dirty = λ t u. b.dirty t u ∙ a.dirty t u;
  present = λ t u. b.present t u ∙ a.present t u;
}

-- What one round does at a frame.
data Round (pte : ℕ → ℕ → Pte) (f : Frame) : Type 0 where
  take : visit pte f ≡ none → IsEvictable f → is_accessed pte f ≡ false → Round pte f
  pass :
      (pte' : ℕ → ℕ → Pte)
      → visit pte f ≡ some pte'
      → Cleared pte pte'
      → (IsEvictable f → (is_accessed pte f ≡ true) × (is_accessed pte' f ≡ false))
      → Round pte f

round_lem : (pte : ℕ → ℕ → Pte) (f : Frame) → Round pte f
unfolding visit
round_lem pte f = elim (Bool-cases (f.pinned || is_null f.page)) [
  | inl h ↦ pass pte (if-true _ _ _ h) (Cleared-refl pte) (λ e. absurd (ground arith))
  | inr h ↦ elim (Bool-cases (is_accessed pte f)) [
    | inl a ↦
        pass (update_pte pte f.owner f.upage (λ e. record e { accessed = false }))
          (if-false _ _ _ h ∙ if-true _ _ _ a)
          (record {
            accessed = λ t u e. ground arith;
            dirty = λ t u. ground arith;
            present = λ t u. ground arith;
          })
          (λ e. (a, ground arith))
    | inr a ↦ take (if-false _ _ _ h ∙ if-false _ _ _ a) (ground arith) a
  ]
]

abbrev pub is_evictable : Frame → Bool
is_evictable f = not (f.pinned || is_null f.page)

evictable : (f : Frame) → is_evictable f ≡ true → IsEvictable f
evictable f h = (ground arith, ground arith)

-- The clock took a frame that it may take and that had not been used since it was passed last; the
-- other frames stay in the list.
pub record Found (pte : ℕ → ℕ → Pte) (frames : List Frame) (c : Choice) : Type 0 where
  pub may_go : IsEvictable c.victim
  pub unused : is_accessed c.pte c.victim ≡ false
  pub cleared : Cleared pte c.pte
  pub rest :
      (q : Frame → Bool)
      → (if q c.victim then 1 else 0) + count q (c.before ++ c.after) ≡ count q frames

choose_cons :
    (n : ℕ) (pte : ℕ → ℕ → Pte) (before : List Frame) (f : Frame) (fs : List Frame)
    → choose (suc n) pte before (f ∷ fs) ≡ elim (visit pte f) [
      | none ↦ some (record { victim = f; before = before; after = fs; pte = pte })
      | some pte' ↦ choose n pte' (before ++ (f ∷ [])) fs
    ]
unfolding choose
choose_cons n pte [] f fs = refl
choose_cons n pte (g ∷ gs) f fs = refl

-- The hand comes round: at the end of the list it goes on at the start.
choose_turn :
    (n : ℕ) (pte : ℕ → ℕ → Pte) (before : List Frame)
    → choose n pte before [] ≡ choose n pte [] before
unfolding choose
choose_turn zero pte before = refl
choose_turn (suc n) pte [] = refl
choose_turn (suc n) pte (g ∷ gs) = refl

-- What a pass over `xs` found out about one of its frames.
abbrev Passed : (ℕ → ℕ → Pte) → (ℕ → ℕ → Pte) → Frame → Type 0
Passed pte pte' f = IsEvictable f → (is_accessed pte f ≡ true) × (is_accessed pte' f ≡ false)

abbrev Outcome : ℕ → (ℕ → ℕ → Pte) → List Frame → List Frame → List Frame → ℕ → Type 0
Outcome n pte before xs ys m =
    ((c : Choice) × (choose n pte before (xs ++ ys) ≡ some c) × Found pte (before ++ (xs ++ ys)) c)
    ⊎ ((pte' : ℕ → ℕ → Pte) × (choose n pte before (xs ++ ys) ≡ choose m pte' (before ++ xs) ys)
        × Cleared pte pte'
        × All (Passed pte pte') xs)

All-map : {P Q : Frame → Type 0} (xs : List Frame) → ((f : Frame) → P f → Q f) → All P xs → All Q xs
All-map [] h a = tt
All-map (x ∷ xs) h a = (h x a.0, All-map xs h a.1)

Passed-later : (p q r : ℕ → ℕ → Pte) → Cleared p q → (f : Frame) → Passed q r f → Passed p r f
Passed-later p q r c f h e = elim (Bool-cases (is_accessed p f)) [
  | inl t ↦ (t, (h e).1)
  | inr t ↦ absurd (clash (sym (h e).0 ∙ c.accessed f.owner f.upage t))
]
  where
    clash : true ≢ false
    clash h = cc

pass_lem :
    (xs : List Frame) (n : ℕ) (pte : ℕ → ℕ → Pte) (before ys : List Frame) (m : ℕ)
    → n ≡ length xs + m
    → Outcome n pte before xs ys m
pass_lem [] n pte before ys m e = inr (
  pte,
  ap₂ (λ k b. choose k pte b ys) (omega (arith, e)) (sym (append-nil before)),
  Cleared-refl pte,
  tt,
)
pass_lem (x ∷ xs) zero pte before ys m e = absurd (omega arith)
pass_lem (x ∷ xs) (suc n) pte before ys m e = elim (round_lem pte x) [
  | take v ev un ↦ inl (
    record { victim = x; before = before; after = xs ++ ys; pte = pte },
    choose_cons n pte before x (xs ++ ys) ∙ rw v,
    record {
      may_go = ev;
      unused = un;
      cleared = Cleared-refl pte;
      rest = λ q.
          omega (arith, count-append q before (xs ++ ys), count-append q before (x ∷ (xs ++ ys)));
    },
  )
  | pass pte1 v cl ps ↦
      let step : choose (suc n) pte before (x ∷ (xs ++ ys))
          ≡ choose n pte1 (before ++ (x ∷ [])) (xs ++ ys) =
        choose_cons n pte before x (xs ++ ys) ∙ rw v in
      elim (pass_lem xs n pte1 (before ++ (x ∷ [])) ys m (omega arith)) [
        | inl r ↦ inl (
          r.0,
          step ∙ r.1,
          record {
            may_go = r.2.may_go;
            unused = r.2.unused;
            cleared = Cleared-trans cl r.2.cleared;
            rest = λ q. omega (
              arith,
              r.2.rest q,
              count-append q before (x ∷ (xs ++ ys)),
              count-append q before (x ∷ []),
              count-append q (before ++ (x ∷ [])) (xs ++ ys),
            );
          },
        )
        | inr r ↦ inr (
          r.0,
          step ∙ r.1 ∙ ap (λ b. choose m r.0 b ys) (append_assoc before (x ∷ []) xs),
          Cleared-trans cl r.2,
          (
            λ ev. ((ps ev).0, r.2.accessed x.owner x.upage (ps ev).1),
            All-map xs (Passed-later pte pte1 r.0 cl) r.3,
          ),
        )
      ]
]

-- A pass over all that is left, after which the hand is at the start again.
whole_pass :
    (xs : List Frame) (n : ℕ) (pte : ℕ → ℕ → Pte) (before : List Frame) (m : ℕ)
    → n ≡ length xs + m
    → ((c : Choice) × (choose n pte before xs ≡ some c) × Found pte (before ++ xs) c)
      ⊎ ((pte' : ℕ → ℕ → Pte) × (choose n pte before xs ≡ choose m pte' [] (before ++ xs))
          × Cleared pte pte'
          × All (Passed pte pte') xs)
whole_pass xs n pte before m e =
    elim (subst Goal (append-nil xs) (pass_lem xs n pte before [] m e)) [
      | inl r ↦ inl r
      | inr r ↦ inr (r.0, r.1 ∙ choose_turn m r.0 (before ++ xs), r.2, r.3)
    ]
  where
    Goal : List Frame → Type 0
    Goal l =
        ((c : Choice) × (choose n pte before l ≡ some c) × Found pte (before ++ l) c)
        ⊎ ((pte' : ℕ → ℕ → Pte) × (choose n pte before l ≡ choose m pte' (before ++ xs) [])
            × Cleared pte pte'
            × All (Passed pte pte') xs)

Found-later :
    {pte pte1 : ℕ → ℕ → Pte} {frames : List Frame} {c : Choice}
    → Cleared pte pte1
    → Found pte1 frames c
    → Found pte frames c
Found-later cl f = record {
  may_go = f.may_go;
  unused = f.unused;
  cleared = Cleared-trans cl f.cleared;
  rest = f.rest;
}

-- Two passes over frames that the clock may take cannot both go by.
twice :
    (xs : List Frame) (p q r : ℕ → ℕ → Pte)
    → All (Passed p q) xs
    → All (Passed q r) xs
    → count is_evictable xs ≡ 0
twice [] p q r a b = refl
twice (x ∷ xs) p q r a b = elim (Bool-cases (is_evictable x)) [
  | inl t ↦ absurd (clash (sym (b.0 (evictable x t)).0 ∙ (a.0 (evictable x t)).1))
  | inr t ↦ ground (arith, twice xs p q r a.1 b.1)
]
  where
    clash : true ≢ false
    clash h = cc

All-split : (P : Frame → Type 0) (xs ys : List Frame) → All P (xs ++ ys) → All P xs × All P ys
All-split P [] ys a = (tt, a)
All-split P (x ∷ xs) ys a = let r = All-split P xs ys a.1 in ((a.0, r.0), r.1)

-- If some frame is not pinned and holds a page, the loop of `frame_evict` chooses one in its 2 * n
-- rounds, wherever the hand stands: a frame that is not pinned, holds a page and was not accessed
-- since the hand last went by; only accessed bits were cleared, and the other frames stay.
pub choose_lem :
    (pte : ℕ → ℕ → Pte) (before after : List Frame)
    → 0 < count is_evictable (before ++ after)
    → (c : Choice) × (choose (2 * length (before ++ after)) pte before after ≡ some c)
      × Found pte (before ++ after) c
choose_lem pte before after some_frame =
    let n = length (before ++ after) in
    let all = before ++ after in
    elim (whole_pass after (2 * n) pte before (length before + n)
      (omega (arith, length-append before after))) [
        | inl r ↦ r
        | inr (pte1, e1, cl1, p1) ↦
            elim (whole_pass all (length before + n) pte1 [] (length before) (omega arith)) [
              | inl (c, e, f) ↦ (c, e1 ∙ e, Found-later cl1 f)
              | inr (pte2, e2, cl2, p2) ↦
                  elim (pass_lem before (length before) pte2 [] after 0 (omega arith)) [
                    | inl (c, e, f) ↦ (c, e1 ∙ (e2 ∙ e), Found-later (Cleared-trans cl1 cl2) f)
                    | inr (pte3, e3, cl3, p3) ↦
                        let s = All-split (Passed pte1 pte2) before after p2 in
                        absurd (
                          omega (
                            arith,
                            count-append is_evictable before after,
                            twice after pte pte1 pte2 p1 s.1,
                            twice before pte1 pte2 pte3 s.0 p3,
                          ))
                  ]
            ]
      ]
