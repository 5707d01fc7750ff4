-- ===== src/KernelList/Sort.antt =====
-- `list_sort` of src/lib/kernel/list.c, a natural merge sort.
use operating_system.Common.{
  ℕ, zero, suc, ◌+◌, ◌*◌, ◌≤◌, ◌<◌, ◌≡◌, refl, ap, sym, subst, ◌∙◌, Bool, true, false, List, [],
  ◌∷◌, ◌++◌, arith, if◌then◌else◌, Bool-cases, All, inl, inr, length, length-append, some, if-true,
  if-false, lt→ltb, le→ltb,
}
use native.Mathlib.Decide.{dec_lt}
use operating_system.KernelList.{find_end_of_run, inplace_merge, merge_pass, sort_rounds, list_sort}
use operating_system.KernelList.Order.{IsOrder, count, count-append, IsSorted, All-below}

module _ {ℓ} {A : Type ℓ} (less : A → A → Bool) where
  -- How many elements are less than the one before: one fewer than there are runs.
  abbrev pub descents : List A → ℕ
  descents [] = 0
  descents (a ∷ []) = 0
  descents (a ∷ b ∷ bs) = (if less b a then 1 else 0) + descents (b ∷ bs)

  descents-length : (xs : List A) → descents xs ≤ length xs
  descents-length [] = omega arith
  descents-length (a ∷ []) = omega arith
  descents-length (a ∷ b ∷ bs) = ground (arith, descents-length (b ∷ bs))

  descents-append : (xs ys : List A) → descents (xs ++ ys) ≤ descents xs + 1 + descents ys
  descents-append [] ys = omega arith
  descents-append (a ∷ []) [] = omega arith
  descents-append (a ∷ []) (y ∷ ys) = ground arith
  descents-append (a ∷ b ∷ bs) ys = ground (arith, descents-append (b ∷ bs) ys)

  -- The descents left after the first run was taken off.
  abbrev left_over : List A → ℕ
  left_over [] = 0
  left_over (y ∷ ys) = 1 + descents (y ∷ ys)

  -- A run ends at the first descent.
  record RunEnd (xs run rest : List A) : Type ℓ where
    parts : (q : A → Bool) → count q run + count q rest ≡ count q xs
    ascending : descents run ≡ 0
    fewer : left_over rest ≡ descents xs
    len : length run + length rest ≡ length xs
    some_run : 0 < length run

  run-break :
      (a b : A) (bs : List A) → less b a ≡ true → find_end_of_run less a (b ∷ bs) ≡ (a ∷ [], b ∷ bs)
  unfolding find_end_of_run
  run-break a b bs t = if-true (less b a) _ _ t

  run-go_on :
      (a b : A) (bs : List A)
      → less b a ≡ false
      → find_end_of_run less a (b ∷ bs)
        ≡ (a ∷ (find_end_of_run less b bs).0, (find_end_of_run less b bs).1)
  unfolding find_end_of_run
  run-go_on a b bs t = if-false (less b a) _ _ t

  run_head : (a : A) (bs : List A) → (r : List A) × ((find_end_of_run less a bs).0 ≡ a ∷ r)
  unfolding find_end_of_run
  run_head a [] = ([], refl)
  run_head a (b ∷ bs) = elim (Bool-cases (less b a)) [
    | inl t ↦ ([], ap (λ (p : List A × List A). p.0) (run-break a b bs t))
    | inr t ↦ (_, ap (λ (p : List A × List A). p.0) (run-go_on a b bs t))
  ]

  ascending-cons :
      (a b : A) (run : List A) (r : List A)
      → less b a ≡ false
      → run ≡ b ∷ r
      → descents run ≡ 0
      → descents (a ∷ run) ≡ 0
  ascending-cons a b run r t e h =
      let h' : descents (b ∷ r) ≡ 0 = subst (λ l. descents l ≡ 0) e h in
      subst (λ l. descents (a ∷ l) ≡ 0) (sym e) (ground arith)

  abbrev Split : A → List A → List A × List A → Type ℓ
  Split a bs p = RunEnd (a ∷ bs) p.0 p.1

  run_lem : (a : A) (bs : List A) → Split a bs (find_end_of_run less a bs)
  unfolding find_end_of_run
  run_lem a [] = record {
    parts = λ q. omega arith;
    ascending = refl;
    fewer = refl;
    len = omega arith;
    some_run = omega arith;
  }
  run_lem a (b ∷ bs) = elim (Bool-cases (less b a)) [
    | inl t ↦ subst (Split a (b ∷ bs)) (sym (run-break a b bs t)) (record {
      parts = λ q. omega arith;
      ascending = refl;
      fewer = ground arith;
      len = omega arith;
      some_run = omega arith;
    })
    | inr t ↦
        let r = run_lem b bs in
        let h = run_head b bs in
        subst (Split a (b ∷ bs)) (sym (run-go_on a b bs t)) (record {
          parts = λ q. omega (arith, r.parts q);
          ascending = ascending-cons a b (find_end_of_run less b bs).0 h.0 t h.1 r.ascending;
          fewer = ground (arith, r.fewer);
          len = omega (arith, r.len);
          some_run = omega arith;
        })
  ]

  IsSorted-of_descents : IsOrder less → (xs : List A) → descents xs ≡ 0 → IsSorted less xs
  IsSorted-of_descents ord [] h = tt
  IsSorted-of_descents ord (a ∷ []) h = (tt, tt)
  IsSorted-of_descents ord (a ∷ b ∷ bs) h =
      let rest = IsSorted-of_descents ord (b ∷ bs) (omega arith) in
      let ab : less b a ≡ false = ground arith in ((ab, All-below less ord bs a b ab rest.0), rest)

  descents-IsSorted : (xs : List A) → IsSorted less xs → descents xs ≡ 0
  descents-IsSorted [] h = refl
  descents-IsSorted (a ∷ []) h = refl
  descents-IsSorted (a ∷ b ∷ bs) h = ground (arith, h.0.0, descents-IsSorted (b ∷ bs) h.1)

  count-all : (xs : List A) → count (λ x. true) xs ≡ length xs
  count-all [] = refl
  count-all (x ∷ xs) = omega (arith, count-all xs)

  merged :
      (a b : A) (xs ys : List A) {t : Bool}
      → less b a ≡ t
      → inplace_merge less (a ∷ xs) (b ∷ ys) ≡ elim t as (λ x. List A) [
        | true ↦ b ∷ inplace_merge less (a ∷ xs) ys
        | false ↦ a ∷ inplace_merge less xs (b ∷ ys)
      ]
  unfolding inplace_merge
  merged a b xs ys t =
      ap
        (λ (c : Bool). elim c as (λ x. List A) [
          | true ↦ b ∷ inplace_merge less (a ∷ xs) ys
          | false ↦ a ∷ inplace_merge less xs (b ∷ ys)
        ])
        t

  merge-second :
      (a b : A) (xs ys : List A)
      → less b a ≡ true
      → inplace_merge less (a ∷ xs) (b ∷ ys) ≡ b ∷ inplace_merge less (a ∷ xs) ys
  unfolding inplace_merge
  merge-second a b xs ys t = merged a b xs ys t

  merge-first :
      (a b : A) (xs ys : List A)
      → less b a ≡ false
      → inplace_merge less (a ∷ xs) (b ∷ ys) ≡ a ∷ inplace_merge less xs (b ∷ ys)
  unfolding inplace_merge
  merge-first a b xs ys t = merged a b xs ys t

  All-merge :
      (P : A → Type 0) (xs ys : List A) → All P xs → All P ys → All P (inplace_merge less xs ys)
  unfolding inplace_merge
  All-merge P [] ys h k = k
  All-merge P (a ∷ xs) [] h k = h
  All-merge P (a ∷ xs) (b ∷ ys) h k = elim (Bool-cases (less b a)) [
    | inl t ↦ subst (All P) (sym (merge-second a b xs ys t)) (k.0, All-merge P (a ∷ xs) ys h k.1)
    | inr t ↦ subst (All P) (sym (merge-first a b xs ys t)) (h.0, All-merge P xs (b ∷ ys) h.1 k)
  ]

  count-merge :
      (q : A → Bool) (xs ys : List A) → count q (inplace_merge less xs ys) ≡ count q xs + count q ys
  unfolding inplace_merge
  count-merge q [] ys = omega arith
  count-merge q (a ∷ xs) [] = omega arith
  count-merge q (a ∷ xs) (b ∷ ys) = elim (Bool-cases (less b a)) [
    | inl t ↦ ap (count q) (merge-second a b xs ys t) ∙ omega (arith, count-merge q (a ∷ xs) ys)
    | inr t ↦ ap (count q) (merge-first a b xs ys t) ∙ omega (arith, count-merge q xs (b ∷ ys))
  ]

  length-merge : (xs ys : List A) → length (inplace_merge less xs ys) ≡ length xs + length ys
  length-merge xs ys =
      sym (count-all (inplace_merge less xs ys))
      ∙ count-merge (λ x. true) xs ys
      ∙ omega (arith, count-all xs, count-all ys)

  merge-IsSorted :
      IsOrder less
      → (xs ys : List A) → IsSorted less xs
      → IsSorted less ys
      → IsSorted less (inplace_merge less xs ys)
  unfolding inplace_merge
  merge-IsSorted ord [] ys h k = k
  merge-IsSorted ord (a ∷ xs) [] h k = h
  merge-IsSorted ord (a ∷ xs) (b ∷ ys) h k = elim (Bool-cases (less b a)) [
    | inl t ↦
        let ba = ord.asym b a t in
        subst (IsSorted less) (sym (merge-second a b xs ys t)) (
          All-merge (λ y. less y b ≡ false) (a ∷ xs) ys (ba, All-below less ord xs b a ba h.0) k.0,
          merge-IsSorted ord (a ∷ xs) ys h k.1,
        )
    | inr t ↦ subst (IsSorted less) (sym (merge-first a b xs ys t)) (
      All-merge (λ y. less y a ≡ false) xs (b ∷ ys) h.0 (t, All-below less ord ys a b t k.0),
      merge-IsSorted ord xs (b ∷ ys) h.1 k,
    )
  ]

  module _ (ord : IsOrder less) where
    -- Two runs merge to one.
    merge_runs :
        (xs ys : List A)
        → descents xs ≡ 0
        → descents ys ≡ 0
        → descents (inplace_merge less xs ys) ≡ 0
    merge_runs xs ys h k =
        descents-IsSorted (inplace_merge less xs ys)
          (merge-IsSorted ord xs ys (IsSorted-of_descents ord xs h) (IsSorted-of_descents ord ys k))

    -- A round of the outer loop on a list that is not empty: the runs that it counts are no fewer
    -- than those of its result, and half of those that were there.
    record Pass (xs out : List A) (cnt : ℕ) : Type ℓ where
      same : (q : A → Bool) → count q out ≡ count q xs
      length_same : length out ≡ length xs
      runs : left_over out ≤ cnt
      half : 2 * cnt ≤ left_over xs + 1

    left_over-append : (xs ys : List A) → left_over (xs ++ ys) ≤ left_over xs + left_over ys
    left_over-append [] ys = omega arith
    left_over-append (a ∷ []) [] = omega arith
    left_over-append (a ∷ []) (y ∷ ys) = ground arith
    left_over-append (a ∷ b ∷ bs) ys = ground (arith, left_over-append (b ∷ bs) ys)

    left_over-run : (run : List A) → descents run ≡ 0 → left_over run ≤ 1
    left_over-run [] h = omega arith
    left_over-run (a ∷ run) h = omega arith

    -- The case of `merge_pass` after the first run was found, `rest` being what is behind it.
    abbrev next : ℕ → A → List A → List A → List A × ℕ
    next fuel x xs [] = ((find_end_of_run less x xs).0, 1)
    next fuel x xs (y ∷ ys) =
        let r = merge_pass less fuel (find_end_of_run less y ys).1 in
        (
          inplace_merge less (find_end_of_run less x xs).0 (find_end_of_run less y ys).0 ++ r.0,
          r.1 + 1,
        )

    merge_pass-next :
        (fuel : ℕ) (x : A) (xs : List A)
        → merge_pass less (suc fuel) (x ∷ xs) ≡ next fuel x xs (find_end_of_run less x xs).1
    unfolding merge_pass
    merge_pass-next fuel x xs = go (find_end_of_run less x xs).1
      where
        go :
            (p : List A)
            → elim p as (λ l. List A × ℕ) [
              | [] ↦ ((find_end_of_run less x xs).0, 1)
              | y ∷ ys ↦
                  let (second, rest) = find_end_of_run less y ys in
                  let (sorted, cnt) = merge_pass less fuel rest in
                  (inplace_merge less (find_end_of_run less x xs).0 second ++ sorted, cnt + 1)
            ]
              ≡ next fuel x xs p
        go [] = refl
        go (y ∷ ys) = refl

    abbrev IsPass : List A → List A × ℕ → Type ℓ
    IsPass xs p = Pass xs p.0 p.1

    next_lem :
        (fuel : ℕ) (x : A) (xs rest : List A)
        → length xs ≤ fuel
        → RunEnd (x ∷ xs) (find_end_of_run less x xs).0 rest
        → ((l : List A) → length l ≤ fuel → IsPass l (merge_pass less fuel l))
        → IsPass (x ∷ xs) (next fuel x xs rest)
    next_lem fuel x xs [] f r ih = record {
      same = λ q. omega (arith, r.parts q);
      length_same = omega (arith, r.len);
      runs = left_over-run (find_end_of_run less x xs).0 r.ascending;
      half = omega arith;
    }
    next_lem fuel x xs (y ∷ ys) f r ih =
        let r2 = run_lem y ys in
        let first = (find_end_of_run less x xs).0 in
        let second = (find_end_of_run less y ys).0 in
        let rest = (find_end_of_run less y ys).1 in
        let p = ih rest (omega (arith, r.len, r2.len, r.some_run, r2.some_run)) in
        let out = (merge_pass less fuel rest).0 in
        let both = inplace_merge less first second in
        record {
          same = λ q. omega (
            arith,
            count-append q both out,
            count-merge q first second,
            p.same q,
            r.parts q,
            r2.parts q,
          );
          length_same = omega (
            arith,
            length-append both out,
            length-merge first second,
            p.length_same,
            r.len,
            r2.len,
          );
          runs = omega (
            arith,
            left_over-append both out,
            p.runs,
            left_over-run both (merge_runs first second r.ascending r2.ascending),
          );
          half = omega (arith, p.half, r.fewer, r2.fewer);
        }

    pass_lem : (fuel : ℕ) (xs : List A) → length xs ≤ fuel → IsPass xs (merge_pass less fuel xs)
    unfolding merge_pass
    pass_lem fuel [] f = nothing fuel
      where
        nothing : (k : ℕ) → IsPass [] (merge_pass less k [])
        nothing zero = record {
          same = λ q. refl;
          length_same = refl;
          runs = omega arith;
          half = omega arith;
        }
        nothing (suc k) = record {
          same = λ q. refl;
          length_same = refl;
          runs = omega arith;
          half = omega arith;
        }
    pass_lem zero (x ∷ xs) f = absurd (omega arith)
    pass_lem (suc fuel) (x ∷ xs) f = subst (IsPass (x ∷ xs)) (sym (merge_pass-next fuel x xs)) (
        next_lem fuel x xs (find_end_of_run less x xs).1 (omega arith) (run_lem x xs)
          (pass_lem fuel))

    fewer :
        (xs out : List A) (cnt : ℕ) {fuel : ℕ}
        → left_over out ≤ cnt
        → 2 * cnt ≤ left_over xs + 1
        → 1 < cnt
        → descents xs < suc fuel
        → descents out < fuel
    fewer [] out cnt r h more f = absurd (omega arith)
    fewer (x ∷ xs) [] cnt r h more f = omega arith
    fewer (x ∷ xs) (y ∷ ys) cnt r h more f = omega arith

    sorted : (out : List A) → left_over out ≤ 1 → descents out ≡ 0
    sorted [] h = refl
    sorted (y ∷ ys) h = omega arith

    sort_rounds_lem :
        (fuel : ℕ) (xs : List A)
        → descents xs < fuel
        → (ys : List A) × (sort_rounds less fuel xs ≡ some ys)
          × (descents ys ≡ 0)
          × ((q : A → Bool) → count q ys ≡ count q xs)
    unfolding sort_rounds
    sort_rounds_lem zero xs h = absurd (omega arith)
    sort_rounds_lem (suc fuel) xs h =
        let out = (merge_pass less (length xs) xs).0 in
        let cnt = (merge_pass less (length xs) xs).1 in
        let p = pass_lem (length xs) xs (omega arith) in
        elim (dec_lt 1 cnt) [
          | yes more ↦
              let (ys, e, d, c) =
                sort_rounds_lem fuel out (fewer xs out cnt p.runs p.half more h) in
              (ys, if-true _ _ _ (lt→ltb 1 cnt more) ∙ e, d, λ q. c q ∙ p.same q)
          | no done ↦ (
            out,
            if-false _ _ _ (le→ltb 1 cnt (omega arith)),
            sorted out (omega (arith, p.runs)),
            p.same,
          )
        ]

    -- When the comparison is an order, `list_sort` ends within its rounds and returns a sorted list
    -- of the same elements, each as often as before.
    pub list_sort-IsSorted :
        (xs : List A)
        → (ys : List A) × (list_sort less xs ≡ some ys)
          × IsSorted less ys
          × ((q : A → Bool) → count q ys ≡ count q xs)
    unfolding list_sort
    list_sort-IsSorted xs =
        let (ys, e, d, c) =
          sort_rounds_lem (length xs + 1) xs (omega (arith, descents-length xs)) in
        (ys, e, IsSorted-of_descents ord ys d, c)
