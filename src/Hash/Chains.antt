-- ===== src/Hash/Chains.antt =====
-- Keys, chains and the move of a chain to new buckets in src/lib/kernel/hash.c.
use operating_system.Common.{
  true≢false, ℕ, zero, suc, ◌-◌, ◌/◌, ◌≤◌, ◌≡◌, ◌≢◌, refl, ap, sym, subst, ◌∙◌, Bool, true, false,
  Option, none, some, List, [], ◌∷◌, ◌==◌, if◌then◌else◌, arith, if-true, if-false, Bool-cases, inl,
  inr, All, ==_eq, ==_ne,
}
use native.Mathlib.Decide.{ℕ_discrete}
use operating_system.KernelList.Order.{IsOrder}
use operating_system.Hash.{
  land, put_bucket, same_key, bucket_idx, find_elem, remove_found, move_bucket,
}

pub land_le : (n a b : ℕ) → land n a b ≤ b
unfolding land
land_le zero a b = omega arith
land_le (suc n) a b = ground (arith, land_le n (a / 2) (b / 2))

-- A comparison that is an order, and a hash that equal keys share.
pub record IsKeyed {A : Type 0} (hash : A → ℕ) (less : A → A → Bool) : Type 0 where
  pub order : IsOrder less
  pub agrees : (a b : A) → same_key hash less a b ≡ true → hash a ≡ hash b

-- The first of two results.
abbrev pub or_else : {A : Type 0} → Option A → Option A → Option A
or_else none b = b
or_else (some a) b = some a

if-none : {A : Type 0} (b : Bool) (o : Option A) → o ≡ none → o ≡ (if b then none else o)
if-none true o h = h
if-none false o h = refl

module _ {A : Type 0} (hash : A → ℕ) (less : A → A → Bool) (keyed : IsKeyed hash less) where
  pub same_sym : (a b : A) → same_key hash less a b ≡ true → same_key hash less b a ≡ true
  same_sym a b h = ground arith

  same_trans :
      (a b c : A)
      → same_key hash less a b ≡ true
      → same_key hash less b c ≡ true
      → same_key hash less a c ≡ true
  same_trans a b c h k =
      ground (arith, keyed.order.not_trans a b c, keyed.order.not_trans c b a, h, k)

  pub same_refl : (a : A) → same_key hash less a a ≡ true
  same_refl a = ground (arith, keyed.order.asym a a)

  same_cong :
      (x a b : A) → same_key hash less a b ≡ true → same_key hash less x a ≡ same_key hash less x b
  same_cong x a b h = elim (Bool-cases (same_key hash less x a)) [
    | inl e ↦ e ∙ sym (same_trans x a b e h)
    | inr e ↦ elim (Bool-cases (same_key hash less x b)) [
      | inl k ↦ absurd (clash (sym (same_trans x b a k (same_sym a b h)) ∙ e))
      | inr k ↦ e ∙ sym k
    ]
  ]
    where
      clash : true ≢ false
      clash e = cc

  abbrev pub find : List A → A → Option A
  find = find_elem hash less

  pub find_hit :
      (x : A) (xs : List A) (e : A) → same_key hash less x e ≡ true → find (x ∷ xs) e ≡ some x
  unfolding find_elem
  find_hit x xs e h = if-true _ _ _ h

  pub find_miss :
      (x : A) (xs : List A) (e : A) → same_key hash less x e ≡ false → find (x ∷ xs) e ≡ find xs e
  unfolding find_elem
  find_miss x xs e h = if-false _ _ _ h

  pub find-nil : (e : A) → find [] e ≡ none
  unfolding find_elem
  find-nil e = refl

  pub find_cong : (xs : List A) (a b : A) → same_key hash less a b ≡ true → find xs a ≡ find xs b
  unfolding find_elem
  find_cong [] a b h = refl
  find_cong (x ∷ xs) a b h = rw (same_cong x a b h, find_cong xs a b h)

  -- No two elements of a chain have the same key.
  pub Distinct : List A → Type 0
  Distinct [] = Unit
  Distinct (x ∷ xs) = (find xs x ≡ none) × Distinct xs

  -- A key that is not found differs from each element's.
  pub none-All :
      (xs : List A) (e : A) → find xs e ≡ none → All (λ x. same_key hash less x e ≡ false) xs
  none-All [] e h = tt
  none-All (x ∷ xs) e h = elim (Bool-cases (same_key hash less x e)) [
    | inl k ↦ absurd (some_none (sym (find_hit x xs e k) ∙ h))
    | inr k ↦ (k, none-All xs e (sym (find_miss x xs e k) ∙ h))
  ]
    where
      some_none : {y : A} → some y ≢ none
      some_none e = cc

  module _ (cnt : ℕ) where
    abbrev idx : A → ℕ
    idx = bucket_idx hash less cnt

    pub idx_cong : (a b : A) → same_key hash less a b ≡ true → idx a ≡ idx b
    idx_cong a b h = ap (λ n. land 32 n (cnt - 1)) (keyed.agrees a b h)

    pub find-put_miss :
        (new : ℕ → List A) (x e : A)
        → same_key hash less x e ≡ false
        → find (put_bucket new (idx x) (x ∷ new (idx x)) (idx e)) e ≡ find (new (idx e)) e
    find-put_miss new x e k = elim (ℕ_discrete (idx e) (idx x)) [
      | yes p ↦
          ap (λ (ys : List A). find ys e) (if-true (idx e == idx x) _ _ (==_eq p))
          ∙ find_miss x (new (idx x)) e k
          ∙ ap (λ i. find (new i) e) (sym p)
      | no np ↦
          ap (λ (ys : List A). find ys e)
            (if-false (idx e == idx x) _ _ (==_ne {a = idx e} {b = idx x} np))
    ]

    -- After a move, a key is found in the chain that was moved, or where it was.
    pub find-move_bucket :
        (xs : List A) (new : ℕ → List A) (e : A)
        → Distinct xs
        → find (move_bucket hash less cnt xs new (idx e)) e
          ≡ or_else (find xs e) (find (new (idx e)) e)
    unfolding move_bucket Distinct
    find-move_bucket [] new e d = ap (λ o. or_else o (find (new (idx e)) e)) (sym (find-nil e))
    find-move_bucket (x ∷ xs) new e d =
        let new' = put_bucket new (idx x) (x ∷ new (idx x)) in
        find-move_bucket xs new' e d.1 ∙ elim (Bool-cases (same_key hash less x e)) [
          | inl k ↦
              let gone : find xs e ≡ none = sym (find_cong xs x e k) ∙ d.0 in
              let here : find (new' (idx e)) e ≡ some x =
                ap (λ (ys : List A). find ys e)
                  (if-true (idx e == idx x) _ _ (==_eq (sym (idx_cong x e k))))
                ∙ find_hit x (new (idx x)) e k in
              ap (λ o. or_else o (find (new' (idx e)) e)) gone
              ∙ here
              ∙ sym (ap (λ o. or_else o (find (new (idx e)) e)) (find_hit x xs e k))
          | inr k ↦
              ap (or_else (find xs e)) (find-put_miss new x e k)
              ∙ sym (ap (λ o. or_else o (find (new (idx e)) e)) (find_miss x xs e k))
        ]

    -- The chains are distinct, and each element stands in its own.
    pub record AreBuckets (buckets : ℕ → List A) : Type 0 where
      pub distinct : (j : ℕ) → Distinct (buckets j)
      pub placed : (j : ℕ) → All (λ x. idx x ≡ j) (buckets j)

    -- A new key goes to the front of its chain.
    pub put-AreBuckets :
        (new : ℕ → List A) (x : A)
        → AreBuckets new
        → find (new (idx x)) x ≡ none
        → AreBuckets (put_bucket new (idx x) (x ∷ new (idx x)))
    unfolding Distinct
    put-AreBuckets new x b fresh = record {
      distinct = λ j. elim (ℕ_discrete j (idx x)) [
        | yes e ↦
            subst Distinct (sym (if-true (j == idx x) _ _ (==_eq e))) (fresh, b.distinct (idx x))
        | no ne ↦
            subst Distinct (sym (if-false (j == idx x) _ _ (==_ne {a = j} {b = idx x} ne)))
              (b.distinct j)
      ];
      placed = λ j. elim (ℕ_discrete j (idx x)) [
        | yes e ↦
            subst (All (λ y. idx y ≡ j)) (sym (if-true (j == idx x) _ _ (==_eq e)))
              (sym e, subst (λ i. All (λ y. idx y ≡ i) (new (idx x))) (sym e) (b.placed (idx x)))
        | no ne ↦
            subst (All (λ y. idx y ≡ j))
              (sym (if-false (j == idx x) _ _ (==_ne {a = j} {b = idx x} ne))) (b.placed j)
      ];
    }

    pub move_bucket-AreBuckets :
        (xs : List A) (new : ℕ → List A)
        → Distinct xs
        → All (λ y. find (new (idx y)) y ≡ none) xs
        → AreBuckets new
        → AreBuckets (move_bucket hash less cnt xs new)
    unfolding move_bucket Distinct
    move_bucket-AreBuckets [] new d fresh b = b
    move_bucket-AreBuckets (x ∷ xs) new d fresh b =
        move_bucket-AreBuckets xs (put_bucket new (idx x) (x ∷ new (idx x))) d.1
          (still xs (none-All xs x d.0) fresh.1) (put-AreBuckets new x b fresh.0)
      where
        still :
            (zs : List A)
            → All (λ z. same_key hash less z x ≡ false) zs
            → All (λ z. find (new (idx z)) z ≡ none) zs
            → All (λ z. find (put_bucket new (idx x) (x ∷ new (idx x)) (idx z)) z ≡ none) zs
        still [] p q = tt
        still (z ∷ zs) p q = (find-put_miss new x z (ground (arith, p.0)) ∙ q.0, still zs p.1 q.1)

    pub empty-AreBuckets : AreBuckets (λ i. [])
    unfolding Distinct
    empty-AreBuckets = record { distinct = λ j. tt; placed = λ j. tt }

  same_left :
      (a b x : A)
      → same_key hash less a b ≡ true
      → same_key hash less a x ≡ false
      → same_key hash less b x ≡ false
  same_left a b x h k = elim (Bool-cases (same_key hash less b x)) [
    | inl e ↦ absurd (true≢false (sym (same_trans a b x h e) ∙ k))
    | inr e ↦ e
  ]

  same_right :
      (y e x : A)
      → same_key hash less y e ≡ false
      → same_key hash less y x ≡ true
      → same_key hash less e x ≡ false
  same_right y e x h k = elim (Bool-cases (same_key hash less e x)) [
    | inl s ↦ absurd (true≢false (sym (same_trans y x e k (same_sym e x s)) ∙ h))
    | inr s ↦ s
  ]

  -- Without the element of a key, the chain lacks that key alone.
  pub find-remove_found :
      (xs : List A) (e x : A)
      → Distinct xs
      → find (remove_found hash less xs e) x ≡ (if same_key hash less e x then none else find xs x)
  unfolding remove_found Distinct
  find-remove_found [] e x d = if-none (same_key hash less e x) _ (find-nil x)
  find-remove_found (y ∷ ys) e x d = elim (Bool-cases (same_key hash less y e)) [
    | inl k ↦
        ap (λ (zs : List A). find zs x) (if-true (same_key hash less y e) _ _ k)
        ∙ elim (Bool-cases (same_key hash less e x)) [
          | inl same ↦
              sym (find_cong ys y x (same_trans y e x k same)) ∙ d.0 ∙ sym (if-true _ _ _ same)
          | inr other ↦
              sym (if-false _ _ _ other ∙ find_miss y ys x (same_left e y x (same_sym y e k) other))
        ]
    | inr k ↦
        ap (λ (zs : List A). find zs x) (if-false (same_key hash less y e) _ _ k)
        ∙ elim (Bool-cases (same_key hash less y x)) [
          | inl same ↦
              find_hit y (remove_found hash less ys e) x same
              ∙ sym (if-false _ _ _ (same_right y e x k same) ∙ find_hit y ys x same)
          | inr other ↦
              find_miss y (remove_found hash less ys e) x other
              ∙ find-remove_found ys e x d.1
              ∙ ap (λ o. if same_key hash less e x then none else o) (sym (find_miss y ys x other))
        ]
  ]

  pub remove_found-Distinct :
      (xs : List A) (e : A) → Distinct xs → Distinct (remove_found hash less xs e)
  unfolding remove_found Distinct
  remove_found-Distinct [] e d = tt
  remove_found-Distinct (y ∷ ys) e d = elim (Bool-cases (same_key hash less y e)) [
    | inl k ↦ subst Distinct (sym (if-true (same_key hash less y e) _ _ k)) d.1
    | inr k ↦ subst Distinct (sym (if-false (same_key hash less y e) _ _ k)) (
      find-remove_found ys e y d.1 ∙ sym (if-none (same_key hash less e y) (find ys y) d.0) ∙ d.0,
      remove_found-Distinct ys e d.1,
    )
  ]

  pub remove_found-All :
      (P : A → Type 0) (xs : List A) (e : A) → All P xs → All P (remove_found hash less xs e)
  unfolding remove_found
  remove_found-All P [] e p = tt
  remove_found-All P (y ∷ ys) e p = elim (Bool-cases (same_key hash less y e)) [
    | inl k ↦ subst (All P) (sym (if-true (same_key hash less y e) _ _ k)) p.1
    | inr k ↦
        subst (All P) (sym (if-false (same_key hash less y e) _ _ k))
          (p.0, remove_found-All P ys e p.1)
  ]
