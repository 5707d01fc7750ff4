-- ===== src/KernelList/Order.antt =====
-- Order and contents of the lists of src/lib/kernel/list.c.
use operating_system.Common.{
  ℕ, ◌+◌, ◌≡◌, refl, Bool, true, false, List, [], ◌∷◌, ◌++◌, arith, if◌then◌else◌, Bool-cases, All,
  inl, inr, some,
}
use operating_system.KernelList.{list_insert_ordered, max_from, list_max}

-- What the callers' comparisons have to be: "not less" is a total preorder.
pub record IsOrder {ℓ} {A : Type ℓ} (less : A → A → Bool) : Type ℓ where
  pub asym : (a b : A) → less a b ≡ true → less b a ≡ false
  pub not_trans : (a b c : A) → less b a ≡ false → less c b ≡ false → less c a ≡ false

-- How many elements pass a test; lists with the same counts for every test have the same contents.
abbrev pub count {ℓ} : {A : Type ℓ} → (A → Bool) → List A → ℕ
count q [] = 0
count q (x ∷ xs) = (if q x then 1 else 0) + count q xs

pub count-append {ℓ} :
    {A : Type ℓ} (q : A → Bool) (xs ys : List A) → count q (xs ++ ys) ≡ count q xs + count q ys
count-append q [] ys = omega arith
count-append q (x ∷ xs) ys = omega (arith, count-append q xs ys)

module _ {ℓ} {A : Type ℓ} (less : A → A → Bool) where
  -- No element is less than one before it.
  abbrev pub IsSorted : List A → Type 0
  IsSorted [] = Unit
  IsSorted (x ∷ xs) = All (λ y. less y x ≡ false) xs × IsSorted xs

  pub count-insert_ordered :
      (q : A → Bool) (xs : List A) (e : A)
      → count q (list_insert_ordered less xs e) ≡ (if q e then 1 else 0) + count q xs
  count-insert_ordered q [] e = refl
  count-insert_ordered q (x ∷ xs) e = ground (arith, count-insert_ordered q xs e)

  All-insert_ordered :
      (P : A → Type 0) (xs : List A) (e : A)
      → All P xs
      → P e
      → All P (list_insert_ordered less xs e)
  All-insert_ordered P [] e h p = (p, tt)
  All-insert_ordered P (x ∷ xs) e h p = elim (Bool-cases (less e x)) [
    | inl t ↦ rw t (p, h)
    | inr t ↦ rw t (h.0, All-insert_ordered P xs e h.1 p)
  ]

  module _ (ord : IsOrder less) where
    pub All-below :
        (xs : List A) (a b : A)
        → less b a ≡ false
        → All (λ y. less y b ≡ false) xs
        → All (λ y. less y a ≡ false) xs
    All-below [] a b h k = tt
    All-below (x ∷ xs) a b h k = (ord.not_trans a b x h k.0, All-below xs a b h k.1)

    -- When the comparison is an order, `list_insert_ordered` keeps a sorted list sorted.
    pub insert_ordered-IsSorted :
        (xs : List A) (e : A) → IsSorted xs → IsSorted (list_insert_ordered less xs e)
    insert_ordered-IsSorted [] e h = (tt, tt)
    insert_ordered-IsSorted (x ∷ xs) e h = elim (Bool-cases (less e x)) [
      | inl t ↦ rw t ((ord.asym e x t, All-below xs e x (ord.asym e x t) h.0), h)
      | inr t ↦
          rw t (
            All-insert_ordered (λ y. less y x ≡ false) xs e h.0 t,
            insert_ordered-IsSorted xs e h.1,
          )
    ]

    -- One step of the loop of `list_max`: the bound on the rest bounds both candidates.
    max_step :
        (t : Bool) (m x b : A) (xs : List A)
        → less m x ≡ t
        → less b (if t then x else m) ≡ false
        → All (λ y. less b y ≡ false) xs
        → (less b m ≡ false) × (less b x ≡ false) × All (λ y. less b y ≡ false) xs
    max_step true m x b xs e h k = (ord.not_trans m x b (ord.asym m x e) h, h, k)
    max_step false m x b xs e h k = (h, ord.not_trans x m b e h, k)

    max_from-max :
        (xs : List A) (m : A)
        → (less (max_from less m xs) m ≡ false) × All (λ y. less (max_from less m xs) y ≡ false) xs
    unfolding max_from
    max_from-max [] m = (irrefl, tt)
      where
        irrefl : less m m ≡ false
        irrefl = elim (Bool-cases (less m m)) [ inl t ↦ ord.asym m m t | inr t ↦ t ]
    max_from-max (x ∷ xs) m =
        let r = max_from-max xs (if less m x then x else m) in
        let s = max_step (less m x) m x _ xs refl r.0 r.1 in (s.0, (s.1, s.2))

    -- When the comparison is an order, `list_max` of a non-empty list returns a value that is less
    -- than no element of the list.
    pub list_max_lem :
        (x : A) (xs : List A)
        → (m : A) × (list_max less (x ∷ xs) ≡ some m) × All (λ y. less m y ≡ false) (x ∷ xs)
    unfolding list_max
    list_max_lem x xs = (max_from less x xs, refl, max_from-max xs x)
