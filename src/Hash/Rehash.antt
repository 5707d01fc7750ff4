-- ===== src/Hash/Rehash.antt =====
-- `rehash` of src/lib/kernel/hash.c moves every element, and finds what was there.
use operating_system.Common.{
  ℕ, zero, suc, ◌+◌, ◌-◌, ◌≤◌, ◌<◌, ◌≡◌, ◌≢◌, refl, ap, sym, subst, ◌∙◌, Bool, true, not, ◌||◌,
  Option, none, some, List, [], ◌∷◌, ◌==◌, ltb, if◌then◌else◌, arith, if-true, if-false, Bool-cases,
  inl, inr, All,
}
use native.Mathlib.Decide.{ℕ_discrete}
use operating_system.Hash.{
  turn_off_least_1bit, is_power_of_2, round_to_power, Hash, same_key, bucket_idx, find_elem,
  move_bucket, move_from, new_bucket_cnt, rehash, hash_find,
}
use operating_system.Hash.Chains.{
  land_le, IsKeyed, or_else, find-nil, find-move_bucket, AreBuckets, move_bucket-AreBuckets,
  empty-AreBuckets, idx_cong, find_miss,
}

or_else-none : {A : Type 0} (o : Option A) → or_else o none ≡ o
or_else-none none = refl
or_else-none (some a) = refl

add_zero : (i : ℕ) → i ≡ i + 0
add_zero i = omega arith

add_suc : (i n : ℕ) → i + 1 + n ≡ i + suc n
add_suc i n = omega arith

-- The loop that looks for a power of two stays above 0, and finds one.
pub round_pos : (n x : ℕ) → 0 < x → 0 < round_to_power n x
unfolding round_to_power
round_pos zero x pos = pos
round_pos (suc n) x pos = elim (Bool-cases (is_power_of_2 x)) [
  | inl p ↦ subst (λ y. 0 < y) (sym (if-true (is_power_of_2 x) _ _ p)) pos
  | inr np ↦
      subst (λ y. 0 < y) (sym (if-false (is_power_of_2 x) _ _ np))
        (round_pos n (turn_off_least_1bit x) (ground (arith, np, pos)))
]

-- From a number above 0, the loop of `rehash` that clears the lowest bit reaches a power of two
-- within as many rounds as the number.
pub round_to_power-is_power_of_2 :
    (n x : ℕ) → 0 < x → x ≤ n → is_power_of_2 (round_to_power n x) ≡ true
unfolding round_to_power turn_off_least_1bit
round_to_power-is_power_of_2 zero x pos le = absurd (omega arith)
round_to_power-is_power_of_2 (suc n) x pos le = elim (Bool-cases (is_power_of_2 x)) [
  | inl p ↦ ap is_power_of_2 (if-true (is_power_of_2 x) _ _ p) ∙ p
  | inr np ↦
      ap is_power_of_2 (if-false (is_power_of_2 x) _ _ np)
      ∙ round_to_power-is_power_of_2 n (turn_off_least_1bit x) (ground (arith, np, pos))
          (omega (arith, land_le 32 x (x - 1), pos, le))
]

module _ {A : Type 0} (hash : A → ℕ) (less : A → A → Bool) (keyed : IsKeyed hash less) where
  -- There is a bucket, and each element stands in its own, with no two of one key.
  pub record IsValid (h : Hash A) : Type 0 where
    pub some_bucket : 0 < h.bucket_cnt
    pub chains : AreBuckets hash less keyed h.bucket_cnt h.buckets

  -- A key is not found among elements of another bucket.
  pub find-elsewhere :
      (cnt i : ℕ) (xs : List A) (e : A)
      → All (λ x. bucket_idx hash less cnt x ≡ i) xs
      → bucket_idx hash less cnt e ≢ i
      → find_elem hash less xs e ≡ none
  find-elsewhere cnt i [] e p ne = find-nil hash less keyed e
  find-elsewhere cnt i (x ∷ xs) e p ne = elim (Bool-cases (same_key hash less x e)) [
    | inl k ↦ absurd (ne (sym (idx_cong hash less keyed cnt x e k) ∙ p.0))
    | inr k ↦ find_miss hash less keyed x xs e k ∙ find-elsewhere cnt i xs e p.1 ne
  ]

  -- The state of the outer loop when the buckets below `i` have moved.
  record Moved (old : ℕ → List A) (old_cnt cnt i : ℕ) (new : ℕ → List A) : Type 0 where
    pub chains : AreBuckets hash less keyed cnt new
    pub finds :
        (e : A)
        → find_elem hash less (new (bucket_idx hash less cnt e)) e ≡ (
            if ltb (bucket_idx hash less old_cnt e) i
            then find_elem hash less (old (bucket_idx hash less old_cnt e)) e
            else none)

  module _ (old : ℕ → List A) (old_cnt cnt : ℕ) (b : AreBuckets hash less keyed old_cnt old) where
    abbrev o : A → ℕ
    o = bucket_idx hash less old_cnt

    -- Nothing of bucket `i` has moved before.
    fresh :
        (i : ℕ) (new : ℕ → List A)
        → Moved old old_cnt cnt i new
        → (xs : List A) → All (λ x. o x ≡ i) xs
        → All (λ x. find_elem hash less (new (bucket_idx hash less cnt x)) x ≡ none) xs
    fresh i new m [] p = tt
    fresh i new m (x ∷ xs) p =
        (m.finds x ∙ if-false (ltb (o x) i) _ _ (ground (arith, p.0)), fresh i new m xs p.1)

    move_one :
        (i : ℕ) (new : ℕ → List A)
        → Moved old old_cnt cnt i new
        → Moved old old_cnt cnt (i + 1) (move_bucket hash less cnt (old i) new)
    move_one i new m = record {
      chains =
          move_bucket-AreBuckets hash less keyed cnt (old i) new (b.distinct i)
            (fresh i new m (old i) (b.placed i)) m.chains;
      finds = λ e.
          find-move_bucket hash less keyed cnt (old i) new e (b.distinct i)
          ∙ elim (ℕ_discrete (o e) i) [
            | yes p ↦
                ap (or_else (find_elem hash less (old i) e))
                  (m.finds e ∙ if-false (ltb (o e) i) _ _ (ground (arith, p)))
                ∙ or_else-none (find_elem hash less (old i) e)
                ∙ ap (λ j. find_elem hash less (old j) e) (sym p)
                ∙ sym (if-true (ltb (o e) (i + 1)) _ _ (ground (arith, p)))
            | no np ↦
                ap (λ q. or_else q (find_elem hash less (new (bucket_idx hash less cnt e)) e))
                  (find-elsewhere old_cnt i (old i) e (b.placed i) np)
                ∙ m.finds e
                ∙ ap (λ (t : Bool). if t then find_elem hash less (old (o e)) e else none)
                    (ground (arith, np))
          ];
    }

    move_all :
        (n i : ℕ) (new : ℕ → List A)
        → Moved old old_cnt cnt i new
        → Moved old old_cnt cnt (i + n) (move_from hash less cnt old i n new)
    unfolding move_from
    move_all zero i new m = subst (λ j. Moved old old_cnt cnt j new) (add_zero i) m
    move_all (suc n) i new m =
        subst
          (λ j.
            Moved old old_cnt cnt j
              (move_from hash less cnt old (i + 1) n (move_bucket hash less cnt (old i) new)))
          (add_suc i n)
          (move_all n (i + 1) (move_bucket hash less cnt (old i) new) (move_one i new m))

    none-Moved : Moved old old_cnt cnt 0 (λ i. [])
    none-Moved = record {
      chains = empty-AreBuckets hash less keyed cnt;
      finds = λ e. find-nil hash less keyed e ∙ sym (if-false (ltb (o e) 0) _ _ (ground arith));
    }

  -- rehash
  pub rehash_lem :
      (allocated : Bool) (h : Hash A)
      → IsValid h
      → IsValid (rehash hash less allocated h)
        × ((e : A) → hash_find hash less (rehash hash less allocated h) e ≡ hash_find hash less h e)
  unfolding rehash hash_find
  rehash_lem allocated h v =
      elim (Bool-cases ((new_bucket_cnt hash less h.elem_cnt == h.bucket_cnt) || not allocated)) [
        | inl stay ↦ subst Goal (sym (if-true _ h _ stay)) (v, λ e. refl)
        | inr go ↦ subst Goal (sym (if-false _ h _ go)) (
          record { some_bucket = positive; chains = moved.chains },
          λ e.
              moved.finds e
              ∙ if-true (ltb (bucket_idx hash less h.bucket_cnt e) (0 + h.bucket_cnt)) _ _
                  (ground (arith, land_le 32 (hash e) (h.bucket_cnt - 1), v.some_bucket)),
        )
      ]
    where
      Goal : Hash A → Type 0
      Goal x = IsValid x × ((e : A) → hash_find hash less x e ≡ hash_find hash less h e)

      moved :
          Moved h.buckets h.bucket_cnt (new_bucket_cnt hash less h.elem_cnt) (0 + h.bucket_cnt) (
            move_from hash less
              (new_bucket_cnt hash less h.elem_cnt)
              h.buckets
              0
              h.bucket_cnt
              (λ i. []))
      moved =
          move_all h.buckets h.bucket_cnt (new_bucket_cnt hash less h.elem_cnt) v.chains
            h.bucket_cnt 0 (λ i. [])
            (none-Moved h.buckets h.bucket_cnt (new_bucket_cnt hash less h.elem_cnt) v.chains)

      positive : 0 < new_bucket_cnt hash less h.elem_cnt
      positive = round_pos _ _ (ground arith)
