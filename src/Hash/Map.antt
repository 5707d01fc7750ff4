-- ===== src/Hash/Map.antt =====
-- The table of src/lib/kernel/hash.c as a map from keys to elements.
use operating_system.Common.{
  ℕ, ◌≡◌, ◌≢◌, refl, ap, sym, subst, ◌∙◌, Bool, true, false, Option, none, some, List, ◌==◌,
  if◌then◌else◌, if-true, if-false, Bool-cases, inl, inr, All, ==_eq, ==_ne, Option-cases,
}
use native.Mathlib.Decide.{ℕ_discrete}
use operating_system.Hash.{
  Hash, same_key, bucket_idx, find_elem, rehash, hash_find, insert_elem, remove_elem, hash_insert,
  hash_replace, hash_delete,
}
use operating_system.Hash.Chains.{
  IsKeyed, same_refl, or_else, find_cong, find_hit, idx_cong, find-put_miss, put-AreBuckets,
  Distinct, find-remove_found, remove_found-Distinct, remove_found-All,
}
use operating_system.Hash.Rehash.{IsValid, rehash_lem}

module _ {A : Type 0} (hash : A → ℕ) (less : A → A → Bool) (keyed : IsKeyed hash less) where
  -- Equal keys find the same.
  pub hash_find-cong :
      (h : Hash A) (a b : A)
      → same_key hash less a b ≡ true
      → hash_find hash less h a ≡ hash_find hash less h b
  unfolding hash_find
  hash_find-cong h a b k =
      find_cong hash less keyed (h.buckets (bucket_idx hash less h.bucket_cnt a)) a b k
      ∙ ap (λ i. find_elem hash less (h.buckets i) b) (idx_cong hash less keyed h.bucket_cnt a b k)

  -- The table after `insert_elem` of a key that it lacks.
  inserted :
      (h : Hash A) (e : A)
      → IsValid hash less keyed h
      → hash_find hash less h e ≡ none
      → let h' = insert_elem hash less h (bucket_idx hash less h.bucket_cnt e) e in
        IsValid hash less keyed h'
        × ((x : A)
            → hash_find hash less h' x
              ≡ (if same_key hash less e x then some e else hash_find hash less h x))
  unfolding insert_elem hash_find
  inserted h e v fresh = (
    record {
      some_bucket = v.some_bucket;
      chains = put-AreBuckets hash less keyed h.bucket_cnt h.buckets e v.chains fresh;
    },
    λ x. elim (Bool-cases (same_key hash less e x)) [
      | inl k ↦
          ap (λ (ys : List A). find_elem hash less ys x)
            (if-true (bucket_idx hash less h.bucket_cnt x == bucket_idx hash less h.bucket_cnt e) _
              _ (==_eq (sym (idx_cong hash less keyed h.bucket_cnt e x k))))
          ∙ find_hit hash less keyed e _ x k
          ∙ sym (if-true _ _ _ k)
      | inr k ↦ find-put_miss hash less keyed h.bucket_cnt h.buckets e x k ∙ sym (if-false _ _ _ k)
    ],
  )

  -- The table after `remove_elem`.
  removed :
      (h : Hash A) (e : A)
      → IsValid hash less keyed h
      → let h' = remove_elem hash less h (bucket_idx hash less h.bucket_cnt e) e in
        IsValid hash less keyed h'
        × ((x : A)
            → hash_find hash less h' x
              ≡ (if same_key hash less e x then none else hash_find hash less h x))
  unfolding remove_elem hash_find
  removed h e v = (
    record {
      some_bucket = v.some_bucket;
      chains = record {
        distinct = λ j. elim (ℕ_discrete j i) [
          | yes p ↦
              subst (Distinct hash less keyed) (sym (if-true (j == i) _ _ (==_eq p)))
                (remove_found-Distinct hash less keyed (h.buckets i) e (v.chains.distinct i))
          | no np ↦
              subst (Distinct hash less keyed)
                (sym (if-false (j == i) _ _ (==_ne {a = j} {b = i} np))) (v.chains.distinct j)
        ];
        placed = λ j. elim (ℕ_discrete j i) [
          | yes p ↦
              subst (All (λ x. bucket_idx hash less h.bucket_cnt x ≡ j))
                (sym (if-true (j == i) _ _ (==_eq p)))
                (remove_found-All hash less keyed (λ x. bucket_idx hash less h.bucket_cnt x ≡ j)
                  (h.buckets i) e
                  (subst (λ k. All (λ x. bucket_idx hash less h.bucket_cnt x ≡ j) (h.buckets k)) p
                    (v.chains.placed j)))
          | no np ↦
              subst (All (λ x. bucket_idx hash less h.bucket_cnt x ≡ j))
                (sym (if-false (j == i) _ _ (==_ne {a = j} {b = i} np))) (v.chains.placed j)
        ];
      };
    },
    λ x. elim (ℕ_discrete (bucket_idx hash less h.bucket_cnt x) i) [
      | yes p ↦
          ap (λ (ys : List A). find_elem hash less ys x)
            (if-true (bucket_idx hash less h.bucket_cnt x == i) _ _ (==_eq p))
          ∙ find-remove_found hash less keyed (h.buckets i) e x (v.chains.distinct i)
          ∙ ap (λ j. if same_key hash less e x then none else find_elem hash less (h.buckets j) x)
              (sym p)
      | no np ↦
          ap (λ (ys : List A). find_elem hash less ys x)
            (if-false (bucket_idx hash less h.bucket_cnt x == i) _ _
              (==_ne {a = bucket_idx hash less h.bucket_cnt x} {b = i} np))
          ∙ sym (if-false (same_key hash less e x) _ _ (differs x np))
    ],
  )
    where
      i : ℕ
      i = bucket_idx hash less h.bucket_cnt e

      differs : (x : A) → bucket_idx hash less h.bucket_cnt x ≢ i → same_key hash less e x ≡ false
      differs x np = elim (Bool-cases (same_key hash less e x)) [
        | inl k ↦ absurd (np (sym (idx_cong hash less keyed h.bucket_cnt e x k)))
        | inr k ↦ k
      ]

  -- A change of the table that is followed by `rehash`.
  then_rehash :
      (allocated : Bool) (h : Hash A) (g : A → Option A)
      → IsValid hash less keyed h × ((x : A) → hash_find hash less h x ≡ g x)
      → IsValid hash less keyed (rehash hash less allocated h)
        × ((x : A) → hash_find hash less (rehash hash less allocated h) x ≡ g x)
  then_rehash allocated h g (v, finds) =
      let (v', same) = rehash_lem hash less keyed allocated h v in (v', λ x. same x ∙ finds x)

  -- When the comparison is an order, keys that compare equal have the same hash, and the table is
  -- valid (each element in its bucket, no two of one key), `hash_insert` returns the element of the
  -- key, keeps the table valid whether or not `rehash` gets its memory, and then the key finds the
  -- old element or else the new one, and every other key what it found before.
  pub hash_insert_lem :
      (allocated : Bool) (h : Hash A) (e : A)
      → IsValid hash less keyed h
      → ((hash_insert hash less allocated h e).0 ≡ hash_find hash less h e)
        × IsValid hash less keyed (hash_insert hash less allocated h e).1
        × ((x : A)
            → hash_find hash less (hash_insert hash less allocated h e).1 x ≡ (
                if same_key hash less e x
                then or_else (hash_find hash less h e) (some e)
                else hash_find hash less h x))
  unfolding hash_insert
  hash_insert_lem allocated h e v = elim (Option-cases (hash_find hash less h e)) [
    | inl fresh ↦
        let (v', finds) = then_rehash allocated _ _ (inserted h e v fresh) in
        (
          refl,
          subst (λ o. IsValid hash less keyed (rehash hash less allocated (after o))) (sym fresh)
              v',
          λ x.
              subst
                (λ o. hash_find hash less (rehash hash less allocated (after o)) x ≡ (
                  if same_key hash less e x then or_else o (some e) else hash_find hash less h x))
                (sym fresh) (finds x),
        )
    | inr (old, found) ↦
        let (v', finds) = then_rehash allocated h (hash_find hash less h) (v, λ x. refl) in
        (
          refl,
          subst (λ o. IsValid hash less keyed (rehash hash less allocated (after o))) (sym found)
              v',
          λ x.
              subst
                (λ o. hash_find hash less (rehash hash less allocated (after o)) x ≡ (
                  if same_key hash less e x then or_else o (some e) else hash_find hash less h x))
                (sym found) (finds x ∙ kept old found x),
        )
  ]
    where
      after : Option A → Hash A
      after o = elim o [
        | none ↦ insert_elem hash less h (bucket_idx hash less h.bucket_cnt e) e
        | some o ↦ h
      ]

      kept :
          (old : A)
          → hash_find hash less h e ≡ some old
          → (x : A)
          → hash_find hash less h x
            ≡ (if same_key hash less e x then some old else hash_find hash less h x)
      kept old found x = elim (Bool-cases (same_key hash less e x)) [
        | inl k ↦ sym (hash_find-cong h e x k) ∙ found ∙ sym (if-true _ _ _ k)
        | inr k ↦ sym (if-false _ _ _ k)
      ]

  -- When the comparison is an order, keys that compare equal have the same hash, and the table is
  -- valid (each element in its bucket, no two of one key), `hash_delete` returns the element of the
  -- key and keeps the table valid whether or not `rehash` gets its memory, and then the key finds
  -- nothing, and every other key what it found before.
  pub hash_delete_lem :
      (allocated : Bool) (h : Hash A) (e : A)
      → IsValid hash less keyed h
      → ((hash_delete hash less allocated h e).0 ≡ hash_find hash less h e)
        × IsValid hash less keyed (hash_delete hash less allocated h e).1
        × ((x : A)
            → hash_find hash less (hash_delete hash less allocated h e).1 x
              ≡ (if same_key hash less e x then none else hash_find hash less h x))
  unfolding hash_delete
  hash_delete_lem allocated h e v = elim (Option-cases (hash_find hash less h e)) [
    | inl lacks ↦ (
      refl,
      subst (λ o. IsValid hash less keyed (after o)) (sym lacks) v,
      λ x.
          subst
            (λ o.
              hash_find hash less (after o) x
              ≡ (if same_key hash less e x then none else hash_find hash less h x))
            (sym lacks) (still lacks x),
    )
    | inr (old, found) ↦
        let (v', finds) = then_rehash allocated _ _ (removed h e v) in
        (
          refl,
          subst (λ o. IsValid hash less keyed (after o)) (sym found) v',
          λ x.
              subst
                (λ o.
                  hash_find hash less (after o) x
                  ≡ (if same_key hash less e x then none else hash_find hash less h x))
                (sym found) (finds x),
        )
  ]
    where
      after : Option A → Hash A
      after o = elim o [
        | none ↦ h
        | some o ↦
            rehash hash less allocated
              (remove_elem hash less h (bucket_idx hash less h.bucket_cnt e) e)
      ]

      still :
          hash_find hash less h e ≡ none
          → (x : A)
          → hash_find hash less h x
            ≡ (if same_key hash less e x then none else hash_find hash less h x)
      still lacks x = elim (Bool-cases (same_key hash less e x)) [
        | inl k ↦ sym (hash_find-cong h e x k) ∙ lacks ∙ sym (if-true _ _ _ k)
        | inr k ↦ sym (if-false _ _ _ k)
      ]

  -- `insert_elem` after the old element was removed.
  replaced :
      (h h1 : Hash A) (e : A)
      → h1.bucket_cnt ≡ h.bucket_cnt
      → IsValid hash less keyed h1
      → ((x : A)
          → hash_find hash less h1 x
            ≡ (if same_key hash less e x then none else hash_find hash less h x))
      → let h' = insert_elem hash less h1 (bucket_idx hash less h.bucket_cnt e) e in
        IsValid hash less keyed h'
        × ((x : A)
            → hash_find hash less h' x
              ≡ (if same_key hash less e x then some e else hash_find hash less h x))
  replaced h h1 e same v finds =
      let lacks = finds e ∙ if-true _ _ _ (same_refl hash less keyed e) in
      let (v', finds') =
        subst
          (λ c.
            let h' = insert_elem hash less h1 (bucket_idx hash less c e) e in
            IsValid hash less keyed h'
            × ((x : A)
                → hash_find hash less h' x
                  ≡ (if same_key hash less e x then some e else hash_find hash less h1 x)))
          same (inserted h1 e v lacks) in
      (
        v',
        λ x. finds' x ∙ elim (Bool-cases (same_key hash less e x)) [
          | inl k ↦ if-true _ _ _ k ∙ sym (if-true _ _ _ k)
          | inr k ↦ if-false _ _ _ k ∙ finds x ∙ if-false _ _ _ k ∙ sym (if-false _ _ _ k)
        ],
      )

  -- When the comparison is an order, keys that compare equal have the same hash, and the table is
  -- valid (each element in its bucket, no two of one key), `hash_replace` returns the old element
  -- of the key and keeps the table valid whether or not `rehash` gets its memory, and then the key
  -- finds the new element, and every other key what it found before.
  pub hash_replace_lem :
      (allocated : Bool) (h : Hash A) (e : A)
      → IsValid hash less keyed h
      → ((hash_replace hash less allocated h e).0 ≡ hash_find hash less h e)
        × IsValid hash less keyed (hash_replace hash less allocated h e).1
        × ((x : A)
            → hash_find hash less (hash_replace hash less allocated h e).1 x
              ≡ (if same_key hash less e x then some e else hash_find hash less h x))
  unfolding hash_replace remove_elem
  hash_replace_lem allocated h e v =
      (refl, (ready (hash_find hash less h e) refl).0, (ready (hash_find hash less h e) refl).1)
    where
      base : Option A → Hash A
      base o = elim o [
        | none ↦ h
        | some o ↦ remove_elem hash less h (bucket_idx hash less h.bucket_cnt e) e
      ]

      ready :
          (o : Option A)
          → hash_find hash less h e ≡ o
          → let h' =
              rehash hash less allocated
                (insert_elem hash less (base o) (bucket_idx hash less h.bucket_cnt e) e) in
            IsValid hash less keyed h'
            × ((x : A)
                → hash_find hash less h' x
                  ≡ (if same_key hash less e x then some e else hash_find hash less h x))
      ready none lacks = then_rehash allocated _ _ (
          replaced h h e refl v (λ x. elim (Bool-cases (same_key hash less e x)) [
            | inl k ↦ sym (hash_find-cong h e x k) ∙ lacks ∙ sym (if-true _ _ _ k)
            | inr k ↦ sym (if-false _ _ _ k)
          ]))
      ready (some old) found =
          let (v', finds) = removed h e v in
          then_rehash allocated _ _ (replaced h (base (some old)) e refl v' finds)
