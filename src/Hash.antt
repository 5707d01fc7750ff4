-- ===== src/Hash.antt =====
-- src/lib/kernel/hash.c: a table of chains. The array of buckets is a function of the index, a
-- bucket the list of its elements; `allocated` says whether the malloc of `rehash` succeeds.
-- Numbers are 32 bits wide, so the bitwise operations look at 32 bits.
pub mod Chains
pub mod Rehash
pub mod Map
mod Tests
use operating_system.Common.{
  ℕ, zero, suc, ◌+◌, ◌*◌, ◌-◌, ◌/◌, ◌%◌, ◌^◌, Bool, true, false, not, ◌&&◌, ◌||◌, Option, none,
  some, List, [], ◌∷◌, ◌==◌, ltb, if◌then◌else◌,
}

-- The bits that `a` and `b` share, among the lowest `n`.
pub land : (n : ℕ) → ℕ → ℕ → ℕ
land zero a b = 0
land (suc n) a b =
    let rest = land n (a / 2) (b / 2) in (if (a % 2 == 1) && (b % 2 == 1) then 1 else 0) + 2 * rest

pub turn_off_least_1bit : ℕ → ℕ
turn_off_least_1bit x = land 32 x (x - 1)

abbrev pub is_power_of_2 : ℕ → Bool
is_power_of_2 x = not (x == 0) && (turn_off_least_1bit x == 0)

-- The loop of `rehash`; each round makes the number smaller, so `x` rounds are enough.
pub round_to_power : (fuel : ℕ) → ℕ → ℕ
round_to_power zero x = x
round_to_power (suc n) x =
    let rest = round_to_power n (turn_off_least_1bit x) in if is_power_of_2 x then x else rest

pub record Hash {ℓ} (A : Type ℓ) : Type ℓ where
  pub elem_cnt : ℕ
  pub bucket_cnt : ℕ
  pub buckets : ℕ → List A

pub hash_init {ℓ} : {A : Type ℓ} → Hash A
hash_init = record { elem_cnt = 0; bucket_cnt = 4; buckets = λ i. [] }

abbrev pub put_bucket {ℓ} : {A : Type ℓ} → (ℕ → List A) → ℕ → List A → ℕ → List A
put_bucket buckets i xs j = if j == i then xs else buckets j

module _ {ℓ} {A : Type ℓ} (hash : A → ℕ) (less : A → A → Bool) where
  -- Neither is less than the other.
  abbrev pub same_key : A → A → Bool
  same_key a b = not (less a b) && not (less b a)

  abbrev pub bucket_idx : (bucket_cnt : ℕ) → A → ℕ
  bucket_idx bucket_cnt e = land 32 (hash e) (bucket_cnt - 1)

  pub find_elem : List A → A → Option A
  find_elem [] e = none
  find_elem (x ∷ xs) e = let rest = find_elem xs e in if same_key x e then some x else rest

  -- `list_remove` of the element that `find_elem` finds.
  pub remove_found : List A → A → List A
  remove_found [] e = []
  remove_found (x ∷ xs) e = let rest = remove_found xs e in if same_key x e then xs else x ∷ rest

  -- The inner loop of `rehash`: the elements of one bucket go to the front of their new ones.
  pub move_bucket : (bucket_cnt : ℕ) → List A → (ℕ → List A) → ℕ → List A
  move_bucket bucket_cnt [] new = new
  move_bucket bucket_cnt (x ∷ xs) new =
      let i = bucket_idx bucket_cnt x in move_bucket bucket_cnt xs (put_bucket new i (x ∷ new i))

  -- The outer loop, from bucket `i` on with `n` buckets left.
  pub move_from : (bucket_cnt : ℕ) → (old : ℕ → List A) → (i n : ℕ) → (ℕ → List A) → ℕ → List A
  move_from bucket_cnt old i zero new = new
  move_from bucket_cnt old i (suc n) new =
      move_from bucket_cnt old (i + 1) n (move_bucket bucket_cnt (old i) new)

  abbrev pub new_bucket_cnt : ℕ → ℕ
  new_bucket_cnt elem_cnt =
      let wanted = if ltb (elem_cnt / 2) 4 then 4 else elem_cnt / 2 in round_to_power wanted wanted

  pub rehash : (allocated : Bool) → Hash A → Hash A
  rehash allocated h =
      if (new_bucket_cnt h.elem_cnt == h.bucket_cnt) || not allocated then h else record h {
        bucket_cnt = new_bucket_cnt h.elem_cnt;
        buckets = move_from (new_bucket_cnt h.elem_cnt) h.buckets 0 h.bucket_cnt (λ i. []);
      }

  pub hash_find : Hash A → A → Option A
  hash_find h e = find_elem (h.buckets (bucket_idx h.bucket_cnt e)) e

  pub insert_elem : Hash A → (bucket : ℕ) → A → Hash A
  insert_elem h bucket e = record h {
    elem_cnt = (h.elem_cnt + 1) % 2 ^ 32;
    buckets = put_bucket h.buckets bucket (e ∷ h.buckets bucket);
  }

  pub remove_elem : Hash A → (bucket : ℕ) → A → Hash A
  remove_elem h bucket e = record h {
    elem_cnt = (h.elem_cnt + 2 ^ 32 - 1) % 2 ^ 32;
    buckets = put_bucket h.buckets bucket (remove_found (h.buckets bucket) e);
  }

  -- The old element, and the table.
  pub hash_insert : (allocated : Bool) → Hash A → A → Option A × Hash A
  hash_insert allocated h e =
      let old = hash_find h e in
      (
        old,
        rehash allocated
            (elim old [ none ↦ insert_elem h (bucket_idx h.bucket_cnt e) e | some o ↦ h ]),
      )

  pub hash_replace : (allocated : Bool) → Hash A → A → Option A × Hash A
  hash_replace allocated h e =
      let i = bucket_idx h.bucket_cnt e in
      let old = hash_find h e in
      (old, rehash allocated (insert_elem (elim old [ none ↦ h | some o ↦ remove_elem h i e ]) i e))

  pub hash_delete : (allocated : Bool) → Hash A → A → Option A × Hash A
  hash_delete allocated h e =
      let found = hash_find h e in
      (
        found,
        elim found [
          | none ↦ h
          | some o ↦ rehash allocated (remove_elem h (bucket_idx h.bucket_cnt e) e)
        ],
      )
