-- ===== src/Hash/Tests.antt =====
-- The theorems on src/lib/kernel/hash.c at a table of numbers.
use operating_system.Common.{ℕ, ◌≡◌, refl, true, none, some, ltb, if◌then◌else◌, arith}
use operating_system.Hash.{
  Hash, hash_init, land, same_key, find_elem, hash_find, hash_insert, hash_delete, insert_elem,
  rehash, turn_off_least_1bit, round_to_power,
}
use operating_system.Hash.Chains.{IsKeyed, empty-AreBuckets, or_else}
use operating_system.Hash.Rehash.{IsValid}
use operating_system.Hash.Map.{hash_insert_lem, hash_delete_lem}

abbrev key : ℕ → ℕ
key n = n

keyed : IsKeyed key ltb
keyed = record {
  order = record { asym = λ a b h. ground arith; not_trans = λ a b c h k. ground arith };
  agrees = λ a b h. ground arith;
}

empty-IsValid : IsValid key ltb keyed hash_init
unfolding hash_init
empty-IsValid = record { some_bucket = omega arith; chains = empty-AreBuckets key ltb keyed 4 }

-- Elements 1 and 5 share a bucket of the four.
abbrev two : Hash ℕ
two = (hash_insert key ltb true (hash_insert key ltb true hash_init 1).1 5).1

two-IsValid : IsValid key ltb keyed two
two-IsValid =
    (hash_insert_lem key ltb keyed true _ 5
      (hash_insert_lem key ltb keyed true hash_init 1 empty-IsValid).1).1

hash_insert_lem_example :
    ((hash_insert key ltb true two 9).0 ≡ hash_find key ltb two 9)
    × IsValid key ltb keyed (hash_insert key ltb true two 9).1
    × ((x : ℕ)
        → hash_find key ltb (hash_insert key ltb true two 9).1 x ≡ (
            if same_key key ltb 9 x
            then or_else (hash_find key ltb two 9) (some 9)
            else hash_find key ltb two x))
hash_insert_lem_example = hash_insert_lem key ltb keyed true two 9 two-IsValid

hash_delete_lem_example :
    ((hash_delete key ltb true two 5).0 ≡ hash_find key ltb two 5)
    × IsValid key ltb keyed (hash_delete key ltb true two 5).1
    × ((x : ℕ)
        → hash_find key ltb (hash_delete key ltb true two 5).1 x
          ≡ (if same_key key ltb 5 x then none else hash_find key ltb two x))
hash_delete_lem_example = hash_delete_lem key ltb keyed true two 5 two-IsValid

run : hash_find key ltb two 5 ≡ some 5
unfolding hash_find find_elem hash_insert insert_elem rehash round_to_power land hash_init
    turn_off_least_1bit
run = refl
