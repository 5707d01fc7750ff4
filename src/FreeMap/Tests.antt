-- ===== src/FreeMap/Tests.antt =====
-- A device of 32 sectors of which two are in use, and the theorems on src/filesys/free-map.c at it.
use operating_system.Common.{ℕ, ◌/◌, ◌%◌, ◌≡◌, refl, Bool, true, some, [], ◌∷◌, arith, ◌==◌, ◌||◌}
use operating_system.Bitmap.{
  Word, test, scan, scan_and_flip, scan_from, contains, in_range, contains_from, nonzero,
  set_multiple, set_from, set, mark, update_word, word_or, bit_mask,
}
use operating_system.Bitmap.Refine.{Models}
use operating_system.FreeMap.{FreeMap, free_map_allocate, free_map_release}
use operating_system.FreeMap.Allocate.{free_map_release-allocate}

abbrev word : Word
word k = (k == 0) || (k == 1)

abbrev used : ℕ → Bool
used j = (j == 0) || (j == 1)

abbrev two_used : FreeMap
two_used = record { map = record { bit_cnt = 32; bits = word ∷ [] }; is_open = true }

two_used-Models : Models two_used.map 32 used
two_used-Models = record {
  cnt = refl;
  words = refl;
  agrees = λ j h.
      let q : j / 32 ≡ 0 = omega arith in
      let r : j % 32 ≡ j = omega arith in rw (q, r) (ground arith);
}

-- The map after sectors 2 and 3 were taken.
abbrev four_used : FreeMap
four_used = record {
  map = record { bit_cnt = 32; bits = word_or (word_or word (bit_mask 2)) (bit_mask 3) ∷ [] };
  is_open = true;
}

allocate_run : free_map_allocate two_used true 2 ≡ some (some 2, four_used)
unfolding free_map_allocate scan_and_flip scan scan_from contains in_range contains_from test
    nonzero set_multiple set_from set mark update_word
allocate_run = refl

free_map_release-allocate_example :
    (f'' : FreeMap) × (free_map_release four_used 2 2 ≡ some f'') × Models f''.map 32 used
free_map_release-allocate_example =
    free_map_release-allocate two_used four_used true 32 used 2 2 two_used-Models refl allocate_run
