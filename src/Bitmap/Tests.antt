-- ===== src/Bitmap/Tests.antt =====
-- A bitmap of five bits, and the theorems on src/lib/kernel/bitmap.c at it.
use operating_system.Common.{
  ℕ, ◌/◌, ◌%◌, ◌≡◌, refl, Bool, false, Option, some, none, [], ◌∷◌, arith, ◌==◌, ◌||◌,
}
use operating_system.Bitmap.{
  Bitmap, Word, test, scan, scan_from, contains, in_range, contains_from, nonzero,
}
use operating_system.Bitmap.Refine.{Models}
use operating_system.Bitmap.Scan.{IsFirstFit, scan-IsFirstFit}

-- Bit 1 is set, and some bits of the word behind the bitmap's end are.
abbrev word : Word
word k = (k == 1) || (k == 7)

abbrev five : Bitmap
five = record { bit_cnt = 5; bits = word ∷ [] }

abbrev only_one : ℕ → Bool
only_one j = j == 1

five-Models : Models five 5 only_one
five-Models = record {
  cnt = refl;
  words = refl;
  agrees = λ j h.
      let q : j / 32 ≡ 0 = omega arith in
      let r : j % 32 ≡ j = omega arith in rw (q, r) (ground arith);
}

scan-IsFirstFit_example :
    (o : Option ℕ) × (scan five 0 2 false ≡ some o) × IsFirstFit only_one 5 0 2 false o
scan-IsFirstFit_example = scan-IsFirstFit five 5 only_one 0 2 false five-Models (omega arith)

scan_run : scan five 0 2 false ≡ some (some 2)
unfolding scan scan_from contains in_range contains_from test nonzero
scan_run = refl

scan-none_run : scan five 0 4 false ≡ some none
unfolding scan scan_from contains in_range contains_from test nonzero
scan-none_run = refl
