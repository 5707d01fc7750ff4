-- ===== src/Palloc/Tests.antt =====
-- Two small pools of pages, and the theorems on src/threads/palloc.c at them.
use operating_system.Common.{ℕ, ◌≡◌, refl, ◌⊎◌, true, false, Option, some, none, arith}
use operating_system.Bitmap
use operating_system.Bitmap.{Bitmap, Word}
use operating_system.Palloc.{Memory, Flags, palloc_get_multiple, palloc_free_multiple}
use operating_system.Palloc.Pages.{IsValid, Got, NoRun, palloc_get_multiple_lem, palloc_free-get}
use operating_system.Palloc.Sample.{memory, sizes, all_free, memory-IsValid}

abbrev user_zero : Flags
user_zero = record { pal_assert = false; pal_zero = true; pal_user = true }

palloc_get_multiple_lem_example :
    ((page : ℕ) × (m' : Memory) × (palloc_get_multiple memory user_zero 3 ≡ some (some page, m'))
      × Got memory m' sizes all_free true true 3 page)
    ⊎ ((palloc_get_multiple memory user_zero 3 ≡ some (none, memory)) × NoRun sizes all_free true 3)
palloc_get_multiple_lem_example = palloc_get_multiple_lem user_zero 3 memory-IsValid (omega arith)

abbrev memory_of : Option (Option ℕ × Memory) → Memory
memory_of none = memory
memory_of (some r) = r.1

-- The state after three pages of the user pool were taken.
abbrev taken : Memory
taken = memory_of (palloc_get_multiple memory user_zero 3)

taken_run : palloc_get_multiple memory user_zero 3 ≡ some (some 200, taken)
unfolding palloc_get_multiple Bitmap.scan_and_flip Bitmap.scan Bitmap.scan_from Bitmap.contains
    Bitmap.in_range Bitmap.contains_from Bitmap.test Bitmap.nonzero Bitmap.set_multiple
    Bitmap.set_from Bitmap.set Bitmap.mark Bitmap.update_word
taken_run = refl

-- And after two more.
abbrev taken_twice : Memory
taken_twice = memory_of (palloc_get_multiple taken user_zero 2)

taken_twice_run : palloc_get_multiple taken user_zero 2 ≡ some (some 203, taken_twice)
unfolding palloc_get_multiple Bitmap.scan_and_flip Bitmap.scan Bitmap.scan_from Bitmap.contains
    Bitmap.in_range Bitmap.contains_from Bitmap.test Bitmap.nonzero Bitmap.set_multiple
    Bitmap.set_from Bitmap.set Bitmap.mark Bitmap.update_word
taken_twice_run = refl

palloc_free-get_example :
    (m'' : Memory) × (palloc_free_multiple taken (some 200) 3 ≡ some m'')
    × IsValid m'' sizes all_free
palloc_free-get_example = palloc_free-get user_zero 3 200 memory-IsValid (omega arith) taken_run
