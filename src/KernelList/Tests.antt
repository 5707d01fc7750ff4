-- ===== src/KernelList/Tests.antt =====
-- Lists of numbers, and the theorems on src/lib/kernel/list.c at them.
use operating_system.Common.{ℕ, ◌≡◌, refl, Bool, some, List, [], ◌∷◌, arith, ltb}
use operating_system.KernelList.{list_sort, sort_rounds, merge_pass, find_end_of_run, inplace_merge}
use operating_system.KernelList.Sort.{list_sort-IsSorted}
use operating_system.KernelList.Order.{count, IsOrder, IsSorted}

abbrev less : ℕ → ℕ → Bool
less a b = ltb a b

less-IsOrder : IsOrder less
less-IsOrder = record { asym = λ a b h. ground arith; not_trans = λ a b c h k. ground arith }

abbrev three : List ℕ
three = 1 ∷ 4 ∷ 4 ∷ []

three-IsSorted : IsSorted less three
three-IsSorted = ((refl, (refl, tt)), ((refl, tt), (tt, tt)))

list_sort_run : list_sort less (5 ∷ 3 ∷ 8 ∷ 1 ∷ 3 ∷ []) ≡ some (1 ∷ 3 ∷ 3 ∷ 5 ∷ 8 ∷ [])
unfolding list_sort sort_rounds merge_pass find_end_of_run inplace_merge
list_sort_run = refl

list_sort-IsSorted_example :
    (ys : List ℕ) × (list_sort less (5 ∷ 3 ∷ 8 ∷ 1 ∷ 3 ∷ []) ≡ some ys)
    × IsSorted less ys
    × ((q : ℕ → Bool) → count q ys ≡ count q (5 ∷ 3 ∷ 8 ∷ 1 ∷ 3 ∷ []))
list_sort-IsSorted_example = list_sort-IsSorted less less-IsOrder (5 ∷ 3 ∷ 8 ∷ 1 ∷ 3 ∷ [])
