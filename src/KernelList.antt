-- ===== src/KernelList.antt =====
-- src/lib/kernel/list.c, the parts that order a list: a `struct list` as the sequence of its
-- interior elements, with the caller's comparison `less`.
pub mod Order
pub mod Sort
mod Tests
use operating_system.Common.{
  ℕ, zero, suc, ◌+◌, Bool, true, false, not, Option, none, some, List, [], ◌∷◌, ◌++◌, ltb,
  if◌then◌else◌, length, ◌&&◌,
}

module _ {ℓ} {A : Type ℓ} (less : A → A → Bool) where
  -- `elem` goes before the first element that it is less than.
  abbrev pub list_insert_ordered : List A → A → List A
  list_insert_ordered [] elem = elem ∷ []
  list_insert_ordered (e ∷ es) elem =
      if less elem e then elem ∷ e ∷ es else e ∷ list_insert_ordered es elem

  -- The run that starts with `a`, and the elements from its end on.
  pub find_end_of_run : A → List A → List A × List A
  find_end_of_run a [] = (a ∷ [], [])
  find_end_of_run a (b ∷ bs) =
      let (run, rest) = find_end_of_run b bs in
      if less b a then (a ∷ [], b ∷ bs) else (a ∷ run, rest)

  -- Elements of the second run move before the first element of the first that they are less than.
  pub inplace_merge : List A → List A → List A
  inplace_merge [] bs = bs
  inplace_merge (a ∷ as') [] = a ∷ as'
  inplace_merge (a ∷ as') (b ∷ bs) = elim (less b a) [
    | true ↦ b ∷ inplace_merge (a ∷ as') bs
    | false ↦ a ∷ inplace_merge as' (b ∷ bs)
  ]

  -- One round of the outer loop of `list_sort`: the new list and `output_run_cnt`. Each inner round
  -- takes two runs off the list, so its length is fuel enough.
  pub merge_pass : ℕ → List A → List A × ℕ
  merge_pass fuel [] = ([], 0)
  merge_pass zero (x ∷ xs) = (x ∷ xs, 0)
  merge_pass (suc fuel) (x ∷ xs) = elim (find_end_of_run x xs).1 [
    | [] ↦ ((find_end_of_run x xs).0, 1)
    | y ∷ ys ↦
        let (second, rest) = find_end_of_run y ys in
        let (sorted, cnt) = merge_pass fuel rest in
        (inplace_merge (find_end_of_run x xs).0 second ++ sorted, cnt + 1)
  ]

  -- The outer loop of `list_sort`, on fuel; `none` means that the fuel ran out.
  pub sort_rounds : ℕ → List A → Option (List A)
  sort_rounds zero xs = none
  sort_rounds (suc fuel) xs =
      let again = sort_rounds fuel (merge_pass (length xs) xs).0 in
      if ltb 1 (merge_pass (length xs) xs).1 then again else some (merge_pass (length xs) xs).0

  -- A round at least halves the number of runs, so as many rounds as elements, and one more, do.
  pub list_sort : List A → Option (List A)
  list_sort xs = sort_rounds (length xs + 1) xs

  max_from : A → List A → A
  max_from m [] = m
  max_from m (e ∷ es) = max_from (if less m e then e else m) es

  -- The first of the largest elements; the tail (`none`) of an empty list.
  pub list_max : List A → Option A
  list_max [] = none
  list_max (x ∷ xs) = some (max_from x xs)

  min_from : A → List A → A
  min_from m [] = m
  min_from m (e ∷ es) = min_from (if less e m then e else m) es

  pub list_min : List A → Option A
  list_min [] = none
  list_min (x ∷ xs) = some (min_from x xs)

  unique_from : A → List A → List A × List A
  unique_from e [] = (e ∷ [], [])
  unique_from e (n ∷ ns) =
      let (kept, dups) = unique_from (if not (less e n) && not (less n e) then e else n) ns in
      if not (less e n) && not (less n e) then (kept, n ∷ dups) else (e ∷ kept, dups)

  -- The list without adjacent duplicates, and the duplicates in order.
  pub list_unique : List A → List A × List A
  list_unique [] = ([], [])
  list_unique (x ∷ xs) = unique_from x xs
