-- ===== src/MergeSort/Tests.antt =====
-- The sort at concrete arrays, ordered by the first component, as `get_approximate_command` orders
-- its list by distance.
use pass_keeper.Prelude.{
  ℕ, ◌≡◌, refl, Bool, List, [], ◌∷◌, ok, fault, Returns, arith, ltb, load, store, copy_to,
  copy_from, st_mult,
}
use pass_keeper.MergeSort.{merge_loop, copy_back, merge_halves, merge_sort_next, merge_sort}
use pass_keeper.MergeSort.Merge.{IsOrder, IsSorting}
use pass_keeper.MergeSort.Sorts.{merge_sort_sorts}

abbrev by_first : ℕ × ℕ → ℕ × ℕ → Bool
by_first x y = ltb y.0 x.0

by_first-IsOrder : IsOrder by_first
by_first-IsOrder = record { asym = λ x y h. ground arith; trans = λ x y z h k. ground arith }

abbrev entries : List (ℕ × ℕ)
entries = (5, 0) ∷ (2, 1) ∷ (9, 2) ∷ (2, 3) ∷ (0, 4) ∷ []

merge_sort_sorts_example :
    Returns (IsSorting by_first entries) (merge_sort by_first (7, 7) 16 entries)
merge_sort_sorts_example =
    merge_sort_sorts by_first by_first-IsOrder (7, 7) 16 entries (omega arith) (omega arith)

sorts : merge_sort by_first (7, 7) 16 entries ≡ ok ((0, 4) ∷ (2, 1) ∷ (2, 3) ∷ (5, 0) ∷ (9, 2) ∷ [])
unfolding merge_sort merge_sort_next merge_halves merge_loop copy_back st_mult load store copy_to
    copy_from
sorts = refl

-- With no elements, the overflow check of the allocation divides by 0.
empty_array : merge_sort by_first (7, 7) 16 [] ≡ fault
unfolding merge_sort st_mult
empty_array = refl
