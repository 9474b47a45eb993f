-- ===== src/Samples/SortedVecSamples.antt =====
-- The sorted vectors at three ids and at two pairs.
use putup.Prelude.{
  ℕ, ◌≡◌, refl, true, not, ◌||◌, ◌&&◌, [], ◌∷◌, arith, ◌==◌, if◌then◌else◌, some, none,
}
use putup.Core.SortedVec.{
  SortedIdVec, insert, remove, contains, merge_from, SortedPairVec, find, pair_insert, pair_remove,
  is_some,
}
use putup.Core.SortedVec.Laws.{IsValid, insert_lem, remove_lem, merge_from-contains}
use putup.Core.SortedVec.PairLaws.{IsValidPairs, pair_insert_lem, pair_remove_lem}

abbrev three_ids : SortedIdVec
three_ids = record { data_ = 2 ∷ 5 ∷ 9 ∷ []; capacity_ = 3 }

abbrev two_ids : SortedIdVec
two_ids = record { data_ = 1 ∷ 5 ∷ []; capacity_ = 8 }

abbrev two_pairs : SortedPairVec
two_pairs = record { pairs_ = (2, 20) ∷ (7, 70) ∷ []; pair_capacity_ = 8 }

insert_grows : insert three_ids 7 ≡ (record { data_ = 2 ∷ 5 ∷ 7 ∷ 9 ∷ []; capacity_ = 6 }, true)
unfolding insert
insert_grows = refl

remove_first : remove three_ids 2 ≡ (record { data_ = 5 ∷ 9 ∷ []; capacity_ = 3 }, true)
unfolding remove
remove_first = refl

three_ids-IsValid : IsValid three_ids
three_ids-IsValid = omega arith

two_ids-IsValid : IsValid two_ids
two_ids-IsValid = omega arith

two_pairs-IsValidPairs : IsValidPairs two_pairs
two_pairs-IsValidPairs = omega arith

insert_lem_example :
    IsValid (insert three_ids 7).0
    × ((insert three_ids 7).1 ≡ not (contains three_ids 7))
    × ((j : ℕ) → contains (insert three_ids 7).0 j ≡ (7 == j || contains three_ids j))
insert_lem_example = insert_lem three_ids 7 three_ids-IsValid

remove_lem_example :
    IsValid (remove three_ids 5).0
    × ((remove three_ids 5).1 ≡ contains three_ids 5)
    × ((j : ℕ) → contains (remove three_ids 5).0 j ≡ (not (5 == j) && contains three_ids j))
remove_lem_example = remove_lem three_ids 5 three_ids-IsValid

merge_from-contains_example :
    IsValid (merge_from three_ids two_ids)
    × ((j : ℕ)
        → contains (merge_from three_ids two_ids) j ≡ (contains two_ids j || contains three_ids j))
merge_from-contains_example =
    merge_from-contains three_ids two_ids three_ids-IsValid two_ids-IsValid

pair_insert_lem_example :
    IsValidPairs (pair_insert two_pairs 5 50).0
    × ((pair_insert two_pairs 5 50).1 ≡ not (is_some (find two_pairs 5)))
    × ((j : ℕ)
        → find (pair_insert two_pairs 5 50).0 j ≡ (if 5 == j then some 50 else find two_pairs j))
pair_insert_lem_example = pair_insert_lem two_pairs 5 two_pairs-IsValidPairs 50

pair_remove_lem_example :
    IsValidPairs (pair_remove two_pairs 7).0
    × ((pair_remove two_pairs 7).1 ≡ is_some (find two_pairs 7))
    × ((j : ℕ) → find (pair_remove two_pairs 7).0 j ≡ (if 7 == j then none else find two_pairs j))
pair_remove_lem_example = pair_remove_lem two_pairs 7 two_pairs-IsValidPairs
