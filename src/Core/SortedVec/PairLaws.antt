-- ===== src/Core/SortedVec/PairLaws.antt =====
-- The sorted vector of pairs as a finite map.
use putup.Prelude.{
  ℕ, ◌≤◌, ◌≡◌, refl, ap, Bool, true, false, not, Option, none, some, length, set, length-set, ◌==◌,
  if◌then◌else◌, arith, Bool-cases, ==_iff, inl, inr,
}
use putup.Core.SortedVec.{
  found_at, grown, insert_at, erase_at, is_some, SortedPairVec, key_of, pair_lower_bound, find,
  pair_insert, pair_remove,
}
use putup.Core.SortedVec.Search.{IsAscending, rank, find?, position-rank}
use putup.Core.SortedVec.Edit.{
  insertion-IsAscending, find?-insertion, find?-set, set-IsAscending, find?-erase,
  erase-IsAscending, length-insert_at, length-erase_at,
}
use putup.Core.SortedVec.Laws.{grown-lt, found_at-position, is_some-false→none}

-- The keys ascend strictly and the pairs fit the buffer.
pub record IsValidPairs (v : SortedPairVec) : Type 0 where
  pub ascending : IsAscending key_of v.pairs_
  pub fits : length v.pairs_ ≤ v.pair_capacity_

abbrev value_of : Option (ℕ × ℕ) → Option ℕ
value_of none = none
value_of (some p) = some p.1

find-find? :
    (v : SortedPairVec) (key : ℕ)
    → IsValidPairs v
    → find v key ≡ value_of (find? key_of v.pairs_ key)
unfolding find pair_lower_bound
find-find? v key i = ap value_of (found_at-position key_of v.pairs_ key i.ascending)

module _ (v : SortedPairVec) (key : ℕ) (i : IsValidPairs v) where
  is_some-find : is_some (find v key) ≡ is_some (find? key_of v.pairs_ key)
  is_some-find = rw (find-find? v key i) (value_of-is_some (find? key_of v.pairs_ key))
    where
      value_of-is_some : (o : Option (ℕ × ℕ)) → is_some (value_of o) ≡ is_some o
      value_of-is_some none = refl
      value_of-is_some (some p) = refl

  abbrev place : ℕ
  place = rank key_of v.pairs_ key

  abbrev overwritten : ℕ → SortedPairVec
  overwritten value = record v { pairs_ = set v.pairs_ place (key, value) }

  abbrev inserted : ℕ → SortedPairVec
  inserted value = record {
    pairs_ = insert_at v.pairs_ place (key, value);
    pair_capacity_ =
        if length v.pairs_ == v.pair_capacity_ then grown v.pair_capacity_ else v.pair_capacity_;
  }

  abbrev removed : SortedPairVec
  removed = record v { pairs_ = erase_at v.pairs_ place }

  found-is_some :
      is_some (found_at key_of v.pairs_ (pair_lower_bound v key) key) ≡ is_some (find v key)
  unfolding pair_lower_bound
  found-is_some = rw is_some-find (ap is_some (found_at-position key_of v.pairs_ key i.ascending))

  place_lem : pair_lower_bound v key ≡ place
  unfolding pair_lower_bound
  place_lem = position-rank key_of v.pairs_ key i.ascending

  pair_insert-old :
      (value : ℕ)
      → is_some (find v key) ≡ true
      → pair_insert v key value ≡ (overwritten value, false)
  unfolding pair_insert
  pair_insert-old value h = rw (found-is_some, h, place_lem)

  pair_insert-new :
      (value : ℕ) → is_some (find v key) ≡ false → pair_insert v key value ≡ (inserted value, true)
  unfolding pair_insert
  pair_insert-new value h = rw (found-is_some, h, place_lem)

  pair_remove-old : is_some (find v key) ≡ true → pair_remove v key ≡ (removed, true)
  unfolding pair_remove
  pair_remove-old h = rw (found-is_some, h, place_lem)

  pair_remove-absent : is_some (find v key) ≡ false → pair_remove v key ≡ (v, false)
  unfolding pair_remove
  pair_remove-absent h = rw (found-is_some, h)

  overwritten-IsValid : (value : ℕ) → is_some (find v key) ≡ true → IsValidPairs (overwritten value)
  overwritten-IsValid value h = record {
    ascending = set-IsAscending key_of v.pairs_ (key, value) i.ascending (rw is_some-find at h);
    fits = rw length-set i.fits;
  }

  absent : is_some (find v key) ≡ false → find? key_of v.pairs_ key ≡ none
  absent h = is_some-false→none (find? key_of v.pairs_ key) (rw is_some-find at h)

  inserted-IsValid : (value : ℕ) → is_some (find v key) ≡ false → IsValidPairs (inserted value)
  inserted-IsValid value h = record {
    ascending = insertion-IsAscending key_of v.pairs_ (key, value) i.ascending (absent h);
    fits = rw length-insert_at (ground (arith, i.fits, grown-lt v.pair_capacity_));
  }

  removed-IsValid : IsValidPairs removed
  removed-IsValid = record {
    ascending = erase-IsAscending key_of v.pairs_ place i.ascending;
    fits = omega (arith, i.fits, length-erase_at v.pairs_ place);
  }

  value_of-if :
      (b : Bool) (p : ℕ × ℕ) (o : Option (ℕ × ℕ))
      → value_of (if b then some p else o) ≡ (if b then some p.1 else value_of o)
  value_of-if true p o = refl
  value_of-if false p o = refl

  find-overwritten :
      (value j : ℕ)
      → is_some (find v key) ≡ true
      → find (overwritten value) j ≡ (if key == j then some value else find v j)
  find-overwritten value j h =
      rw (find-find? (overwritten value) j (overwritten-IsValid value h), find-find? v j i)
        (rw (find?-set key_of v.pairs_ (key, value) j i.ascending (rw is_some-find at h))
          (value_of-if (key == j) (key, value) (find? key_of v.pairs_ j)))

  find-inserted :
      (value j : ℕ)
      → is_some (find v key) ≡ false
      → find (inserted value) j ≡ (if key == j then some value else find v j)
  find-inserted value j h =
      rw (find-find? (inserted value) j (inserted-IsValid value h), find-find? v j i)
        (rw (find?-insertion key_of v.pairs_ (key, value) j (absent h))
          (value_of-if (key == j) (key, value) (find? key_of v.pairs_ j)))

  find-removed :
      (j : ℕ) → is_some (find v key) ≡ true → find removed j ≡ (if key == j then none else find v j)
  find-removed j h =
      rw (find-find? removed j removed-IsValid, find-find? v j i)
        (rw (find?-erase key_of v.pairs_ key j i.ascending (rw is_some-find at h)) (ground arith))

  -- On a valid vector of pairs, writing a pair keeps it valid and returns whether the key was
  -- new; the key then has the value written, and every other key what it had.
  pub pair_insert_lem :
      (value : ℕ)
      → IsValidPairs (pair_insert v key value).0
        × ((pair_insert v key value).1 ≡ not (is_some (find v key)))
        × ((j : ℕ)
            → find (pair_insert v key value).0 j ≡ (if key == j then some value else find v j))
  pair_insert_lem value = elim (Bool-cases (is_some (find v key))) [
    | inl old ↦
        rw (pair_insert-old value old)
          (overwritten-IsValid value old, rw old refl, λ j. find-overwritten value j old)
    | inr new ↦
        rw (pair_insert-new value new)
          (inserted-IsValid value new, rw new refl, λ j. find-inserted value j new)
  ]

  -- On a valid vector of pairs, removing a key keeps it valid and returns whether the key was
  -- there; the key is then absent, and every other key has what it had.
  pub pair_remove_lem :
      IsValidPairs (pair_remove v key).0
      × ((pair_remove v key).1 ≡ is_some (find v key))
      × ((j : ℕ) → find (pair_remove v key).0 j ≡ (if key == j then none else find v j))
  pair_remove_lem = elim (Bool-cases (is_some (find v key))) [
    | inl old ↦ rw (pair_remove-old old) (removed-IsValid, rw old refl, λ j. find-removed j old)
    | inr new ↦ rw (pair_remove-absent new) (
      i,
      rw new refl,
      λ j. elim (Bool-cases (key == j)) [
        | inl here ↦ rw here (rw (← (==_iff key j).0 here) (is_some-false→none (find v key) new))
        | inr away ↦ rw away refl
      ],
    )
  ]
