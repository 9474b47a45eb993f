-- ===== src/Core/SortedVec/Laws.antt =====
-- The two vectors as a finite set and a finite map.
use putup.Prelude.{
  ℕ, ◌≤◌, ◌<◌, ◌≡◌, refl, ap, true, false, not, ◌||◌, ◌&&◌, List, [], ◌∷◌, Option, none, some,
  length, ◌==◌, mem, if◌then◌else◌, arith, Bool-cases, ==_iff, inl, inr,
}
use putup.Core.SortedVec.{
  position, found_at, grown, insert_at, erase_at, is_some, SortedIdVec, itself, lower_bound,
  contains, insert, remove, insert_all, merge_from,
}
use putup.Core.SortedVec.Search.{IsAscending, rank, find?, position-rank, found_at-rank}
use putup.Core.SortedVec.Edit.{
  insertion-IsAscending, find?-insertion, find?-erase, erase-IsAscending, length-insert_at,
  length-erase_at,
}

-- The ids ascend strictly and fit the buffer.
pub record IsValid (v : SortedIdVec) : Type 0 where
  pub ascending : IsAscending itself v.data_
  pub fits : length v.data_ ≤ v.capacity_

pub grown-lt : (n : ℕ) → n < grown n
unfolding grown
grown-lt n = ground arith

-- On ascending keys the search lands where a scan finds the key.
pub found_at-position :
    {A : Type 0} (key : A → ℕ) (xs : List A) (id : ℕ)
    → IsAscending key xs
    → found_at key xs (position key xs id) id ≡ find? key xs id
found_at-position key xs id s = rw (position-rank key xs id s) (found_at-rank key xs id s)

pub contains-find? :
    (v : SortedIdVec) (id : ℕ) → IsValid v → contains v id ≡ is_some (find? itself v.data_ id)
unfolding contains lower_bound
contains-find? v id i = ap is_some (found_at-position itself v.data_ id i.ascending)

find?-mem : (xs : List ℕ) (id : ℕ) → is_some (find? itself xs id) ≡ mem id xs
find?-mem [] id = refl
find?-mem (x ∷ xs) id = ground (arith, find?-mem xs id)

-- `contains` answers whether the id is stored.
pub contains-mem : (v : SortedIdVec) (id : ℕ) → IsValid v → contains v id ≡ mem id v.data_
contains-mem v id i = rw (contains-find? v id i) (find?-mem v.data_ id)

pub is_some-false→none : {A : Type 0} (o : Option A) → is_some o ≡ false → o ≡ none
is_some-false→none none h = refl
is_some-false→none (some x) h = cc

module _ (v : SortedIdVec) (id : ℕ) (i : IsValid v) where
  insert-old : contains v id ≡ true → insert v id ≡ (v, false)
  unfolding insert contains
  insert-old h = ground arith

  insert-new :
      contains v id ≡ false
      → insert v id ≡ (
        record {
          data_ = insert_at v.data_ (rank itself v.data_ id) id;
          capacity_ = if length v.data_ == v.capacity_ then grown v.capacity_ else v.capacity_;
        },
        true,
      )
  unfolding insert contains lower_bound
  insert-new h = rw (h, position-rank itself v.data_ id i.ascending)

  -- the vector that a new id leaves
  abbrev inserted : SortedIdVec
  inserted = record {
    data_ = insert_at v.data_ (rank itself v.data_ id) id;
    capacity_ = if length v.data_ == v.capacity_ then grown v.capacity_ else v.capacity_;
  }

  absent : contains v id ≡ false → find? itself v.data_ id ≡ none
  absent h = is_some-false→none (find? itself v.data_ id) (rw (contains-find? v id i) at h)

  inserted-IsValid : contains v id ≡ false → IsValid inserted
  inserted-IsValid h = record {
    ascending = insertion-IsAscending itself v.data_ id i.ascending (absent h);
    fits = rw length-insert_at (ground (arith, i.fits, grown-lt v.capacity_));
  }

  contains-inserted :
      (j : ℕ) → contains v id ≡ false → contains inserted j ≡ (id == j || contains v j)
  contains-inserted j h =
      rw (contains-find? inserted j (inserted-IsValid h), contains-find? v j i)
        (rw (find?-insertion itself v.data_ id j (absent h)) (ground arith))

  -- On a valid vector, an insertion keeps it valid, returns whether the id was new, and
  -- afterwards the vector holds that id and what it held.
  pub insert_lem :
      IsValid (insert v id).0
      × ((insert v id).1 ≡ not (contains v id))
      × ((j : ℕ) → contains (insert v id).0 j ≡ (id == j || contains v j))
  insert_lem = elim (Bool-cases (contains v id)) [
    | inl old ↦ rw (insert-old old) (
      i,
      rw old refl,
      λ j. elim (Bool-cases (id == j)) [
        | inl here ↦ rw (here, ← (==_iff id j).0 here) old
        | inr away ↦ rw away refl
      ],
    )
    | inr new ↦
        rw (insert-new new) (inserted-IsValid new, rw new refl, λ j. contains-inserted j new)
  ]

  remove-old :
      contains v id ≡ true
      → remove v id ≡ (record v { data_ = erase_at v.data_ (rank itself v.data_ id) }, true)
  unfolding remove contains lower_bound
  remove-old h = rw (h, position-rank itself v.data_ id i.ascending)

  remove-absent : contains v id ≡ false → remove v id ≡ (v, false)
  unfolding remove contains
  remove-absent h = ground arith

  removed-IsValid : IsValid (record v { data_ = erase_at v.data_ (rank itself v.data_ id) })
  removed-IsValid = record {
    ascending = erase-IsAscending itself v.data_ (rank itself v.data_ id) i.ascending;
    fits = omega (arith, i.fits, length-erase_at v.data_ (rank itself v.data_ id));
  }

  contains-removed :
      (j : ℕ)
      → contains v id ≡ true
      → contains (record v { data_ = erase_at v.data_ (rank itself v.data_ id) }) j
        ≡ (not (id == j) && contains v j)
  contains-removed j h =
      rw
        (
          contains-find? (record v { data_ = erase_at v.data_ (rank itself v.data_ id) }) j
              removed-IsValid,
          contains-find? v j i,
        )
        (rw (find?-erase itself v.data_ id j i.ascending (rw (contains-find? v id i) at h))
          (ground arith))

  -- On a valid vector, a removal keeps it valid, returns whether the id was there, and afterwards
  -- the vector holds what it held but that id.
  pub remove_lem :
      IsValid (remove v id).0
      × ((remove v id).1 ≡ contains v id)
      × ((j : ℕ) → contains (remove v id).0 j ≡ (not (id == j) && contains v j))
  remove_lem = elim (Bool-cases (contains v id)) [
    | inl old ↦ rw (remove-old old) (removed-IsValid, rw old refl, λ j. contains-removed j old)
    | inr new ↦ rw (remove-absent new) (
      i,
      rw new refl,
      λ j. elim (Bool-cases (id == j)) [
        | inl here ↦ rw (here, ← (==_iff id j).0 here) new
        | inr away ↦ rw away refl
      ],
    )
  ]

insert_all-contains :
    (v : SortedIdVec) (ids : List ℕ)
    → IsValid v
    → IsValid (insert_all v ids)
      × ((j : ℕ) → contains (insert_all v ids) j ≡ (mem j ids || contains v j))
unfolding insert_all
insert_all-contains v [] i = (i, λ j. refl)
insert_all-contains v (id ∷ ids) i =
    let (valid, _, holds) = insert_lem v id i in
    let (valid', holds') = insert_all-contains (insert v id).0 ids valid in
    (valid', λ j. rw holds' (rw holds (ground arith)))

-- Merging two valid vectors gives a valid one, which holds what either held.
pub merge_from-contains :
    (v other : SortedIdVec)
    → IsValid v
    → IsValid other
    → IsValid (merge_from v other)
      × ((j : ℕ) → contains (merge_from v other) j ≡ (contains other j || contains v j))
unfolding merge_from
merge_from-contains v other i k =
    let (valid, holds) = insert_all-contains v other.data_ i in
    (valid, λ j. rw (contains-mem other j k) (holds j))
