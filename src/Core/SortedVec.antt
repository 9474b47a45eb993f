-- ===== src/Core/SortedVec.antt =====
-- src/core/sorted_id_vec.cpp: the two sorted vectors, over what they share. `data_` holds the
-- first `size_` cells of the buffer; the cells behind them are never read.
mod Search
mod Edit
pub mod Laws
pub mod PairLaws
use putup.Prelude.{
  ℕ, zero, suc, ◌+◌, ◌-◌, ◌*◌, ◌/◌, ◌<◌, Bool, true, false, ◌&&◌, not, List, [], ◌∷◌, ◌++◌, Option,
  none, some, map, length, get_elem?, set, take, drop, ltb, ◌==◌, if◌then◌else◌,
}

module _ {A : Type 0} (key : A → ℕ) where
  -- `data_[mid] < id`, over the keys; `mid` is always below the size
  pub less_at : List A → ℕ → ℕ → Bool
  less_at xs mid id = elim (get_elem? xs mid) [ none ↦ false | some x ↦ ltb (key x) id ]

  -- the `while` loop of `lower_bound`; every round shortens the range, which bounds the fuel
  pub search_loop : ℕ → List A → ℕ → ℕ → ℕ → ℕ
  search_loop zero xs id lo hi = lo
  search_loop (suc fuel) xs id lo hi =
      let mid = lo + (hi - lo) / 2 in
      let right = search_loop fuel xs id (mid + 1) hi in
      let left = search_loop fuel xs id lo mid in
      if ltb lo hi then if less_at xs mid id then right else left else lo

  pub position : List A → ℕ → ℕ
  unfolding search_loop less_at
  position xs id = search_loop (length xs) xs id 0 (length xs)

  -- `pos < size_ && data_[pos].key == id`, with the cell that it tests
  pub found_at : List A → ℕ → ℕ → Option A
  found_at xs pos id = elim (get_elem? xs pos) [
    | none ↦ none
    | some x ↦ if key x == id then some x else none
  ]

-- `grow`: the capacity of the buffer after it
pub grown : ℕ → ℕ
grown capacity = if capacity == 0 then 8 else capacity * 2

module _ {A : Type 0} where
  -- the two `memmove`s, with the write between them
  abbrev pub insert_at : List A → ℕ → A → List A
  insert_at xs pos x = take pos xs ++ x ∷ drop pos xs

  abbrev pub erase_at : List A → ℕ → List A
  erase_at xs pos = take pos xs ++ drop (suc pos) xs

  abbrev pub is_some : Option A → Bool
  is_some none = false
  is_some (some _) = true

pub record SortedIdVec : Type 0 where
  pub data_ : List ℕ
  pub capacity_ : ℕ

abbrev pub itself : ℕ → ℕ
itself id = id

unfoldable pub lower_bound : SortedIdVec → ℕ → ℕ
unfolding position
lower_bound v id = position itself v.data_ id

unfoldable pub contains : SortedIdVec → ℕ → Bool
unfolding lower_bound found_at
contains v id = is_some (found_at itself v.data_ (lower_bound v id) id)

-- the new vector, and whether the id was new
unfoldable pub insert : SortedIdVec → ℕ → SortedIdVec × Bool
unfolding lower_bound found_at grown
insert v id =
    let pos = lower_bound v id in
    if is_some (found_at itself v.data_ pos id) then (v, false) else (
      record {
        data_ = insert_at v.data_ pos id;
        capacity_ = if length v.data_ == v.capacity_ then grown v.capacity_ else v.capacity_;
      },
      true,
    )

unfoldable pub remove : SortedIdVec → ℕ → SortedIdVec × Bool
unfolding lower_bound found_at
remove v id =
    let pos = lower_bound v id in
    if is_some (found_at itself v.data_ pos id)
    then (record v { data_ = erase_at v.data_ pos }, true)
    else (v, false)

insert_all : SortedIdVec → List ℕ → SortedIdVec
insert_all v [] = v
insert_all v (id ∷ ids) = insert_all (insert v id).0 ids

unfoldable pub merge_from : SortedIdVec → SortedIdVec → SortedIdVec
unfolding insert_all
merge_from v other = insert_all v other.data_

unfoldable pub clear : SortedIdVec → SortedIdVec
clear v = record v { data_ = [] }

-- A pair is its key and its value.
pub record SortedPairVec : Type 0 where
  pub pairs_ : List (ℕ × ℕ)
  pub pair_capacity_ : ℕ

abbrev pub key_of : ℕ × ℕ → ℕ
key_of p = p.0

unfoldable pub pair_lower_bound : SortedPairVec → ℕ → ℕ
unfolding position
pair_lower_bound v key = position key_of v.pairs_ key

unfoldable pub find : SortedPairVec → ℕ → Option ℕ
unfolding pair_lower_bound found_at
find v key = elim (found_at key_of v.pairs_ (pair_lower_bound v key) key) [
  | none ↦ none
  | some p ↦ some p.1
]

-- the new vector, and whether the key was new; a key that is there takes the new value
unfoldable pub pair_insert : SortedPairVec → ℕ → ℕ → SortedPairVec × Bool
unfolding pair_lower_bound found_at grown
pair_insert v key value =
    let pos = pair_lower_bound v key in
    if is_some (found_at key_of v.pairs_ pos key)
    then (record v { pairs_ = set v.pairs_ pos (key, value) }, false)
    else (
      record {
        pairs_ = insert_at v.pairs_ pos (key, value);
        pair_capacity_ =
            if length v.pairs_ == v.pair_capacity_
            then grown v.pair_capacity_
            else v.pair_capacity_;
      },
      true,
    )

unfoldable pub pair_remove : SortedPairVec → ℕ → SortedPairVec × Bool
unfolding pair_lower_bound found_at
pair_remove v key =
    let pos = pair_lower_bound v key in
    if is_some (found_at key_of v.pairs_ pos key)
    then (record v { pairs_ = erase_at v.pairs_ pos }, true)
    else (v, false)
