-- ===== src/Core/SortedVec/Search.antt =====
-- The binary search finds the number of keys below the one sought.
use putup.Prelude.{
  ℕ, zero, suc, ◌+◌, ◌-◌, ◌/◌, ◌≤◌, ◌<◌, ◌≡◌, refl, false, List, [], ◌∷◌, Option, none, some,
  length, All, ltb, ◌==◌, if◌then◌else◌, arith, Bool-cases, inl, inr,
}
use putup.Core.SortedVec.{less_at, search_loop, position, found_at}

module _ {A : Type 0} (key : A → ℕ) where
  -- the keys ascend strictly
  abbrev pub IsAscending : List A → Type 0
  IsAscending [] = Unit
  IsAscending (x ∷ xs) = All (λ y. key x < key y) xs × IsAscending xs

  -- how many items stand below `id` at the front
  abbrev pub rank : List A → ℕ → ℕ
  rank [] id = 0
  rank (x ∷ xs) id = if ltb (key x) id then suc (rank xs id) else 0

  -- the item with the key, by a scan from the front
  abbrev pub find? : List A → ℕ → Option A
  find? [] id = none
  find? (x ∷ xs) id = if key x == id then some x else find? xs id

  pub rank-le-length : (xs : List A) (id : ℕ) → rank xs id ≤ length xs
  rank-le-length [] id = omega arith
  rank-le-length (x ∷ xs) id = ground (arith, rank-le-length xs id)

  -- above a key that is not below `id` there is none
  no_less :
      (b : ℕ) (xs : List A) (i id : ℕ)
      → id ≤ b
      → All (λ y. b < key y) xs
      → less_at key xs i id ≡ false
  unfolding less_at
  no_less b [] i id h a = refl
  no_less b (x ∷ xs) zero id h a = ground arith
  no_less b (x ∷ xs) (suc i) id h (p, a) = no_less b xs i id h a

  pub less_at-rank :
      (xs : List A) (i id : ℕ)
      → IsAscending xs
      → i < length xs
      → less_at key xs i id ≡ ltb i (rank xs id)
  unfolding less_at
  less_at-rank [] i id s h = absurd (omega arith)
  less_at-rank (x ∷ xs) zero id s h = ground arith
  less_at-rank (x ∷ xs) (suc i) id (a, s) h = elim (Bool-cases (ltb (key x) id)) [
    | inl below ↦ rw below (ground (arith, less_at-rank xs i id s))
    | inr above ↦ rw above (ground (arith, no_less (key x) xs i id))
  ]

  search_loop-rank :
      (fuel : ℕ) (xs : List A) (id lo hi : ℕ)
      → IsAscending xs
      → lo ≤ rank xs id
      → rank xs id ≤ hi
      → hi ≤ length xs
      → hi - lo ≤ fuel
      → search_loop key fuel xs id lo hi ≡ rank xs id
  unfolding search_loop
  search_loop-rank zero xs id lo hi s l u h f = omega arith
  search_loop-rank (suc fuel) xs id lo hi s l u h f = ground (
    arith,
    less_at-rank xs (lo + (hi - lo) / 2) id s,
    search_loop-rank fuel xs id (lo + (hi - lo) / 2 + 1) hi s,
    search_loop-rank fuel xs id lo (lo + (hi - lo) / 2) s,
  )

  pub position-rank : (xs : List A) (id : ℕ) → IsAscending xs → position key xs id ≡ rank xs id
  unfolding position
  position-rank xs id s =
      search_loop-rank (length xs) xs id 0 (length xs) s (omega arith) (rank-le-length xs id)
        (omega arith) (omega arith)

  pub find?-above :
      (b : ℕ) (xs : List A) (id : ℕ) → id ≤ b → All (λ y. b < key y) xs → find? xs id ≡ none
  find?-above b [] id h a = refl
  find?-above b (x ∷ xs) id h (p, a) = ground (arith, find?-above b xs id)

  -- the cell that the search stops at decides whether the key is there
  pub found_at-rank :
      (xs : List A) (id : ℕ) → IsAscending xs → found_at key xs (rank xs id) id ≡ find? xs id
  unfolding found_at
  found_at-rank [] id s = refl
  found_at-rank (x ∷ xs) id (a, s) = elim (Bool-cases (ltb (key x) id)) [
    | inl below ↦ rw below (ground (arith, found_at-rank xs id s))
    | inr above ↦ rw above (ground (arith, find?-above (key x) xs id))
  ]
