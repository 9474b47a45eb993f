-- ===== src/Core/SortedVec/Edit.antt =====
-- Insertion, replacement and removal at the place that the search found.
use putup.Prelude.{
  ℕ, zero, suc, ◌≤◌, ◌<◌, ◌≡◌, refl, ap, true, List, [], ◌∷◌, none, some, length, set, All, ltb,
  ◌==◌, if◌then◌else◌, arith, Bool-cases, inl, inr,
}
use putup.Core.SortedVec.{insert_at, erase_at, is_some}
use putup.Core.SortedVec.Search.{IsAscending, rank, find?, find?-above}

module _ {A : Type 0} (key : A → ℕ) where
  All-lt_trans : (b c : ℕ) (xs : List A) → b < c → All (λ y. c < key y) xs → All (λ y. b < key y) xs
  All-lt_trans b c [] h a = tt
  All-lt_trans b c (x ∷ xs) h (p, a) = (omega arith, All-lt_trans b c xs h a)

  -- the item put in at its rank, by a scan from the front
  abbrev insertion : List A → A → List A
  insertion xs x = insert_at xs (rank key xs (key x)) x

  All-insertion :
      (b : ℕ) (xs : List A) (n : ℕ) (x : A)
      → b < key x
      → All (λ y. b < key y) xs
      → All (λ y. b < key y) (insert_at xs n x)
  All-insertion b [] zero x h a = (h, tt)
  All-insertion b [] (suc n) x h a = (h, tt)
  All-insertion b (y ∷ xs) zero x h a = (h, a)
  All-insertion b (y ∷ xs) (suc n) x h (p, a) = (p, All-insertion b xs n x h a)

  pub insertion-IsAscending :
      (xs : List A) (x : A)
      → IsAscending key xs
      → find? key xs (key x) ≡ none
      → IsAscending key (insert_at xs (rank key xs (key x)) x)
  insertion-IsAscending [] x s n = (tt, tt)
  insertion-IsAscending (y ∷ xs) x (a, s) n = elim (Bool-cases (ltb (key y) (key x))) [
    | inl below ↦ rw below (
      All-insertion (key y) xs (rank key xs (key x)) x (ground arith) a,
      insertion-IsAscending xs x s (ground arith),
    )
    | inr above ↦ rw above (
        let lt : key x < key y = ground arith in
        ((lt, All-lt_trans (key x) (key y) xs lt a), (a, s)))
  ]

  pub find?-insertion :
      (xs : List A) (x : A) (id : ℕ)
      → find? key xs (key x) ≡ none
      → find? key (insert_at xs (rank key xs (key x)) x) id
        ≡ (if key x == id then some x else find? key xs id)
  find?-insertion [] x id n = refl
  find?-insertion (y ∷ xs) x id n = elim (Bool-cases (ltb (key y) (key x))) [
    | inl below ↦ rw below (ground (arith, find?-insertion xs x id))
    | inr above ↦ rw above refl
  ]

  -- a key that is there stands at its rank
  pub find?-set :
      (xs : List A) (x : A) (id : ℕ)
      → IsAscending key xs
      → is_some (find? key xs (key x)) ≡ true
      → find? key (set xs (rank key xs (key x)) x) id
        ≡ (if key x == id then some x else find? key xs id)
  find?-set [] x id s n = cc
  find?-set (y ∷ xs) x id (a, s) n = elim (Bool-cases (ltb (key y) (key x))) [
    | inl below ↦ rw below (ground (arith, find?-set xs x id s))
    | inr above ↦ rw above (ground (arith, find?-above key (key y) xs (key x)))
  ]

  All-set :
      (b : ℕ) (xs : List A) (n : ℕ) (x : A)
      → b < key x
      → All (λ y. b < key y) xs
      → All (λ y. b < key y) (set xs n x)
  All-set b [] n x h a = tt
  All-set b (y ∷ xs) zero x h (p, a) = (h, a)
  All-set b (y ∷ xs) (suc n) x h (p, a) = (p, All-set b xs n x h a)

  pub set-IsAscending :
      (xs : List A) (x : A)
      → IsAscending key xs
      → is_some (find? key xs (key x)) ≡ true
      → IsAscending key (set xs (rank key xs (key x)) x)
  set-IsAscending [] x s n = tt
  set-IsAscending (y ∷ xs) x (a, s) n = elim (Bool-cases (ltb (key y) (key x))) [
    | inl below ↦ rw below (
      All-set (key y) xs (rank key xs (key x)) x (ground arith) a,
      set-IsAscending xs x s (ground arith),
    )
    | inr above ↦
        let same : key x ≡ key y = ground (arith, find?-above key (key y) xs (key x)) in
        rw above (rw same a, s)
  ]

  pub find?-erase :
      (xs : List A) (k id : ℕ)
      → IsAscending key xs
      → is_some (find? key xs k) ≡ true
      → find? key (erase_at xs (rank key xs k)) id ≡ (if k == id then none else find? key xs id)
  find?-erase [] k id s n = cc
  find?-erase (y ∷ xs) k id (a, s) n = elim (Bool-cases (ltb (key y) k)) [
    | inl below ↦ rw below (ground (arith, find?-erase xs k id s))
    | inr above ↦
        rw above (ground (arith, find?-above key (key y) xs k, find?-above key (key y) xs id))
  ]

  All-erase :
      (b : ℕ) (xs : List A) (n : ℕ) → All (λ y. b < key y) xs → All (λ y. b < key y) (erase_at xs n)
  All-erase b [] zero a = tt
  All-erase b [] (suc n) a = tt
  All-erase b (y ∷ xs) zero (p, a) = a
  All-erase b (y ∷ xs) (suc n) (p, a) = (p, All-erase b xs n a)

  pub erase-IsAscending :
      (xs : List A) (n : ℕ) → IsAscending key xs → IsAscending key (erase_at xs n)
  erase-IsAscending [] zero s = tt
  erase-IsAscending [] (suc n) s = tt
  erase-IsAscending (y ∷ xs) zero (a, s) = s
  erase-IsAscending (y ∷ xs) (suc n) (a, s) = (All-erase (key y) xs n a, erase-IsAscending xs n s)

module _ {A : Type 0} where
  pub length-insert_at : (xs : List A) (n : ℕ) (x : A) → length (insert_at xs n x) ≡ suc (length xs)
  length-insert_at [] zero x = refl
  length-insert_at [] (suc n) x = refl
  length-insert_at (y ∷ xs) zero x = refl
  length-insert_at (y ∷ xs) (suc n) x = ap suc (length-insert_at xs n x)

  pub length-erase_at : (xs : List A) (n : ℕ) → length (erase_at xs n) ≤ length xs
  length-erase_at [] zero = omega arith
  length-erase_at [] (suc n) = omega arith
  length-erase_at (y ∷ xs) zero = omega arith
  length-erase_at (y ∷ xs) (suc n) = omega (arith, length-erase_at xs n)
