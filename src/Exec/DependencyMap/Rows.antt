-- ===== src/Exec/DependencyMap/Rows.antt =====
-- What the loop over the jobs leaves in the map.
use putup.Prelude.{
  ℕ, zero, suc, none, some, get_elem?, if-true, if-false, ◌+◌, ◌≤◌, ◌<◌, ◌≡◌, refl, ap, ◌∙◌, List,
  [], ◌∷◌, ◌++◌, length, ◌==◌, if◌then◌else◌, count, count-append, arith, update, Bool-cases,
  if_cases, ==_iff, inl, inr,
}
use putup.Exec.DependencyMap.{DependencyMap, push_dependents, fill_rows}

-- the dependencies of each job, none where there is no job
abbrev pub rows : (ℕ → ℕ → List ℕ) → ℕ → List ℕ → ℕ → List ℕ
rows row i [] k = []
rows row i (id ∷ ids) k = if k == i then row i id else rows row (i + 1) ids k

pub rows-at :
    (row : ℕ → ℕ → List ℕ) (i : ℕ) (ids : List ℕ) (k id : ℕ)
    → get_elem? ids k ≡ some id
    → rows row i ids (i + k) ≡ row (i + k) id
rows-at row i [] k id h = cc
rows-at row i (x ∷ ids) zero id h =
    let same : x ≡ id = ap (λ o. elim o [ none ↦ x | some y ↦ y ]) h in
    let here : i + 0 ≡ i = omega arith in
    rw (here, same) (if-true {b = i == i} (row i id) (rows row (i + 1) ids i) (ground arith))
rows-at row i (x ∷ ids) (suc k) id h =
    let place : i + suc k ≡ i + 1 + k = omega arith in
    if-false {b = i + suc k == i} (row i x) (rows row (i + 1) ids (i + suc k)) (ground arith)
    ∙ rw place (rows-at row (i + 1) ids k id h)

push_dependents-count :
    (j : ℕ) (ds : List ℕ) (dependents : ℕ → List ℕ) (k i : ℕ)
    → count k (push_dependents j ds dependents i)
      ≡ count k (dependents i) + (if j == k then count i ds else 0)
unfolding push_dependents
push_dependents-count j [] dependents k i = ground arith
push_dependents-count j (d ∷ ds) dependents k i =
    push_dependents-count j ds (update dependents d (dependents d ++ j ∷ [])) k i
    ∙ elim (Bool-cases (i == d)) [
      | inl here ↦
          let same : i ≡ d = (==_iff i d).0 here in
          rw same (ground (arith, count-append k (dependents d) (j ∷ [])))
      | inr away ↦ ground arith
    ]

rows-before : (row : ℕ → ℕ → List ℕ) (i : ℕ) (ids : List ℕ) (k : ℕ) → k < i → rows row i ids k ≡ []
rows-before row i [] k h = refl
rows-before row i (id ∷ ids) k h =
    if_cases (λ l. l ≡ []) (k == i) (row i id) (rows row (i + 1) ids k) (λ e. absurd (ground arith))
      (λ e. rows-before row (i + 1) ids k (omega arith))

pub fill_rows-dependents :
    (row : ℕ → ℕ → List ℕ) (i : ℕ) (ids : List ℕ) (m : DependencyMap) (k d : ℕ)
    → count k ((fill_rows row i ids m).dependents d)
      ≡ count k (m.dependents d) + count d (rows row i ids k)
unfolding fill_rows
fill_rows-dependents row i [] m k d = omega arith
fill_rows-dependents row i (id ∷ ids) m k d =
    fill_rows-dependents row (i + 1) ids _ k d ∙ elim (Bool-cases (k == i)) [
      | inl here ↦
          let same : k ≡ i = (==_iff k i).0 here in
          let later = rows-before row (i + 1) ids i (omega arith) in
          rw (same, later) (ground (arith, push_dependents-count i (row i id) m.dependents i d))
      | inr away ↦ ground (arith, push_dependents-count i (row i id) m.dependents k d)
    ]

pub fill_rows-in_degree :
    (row : ℕ → ℕ → List ℕ) (i : ℕ) (ids : List ℕ) (m : DependencyMap) (k : ℕ)
    → (i ≤ k → m.in_degree k ≡ 0)
    → (fill_rows row i ids m).in_degree k ≡ m.in_degree k + length (rows row i ids k)
unfolding fill_rows
fill_rows-in_degree row i [] m k h = omega arith
fill_rows-in_degree row i (id ∷ ids) m k h =
    fill_rows-in_degree row (i + 1) ids _ k (λ b. ground (arith, h)) ∙ elim (Bool-cases (k == i)) [
      | inl here ↦
          let later = ap length (rows-before row (i + 1) ids k (ground arith)) in
          ground (arith, h, later)
      | inr away ↦ ground arith
    ]
