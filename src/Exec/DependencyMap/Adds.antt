-- ===== src/Exec/DependencyMap/Adds.antt =====
-- What the callbacks of `build_dependency_map` add to a vector.
use putup.Prelude.{
  ℕ, ◌<◌, ◌≡◌, ◌↔◌, ◌⊎◌, refl, ap, sym, Bool, true, false, List, [], ◌∷◌, Option, none, some, ◌==◌,
  if◌then◌else◌, if_cases, count, update, arith, inl, inr, ==_iff, Bool-cases,
}
use putup.Exec.DependencyMap.{sorted_insert_unique, each, add_job, inject}
use putup.Exec.DependencyMap.Waits.{some_content}

pub insert-count :
    (xs : List ℕ) (x d : ℕ) → (0 < count d (sorted_insert_unique xs x)) ↔ (0 < count d xs ⊎ x ≡ d)
unfolding sorted_insert_unique
insert-count [] x d = ground arith
insert-count (y ∷ ys) x d = ground (arith, insert-count ys x d)

-- the callback adds to the vector exactly the elements of `P`
abbrev pub Adds : (ℕ → List ℕ → List ℕ) → (ℕ → ℕ → Type 0) → Type 0
Adds f P = (x : ℕ) (acc : List ℕ) (d : ℕ) → (0 < count d (f x acc)) ↔ (0 < count d acc ⊎ P x d)

-- an element of the list stands in `P` with `d`
abbrev pub Some : List ℕ → (ℕ → ℕ → Type 0) → ℕ → Type 0
Some xs P d = (x : ℕ) × 0 < count x xs × P x d

pub each-members :
    (f : ℕ → List ℕ → List ℕ) (P : ℕ → ℕ → Type 0)
    → Adds f P
    → (xs acc : List ℕ) (d : ℕ) → (0 < count d (each f xs acc)) ↔ (0 < count d acc ⊎ Some xs P d)
unfolding each
each-members f P adds [] acc d =
    (λ h. inl h, λ h. elim h [ inl old ↦ old | inr (x, m, p) ↦ absurd (omega arith) ])
each-members f P adds (x ∷ xs) acc d =
    let rest = each-members f P adds xs (f x acc) d in
    (
      λ h. elim (rest.0 h) [
        | inl early ↦ elim ((adds x acc d).0 early) [
          | inl old ↦ inl old
          | inr p ↦ inr (x, ground arith, p)
        ]
        | inr (y, m, p) ↦ inr (y, omega arith, p)
      ],
      λ h. elim h [
        | inl old ↦ rest.1 (inl ((adds x acc d).1 (inl old)))
        | inr (y, m, p) ↦ elim (Bool-cases (x == y)) [
          | inl here ↦
              let same : x ≡ y = (==_iff x y).0 here in
              rest.1 (inl ((adds x acc d).1 (inr (rw same p))))
          | inr away ↦ rest.1 (inr (y, ground arith, p))
        ]
      ],
    )

-- the command has a job, and it is another one
abbrev pub IsOther : Option ℕ → ℕ → ℕ → Type 0
IsOther o j d = (o ≡ some d) × (d == j) ≡ false

pub add_job-members :
    (o : Option ℕ) (j : ℕ) (acc : List ℕ) (d : ℕ)
    → (0 < count d (add_job o j acc)) ↔ (0 < count d acc ⊎ IsOther o j d)
unfolding add_job
add_job-members none j acc d = (λ h. inl h, λ h. elim h [ inl old ↦ old | inr (e, n) ↦ cc ])
add_job-members (some x) j acc d =
    if_cases (λ l. (0 < count d l) ↔ (0 < count d acc ⊎ IsOther (some x) j d)) (x == j) acc
      (sorted_insert_unique acc x)
      (λ self. (
        λ h. inl h,
        λ h. elim h [
          | inl old ↦ old
          | inr (e, n) ↦ let same = some_content e in absurd (ground arith)
        ],
      ))
      (λ other. (
        λ h. elim ((insert-count acc x d).0 h) [
          | inl old ↦ inl old
          | inr same ↦ inr (ap some same, rw (← same) other)
        ],
        λ h. elim h [
          | inl old ↦ (insert-count acc x d).1 (inl old)
          | inr (e, n) ↦ (insert-count acc x d).1 (inr (some_content e))
        ],
      ))

-- what holds of the branch that is taken
abbrev pub IsChosen : Bool → Type 0 → Type 0 → Type 0
IsChosen b P Q = (b ≡ true × P) ⊎ (b ≡ false × Q)

pub chosen-members :
    (b : Bool) (old new new' : List ℕ) (d : ℕ) (P Q : Type 0)
    → (0 < count d new) ↔ (0 < count d old ⊎ P)
    → (0 < count d new') ↔ (0 < count d old ⊎ Q)
    → (0 < count d (if b then new else new')) ↔ (0 < count d old ⊎ IsChosen b P Q)
chosen-members true old new new' d P Q f g = (
  λ h. elim (f.0 h) [ inl o ↦ inl o | inr p ↦ inr (inl (refl, p)) ],
  λ h. elim h [ inl o ↦ f.1 (inl o) | inr (inl (e, p)) ↦ f.1 (inr p) | inr (inr (e, q)) ↦ cc ],
)
chosen-members false old new new' d P Q f g = (
  λ h. elim (g.0 h) [ inl o ↦ inl o | inr p ↦ inr (inr (refl, p)) ],
  λ h. elim h [ inl o ↦ g.1 (inl o) | inr (inl (e, p)) ↦ cc | inr (inr (e, q)) ↦ g.1 (inr q) ],
)

pub nothing : (old : List ℕ) (d : ℕ) → (0 < count d old) ↔ (0 < count d old ⊎ ⊥)
nothing old d = (λ h. inl h, λ h. elim h [ inl o ↦ o | inr e ↦ absurd e ])

pub injected-members :
    (producer consumer : Option ℕ) (injected : ℕ → List ℕ) (j d : ℕ)
    → (0 < count d (inject producer consumer injected j)) ↔ (
        0 < count d (injected j) ⊎ ((producer ≡ some d) × ((d == j) ≡ false) × (consumer ≡ some j)))
unfolding inject
injected-members none consumer injected j d =
    (λ h. inl h, λ h. elim h [ inl old ↦ old | inr (e, n, e') ↦ cc ])
injected-members (some p) none injected j d =
    (λ h. inl h, λ h. elim h [ inl old ↦ old | inr (e, n, e') ↦ cc ])
injected-members (some p) (some c) injected j d =
    let R : List ℕ → Type 0 = λ l.
      (0 < count d l)
      ↔ (0 < count d (injected j) ⊎ ((some p ≡ some d) × ((d == j) ≡ false) × (some c ≡ some j))) in
    if_cases (λ f. R (f j)) (p == c) injected
      (update injected c (sorted_insert_unique (injected c) p))
      (λ self. (
        λ h. inl h,
        λ h. elim h [
          | inl old ↦ old
          | inr (e, n, e') ↦
              let from = some_content e in
              let to = some_content e' in absurd (ground (arith, self, n))
        ],
      ))
      (λ other.
        if_cases R (j == c) (sorted_insert_unique (injected c) p) (injected j)
          (λ here.
            let same : j ≡ c = (==_iff j c).0 here in
            let added = insert-count (injected c) p d in
            (
              λ h. elim (added.0 h) [
                | inl old ↦ inl (rw same old)
                | inr e ↦ inr (ap some e, ground (arith, other, e, same), ap some (sym same))
              ],
              λ h. added.1 (elim h [
                | inl old ↦ inl (rw (← same) old)
                | inr (e, n, e') ↦ inr (some_content e)
              ]),
            ))
          (λ away. (
            λ h. inl h,
            λ h. elim h [
              | inl old ↦ old
              | inr (e, n, e') ↦ let to = some_content e' in absurd (ground (arith, away))
            ],
          )))
