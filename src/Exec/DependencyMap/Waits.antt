-- ===== src/Exec/DependencyMap/Waits.antt =====
-- Which job has to wait for which, told from the list of jobs, the edges of the graph and the injected
-- ordering.
use putup.Prelude.{
  ℕ, suc, zero, ◌+◌, ◌<◌, ◌≡◌, ◌≢◌, ◌↔◌, ◌⊎◌, refl, ap, sym, ◌∙◌, true, false, List, [], ◌∷◌,
  Option, none, some, ◌==◌, count, ltb, get_elem?, update, arith, inl, inr, ==_iff, if-true,
  if-false, Bool-cases,
}
use putup.Graph.{Graph, backward, inputs_mask, order_only_mask, edges_for_each, is_command}
use putup.Exec.DependencyMap.{OrderingEdge, index_jobs, cmd_to_job, is_group}

-- the last job of a command
abbrev pub IsJobOf : List ℕ → ℕ → ℕ → Type 0
IsJobOf jobs id d = (get_elem? jobs d ≡ some id) × ((k : ℕ) → d < k → get_elem? jobs k ≢ some id)

-- an edge of an ordering
abbrev pub SomeEdge : List OrderingEdge → (OrderingEdge → Type 0) → Type 0
SomeEdge [] P = ⊥
SomeEdge (edge ∷ edges) P = P edge ⊎ SomeEdge edges P

module _ (jobs : List ℕ) (j d : ℕ) where
  -- `d` is the job of a command, and not the waiting job `j`
  abbrev pub IsOtherJob : ℕ → Type 0
  IsOtherJob id = IsJobOf jobs id d × ((d == j) ≡ false)

  -- the ordering puts `d` before `j`
  abbrev pub IsOrderedBefore : List OrderingEdge → Type 0
  IsOrderedBefore ordering =
      SomeEdge ordering (λ edge. IsOtherJob edge.producer × IsJobOf jobs edge.consumer j)

  module _ (graph : Graph) where
    -- an edge of the graph leads to the node from the command of `d`
    abbrev pub IsWriterOf : ℕ → Type 0
    IsWriterOf node =
        (id : ℕ) × (0 < count id (edges_for_each graph node backward inputs_mask))
        × (is_command id ≡ true)
        × IsOtherJob id

    -- `d` runs an input of the command, or writes an input that is not a command
    abbrev pub HasInputFrom : ℕ → Type 0
    HasInputFrom cmd_id =
        (input : ℕ) × (0 < count input (edges_for_each graph cmd_id backward inputs_mask))
        × (((is_command input ≡ true) × IsOtherJob input)
            ⊎ ((is_command input ≡ false) × IsWriterOf input))

    -- `d` writes a member of an order-only group, or another order-only input
    abbrev pub HasOrderOnlyFrom : ℕ → Type 0
    HasOrderOnlyFrom cmd_id =
        (oo : ℕ) × (0 < count oo (edges_for_each graph cmd_id backward order_only_mask))
        × (((is_group graph oo ≡ true)
              × ((member : ℕ) × (0 < count member (edges_for_each graph oo backward inputs_mask))
                  × IsWriterOf member))
            ⊎ ((is_group graph oo ≡ false) × IsWriterOf oo))

    -- `j`, when it runs the command, has to wait for `d`
    abbrev pub WaitsFor : List OrderingEdge → ℕ → Type 0
    WaitsFor ordering cmd_id =
        HasInputFrom cmd_id ⊎ (HasOrderOnlyFrom cmd_id ⊎ IsOrderedBefore ordering)

-- what `index_jobs` answers about a command
abbrev Indexed : ℕ → List ℕ → (ℕ → Option ℕ) → ℕ → Type 0
Indexed i ids known id =
    ((k : ℕ) × IsJobOf ids id k × (index_jobs i ids known id ≡ some (i + k)))
    ⊎ (((k : ℕ) → get_elem? ids k ≢ some id) × (index_jobs i ids known id ≡ known id))

pub some_content : {a b : ℕ} → some a ≡ some b → a ≡ b
some_content {a} e = ap (λ o. elim o [ none ↦ a | some x ↦ x ]) e

index_jobs-Indexed : (i : ℕ) (ids : List ℕ) (known : ℕ → Option ℕ) (id : ℕ) → Indexed i ids known id
unfolding index_jobs
index_jobs-Indexed i [] known id = inr (λ k e. cc, refl)
index_jobs-Indexed i (x ∷ ids) known id =
    elim (index_jobs-Indexed (i + 1) ids (update known x (some i)) id) [
      | inl (k, (here, last), e) ↦
          let place : i + 1 + k ≡ i + suc k = omega arith in
          inl (suc k, (here, λ q b. later k q last b), e ∙ ap some place)
      | inr (away, e) ↦ elim (Bool-cases (id == x)) [
        | inl same ↦
            let place : i ≡ i + 0 = omega arith in
            inl (
              0,
              (ap some (sym ((==_iff id x).0 same)), λ q b. first q away b),
              e ∙ if-true (some i) (known id) same ∙ ap some place,
            )
        | inr other ↦ inr (λ k. nowhere k other away, e ∙ if-false (some i) (known id) other)
      ]
    ]
  where
    later :
        (k q : ℕ)
        → ((q : ℕ) → k < q → get_elem? ids q ≢ some id)
        → suc k < q
        → get_elem? (x ∷ ids) q ≢ some id
    later k zero last b = absurd (omega arith)
    later k (suc q) last b = last q (omega arith)

    first :
        (q : ℕ) → ((q : ℕ) → get_elem? ids q ≢ some id) → 0 < q → get_elem? (x ∷ ids) q ≢ some id
    first zero away b = absurd (omega arith)
    first (suc q) away b = away q

    nowhere :
        (k : ℕ)
        → (id == x) ≡ false
        → ((q : ℕ) → get_elem? ids q ≢ some id)
        → get_elem? (x ∷ ids) k ≢ some id
    nowhere zero other away e = let same : x ≡ id = some_content e in absurd (ground arith)
    nowhere (suc k) other away e = away k e

pub cmd_to_job_iff : (jobs : List ℕ) (id d : ℕ) → (cmd_to_job jobs id ≡ some d) ↔ IsJobOf jobs id d
cmd_to_job_iff jobs id d = elim (index_jobs-Indexed 0 jobs (λ id. none) id) [
  | inl (k, (here, last), e) ↦
      let place : 0 + k ≡ k = omega arith in
      (
        λ h.
            let same : k ≡ d = some_content (sym (ap some place) ∙ sym e ∙ h) in
            (ap (get_elem? jobs) (sym same) ∙ here, λ q b. last q (omega (arith, same, b))),
        λ (there, final). elim (Bool-cases (ltb k d)) [
          | inl less ↦ absurd (last d (ground (arith, less)) there)
          | inr least ↦ elim (Bool-cases (ltb d k)) [
            | inl more ↦ absurd (final k (ground (arith, more)) here)
            | inr most ↦ let same : 0 + k ≡ d = ground (arith, least, most) in e ∙ ap some same
          ]
        ],
      )
  | inr (away, e) ↦ (λ h. cc, λ (there, final). absurd (away d there))
]
