-- ===== src/Exec/DependencyMap/Members.antt =====
-- The dependencies that are collected for a job.
use putup.Prelude.{ℕ, ◌<◌, ◌≡◌, ◌↔◌, ◌⊎◌, refl, List, [], ◌∷◌, count, arith, inl, inr}
use putup.Graph.{Graph, backward, inputs_mask, order_only_mask, edges_for_each, is_command}
use putup.Exec.DependencyMap.{
  OrderingEdge, sorted_insert_unique, each, add_job, add_producer_dependencies, add_input, is_group,
  add_order_only, dependencies, cmd_to_job, row, inject, injected_producers,
}
use putup.Exec.DependencyMap.Waits.{
  IsJobOf, IsOtherJob, IsOrderedBefore, IsWriterOf, WaitsFor, cmd_to_job_iff,
}
use putup.Exec.DependencyMap.Adds.{
  Adds, Some, IsChosen, insert-count, each-members, add_job-members, chosen-members, nothing,
  injected-members,
}

inject-members :
    (jobs : List ℕ) (edge : OrderingEdge) (injected : ℕ → List ℕ) (j d : ℕ)
    → (0
        < count d
            (inject (cmd_to_job jobs edge.producer) (cmd_to_job jobs edge.consumer) injected j))
      ↔ (0 < count d (injected j)
          ⊎ (IsOtherJob jobs j d edge.producer × IsJobOf jobs edge.consumer j))
inject-members jobs edge injected j d =
    let p = cmd_to_job_iff jobs edge.producer d in
    let c = cmd_to_job_iff jobs edge.consumer j in
    let added =
      injected-members (cmd_to_job jobs edge.producer) (cmd_to_job jobs edge.consumer) injected j
        d in
    (
      λ h. elim (added.0 h) [ inl old ↦ inl old | inr (e, n, e') ↦ inr ((p.0 e, n), c.0 e') ],
      λ h. added.1 (elim h [ inl old ↦ inl old | inr ((e, n), e') ↦ inr (p.1 e, n, c.1 e') ]),
    )

injected_producers-members :
    (jobs : List ℕ) (ordering : List OrderingEdge) (injected : ℕ → List ℕ) (j d : ℕ)
    → (0 < count d (injected_producers (cmd_to_job jobs) ordering injected j))
      ↔ (0 < count d (injected j) ⊎ IsOrderedBefore jobs j d ordering)
unfolding injected_producers
injected_producers-members jobs [] injected j d =
    (λ h. inl h, λ h. elim h [ inl old ↦ old | inr e ↦ absurd e ])
injected_producers-members jobs (edge ∷ edges) injected j d =
    let now = inject-members jobs edge injected j d in
    let later = injected_producers-members jobs edges _ j d in
    (
      λ h. elim (later.0 h) [
        | inl early ↦ elim (now.0 early) [ inl old ↦ inl old | inr p ↦ inr (inl p) ]
        | inr p ↦ inr (inr p)
      ],
      λ h. later.1 (elim h [
        | inl old ↦ inl (now.1 (inl old))
        | inr (inl p) ↦ inl (now.1 (inr p))
        | inr (inr p) ↦ inr p
      ]),
    )

module _ (jobs : List ℕ) (graph : Graph) (j : ℕ) where
  job-members :
      (id : ℕ) (acc : List ℕ) (d : ℕ)
      → (0 < count d (add_job (cmd_to_job jobs id) j acc))
        ↔ (0 < count d acc ⊎ IsOtherJob jobs j d id)
  job-members id acc d =
      let added = add_job-members (cmd_to_job jobs id) j acc d in
      let known = cmd_to_job_iff jobs id d in
      (
        λ h. elim (added.0 h) [ inl old ↦ inl old | inr (e, n) ↦ inr (known.0 e, n) ],
        λ h. added.1 (elim h [ inl old ↦ inl old | inr (e, n) ↦ inr (known.1 e, n) ]),
      )

  add_producer_dependencies-Adds :
      Adds
        (add_producer_dependencies (cmd_to_job jobs) graph j)
        (λ node d. IsWriterOf jobs j d graph node)
  unfolding add_producer_dependencies
  add_producer_dependencies-Adds x acc d =
      let inputs = edges_for_each graph x backward inputs_mask in
      let added =
        each-members _ (λ id d. IsChosen (is_command id) (IsOtherJob jobs j d id) ⊥)
          (λ id acc d.
            chosen-members (is_command id) acc (add_job (cmd_to_job jobs id) j acc) acc d _ _
              (job-members id acc d) (nothing acc d))
          inputs acc d in
      (
        λ h. elim (added.0 h) [
          | inl old ↦ inl old
          | inr (id, m, inl (c, o)) ↦ inr (id, m, c, o)
          | inr (id, m, inr (c, e)) ↦ absurd e
        ],
        λ h. added.1 (elim h [ inl old ↦ inl old | inr (id, m, c, o) ↦ inr (id, m, inl (c, o)) ]),
      )

  add_input-Adds : Adds (add_input (cmd_to_job jobs) graph j) (λ input d.
      IsChosen (is_command input) (IsOtherJob jobs j d input) (IsWriterOf jobs j d graph input))
  unfolding add_input
  add_input-Adds x acc d =
      chosen-members (is_command x) acc (add_job (cmd_to_job jobs x) j acc)
        (add_producer_dependencies (cmd_to_job jobs) graph j x acc) d _ _ (job-members x acc d)
        (add_producer_dependencies-Adds x acc d)

  add_order_only-Adds : Adds (add_order_only (cmd_to_job jobs) graph j) (λ oo d.
      IsChosen
        (is_group graph oo)
        (Some
          (edges_for_each graph oo backward inputs_mask)
          (λ member d. IsWriterOf jobs j d graph member)
          d)
        (IsWriterOf jobs j d graph oo))
  unfolding add_order_only
  add_order_only-Adds x acc d =
      chosen-members (is_group graph x) acc
        (each (add_producer_dependencies (cmd_to_job jobs) graph j)
          (edges_for_each graph x backward inputs_mask) acc)
        (add_producer_dependencies (cmd_to_job jobs) graph j x acc) d _ _
        (each-members (add_producer_dependencies (cmd_to_job jobs) graph j)
          (λ member d. IsWriterOf jobs j d graph member) add_producer_dependencies-Adds
          (edges_for_each graph x backward inputs_mask) acc d)
        (add_producer_dependencies-Adds x acc d)

  -- For every list of jobs, graph and injected ordering, a job has to wait for another job exactly
  -- when an input of its command is the other job's command, or is no command and is written by it,
  -- or it writes an order-only input of the command or a member of an order-only group, or an edge of
  -- the ordering leads from the other job's command to a command of the waiting job. The job of a
  -- command is its last one in the list.
  pub dependencies-members :
      (ordering : List OrderingEdge) (cmd_id d : ℕ)
      → (0 < count d (row jobs graph ordering j cmd_id)) ↔ WaitsFor jobs j d graph ordering cmd_id
  unfolding dependencies
  dependencies-members ordering cmd_id d =
      let inputs = edges_for_each graph cmd_id backward inputs_mask in
      let orders = edges_for_each graph cmd_id backward order_only_mask in
      let injected = injected_producers (cmd_to_job jobs) ordering (λ i. []) in
      let first = each (add_input (cmd_to_job jobs) graph j) inputs [] in
      let second = each (add_order_only (cmd_to_job jobs) graph j) orders first in
      let by_input =
        each-members (add_input (cmd_to_job jobs) graph j) _ add_input-Adds inputs [] d in
      let by_order =
        each-members (add_order_only (cmd_to_job jobs) graph j) _ add_order_only-Adds orders first
          d in
      let by_injection =
        each-members (λ dep_idx acc. sorted_insert_unique acc dep_idx) (λ x d. x ≡ d)
          (λ x acc d. insert-count acc x d) (injected j) second d in
      let by_ordering = injected_producers-members jobs ordering (λ i. []) j d in
      (
        λ h. elim (by_injection.0 h) [
          | inl early ↦ elim (by_order.0 early) [
            | inl earlier ↦ elim (by_input.0 earlier) [
              | inl none_yet ↦ absurd (omega arith)
              | inr p ↦ inl p
            ]
            | inr p ↦ inr (inl p)
          ]
          | inr (x, m, e) ↦ elim (by_ordering.0 (rw (← e) m)) [
            | inl none_yet ↦ absurd (omega arith)
            | inr p ↦ inr (inr p)
          ]
        ],
        λ h. by_injection.1 (elim h [
          | inl p ↦ inl (by_order.1 (inl (by_input.1 (inr p))))
          | inr (inl p) ↦ inl (by_order.1 (inr p))
          | inr (inr p) ↦ inr (d, by_ordering.1 (inr p), refl)
        ]),
      )
