-- ===== src/Exec/DependencyMap/Bounds.antt =====
-- What every loop that collects dependencies keeps: the vector ascends strictly, below a bound.
use putup.Prelude.{
  ℕ, suc, ◌+◌, ◌≤◌, ◌<◌, List, [], ◌∷◌, Option, none, some, length, ltb, ◌==◌, if_both, if_cases,
  count, arith, update,
}
use putup.Graph.{Graph, backward, inputs_mask, order_only_mask, edges_for_each, is_command}
use putup.Exec.DependencyMap.{
  OrderingEdge, sorted_insert_unique, each, index_jobs, add_job, add_producer_dependencies,
  add_input, is_group, add_order_only, dependencies, inject, injected_producers,
}

-- strictly ascending from `low` on, and below `high`
abbrev pub Between : ℕ → ℕ → List ℕ → Type 0
Between low high [] = Unit
Between low high (x ∷ xs) = low ≤ x × x < high × Between (suc x) high xs

pub count-Between :
    (low high : ℕ) (xs : List ℕ) (k : ℕ)
    → Between low high xs
    → (count k xs ≤ 1) × (0 < count k xs → low ≤ k × k < high)
count-Between low high [] k b = (omega arith, λ h. absurd (omega arith))
count-Between low high (x ∷ xs) k (l, u, b) =
    let rest = count-Between (suc x) high xs k b in ground (arith, rest.0, rest.1)

pub insert-Between :
    (low high : ℕ) (xs : List ℕ) (x : ℕ)
    → low ≤ x
    → x < high
    → Between low high xs
    → Between low high (sorted_insert_unique xs x)
unfolding sorted_insert_unique
insert-Between low high [] x l u b = (l, u, tt)
insert-Between low high (y ∷ ys) x l u (yl, yu, b) =
    if_cases (Between low high) (ltb y x) _ _
      (λ less. (yl, yu, insert-Between (suc y) high ys x (ground arith) u b))
      (λ more.
        if_cases (Between low high) (y == x) (y ∷ ys) (x ∷ y ∷ ys) (λ e. (yl, yu, b))
          (λ away. (l, u, (ground arith, yu, b))))

-- the elements of one vector inserted in another
inserts_from :
    (low high : ℕ) (xs acc : List ℕ)
    → Between low high xs
    → Between 0 high acc
    → Between 0 high (each (λ x s. sorted_insert_unique s x) xs acc)
unfolding each
inserts_from low high [] acc b c = c
inserts_from low high (x ∷ xs) acc (l, u, b) c =
    inserts_from (suc x) high xs (sorted_insert_unique acc x) b
      (insert-Between 0 high acc x (omega arith) u c)

pub each-Between :
    (high : ℕ) (f : ℕ → List ℕ → List ℕ) (xs acc : List ℕ)
    → ((x : ℕ) (acc : List ℕ) → Between 0 high acc → Between 0 high (f x acc))
    → Between 0 high acc
    → Between 0 high (each f xs acc)
unfolding each
each-Between high f [] acc h b = b
each-Between high f (x ∷ xs) acc h b = each-Between high f xs (f x acc) h (h x acc b)

abbrev pub Below : ℕ → Option ℕ → Type 0
Below high none = Unit
Below high (some d) = d < high

pub index_jobs-Below :
    (i : ℕ) (ids : List ℕ) (known : ℕ → Option ℕ) (high : ℕ)
    → i + length ids ≤ high
    → ((id : ℕ) → Below high (known id))
    → (id : ℕ) → Below high (index_jobs i ids known id)
unfolding index_jobs
index_jobs-Below i [] known high room b = b
index_jobs-Below i (id ∷ ids) known high room b =
    index_jobs-Below (i + 1) ids (update known id (some i)) high (omega arith)
      (λ x. if_both (Below high) (x == id) (some i) (known x) (omega arith) (b x))

add_job-Between :
    (high : ℕ) (o : Option ℕ) (j : ℕ) (acc : List ℕ)
    → Below high o
    → Between 0 high acc
    → Between 0 high (add_job o j acc)
unfolding add_job
add_job-Between high none j acc h b = b
add_job-Between high (some d) j acc h b =
    if_both (Between 0 high) (d == j) acc (sorted_insert_unique acc d) b
      (insert-Between 0 high acc d (omega arith) h b)

inject-Between :
    (high : ℕ) (producer consumer : Option ℕ) (injected : ℕ → List ℕ)
    → Below high producer
    → ((j : ℕ) → Between 0 high (injected j))
    → (j : ℕ) → Between 0 high (inject producer consumer injected j)
unfolding inject
inject-Between high none consumer injected h b = b
inject-Between high (some p) none injected h b = b
inject-Between high (some p) (some c) injected h b =
    if_both (λ (f : ℕ → List ℕ). (j : ℕ) → Between 0 high (f j)) (p == c) injected _ b
      (λ j.
        if_both (Between 0 high) (j == c) (sorted_insert_unique (injected c) p) (injected j)
          (insert-Between 0 high (injected c) p (omega arith) h (b c)) (b j))

module _ (high : ℕ) (cmd_to_job : ℕ → Option ℕ)
    (known : (id : ℕ) → Below high (cmd_to_job id)) where
  pub injected_producers-Between :
      (edges : List OrderingEdge) (injected : ℕ → List ℕ)
      → ((j : ℕ) → Between 0 high (injected j))
      → (j : ℕ) → Between 0 high (injected_producers cmd_to_job edges injected j)
  unfolding injected_producers
  injected_producers-Between [] injected b = b
  injected_producers-Between (edge ∷ edges) injected b = injected_producers-Between edges _ (
      inject-Between high (cmd_to_job edge.producer) (cmd_to_job edge.consumer) injected
        (known edge.producer) b)

  module _ (graph : Graph) where
    add_producer_dependencies-Between :
        (j id : ℕ) (acc : List ℕ)
        → Between 0 high acc
        → Between 0 high (add_producer_dependencies cmd_to_job graph j id acc)
    unfolding add_producer_dependencies
    add_producer_dependencies-Between j id acc b =
        each-Between high _ (edges_for_each graph id backward inputs_mask) acc
          (λ x s h.
            if_both (Between 0 high) (is_command x) (add_job (cmd_to_job x) j s) s
              (add_job-Between high (cmd_to_job x) j s (known x) h) h)
          b

    add_input-Between :
        (j id : ℕ) (acc : List ℕ)
        → Between 0 high acc
        → Between 0 high (add_input cmd_to_job graph j id acc)
    unfolding add_input
    add_input-Between j id acc b =
        if_both (Between 0 high) (is_command id) (add_job (cmd_to_job id) j acc)
          (add_producer_dependencies cmd_to_job graph j id acc)
          (add_job-Between high (cmd_to_job id) j acc (known id) b)
          (add_producer_dependencies-Between j id acc b)

    add_order_only-Between :
        (j id : ℕ) (acc : List ℕ)
        → Between 0 high acc
        → Between 0 high (add_order_only cmd_to_job graph j id acc)
    unfolding add_order_only
    add_order_only-Between j id acc b =
        if_both (Between 0 high) (is_group graph id) _
          (add_producer_dependencies cmd_to_job graph j id acc)
          (each-Between high (add_producer_dependencies cmd_to_job graph j)
            (edges_for_each graph id backward inputs_mask) acc (add_producer_dependencies-Between j)
            b)
          (add_producer_dependencies-Between j id acc b)

    pub dependencies-Between :
        (injected : ℕ → List ℕ) (j id : ℕ)
        → ((j : ℕ) → Between 0 high (injected j))
        → Between 0 high (dependencies cmd_to_job graph injected j id)
    unfolding dependencies
    dependencies-Between injected j id b = inserts_from 0 high (injected j) _ (b j) (
        each-Between high (add_order_only cmd_to_job graph j)
          (edges_for_each graph id backward order_only_mask) _ (add_order_only-Between j)
          (each-Between high (add_input cmd_to_job graph j)
            (edges_for_each graph id backward inputs_mask) [] (add_input-Between j) tt))
