-- ===== src/Graph/Topo/Sorted.antt =====
-- `topological_sort` returns, and what it returns is a topological order or a cycle.
use putup.Prelude.{
  ℕ, ◌≤◌, ◌≡◌, ◌↔◌, refl, ap, ◌∙◌, true, false, ◌⊎◌, inl, inr, List, [], ◌∷◌, ◌++◌, length, mem,
  ◌==◌, update, arith, Bool-cases, ==_iff, if-false, if-true,
}
use putup.Graph.{Graph, all_nodes}
use putup.Graph.Topo.{
  Color, white, DfsState, TopoSortResult, result, whiten, visit_root, visit_roots, start,
  topological_sort, detect_cycles, is_dag,
}
use putup.Graph.Topo.Spec.{Follows, IsOrdered, IsWalk, IsClosedWalk, IsOrdered-acyclic}
use putup.Graph.Topo.Visit.{whites, Inv, Blackens, Ends, Color-cases, Grows-refl, Grows-trans}
use putup.Graph.Topo.Dfs.{dfs_visit-Visits}

-- The targets of the edges are among the nodes that the sort starts from. `add_edge` checks its ends by
-- `validate_node_id`, which also admits condition nodes and the file slot 0.
abbrev pub HasTargets : Graph → Type 0
HasTargets g = (u v : ℕ) → Follows g u v → mem v (all_nodes g) ≡ true

whiten-white :
    (ids : List ℕ) (c : ℕ → Color) → ((x : ℕ) → c x ≡ white) → (x : ℕ) → whiten ids c x ≡ white
unfolding whiten
whiten-white [] c h x = h x
whiten-white (id ∷ ids) c h x = whiten-white ids (update c id white) (λ y. ground (arith, h y)) x

whites-le : (c : ℕ → Color) (xs : List ℕ) → whites c xs ≤ length xs
whites-le c [] = omega arith
whites-le c (x ∷ xs) = ground (arith, whites-le c xs)

module _ (g : Graph) (nodes : List ℕ)
    (targets_in : (u v : ℕ) → Follows g u v → mem v nodes ≡ true) where
  Inv-start : Inv g nodes [] (start nodes)
  unfolding start
  Inv-start = record {
    clean = refl;
    no_cycle = refl;
    in_fuel = refl;
    gray_in = λ x h. cc (whiten-white nodes (λ _. white) (λ _. refl) x);
    in_gray = λ x h. cc;
    black_in = λ x h. cc (whiten-white nodes (λ _. white) (λ _. refl) x);
    in_black = λ x h. cc;
    listed = λ x h. cc;
    ordered = tt;
    chain = tt;
    room = omega (arith, whites-le (whiten nodes (λ _. white)) nodes);
  }

  visit_root-Ends :
      (id : ℕ) (s : DfsState)
      → Inv g nodes [] s
      → mem id nodes ≡ true
      → Ends g nodes [] (λ v. v ≡ id) s (visit_root g (length nodes) id s)
  unfolding visit_root
  visit_root-Ends id s i m = elim (Color-cases (s.color id)) [
    | inl e ↦
        rw (e, visit_root)
          (dfs_visit-Visits g nodes targets_in (length nodes) [] id s i e m tt
            (omega (arith, i.room)))
    | inr (inl e) ↦ absurd (cc (i.gray_in id e))
    | inr (inr e) ↦
        rw (e, visit_root)
          (inl
            (record { inv = i; grows = Grows-refl g nodes s; blackened = λ v k. ap s.color k ∙ e }))
  ]

  visit_roots-Ends :
      (ids : List ℕ) (s : DfsState)
      → Inv g nodes [] s
      → ((v : ℕ) → mem v ids ≡ true → mem v nodes ≡ true)
      → Ends g nodes [] (λ v. mem v ids ≡ true) s (visit_roots g (length nodes) ids s)
  unfolding visit_roots
  visit_roots-Ends [] s i m =
      inl (record { inv = i; grows = Grows-refl g nodes s; blackened = λ v k. cc })
  visit_roots-Ends (id ∷ ids) s i m =
      let s' = visit_root g (length nodes) id s in
      elim (visit_root-Ends id s i (m id (ground arith))) [
        | inr c ↦ inr (rw (if-true s' (visit_roots g (length nodes) ids s') c.found) c)
        | inl b ↦
            rw (if-false s' (visit_roots g (length nodes) ids s') b.inv.clean)
              (and_then b (visit_roots-Ends ids s' b.inv (λ v k. m v (ground arith))))
      ]
    where
      and_then :
          {t r : DfsState}
          → Blackens g nodes [] (λ v. v ≡ id) s t
          → Ends g nodes [] (λ v. mem v ids ≡ true) t r
          → Ends g nodes [] (λ v. mem v (id ∷ ids) ≡ true) s r
      and_then b (inr c) = inr c
      and_then b (inl d) = inl (record {
        inv = d.inv;
        grows = Grows-trans g nodes b.grows d.grows;
        blackened = λ v k. elim (Bool-cases (v == id)) [
          | inl here ↦ d.grows.stays_black v (b.blackened v ((==_iff v id).0 here))
          | inr away ↦ d.blackened v (ground arith)
        ];
      })

-- What `topological_sort` is to return: fuel is left, and `order` holds every node of the graph once,
-- each before all its successors, and nothing else, or `cycle` is a walk along edges of the graph
-- that returns to its start.
pub record Outcome (g : Graph) (r : TopoSortResult) : Type 0 where
  pub returns : r.exhausted ≡ false
  pub sorts :
      (r.has_cycle ≡ false)
        × (r.cycle ≡ [])
        × IsOrdered g r.order
        × ((v : ℕ) → (mem v r.order ≡ true) ↔ (mem v (all_nodes g) ≡ true))
      ⊎ (r.has_cycle ≡ true) × IsClosedWalk g r.cycle

Ends-Outcome :
    (g : Graph) (s t : DfsState)
    → Ends g (all_nodes g) [] (λ v. mem v (all_nodes g) ≡ true) s t
    → Outcome g (result t)
Ends-Outcome g s t (inr c) = record { returns = c.in_fuel; sorts = inr (c.found, c.closed) }
Ends-Outcome g s t (inl b) = record {
  returns = b.inv.in_fuel;
  sorts = inl (
    b.inv.clean,
    b.inv.no_cycle,
    b.inv.ordered,
    λ v. (b.inv.listed v, λ m. b.inv.black_in v (b.blackened v m)),
  );
}

-- On a graph whose edges lead to its nodes, the search never outruns its fuel and either reports
-- no cycle, with an order that holds every node once and each before all its successors, or
-- reports a walk along edges that returns to its start.
pub topological_sort-Outcome : (g : Graph) → HasTargets g → Outcome g (topological_sort g)
unfolding topological_sort
topological_sort-Outcome g h = Ends-Outcome g (start (all_nodes g)) _ (
    visit_roots-Ends g (all_nodes g) h (all_nodes g) (start (all_nodes g))
      (Inv-start g (all_nodes g) h) (λ v m. m))

-- every node of a walk but the first is entered by an edge
last-Follows :
    (g : Graph) (u : ℕ) (between : List ℕ) (w : ℕ)
    → IsWalk g (u ∷ between ++ w ∷ [])
    → (x : ℕ) × Follows g x w
last-Follows g u [] w (f, _) = (u, f)
last-Follows g u (v ∷ between) w (f, walk) = last-Follows g v between w walk

-- On a graph whose edges lead to its nodes, `is_dag` answers true exactly when no walk along
-- data-flow and order-only edges returns to its start.
pub is_dag_iff :
    (g : Graph) → HasTargets g → (is_dag g ≡ true) ↔ ((c : List ℕ) → ¬ IsClosedWalk g c)
unfolding is_dag detect_cycles
is_dag_iff g h = elim ((topological_sort-Outcome g h).sorts) [
  | inl (clean, none_found, ordered, nodes) ↦ (
    λ _ c k.
        let (x, f) = last-Follows g k.node k.between k.node (rw k.shape at k.walk) in
        IsOrdered-acyclic g (topological_sort g).order ordered c k
          ((nodes k.node).1 (h x k.node f)),
    λ _. rw none_found refl,
  )
  | inr (found, closed) ↦
      (λ e. cc (rw closed.shape at e), λ all. absurd (all (topological_sort g).cycle closed))
]
