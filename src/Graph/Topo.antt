-- ===== src/Graph/Topo.antt =====
-- src/graph/topo.cpp: depth-first topological sort with cycle extraction.
pub mod Spec
mod Chain
mod Visit
mod Dfs
pub mod Sorted
use putup.Prelude.{
  ℕ, zero, suc, ◌+◌, Bool, true, false, List, [], ◌∷◌, ◌++◌, Option, none, some, length, reverse,
  is_nil, ◌==◌, if◌then◌else◌, update,
}
use putup.Graph.{Graph, forward, data_flow_mask, order_only_mask, all_nodes, edges_for_each}

pub data Color : Type 0 where
  white gray black : Color

-- `exhausted` belongs to the model: a recursion or a parent chain that outran its fuel.
pub record DfsState : Type 0 where
  pub color : ℕ → Color
  pub parent : ℕ → ℕ
  pub order : List ℕ
  pub cycle : List ℕ
  pub has_cycle : Bool
  pub exhausted : Bool

pub record TopoSortResult : Type 0 where
  pub order : List ℕ
  pub has_cycle : Bool
  pub cycle : List ℕ
  pub exhausted : Bool

-- `while (curr != v) { push_back(curr); curr = parent.get(curr); }`: the nodes that it pushes
unfoldable pub parent_chain : ℕ → (ℕ → ℕ) → ℕ → ℕ → Option (List ℕ)
parent_chain zero parent curr v = if curr == v then some [] else none
parent_chain (suc fuel) parent curr v =
    let rest = parent_chain fuel parent (parent curr) v in
    if curr == v then some [] else elim rest [ none ↦ none | some c ↦ some (curr ∷ c) ]

-- The successors that `dfs_visit` walks: those of the data-flow mask, then the order-only ones.
unfoldable pub data_flow_targets : Graph → ℕ → List ℕ
data_flow_targets g u = edges_for_each g u forward data_flow_mask

unfoldable pub order_only_targets : Graph → ℕ → List ℕ
order_only_targets g u = edges_for_each g u forward order_only_mask

-- the branch of `visit_neighbors` that meets a gray node
unfoldable pub close_cycle : ℕ → ℕ → ℕ → DfsState → DfsState
close_cycle limit u v s = elim (parent_chain limit s.parent u v) [
  | none ↦ record s { has_cycle = true; exhausted = true }
  | some chain ↦ record s { has_cycle = true; cycle = reverse (v ∷ chain ++ v ∷ []) }
]

-- The callback of `edges_for_each`; `visit` is the recursive call of `dfs_visit`.
unfoldable pub visit_neighbor : ℕ → (ℕ → DfsState → DfsState) → ℕ → DfsState → ℕ → DfsState
visit_neighbor limit visit u s v = if s.has_cycle then s else elim (s.color v) [
  | white ↦ visit v (record s { parent = update s.parent v u })
  | gray ↦ close_cycle limit u v s
  | black ↦ s
]

unfoldable pub visit_neighbors : ℕ → (ℕ → DfsState → DfsState) → ℕ → List ℕ → DfsState → DfsState
visit_neighbors limit visit u [] s = s
visit_neighbors limit visit u (v ∷ vs) s =
    visit_neighbors limit visit u vs (visit_neighbor limit visit u s v)

unfoldable pub finish : ℕ → DfsState → DfsState
finish u s =
    if s.has_cycle
    then s
    else record s { color = update s.color u black; order = s.order ++ u ∷ [] }

unfoldable pub dfs_visit : Graph → ℕ → ℕ → ℕ → DfsState → DfsState
dfs_visit g limit zero u s = record s { exhausted = true }
dfs_visit g limit (suc fuel) u s =
    let entered = record s { color = update s.color u gray } in
    let flow = visit_neighbors limit (dfs_visit g limit fuel) u (data_flow_targets g u) entered in
    let all = visit_neighbors limit (dfs_visit g limit fuel) u (order_only_targets g u) flow in
    if s.has_cycle then s else finish u all

-- `for (auto id : all_nodes(graph)) state.color.set(id, WHITE);`
unfoldable pub whiten : List ℕ → (ℕ → Color) → ℕ → Color
whiten [] color = color
whiten (id ∷ ids) color = whiten ids (update color id white)

unfoldable pub visit_root : Graph → ℕ → ℕ → DfsState → DfsState
visit_root g fuel id s = elim (s.color id) [ white ↦ dfs_visit g fuel fuel id s | _ ↦ s ]

-- the second loop of `topological_sort`, with its `break`
unfoldable pub visit_roots : Graph → ℕ → List ℕ → DfsState → DfsState
unfolding visit_root
visit_roots g fuel [] s = s
visit_roots g fuel (id ∷ ids) s =
    let s' = visit_root g fuel id s in
    let rest = visit_roots g fuel ids s' in if s'.has_cycle then s' else rest

unfoldable pub start : List ℕ → DfsState
unfolding whiten
start nodes = record {
  color = whiten nodes (λ _. white);
  parent = λ _. 0;
  order = [];
  cycle = [];
  has_cycle = false;
  exhausted = false;
}

-- the last lines of `topological_sort`
abbrev pub result : DfsState → TopoSortResult
result s = record {
  order = reverse s.order;
  has_cycle = s.has_cycle;
  cycle = s.cycle;
  exhausted = s.exhausted;
}

unfoldable pub topological_sort : Graph → TopoSortResult
topological_sort g =
    let nodes = all_nodes g in result (visit_roots g (length nodes) nodes (start nodes))

unfoldable pub detect_cycles : Graph → List ℕ
detect_cycles g = (topological_sort g).cycle

unfoldable pub is_dag : Graph → Bool
is_dag g = is_nil (detect_cycles g)
