-- ===== src/Samples/GraphSamples.antt =====
-- A source file, the command that compiles it and its object file; the same graph with a cycle.
use putup.Prelude.{
  ℕ, if◌then◌else◌, update, ◌≡◌, ◌↔◌, refl, true, List, [], ◌∷◌, ◌++◌, ok, err, arith, ◌==◌,
}
use putup.Graph.{
  Graph, Edge, normal, order_only, empty_graph, all_nodes, add_edge, forward, backward,
  edges_for_each, data_flow_mask, mask_of_roles, validate_node_id, invalid_destination,
}
use putup.Graph.Edges.{IsIndexed, new_end, edges_for_each-add_edge, add_edge-IsIndexed}
use putup.Graph.Topo.{
  topological_sort, is_dag, detect_cycles, visit_roots, dfs_visit, visit_neighbors, visit_neighbor,
  finish, start, parent_chain, close_cycle, data_flow_targets, order_only_targets,
}
use putup.Graph.Topo.Spec.{IsClosedWalk}
use putup.Graph.Topo.Sorted.{HasTargets, Outcome, topological_sort-Outcome, is_dag_iff}

abbrev command : ℕ
command = 1_073_741_825

abbrev nodes : Graph
nodes = empty_graph (0 ∷ 1 ∷ 2 ∷ 3 ∷ []) (0 ∷ command ∷ []) []

abbrev edge_list : List Edge
edge_list =
    record { from = 2; to = command; type = normal }
    ∷ record { from = command; to = 3; type = normal }
    ∷ []

abbrev compiled : Graph
compiled = record nodes {
  edges = edge_list;
  edges_from_index = λ u. if u == 2 then 0 ∷ [] else if u == command then 1 ∷ [] else [];
  edges_to_index = λ u. if u == command then 0 ∷ [] else if u == 3 then 1 ∷ [] else [];
}

nodes_found : all_nodes nodes ≡ 1 ∷ 2 ∷ 3 ∷ command ∷ []
unfolding all_nodes
nodes_found = refl

compiled_sorts : (topological_sort compiled).order ≡ 2 ∷ command ∷ 3 ∷ 1 ∷ []
unfolding topological_sort visit_roots dfs_visit visit_neighbors visit_neighbor finish start
    all_nodes edges_for_each data_flow_targets order_only_targets mask_of_roles
compiled_sorts = refl

compiled-HasTargets : HasTargets compiled
unfolding data_flow_targets order_only_targets edges_for_each mask_of_roles all_nodes
compiled-HasTargets u v = ground arith

topological_sort-Outcome_example : Outcome compiled (topological_sort compiled)
topological_sort-Outcome_example = topological_sort-Outcome compiled compiled-HasTargets

is_dag_iff_example : (is_dag compiled ≡ true) ↔ ((c : List ℕ) → ¬ IsClosedWalk compiled c)
is_dag_iff_example = is_dag_iff compiled compiled-HasTargets

-- the object file is made an order-only input of its own command
abbrev looped : Graph
looped = record compiled {
  edges = edge_list ++ record { from = 3; to = command; type = order_only } ∷ [];
  edges_from_index = λ u.
      if u == 2 then 0 ∷ [] else if u == command then 1 ∷ [] else if u == 3 then 2 ∷ [] else [];
  edges_to_index = λ u. if u == command then 0 ∷ 2 ∷ [] else if u == 3 then 1 ∷ [] else [];
}

looped_cycle : detect_cycles looped ≡ command ∷ 3 ∷ command ∷ []
unfolding detect_cycles topological_sort visit_roots dfs_visit visit_neighbors visit_neighbor finish
    start all_nodes edges_for_each data_flow_targets order_only_targets mask_of_roles parent_chain
    close_cycle
looped_cycle = refl

nodes-IsIndexed : IsIndexed nodes
nodes-IsIndexed = record { from_bound = λ id. tt; to_bound = λ id. tt }

abbrev one_edge : Graph
one_edge = record nodes {
  edges = record { from = 2; to = command; type = normal } ∷ [];
  edges_from_index = update (λ _. []) 2 (0 ∷ []);
  edges_to_index = update (λ _. []) command (0 ∷ []);
}

add_edge_runs : add_edge nodes 2 command normal ≡ ok one_edge
unfolding add_edge validate_node_id
add_edge_runs = refl

add_edge_rejects : add_edge nodes 2 9 normal ≡ err invalid_destination
unfolding add_edge validate_node_id
add_edge_rejects = refl

edges_for_each-add_edge_example :
    (edges_for_each one_edge 2 forward data_flow_mask
      ≡ edges_for_each nodes 2 forward data_flow_mask
        ++ new_end (2 == 2) data_flow_mask normal command)
    × (edges_for_each one_edge 2 backward data_flow_mask
        ≡ edges_for_each nodes 2 backward data_flow_mask
          ++ new_end (2 == command) data_flow_mask normal 2)
edges_for_each-add_edge_example =
    edges_for_each-add_edge nodes one_edge 2 command normal 2 data_flow_mask nodes-IsIndexed
      add_edge_runs

add_edge-IsIndexed_example : IsIndexed one_edge
add_edge-IsIndexed_example =
    add_edge-IsIndexed nodes one_edge 2 command normal nodes-IsIndexed add_edge_runs
