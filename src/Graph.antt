-- ===== src/Graph.antt =====
-- The build graph of include/pup/graph/dag.hpp and src/graph/dag.cpp: nodes, typed edges in one
-- central vector, and for every node the indices of the edges that leave and enter it. Link types
-- and their roles are those of include/pup/core/types.hpp.
pub mod Edges
pub mod Topo
use putup.Prelude.{
  ℕ, zero, suc, ◌+◌, ◌/◌, ◌%◌, ◌^◌, not, ◌&&◌, Result, ok, err, Bool, true, false, ◌||◌, List, [],
  ◌∷◌, ◌++◌, Option, none, some, length, get_elem?, ◌==◌, if◌then◌else◌, update,
}

pub data LinkType : Type 0 where
  normal sticky group implicit order_only : LinkType

pub data NodeType : Type 0 where
  file command directory variable generated ghost group_node generated_dir root condition : NodeType

pub data LinkRole : Type 0 where
  data_flow ordering identity : LinkRole

-- `Unknown` is the role of a byte that names no link type, which `LinkType` does not hold here.
unfoldable pub link_role : LinkType → LinkRole
link_role LinkType.normal = data_flow
link_role LinkType.group = data_flow
link_role LinkType.implicit = data_flow
link_role LinkType.order_only = ordering
link_role LinkType.sticky = identity

-- A mask is the set of link types that its bits name.
abbrev pub LinkTypeMask : Type 0
LinkTypeMask = LinkType → Bool

abbrev pub same_role : LinkRole → LinkRole → Bool
same_role data_flow data_flow = true
same_role ordering ordering = true
same_role identity identity = true
same_role _ _ = false

-- `mask_of_roles`: the link types whose role is one of those listed.
unfoldable pub mask_of_roles : List LinkRole → LinkTypeMask
unfolding link_role
mask_of_roles [] t = false
mask_of_roles (r ∷ rs) t = same_role (link_role t) r || mask_of_roles rs t

-- the masks of the namespace `edge_mask`
abbrev pub data_flow_mask : LinkTypeMask
data_flow_mask = mask_of_roles (data_flow ∷ [])

abbrev pub inputs_mask : LinkTypeMask
inputs_mask = mask_of_roles (data_flow ∷ identity ∷ [])

abbrev pub order_only_mask : LinkTypeMask
order_only_mask = mask_of_roles (ordering ∷ [])

pub data EdgeDirection : Type 0 where
  forward backward : EdgeDirection

pub record Edge : Type 0 where
  pub from : ℕ
  pub to : ℕ
  pub type : LinkType

-- `file_types` is the column of node types, by file slot. `files`, `commands` and `conditions` hold the `id` field of each slot, slot 0 included. A slice of the edge
-- arena is the list of edge indices that it holds.
pub record Graph : Type 0 where
  pub files : List ℕ
  pub commands : List ℕ
  pub conditions : List ℕ
  pub file_types : ℕ → NodeType
  pub edges : List Edge
  pub edges_from_index : ℕ → List ℕ
  pub edges_to_index : ℕ → List ℕ

abbrev pub empty_graph : List ℕ → List ℕ → List ℕ → Graph
empty_graph files commands conditions = record {
  files = files;
  commands = commands;
  conditions = conditions;
  file_types = λ _. file;
  edges = [];
  edges_from_index = λ _. [];
  edges_to_index = λ _. [];
}

abbrev pub tag_shift : ℕ
tag_shift = 30

-- the two tag bits of a node id, and the index below them
unfoldable pub tag : ℕ → ℕ
tag id = id / 2 ^ tag_shift

unfoldable pub index : ℕ → ℕ
index id = id % 2 ^ tag_shift

unfoldable pub is_file : ℕ → Bool
unfolding tag
is_file id = tag id == 0

unfoldable pub is_command : ℕ → Bool
unfolding tag
is_command id = tag id == 1

unfoldable pub is_condition : ℕ → Bool
unfolding tag
is_condition id = tag id == 2

-- the slot exists, and its id is the one asked for
slot_holds : List ℕ → ℕ → ℕ → Bool
slot_holds slots idx id = elim (get_elem? slots idx) [ none ↦ false | some stored ↦ stored == id ]

unfoldable pub find_file : Graph → ℕ → Option ℕ
unfolding is_file index slot_holds
find_file g id = if is_file id && slot_holds g.files (index id) id then some (index id) else none

unfoldable pub find_command : Graph → ℕ → Option ℕ
unfolding is_command index slot_holds
find_command g id =
    if is_command id && (not (index id == 0) && slot_holds g.commands (index id) id)
    then some (index id)
    else none

abbrev is_some {ℓ} : {A : Type ℓ} → Option A → Bool
is_some none = false
is_some (some _) = true

unfoldable pub validate_node_id : Graph → ℕ → Bool
unfolding is_condition slot_holds find_file find_command
validate_node_id g id =
    if is_command id
    then is_some (find_command g id)
    else if is_condition id
    then not (index id == 0) && slot_holds g.conditions (index id) id
    else is_some (find_file g id)

pub data EdgeError : Type 0 where
  invalid_source invalid_destination : EdgeError

-- `append_extend` leaves the old indices of the slice in place and adds the new one behind them. The source
-- asserts that an index is below 2^32 - 1; here indices have no bound.
unfoldable pub add_edge : Graph → ℕ → ℕ → LinkType → Result EdgeError Graph
add_edge g from to type =
    if not (validate_node_id g from)
    then err invalid_source
    else if not (validate_node_id g to)
    then err invalid_destination
    else (let edge_idx = length g.edges in
        ok (record g {
          edges = g.edges ++ record { from = from; to = to; type = type } ∷ [];
          edges_from_index =
              update g.edges_from_index from (g.edges_from_index from ++ edge_idx ∷ []);
          edges_to_index = update g.edges_to_index to (g.edges_to_index to ++ edge_idx ∷ []);
        }))

-- `make(Tag::Command, idx)` for an index below 2^30, where the `|` of the source is a sum.
abbrev pub make_command : ℕ → ℕ
make_command idx = idx + 2 ^ tag_shift

-- the slots from `i` on whose id is the one that slot `i` must carry
live_slots : (ℕ → ℕ) → ℕ → List ℕ → List ℕ
live_slots make i [] = []
live_slots make i (id ∷ ids) =
    let rest = live_slots make (i + 1) ids in if id == make i then id ∷ rest else rest

abbrev without_first : List ℕ → List ℕ
without_first [] = []
without_first (_ ∷ ids) = ids

unfoldable pub all_nodes : Graph → List ℕ
unfolding live_slots
all_nodes g =
    live_slots (λ i. i) 1 (without_first g.files)
    ++ live_slots make_command 1 (without_first g.commands)

-- the body of the loop of `edges_for_each`: what it adds in front of the ends that follow. An index
-- past the vector is never stored.
unfoldable pub edge_end : EdgeDirection → LinkTypeMask → Option Edge → List ℕ
edge_end dir mask none = []
edge_end forward mask (some e) = if mask e.type then e.to ∷ [] else []
edge_end backward mask (some e) = if mask e.type then e.from ∷ [] else []

-- The edges at the listed indices whose type is in the mask, as their other ends.
unfoldable pub edges_at : List Edge → EdgeDirection → LinkTypeMask → List ℕ → List ℕ
edges_at edges dir mask [] = []
edges_at edges dir mask (idx ∷ indices) =
    edge_end dir mask (get_elem? edges idx) ++ edges_at edges dir mask indices

-- The ends that `edges_for_each` hands to its callback, in order; `edges_where` collects them.
unfoldable pub edges_for_each : Graph → ℕ → EdgeDirection → LinkTypeMask → List ℕ
unfolding edges_at edge_end
edges_for_each g id forward mask = edges_at g.edges forward mask (g.edges_from_index id)
edges_for_each g id backward mask = edges_at g.edges backward mask (g.edges_to_index id)

unfoldable pub get_outputs : Graph → ℕ → List ℕ
get_outputs g id = edges_for_each g id forward data_flow_mask
