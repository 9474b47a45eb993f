-- ===== src/Exec/DependencyMap.antt =====
-- src/exec/scheduler.cpp: `build_dependency_map`, which finds for each job the jobs that it has to
-- wait for, and `has_cycle`. A `NodeIdMap32` is a function on node ids.
mod Rows
mod Bounds
pub mod Waits
mod Adds
pub mod Members
pub mod Built
pub mod Cycle
use putup.Prelude.{
  ℕ, zero, suc, ◌+◌, Bool, true, false, ◌&&◌, List, [], ◌∷◌, ◌++◌, map, Option, none, some, length,
  ltb, ◌==◌, if◌then◌else◌, update, is_nil, get_or,
}
use putup.Graph.{
  Graph, NodeType, group_node, forward, backward, inputs_mask, order_only_mask, edges_for_each,
  is_command, find_file,
}

pub record OrderingEdge : Type 0 where
  pub producer : ℕ
  pub consumer : ℕ

-- the insertion before the first element that is not less, as `std::lower_bound` finds it in a sorted
-- vector
unfoldable pub sorted_insert_unique : List ℕ → ℕ → List ℕ
sorted_insert_unique [] x = x ∷ []
sorted_insert_unique (y ∷ ys) x =
    let rest = sorted_insert_unique ys x in
    if ltb y x then y ∷ rest else if y == x then y ∷ ys else x ∷ y ∷ ys

-- a loop that hands the vector from callback to callback
unfoldable pub each : (ℕ → List ℕ → List ℕ) → List ℕ → List ℕ → List ℕ
each f [] acc = acc
each f (x ∷ xs) acc = each f xs (f x acc)

-- `cmd_to_job`: the job of a command
unfoldable pub index_jobs : ℕ → List ℕ → (ℕ → Option ℕ) → ℕ → Option ℕ
index_jobs i [] known = known
index_jobs i (id ∷ ids) known = index_jobs (i + 1) ids (update known id (some i))

-- the job of a producer, when it has one, and it is not the waiting job itself
unfoldable pub add_job : Option ℕ → ℕ → List ℕ → List ℕ
add_job none current_job acc = acc
add_job (some dep_idx) current_job acc =
    if dep_idx == current_job then acc else sorted_insert_unique acc dep_idx

-- one edge of the ordering that a previous build left, by the jobs of its two commands
unfoldable pub inject : Option ℕ → Option ℕ → (ℕ → List ℕ) → ℕ → List ℕ
inject none consumer injected = injected
inject (some producer_idx) none injected = injected
inject (some producer_idx) (some consumer_idx) injected =
    if producer_idx == consumer_idx
    then injected
    else update injected consumer_idx (sorted_insert_unique (injected consumer_idx) producer_idx)

unfoldable pub is_group : Graph → ℕ → Bool
is_group graph id = elim (find_file graph id) [
  | none ↦ false
  | some slot ↦ elim (graph.file_types slot) [ group_node ↦ true | _ ↦ false ]
]

module _ (cmd_to_job : ℕ → Option ℕ) where
  module _ (graph : Graph) where
    unfoldable pub add_producer_dependencies : ℕ → ℕ → List ℕ → List ℕ
    add_producer_dependencies current_job node_id acc =
        each (λ id acc. if is_command id then add_job (cmd_to_job id) current_job acc else acc)
          (edges_for_each graph node_id backward inputs_mask) acc

    -- cases 1 and 2
    unfoldable pub add_input : ℕ → ℕ → List ℕ → List ℕ
    add_input current_job input_id acc =
        if is_command input_id
        then add_job (cmd_to_job input_id) current_job acc
        else add_producer_dependencies current_job input_id acc

    -- Case 3. The source asserts that a file node has an entry, which is not needed to go on.
    unfoldable pub add_order_only : ℕ → ℕ → List ℕ → List ℕ
    add_order_only current_job oo_id acc =
        if is_group graph oo_id
        then each (add_producer_dependencies current_job)
            (edges_for_each graph oo_id backward inputs_mask) acc
        else add_producer_dependencies current_job oo_id acc

    -- the jobs that one job waits for; `injected` are its injected producers
    unfoldable pub dependencies : (ℕ → List ℕ) → ℕ → ℕ → List ℕ
    dependencies injected j cmd_id =
        let inputs = each (add_input j) (edges_for_each graph cmd_id backward inputs_mask) [] in
        let ordered =
          each (add_order_only j) (edges_for_each graph cmd_id backward order_only_mask) inputs in
        each (λ dep_idx acc. sorted_insert_unique acc dep_idx) (injected j) ordered

  unfoldable pub injected_producers : List OrderingEdge → (ℕ → List ℕ) → ℕ → List ℕ
  injected_producers [] injected = injected
  injected_producers (edge ∷ edges) injected =
      injected_producers edges
        (inject (cmd_to_job edge.producer) (cmd_to_job edge.consumer) injected)

pub record DependencyMap : Type 0 where
  pub in_degree : ℕ → ℕ
  pub dependents : ℕ → List ℕ

-- `for (auto dep : dependencies) dependents[dep].push_back(j);`
unfoldable pub push_dependents : ℕ → List ℕ → (ℕ → List ℕ) → ℕ → List ℕ
push_dependents j [] dependents = dependents
push_dependents j (dep ∷ deps) dependents =
    push_dependents j deps (update dependents dep (dependents dep ++ j ∷ []))

-- the loop over the jobs from `i` on; `row` gives the dependencies of a job
unfoldable pub fill_rows : (ℕ → ℕ → List ℕ) → ℕ → List ℕ → DependencyMap → DependencyMap
fill_rows row i [] m = m
fill_rows row i (id ∷ ids) m = fill_rows row (i + 1) ids (record {
  in_degree = update m.in_degree i (length (row i id));
  dependents = push_dependents i (row i id) m.dependents;
})

-- `enforced`: the injected edges that became dependencies
unfoldable pub enforced_ordering : (ℕ → List ℕ) → List ℕ → ℕ → List ℕ → List OrderingEdge
enforced_ordering injected jobs i [] = []
enforced_ordering injected jobs i (id ∷ ids) =
    map (λ dep_idx. record { producer = get_or jobs dep_idx 0; consumer = id }) (injected i)
    ++ enforced_ordering injected jobs (i + 1) ids

abbrev pub no_dependencies : DependencyMap
no_dependencies = record { in_degree = λ j. 0; dependents = λ i. [] }

-- `jobs` holds the id of each job's command.
abbrev pub cmd_to_job : List ℕ → ℕ → Option ℕ
cmd_to_job jobs = index_jobs 0 jobs (λ id. none)

abbrev pub row : List ℕ → Graph → List OrderingEdge → ℕ → ℕ → List ℕ
row jobs graph ordering =
    dependencies (cmd_to_job jobs) graph (injected_producers (cmd_to_job jobs) ordering (λ i. []))

unfoldable pub build_dependency_map :
    List ℕ → Graph → List OrderingEdge → DependencyMap × List OrderingEdge
build_dependency_map jobs graph ordering =
    let injected = injected_producers (cmd_to_job jobs) ordering (λ i. []) in
    (
      fill_rows (row jobs graph ordering) 0 jobs no_dependencies,
      enforced_ordering injected jobs 0 jobs,
    )
