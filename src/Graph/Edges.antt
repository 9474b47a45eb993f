-- ===== src/Graph/Edges.antt =====
-- What `add_edge` does to the traversals: the index slices stay in step with the edge vector.
use putup.Prelude.{
  ℕ, suc, ◌<◌, ◌≡◌, refl, ap, ◌∙◌, Bool, true, ◌&&◌, List, [], ◌∷◌, ◌++◌, some, length,
  length-append, All, All-append, get_elem?-append_left, get_elem?-snoc, update, ◌==◌,
  if◌then◌else◌, arith, append-nil, append_assoc, Bool-cases, ==_iff, inl, inr, ok,
}
use putup.Graph.{
  Graph, Edge, LinkType, LinkTypeMask, EdgeDirection, forward, backward, edge_end, edges_at,
  edges_for_each, add_edge, validate_node_id,
}

-- Every stored index is one of the edge vector.
abbrev AllBelow : ℕ → List ℕ → Type 0
AllBelow n = All (λ idx. idx < n)

pub record IsIndexed (g : Graph) : Type 0 where
  pub from_bound : (id : ℕ) → All (λ idx. idx < length g.edges) (g.edges_from_index id)
  pub to_bound : (id : ℕ) → All (λ idx. idx < length g.edges) (g.edges_to_index id)

AllBelow-mono : (n m : ℕ) (xs : List ℕ) → n < suc m → AllBelow n xs → AllBelow m xs
AllBelow-mono n m [] h a = tt
AllBelow-mono n m (x ∷ xs) h (p, a) = (omega arith, AllBelow-mono n m xs h a)

-- a new edge at the end changes nothing at the indices that were there
edges_at-push :
    (edges : List Edge) (e : Edge) (dir : EdgeDirection) (mask : LinkTypeMask) (indices : List ℕ)
    → AllBelow (length edges) indices
    → edges_at (edges ++ e ∷ []) dir mask indices ≡ edges_at edges dir mask indices
unfolding edges_at
edges_at-push edges e dir mask [] a = refl
edges_at-push edges e dir mask (idx ∷ indices) (p, a) =
    rw (get_elem?-append_left edges (e ∷ []) idx p, edges_at-push edges e dir mask indices a)

edges_at-append :
    (edges : List Edge) (dir : EdgeDirection) (mask : LinkTypeMask) (xs ys : List ℕ)
    → edges_at edges dir mask (xs ++ ys) ≡ edges_at edges dir mask xs ++ edges_at edges dir mask ys
unfolding edges_at
edges_at-append edges dir mask [] ys = refl
edges_at-append edges dir mask (x ∷ xs) ys =
    simp (edges_at-append edges dir mask xs ys, append_assoc)

-- what a new edge adds to the ends seen from one node
abbrev pub new_end : Bool → LinkTypeMask → LinkType → ℕ → List ℕ
new_end here mask type end = if here && mask type then end ∷ [] else []

-- a traversal after the new index went to the slice of the node `at`
edges_at-extend :
    (edges : List Edge) (e : Edge) (dir : EdgeDirection) (mask : LinkTypeMask) (slices : ℕ → List ℕ)
    (at id : ℕ)
    → ((x : ℕ) → AllBelow (length edges) (slices x))
    → edges_at (edges ++ e ∷ []) dir mask (update slices at (slices at ++ length edges ∷ []) id)
      ≡ edges_at edges dir mask (slices id) ++ (if id == at then edge_end dir mask (some e) else [])
unfolding edges_at
edges_at-extend edges e dir mask slices at id below = elim (Bool-cases (id == at)) [
  | inl here ↦
      let same : id ≡ at = (==_iff id at).0 here in
      rw here (
        rw same (
          simp (
            edges_at-append,
            edges_at-push edges e dir mask (slices at) (below at),
            get_elem?-snoc,
            append-nil,
          )))
  | inr away ↦ rw away (simp (edges_at-push edges e dir mask (slices id) (below id), append-nil))
]

edge_end-forward :
    (here : Bool) (mask : LinkTypeMask) (from to : ℕ) (type : LinkType)
    → (if here
        then edge_end forward mask (some (record { from = from; to = to; type = type }))
        else [])
      ≡ new_end here mask type to
unfolding edge_end
edge_end-forward here mask from to type = ground arith

edge_end-backward :
    (here : Bool) (mask : LinkTypeMask) (from to : ℕ) (type : LinkType)
    → (if here
        then edge_end backward mask (some (record { from = from; to = to; type = type }))
        else [])
      ≡ new_end here mask type from
unfolding edge_end
edge_end-backward here mask from to type = ground arith

add_edge-ok :
    (g g' : Graph) (from to : ℕ) (type : LinkType)
    → add_edge g from to type ≡ ok g'
    → (validate_node_id g from ≡ true)
      × (validate_node_id g to ≡ true)
      × (g' ≡ record g {
        edges = g.edges ++ record { from = from; to = to; type = type } ∷ [];
        edges_from_index =
            update g.edges_from_index from (g.edges_from_index from ++ length g.edges ∷ []);
        edges_to_index = update g.edges_to_index to (g.edges_to_index to ++ length g.edges ∷ []);
      })
unfolding add_edge
add_edge-ok g g' from to type h = ground arith

-- With stored indices inside the edge vector, adding an edge between two live nodes shows the new
-- end at the end of the traversal from each of its own nodes, where the mask admits the link
-- type, and changes no other traversal.
pub edges_for_each-add_edge :
    (g g' : Graph) (from to : ℕ) (type : LinkType) (id : ℕ) (mask : LinkTypeMask)
    → IsIndexed g
    → add_edge g from to type ≡ ok g'
    → (edges_for_each g' id forward mask
        ≡ edges_for_each g id forward mask ++ new_end (id == from) mask type to)
      × (edges_for_each g' id backward mask
          ≡ edges_for_each g id backward mask ++ new_end (id == to) mask type from)
unfolding edges_for_each
edges_for_each-add_edge g g' from to type id mask i h =
    let (_, _, e) = add_edge-ok g g' from to type h in
    let new : Edge = record { from = from; to = to; type = type } in
    simp e (
      edges_at-extend g.edges new forward mask g.edges_from_index from id i.from_bound
          ∙ ap (λ l. edges_at g.edges forward mask (g.edges_from_index id) ++ l)
              (edge_end-forward (id == from) mask from to type),
      edges_at-extend g.edges new backward mask g.edges_to_index to id i.to_bound
          ∙ ap (λ l. edges_at g.edges backward mask (g.edges_to_index id) ++ l)
              (edge_end-backward (id == to) mask from to type),
    )

slices-bounded :
    (n : ℕ) (slices : ℕ → List ℕ) (at id : ℕ)
    → ((x : ℕ) → AllBelow n (slices x))
    → AllBelow (suc n) (update slices at (slices at ++ n ∷ []) id)
slices-bounded n slices at id below = elim (Bool-cases (id == at)) [
  | inl here ↦ rw here (
      All-append (λ idx. idx < suc n) (slices at) (n ∷ [])
        (AllBelow-mono n (suc n) (slices at) (omega arith) (below at)) (omega arith, tt))
  | inr away ↦ rw away (AllBelow-mono n (suc n) (slices id) (omega arith) (below id))
]

-- Adding an edge keeps every stored index inside the edge vector.
pub add_edge-IsIndexed :
    (g g' : Graph) (from to : ℕ) (type : LinkType)
    → IsIndexed g
    → add_edge g from to type ≡ ok g'
    → IsIndexed g'
add_edge-IsIndexed g g' from to type i h =
    let (_, _, e) = add_edge-ok g g' from to type h in
    let grown : length (g.edges ++ record { from = from; to = to; type = type } ∷ [])
        ≡ suc (length g.edges) =
      omega (arith, length-append g.edges (record { from = from; to = to; type = type } ∷ [])) in
    rw e (record {
      from_bound =
          λ id. rw grown (slices-bounded (length g.edges) g.edges_from_index from id i.from_bound);
      to_bound = λ id. rw grown (slices-bounded (length g.edges) g.edges_to_index to id i.to_bound);
    })
