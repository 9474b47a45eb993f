-- ===== src/Graph/Topo/Spec.antt =====
-- What a topological order and a cycle of the graph are, with no search in it.
use putup.Prelude.{
  ℕ, suc, ◌<◌, ◌≡◌, true, false, List, [], ◌∷◌, ◌++◌, length, mem, ◌==◌, if◌then◌else◌, arith,
  Bool-cases, ==_iff, inl, inr,
}
use putup.Graph.{Graph}
use putup.Graph.Topo.{data_flow_targets, order_only_targets}

-- An edge that the sort respects: of the data-flow or of the order-only mask.
abbrev pub Follows : Graph → ℕ → ℕ → Type 0
Follows g u v = mem v (data_flow_targets g u ++ order_only_targets g u) ≡ true

-- Every node of the list stands once in it, and all its successors stand behind it.
abbrev pub IsOrdered : Graph → List ℕ → Type 0
IsOrdered g [] = Unit
IsOrdered g (u ∷ rest) =
    ((v : ℕ) → Follows g u v → mem v rest ≡ true) × (mem u rest ≡ false) × IsOrdered g rest

-- Each node is followed along an edge by the next one.
abbrev pub IsWalk : Graph → List ℕ → Type 0
IsWalk g [] = Unit
IsWalk g (u ∷ []) = Unit
IsWalk g (u ∷ v ∷ rest) = Follows g u v × IsWalk g (v ∷ rest)

-- A walk along at least one edge that ends where it began.
pub record IsClosedWalk (g : Graph) (c : List ℕ) : Type 0 where
  pub node : ℕ
  pub between : List ℕ
  pub shape : c ≡ node ∷ between ++ node ∷ []
  pub walk : IsWalk g c

-- how many nodes stand at or behind `x`
abbrev depth : ℕ → List ℕ → ℕ
depth x [] = 0
depth x (y ∷ ys) = if x == y then suc (length ys) else depth x ys

depth-lt : (x : ℕ) (ys : List ℕ) → depth x ys < suc (length ys)
depth-lt x [] = omega arith
depth-lt x (y ∷ ys) = ground (arith, depth-lt x ys)

module _ (g : Graph) where
  -- an edge leads deeper into an ordered list
  depth-Follows :
      (u v : ℕ) (l : List ℕ)
      → IsOrdered g l
      → mem u l ≡ true
      → Follows g u v
      → (mem v l ≡ true) × (depth v l < depth u l)
  depth-Follows u v [] o m e = cc
  depth-Follows u v (y ∷ ys) (later, fresh, o) m e = elim (Bool-cases (u == y)) [
    | inl here ↦
        let same : u ≡ y = (==_iff u y).0 here in
        let found = later v (rw same at e) in (ground arith, ground (arith, depth-lt v ys))
    | inr away ↦
        let (found, deeper) = depth-Follows u v ys o (ground arith) e in
        (ground arith, ground arith)
  ]

  depth-IsWalk :
      (l : List ℕ)
      → IsOrdered g l
      → (u : ℕ) (between : List ℕ) (w : ℕ) → mem u l ≡ true
      → IsWalk g (u ∷ between ++ w ∷ [])
      → depth w l < depth u l
  depth-IsWalk l o u [] w m (e, _) = (depth-Follows u w l o m e).1
  depth-IsWalk l o u (v ∷ between) w m (e, walk) =
      let (found, deeper) = depth-Follows u v l o m e in
      omega (arith, depth-IsWalk l o v between w found walk)

  -- An ordered list has no closed walk through its nodes.
  pub IsOrdered-acyclic :
      (l : List ℕ) → IsOrdered g l → (c : List ℕ) (k : IsClosedWalk g c) → mem k.node l ≡ true → ⊥
  IsOrdered-acyclic l o c k m =
      omega (arith, depth-IsWalk l o k.node k.between k.node m (rw k.shape at k.walk))
