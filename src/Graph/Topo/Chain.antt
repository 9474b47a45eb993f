-- ===== src/Graph/Topo/Chain.antt =====
-- The gray nodes form a path, and walking the parents back along it spells a closed walk.
use putup.Prelude.{
  ℕ, zero, suc, ◌≤◌, ◌≡◌, true, false, inl, inr, List, [], ◌∷◌, ◌++◌, some, length, reverse, mem,
  ◌==◌, update, arith, append_assoc, reverse-append, Bool-cases, ==_iff,
}
use mathlib.Core.List.{reverse-cons}
use putup.Graph.{Graph}
use putup.Graph.Topo.{parent_chain}
use putup.Graph.Topo.Spec.{Follows, IsWalk, IsClosedWalk}

-- `p` lists the nodes on the recursion stack, the deepest first.
abbrev pub IsChain : Graph → (ℕ → ℕ) → List ℕ → Type 0
IsChain g parent [] = Unit
IsChain g parent (u ∷ []) = Unit
IsChain g parent (u ∷ w ∷ r) = (parent u ≡ w) × Follows g w u × IsChain g parent (w ∷ r)

module _ (g : Graph) where
  pub IsChain-update :
      (parent : ℕ → ℕ) (v w : ℕ) (p : List ℕ)
      → mem v p ≡ false
      → IsChain g parent p
      → IsChain g (update parent v w) p
  IsChain-update parent v w [] n c = tt
  IsChain-update parent v w (x ∷ []) n c = tt
  IsChain-update parent v w (x ∷ y ∷ r) n (e, f, c) =
      (ground arith, f, IsChain-update parent v w (y ∷ r) (ground arith) c)

  module _ (parent : ℕ → ℕ) where
    -- what the loop collects from `u` down to `v`, and the walk that it extends
    pub record Spells (fuel u v : ℕ) : Type 0 where
      pub chain : List ℕ
      pub collects : parent_chain fuel parent u v ≡ some chain
      pub extends :
          (w : ℕ) (acc : List ℕ)
          → Follows g u w
          → IsWalk g (w ∷ acc)
          → IsWalk g (v ∷ reverse chain ++ w ∷ acc)

    Spells-here : (fuel u v : ℕ) → u ≡ v → Spells fuel u v
    unfolding parent_chain
    Spells-here zero u v e = record {
      chain = [];
      collects = ground arith;
      extends = λ w acc f walk. rw (← e) (f, walk);
    }
    Spells-here (suc fuel) u v e = record {
      chain = [];
      collects = ground arith;
      extends = λ w acc f walk. rw (← e) (f, walk);
    }

    Spells-suc :
        (fuel u x v : ℕ)
        → parent u ≡ x
        → Follows g x u
        → (u == v) ≡ false
        → Spells fuel x v
        → Spells (suc fuel) u v
    unfolding parent_chain
    Spells-suc fuel u x v e f away s = record {
      chain = u ∷ s.chain;
      collects = rw (away, e, s.collects);
      extends = λ w acc g walk.
          let longer = s.extends u (w ∷ acc) f (g, walk) in rw (reverse-cons, append_assoc) longer;
    }

    pub parent_chain-Spells :
        (fuel u : ℕ) (q : List ℕ) (v : ℕ)
        → IsChain g parent (u ∷ q)
        → mem v (u ∷ q) ≡ true
        → length q ≤ fuel
        → Spells fuel u v
    unfolding parent_chain
    parent_chain-Spells zero u [] v c m h = Spells-here zero u v (ground arith)
    parent_chain-Spells zero u (x ∷ q) v c m h = absurd (omega arith)
    parent_chain-Spells (suc fuel) u [] v c m h = Spells-here (suc fuel) u v (ground arith)
    parent_chain-Spells (suc fuel) u (x ∷ q) v c m h = elim (Bool-cases (u == v)) [
      | inl here ↦ Spells-here (suc fuel) u v ((==_iff u v).0 here)
      | inr away ↦
          Spells-suc fuel u x v c.0 c.1 away
            (parent_chain-Spells fuel x q v c.2 (ground arith) (omega arith))
    ]

    -- the cycle that `close_cycle` stores
    pub Spells-IsClosedWalk :
        (fuel u v : ℕ)
        → Follows g u v
        → (s : Spells fuel u v) → IsClosedWalk g (reverse (v ∷ s.chain ++ v ∷ []))
    Spells-IsClosedWalk fuel u v f s =
        let spelled : reverse (v ∷ s.chain ++ v ∷ []) ≡ v ∷ reverse s.chain ++ v ∷ [] =
          simp (reverse-append, reverse-cons) in
        record {
          node = v;
          between = reverse s.chain;
          shape = spelled;
          walk = rw spelled (s.extends v [] f tt);
        }
