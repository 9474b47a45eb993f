-- ===== src/Graph/Topo/Dfs.antt =====
-- `dfs_visit` keeps its contract, at every depth that the fuel allows.
use putup.Prelude.{
  ℕ, zero, suc, ◌≤◌, ◌≡◌, refl, ap, true, false, inl, inr, List, [], ◌∷◌, ◌++◌, length, reverse,
  mem, mem-append, ◌==◌, update, arith, reverse-append, Bool-cases, if-false, ==_iff,
}
use putup.Graph.{Graph}
use putup.Graph.Topo.{
  white, gray, black, DfsState, data_flow_targets, order_only_targets, visit_neighbors, finish,
  dfs_visit,
}
use putup.Graph.Topo.Spec.{Follows}
use putup.Graph.Topo.Chain.{IsChain}
use putup.Graph.Topo.Visit.{
  whites, whites-gray-le, whites-gray-lt, whites-black-le, Inv, Blackens, Ends, Visits,
  visit_neighbors-Ends, Grows-trans, halted,
}

IsChain-tail :
    (g : Graph) (parent : ℕ → ℕ) (u : ℕ) (p : List ℕ)
    → IsChain g parent (u ∷ p)
    → IsChain g parent p
IsChain-tail g parent u [] c = tt
IsChain-tail g parent u (w ∷ p) c = c.2

dfs_visit-suc :
    (g : Graph) (limit fuel u : ℕ) (s : DfsState)
    → s.has_cycle ≡ false
    → dfs_visit g limit (suc fuel) u s
      ≡ finish u (
          visit_neighbors limit (dfs_visit g limit fuel) u (order_only_targets g u) (
            visit_neighbors limit
              (dfs_visit g limit fuel)
              u
              (data_flow_targets g u)
              (record s { color = update s.color u gray })))
unfolding dfs_visit
dfs_visit-suc g limit fuel u s h = if-false _ _ h

module _ (g : Graph) (nodes : List ℕ) where
  -- `state.color.set(u, GRAY)` puts `u` on the stack
  Inv-enter :
      (p : List ℕ) (u : ℕ) (s : DfsState)
      → Inv g nodes p s
      → s.color u ≡ white
      → mem u nodes ≡ true
      → IsChain g s.parent (u ∷ p)
      → Inv g nodes (u ∷ p) (record s { color = update s.color u gray })
  Inv-enter p u s i e m c = record {
    clean = i.clean;
    no_cycle = i.no_cycle;
    in_fuel = i.in_fuel;
    gray_in = λ x h. ground (arith, i.gray_in x);
    in_gray = λ x h. ground (arith, i.in_gray x);
    black_in = λ x h. ground (arith, i.black_in x);
    in_black = λ x h. elim (Bool-cases (x == u)) [
      | inl here ↦
          let k = i.in_black x h in
          let same : x ≡ u = (==_iff x u).0 here in ground (arith, ap s.color same)
      | inr away ↦ rw away (i.in_black x h)
    ];
    listed = i.listed;
    ordered = i.ordered;
    chain = c;
    room = omega (arith, i.room, whites-gray-lt s.color u nodes e m);
  }

  finish-clean :
      (u : ℕ) (t : DfsState)
      → t.has_cycle ≡ false
      → finish u t ≡ record t { color = update t.color u black; order = t.order ++ u ∷ [] }
  unfolding finish
  finish-clean u t h = simp h

  finish-halted : (u : ℕ) (t : DfsState) → t.has_cycle ≡ true → finish u t ≡ t
  unfolding finish
  finish-halted u t h = simp h

  reverse-snoc : (l : List ℕ) (u : ℕ) → reverse (l ++ u ∷ []) ≡ u ∷ reverse l
  reverse-snoc l u = simp (reverse-append)

  -- the last lines of `dfs_visit`: `u` leaves the stack and enters the order
  Inv-finish :
      (p : List ℕ) (u : ℕ) (t : DfsState)
      → Inv g nodes (u ∷ p) t
      → mem u nodes ≡ true
      → mem u p ≡ false
      → ((v : ℕ) → Follows g u v → t.color v ≡ black)
      → Inv g nodes p (record t { color = update t.color u black; order = t.order ++ u ∷ [] })
  Inv-finish p u t i m out all = record {
    clean = i.clean;
    no_cycle = i.no_cycle;
    in_fuel = i.in_fuel;
    gray_in = λ x h. ground (arith, i.gray_in x);
    in_gray = λ x h. elim (Bool-cases (x == u)) [
      | inl here ↦ let same : x ≡ u = (==_iff x u).0 here in cc (ap (λ y. mem y p) same)
      | inr away ↦ rw away (i.in_gray x (ground arith))
    ];
    black_in = λ x h. rw reverse-snoc (ground (arith, i.black_in x));
    in_black = λ x h. ground (arith, i.in_black x, rw reverse-snoc at h);
    listed = λ x h. elim (Bool-cases (x == u)) [
      | inl here ↦ let same : x ≡ u = (==_iff x u).0 here in rw same m
      | inr away ↦ i.listed x (ground (arith, rw reverse-snoc at h))
    ];
    ordered =
        rw reverse-snoc
          (λ v f. i.black_in v (all v f), ground (arith, i.in_black u, i.in_gray u), i.ordered);
    chain = IsChain-tail g t.parent u p i.chain;
    room = omega (arith, i.room, whites-black-le t.color u nodes);
  }

  module _ (targets_in : (u v : ℕ) → Follows g u v → mem v nodes ≡ true) where
    finish-Ends :
        (p : List ℕ) (u : ℕ) (s t : DfsState)
        → s.color u ≡ white
        → mem u nodes ≡ true
        → mem u p ≡ false
        → Ends g nodes (u ∷ p) (Follows g u) (record s { color = update s.color u gray }) t
        → Ends g nodes p (λ v. v ≡ u) s (finish u t)
    finish-Ends p u s t e m out (inr c) = rw (finish-halted u t c.found) (inr c)
    finish-Ends p u s t e m out (inl b) = rw (finish-clean u t b.inv.clean) (
        inl (record {
          inv = Inv-finish p u t b.inv m out b.blackened;
          grows = record {
            stays_black = λ x h. elim (Bool-cases (x == u)) [
              | inl here ↦ rw here refl
              | inr away ↦ rw away (b.grows.stays_black x (rw away h))
            ];
            fewer = omega (
              arith,
              b.grows.fewer,
              whites-gray-le s.color u nodes,
              whites-black-le t.color u nodes,
            );
          };
          blackened = λ v h. ground arith;
        }))

    both_masks :
        (p : List ℕ) (u : ℕ) {s t r : DfsState}
        → Blackens g nodes (u ∷ p) (λ v. mem v (data_flow_targets g u) ≡ true) s t
        → Ends g nodes (u ∷ p) (λ v. mem v (order_only_targets g u) ≡ true) t r
        → Ends g nodes (u ∷ p) (Follows g u) s r
    both_masks p u b (inr c) = inr c
    both_masks p u b (inl d) = inl (record {
      inv = d.inv;
      grows = Grows-trans g nodes b.grows d.grows;
      blackened = λ v f. elim (Bool-cases (mem v (data_flow_targets g u))) [
        | inl flow ↦ d.grows.stays_black v (b.blackened v flow)
        | inr other ↦
            d.blackened v
              (ground (arith, mem-append v (data_flow_targets g u) (order_only_targets g u)))
      ];
    })

    flow_in : (u v : ℕ) → mem v (data_flow_targets g u) ≡ true → Follows g u v
    flow_in u v m = rw mem-append (rw m refl)

    order_in : (u v : ℕ) → mem v (order_only_targets g u) ≡ true → Follows g u v
    order_in u v m = ground (arith, mem-append v (data_flow_targets g u) (order_only_targets g u))

    pub dfs_visit-Visits : (fuel : ℕ) → Visits g nodes fuel (dfs_visit g (length nodes) fuel)
    dfs_visit-Visits zero p u s i e m c h =
        absurd (omega (arith, whites-gray-lt s.color u nodes e m))
    dfs_visit-Visits (suc fuel) p u s i e m c h =
        let inside = Inv-enter p u s i e m c in
        let entered = record s { color = update s.color u gray } in
        let less : whites entered.color nodes ≤ fuel =
          omega (arith, whites-gray-lt s.color u nodes e m) in
        let visit = dfs_visit g (length nodes) fuel in
        let targets =
          visit_neighbors-Ends g nodes targets_in fuel visit (dfs_visit-Visits fuel) u p in
        let flow = visit_neighbors (length nodes) visit u (data_flow_targets g u) entered in
        let all = visit_neighbors (length nodes) visit u (order_only_targets g u) flow in
        let ends : Ends g nodes (u ∷ p) (Follows g u) entered all =
          elim (targets entered (data_flow_targets g u) inside (flow_in u) less) [
            | inr cyc ↦ inr (rw (halted g nodes (length nodes) visit u _ flow cyc.found) cyc)
            | inl b ↦ both_masks p u b (
                targets flow (order_only_targets g u) b.inv (order_in u)
                  (omega (arith, b.grows.fewer)))
          ] in
        rw (dfs_visit-suc g (length nodes) fuel u s i.clean)
          (finish-Ends p u s all e m (ground (arith, i.in_gray u)) ends)
