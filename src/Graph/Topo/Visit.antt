-- ===== src/Graph/Topo/Visit.antt =====
-- The depth-first visit: what it keeps, that its fuel lasts, and what it leaves behind.
use putup.Prelude.{
  ℕ, suc, ◌+◌, ◌≤◌, ◌<◌, ◌≡◌, refl, ap, ◌∙◌, true, false, ◌⊎◌, inl, inr, List, [], ◌∷◌, length,
  reverse, mem, ◌==◌, update, arith, Bool-cases, ==_iff,
}
use putup.Graph.{Graph}
use putup.Graph.Topo.{
  Color, white, gray, black, DfsState, close_cycle, visit_neighbor, visit_neighbors,
}
use putup.Graph.Topo.Spec.{Follows, IsOrdered, IsClosedWalk}
use putup.Graph.Topo.Chain.{IsChain, IsChain-update, parent_chain-Spells, Spells-IsClosedWalk}

-- the nodes of the list that are still white
abbrev pub whites : (ℕ → Color) → List ℕ → ℕ
whites c [] = 0
whites c (x ∷ xs) = elim (c x) [ white ↦ suc (whites c xs) | _ ↦ whites c xs ]

pub whites-gray-le :
    (c : ℕ → Color) (u : ℕ) (xs : List ℕ) → whites (update c u gray) xs ≤ whites c xs
whites-gray-le c u [] = omega arith
whites-gray-le c u (x ∷ xs) = ground (arith, whites-gray-le c u xs)

pub whites-gray-lt :
    (c : ℕ → Color) (u : ℕ) (xs : List ℕ)
    → c u ≡ white
    → mem u xs ≡ true
    → whites (update c u gray) xs < whites c xs
whites-gray-lt c u [] e m = cc
whites-gray-lt c u (x ∷ xs) e m = elim (Bool-cases (u == x)) [
  | inl here ↦
      let same : u ≡ x = (==_iff u x).0 here in ground (arith, whites-gray-le c u xs, ap c same)
  | inr away ↦ ground (arith, whites-gray-lt c u xs)
]

pub whites-black-le :
    (c : ℕ → Color) (u : ℕ) (xs : List ℕ) → whites (update c u black) xs ≤ whites c xs
whites-black-le c u [] = omega arith
whites-black-le c u (x ∷ xs) = ground (arith, whites-black-le c u xs)

pub Color-cases : (c : Color) → (c ≡ white) ⊎ ((c ≡ gray) ⊎ (c ≡ black))
Color-cases white = inl refl
Color-cases gray = inr (inl refl)
Color-cases black = inr (inr refl)

module _ (g : Graph) (nodes : List ℕ) where
  -- `p` is the recursion stack: its nodes are the gray ones, and the black ones are in `order`.
  pub record Inv (p : List ℕ) (s : DfsState) : Type 0 where
    pub clean : s.has_cycle ≡ false
    pub no_cycle : s.cycle ≡ []
    pub in_fuel : s.exhausted ≡ false
    pub gray_in : (x : ℕ) → s.color x ≡ gray → mem x p ≡ true
    pub in_gray : (x : ℕ) → mem x p ≡ true → s.color x ≡ gray
    pub black_in : (x : ℕ) → s.color x ≡ black → mem x (reverse s.order) ≡ true
    pub in_black : (x : ℕ) → mem x (reverse s.order) ≡ true → s.color x ≡ black
    pub listed : (x : ℕ) → mem x (reverse s.order) ≡ true → mem x nodes ≡ true
    pub ordered : IsOrdered g (reverse s.order)
    pub chain : IsChain g s.parent p
    pub room : length p + whites s.color nodes ≤ length nodes

  pub record Grows (s t : DfsState) : Type 0 where
    pub stays_black : (x : ℕ) → s.color x ≡ black → t.color x ≡ black
    pub fewer : whites t.color nodes ≤ whites s.color nodes

  pub record Cyclic (t : DfsState) : Type 0 where
    pub found : t.has_cycle ≡ true
    pub in_fuel : t.exhausted ≡ false
    pub closed : IsClosedWalk g t.cycle

  -- how a visit ends that was to blacken the nodes of which `P` holds
  pub record Blackens (p : List ℕ) (P : ℕ → Type 0) (s t : DfsState) : Type 0 where
    pub inv : Inv p t
    pub grows : Grows s t
    pub blackened : (v : ℕ) → P v → t.color v ≡ black

  abbrev pub Ends : List ℕ → (ℕ → Type 0) → DfsState → DfsState → Type 0
  Ends p P s t = Blackens p P s t ⊎ Cyclic t

  -- the contract of the recursive call
  abbrev pub Visits : ℕ → (ℕ → DfsState → DfsState) → Type 0
  Visits fuel visit =
      (p : List ℕ) (u : ℕ) (s : DfsState)
      → Inv p s
      → s.color u ≡ white
      → mem u nodes ≡ true
      → IsChain g s.parent (u ∷ p)
      → whites s.color nodes ≤ fuel
      → Ends p (λ v. v ≡ u) s (visit u s)

  visit_neighbor-white :
      (limit : ℕ) (visit : ℕ → DfsState → DfsState) (u v : ℕ) (s : DfsState)
      → s.has_cycle ≡ false
      → s.color v ≡ white
      → visit_neighbor limit visit u s v ≡ visit v (record s { parent = update s.parent v u })
  unfolding visit_neighbor
  visit_neighbor-white limit visit u v s h e = simp (h, e)

  visit_neighbor-gray :
      (limit : ℕ) (visit : ℕ → DfsState → DfsState) (u v : ℕ) (s : DfsState)
      → s.has_cycle ≡ false
      → s.color v ≡ gray
      → visit_neighbor limit visit u s v ≡ close_cycle limit u v s
  unfolding visit_neighbor
  visit_neighbor-gray limit visit u v s h e = simp (h, e)

  visit_neighbor-black :
      (limit : ℕ) (visit : ℕ → DfsState → DfsState) (u v : ℕ) (s : DfsState)
      → s.has_cycle ≡ false
      → s.color v ≡ black
      → visit_neighbor limit visit u s v ≡ s
  unfolding visit_neighbor
  visit_neighbor-black limit visit u v s h e = simp (h, e)

  close_cycle-Cyclic :
      (u v : ℕ) (q : List ℕ) (s : DfsState)
      → Inv (u ∷ q) s
      → Follows g u v
      → s.color v ≡ gray
      → Cyclic (close_cycle (length nodes) u v s)
  unfolding close_cycle
  close_cycle-Cyclic u v q s i f e =
      let spells =
        parent_chain-Spells g s.parent (length nodes) u q v i.chain (i.gray_in v e)
          (omega (arith, i.room)) in
      rw (spells.collects, close_cycle)
        (record {
          found = refl;
          in_fuel = i.in_fuel;
          closed = Spells-IsClosedWalk g s.parent (length nodes) u v f spells;
        })

  pub halted :
      (limit : ℕ) (visit : ℕ → DfsState → DfsState) (u : ℕ) (vs : List ℕ) (s : DfsState)
      → s.has_cycle ≡ true
      → visit_neighbors limit visit u vs s ≡ s
  unfolding visit_neighbors visit_neighbor
  halted limit visit u [] s h = refl
  halted limit visit u (v ∷ vs) s h = simp h (halted limit visit u vs s h)

  pub Grows-refl : (s : DfsState) → Grows s s
  Grows-refl s = record { stays_black = λ x e. e; fewer = omega arith }

  pub Grows-trans : {s t r : DfsState} → Grows s t → Grows t r → Grows s r
  Grows-trans a b = record {
    stays_black = λ x e. b.stays_black x (a.stays_black x e);
    fewer = omega (arith, a.fewer, b.fewer);
  }

  module _ (targets_in : (u v : ℕ) → Follows g u v → mem v nodes ≡ true) (fuel : ℕ)
      (visit : ℕ → DfsState → DfsState) (ih : Visits fuel visit) (u : ℕ) (q : List ℕ) where
    -- the parent of a white node can be written without touching the stack
    Inv-parent :
        (s : DfsState) (v : ℕ)
        → Inv (u ∷ q) s
        → s.color v ≡ white
        → Inv (u ∷ q) (record s { parent = update s.parent v u })
    Inv-parent s v i e = record {
      clean = i.clean;
      no_cycle = i.no_cycle;
      in_fuel = i.in_fuel;
      gray_in = i.gray_in;
      in_gray = i.in_gray;
      black_in = i.black_in;
      in_black = i.in_black;
      listed = i.listed;
      ordered = i.ordered;
      chain = IsChain-update g s.parent v u (u ∷ q) (ground (arith, i.in_gray v)) i.chain;
      room = i.room;
    }

    reparented :
        (s : DfsState) (v : ℕ) {t : DfsState}
        → Ends (u ∷ q) (λ w. w ≡ v) (record s { parent = update s.parent v u }) t
        → Ends (u ∷ q) (λ w. w ≡ v) s t
    reparented s v (inr c) = inr c
    reparented s v (inl b) = inl (record {
      inv = b.inv;
      grows = record { stays_black = b.grows.stays_black; fewer = b.grows.fewer };
      blackened = b.blackened;
    })

    visit_neighbor-Ends :
        (s : DfsState) (v : ℕ)
        → Inv (u ∷ q) s
        → Follows g u v
        → whites s.color nodes ≤ fuel
        → Ends (u ∷ q) (λ w. w ≡ v) s (visit_neighbor (length nodes) visit u s v)
    visit_neighbor-Ends s v i f h = elim (Color-cases (s.color v)) [
      | inl e ↦ rw (visit_neighbor-white (length nodes) visit u v s i.clean e) (
          reparented s v (
            ih (u ∷ q) v (record s { parent = update s.parent v u }) (Inv-parent s v i e) e
              (targets_in u v f) (ground arith, f, (Inv-parent s v i e).chain) h))
      | inr (inl e) ↦
          rw (visit_neighbor-gray (length nodes) visit u v s i.clean e)
            (inr (close_cycle-Cyclic u v q s i f e))
      | inr (inr e) ↦
          rw (visit_neighbor-black (length nodes) visit u v s i.clean e)
            (inl (record { inv = i; grows = Grows-refl s; blackened = λ w k. ap s.color k ∙ e }))
    ]

    and_then :
        {s t r : DfsState} (v : ℕ) (vs : List ℕ)
        → Blackens (u ∷ q) (λ w. w ≡ v) s t
        → Ends (u ∷ q) (λ w. mem w vs ≡ true) t r
        → Ends (u ∷ q) (λ w. mem w (v ∷ vs) ≡ true) s r
    and_then v vs b (inr c) = inr c
    and_then v vs b (inl d) = inl (record {
      inv = d.inv;
      grows = Grows-trans b.grows d.grows;
      blackened = λ w m. elim (Bool-cases (w == v)) [
        | inl here ↦ d.grows.stays_black w (b.blackened w ((==_iff w v).0 here))
        | inr away ↦ d.blackened w (ground arith)
      ];
    })

    pub visit_neighbors-Ends :
        (s : DfsState) (vs : List ℕ)
        → Inv (u ∷ q) s
        → ((v : ℕ) → mem v vs ≡ true → Follows g u v)
        → whites s.color nodes ≤ fuel
        → Ends (u ∷ q) (λ w. mem w vs ≡ true) s (visit_neighbors (length nodes) visit u vs s)
    unfolding visit_neighbors
    visit_neighbors-Ends s [] i f h =
        inl (record { inv = i; grows = Grows-refl s; blackened = λ v m. cc })
    visit_neighbors-Ends s (v ∷ vs) i f h =
        elim (visit_neighbor-Ends s v i (f v (ground arith)) h) [
          | inr c ↦ inr (
              rw
                (halted (length nodes) visit u vs (visit_neighbor (length nodes) visit u s v)
                  c.found)
                c)
          | inl b ↦ and_then v vs b (
              visit_neighbors-Ends (visit_neighbor (length nodes) visit u s v) vs b.inv
                (λ w m. f w (ground arith)) (omega (arith, b.grows.fewer)))
        ]
