-- ===== src/Core/RobinHood/Finds.antt =====
-- The loop of `find`.
use putup.Prelude.{
  ℕ, zero, suc, ◌+◌, ◌%◌, ◌^◌, ◌≤◌, ◌<◌, ◌≡◌, refl, ap, sym, subst, ◌∙◌, Bool, true, false, ◌&&◌,
  inl, inr, ltb, ◌==◌, ==_iff, if_cases, arith, Bool-cases,
}
use putup.Core.RobinHood.{SlotArray, next_slot, Search, found, missing, exhausted, find_loop}
use putup.Core.RobinHood.Table.{probed, Holds}
use putup.Core.RobinHood.Probes.{walked, next_slot-lt}

found_inj : {a b : ℕ} → found a ≡ found b → a ≡ b
found_inj {a} e = ap (λ o. elim o [ found x ↦ x | _ ↦ a ]) e

module _ (matches : ℕ → Bool) (capacity : ℕ) (slots : SlotArray) where
  pub find_loop-Holds :
      (fuel h slot disp v : ℕ)
      → slot < capacity
      → find_loop matches capacity fuel h slot disp slots ≡ found v
      → Holds capacity slots h v × (matches v ≡ true)
  unfolding find_loop
  find_loop-Holds zero h slot disp v b = λ e. cc
  find_loop-Holds (suc fuel) h slot disp v b =
      let s = slots slot in
      let R : Type 0 = Holds capacity slots h v × (matches v ≡ true) in
      let P : Search → Type 0 = λ o. o ≡ found v → R in
      if_cases P (s.hash == 0) missing _ (λ _ e. cc)
        (λ _.
          if_cases P (ltb s.displacement disp) missing _ (λ _ e. cc)
            (λ _.
              if_cases P (s.hash == h && matches s.value) (found s.value) _
                (λ m e.
                  let same : s.value ≡ v = found_inj e in
                  ((slot, b, (ground (arith, m), same)), ap matches (sym same) ∙ ground (arith, m)))
                (λ _.
                  find_loop-Holds fuel h (next_slot capacity slot) ((disp + 1) % 2 ^ 16) v
                    (next_slot-lt capacity slot b))))

  abbrev pub Finds : Search → Type 0
  Finds o = (v : ℕ) × (o ≡ found v)

  module _ (small : capacity ≤ 2 ^ 16) (h : ℕ) (u : 2 ≤ h) (d : ℕ) (near : d < capacity)
      (hit : ((slots (probed capacity h d)).hash ≡ h)
        × ((slots (probed capacity h d)).displacement ≡ d)
        × (matches (slots (probed capacity h d)).value ≡ true))
      (passed : (i : ℕ)
        → i < d
        → (2 ≤ (slots (probed capacity h i)).hash)
          × (i ≤ (slots (probed capacity h i)).displacement)) where
    at_or_before :
        (i : ℕ)
        → i ≤ d
        → (2 ≤ (slots (probed capacity h i)).hash)
          × (i ≤ (slots (probed capacity h i)).displacement)
          × (((slots (probed capacity h i)).hash == h
                  && matches (slots (probed capacity h i)).value)
                ≡ false
              → i < d)
    at_or_before i b = elim (Bool-cases (i == d)) [
      | inl here ↦
          subst
            (λ k.
              (2 ≤ (slots (probed capacity h k)).hash)
              × (k ≤ (slots (probed capacity h k)).displacement)
              × (((slots (probed capacity h k)).hash == h
                      && matches (slots (probed capacity h k)).value)
                    ≡ false
                  → k < d))
            (sym ((==_iff i d).0 here))
            (ground (arith, hit), ground (arith, hit), λ e. absurd (ground (arith, hit, e)))
      | inr away ↦ let (x, y) = passed i (ground arith) in (x, y, λ e. ground arith)
    ]

    pub find_loop-Finds :
        (fuel i : ℕ)
        → i ≤ d
        → d < i + fuel
        → Finds (find_loop matches capacity fuel h (probed capacity h i) i slots)
    unfolding find_loop
    find_loop-Finds zero i b f = absurd (omega arith)
    find_loop-Finds (suc fuel) i b f =
        let s = slots (probed capacity h i) in
        let (used, far, goes) = at_or_before i b in
        if_cases Finds (s.hash == 0) missing _ (λ e. absurd (ground arith))
          (λ _.
            if_cases Finds (ltb s.displacement i) missing _ (λ e. absurd (ground arith))
              (λ _.
                if_cases Finds (s.hash == h && matches s.value) (found s.value) _
                  (λ _. (s.value, refl))
                  (λ e.
                    let on : i < d = goes e in
                    let up : (i + 1) % 2 ^ 16 ≡ suc i = omega arith in
                    subst
                      (λ k. Finds (
                        find_loop matches capacity fuel h (next_slot capacity (probed capacity h i))
                          k slots))
                      (sym up) (find_loop-Finds fuel (suc i) (omega arith) (omega arith)))))

  abbrev pub Ends : Search → Type 0
  Ends exhausted = ⊥
  Ends _ = Unit

  -- with an empty slot within the fuel, the search ends
  pub find_loop-Ends :
      (j fuel h slot disp : ℕ)
      → (slots (walked capacity slot j)).hash ≡ 0
      → j < fuel
      → Ends (find_loop matches capacity fuel h slot disp slots)
  unfolding find_loop
  find_loop-Ends j zero h slot disp e f = absurd (omega arith)
  find_loop-Ends zero (suc fuel) h slot disp e f =
      let s = slots slot in
      if_cases Ends (s.hash == 0) missing _ (λ _. tt) (λ used. absurd (ground (arith, e, used)))
  find_loop-Ends (suc j) (suc fuel) h slot disp e f =
      let s = slots slot in
      if_cases Ends (s.hash == 0) missing _ (λ _. tt)
        (λ _.
          if_cases Ends (ltb s.displacement disp) missing _ (λ _. tt)
            (λ _.
              if_cases Ends (s.hash == h && matches s.value) (found s.value) _ (λ _. tt)
                (λ _.
                  find_loop-Ends j fuel h (next_slot capacity slot) ((disp + 1) % 2 ^ 16) e
                    (omega arith))))
