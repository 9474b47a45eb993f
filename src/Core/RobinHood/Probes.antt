-- ===== src/Core/RobinHood/Probes.antt =====
-- The loop of `probe_insert`.
use putup.Prelude.{
  ℕ, zero, suc, ◌+◌, ◌-◌, ◌%◌, ◌^◌, ◌≤◌, ◌<◌, ◌≡◌, ◌⊎◌, ◌↔◌, refl, ap, sym, subst, ◌∙◌, Bool, true,
  false, inl, inr, ltb, ltb→lt, ◌==◌, ==_iff, if◌then◌else◌, if-true, if-false, if_cases, arith,
  Bool-cases, update,
}
use native.Mathlib.Nat.{mod-lt, mod-eq_of_lt, mod_self}
use putup.Core.RobinHood.{Slot, SlotArray, next_slot, farther, probe_loop, probe_insert}
use putup.Core.RobinHood.Table.{
  probed, IsPlaced, IsTable, Is, Holds, used_below, update-at, put-IsPlaced, put-IsTable, put-Holds,
  used_below-put, empty_below,
}

-- the slot after some turns
abbrev pub walked : ℕ → ℕ → ℕ → ℕ
walked capacity p zero = p
walked capacity p (suc j) = walked capacity (next_slot capacity p) j

pub next_slot-lt : (capacity p : ℕ) → p < capacity → next_slot capacity p < capacity
next_slot-lt capacity p b = mod-lt (p + 1) (omega arith)

walked-up : (capacity p j : ℕ) → p + j < capacity → walked capacity p j ≡ p + j
walked-up capacity p zero b = omega arith
walked-up capacity p (suc j) b =
    ap (λ q. walked capacity q j) (mod-eq_of_lt {n = p + 1} {m = capacity} (omega arith))
    ∙ walked-up capacity (p + 1) j (omega arith)
    ∙ omega arith

walked-append :
    (capacity p i j : ℕ) → walked capacity p (i + j) ≡ walked capacity (walked capacity p i) j
walked-append capacity p zero j = let e : 0 + j ≡ j = omega arith in ap (walked capacity p) e
walked-append capacity p (suc i) j =
    let e : suc i + j ≡ suc (i + j) = omega arith in
    ap (walked capacity p) e ∙ walked-append capacity (next_slot capacity p) i j

-- the last slot is followed by the first
walked-round : (capacity p k : ℕ) → p + suc k ≡ capacity → walked capacity p (suc k) ≡ 0
walked-round capacity p k s =
    let e : suc k ≡ k + 1 = omega arith in
    let last : p + k + 1 ≡ capacity = omega arith in
    ap (walked capacity p) e
    ∙ walked-append capacity p k 1
    ∙ ap (λ q. (q + 1) % capacity) (walked-up capacity p k (omega arith))
    ∙ ap (λ q. q % capacity) last
    ∙ mod_self capacity

-- every slot is reached within one round
pub walked-reaches :
    (capacity p e : ℕ)
    → p < capacity
    → e < capacity
    → (j : ℕ) × (j < capacity) × (walked capacity p j ≡ e)
walked-reaches capacity p e b l = elim (Bool-cases (ltb e p)) [
  | inr ahead ↦
      let k = e - p in
      let s : p + k ≡ e = ground arith in (k, omega arith, walked-up capacity p k (omega arith) ∙ s)
  | inl behind ↦ around (capacity - p) (omega arith) (ground arith)
]
  where
    around :
        (k : ℕ) → p + k ≡ capacity → e < p → (j : ℕ) × (j < capacity) × (walked capacity p j ≡ e)
    around zero s h = absurd (omega arith)
    around (suc k) s h =
        let start : 0 + e ≡ e = omega arith in
        (
          suc k + e,
          omega arith,
          walked-append capacity p (suc k) e
              ∙ ap (λ q. walked capacity q e) (walked-round capacity p k s)
              ∙ walked-up capacity 0 e (omega arith)
              ∙ start,
        )

-- the entry one slot on
abbrev pub moved : Slot → Slot
moved c = record c { displacement = suc c.displacement }

farther-moved : (c : Slot) → suc c.displacement < 2 ^ 16 → farther c ≡ moved c
farther-moved c b = ap (λ d. record c { displacement = d }) (omega arith)

-- An entry that finds one as far from its home goes on.
moved-IsPlaced :
    (capacity : ℕ) (slots : SlotArray) (p : ℕ) (s c : Slot)
    → IsPlaced capacity slots p c
    → slots p ≡ s
    → 2 ≤ s.hash
    → c.displacement ≤ s.displacement
    → suc c.displacement < capacity
    → IsPlaced capacity slots (next_slot capacity p) (moved c)
moved-IsPlaced capacity slots p s c h e u l n = record {
  used = h.used;
  home = ap (next_slot capacity) h.home;
  near = n;
  passed = λ i b. elim (Bool-cases (i == c.displacement)) [
    | inl here ↦
        let at : slots (probed capacity c.hash i) ≡ s =
          ap (λ d. slots (probed capacity c.hash d)) ((==_iff i c.displacement).0 here)
          ∙ ap slots (sym h.home)
          ∙ e in
        subst (λ (x : Slot). (2 ≤ x.hash) × (i ≤ x.displacement)) (sym at) (u, ground arith)
    | inr away ↦ h.passed i (ground arith)
  ];
}

module _ (capacity : ℕ) (small : capacity ≤ 2 ^ 16) where
  -- what the loop has to do with an entry
  pub record Inserted (slots : SlotArray) (c : Slot) (result : SlotArray) : Type 0 where
    pub table : IsTable capacity result
    pub holds :
        (h v : ℕ) → 2 ≤ h → Holds capacity result h v ↔ (Holds capacity slots h v ⊎ Is h v c)
    pub one_more : used_below capacity result ≡ suc (used_below capacity slots)

  into_empty :
      (slots : SlotArray) (p : ℕ) (c : Slot)
      → IsTable capacity slots
      → IsPlaced capacity slots p c
      → p < capacity
      → (slots p).hash ≡ 0
      → Inserted slots c (update slots p c)
  into_empty slots p c t h b e = record {
    table = put-IsTable capacity slots p c t h (inl e);
    holds = λ k v u.
        let both = put-Holds capacity slots p c k v b in
        (
          λ x. both.0 (inl x),
          λ x. elim (both.1 x) [ inl y ↦ y | inr is ↦ absurd (omega (arith, e, is.0)) ],
        );
    one_more =
        let none_there = if-true {A = ℕ} {b = (slots p).hash == 0} 0 1 (ground arith) in
        omega (arith, used_below-put capacity slots capacity p c b h.used, none_there);
  }

  -- taking a slot that is in use, and going on with the entry that was there
  exchanged :
      (slots : SlotArray) (p : ℕ) (c : Slot) (result : SlotArray)
      → IsPlaced capacity slots p c
      → p < capacity
      → 2 ≤ (slots p).hash
      → Inserted (update slots p c) (moved (slots p)) result
      → Inserted slots c result
  exchanged slots p c result h b u r = record {
    table = r.table;
    holds = λ k v l.
        let both = put-Holds capacity slots p c k v b in
        (λ x. both.0 ((r.holds k v l).0 x), λ x. (r.holds k v l).1 (both.1 x));
    one_more =
        let full = if-false {A = ℕ} {b = (slots p).hash == 0} 0 1 (ground arith) in
        omega (arith, r.one_more, used_below-put capacity slots capacity p c b h.used, full);
  }

  kept_on :
      (slots : SlotArray) (c : Slot) (result : SlotArray)
      → Inserted slots (moved c) result
      → Inserted slots c result
  kept_on slots c result r = record { table = r.table; holds = r.holds; one_more = r.one_more }

  pub probe_loop-Inserted :
      (fuel j p : ℕ) (c : Slot) (slots : SlotArray)
      → IsTable capacity slots
      → IsPlaced capacity slots p c
      → p < capacity
      → (slots (walked capacity p j)).hash ≡ 0
      → c.displacement + j < capacity
      → j < fuel
      → Inserted slots c (probe_loop capacity fuel c p slots)
  unfolding probe_loop
  probe_loop-Inserted zero j p c slots t h b e n f = absurd (omega arith)
  probe_loop-Inserted (suc fuel) zero p c slots t h b e n f =
      subst (Inserted slots c)
        (sym (if-true {b = (slots p).hash == 0} (update slots p c) _ (ground (arith, e))))
        (into_empty slots p c t h b e)
  probe_loop-Inserted (suc fuel) (suc j) p c slots t h b e n f =
      if_cases (Inserted slots c) ((slots p).hash == 0) (update slots p c) _
        (λ x. into_empty slots p c t h b (ground (arith, x)))
        (λ x.
          from (ground arith)
            (λ c' slots' t' h' e' n'.
              probe_loop-Inserted fuel j (next_slot capacity p) c' slots' t' h'
                (next_slot-lt capacity p b) e' n' (omega arith))
            (t p b) (ltb (slots p).displacement c.displacement) refl)
    where
      from :
          ((slots p).hash == 0) ≡ false
          → ((c' : Slot) (slots' : SlotArray)
              → IsTable capacity slots'
              → IsPlaced capacity slots' (next_slot capacity p) c'
              → (slots' (walked capacity (next_slot capacity p) j)).hash ≡ 0
              → c'.displacement + j < capacity
              → Inserted slots' c' (probe_loop capacity fuel c' (next_slot capacity p) slots'))
          → ((slots p).hash ≡ 0) ⊎ IsPlaced capacity slots p (slots p)
          → (swaps : Bool) → ltb (slots p).displacement c.displacement ≡ swaps
          → Inserted slots c (
              probe_loop capacity fuel
                (farther (if swaps then slots p else c))
                (next_slot capacity p)
                (if swaps then update slots p c else slots))
      from x again (inl free) swaps d = absurd (ground (arith, free, x))
      from x again (inr s) true d =
          let q = walked capacity (next_slot capacity p) j in
          let far =
            farther-moved (slots p)
              (omega (arith, s.near, h.near, ltb→lt (slots p).displacement c.displacement d)) in
          let less = ltb→lt (slots p).displacement c.displacement d in
          let there =
            moved-IsPlaced capacity (update slots p c) p c (slots p)
              (put-IsPlaced capacity slots p c h.used (inr (omega arith)) p (slots p) s)
              (update-at slots p c) h.used (omega arith) (omega arith) in
          let free : (update slots p c q).hash ≡ 0 =
            if_cases (λ (y : Slot). y.hash ≡ 0) (q == p) c (slots q)
              (λ y.
                let same : (slots p).hash ≡ 0 =
                  ap (λ r. (slots r).hash) (sym ((==_iff q p).0 y)) ∙ e in
                absurd (ground (arith, same, x)))
              (λ _. e) in
          exchanged slots p c _ h b s.used (
            subst
              (λ c'.
                Inserted (update slots p c) (moved (slots p))
                  (probe_loop capacity fuel c' (next_slot capacity p) (update slots p c)))
              (sym far)
              (again (moved (slots p)) (update slots p c)
                (put-IsTable capacity slots p c t h (inr (omega arith))) there free (omega arith)))
      from x again (inr s) false d =
          let more : c.displacement ≤ (slots p).displacement = ground (arith, d) in
          let far = farther-moved c (omega arith) in
          let there =
            moved-IsPlaced capacity slots p (slots p) c h refl s.used more (omega arith) in
          kept_on slots c _ (
            subst
              (λ c'.
                Inserted slots (moved c) (probe_loop capacity fuel c' (next_slot capacity p) slots))
              (sym far) (again (moved c) slots t there e (omega arith)))

  -- On a table with an empty slot, inserting an entry gives a table that holds it besides what was held.
  pub probe_insert-Inserted :
      (h v : ℕ) (slots : SlotArray)
      → IsTable capacity slots
      → 2 ≤ h
      → used_below capacity slots < capacity
      → Inserted slots
          (record { hash = h; displacement = 0; value = v })
          (probe_insert capacity h v slots)
  unfolding probe_insert
  probe_insert-Inserted h v slots t u room =
      let (e, l, free) = empty_below slots capacity room in
      let start : h % capacity < capacity = mod-lt h (omega arith) in
      let (j, jl, there) = walked-reaches capacity (h % capacity) e start l in
      probe_loop-Inserted capacity j (h % capacity)
        (record { hash = h; displacement = 0; value = v }) slots t
        (record { used = u; home = refl; near = omega arith; passed = λ i b. absurd (omega arith) })
        start (ap (λ q. (slots q).hash) there ∙ free) (omega arith) jl
