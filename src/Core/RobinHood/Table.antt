-- ===== src/Core/RobinHood/Table.antt =====
-- Where the entries of a table may stand, and what a table holds.
use putup.Prelude.{
  ℕ, zero, suc, ◌+◌, ◌%◌, ◌≤◌, ◌<◌, ◌≡◌, ◌⊎◌, ◌↔◌, refl, ap, sym, subst, false, inl, inr, ◌==◌,
  ==_iff, if◌then◌else◌, if-true, if-false, if_cases, arith, Bool-cases, update,
}
use putup.Core.RobinHood.{Slot, SlotArray, next_slot}

-- the slots that a hash probes, from its home on
abbrev pub probed : ℕ → ℕ → ℕ → ℕ
probed capacity h zero = h % capacity
probed capacity h (suc i) = next_slot capacity (probed capacity h i)

-- An entry at a slot: it came there by its displacement, past entries that are no nearer to their homes.
pub record IsPlaced (capacity : ℕ) (slots : SlotArray) (slot : ℕ) (c : Slot) : Type 0 where
  pub used : 2 ≤ c.hash
  pub home : slot ≡ probed capacity c.hash c.displacement
  pub near : c.displacement < capacity
  pub passed :
      (i : ℕ)
      → i < c.displacement
      → (2 ≤ (slots (probed capacity c.hash i)).hash)
        × (i ≤ (slots (probed capacity c.hash i)).displacement)

abbrev pub IsTable : ℕ → SlotArray → Type 0
IsTable capacity slots =
    (slot : ℕ)
    → slot < capacity
    → ((slots slot).hash ≡ 0) ⊎ IsPlaced capacity slots slot (slots slot)

abbrev pub Is : ℕ → ℕ → Slot → Type 0
Is h v c = (c.hash ≡ h) × (c.value ≡ v)

-- a value under a hash, in some slot
abbrev pub Holds : ℕ → SlotArray → ℕ → ℕ → Type 0
Holds capacity slots h v = (slot : ℕ) × (slot < capacity) × Is h v (slots slot)

abbrev pub used_below : ℕ → SlotArray → ℕ
used_below zero slots = 0
used_below (suc n) slots = (if (slots n).hash == 0 then 0 else 1) + used_below n slots

abbrev pub HasRoom : SlotArray → ℕ → Slot → Type 0
HasRoom slots p c = ((slots p).hash ≡ 0) ⊎ (slots p).displacement ≤ c.displacement

pub update-at : (slots : SlotArray) (p : ℕ) (c : Slot) → update slots p c p ≡ c
update-at slots p c = if-true c (slots p) (ground arith)

pub update-off :
    (slots : SlotArray) (p q : ℕ) (c : Slot) → (q == p) ≡ false → update slots p c q ≡ slots q
update-off slots p q c e = if-false c (slots q) e

module _ (capacity : ℕ) (slots : SlotArray) where
  -- an entry stays placed when another takes a slot that has room for it
  pub put-IsPlaced :
      (p : ℕ) (c : Slot)
      → 2 ≤ c.hash
      → HasRoom slots p c
      → (q : ℕ) (s : Slot) → IsPlaced capacity slots q s
      → IsPlaced capacity (update slots p c) q s
  put-IsPlaced p c used room q s h = record {
    used = h.used;
    home = h.home;
    near = h.near;
    passed = λ i b.
        let r = probed capacity s.hash i in
        if_cases (λ (x : Slot). (2 ≤ x.hash) × (i ≤ x.displacement)) (r == p) c (slots r)
          (λ e. over i room (
            subst (λ x. (2 ≤ (slots x).hash) × (i ≤ (slots x).displacement)) ((==_iff r p).0 e)
              (h.passed i b)))
          (λ _. h.passed i b);
  }
    where
      over :
          (i : ℕ)
          → HasRoom slots p c
          → (2 ≤ (slots p).hash) × (i ≤ (slots p).displacement)
          → (2 ≤ c.hash) × (i ≤ c.displacement)
      over i (inl none_there) (u, l) = absurd (omega arith)
      over i (inr nearer) (u, l) = (used, omega arith)

  pub put-IsTable :
      (p : ℕ) (c : Slot)
      → IsTable capacity slots
      → IsPlaced capacity slots p c
      → HasRoom slots p c
      → IsTable capacity (update slots p c)
  put-IsTable p c t h room q b =
      if_cases (λ (x : Slot). (x.hash ≡ 0) ⊎ IsPlaced capacity (update slots p c) q x) (q == p) c
        (slots q)
        (λ e. inr (
          subst (λ r. IsPlaced capacity (update slots p c) r c) (sym ((==_iff q p).0 e))
            (put-IsPlaced p c h.used room p c h)))
        (λ _. elim (t q b) [
          | inl e ↦ inl e
          | inr s ↦ inr (put-IsPlaced p c h.used room q (slots q) s)
        ])

  -- what is held and what is carried, before and after a slot is taken
  pub put-Holds :
      (p : ℕ) (c : Slot) (h v : ℕ)
      → p < capacity
      → (Holds capacity (update slots p c) h v ⊎ Is h v (slots p))
        ↔ (Holds capacity slots h v ⊎ Is h v c)
  put-Holds p c h v b = (there, back)
    where
      there :
          Holds capacity (update slots p c) h v ⊎ Is h v (slots p)
          → Holds capacity slots h v ⊎ Is h v c
      there (inl (q, l, is)) = elim (Bool-cases (q == p)) [
        | inl here ↦ inr (subst (Is h v) (if-true c (slots q) here) is)
        | inr away ↦ inl (q, l, subst (Is h v) (if-false c (slots q) away) is)
      ]
      there (inr is) = inl (p, b, is)

      back :
          Holds capacity slots h v ⊎ Is h v c
          → Holds capacity (update slots p c) h v ⊎ Is h v (slots p)
      back (inl (q, l, is)) = elim (Bool-cases (q == p)) [
        | inl here ↦ inr (subst (λ x. Is h v (slots x)) ((==_iff q p).0 here) is)
        | inr away ↦ inl (q, l, subst (Is h v) (sym (update-off slots p q c away)) is)
      ]
      back (inr is) = inl (p, b, subst (Is h v) (sym (update-at slots p c)) is)

  used_below-above :
      (n p : ℕ) (c : Slot) → n ≤ p → used_below n (update slots p c) ≡ used_below n slots
  used_below-above zero p c b = refl
  used_below-above (suc n) p c b =
      let away : (n == p) ≡ false = ground arith in
      let same = ap (λ (x : Slot). x.hash) (update-off slots p n c away) in
      rw same (
        ap (λ m. (if (slots n).hash == 0 then 0 else 1) + m) (used_below-above n p c (omega arith)))

  pub used_below-put :
      (n p : ℕ) (c : Slot)
      → p < n
      → 2 ≤ c.hash
      → used_below n (update slots p c) + (if (slots p).hash == 0 then 0 else 1)
        ≡ suc (used_below n slots)
  used_below-put zero p c b u = absurd (omega arith)
  used_below-put (suc n) p c b u = elim (Bool-cases (n == p)) [
    | inl here ↦
        let same : n ≡ p = (==_iff n p).0 here in
        let rest = used_below-above n p c (omega arith) in
        let now =
          ap {B = ℕ} (λ (x : Slot). if x.hash == 0 then 0 else 1) (if-true c (slots n) here) in
        let old = ap {B = ℕ} (λ x. if (slots x).hash == 0 then 0 else 1) same in
        let full = if-false {A = ℕ} {b = c.hash == 0} 0 1 (ground arith) in
        omega (arith, rest, now, old, full)
    | inr away ↦
        let rest = used_below-put n p c (ground arith) u in
        let now =
          ap {B = ℕ} (λ (x : Slot). if x.hash == 0 then 0 else 1) (if-false c (slots n) away) in
        omega (arith, rest, now)
  ]

pub empty_below :
    (slots : SlotArray) (n : ℕ) → used_below n slots < n → (p : ℕ) × (p < n) × ((slots p).hash ≡ 0)
empty_below slots zero b = absurd (omega arith)
empty_below slots (suc n) b = elim (Bool-cases ((slots n).hash == 0)) [
  | inl here ↦ (n, omega arith, (==_iff (slots n).hash 0).0 here)
  | inr away ↦
      let one = if-false {A = ℕ} 0 1 away in
      let (p, l, e) = empty_below slots n (omega (arith, one)) in (p, omega arith, e)
]
