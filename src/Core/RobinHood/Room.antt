-- ===== src/Core/RobinHood/Room.antt =====
-- The capacities of the table, and the table that `insert` writes in.
use putup.Prelude.{
  ℕ, zero, suc, ◌*◌, ◌/◌, ◌^◌, ◌≤◌, ◌<◌, ◌≡◌, ◌⊎◌, ◌↔◌, refl, ap, sym, ◌∙◌, false, inl, inr, leb,
  ◌==◌, ==_iff, if_cases, arith, Bool-cases,
}
use putup.Core.RobinHood.{RobinHoodIndex, rebuild, make_room}
use putup.Core.RobinHood.Table.{IsTable, Holds, used_below}
use putup.Core.RobinHood.Rebuilds.{reinsert-Rebuilt}

-- the capacities: 16, doubled some times
abbrev pub cap_of : ℕ → ℕ
cap_of zero = 16
cap_of (suc k) = cap_of k * 2

cap_of-le : (m k : ℕ) → k ≤ m → cap_of k ≤ cap_of m
cap_of-le zero zero b = omega arith
cap_of-le zero (suc k) b = absurd (omega arith)
cap_of-le (suc m) k b = elim (Bool-cases (k == suc m)) [
  | inl here ↦ let same = ap cap_of ((==_iff k (suc m)).0 here) in omega (arith, same)
  | inr away ↦ omega (arith, cap_of-le m k (ground arith))
]

abbrev pub IsSized : ℕ → Type 0
IsSized capacity = (k : ℕ) × (k ≤ 12) × (capacity ≡ cap_of k)

pub IsSized-small : (capacity : ℕ) → IsSized capacity → (0 < capacity) × (capacity ≤ 2 ^ 16)
IsSized-small capacity (k, b, e) =
    let least = cap_of-le k 0 (omega arith) in
    (omega (arith, least, e), omega (arith, cap_of-le 12 k b, e))

pub record Valid (t : RobinHoodIndex) : Type 0 where
  pub sized : (t.capacity ≡ 0) ⊎ IsSized t.capacity
  pub table : IsTable t.capacity t.slots
  pub counted : t.count ≡ used_below t.capacity t.slots
  pub room : (t.capacity ≡ 0) ⊎ t.count < t.capacity

-- a table with room for one more entry, which holds what `t` holds
pub record Ready (t t' : RobinHoodIndex) : Type 0 where
  pub sized : IsSized t'.capacity
  pub table : IsTable t'.capacity t'.slots
  pub counted : t'.count ≡ used_below t'.capacity t'.slots
  pub room : suc t'.count < t'.capacity
  pub holds : (h v : ℕ) → 2 ≤ h → Holds t'.capacity t'.slots h v ↔ Holds t.capacity t.slots h v
  pub same_count : t'.count ≡ t.count

rebuild-Ready :
    (t : RobinHoodIndex) (new_cap : ℕ)
    → Valid t
    → IsSized new_cap
    → suc t.count < new_cap
    → Ready t (rebuild new_cap t)
unfolding rebuild
rebuild-Ready t new_cap h s room =
    let r =
      reinsert-Rebuilt new_cap (IsSized-small new_cap s).1 t.capacity t.slots h.table t.capacity
        (omega arith) (omega (arith, h.counted)) in
    record {
      sized = s;
      table = r.table;
      counted = h.counted ∙ sym r.same_count;
      room = room;
      holds = r.holds;
      same_count = refl;
    }

doubled :
    (capacity count : ℕ)
    → (capacity ≡ 0) ⊎ IsSized capacity
    → (capacity ≡ 0) ⊎ count < capacity
    → count < 52428
    → capacity * 4 / 5 ≤ count
    → (capacity == 0) ≡ false
    → IsSized (capacity * 2) × (suc count < capacity * 2)
doubled capacity count (inl z) r b full some' = absurd (ground (arith, z, some'))
doubled capacity count (inr (k, l, e)) r b full some' =
    let (positive, small) = IsSized-small capacity (k, l, e) in
    let not_last : (k == 12) ≡ false = elim (Bool-cases (k == 12)) [
      | inl here ↦
          let last : capacity ≡ 65536 = e ∙ ap cap_of ((==_iff k 12).0 here) in
          absurd (omega (arith, last))
      | inr away ↦ away
    ] in
    let least = cap_of-le k 0 (omega arith) in
    (
      (suc k, ground arith, ap (λ c. c * 2) e),
      elim r [ inl z ↦ absurd (ground (arith, z, some')) | inr l' ↦ omega (arith, least, e) ],
    )

pub make_room-Ready : (t : RobinHoodIndex) → Valid t → t.count < 52428 → Ready t (make_room t)
unfolding make_room
make_room-Ready t h b =
    if_cases (Ready t) (leb (t.capacity * 4 / 5) t.count) _ t
      (λ full.
        if_cases (λ c. Ready t (rebuild c t)) (t.capacity == 0) 16 (t.capacity * 2)
          (λ e.
            let none_yet = ap (λ c. used_below c t.slots) ((==_iff t.capacity 0).0 e) in
            rebuild-Ready t 16 h (0, omega arith, refl) (omega (arith, h.counted, none_yet)))
          (λ e.
            let (s, r) = doubled t.capacity t.count h.sized h.room b (ground arith) e in
            rebuild-Ready t (t.capacity * 2) h s r))
      (λ free. record {
        sized = elim h.sized [ inl z ↦ absurd (ground (arith, z)) | inr s ↦ s ];
        table = h.table;
        counted = h.counted;
        room = ground arith;
        holds = λ k v u. (λ x. x, λ x. x);
        same_count = refl;
      })
