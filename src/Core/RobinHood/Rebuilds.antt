-- ===== src/Core/RobinHood/Rebuilds.antt =====
-- The loop of `rebuild`.
use putup.Prelude.{
  ℕ, zero, suc, ◌^◌, ◌≤◌, ◌<◌, ◌≡◌, ◌⊎◌, ◌↔◌, refl, subst, inl, inr, leb, ◌==◌, ==_iff,
  if◌then◌else◌, if-true, if-false, if_cases, arith, Bool-cases,
}
use putup.Core.RobinHood.{SlotArray, empty_slot, probe_insert, reinsert}
use putup.Core.RobinHood.Table.{IsTable, Is, Holds, used_below}
use putup.Core.RobinHood.Probes.{probe_insert-Inserted}

used_below-empty : (n : ℕ) → used_below n (λ slot. empty_slot) ≡ 0
used_below-empty zero = refl
used_below-empty (suc n) = omega (arith, used_below-empty n)

Holds-below :
    (i : ℕ) (old : SlotArray) (h v : ℕ) → Holds (suc i) old h v ↔ (Holds i old h v ⊎ Is h v (old i))
Holds-below i old h v = (there, back)
  where
    there : Holds (suc i) old h v → Holds i old h v ⊎ Is h v (old i)
    there (q, b, is) = elim (Bool-cases (q == i)) [
      | inl here ↦ inr (subst (λ x. Is h v (old x)) ((==_iff q i).0 here) is)
      | inr away ↦ inl (q, ground arith, is)
    ]

    back : Holds i old h v ⊎ Is h v (old i) → Holds (suc i) old h v
    back (inl (q, b, is)) = (q, omega arith, is)
    back (inr is) = (i, omega arith, is)

-- what `rebuild` has done after some old slots
pub record Rebuilt (new_cap : ℕ) (old : SlotArray) (i : ℕ) (result : SlotArray) : Type 0 where
  pub table : IsTable new_cap result
  pub holds : (h v : ℕ) → 2 ≤ h → Holds new_cap result h v ↔ Holds i old h v
  pub same_count : used_below new_cap result ≡ used_below i old

module _ (new_cap : ℕ) (small : new_cap ≤ 2 ^ 16) (old_cap : ℕ) (old : SlotArray)
    (t : IsTable old_cap old) where
  one_more :
      (i : ℕ) (before : SlotArray)
      → i < old_cap
      → used_below (suc i) old < new_cap
      → Rebuilt new_cap old i before
      → Rebuilt new_cap old (suc i) (
          if leb 2 (old i).hash
          then probe_insert new_cap (old i).hash (old i).value before
          else before)
  one_more i before b room r =
      if_cases (Rebuilt new_cap old (suc i)) (leb 2 (old i).hash) _ before
        (λ e.
          let used : 2 ≤ (old i).hash = ground arith in
          let full = if-false {A = ℕ} {b = (old i).hash == 0} 0 1 (ground arith) in
          let new =
            probe_insert-Inserted new_cap small (old i).hash (old i).value before r.table used
              (omega (arith, full, r.same_count)) in
          record {
            table = new.table;
            holds = λ h v u.
                let below = Holds-below i old h v in
                (
                  λ x. below.1 (elim ((new.holds h v u).0 x) [
                    | inl y ↦ inl ((r.holds h v u).0 y)
                    | inr y ↦ inr y
                  ]),
                  λ x.
                      (new.holds h v u).1
                        (elim (below.0 x) [ inl y ↦ inl ((r.holds h v u).1 y) | inr y ↦ inr y ]),
                );
            same_count = omega (arith, new.one_more, full, r.same_count);
          })
        (λ e.
          let free : (old i).hash ≡ 0 = elim (t i b) [
            | inl x ↦ x
            | inr p ↦ let u = p.used in absurd (ground (arith, u))
          ] in
          let none_there = if-true {A = ℕ} {b = (old i).hash == 0} 0 1 (ground arith) in
          record {
            table = r.table;
            holds = λ h v u.
                let below = Holds-below i old h v in
                (
                  λ x. below.1 (inl ((r.holds h v u).0 x)),
                  λ x. elim (below.0 x) [
                    | inl y ↦ (r.holds h v u).1 y
                    | inr y ↦ absurd (omega (arith, y.0))
                  ],
                );
            same_count = omega (arith, none_there, r.same_count);
          })

  pub reinsert-Rebuilt :
      (i : ℕ)
      → i ≤ old_cap
      → used_below i old < new_cap
      → Rebuilt new_cap old i (reinsert new_cap old i)
  unfolding reinsert
  reinsert-Rebuilt zero b room = record {
    table = λ slot l. inl refl;
    holds =
        λ h v u. (λ (q, l, is). absurd (omega (arith, is.0)), λ (q, l, is). absurd (omega arith));
    same_count = used_below-empty new_cap;
  }
  reinsert-Rebuilt (suc i) b room =
      one_more i (reinsert new_cap old i) (omega arith) room
        (reinsert-Rebuilt i (omega arith) (omega arith))
