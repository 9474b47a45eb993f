-- ===== src/Core/RobinHood/Refines.antt =====
-- The index against the list of what was inserted.
use putup.Prelude.{
  ℕ, ◌%◌, ◌≤◌, ◌<◌, ◌≡◌, ◌⊎◌, ◌↔◌, refl, ap, sym, subst, ◌∙◌, Bool, true, false, List, [], ◌∷◌,
  length, inl, inr, ◌==◌, if_cases, arith, Bool-cases,
}
use native.Mathlib.Nat.{mod-lt}
use putup.Core.RobinHood.{
  RobinHoodIndex, fix_hash, make_room, index_insert, index_clear, find_loop, index_find, Search,
  found, missing, exhausted,
}
use putup.Core.RobinHood.Table.{probed, IsPlaced, Holds, used_below, empty_below}
use putup.Core.RobinHood.Probes.{probe_insert-Inserted, walked-reaches}
use putup.Core.RobinHood.Finds.{find_loop-Holds, find_loop-Finds, find_loop-Ends, Ends}
use putup.Core.RobinHood.Room.{IsSized, IsSized-small, Valid, make_room-Ready}

-- a hash and a value, the newest first
abbrev pub Entries : Type 0
Entries = List (ℕ × ℕ)

-- a value inserted under a hash, where the hashes 0 and 1 stand for 2 and 3
abbrev pub Listed : Entries → ℕ → ℕ → Type 0
Listed [] h v = ⊥
Listed ((hash, value) ∷ entries) h v = Listed entries h v ⊎ ((fix_hash hash ≡ h) × (value ≡ v))

abbrev pub inserts : Entries → RobinHoodIndex
inserts [] = index_clear
inserts ((hash, value) ∷ entries) = index_insert hash value (inserts entries)

fix_hash-le : (h : ℕ) → 2 ≤ fix_hash h
unfolding fix_hash
fix_hash-le h = ground arith

-- a table that stands for a list of entries
record Represents (entries : Entries) (t : RobinHoodIndex) : Type 0 where
  pub valid : Valid t
  pub holds : (h v : ℕ) → 2 ≤ h → Holds t.capacity t.slots h v ↔ Listed entries h v
  pub counts : t.count ≡ length entries

clear-Represents : Represents [] index_clear
unfolding index_clear
clear-Represents = record {
  valid = record { sized = inl refl; table = λ slot b. inl refl; counted = refl; room = inl refl };
  holds = λ h v u. (λ (q, b, is). absurd (omega arith), λ x. absurd x);
  counts = refl;
}

insert-Represents :
    (entries : Entries) (hash value : ℕ) (t : RobinHoodIndex)
    → length entries < 52428
    → Represents entries t
    → Represents ((hash, value) ∷ entries) (index_insert hash value t)
unfolding index_insert
insert-Represents entries hash value t b h =
    let t' = make_room t in
    let ready = make_room-Ready t h.valid (omega (arith, h.counts)) in
    let used = fix_hash-le hash in
    let (positive, small) = IsSized-small t'.capacity ready.sized in
    let new =
      probe_insert-Inserted t'.capacity small (fix_hash hash) value t'.slots ready.table used
        (omega (arith, ready.counted, ready.room)) in
    record {
      valid = record {
        sized = inr ready.sized;
        table = new.table;
        counted = omega (arith, new.one_more, ready.counted);
        room = inr (omega (arith, ready.room));
      };
      holds = λ k v u.
          let before = ready.holds k v u in
          let now = h.holds k v u in
          (
            λ x. elim ((new.holds k v u).0 x) [ inl y ↦ inl (now.0 (before.0 y)) | inr y ↦ inr y ],
            λ x. (new.holds k v u).1 (elim x [ inl y ↦ inl (before.1 (now.1 y)) | inr y ↦ inr y ]),
          );
      counts = omega (arith, ready.same_count, h.counts);
    }

inserts-Represents :
    (entries : Entries) → length entries ≤ 52428 → Represents entries (inserts entries)
inserts-Represents [] b = clear-Represents
inserts-Represents ((hash, value) ∷ entries) b =
    insert-Represents entries hash value (inserts entries) (omega arith)
      (inserts-Represents entries (omega arith))

-- what a search may answer; it may not run out of fuel
abbrev pub Answers : Entries → ℕ → (ℕ → Bool) → Search → Type 0
Answers entries h matches (found v) = Listed entries h v × (matches v ≡ true)
Answers entries h matches missing = (v : ℕ) → Listed entries h v → matches v ≡ false
Answers entries h matches exhausted = ⊥

module _ (entries : Entries) (t : RobinHoodIndex) (r : Represents entries t)
    (matches : ℕ → Bool) where
  finds :
      (h v : ℕ)
      → 2 ≤ h
      → IsSized t.capacity
      → Holds t.capacity t.slots h v
      → matches v ≡ true
      → (w : ℕ) × (find_loop matches t.capacity t.capacity h (h % t.capacity) 0 t.slots ≡ found w)
  finds h v u s (q, b, is) m = from (r.valid.table q b)
    where
      from :
          ((t.slots q).hash ≡ 0) ⊎ IsPlaced t.capacity t.slots q (t.slots q)
          → (w : ℕ) × (find_loop matches t.capacity t.capacity h (h % t.capacity) 0 t.slots
              ≡ found w)
      from (inl free) = absurd (omega (arith, free, is.0))
      from (inr placed) =
          let d = (t.slots q).displacement in
          let home : probed t.capacity h d ≡ q =
            sym (ap (λ x. probed t.capacity x d) is.0) ∙ sym placed.home in
          find_loop-Finds matches t.capacity t.slots (IsSized-small t.capacity s).1 h u d
            placed.near
            (subst
              (λ x.
                ((t.slots x).hash ≡ h)
                × ((t.slots x).displacement ≡ d)
                × (matches (t.slots x).value ≡ true))
              (sym home) (is.0, refl, ap matches is.1 ∙ m))
            (subst
              (λ x.
                (i : ℕ)
                → i < d
                → (2 ≤ (t.slots (probed t.capacity x i)).hash)
                  × (i ≤ (t.slots (probed t.capacity x i)).displacement))
              is.0 placed.passed)
            t.capacity 0 (omega arith) (omega (arith, placed.near))

  loop-Ends :
      (h : ℕ)
      → IsSized t.capacity
      → Ends matches t.capacity t.slots
          (find_loop matches t.capacity t.capacity h (h % t.capacity) 0 t.slots)
  loop-Ends h s =
      let (positive, small) = IsSized-small t.capacity s in
      let room : used_below t.capacity t.slots < t.capacity = elim r.valid.room [
        | inl z ↦ absurd (omega (arith, z))
        | inr l ↦ omega (arith, r.valid.counted, l)
      ] in
      let (e, l, free) = empty_below t.slots t.capacity room in
      let (j, jl, there) = walked-reaches t.capacity (h % t.capacity) e (mod-lt h positive) l in
      find_loop-Ends matches t.capacity t.slots j t.capacity h (h % t.capacity) 0
        (ap (λ q. (t.slots q).hash) there ∙ free) jl

  loop-Answers :
      (h : ℕ)
      → 2 ≤ h
      → IsSized t.capacity
      → Answers entries h matches
          (find_loop matches t.capacity t.capacity h (h % t.capacity) 0 t.slots)
  loop-Answers h u s =
      from (find_loop matches t.capacity t.capacity h (h % t.capacity) 0 t.slots) refl
    where
      from :
          (o : Search)
          → find_loop matches t.capacity t.capacity h (h % t.capacity) 0 t.slots ≡ o
          → Answers entries h matches o
      from missing e = λ v l. elim (Bool-cases (matches v)) [
        | inl m ↦ let (w, f) = finds h v u s ((r.holds h v u).1 l) m in cc
        | inr m ↦ m
      ]
      from exhausted e = subst (Ends matches t.capacity t.slots) e (loop-Ends h s)
      from (found v) e =
          let start = mod-lt h (IsSized-small t.capacity s).0 in
          let (held, m) =
            find_loop-Holds matches t.capacity t.slots t.capacity h (h % t.capacity) 0 v start e in
          ((r.holds h v u).0 held, m)

  sized : (t.capacity == 0) ≡ false → IsSized t.capacity
  sized e = elim r.valid.sized [ inl z ↦ absurd (ground (arith, z, e)) | inr s ↦ s ]

-- After any insertions, 52428 at most, `find` ends within one turn for each slot of the table; it answers
-- with a value that was inserted under the hash and that the predicate accepts, and answers nothing
-- only where no such value was inserted.
pub index_find-Answers :
    (entries : Entries)
    → length entries ≤ 52428
    → (hash : ℕ) (matches : ℕ → Bool)
    → Answers entries (fix_hash hash) matches (index_find hash matches (inserts entries))
unfolding index_find
index_find-Answers entries b hash matches =
    let t = inserts entries in
    let h = fix_hash hash in
    let r = inserts-Represents entries b in
    let u = fix_hash-le hash in
    if_cases (Answers entries h matches) (t.capacity == 0) missing _
      (λ e v l. let (q, b', is) = (r.holds h v u).1 l in absurd (ground (arith, b', e)))
      (λ e. loop-Answers entries t r matches h u (sized entries t r matches e))
