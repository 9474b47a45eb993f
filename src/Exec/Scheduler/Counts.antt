-- ===== src/Exec/Scheduler/Counts.antt =====
-- What the callbacks recorded, counted for one job, and the order that they must respect.
use putup.Prelude.{
  ℕ, suc, ◌+◌, ◌≤◌, ◌<◌, ◌≡◌, refl, true, false, List, [], ◌∷◌, none, some, count, ◌==◌,
  if◌then◌else◌, arith, Bool-cases, ==_iff, inl, inr,
}
use putup.Exec.Scheduler.{Event, started, completed, Slots}

abbrev pub starts : ℕ → List Event → ℕ
starts j [] = 0
starts j (started k ∷ log) = (if k == j then 1 else 0) + starts j log
starts j (completed k ok ∷ log) = starts j log

abbrev pub ends : ℕ → List Event → ℕ
ends j [] = 0
ends j (started k ∷ log) = ends j log
ends j (completed k ok ∷ log) = (if k == j then 1 else 0) + ends j log

-- the successful ends
abbrev pub oks : ℕ → List Event → ℕ
oks j [] = 0
oks j (started k ∷ log) = oks j log
oks j (completed k true ∷ log) = (if k == j then 1 else 0) + oks j log
oks j (completed k false ∷ log) = oks j log

pub oks-le-ends : (j : ℕ) (log : List Event) → oks j log ≤ ends j log
oks-le-ends j [] = omega arith
oks-le-ends j (started k ∷ log) = oks-le-ends j log
oks-le-ends j (completed k true ∷ log) = omega (arith, oks-le-ends j log)
oks-le-ends j (completed k false ∷ log) = omega (arith, oks-le-ends j log)

-- how many of the listed jobs have not ended well
abbrev pub pending : List ℕ → List Event → ℕ
pending [] log = 0
pending (d ∷ ds) log = (if oks d log == 0 then 1 else 0) + pending ds log

-- in how many slots the job is active
abbrev pub occurs : ℕ → Slots → ℕ
occurs j [] = 0
occurs j (none ∷ slots) = occurs j slots
occurs j (some k ∷ slots) = (if k == j then 1 else 0) + occurs j slots

abbrev pub active : Slots → ℕ
active [] = 0
active (none ∷ slots) = active slots
active (some k ∷ slots) = suc (active slots)

-- Every job was started after all that it depends on had ended well. The newest event stands first.
abbrev pub IsJustified : (ℕ → List ℕ) → List Event → Type 0
IsJustified deps [] = Unit
IsJustified deps (started j ∷ log) =
    ((d : ℕ) → 0 < count d (deps j) → 0 < oks d log) × IsJustified deps log
IsJustified deps (completed j ok ∷ log) = IsJustified deps log

pub pending-zero :
    (ds : List ℕ) (log : List Event) → pending ds log ≡ 0 → (d : ℕ) → 0 < count d ds → 0 < oks d log
pending-zero [] log h d m = absurd (omega arith)
pending-zero (x ∷ ds) log h d m = elim (Bool-cases (x == d)) [
  | inl here ↦ let same : x ≡ d = (==_iff x d).0 here in rw (← same) (ground arith)
  | inr away ↦ pending-zero ds log (omega arith) d (ground arith)
]

pub pending-all :
    (ds : List ℕ) (log : List Event)
    → ((d : ℕ) → 0 < count d ds → 0 < oks d log)
    → pending ds log ≡ 0
pending-all [] log h = refl
pending-all (x ∷ ds) log h = ground (arith, h x, pending-all ds log (λ d m. h d (omega arith)))

-- the first good end of `i` settles it in every list of dependencies
pub pending-completed :
    (ds : List ℕ) (i : ℕ) (log : List Event)
    → oks i log ≡ 0
    → pending ds (completed i true ∷ log) + count i ds ≡ pending ds log
pending-completed [] i log h = omega arith
pending-completed (x ∷ ds) i log h = elim (Bool-cases (x == i)) [
  | inl here ↦
      let same : x ≡ i = (==_iff x i).0 here in rw same (ground (arith, pending-completed ds i log))
  | inr away ↦ ground (arith, pending-completed ds i log)
]

abbrev pub goods : List Event → ℕ
goods [] = 0
goods (started k ∷ log) = goods log
goods (completed k true ∷ log) = suc (goods log)
goods (completed k false ∷ log) = goods log

abbrev pub bads : List Event → ℕ
bads [] = 0
bads (started k ∷ log) = bads log
bads (completed k true ∷ log) = bads log
bads (completed k false ∷ log) = suc (bads log)

-- An event that is no good end settles nothing.
pub pending-same :
    (ds : List ℕ) (log log' : List Event)
    → ((d : ℕ) → oks d log' ≡ oks d log)
    → pending ds log' ≡ pending ds log
pending-same [] log log' h = refl
pending-same (d ∷ ds) log log' h = rw (h d, pending-same ds log log' h) refl
