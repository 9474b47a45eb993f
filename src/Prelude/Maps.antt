-- ===== src/Prelude/Maps.antt =====
-- Maps from native numbers as functions, with the default that an absent key reads.
use Prim.Native.Nat.{ℕ}
use putup.Prelude.Tests.{◌==◌, if◌then◌else◌}

abbrev pub update {ℓ} : {Value : Type ℓ} (map : ℕ → Value) (key : ℕ) (value : Value) → ℕ → Value
update map key value = λ k. if k == key then value else map k
