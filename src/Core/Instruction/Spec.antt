-- ===== src/Core/Instruction/Spec.antt =====
-- The atoms that an `InstructionBuilder` can make.
use putup.Prelude.{
  ℕ, ◌≡◌, ◌≤◌, Bool, true, false, not, ◌&&◌, List, [], ◌∷◌, Bytes, is_nil, count, All,
}
use putup.Core.Instruction.{AtomKind, literal, group_ref, Atom, is_nth, is_literal, is_group_ref}

-- a flag without a number
abbrev pub is_flag : AtomKind → Bool
is_flag k = not (is_literal k) && (not (is_group_ref k) && not (is_nth k))

-- one atom
pub data Fits : Atom → Type 0 where
  literal_fits :
      {t : Bytes} → is_nil t ≡ false → Fits (record { kind = literal; operand = 0; text = t })
  group_ref_fits :
      {t : Bytes} → count b'>' t ≡ 0 → Fits (record { kind = group_ref; operand = 0; text = t })
  flag_fits : {k : AtomKind} → is_flag k ≡ true → Fits (record { kind = k; operand = 0; text = [] })
  nth_fits :
      {k : AtomKind} {n : ℕ}
      → is_nth k ≡ true
      → 1 ≤ n
      → n ≤ 98
      → Fits (record { kind = k; operand = n; text = [] })

-- no literal follows a literal; the `Bool` says whether one stands before
abbrev pub IsSpaced : Bool → List Atom → Type 0
IsSpaced before [] = Unit
IsSpaced before (atom ∷ atoms) =
    ((before && is_literal atom.kind) ≡ false) × IsSpaced (is_literal atom.kind) atoms

pub record IsInstruction (atoms : List Atom) : Type 0 where
  pub fits : All Fits atoms
  pub spaced : IsSpaced false atoms
