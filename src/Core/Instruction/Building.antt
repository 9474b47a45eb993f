-- ===== src/Core/Instruction/Building.antt =====
-- What the builder's operations do to the atoms.
use putup.Prelude.{
  ℕ, ◌≡◌, refl, ◌∙◌, Bool, false, ◌&&◌, List, [], ◌∷◌, ◌++◌, Bytes, is_nil, All, All-append,
  if_cases, arith,
}
use putup.Core.Instruction.{
  literal, Atom, Builder, is_literal, empty_builder, flush, add_literal, add_char, push_atom,
  take_atoms,
}
use putup.Core.Instruction.Spec.{Fits, literal_fits, IsSpaced, IsInstruction}

abbrev pub text_atom : Bytes → Atom
text_atom t = record { kind = literal; operand = 0; text = t }

abbrev pub builder : Bytes → List Atom → Builder
builder t atoms = record { pending = t; atoms = atoms }

-- whether the last atom is a literal
abbrev pub ends : Bool → List Atom → Bool
ends before [] = before
ends before (atom ∷ atoms) = ends (is_literal atom.kind) atoms

IsSpaced-append :
    (before : Bool) (xs ys : List Atom)
    → IsSpaced before xs
    → IsSpaced (ends before xs) ys
    → IsSpaced before (xs ++ ys)
IsSpaced-append before [] ys s t = t
IsSpaced-append before (x ∷ xs) ys (e, s) t = (e, IsSpaced-append (is_literal x.kind) xs ys s t)

ends-snoc :
    (before : Bool) (xs : List Atom) (x : Atom) → ends before (xs ++ x ∷ []) ≡ is_literal x.kind
ends-snoc before [] x = refl
ends-snoc before (y ∷ xs) x = ends-snoc (is_literal y.kind) xs x

-- Between two turns no literal is the last atom: it is still pending.
pub record IsOpen (b : Builder) : Type 0 where
  pub fits : All Fits b.atoms
  pub spaced : IsSpaced false b.atoms
  pub last : ends false b.atoms ≡ false

pub empty-IsOpen : IsOpen empty_builder
empty-IsOpen = record { fits = tt; spaced = tt; last = refl }

pub add_literal-IsOpen : (t : Bytes) (b : Builder) → IsOpen b → IsOpen (add_literal t b)
unfolding add_literal
add_literal-IsOpen t b h =
    if_cases IsOpen (is_nil t) b _ (λ _. h)
      (λ _. record { fits = h.fits; spaced = h.spaced; last = h.last })

pub add_char-IsOpen : (c : ℕ) (b : Builder) → IsOpen b → IsOpen (add_char c b)
add_char-IsOpen c b h = record { fits = h.fits; spaced = h.spaced; last = h.last }

-- an atom behind others
snoc-IsInstruction :
    (xs : List Atom) (x : Atom)
    → All Fits xs
    → IsSpaced false xs
    → (ends false xs && is_literal x.kind) ≡ false
    → Fits x
    → IsInstruction (xs ++ x ∷ [])
snoc-IsInstruction xs x f s e fx = record {
  fits = All-append Fits xs (x ∷ []) f (fx, tt);
  spaced = IsSpaced-append false xs (x ∷ []) s (e, tt);
}

pub take_atoms-IsInstruction : (b : Builder) → IsOpen b → IsInstruction (take_atoms b)
unfolding take_atoms flush
take_atoms-IsInstruction b h =
    if_cases {A = Builder} (λ c. IsInstruction c.atoms) (is_nil b.pending) b _
      (λ _. record { fits = h.fits; spaced = h.spaced })
      (λ e.
        snoc-IsInstruction b.atoms (text_atom b.pending) h.fits h.spaced (rw h.last refl)
          (literal_fits e))

pub push_atom-IsOpen :
    (x : Atom) (b : Builder)
    → Fits x
    → is_literal x.kind ≡ false
    → IsOpen b
    → IsOpen (push_atom x b)
unfolding push_atom take_atoms
push_atom-IsOpen x b f plain h =
    let now = take_atoms-IsInstruction b h in
    let then' =
      snoc-IsInstruction (flush b).atoms x now.fits now.spaced (ground (arith, plain)) f in
    record {
      fits = then'.fits;
      spaced = then'.spaced;
      last = ends-snoc false (flush b).atoms x ∙ plain;
    }
