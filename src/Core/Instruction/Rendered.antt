-- ===== src/Core/Instruction/Rendered.antt =====
-- How rendered atoms are read.
use putup.Prelude.{
  ℕ, ◌≡◌, ap, sym, subst, ◌∙◌, true, false, List, [], ◌∷◌, ◌++◌, append_assoc, Result, Bytes, All,
  if◌then◌else◌, if-true, if-false, arith,
}
use putup.Core.Instruction.{
  AtomKind, Atom, Builder, is_nth, letter_of, is_literal, is_group_ref, add_literal, push_atom,
  add_flag, add_group_ref, decimal, render_flag, render_atom, render_instruction, InstructionError,
}
use putup.Core.Instruction.Spec.{is_flag, Fits, literal_fits, group_ref_fits, flag_fits, nth_fits}
use putup.Core.Instruction.Turns.{Reads, goes_on}
use putup.Core.Instruction.Reading.{
  parse_turn-percent, Reads-escape, flag_turn, group_turn, nth_turn,
}

-- what a builder does with an atom that is read
abbrev pub add_atom : Atom → Builder → Builder
add_atom atom b = if is_literal atom.kind then add_literal atom.text b else push_atom atom b

abbrev pub add_atoms : List Atom → Builder → Builder
add_atoms [] b = b
add_atoms (atom ∷ atoms) b = add_atoms atoms (add_atom atom b)

pub flag_shape :
    (k : AtomKind)
    → is_flag k ≡ true
    → (is_literal k ≡ false) × (is_group_ref k ≡ false) × (is_nth k ≡ false)
flag_shape k h = ground (arith, h)

pub nth_shape : (k : AtomKind) → is_nth k ≡ true → (is_literal k ≡ false) × (is_group_ref k ≡ false)
unfolding is_nth
nth_shape k h = ground (arith, h)

render-flag :
    (k : AtomKind) (n : ℕ) (t : Bytes)
    → is_literal k ≡ false
    → is_group_ref k ≡ false
    → render_atom (record { kind = k; operand = n; text = t }) ≡ render_flag k n
unfolding render_atom
render-flag k n t l g = if-false _ _ l ∙ if-false _ _ g

render_flag-plain : (k : AtomKind) → is_nth k ≡ false → render_flag k 0 ≡ b'%' ∷ letter_of k ∷ []
unfolding render_flag
render_flag-plain k h = ap (λ ds. b'%' ∷ ds ++ letter_of k ∷ []) (if-false (decimal 0) [] h)

render_flag-nth :
    (k : AtomKind) (n : ℕ)
    → is_nth k ≡ true
    → render_flag k n ≡ b'%' ∷ decimal n ++ letter_of k ∷ []
unfolding render_flag
render_flag-nth k n h = ap (λ ds. b'%' ∷ ds ++ letter_of k ∷ []) (if-true (decimal n) [] h)

module _ {r : Result InstructionError (List Atom)} where
  Reads-atom :
      (atom : Atom) (rest : Bytes) (b : Builder)
      → Fits atom
      → Reads rest (add_atom atom b) r
      → Reads (render_atom atom ++ rest) b r
  unfolding render_atom add_flag add_group_ref
  Reads-atom _ rest b (literal_fits {t} h) d = Reads-escape t rest b d
  Reads-atom _ rest b (group_ref_fits {t} h) d =
      subst (λ s. Reads (b'%' ∷ b'<' ∷ s) b r) (sym (append_assoc t (b'>' ∷ []) rest))
        (goes_on (parse_turn-percent (b'<' ∷ t ++ b'>' ∷ rest) b ∙ group_turn t rest b h) d)
  Reads-atom _ rest b (flag_fits {k} h) d =
      let (l, g, n) = flag_shape k h in
      subst (λ s. Reads (s ++ rest) b r) (sym (render-flag k 0 [] l g ∙ render_flag-plain k n))
        (goes_on (parse_turn-percent (letter_of k ∷ rest) b ∙ flag_turn k rest b h)
          (subst (λ x. Reads rest x r) (if-false _ _ l) d))
  Reads-atom _ rest b (nth_fits {k} {n} h lo hi) d =
      let (l, g) = nth_shape k h in
      subst (λ s. Reads (s ++ rest) b r) (sym (render-flag k n [] l g ∙ render_flag-nth k n h))
        (subst (λ s. Reads (b'%' ∷ s) b r) (sym (append_assoc (decimal n) (letter_of k ∷ []) rest))
          (goes_on
            (parse_turn-percent (decimal n ++ letter_of k ∷ rest) b ∙ nth_turn k n rest b h lo hi)
            (subst (λ x. Reads rest x r) (if-false _ _ l) d)))

  pub Reads-render :
      (atoms : List Atom) (rest : Bytes) (b : Builder)
      → All Fits atoms
      → Reads rest (add_atoms atoms b) r
      → Reads (render_instruction atoms ++ rest) b r
  unfolding render_instruction
  Reads-render [] rest b f d = d
  Reads-render (atom ∷ atoms) rest b (h, f) d =
      subst (λ s. Reads s b r)
        (sym (append_assoc (render_atom atom) (render_instruction atoms) rest))
        (Reads-atom atom (render_instruction atoms ++ rest) b h
          (Reads-render atoms rest (add_atom atom b) f d))
