-- ===== src/Core/Instruction/Refusals.antt =====
-- The numbers that `parse_instruction` refuses.
use putup.Prelude.{
  ℕ, ◌≡◌, ◌<◌, refl, ap, sym, ◌∙◌, true, false, not, ◌||◌, List, [], ◌∷◌, ◌++◌, append-nil,
  append_assoc, none, err, Bytes, All, if-true, if-false, arith, ltb, ◌⊎◌,
}
use putup.Core.Instruction.{
  AtomKind, Atom, Builder, is_nth, empty_builder, add_nth, render_instruction, kind_for_letter,
  is_numbered_flag, failed, InstructionError, unfinished, unexpected_letter, number_out_of_range,
  is_digit, digits_value, from_chars, continue_numbered, after_number, parse_instruction,
}
use putup.Core.Instruction.Spec.{Fits}
use putup.Core.Instruction.Turns.{fails, Reads-parse_instruction}
use putup.Core.Instruction.Reading.{parse_turn-percent, number_turn, ends_number}
use putup.Core.Instruction.Rendered.{add_atoms, Reads-render}

-- a number behind some atoms, and what follows it
Reads-number :
    {x : InstructionError} (atoms : List Atom) (d : ℕ) (ds rest : Bytes)
    → All Fits atoms
    → is_digit d ≡ true
    → All (λ c. is_digit c ≡ true) ds
    → ends_number rest ≡ true
    → ((b : Builder) → after_number (from_chars (d ∷ ds)) rest b ≡ failed x)
    → parse_instruction (render_instruction atoms ++ (b'%' ∷ d ∷ ds ++ rest)) ≡ err x
Reads-number atoms d ds rest f h a e refused = Reads-parse_instruction _ (
    Reads-render atoms (b'%' ∷ d ∷ ds ++ rest) empty_builder f (
      fails (
        parse_turn-percent (d ∷ ds ++ rest) (add_atoms atoms empty_builder)
        ∙ number_turn d ds rest (add_atoms atoms empty_builder) h a e
        ∙ refused (add_atoms atoms empty_builder))))

numbered_letter : (letter : ℕ) → is_numbered_flag letter ≡ true → is_digit letter ≡ false
numbered_letter letter h = ground arith

out_of_range :
    (ds : Bytes)
    → (digits_value 0 ds ≡ 0) ⊎ (98 < digits_value 0 ds)
    → (ltb (from_chars ds) 1 || ltb 98 (from_chars ds)) ≡ true
unfolding from_chars
out_of_range ds h = ground arith

add_nth-none :
    (k : AtomKind) (n : ℕ) (b : Builder) → (ltb n 1 || ltb 98 n) ≡ true → add_nth k n b ≡ none
unfolding add_nth
add_nth-none k n b h =
    if-true {b = not (is_nth k) || (ltb n 1 || ltb 98 n)} none _ (ground (arith, h))

-- Behind any atoms, a `%` and a number are refused when the text ends there, when a letter follows that
-- takes no number, and when the number is 0 or above 98, also where it is too large for an `int`.
pub parse_instruction-refuses :
    (atoms : List Atom) (d : ℕ) (ds : Bytes)
    → All Fits atoms
    → is_digit d ≡ true
    → All (λ c. is_digit c ≡ true) ds
    → let number : Bytes = d ∷ ds in
      let text : Bytes = render_instruction atoms ++ b'%' ∷ number in
      (parse_instruction text ≡ err (unfinished (from_chars number)))
      × ((letter : ℕ) (rest : Bytes)
          → is_digit letter ≡ false
          → is_numbered_flag letter ≡ false
          → parse_instruction (text ++ letter ∷ rest)
            ≡ err (unexpected_letter (from_chars number) letter))
      × ((letter : ℕ) (rest : Bytes)
          → is_numbered_flag letter ≡ true
          → (digits_value 0 number ≡ 0) ⊎ (98 < digits_value 0 number)
          → parse_instruction (text ++ letter ∷ rest)
            ≡ err (number_out_of_range (from_chars number)))
unfolding after_number
parse_instruction-refuses atoms d ds f h a = (
  ap (λ s. parse_instruction (render_instruction atoms ++ b'%' ∷ d ∷ s)) (sym (append-nil ds))
      ∙ Reads-number atoms d ds [] f h a refl (λ b. refl),
  λ letter rest e n.
      ap parse_instruction (append_assoc (render_instruction atoms) (b'%' ∷ d ∷ ds) (letter ∷ rest))
      ∙ Reads-number atoms d ds (letter ∷ rest) f h a (ap not e)
          (λ b. if-true {b = not (is_numbered_flag letter)} _ _ (ap not n)),
  λ letter rest e n.
      ap parse_instruction (append_assoc (render_instruction atoms) (b'%' ∷ d ∷ ds) (letter ∷ rest))
      ∙ Reads-number atoms d ds (letter ∷ rest) f h a (ap not (numbered_letter letter e)) (λ b.
        if-false {b = not (is_numbered_flag letter)} _ _ (ap not e)
        ∙ ap (continue_numbered (from_chars (d ∷ ds)) rest) (
            add_nth-none (kind_for_letter letter true) (from_chars (d ∷ ds)) b
              (out_of_range (d ∷ ds) n))),
)
