-- ===== src/Samples/InstructionSamples.antt =====
-- Command templates, rendered and parsed.
use putup.Prelude.{
  ◌≡◌, ◌++◌, ◌∷◌, [], ℕ, ◌<◌, ◌⊎◌, refl, true, false, List, Bytes, codes, ok, err, cut, arith,
}
use putup.Core.Instruction.{
  literal, group_ref, all_inputs, nth_output, Atom, empty_builder, parse_instruction, parse_loop,
  parse_turn, after_percent, after_number, after_group, add_literal, add_flag, add_nth,
  add_group_ref, push_atom, flush, take_atoms, kind_for_letter, is_nth, is_unnumbered_flag,
  is_numbered_flag, is_digit, span_digits, digits_value, from_chars, render_instruction, unfinished,
  unexpected_letter, number_out_of_range,
}
use putup.Core.Instruction.Spec.{IsInstruction, literal_fits, flag_fits, nth_fits, group_ref_fits}
use putup.Core.Instruction.Turns.{Reads, parse_instruction-IsInstruction}
use putup.Core.Instruction.RoundTrip.{parse_instruction-render_instruction}
use putup.Core.Instruction.Refusals.{parse_instruction-refuses}

abbrev template : Bytes
template = codes "cc %f -D100%% -o %1o %<lib>"

abbrev compile : List Atom
compile =
    record { kind = literal; operand = 0; text = codes "cc " }
    ∷ record { kind = all_inputs; operand = 0; text = [] }
    ∷ record { kind = literal; operand = 0; text = codes " -D100% -o " }
    ∷ record { kind = nth_output; operand = 1; text = [] }
    ∷ record { kind = literal; operand = 0; text = codes " " }
    ∷ record { kind = group_ref; operand = 0; text = codes "lib" }
    ∷ []

template_parsed : parse_instruction template ≡ ok compile
unfolding parse_instruction parse_loop parse_turn after_percent after_number after_group add_literal
    add_flag add_nth add_group_ref push_atom flush take_atoms kind_for_letter is_nth
    is_unnumbered_flag span_digits digits_value from_chars cut
template_parsed = refl

compile-IsInstruction : IsInstruction compile
unfolding is_nth
compile-IsInstruction = record {
  fits = (
    literal_fits refl,
    (
      flag_fits refl,
      (
        literal_fits refl,
        (nth_fits refl (omega arith) (omega arith), (literal_fits refl, (group_ref_fits refl, tt))),
      ),
    ),
  );
  spaced = (refl, (refl, (refl, (refl, (refl, (refl, tt))))));
}

parse_instruction-IsInstruction_example :
    Reads template empty_builder (parse_instruction template)
    × ((atoms : List Atom) → parse_instruction template ≡ ok atoms → IsInstruction atoms)
parse_instruction-IsInstruction_example = parse_instruction-IsInstruction template

parse_instruction-render_instruction_example :
    parse_instruction (render_instruction compile) ≡ ok compile
parse_instruction-render_instruction_example =
    parse_instruction-render_instruction compile compile-IsInstruction

abbrev ninety_nine : Bytes
ninety_nine = codes "99"

parse_instruction-refuses_example :
    (parse_instruction (render_instruction compile ++ b'%' ∷ ninety_nine)
      ≡ err (unfinished (from_chars ninety_nine)))
    × ((letter : ℕ) (rest : Bytes)
        → is_digit letter ≡ false
        → is_numbered_flag letter ≡ false
        → parse_instruction ((render_instruction compile ++ b'%' ∷ ninety_nine) ++ letter ∷ rest)
          ≡ err (unexpected_letter (from_chars ninety_nine) letter))
    × ((letter : ℕ) (rest : Bytes)
        → is_numbered_flag letter ≡ true
        → (digits_value 0 ninety_nine ≡ 0) ⊎ (98 < digits_value 0 ninety_nine)
        → parse_instruction ((render_instruction compile ++ b'%' ∷ ninety_nine) ++ letter ∷ rest)
          ≡ err (number_out_of_range (from_chars ninety_nine)))
parse_instruction-refuses_example =
    parse_instruction-refuses compile b'9' (b'9' ∷ []) compile-IsInstruction.fits refl (refl, tt)

numbers_up_to_98 : parse_instruction (codes "%99f") ≡ err (number_out_of_range 99)
unfolding parse_instruction parse_loop parse_turn after_percent after_number add_literal add_nth
    kind_for_letter is_nth span_digits digits_value from_chars cut
numbers_up_to_98 = refl
