-- ===== src/Core/Instruction.antt =====
-- src/core/instruction.cpp: a command template as a list of atoms, and the text that records it.
pub mod Spec
mod Building
pub mod Turns
mod Reading
mod Rendered
pub mod RoundTrip
pub mod Refusals
use putup.Prelude.{
  ℕ, zero, suc, ◌+◌, ◌-◌, ◌*◌, ◌/◌, ◌%◌, Bool, true, false, not, ◌&&◌, ◌||◌, List, [], ◌∷◌, ◌++◌,
  Option, none, some, Result, ok, err, Bytes, codes, is_nil, length, leb, ltb, cut, ◌==◌,
  if◌then◌else◌,
}

pub data AtomKind : Type 0 where
  literal group_ref all_inputs order_only_inputs input_base input_no_ext input_ext all_outputs
        output_no_ext input_dir nth_input nth_input_base nth_input_no_ext nth_order_only_input
        nth_output :
      AtomKind

-- A flag has the operand 0 and no text, as has a literal the operand 0.
pub record Atom : Type 0 where
  pub kind : AtomKind
  pub operand : ℕ
  pub text : Bytes

unfoldable pub is_nth : AtomKind → Bool
is_nth literal = false
is_nth group_ref = false
is_nth all_inputs = false
is_nth order_only_inputs = false
is_nth input_base = false
is_nth input_no_ext = false
is_nth input_ext = false
is_nth all_outputs = false
is_nth output_no_ext = false
is_nth input_dir = false
is_nth nth_input = true
is_nth nth_input_base = true
is_nth nth_input_no_ext = true
is_nth nth_order_only_input = true
is_nth nth_output = true

unfoldable pub letter_of : AtomKind → ℕ
letter_of literal = 0
letter_of group_ref = 0
letter_of all_inputs = b'f'
letter_of order_only_inputs = b'i'
letter_of input_base = b'b'
letter_of input_no_ext = b'B'
letter_of input_ext = b'e'
letter_of all_outputs = b'o'
letter_of output_no_ext = b'O'
letter_of input_dir = b'd'
letter_of nth_input = b'f'
letter_of nth_input_base = b'b'
letter_of nth_input_no_ext = b'B'
letter_of nth_order_only_input = b'i'
letter_of nth_output = b'o'

unfoldable pub kind_for_letter : ℕ → Bool → AtomKind
kind_for_letter letter true =
    if letter == b'f'
    then nth_input
    else if letter == b'b'
    then nth_input_base
    else if letter == b'B'
    then nth_input_no_ext
    else if letter == b'i'
    then nth_order_only_input
    else nth_output
kind_for_letter letter false =
    if letter == b'f'
    then all_inputs
    else if letter == b'i'
    then order_only_inputs
    else if letter == b'b'
    then input_base
    else if letter == b'B'
    then input_no_ext
    else if letter == b'e'
    then input_ext
    else if letter == b'o'
    then all_outputs
    else if letter == b'O'
    then output_no_ext
    else input_dir

unfoldable pub is_unnumbered_flag : ℕ → Bool
is_unnumbered_flag letter =
    letter == b'f'
    || (letter == b'i'
        || (letter == b'b'
            || (letter == b'B'
                || (letter == b'e' || (letter == b'o' || (letter == b'O' || letter == b'd'))))))

-- `InstructionBuilder`: the text that no atom holds yet, and the atoms
pub record Builder : Type 0 where
  pub pending : Bytes
  pub atoms : List Atom

abbrev pub empty_builder : Builder
empty_builder = record { pending = []; atoms = [] }

unfoldable pub flush : Builder → Builder
flush b = if is_nil b.pending then b else record {
  pending = [];
  atoms = b.atoms ++ record { kind = literal; operand = 0; text = b.pending } ∷ [];
}

unfoldable pub add_literal : Bytes → Builder → Builder
add_literal text b = if is_nil text then b else record b { pending = b.pending ++ text }

abbrev pub add_char : ℕ → Builder → Builder
add_char c b = record b { pending = b.pending ++ c ∷ [] }

-- `m_atoms.push_back(atom)` behind `flush()`
unfoldable pub push_atom : Atom → Builder → Builder
push_atom atom b = let b' = flush b in record b' { atoms = b'.atoms ++ atom ∷ [] }

unfoldable pub add_flag : AtomKind → Builder → Builder
add_flag k b = push_atom (record { kind = k; operand = 0; text = [] }) b

-- `none` where nothing is added
unfoldable pub add_nth : AtomKind → ℕ → Builder → Option Builder
add_nth k n b =
    if not (is_nth k) || (ltb n 1 || ltb 98 n)
    then none
    else some (push_atom (record { kind = k; operand = n; text = [] }) b)

unfoldable pub add_group_ref : Bytes → Builder → Builder
add_group_ref name b = push_atom (record { kind = group_ref; operand = 0; text = name }) b

unfoldable pub take_atoms : Builder → List Atom
take_atoms b = (flush b).atoms

-- a literal's own `%` is written twice
unfoldable pub escape : Bytes → Bytes
escape [] = []
escape (c ∷ text) = if c == b'%' then b'%' ∷ c ∷ escape text else c ∷ escape text

-- `{}` for a number below 1000, as is each `uint8_t`
unfoldable pub decimal : ℕ → Bytes
decimal n =
    if ltb n 10
    then (48 + n) ∷ []
    else if ltb n 100
    then (48 + n / 10) ∷ (48 + n % 10) ∷ []
    else (48 + n / 100) ∷ (48 + n / 10 % 10) ∷ (48 + n % 10) ∷ []

abbrev pub is_literal : AtomKind → Bool
is_literal literal = true
is_literal _ = false

abbrev pub is_group_ref : AtomKind → Bool
is_group_ref group_ref = true
is_group_ref _ = false

-- `%`, the operand if there is one, and the letter
unfoldable pub render_flag : AtomKind → ℕ → Bytes
render_flag k n = b'%' ∷ (if is_nth k then decimal n else []) ++ letter_of k ∷ []

-- the cases of the `switch`
unfoldable pub render_atom : Atom → Bytes
render_atom atom =
    if is_literal atom.kind
    then escape atom.text
    else if is_group_ref atom.kind
    then codes "%<" ++ atom.text ++ b'>' ∷ []
    else render_flag atom.kind atom.operand

unfoldable pub render_instruction : List Atom → Bytes
render_instruction [] = []
render_instruction (atom ∷ atoms) = render_atom atom ++ render_instruction atoms

-- the errors of `ErrorCode::ParseError`, with what their messages name
pub data InstructionError : Type 0 where
  unfinished : ℕ → InstructionError
  unexpected_letter : ℕ → ℕ → InstructionError
  number_out_of_range : ℕ → InstructionError

-- what a turn of the loop leads to
pub data Turn : Type 0 where
  done : Builder → Turn
  more : Bytes → Builder → Turn
  failed : InstructionError → Turn

abbrev pub is_digit : ℕ → Bool
is_digit c = leb 48 c && leb c 57

-- the digits at the beginning, and what follows them
unfoldable pub span_digits : Bytes → Bytes × Bytes
span_digits [] = ([], [])
span_digits (c ∷ t) =
    let rest = span_digits t in if is_digit c then (c ∷ rest.0, rest.1) else ([], c ∷ t)

unfoldable pub digits_value : ℕ → Bytes → ℕ
digits_value n [] = n
digits_value n (c ∷ t) = digits_value (n * 10 + (c - 48)) t

-- `from_chars` into an `int` that is 0: a number out of its range is not stored
unfoldable pub from_chars : Bytes → ℕ
from_chars digits = if ltb 2147483647 (digits_value 0 digits) then 0 else digits_value 0 digits

-- the letters that may follow a number
abbrev pub is_numbered_flag : ℕ → Bool
is_numbered_flag letter =
    letter == b'f' || (letter == b'b' || (letter == b'B' || (letter == b'o' || letter == b'i')))

abbrev pub continue_numbered : ℕ → Bytes → Option Builder → Turn
continue_numbered num rest none = failed (number_out_of_range num)
continue_numbered num rest (some b) = more rest b

-- behind the digits of a number
unfoldable pub after_number : ℕ → Bytes → Builder → Turn
after_number num [] b = failed (unfinished num)
after_number num (letter ∷ rest) b =
    if not (is_numbered_flag letter)
    then failed (unexpected_letter num letter)
    else continue_numbered num rest (add_nth (kind_for_letter letter true) num b)

unfoldable pub after_group : Bytes → Builder → Turn
after_group rest b = elim (cut b'>' rest) [
  | none ↦ more rest (add_literal (codes "%<") b)
  | some (name, after) ↦ more after (add_group_ref name b)
]

-- behind a `%`
unfoldable pub after_percent : Bytes → Builder → Turn
after_percent [] b = more [] (add_char b'%' b)
after_percent (c ∷ rest) b =
    if c == b'%'
    then more rest (add_char b'%' b)
    else if is_digit c
    then after_number (from_chars (c ∷ (span_digits rest).0)) (span_digits rest).1 b
    else if c == b'<'
    then after_group rest b
    else if is_unnumbered_flag c
    then more rest (add_flag (kind_for_letter c false) b)
    else more rest (add_char c (add_char b'%' b))

-- one turn of the loop of `parse_instruction`; at the end of the text it adds nothing
unfoldable pub parse_turn : Bytes → Builder → Turn
parse_turn text b = elim (cut b'%' text) [
  | none ↦ done (add_literal text b)
  | some (before, after) ↦ after_percent after (add_literal before b)
]

-- Each turn leaves a shorter text.
unfoldable pub parse_loop : ℕ → Bytes → Builder → Result InstructionError (List Atom)
parse_loop zero text b = ok (take_atoms b)
parse_loop (suc fuel) text b = elim (parse_turn text b) [
  | done b' ↦ ok (take_atoms b')
  | more text' b' ↦ parse_loop fuel text' b'
  | failed e ↦ err e
]

unfoldable pub parse_instruction : Bytes → Result InstructionError (List Atom)
parse_instruction text = parse_loop (suc (length text)) text empty_builder
