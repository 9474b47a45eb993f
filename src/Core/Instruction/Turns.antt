-- ===== src/Core/Instruction/Turns.antt =====
-- One turn of `parse_instruction`, and the whole loop.
use putup.Prelude.{
  ℕ, zero, suc, ◌≡◌, ◌≤◌, ◌<◌, refl, ap, sym, subst, ◌∙◌, true, false, not, ◌||◌, List, [], ◌∷◌,
  Option, none, some, Result, ok, err, Bytes, codes, length, length-append, cut, IsCut, cut-IsCut,
  if_cases, arith, ltb, ◌==◌,
}
use putup.Core.Instruction.{
  AtomKind, literal, Atom, Builder, is_nth, is_literal, empty_builder, add_literal, add_flag,
  add_nth, add_group_ref, take_atoms, kind_for_letter, is_unnumbered_flag, is_numbered_flag, Turn,
  done, more, failed, InstructionError, is_digit, span_digits, continue_numbered, after_number,
  after_group, after_percent, parse_turn, parse_loop, parse_instruction,
}
use putup.Core.Instruction.Spec.{is_flag, group_ref_fits, flag_fits, nth_fits, IsInstruction}
use putup.Core.Instruction.Building.{
  IsOpen, empty-IsOpen, add_literal-IsOpen, add_char-IsOpen, take_atoms-IsInstruction,
  push_atom-IsOpen,
}

-- a turn that leaves less than `n` bytes, and a builder with sound atoms
abbrev Leaves : ℕ → Turn → Type 0
Leaves n (done b) = IsOpen b
Leaves n (more text b) = (length text < n) × IsOpen b
Leaves n (failed e) = Unit

Leaves-le : (n k : ℕ) (s : Turn) → n ≤ k → Leaves n s → Leaves k s
Leaves-le n k (done b) h l = l
Leaves-le n k (more text b) h (l, o) = (omega arith, o)
Leaves-le n k (failed e) h l = tt

numbered_kind : (letter : ℕ) → is_nth (kind_for_letter letter true) ≡ true
unfolding kind_for_letter is_nth
numbered_kind letter = ground arith

plain_kind : (letter : ℕ) → is_flag (kind_for_letter letter false) ≡ true
unfolding kind_for_letter is_nth
plain_kind letter = ground arith

nth_plain : (k : AtomKind) → is_nth k ≡ true → is_literal k ≡ false
unfolding is_nth
nth_plain literal h = cc
nth_plain k h = ground (arith, h)

add_nth-Leaves :
    (letter num n : ℕ) (rest : Bytes) (b : Builder)
    → length rest < n
    → IsOpen b
    → Leaves n (continue_numbered num rest (add_nth (kind_for_letter letter true) num b))
unfolding add_nth
add_nth-Leaves letter num n rest b l h =
    let k = kind_for_letter letter true in
    let nth = numbered_kind letter in
    if_cases {A = Option Builder} (λ o. Leaves n (continue_numbered num rest o))
      (not (is_nth k) || (ltb num 1 || ltb 98 num)) none _ (λ _. tt)
      (λ e.
        (l, push_atom-IsOpen _ b (nth_fits nth (ground arith) (ground arith)) (nth_plain k nth) h))

after_number-Leaves :
    (num n : ℕ) (rest : Bytes) (b : Builder)
    → length rest ≤ n
    → IsOpen b
    → Leaves n (after_number num rest b)
unfolding after_number
after_number-Leaves num n [] b l h = tt
after_number-Leaves num n (letter ∷ rest) b l h =
    if_cases (Leaves n) (not (is_numbered_flag letter)) _ _ (λ _. tt)
      (λ _. add_nth-Leaves letter num n rest b (omega arith) h)

length-span_digits : (t : Bytes) → length (span_digits t).1 ≤ length t
unfolding span_digits
length-span_digits [] = omega arith
length-span_digits (c ∷ t) =
    if_cases {A = Bytes × Bytes} (λ q. length q.1 ≤ suc (length t)) (is_digit c) _ _
      (λ _. omega (arith, length-span_digits t)) (λ _. omega arith)

after_group-Leaves :
    (rest : Bytes) (b : Builder) → IsOpen b → Leaves (suc (length rest)) (after_group rest b)
unfolding after_group add_group_ref
after_group-Leaves rest b h = from (cut b'>' rest) (cut-IsCut b'>' rest)
  where
    from :
        (o : Option (Bytes × Bytes))
        → IsCut b'>' rest o
        → Leaves (suc (length rest)) (elim o [
          | none ↦ more rest (add_literal (codes "%<") b)
          | some (name, after) ↦ more after (add_group_ref name b)
        ])
    from none e = (omega arith, add_literal-IsOpen (codes "%<") b h)
    from (some (name, after)) (e, c) = (
      omega (arith, ap length e, length-append name (b'>' ∷ after)),
      push_atom-IsOpen _ b (group_ref_fits c) refl h,
    )

after_percent-Leaves :
    (rest : Bytes) (b : Builder) → IsOpen b → Leaves (suc (length rest)) (after_percent rest b)
unfolding after_percent add_flag
after_percent-Leaves [] b h = (omega arith, add_char-IsOpen b'%' b h)
after_percent-Leaves (c ∷ rest) b h =
    let n = suc (suc (length rest)) in
    if_cases (Leaves n) (c == b'%') _ _ (λ _. (omega arith, add_char-IsOpen b'%' b h))
      (λ _.
        if_cases (Leaves n) (is_digit c) _ _
          (λ _.
            after_number-Leaves _ n (span_digits rest).1 b (omega (arith, length-span_digits rest))
              h)
          (λ _.
            if_cases (Leaves n) (c == b'<') _ _
              (λ _. Leaves-le (suc (length rest)) n _ (omega arith) (after_group-Leaves rest b h))
              (λ _.
                if_cases (Leaves n) (is_unnumbered_flag c) _ _
                  (λ _. (
                    omega arith,
                    push_atom-IsOpen _ b (flag_fits (plain_kind c)) (ground (arith, plain_kind c))
                        h,
                  ))
                  (λ _. (omega arith, add_char-IsOpen c _ (add_char-IsOpen b'%' b h))))))

pub parse_turn-Leaves :
    (text : Bytes) (b : Builder) → IsOpen b → Leaves (length text) (parse_turn text b)
unfolding parse_turn
parse_turn-Leaves text b h = from (cut b'%' text) (cut-IsCut b'%' text)
  where
    from :
        (o : Option (Bytes × Bytes))
        → IsCut b'%' text o
        → Leaves (length text) (elim o [
          | none ↦ done (add_literal text b)
          | some (before, after) ↦ after_percent after (add_literal before b)
        ])
    from none e = add_literal-IsOpen text b h
    from (some (before, after)) (e, c) =
        Leaves-le (suc (length after)) (length text) _
          (omega (arith, ap length e, length-append before (b'%' ∷ after)))
          (after_percent-Leaves after (add_literal before b) (add_literal-IsOpen before b h))

-- The turns from some text on, to the result that they reach.
pub data Reads : Bytes → Builder → Result InstructionError (List Atom) → Type 0 where
  ends_here :
      {text : Bytes} {b b' : Builder}
      → parse_turn text b ≡ done b'
      → Reads text b (ok (take_atoms b'))
  goes_on :
      {text text' : Bytes} {b b' : Builder} {r : Result InstructionError (List Atom)}
      → parse_turn text b ≡ more text' b'
      → Reads text' b' r
      → Reads text b r
  fails :
      {text : Bytes} {b : Builder} {e : InstructionError}
      → parse_turn text b ≡ failed e
      → Reads text b (err e)

abbrev after_turn : ℕ → Turn → Result InstructionError (List Atom)
after_turn fuel (done b) = ok (take_atoms b)
after_turn fuel (more text b) = parse_loop fuel text b
after_turn fuel (failed e) = err e

parse_loop-parse_turn :
    (fuel : ℕ) (text : Bytes) (b : Builder)
    → parse_loop (suc fuel) text b ≡ after_turn fuel (parse_turn text b)
unfolding parse_loop
parse_loop-parse_turn fuel text b = from (parse_turn text b)
  where
    from :
        (s : Turn)
        → (elim s as (λ s. Result InstructionError (List Atom)) [
          | done b' ↦ ok (take_atoms b')
          | more text' b' ↦ parse_loop fuel text' b'
          | failed e ↦ err e
        ])
          ≡ after_turn fuel s
    from (done b) = refl
    from (more text b) = refl
    from (failed e) = refl

pub parse_loop-Reads :
    (fuel : ℕ) (text : Bytes) (b : Builder)
    → length text < fuel
    → IsOpen b
    → Reads text b (parse_loop fuel text b)
parse_loop-Reads zero text b l h = absurd (omega arith)
parse_loop-Reads (suc fuel) text b l h =
    subst (Reads text b) (sym (parse_loop-parse_turn fuel text b)) (
      from (λ text' b' n v. parse_loop-Reads fuel text' b' n v) (parse_turn text b) refl
        (parse_turn-Leaves text b h))
  where
    from :
        ((text' : Bytes) (b' : Builder)
          → length text' < fuel
          → IsOpen b'
          → Reads text' b' (parse_loop fuel text' b'))
        → (s : Turn) → parse_turn text b ≡ s
        → Leaves (length text) s
        → Reads text b (after_turn fuel s)
    from again (done b') e v = ends_here e
    from again (more text' b') e (n, v) = goes_on e (again text' b' (omega arith) v)
    from again (failed x) e v = fails e

-- one result only
Reads-parse_loop :
    {r : Result InstructionError (List Atom)} (fuel : ℕ) (text : Bytes) (b : Builder)
    → length text < fuel
    → IsOpen b
    → Reads text b r
    → parse_loop fuel text b ≡ r
Reads-parse_loop zero text b l h d = absurd (omega arith)
Reads-parse_loop (suc fuel) text b l h (ends_here e) =
    parse_loop-parse_turn fuel text b ∙ ap (after_turn fuel) e
Reads-parse_loop (suc fuel) text b l h (fails e) =
    parse_loop-parse_turn fuel text b ∙ ap (after_turn fuel) e
Reads-parse_loop (suc fuel) text b l h (goes_on e d) =
    let (n, v) = subst (Leaves (length text)) e (parse_turn-Leaves text b h) in
    parse_loop-parse_turn fuel text b
    ∙ ap (after_turn fuel) e
    ∙ Reads-parse_loop fuel _ _ (omega arith) v d

pub Reads-parse_instruction :
    {r : Result InstructionError (List Atom)} (text : Bytes)
    → Reads text empty_builder r
    → parse_instruction text ≡ r
unfolding parse_instruction
Reads-parse_instruction text d =
    Reads-parse_loop (suc (length text)) text empty_builder (omega arith) empty-IsOpen d

abbrev Yields : Result InstructionError (List Atom) → Type 0
Yields (ok atoms) = IsInstruction atoms
Yields (err e) = Unit

Reads-Yields :
    {r : Result InstructionError (List Atom)} {text : Bytes} {b : Builder}
    → Reads text b r
    → IsOpen b
    → Yields r
Reads-Yields {text = text} {b = b} (ends_here e) h =
    take_atoms-IsInstruction _ (subst (Leaves (length text)) e (parse_turn-Leaves text b h))
Reads-Yields {text = text} {b = b} (goes_on e d) h =
    Reads-Yields d (subst (Leaves (length text)) e (parse_turn-Leaves text b h)).1
Reads-Yields (fails e) h = tt

-- The loop of `parse_instruction` comes to an end within its fuel, and the atoms that it gives are
-- such as a builder makes: no empty literal, no two literals next to each other, no group name with a
-- `>`, no number outside of 1 to 98.
pub parse_instruction-IsInstruction :
    (text : Bytes)
    → Reads text empty_builder (parse_instruction text)
      × ((atoms : List Atom) → parse_instruction text ≡ ok atoms → IsInstruction atoms)
unfolding parse_instruction
parse_instruction-IsInstruction text =
    let d = parse_loop-Reads (suc (length text)) text empty_builder (omega arith) empty-IsOpen in
    (d, λ atoms e. subst Yields e (Reads-Yields d empty-IsOpen))
