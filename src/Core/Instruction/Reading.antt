-- ===== src/Core/Instruction/Reading.antt =====
-- How the text of one atom is read.
use putup.Prelude.{
  ℕ, ◌+◌, ◌/◌, ◌%◌, ◌≡◌, ◌≤◌, ◌<◌, refl, ap, sym, subst, ◌∙◌, Bool, true, false, not, ◌||◌, List,
  [], ◌∷◌, ◌++◌, append_assoc, Option, none, some, Result, Bytes, codes, count, All, cut, cut-here,
  cut-later, cut-append, if-true, if-false, if_cases, arith, ltb, ◌==◌, ==_iff,
}
use putup.Core.Instruction.{
  AtomKind, all_inputs, order_only_inputs, input_base, input_no_ext, input_ext, all_outputs,
  output_no_ext, input_dir, nth_input, nth_input_base, nth_input_no_ext, nth_order_only_input,
  nth_output, Atom, Builder, is_nth, letter_of, add_literal, add_char, push_atom, add_flag, add_nth,
  add_group_ref, escape, decimal, kind_for_letter, is_unnumbered_flag, is_numbered_flag, Turn, done,
  more, InstructionError, is_digit, span_digits, digits_value, from_chars, continue_numbered,
  after_number, after_group, after_percent, parse_turn,
}
use putup.Core.Instruction.Spec.{is_flag}
use putup.Core.Instruction.Building.{builder}
use putup.Core.Instruction.Turns.{Reads, ends_here, goes_on, fails}

pub add_literal-cons :
    (c : ℕ) (t : Bytes) (b : Builder) → add_literal (c ∷ t) b ≡ add_literal t (add_char c b)
unfolding add_literal
add_literal-cons c [] b = refl
add_literal-cons c (d ∷ t) b =
    ap (λ p. builder p b.atoms) (sym (append_assoc b.pending (c ∷ []) (d ∷ t)))

parse_turn-char :
    (c : ℕ) (t : Bytes) (b : Builder)
    → (c == b'%') ≡ false
    → parse_turn (c ∷ t) b ≡ parse_turn t (add_char c b)
unfolding parse_turn
parse_turn-char c t b e =
    ap
      (λ o. elim o as (λ o. Turn) [
        | none ↦ done (add_literal (c ∷ t) b)
        | some q ↦ after_percent q.1 (add_literal q.0 b)
      ])
      (cut-later b'%' c t e)
    ∙ from (cut b'%' t)
  where
    from :
        (o : Option (Bytes × Bytes))
        → (elim (elim o as (λ o. Option (Bytes × Bytes)) [
          | none ↦ none
          | some q ↦ some (c ∷ q.0, q.1)
        ])
            as (λ o. Turn) [
              | none ↦ done (add_literal (c ∷ t) b)
              | some q ↦ after_percent q.1 (add_literal q.0 b)
            ])
          ≡ (elim o as (λ o. Turn) [
            | none ↦ done (add_literal t (add_char c b))
            | some q ↦ after_percent q.1 (add_literal q.0 (add_char c b))
          ])
    from none = ap done (add_literal-cons c t b)
    from (some q) = ap (after_percent q.1) (add_literal-cons c q.0 b)

pub parse_turn-percent :
    (rest : Bytes) (b : Builder) → parse_turn (b'%' ∷ rest) b ≡ after_percent rest b
unfolding parse_turn add_literal
parse_turn-percent rest b =
    ap
      (λ o. elim o as (λ o. Turn) [
        | none ↦ done (add_literal (b'%' ∷ rest) b)
        | some q ↦ after_percent q.1 (add_literal q.0 b)
      ])
      (cut-here b'%' rest)

pub Reads-parse_turn :
    {r : Result InstructionError (List Atom)} {text text' : Bytes} {b b' : Builder}
    → parse_turn text b ≡ parse_turn text' b'
    → Reads text' b' r
    → Reads text b r
Reads-parse_turn e (ends_here h) = ends_here (e ∙ h)
Reads-parse_turn e (goes_on h d) = goes_on (e ∙ h) d
Reads-parse_turn e (fails h) = fails (e ∙ h)

twice : (rest : Bytes) (b : Builder) → after_percent (b'%' ∷ rest) b ≡ more rest (add_char b'%' b)
unfolding after_percent
twice rest b = refl

module _ {r : Result InstructionError (List Atom)} where
  pub Reads-escape :
      (t rest : Bytes) (b : Builder) → Reads rest (add_literal t b) r → Reads (escape t ++ rest) b r
  unfolding escape add_literal
  Reads-escape [] rest b d = d
  Reads-escape (c ∷ t) rest b d =
      let later =
        Reads-escape t rest (add_char c b)
          (subst (λ x. Reads rest x r) (add_literal-cons c t b) d) in
      if_cases (λ s. Reads (s ++ rest) b r) (c == b'%') (b'%' ∷ c ∷ escape t) (c ∷ escape t)
        (λ e.
          let same : b'%' ≡ c = sym ((==_iff c b'%').0 e) in
          subst
            (λ x.
              Reads (escape t ++ rest) (add_char x b) r → Reads (b'%' ∷ x ∷ escape t ++ rest) b r)
            same
            (λ k.
              goes_on (parse_turn-percent (b'%' ∷ escape t ++ rest) b ∙ twice (escape t ++ rest) b)
                k)
            later)
        (λ e. Reads-parse_turn (parse_turn-char c (escape t ++ rest) b e) later)

pub flag_turn :
    (k : AtomKind) (rest : Bytes) (b : Builder)
    → is_flag k ≡ true
    → after_percent (letter_of k ∷ rest) b ≡ more rest (add_flag k b)
unfolding after_percent letter_of kind_for_letter is_unnumbered_flag is_nth
flag_turn all_inputs rest b h = refl
flag_turn order_only_inputs rest b h = refl
flag_turn input_base rest b h = refl
flag_turn input_no_ext rest b h = refl
flag_turn input_ext rest b h = refl
flag_turn all_outputs rest b h = refl
flag_turn output_no_ext rest b h = refl
flag_turn input_dir rest b h = refl
flag_turn _ rest b h = absurd (ground (arith, h))

pub group_turn :
    (t rest : Bytes) (b : Builder)
    → count b'>' t ≡ 0
    → after_percent (b'<' ∷ t ++ b'>' ∷ rest) b ≡ more rest (add_group_ref t b)
unfolding after_percent after_group
group_turn t rest b h =
    ap
      (λ o. elim o as (λ o. Turn) [
        | none ↦ more (t ++ b'>' ∷ rest) (add_literal (codes "%<") b)
        | some q ↦ more q.1 (add_group_ref q.0 b)
      ])
      (cut-append b'>' t rest h)

-- no digit goes on with the number
abbrev pub ends_number : Bytes → Bool
ends_number [] = true
ends_number (c ∷ t) = not (is_digit c)

span_digits-append :
    (ds rest : Bytes)
    → All (λ c. is_digit c ≡ true) ds
    → ends_number rest ≡ true
    → span_digits (ds ++ rest) ≡ (ds, rest)
unfolding span_digits
span_digits-append [] [] a e = refl
span_digits-append [] (c ∷ rest) a e =
    if-false {A = Bytes × Bytes} {b = is_digit c} _ _ (ground arith)
span_digits-append (c ∷ ds) rest (h, a) e =
    if-true {A = Bytes × Bytes} _ _ h ∙ ap (λ q. (c ∷ q.0, q.1)) (span_digits-append ds rest a e)

pub number_turn :
    (d : ℕ) (ds rest : Bytes) (b : Builder)
    → is_digit d ≡ true
    → All (λ c. is_digit c ≡ true) ds
    → ends_number rest ≡ true
    → after_percent (d ∷ ds ++ rest) b ≡ after_number (from_chars (d ∷ ds)) rest b
unfolding after_percent
number_turn d ds rest b h a e =
    if-false {b = d == b'%'} _ _ (ground arith)
    ∙ if-true _ _ h
    ∙ ap (λ (q : Bytes × Bytes). after_number (from_chars (d ∷ q.0)) q.1 b)
        (span_digits-append ds rest a e)

letter_digit : (k : AtomKind) → is_nth k ≡ true → is_digit (letter_of k) ≡ false
unfolding letter_of is_nth
letter_digit k h = ground (arith, h)

letter_numbered :
    (k : AtomKind)
    → is_nth k ≡ true
    → (is_numbered_flag (letter_of k) ≡ true) × (kind_for_letter (letter_of k) true ≡ k)
unfolding letter_of is_nth kind_for_letter
letter_numbered nth_input h = (refl, refl)
letter_numbered nth_input_base h = (refl, refl)
letter_numbered nth_input_no_ext h = (refl, refl)
letter_numbered nth_order_only_input h = (refl, refl)
letter_numbered nth_output h = (refl, refl)
letter_numbered _ h = absurd (ground (arith, h))

-- the atom of a flag with a number
abbrev pub nth_atom : AtomKind → ℕ → Atom
nth_atom k n = record { kind = k; operand = n; text = [] }

pub add_nth-some :
    (k : AtomKind) (n : ℕ) (b : Builder)
    → is_nth k ≡ true
    → 1 ≤ n
    → n ≤ 98
    → add_nth k n b ≡ some (push_atom (nth_atom k n) b)
unfolding add_nth
add_nth-some k n b h l u =
    if-false {b = not (is_nth k) || (ltb n 1 || ltb 98 n)} none _ (ground (arith, h))

after_number-nth :
    (k : AtomKind) (n : ℕ) (rest : Bytes) (b : Builder)
    → is_nth k ≡ true
    → 1 ≤ n
    → n ≤ 98
    → after_number n (letter_of k ∷ rest) b ≡ more rest (push_atom (nth_atom k n) b)
unfolding after_number
after_number-nth k n rest b h l u =
    let (takes, back) = letter_numbered k h in
    if-false {b = not (is_numbered_flag (letter_of k))} _ _ (ap not takes)
    ∙ ap (λ j. continue_numbered n rest (add_nth j n b)) back
    ∙ ap (continue_numbered n rest) (add_nth-some k n b h l u)

one_digit : (n : ℕ) → n < 10 → from_chars ((48 + n) ∷ []) ≡ n
unfolding from_chars digits_value
one_digit n h = ground arith

two_digits : (n : ℕ) → n < 100 → from_chars ((48 + n / 10) ∷ (48 + n % 10) ∷ []) ≡ n
unfolding from_chars digits_value
two_digits n h = ground arith

pub nth_turn :
    (k : AtomKind) (n : ℕ) (rest : Bytes) (b : Builder)
    → is_nth k ≡ true
    → 1 ≤ n
    → n ≤ 98
    → after_percent (decimal n ++ letter_of k ∷ rest) b ≡ more rest (push_atom (nth_atom k n) b)
unfolding decimal
nth_turn k n rest b h l u =
    let stops : ends_number (letter_of k ∷ rest) ≡ true = ap not (letter_digit k h) in
    let P : Bytes → Type 0 =
      λ ds. after_percent (ds ++ letter_of k ∷ rest) b ≡ more rest (push_atom (nth_atom k n) b) in
    let finish = after_number-nth k n rest b h l u in
    if_cases P (ltb n 10) ((48 + n) ∷ []) _
      (λ e.
        number_turn (48 + n) [] (letter_of k ∷ rest) b (ground arith) tt stops
        ∙ ap (λ m. after_number m (letter_of k ∷ rest) b) (one_digit n (ground arith))
        ∙ finish)
      (λ e.
        if_cases P (ltb n 100) ((48 + n / 10) ∷ (48 + n % 10) ∷ []) _
          (λ e'.
            number_turn (48 + n / 10) ((48 + n % 10) ∷ []) (letter_of k ∷ rest) b (ground arith)
              (ground arith, tt) stops
            ∙ ap (λ m. after_number m (letter_of k ∷ rest) b) (two_digits n (ground arith))
            ∙ finish)
          (λ e'. absurd (ground arith)))
