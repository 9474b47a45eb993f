-- ===== src/Parser/Glob/Classes.antt =====
-- `match_bracket` against the bracket expressions of the relation.
use putup.Prelude.{
  ℕ, ◌≤◌, ◌≡◌, ◌↔◌, ◌⊎◌, refl, sym, subst, ◌∙◌, Bool, true, false, not, ◌&&◌, ◌||◌, List, [], ◌∷◌,
  Bytes, ◌==◌, if-true, if-false, inl, inr, arith, ==_iff, Bool-cases,
}
use putup.Parser.Glob.{skip_one, char_leb, bracket_loop, match_bracket}
use putup.Parser.Glob.Spec.{
  Item, single, range, signed, HoldsSome, IsHeld, IsSpan, Spells, ended, closed, one, span, negates,
  IsClass, negated, listed, Matches, class,
}

-- the test of a range, as the loop writes it
abbrev in_range : ℕ → ℕ → ℕ → Bool
in_range c prev end = char_leb prev c && char_leb c end

in_range_iff :
    (c a b : ℕ) → (in_range c a b ≡ true) ↔ ((signed a ≤ signed c) × (signed c ≤ signed b))
in_range_iff c a b = ground arith

module _ (c : ℕ) (m : Bool) (prev : ℕ) where
  closed_loop :
      (pc : ℕ) (p : Bytes) → (pc == b']') ≡ true → bracket_loop c m prev (pc ∷ p) ≡ (m, pc ∷ p)
  unfolding bracket_loop
  closed_loop pc [] e = if-true (m, pc ∷ []) _ e
  closed_loop pc (end ∷ p) e = if-true (m, pc ∷ end ∷ p) _ e

  one_loop :
      (pc : ℕ) (p : Bytes)
      → (pc == b']') ≡ false
      → (IsSpan prev pc p → ⊥)
      → bracket_loop c m prev (pc ∷ p) ≡ bracket_loop c (m || pc == c) pc p
  unfolding bracket_loop
  one_loop pc [] e n = if-false (m, pc ∷ []) _ e
  one_loop pc (end ∷ p) e n =
      if-false (m, pc ∷ end ∷ p) _ e
      ∙ elim (Bool-cases (pc == b'-' && (not (prev == 0) && not (end == b']')))) [
        | inl spans ↦
            absurd (n (ground (arith, spans), ground (arith, spans), ground (arith, spans)))
        | inr no_span ↦ if-false _ (bracket_loop c (m || pc == c) pc (end ∷ p)) no_span
      ]

  span_loop :
      (pc end : ℕ) (p : Bytes)
      → IsSpan prev pc (end ∷ p)
      → bracket_loop c m prev (pc ∷ end ∷ p) ≡ bracket_loop c (m || in_range c prev end) 0 p
  unfolding bracket_loop
  span_loop pc end p (dash, seen, open_end) =
      if-false {b = pc == b']'} (m, pc ∷ end ∷ p) _ (ground (arith, dash))
      ∙ if-true {b = pc == b'-' && (not (prev == 0) && not (end == b']'))} _ _
          (ground (arith, dash, seen, open_end))

-- what the loop gives for the items
abbrev Reads : ℕ → Bool → List Item → Bytes → Bool × Bytes → Type 0
Reads c m items rest q =
    ((q.0 ≡ true) ↔ ((m ≡ true) ⊎ HoldsSome c items)) × (skip_one b']' q.1 ≡ rest)

or_true : (a b : Bool) → ((a || b) ≡ true) ↔ ((a ≡ true) ⊎ (b ≡ true))
or_true a b = ground arith

-- one item more, with the test of it
Reads-more :
    (c : ℕ) (m b : Bool) (P : Type 0) (items : List Item) (rest : Bytes) (q : Bool × Bytes)
    → (b ≡ true) ↔ P
    → Reads c (m || b) items rest q
    → ((q.0 ≡ true) ↔ ((m ≡ true) ⊎ (P ⊎ HoldsSome c items))) × (skip_one b']' q.1 ≡ rest)
Reads-more c m b P items rest q test (all, left) = (
  (
    λ e. elim (all.0 e) [
      | inl now ↦ elim ((or_true m b).0 now) [
        | inl old ↦ inl old
        | inr new ↦ inr (inl (test.0 new))
      ]
      | inr later ↦ inr (inr later)
    ],
    λ h. all.1 (elim h [
      | inl old ↦ inl ((or_true m b).1 (inl old))
      | inr (inl new) ↦ inl ((or_true m b).1 (inr (test.1 new)))
      | inr (inr later) ↦ inr later
    ]),
  ),
  left,
)

bracket_loop-Reads :
    (c : ℕ) (m : Bool) (prev : ℕ) (p : Bytes) (items : List Item) (rest : Bytes)
    → Spells prev p items rest
    → Reads c m items rest (bracket_loop c m prev p)
unfolding bracket_loop skip_one
bracket_loop-Reads c m prev [] items rest ended =
    ((λ e. inl e, λ h. elim h [ inl e ↦ e | inr x ↦ absurd x ]), refl)
bracket_loop-Reads c m prev (pc ∷ p) items rest (closed e) =
    subst (Reads c m [] p) (sym (closed_loop c m prev pc p e))
      ((λ e. inl e, λ h. elim h [ inl e ↦ e | inr x ↦ absurd x ]), if-true p (pc ∷ p) e)
bracket_loop-Reads c m prev (pc ∷ p) items rest (one {items = later} e n d) =
    subst (Reads c m (single pc ∷ later) rest) (sym (one_loop c m prev pc p e n)) (
      Reads-more c m (pc == c) (pc ≡ c) later rest (bracket_loop c (m || pc == c) pc p)
        (==_iff pc c) (bracket_loop-Reads c (m || pc == c) pc p later rest d))
bracket_loop-Reads c m prev (pc ∷ end ∷ p) items rest (span {items = later} s d) =
    subst (Reads c m (range prev end ∷ later) rest) (sym (span_loop c m prev pc end p s)) (
      Reads-more c m (in_range c prev end) _ later rest
        (bracket_loop c (m || in_range c prev end) 0 p) (in_range_iff c prev end)
        (bracket_loop-Reads c (m || in_range c prev end) 0 p later rest d))

-- a negation turns what was matched round
not_iff : (b : Bool) (P : Type 0) → (b ≡ true) ↔ P → (not b ≡ true) ↔ (P → ⊥)
not_iff true P f = (λ e. cc, λ n. absurd (n (f.0 refl)))
not_iff false P f = (λ e p. let bad = f.1 p in cc, λ n. refl)

held_now : (b : Bool) (P : Type 0) → (b ≡ true) ↔ ((false ≡ true) ⊎ P) → (b ≡ true) ↔ P
held_now b P f = (λ e. elim (f.0 e) [ inl bad ↦ cc | inr p ↦ p ], λ p. f.1 (inr p))

pub match_bracket-IsClass :
    (c : ℕ) (negative : Bool) (p : Bytes) (items : List Item) (rest : Bytes)
    → IsClass p negative items rest
    → (((match_bracket p c).0 ≡ true) ↔ IsHeld negative c items) × ((match_bracket p c).1 ≡ rest)
unfolding match_bracket
match_bracket-IsClass c negative (x ∷ p) items rest (negated n d) =
    let (held, left) = bracket_loop-Reads c false 0 p items rest d in
    let q = bracket_loop c false 0 p in
    subst {A = Bool × Bytes} (λ r. ((r.0 ≡ true) ↔ (HoldsSome c items → ⊥)) × (r.1 ≡ rest))
      (sym (if-true {b = negates x} (not q.0, skip_one b']' q.1) _ n))
      (not_iff q.0 (HoldsSome c items) (held_now q.0 (HoldsSome c items) held), left)
match_bracket-IsClass c negative [] items rest (listed n ended) = ((λ e. cc, λ h. absurd h), refl)
match_bracket-IsClass c negative (x ∷ p) items rest (listed n d) =
    let (held, left) = bracket_loop-Reads c false 0 (x ∷ p) items rest d in
    let q = bracket_loop c false 0 (x ∷ p) in
    subst {A = Bool × Bytes} (λ r. ((r.0 ≡ true) ↔ HoldsSome c items) × (r.1 ≡ rest))
      (sym (if-false {b = negates x} _ (q.0, skip_one b']' q.1) n))
      (held_now q.0 (HoldsSome c items) held, left)

Spells-some :
    (prev : ℕ) (p : Bytes) → (items : List Item) × (rest : Bytes) × Spells prev p items rest
Spells-some prev [] = ([], [], ended)
Spells-some prev (pc ∷ []) = elim (Bool-cases (pc == b']')) [
  | inl ends ↦ ([], [], closed ends)
  | inr goes ↦ (single pc ∷ [], [], one goes (λ bad. bad) ended)
]
Spells-some prev (pc ∷ end ∷ p) =
    let (spanned, left, d) = Spells-some 0 p in
    let (items, rest, d') = Spells-some pc (end ∷ p) in
    elim (Bool-cases (pc == b']')) [
      | inl ends ↦ ([], end ∷ p, closed ends)
      | inr goes ↦ elim (Bool-cases (pc == b'-' && (not (prev == 0) && not (end == b']')))) [
        | inl spans ↦ (
          range prev end ∷ spanned,
          left,
          span (ground (arith, spans), ground (arith, spans), ground (arith, spans)) d,
        )
        | inr no_span ↦ (
          single pc ∷ items,
          rest,
          one goes (λ (a, b, e). absurd (ground (arith, no_span, a, b, e))) d',
        )
      ]
    ]

IsClass-some :
    (p : Bytes)
    → (negative : Bool) × (items : List Item) × (rest : Bytes) × IsClass p negative items rest
IsClass-some [] = (false, [], [], listed tt ended)
IsClass-some (x ∷ p) = elim (Bool-cases (negates x)) [
  | inl n ↦ let (items, rest, d) = Spells-some 0 p in (true, items, rest, negated n d)
  | inr n ↦ let (items, rest, d) = Spells-some 0 (x ∷ p) in (false, items, rest, listed n d)
]

-- a character that `match_bracket` accepts
pub accepted-Matches :
    (pc : ℕ) (p : Bytes) (c : ℕ) (t : Bytes)
    → (pc == b'[') ≡ true
    → (match_bracket p c).0 ≡ true
    → Matches (match_bracket p c).1 t
    → Matches (pc ∷ p) (c ∷ t)
accepted-Matches pc p c t opens held m =
    let (negative, items, rest, d) = IsClass-some p in
    let (test, left) = match_bracket-IsClass c negative p items rest d in
    class negative items rest opens d (test.0 held) (subst (λ r. Matches r t) left m)
