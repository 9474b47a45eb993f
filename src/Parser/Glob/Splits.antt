-- ===== src/Parser/Glob/Splits.antt =====
-- The loops of `match_recursive` over the text, and what is left of the pattern.
use putup.Prelude.{
  ℕ, zero, suc, ◌≤◌, ◌≡◌, ◌↔◌, refl, ap, sym, subst, Bool, true, false, not, ◌&&◌, ◌||◌, [], ◌∷◌,
  ◌++◌, Bytes, slash, length, count, arith, inl, inr, ◌⊎◌, if_cases, if_both, if-true, if-false,
  Bool-cases, ◌∙◌, ◌==◌,
}
use putup.Parser.Glob.{
  is_star, char_leb, has_slash, skip_one, bracket_loop, match_bracket, only_trailing, at_any_suffix,
  within_segment,
}
use putup.Parser.Glob.Spec.{Trails, done, stars, IsBehind}

pub length-skip_one : (x : ℕ) (p : Bytes) → length (skip_one x p) ≤ length p
unfolding skip_one
length-skip_one x [] = omega arith
length-skip_one x (c ∷ p) = ground arith

pub skip_one-IsBehind : (x : ℕ) (p : Bytes) → IsBehind x p (skip_one x p)
unfolding skip_one
skip_one-IsBehind x [] = refl
skip_one-IsBehind x (c ∷ p) = elim (Bool-cases (c == x)) [
  | inl here ↦ inl (here, if-true p (c ∷ p) here)
  | inr away ↦ inr (away, if-false p (c ∷ p) away)
]

pub IsBehind-skip_one : (x : ℕ) (p rest : Bytes) → IsBehind x p rest → rest ≡ skip_one x p
unfolding skip_one
IsBehind-skip_one x [] rest e = e
IsBehind-skip_one x (c ∷ p) rest (inl (here, e)) = e ∙ sym (if-true p (c ∷ p) here)
IsBehind-skip_one x (c ∷ p) rest (inr (away, e)) = e ∙ sym (if-false p (c ∷ p) away)

length-bracket_loop :
    (c : ℕ) (m : Bool) (prev : ℕ) (p : Bytes) → length (bracket_loop c m prev p).1 ≤ length p
unfolding bracket_loop
length-bracket_loop c m prev [] = omega arith
length-bracket_loop c m prev (pc ∷ []) = ground arith
length-bracket_loop c m prev (pc ∷ end ∷ p) =
    if_both short (pc == b']') (m, pc ∷ end ∷ p) _ (omega arith)
      (if_both short (pc == b'-' && (not (prev == 0) && not (end == b']')))
        (bracket_loop c (m || (char_leb prev c && char_leb c end)) 0 p)
        (bracket_loop c (m || pc == c) pc (end ∷ p))
        (omega (arith, length-bracket_loop c (m || (char_leb prev c && char_leb c end)) 0 p))
        (omega (arith, length-bracket_loop c (m || pc == c) pc (end ∷ p))))
  where
    short : Bool × Bytes → Type 0
    short q = length q.1 ≤ suc (suc (length p))

pub length-match_bracket : (p : Bytes) (c : ℕ) → length (match_bracket p c).1 ≤ length p
unfolding match_bracket
length-match_bracket [] c = omega arith
length-match_bracket (x ∷ p) c = ground (
  arith,
  length-skip_one b']' (bracket_loop c false 0 p).1,
  length-bracket_loop c false 0 p,
  length-skip_one b']' (bracket_loop c false 0 (x ∷ p)).1,
  length-bracket_loop c false 0 (x ∷ p),
)

pub only_trailing-Trails :
    (fuel : ℕ) (p : Bytes) → length p ≤ fuel → (only_trailing fuel p ≡ true) ↔ Trails p
unfolding only_trailing
only_trailing-Trails fuel [] h = (λ e. done, λ d. refl)
only_trailing-Trails zero (pc ∷ p) h = absurd (omega arith)
only_trailing-Trails (suc fuel) (pc ∷ p) h =
    let rest =
      only_trailing-Trails fuel (skip_one slash (skip_one b'*' p))
        (omega (arith, length-skip_one slash (skip_one b'*' p), length-skip_one b'*' p)) in
    if_cases (λ b. (b ≡ true) ↔ Trails (pc ∷ p)) (is_star pc) _ false
      (λ e. (
        λ t.
            stars (skip_one b'*' p) (skip_one slash (skip_one b'*' p)) e (skip_one-IsBehind b'*' p)
              (skip_one-IsBehind slash (skip_one b'*' p)) (rest.0 t),
        λ d. rest.1 (trails_inv d),
      ))
      (λ e. (λ t. cc, λ d. elim d [ stars _ _ f _ _ _ ↦ cc ]))
  where
    trails_inv : Trails (pc ∷ p) → Trails (skip_one slash (skip_one b'*' p))
    trails_inv (stars a b e h h' d) =
        let second = IsBehind-skip_one slash a b h' in
        let first = IsBehind-skip_one b'*' p a h in
        subst Trails (second ∙ ap (skip_one slash) first) d

abbrev pub head : ℕ → Bytes → ℕ
head d [] = d
head d (c ∷ t) = c

abbrev pub tail : Bytes → Bytes
tail [] = []
tail (c ∷ t) = t

-- The text splits in a part that is passed over and a rest that is tried.
abbrev pub Splits : (Bytes → Type 0) → (Bytes → Type 0) → Bytes → Type 0
Splits Gone Rest t = (gone : Bytes) × (rest : Bytes) × (t ≡ gone ++ rest) × Gone gone × Rest rest

abbrev pub Any : Bytes → Type 0
Any s = Unit

abbrev pub NoSlash : Bytes → Type 0
NoSlash s = count slash s ≡ 0

abbrev pub Tries : (Bytes → Bool) → Bytes → Type 0
Tries try rest = try rest ≡ true

or_iff : (a b : Bool) → ((a || b) ≡ true) ↔ ((a ≡ true) ⊎ (b ≡ true))
or_iff a b = ground arith

pub at_any_suffix_iff :
    (try : Bytes → Bool) (t : Bytes) → (at_any_suffix try t ≡ true) ↔ Splits Any (Tries try) t
unfolding at_any_suffix
at_any_suffix_iff try [] = (λ e. ([], [], refl, tt, e), λ (g, r, e, u, h). nothing g r e h)
  where
    nothing : (g r : Bytes) → [] ≡ g ++ r → try r ≡ true → try [] ≡ true
    nothing [] r e h = subst (Tries try) (sym e) h
    nothing (x ∷ g) r e h = cc
at_any_suffix_iff try (c ∷ t) =
    let rest = at_any_suffix_iff try t in
    let split = or_iff (try (c ∷ t)) (at_any_suffix try t) in
    (
      λ e. elim (split.0 e) [
        | inl now ↦ ([], c ∷ t, refl, tt, now)
        | inr later ↦ let (g, r, s, u, h) = rest.0 later in (c ∷ g, r, ap (λ x. c ∷ x) s, tt, h)
      ],
      λ (g, r, s, u, h). split.1 (found g r s h rest.1),
    )
  where
    found :
        (g r : Bytes)
        → c ∷ t ≡ g ++ r
        → try r ≡ true
        → (Splits Any (Tries try) t → at_any_suffix try t ≡ true)
        → (try (c ∷ t) ≡ true) ⊎ (at_any_suffix try t ≡ true)
    found [] r s h later = inl (subst (Tries try) (sym s) h)
    found (x ∷ g) r s h later = inr (later (g, r, ap tail s, tt, h))

pub within_segment_iff :
    (try : Bytes → Bool) (t : Bytes) → (within_segment try t ≡ true) ↔ Splits NoSlash (Tries try) t
unfolding within_segment
within_segment_iff try [] = (λ e. ([], [], refl, refl, e), λ (g, r, e, u, h). nothing g r e h)
  where
    nothing : (g r : Bytes) → [] ≡ g ++ r → try r ≡ true → try [] ≡ true
    nothing [] r e h = subst (Tries try) (sym e) h
    nothing (x ∷ g) r e h = cc
within_segment_iff try (c ∷ t) =
    let rest = within_segment_iff try t in
    let split = or_iff (try (c ∷ t)) (within_segment try t) in
    if_cases (λ b. (b ≡ true) ↔ Splits NoSlash (Tries try) (c ∷ t)) (c == slash) (try (c ∷ t)) _
      (λ ends. (λ e. ([], c ∷ t, refl, refl, e), λ (g, r, s, u, h). stays ends g r s u h))
      (λ inside. (
        λ e. elim (split.0 e) [
          | inl now ↦ ([], c ∷ t, refl, refl, now)
          | inr later ↦
              let (g, r, s, u, h) = rest.0 later in (c ∷ g, r, ap (λ x. c ∷ x) s, ground arith, h)
        ],
        λ (g, r, s, u, h). split.1 (found g r s u h rest.1),
      ))
  where
    stays :
        (c == slash) ≡ true
        → (g r : Bytes) → c ∷ t ≡ g ++ r
        → NoSlash g
        → try r ≡ true
        → try (c ∷ t) ≡ true
    stays ends [] r s u h = subst (Tries try) (sym s) h
    stays ends (x ∷ g) r s u h = let same : c ≡ x = ap (head c) s in absurd (ground arith)

    found :
        (g r : Bytes)
        → c ∷ t ≡ g ++ r
        → NoSlash g
        → try r ≡ true
        → (Splits NoSlash (Tries try) t → within_segment try t ≡ true)
        → (try (c ∷ t) ≡ true) ⊎ (within_segment try t ≡ true)
    found [] r s u h later = inl (subst (Tries try) (sym s) h)
    found (x ∷ g) r s u h later = inr (later (g, r, ap tail s, omega arith, h))

pub has_slash-count : (t : Bytes) → (not (has_slash t) ≡ true) ↔ NoSlash t
unfolding has_slash
has_slash-count [] = (λ e. refl, λ e. refl)
has_slash-count (c ∷ t) = ground (arith, has_slash-count t)
