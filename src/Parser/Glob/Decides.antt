-- ===== src/Parser/Glob/Decides.antt =====
-- `match_recursive` against the relation.
use putup.Prelude.{
  ℕ, zero, suc, ◌≤◌, ◌<◌, ◌≡◌, ◌↔◌, refl, ap, sym, subst, ◌∙◌, Bool, true, false, not, [], ◌∷◌,
  ◌++◌, Bytes, slash, length, count, arith, inl, inr, if_cases, ==_iff, ◌==◌, if◌then◌else◌,
  bytes_eq, append-nil,
}
use putup.Parser.Glob.{
  is_star, has_glob_chars, has_slash, skip_one, match_bracket, within_segment, match_deep,
  match_star, match_one, match_step, match_loop, match_recursive, matches,
}
use putup.Parser.Glob.Spec.{done, stars, Matches, trailing, deep, star, any, class, same}
use putup.Parser.Glob.Classes.{accepted-Matches}
use putup.Parser.Glob.Splits.{
  skip_one-IsBehind, IsBehind-skip_one, length-skip_one, length-match_bracket, only_trailing-Trails,
  Splits, Any, NoSlash, Tries, at_any_suffix_iff, within_segment_iff, has_slash-count,
}
use putup.Parser.Glob.Inverses.{Splits-map, Matches-nil, plain_inv, empty_inv, trailing_inv}

-- the calls on patterns shorter than `n` are right
abbrev IsRight : (Bytes → Bytes → Bool) → ℕ → Type 0
IsRight try n = (p t : Bytes) → length p < n → (try p t ≡ true) ↔ Matches p t

module _ (try : Bytes → Bytes → Bool) where
  -- what a star passes over, and what is matched behind it
  abbrev Passes : (Bytes → Type 0) → Bytes → Bytes → Type 0
  Passes Gone p t = Splits Gone (Matches p) t

  match_deep_iff :
      (p t : Bytes) → IsRight try (suc (length p)) → (match_deep try p t ≡ true) ↔ Passes Any p t
  unfolding match_deep
  match_deep_iff [] t right = (λ e. (t, [], sym (append-nil t), tt, trailing done), λ s. refl)
  match_deep_iff (pc ∷ p) t right =
      let loop = at_any_suffix_iff (try (pc ∷ p)) t in
      (
        λ e.
            Splits-map Any (Tries (try (pc ∷ p))) (Matches (pc ∷ p))
              (λ r. (right (pc ∷ p) r (omega arith)).0) t (loop.0 e),
        λ s. loop.1 (
            Splits-map Any (Matches (pc ∷ p)) (Tries (try (pc ∷ p)))
              (λ r. (right (pc ∷ p) r (omega arith)).1) t s),
      )

  match_single_iff :
      (pc : ℕ) (p t : Bytes)
      → IsRight try (suc (length (pc ∷ p)))
      → (within_segment (try (pc ∷ p)) t ≡ true) ↔ Passes NoSlash (pc ∷ p) t
  match_single_iff pc p t right =
      let loop = within_segment_iff (try (pc ∷ p)) t in
      (
        λ e.
            Splits-map NoSlash (Tries (try (pc ∷ p))) (Matches (pc ∷ p))
              (λ r. (right (pc ∷ p) r (omega arith)).0) t (loop.0 e),
        λ s. loop.1 (
            Splits-map NoSlash (Matches (pc ∷ p)) (Tries (try (pc ∷ p)))
              (λ r. (right (pc ∷ p) r (omega arith)).1) t s),
      )

  match_star_iff :
      (p t : Bytes) (pc c : ℕ)
      → is_star pc ≡ true
      → IsRight try (suc (length p))
      → (match_star try p (c ∷ t) ≡ true) ↔ Matches (pc ∷ p) (c ∷ t)
  unfolding match_star
  match_star_iff [] t pc c st right = (
    λ e.
        star (c ∷ t) [] st tt (sym (append-nil (c ∷ t))) ((has_slash-count (c ∷ t)).0 e)
          (trailing done),
    back,
  )
    where
      back : Matches (pc ∷ []) (c ∷ t) → not (has_slash (c ∷ t)) ≡ true
      back (star g r a s e u m) =
          (has_slash-count (c ∷ t)).1
            (ap (count slash) (e ∙ ap (λ x. g ++ x) (Matches-nil r m) ∙ append-nil g) ∙ u)
      back (any a b m) = absurd (ground arith)
      back (class n i r a k b m) = absurd (ground arith)
      back (same l e m) = absurd (ground arith)
  match_star_iff (qc ∷ p) t pc c st right =
      if_cases (λ b. (b ≡ true) ↔ Matches (pc ∷ qc ∷ p) (c ∷ t)) (is_star qc)
        (match_deep try (skip_one slash p) (c ∷ t)) _
        (λ two.
          let loop =
            match_deep_iff (skip_one slash p) (c ∷ t)
              (λ q r h. right q r (omega (arith, length-skip_one slash p, h))) in
          (
            λ e.
                let (g, r, s, u, h) = loop.0 e in
                deep (skip_one slash p) g r st two s (skip_one-IsBehind slash p) h,
            λ d. loop.1 (deep_inv two d),
          ))
        (λ one.
          let loop = match_single_iff qc p (c ∷ t) right in
          (
            λ e. let (g, r, s, u, h) = loop.0 e in star g r st one s u h,
            λ d. loop.1 (star_inv one d),
          ))
    where
      deep_inv :
          is_star qc ≡ true → Matches (pc ∷ qc ∷ p) (c ∷ t) → Passes Any (skip_one slash p) (c ∷ t)
      deep_inv two (deep q g r a b e k m) =
          (g, r, e, tt, subst (λ x. Matches x r) (IsBehind-skip_one slash p q k) m)
      deep_inv two (star g r a s e u m) = cc
      deep_inv two (any a b m) = absurd (ground arith)
      deep_inv two (class n i r a k b m) = absurd (ground arith)
      deep_inv two (same l e m) = absurd (ground arith)

      star_inv :
          is_star qc ≡ false → Matches (pc ∷ qc ∷ p) (c ∷ t) → Passes NoSlash (qc ∷ p) (c ∷ t)
      star_inv one (deep q g r a b e k m) = cc
      star_inv one (star g r a s e u m) = (g, r, e, u, m)
      star_inv one (any a b m) = absurd (ground arith)
      star_inv one (class n i r a k b m) = absurd (ground arith)
      star_inv one (same l e m) = absurd (ground arith)

  match_one_iff :
      (pc : ℕ) (p : Bytes) (c : ℕ) (t : Bytes)
      → is_star pc ≡ false
      → IsRight try (suc (length p))
      → (match_one try pc p c t ≡ true) ↔ Matches (pc ∷ p) (c ∷ t)
  unfolding match_one
  match_one_iff pc p c t plain right =
      let goal = λ (b : Bool). (b ≡ true) ↔ Matches (pc ∷ p) (c ∷ t) in
      let next = right p t (omega arith) in
      let inv = plain_inv pc p c t plain in
      if_cases goal (pc == b'?') (if c == slash then false else try p t) _
        (λ one.
          if_cases goal (c == slash) false (try p t)
            (λ sep. (
              λ e. cc,
              λ d. elim (inv d) [
                | inl (a, b, m) ↦ cc
                | inr (inl (a, b, m)) ↦ absurd (ground arith)
                | inr (inr ((s, q, o), b, m)) ↦ cc
              ],
            ))
            (λ name. (
              λ e. any one name (next.0 e),
              λ d. elim (inv d) [
                | inl (a, b, m) ↦ next.1 m
                | inr (inl (a, b, m)) ↦ absurd (ground arith)
                | inr (inr ((s, q, o), b, m)) ↦ cc
              ],
            )))
        (λ no_one.
          if_cases goal (pc == b'[')
            (if (match_bracket p c).0 then try (match_bracket p c).1 t else false) _
            (λ opens.
              if_cases goal (match_bracket p c).0 (try (match_bracket p c).1 t) false
                (λ held.
                  let rest =
                    right (match_bracket p c).1 t (omega (arith, length-match_bracket p c)) in
                  (
                    λ e. accepted-Matches pc p c t opens held (rest.0 e),
                    λ d. elim (inv d) [
                      | inl (a, b, m) ↦ cc
                      | inr (inl (a, b, m)) ↦ rest.1 m
                      | inr (inr ((s, q, o), b, m)) ↦ cc
                    ],
                  ))
                (λ free. (
                  λ e. cc,
                  λ d. elim (inv d) [
                    | inl (a, b, m) ↦ cc
                    | inr (inl (a, b, m)) ↦ cc
                    | inr (inr ((s, q, o), b, m)) ↦ cc
                  ],
                )))
            (λ no_class.
              if_cases goal (pc == c) (try p t) false
                (λ eq_c. (
                  λ e. same (plain, no_one, no_class) ((==_iff pc c).0 eq_c) (next.0 e),
                  λ d. elim (inv d) [
                    | inl (a, b, m) ↦ cc
                    | inr (inl (a, b, m)) ↦ cc
                    | inr (inr (l, b, m)) ↦ next.1 m
                  ],
                ))
                (λ ne_c. (
                  λ e. cc,
                  λ d. elim (inv d) [
                    | inl (a, b, m) ↦ cc
                    | inr (inl (a, b, m)) ↦ cc
                    | inr (inr (l, b, m)) ↦ absurd (ground arith)
                  ],
                ))))

  match_step_iff :
      (p t : Bytes) → IsRight try (length p) → (match_step try p t ≡ true) ↔ Matches p t
  unfolding match_step
  match_step_iff [] [] right = (λ e. trailing done, λ d. refl)
  match_step_iff [] (c ∷ t) right = (λ e. cc, λ d. absurd (empty_inv c t d))
  match_step_iff (pc ∷ p) [] right =
      let ends = only_trailing-Trails (length (pc ∷ p)) (pc ∷ p) (omega arith) in
      (λ e. trailing (ends.0 e), λ d. ends.1 (trailing_inv (pc ∷ p) d))
  match_step_iff (pc ∷ p) (c ∷ t) right =
      if_cases (λ b. (b ≡ true) ↔ Matches (pc ∷ p) (c ∷ t)) (is_star pc) (match_star try p (c ∷ t))
        (match_one try pc p c t) (λ e. match_star_iff p t pc c e right)
        (λ e. match_one_iff pc p c t e right)

match_loop_iff :
    (fuel : ℕ) (p t : Bytes) → length p ≤ fuel → (match_loop fuel p t ≡ true) ↔ Matches p t
unfolding match_loop
match_loop_iff zero p t h = match_step_iff (λ p t. false) p t (λ q r l. absurd (omega arith))
match_loop_iff (suc fuel) p t h =
    match_step_iff (match_loop fuel) p t (λ q r l. match_loop_iff fuel q r (omega arith))

-- The matcher answers true exactly when the text matches the pattern, with the fuel it is given.
pub match_recursive_iff : (p t : Bytes) → (match_recursive p t ≡ true) ↔ Matches p t
unfolding match_recursive
match_recursive_iff p t = match_loop_iff (length p) p t (omega arith)

literal_iff : (p t : Bytes) → has_glob_chars p ≡ false → (bytes_eq p t ≡ true) ↔ Matches p t
unfolding has_glob_chars bytes_eq
literal_iff [] [] h = (λ e. trailing done, λ d. refl)
literal_iff [] (c ∷ t) h = (λ e. cc, λ d. absurd (empty_inv c t d))
literal_iff (pc ∷ p) [] h =
    (λ e. cc, λ d. elim (trailing_inv (pc ∷ p) d) [ stars _ _ a _ _ b ↦ absurd (ground arith) ])
literal_iff (pc ∷ p) (c ∷ t) h =
    let rest = literal_iff p t (ground arith) in
    let plain : is_star pc ≡ false = ground arith in
    let no_one : (pc == b'?') ≡ false = ground arith in
    let no_class : (pc == b'[') ≡ false = ground arith in
    (
      λ e. same (plain, no_one, no_class) (ground arith) (rest.0 (ground arith)),
      λ d. elim (plain_inv pc p c t plain d) [
        | inl (a, b, m) ↦ absurd (ground arith)
        | inr (inl (a, b, m)) ↦ absurd (ground arith)
        | inr (inr (l, b, m)) ↦ let later = rest.1 m in ground arith
      ],
    )

-- A glob matches a file name exactly when the name matches the pattern as the relation says: `**` with
-- a separator right behind it stands for any text, `*` for any text without a separator, `?` for one
-- character but a separator, a bracket for a character that an item of it holds, or that none holds
-- where it is negated, any other character for itself, and where the text ends stars may be left,
-- one or two and then an optional separator at a time. Without a wildcard the two texts are compared.
pub matches_iff : (p t : Bytes) → (matches p t ≡ true) ↔ Matches p t
unfolding matches
matches_iff p t =
    if_cases (λ b. (b ≡ true) ↔ Matches p t) (not (has_glob_chars p)) (bytes_eq p t)
      (match_recursive p t) (λ plain. literal_iff p t (ground arith))
      (λ wild. match_recursive_iff p t)
