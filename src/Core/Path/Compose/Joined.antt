-- ===== src/Core/Path/Compose/Joined.antt =====
-- The parts of a joined path, and the walk along them.
use putup.Prelude.{
  ℕ, ◌≡◌, refl, ap, sym, ◌∙◌, Bool, true, false, not, List, [], ◌∷◌, ◌++◌, append_assoc, Bytes,
  slash, is_nil, ◌==◌, if-true, if_cases, arith, Bool-cases, ==_iff, inl, inr,
}
use putup.Core.Path.{root_length, is_absolute, segments, onto_first, is_skipped, ends_in_slash}
use putup.Core.Path.Segments.{segments-slash, segments-name, segments-some}
use putup.Core.Path.Walk.{Place, follow, walk, place_of}
use putup.Core.Path.Compose.{join, kept_parts}

onto_first-append :
    (c : ℕ) (s : Bytes) (rest more : List Bytes)
    → onto_first c ((s ∷ rest) ++ more) ≡ onto_first c (s ∷ rest) ++ more
onto_first-append c s rest more = refl

-- A path that ends in a separator is split at its end.
pub segments-after :
    (a b : Bytes) → ends_in_slash a ≡ true → segments (a ++ b) ≡ segments a ++ segments b
unfolding ends_in_slash segments
segments-after [] b h = cc
segments-after (c ∷ []) b h =
    let same : c ≡ slash = (==_iff c slash).0 h in
    rw same (segments-slash b ∙ ap (λ l. l ++ segments b) (sym (segments-slash [])))
segments-after (c ∷ d ∷ a) b h =
    let later = segments-after (d ∷ a) b h in
    elim (Bool-cases (c == slash)) [
      | inl here ↦
          let same : c ≡ slash = (==_iff c slash).0 here in
          rw same (
            segments-slash (d ∷ a ++ b)
            ∙ ap (λ l. [] ∷ l) later
            ∙ ap (λ l. l ++ segments b) (sym (segments-slash (d ∷ a))))
      | inr away ↦
          let (s, rest, e) = segments-some d a in
          segments-name c (d ∷ a ++ b) away
          ∙ ap (onto_first c) (later ∙ ap (λ l. l ++ segments b) e)
          ∙ ap (λ l. l ++ segments b) (sym (segments-name c (d ∷ a) away ∙ ap (onto_first c) e))
    ]

-- a separator at the end changes no part
segments-ended :
    (a : Bytes)
    → is_nil a ≡ false
    → ends_in_slash a ≡ false
    → segments (a ++ slash ∷ []) ≡ segments a
unfolding ends_in_slash segments
segments-ended [] n h = cc
segments-ended (c ∷ []) n h = segments-name c (slash ∷ []) h ∙ sym (segments-name c [] h)
segments-ended (c ∷ d ∷ a) n h =
    let later = segments-ended (d ∷ a) refl h in
    elim (Bool-cases (c == slash)) [
      | inl here ↦
          let same : c ≡ slash = (==_iff c slash).0 here in
          rw same (
            segments-slash (d ∷ a ++ slash ∷ [])
            ∙ ap (λ l. [] ∷ l) later
            ∙ sym (segments-slash (d ∷ a)))
      | inr away ↦
          segments-name c (d ∷ a ++ slash ∷ []) away
          ∙ ap (onto_first c) later
          ∙ sym (segments-name c (d ∷ a) away)
    ]

pub ends_in_slash-snoc : (a : Bytes) → ends_in_slash (a ++ slash ∷ []) ≡ true
unfolding ends_in_slash
ends_in_slash-snoc [] = refl
ends_in_slash-snoc (c ∷ []) = refl
ends_in_slash-snoc (c ∷ d ∷ a) = ends_in_slash-snoc (d ∷ a)

segments-between :
    (a b : Bytes)
    → is_nil a ≡ false
    → ends_in_slash a ≡ false
    → segments (a ++ slash ∷ b) ≡ segments a ++ segments b
segments-between a b n h =
    ap segments (sym (append_assoc a (slash ∷ []) b))
    ∙ segments-after (a ++ slash ∷ []) b (ends_in_slash-snoc a)
    ∙ ap (λ l. l ++ segments b) (segments-ended a n h)

root_length-append : (a b : Bytes) → is_nil a ≡ false → root_length (a ++ b) ≡ root_length a
unfolding root_length
root_length-append [] b n = cc
root_length-append (c ∷ a) b n = refl

-- the parts of a joined path, and its root
pub join-segments :
    (a b : Bytes)
    → is_nil b ≡ false
    → is_absolute b ≡ false
    → (segments (join a b) ≡ segments a ++ segments b) × (is_absolute (join a b) ≡ is_absolute a)
unfolding join segments root_length
join-segments [] b n r = simp n (refl, r)
join-segments (c ∷ a) b n r =
    let P : Bytes → Type 0 =
      λ p. (segments p ≡ segments (c ∷ a) ++ segments b) × (is_absolute p ≡ is_absolute (c ∷ a)) in
    if_cases P (is_nil b) (c ∷ a) _ (λ e. cc)
      (λ _.
        if_cases P (is_absolute b) b _ (λ e. cc)
          (λ _.
            if_cases P (not (ends_in_slash (c ∷ a))) (c ∷ a ++ slash ∷ b) (c ∷ a ++ b)
              (λ open_end. (segments-between (c ∷ a) b refl (ground arith), refl))
              (λ closed. (segments-after (c ∷ a) b (ground arith), refl))))

pub walk-append :
    (absolute : Bool) (xs ys : List Bytes) (q : Place)
    → walk absolute (xs ++ ys) q ≡ walk absolute ys (walk absolute xs q)
walk-append absolute [] ys q = refl
walk-append absolute (x ∷ xs) ys q = walk-append absolute xs ys (follow absolute x q)

pub walk-kept_parts :
    (absolute : Bool) (xs : List Bytes) (q : Place)
    → walk absolute (kept_parts xs) q ≡ walk absolute xs q
unfolding kept_parts
walk-kept_parts absolute [] q = refl
walk-kept_parts absolute (x ∷ xs) q =
    if_cases (λ l. walk absolute l q ≡ walk absolute xs (follow absolute x q)) (is_skipped x)
      (kept_parts xs) (x ∷ kept_parts xs)
      (λ e. walk-kept_parts absolute xs q ∙ ap (walk absolute xs) (sym (if-true q _ e)))
      (λ e. walk-kept_parts absolute xs (follow absolute x q))

-- the root itself is no step
pub place_of_whole : (p : Bytes) → place_of p ≡ walk (is_absolute p) (segments p) (0, [])
unfolding root_length segments
place_of_whole [] = refl
place_of_whole (c ∷ p) = elim (Bool-cases (c == slash)) [
  | inl here ↦ let same : c ≡ slash = (==_iff c slash).0 here in rw same refl
  | inr away ↦ simp away
]
