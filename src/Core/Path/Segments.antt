-- ===== src/Core/Path/Segments.antt =====
-- Splitting a path and joining its parts.
use putup.Prelude.{
  ℕ, ◌≡◌, refl, ap, sym, ◌∙◌, false, List, [], ◌∷◌, ◌++◌, Bytes, slash, is_nil, All, ◌==◌, if-false,
  if_cases, arith, Bool-cases, ==_iff, inl, inr, count,
}
use putup.Core.Path.{segments, onto_first, join_parts, ends_in_slash}

-- a part as it stands between separators
abbrev pub IsPart : Bytes → Type 0
IsPart s = (is_nil s ≡ false) × (count slash s ≡ 0)

All-onto_first :
    (c : ℕ) (parts : List Bytes)
    → (c == slash) ≡ false
    → All (λ s. count slash s ≡ 0) parts
    → All (λ s. count slash s ≡ 0) (onto_first c parts)
All-onto_first c [] h a = (ground arith, tt)
All-onto_first c (s ∷ parts) h (e, a) = (ground arith, a)

pub segments-All : (p : Bytes) → All (λ s. count slash s ≡ 0) (segments p)
unfolding segments
segments-All [] = tt
segments-All (c ∷ p) =
    if_cases (All (λ s. count slash s ≡ 0)) (c == slash) ([] ∷ segments p)
      (onto_first c (segments p)) (λ e. (refl, segments-All p))
      (λ e. All-onto_first c (segments p) e (segments-All p))

pub segments-slash : (p : Bytes) → segments (slash ∷ p) ≡ [] ∷ segments p
unfolding segments
segments-slash p = refl

pub segments-name :
    (c : ℕ) (p : Bytes) → (c == slash) ≡ false → segments (c ∷ p) ≡ onto_first c (segments p)
unfolding segments
segments-name c p h = if-false ([] ∷ segments p) (onto_first c (segments p)) h

segments-part : (s : Bytes) → IsPart s → segments s ≡ s ∷ []
unfolding segments
segments-part [] (n, e) = cc
segments-part (c ∷ []) (n, e) = segments-name c [] (ground arith)
segments-part (c ∷ d ∷ s) (n, e) =
    segments-name c (d ∷ s) (ground arith)
    ∙ ap (onto_first c) (segments-part (d ∷ s) (refl, ground arith))

segments-append : (s rest : Bytes) → IsPart s → segments (s ++ slash ∷ rest) ≡ s ∷ segments rest
segments-append [] rest (n, e) = cc
segments-append (c ∷ []) rest (n, e) =
    segments-name c (slash ∷ rest) (ground arith) ∙ ap (onto_first c) (segments-slash rest)
segments-append (c ∷ d ∷ s) rest (n, e) =
    segments-name c (d ∷ s ++ slash ∷ rest) (ground arith)
    ∙ ap (onto_first c) (segments-append (d ∷ s) rest (refl, ground arith))

pub segments-join_parts :
    (parts : List Bytes) → All IsPart parts → segments (join_parts parts) ≡ parts
unfolding join_parts segments
segments-join_parts [] a = refl
segments-join_parts (s ∷ []) (p, a) = segments-part s p
segments-join_parts (s ∷ t ∷ parts) (p, a) =
    segments-append s (join_parts (t ∷ parts)) p
    ∙ ap (λ l. s ∷ l) (segments-join_parts (t ∷ parts) a)

single : (c : ℕ) → (c == slash) ≡ false → join_parts (segments (c ∷ [])) ≡ c ∷ []
unfolding join_parts segments
single c h = ap join_parts (segments-name c [] h)

pub segments-some :
    (c : ℕ) (p : Bytes) → (s : Bytes) × (rest : List Bytes) × (segments (c ∷ p) ≡ s ∷ rest)
unfolding segments
segments-some c p =
    if_cases (λ l. (s : Bytes) × (rest : List Bytes) × (l ≡ s ∷ rest)) (c == slash)
      ([] ∷ segments p) (onto_first c (segments p)) (λ e. ([], segments p, refl))
      (λ e. first (segments p))
  where
    first : (l : List Bytes) → (s : Bytes) × (rest : List Bytes) × (onto_first c l ≡ s ∷ rest)
    first [] = (c ∷ [], [], refl)
    first (s ∷ rest) = (c ∷ s, rest, refl)

join_parts-onto_first :
    (c : ℕ) (s : Bytes) (rest : List Bytes)
    → join_parts (onto_first c (s ∷ rest)) ≡ c ∷ join_parts (s ∷ rest)
unfolding join_parts
join_parts-onto_first c s [] = refl
join_parts-onto_first c s (t ∷ rest) = refl

join_parts-empty :
    (s : Bytes) (rest : List Bytes) → join_parts ([] ∷ s ∷ rest) ≡ slash ∷ join_parts (s ∷ rest)
unfolding join_parts
join_parts-empty s rest = refl

-- the other way round, for a path that does not end in a separator
pub join_parts-segments : (p : Bytes) → ends_in_slash p ≡ false → join_parts (segments p) ≡ p
unfolding ends_in_slash join_parts segments
join_parts-segments [] h = refl
join_parts-segments (c ∷ []) h = single c h
join_parts-segments (c ∷ d ∷ p) h =
    let (s, rest, e) = segments-some d p in
    let later = join_parts-segments (d ∷ p) h in
    elim (Bool-cases (c == slash)) [
      | inl here ↦
          let same : c ≡ slash = (==_iff c slash).0 here in
          rw same (
            ap join_parts (segments-slash (d ∷ p) ∙ ap (λ l. [] ∷ l) e)
            ∙ join_parts-empty s rest
            ∙ ap (λ l. slash ∷ l) (ap join_parts (sym e) ∙ later))
      | inr away ↦
          ap join_parts (segments-name c (d ∷ p) away ∙ ap (onto_first c) e)
          ∙ join_parts-onto_first c s rest
          ∙ ap (λ l. c ∷ l) (ap join_parts (sym e) ∙ later)
    ]
