-- ===== src/Core/Path/Normal.antt =====
-- `normalize` against `is_normal`.
use putup.Prelude.{
  ℕ, zero, suc, ◌≡◌, ◌≢◌, refl, ap, sym, subst, ◌∙◌, Bool, true, false, not, ◌&&◌, List, [], ◌∷◌,
  ◌++◌, Bytes, slash, bytes_eq, bytes_eq→eq, is_nil, All, drop, ◌==◌, if-false, if_cases, arith,
  Bool-cases, ==_iff, inl, inr,
}
use putup.Core.Path.{
  dot, root_length, is_absolute, segments, is_skipped, collect, push_part, join_parts, spell,
  normalize, ends_in_slash, parts_normal, is_normal,
}
use putup.Core.Path.Segments.{
  IsPart, segments-some, segments-All, segments-join_parts, join_parts-segments,
}
use putup.Core.Path.Shape.{HasNoSlash, IsName, ups, Shape, collect-Shape}
use putup.Core.Path.Fixed.{parts_normal-Shape, collect-fixed, normal-Shape}

-- the parts of a path without its root
abbrev pub body : Bytes → Bytes
body p = drop (root_length p) p

pub IsName-IsPart : (s : Bytes) → IsName s → IsPart s
IsName-IsPart s (k, u, c) = (ground arith, c)

pub Shape-IsPart : (absolute : Bool) (parts : List Bytes) → Shape absolute parts → All IsPart parts
Shape-IsPart absolute parts sh = subst (All IsPart) (sym sh.same) (all sh.height sh.names sh.named)
  where
    all : (n : ℕ) (ns : List Bytes) → All IsName ns → All IsPart (ups n ++ ns)
    all zero [] a = tt
    all zero (s ∷ ns) (m, a) = (IsName-IsPart s m, all zero ns a)
    all (suc n) ns a = ((refl, refl), all n ns a)

ends_in_slash-part : (s : Bytes) → HasNoSlash s → ends_in_slash s ≡ false
unfolding ends_in_slash
ends_in_slash-part [] h = refl
ends_in_slash-part (c ∷ []) h = ground arith
ends_in_slash-part (c ∷ d ∷ s) h = ends_in_slash-part (d ∷ s) (ground arith)

ends_in_slash-append :
    (s q : Bytes) → is_nil q ≡ false → ends_in_slash (s ++ slash ∷ q) ≡ ends_in_slash q
unfolding ends_in_slash
ends_in_slash-append [] [] h = cc
ends_in_slash-append [] (d ∷ q) h = refl
ends_in_slash-append (c ∷ []) q h = ends_in_slash-append [] q h
ends_in_slash-append (c ∷ d ∷ s) q h = ends_in_slash-append (d ∷ s) q h

pub join_parts-some :
    (s : Bytes) (parts : List Bytes) → IsPart s → is_nil (join_parts (s ∷ parts)) ≡ false
unfolding join_parts
join_parts-some [] parts (n, e) = cc
join_parts-some (c ∷ s) [] p = refl
join_parts-some (c ∷ s) (t ∷ parts) p = refl

ends_in_slash-join_parts :
    (parts : List Bytes) → All IsPart parts → ends_in_slash (join_parts parts) ≡ false
unfolding join_parts
ends_in_slash-join_parts [] a = ends_in_slash-part [] refl
ends_in_slash-join_parts (s ∷ []) (p, a) = ends_in_slash-part s p.1
ends_in_slash-join_parts (s ∷ t ∷ parts) (p, (q, a)) =
    ends_in_slash-append s (join_parts (t ∷ parts)) (join_parts-some t parts q)
    ∙ ends_in_slash-join_parts (t ∷ parts) (q, a)

-- what `is_normal` asks of the parts
abbrev IsBody : Bool → Bytes → Type 0
IsBody absolute b = (not (ends_in_slash b) && parts_normal absolute false (segments b)) ≡ true

join_parts-IsBody :
    (absolute : Bool) (parts : List Bytes)
    → Shape absolute parts
    → IsBody absolute (join_parts parts)
join_parts-IsBody absolute parts sh =
    let a = Shape-IsPart absolute parts sh in
    rw (ends_in_slash-join_parts parts a, segments-join_parts parts a)
      (parts_normal-Shape absolute parts sh)

IsBody-Shape : (absolute : Bool) (b : Bytes) → IsBody absolute b → Shape absolute (segments b)
IsBody-Shape absolute b h = normal-Shape absolute (segments b) (segments-All b) (ground arith)

pub root_length-name : (c : ℕ) (p : Bytes) → (c == slash) ≡ false → root_length (c ∷ p) ≡ 0
unfolding root_length
root_length-name c p h = if-false 1 0 h

pub root_length-join_parts :
    (s : Bytes) (parts : List Bytes) → IsPart s → root_length (join_parts (s ∷ parts)) ≡ 0
unfolding join_parts
root_length-join_parts [] parts (n, e) = cc
root_length-join_parts (c ∷ s) [] (n, e) = root_length-name c s (ground arith)
root_length-join_parts (c ∷ s) (t ∷ parts) (n, e) = root_length-name c _ (ground arith)

-- a path without a root
is_normal-body : (p : Bytes) → root_length p ≡ 0 → IsBody false p → is_normal p ≡ true
unfolding is_normal
is_normal-body p e h = if_cases (λ b. b ≡ true) (is_skipped p) true _ (λ _. refl) (λ _. rw e h)

pub is_normal-rooted :
    (b : Bytes)
    → is_normal (slash ∷ b) ≡ (not (ends_in_slash b) && parts_normal true false (segments b))
unfolding is_normal root_length bytes_eq
is_normal-rooted b = refl

pub spell-rooted : (parts : List Bytes) → spell true parts ≡ slash ∷ join_parts parts
unfolding spell join_parts
spell-rooted [] = refl
spell-rooted (s ∷ parts) = refl

dot_normal : is_normal dot ≡ true
unfolding is_normal bytes_eq
dot_normal = refl

spell-normal :
    (absolute : Bool) (parts : List Bytes)
    → Shape absolute parts
    → is_normal (spell absolute parts) ≡ true
unfolding spell is_normal
spell-normal true parts sh =
    ap is_normal (spell-rooted parts)
    ∙ is_normal-rooted (join_parts parts)
    ∙ join_parts-IsBody true parts sh
spell-normal false [] sh = dot_normal
spell-normal false (s ∷ parts) sh =
    is_normal-body (join_parts (s ∷ parts))
      (root_length-join_parts s parts (Shape-IsPart false (s ∷ parts) sh).0)
      (join_parts-IsBody false (s ∷ parts) sh)

-- Whatever the path, the result of `normalize` is a normal path.
pub is_normal-normalize : (p : Bytes) → is_normal (normalize p) ≡ true
unfolding normalize
is_normal-normalize p =
    spell-normal (is_absolute p) _
      (collect-Shape (is_absolute p) (segments (body p)) (segments-All (body p)))

normalize-rooted : (b : Bytes) → IsBody true b → normalize (slash ∷ b) ≡ slash ∷ b
unfolding normalize root_length
normalize-rooted b h =
    ap (spell true) (collect-fixed true (segments b) (IsBody-Shape true b h))
    ∙ spell-rooted (segments b)
    ∙ ap (λ l. slash ∷ l) (join_parts-segments b (ground arith))

pub spell-unrooted :
    (s : Bytes) (rest : List Bytes) → spell false (s ∷ rest) ≡ join_parts (s ∷ rest)
unfolding spell
spell-unrooted s rest = refl

spell-segments :
    (c : ℕ) (b : Bytes) → spell false (segments (c ∷ b)) ≡ join_parts (segments (c ∷ b))
spell-segments c b =
    let (s, rest, e) = segments-some c b in
    ap (spell false) e ∙ spell-unrooted s rest ∙ ap join_parts (sym e)

normalize-unrooted :
    (c : ℕ) (b : Bytes) → root_length (c ∷ b) ≡ 0 → IsBody false (c ∷ b) → normalize (c ∷ b) ≡ c ∷ b
unfolding normalize
normalize-unrooted c b e h = rw e (
    ap (spell false) (collect-fixed false (segments (c ∷ b)) (IsBody-Shape false (c ∷ b) h))
    ∙ spell-segments c b
    ∙ join_parts-segments (c ∷ b) (ground arith))

pub is_normal-unrooted :
    (p : Bytes) → root_length p ≡ 0 → is_skipped p ≡ false → is_normal p ≡ true → IsBody false p
unfolding is_normal
is_normal-unrooted p e k h =
    sym (
      ap
        (λ n.
          not (ends_in_slash (drop n p)) && parts_normal (not (n == 0)) false (segments (drop n p)))
        e)
    ∙ sym (
        if-false true
          (not (ends_in_slash (body p)) && parts_normal (is_absolute p) false (segments (body p)))
          k)
    ∙ h

normalize-dot : normalize dot ≡ dot
unfolding normalize spell collect push_part segments root_length bytes_eq
normalize-dot = refl

-- A normal path that is not empty is its own normalization.
pub normalize_fixes : (p : Bytes) → p ≢ [] → is_normal p ≡ true → normalize p ≡ p
normalize_fixes [] some h = absurd (some refl)
normalize_fixes (c ∷ b) some h = elim (Bool-cases (c == slash)) [
  | inl here ↦
      let same : c ≡ slash = (==_iff c slash).0 here in
      subst (λ x. is_normal (x ∷ b) ≡ true → normalize (x ∷ b) ≡ x ∷ b) (sym same)
        (λ g. normalize-rooted b (sym (is_normal-rooted b) ∙ g)) h
  | inr away ↦ elim (Bool-cases (is_skipped (c ∷ b))) [
    | inl skipped ↦
        subst (λ x. normalize x ≡ x) (sym (bytes_eq→eq (c ∷ b) dot skipped)) normalize-dot
    | inr kept ↦
        let unrooted = root_length-name c b away in
        normalize-unrooted c b unrooted (is_normal-unrooted (c ∷ b) unrooted kept h)
  ]
]
