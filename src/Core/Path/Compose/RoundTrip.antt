-- ===== src/Core/Path/Compose/RoundTrip.antt =====
-- `relative` and `join`, one after the other.
use putup.Prelude.{
  ◌≡◌, refl, ap, ap₂, sym, subst, ◌∙◌, Bool, false, not, List, [], ◌∷◌, ◌++◌, reverse,
  reverse-append, append-nil, Bytes, bytes_eq, bytes_eq→eq, bytes_eq_refl, is_nil, All, All-append,
  length, length-append, ◌==◌, if◌then◌else◌, if-true, if-false, if_cases, arith,
}
use putup.Core.Path.{
  dot, dot_dot, root_length, is_absolute, segments, is_skipped, is_up, join_parts,
}
use putup.Core.Path.Segments.{IsPart, segments-All, segments-join_parts}
use putup.Core.Path.Shape.{HasNoSlash, IsName, reverse-cons}
use putup.Core.Path.Fixed.{up_kept}
use putup.Core.Path.Normal.{root_length-join_parts, join_parts-some}
use putup.Core.Path.Walk.{Place, walk, place_of, walk_down}
use putup.Core.Path.Compose.{join, kept_parts, split, drop_common, up_parts, relative}
use putup.Core.Path.Compose.Joined.{join-segments, walk-append, walk-kept_parts, place_of_whole}

-- what `drop_common` leaves behind a common beginning
abbrev Common : List Bytes → List Bytes → List Bytes × List Bytes → Type 0
Common target base q = (common : List Bytes) × (target ≡ common ++ q.0) × (base ≡ common ++ q.1)

drop_common-Common : (target base : List Bytes) → Common target base (drop_common target base)
unfolding drop_common
drop_common-Common [] base = ([], refl, refl)
drop_common-Common (t ∷ target) [] = ([], refl, refl)
drop_common-Common (t ∷ target) (b ∷ base) =
    if_cases (Common (t ∷ target) (b ∷ base)) (bytes_eq t b) (drop_common target base)
      (t ∷ target, b ∷ base)
      (λ e.
        let (c, x, y) = drop_common-Common target base in
        (t ∷ c, ap (λ l. t ∷ l) x, ap₂ (λ u l. u ∷ l) (sym (bytes_eq→eq t b e)) y))
      (λ e. ([], refl, refl))

All-left : (P : Bytes → Type 0) (xs ys : List Bytes) → All P (xs ++ ys) → All P xs × All P ys
All-left P [] ys a = (tt, a)
All-left P (x ∷ xs) ys (p, a) = let (l, r) = All-left P xs ys a in ((p, l), r)

kept_parts-IsPart : (xs : List Bytes) → All HasNoSlash xs → All IsPart (kept_parts xs)
unfolding kept_parts
kept_parts-IsPart [] a = tt
kept_parts-IsPart (x ∷ xs) (c, a) =
    if_cases (All IsPart) (is_skipped x) (kept_parts xs) (x ∷ kept_parts xs)
      (λ e. kept_parts-IsPart xs a) (λ e. ((ground arith, c), kept_parts-IsPart xs a))

pub kept_parts-IsName :
    (xs : List Bytes)
    → All HasNoSlash xs
    → All (λ s. is_up s ≡ false) xs
    → All IsName (kept_parts xs)
unfolding kept_parts
kept_parts-IsName [] a u = tt
kept_parts-IsName (x ∷ xs) (c, a) (n, u) =
    if_cases (All IsName) (is_skipped x) (kept_parts xs) (x ∷ kept_parts xs)
      (λ e. kept_parts-IsName xs a u) (λ e. ((e, n, c), kept_parts-IsName xs a u))

up_parts-IsPart : (ys : List Bytes) → All IsPart (up_parts ys)
up_parts-IsPart [] = tt
up_parts-IsPart (y ∷ ys) = ((refl, refl), up_parts-IsPart ys)

-- as many steps up as there are names
walk-up_parts :
    (absolute : Bool) (ys zs rest : List Bytes)
    → length zs ≡ length ys
    → walk absolute (up_parts ys) (0, zs ++ rest) ≡ (0, rest)
walk-up_parts absolute [] [] rest e = refl
walk-up_parts absolute [] (z ∷ zs) rest e = absurd (omega arith)
walk-up_parts absolute (y ∷ ys) [] rest e = absurd (omega arith)
walk-up_parts absolute (y ∷ ys) (z ∷ zs) rest e =
    ap (walk absolute (up_parts ys)) (
      if-false {A = Place} (0, z ∷ zs ++ rest) _ up_kept
      ∙ if-true {A = Place} (0, zs ++ rest) (0, dot_dot ∷ z ∷ zs ++ rest) (bytes_eq_refl dot_dot))
    ∙ walk-up_parts absolute ys zs rest (omega arith)

length-reverse : (xs : List Bytes) → length (reverse xs) ≡ length xs
length-reverse [] = refl
length-reverse (x ∷ xs) =
    ap length (reverse-cons x xs)
    ∙ omega (arith, length-append (reverse xs) (x ∷ []), length-reverse xs)

-- the names below the base, left by the steps up, and the names of the target
pub walk-over :
    (absolute : Bool) (common base target : List Bytes)
    → All IsName (common ++ base)
    → walk absolute (up_parts base ++ target) (walk absolute (common ++ base) (0, []))
      ≡ walk absolute (common ++ target) (0, [])
walk-over absolute common base target a =
    let (names, below) = All-left IsName common base a in
    let there : walk absolute (common ++ base) (0, []) ≡ (0, reverse base ++ reverse common) =
      walk_down absolute (common ++ base) 0 [] a
      ∙ ap (λ l. (0, l)) (append-nil (reverse (common ++ base)) ∙ reverse-append common base) in
    ap (walk absolute (up_parts base ++ target)) there
    ∙ walk-append absolute (up_parts base) target (0, reverse base ++ reverse common)
    ∙ ap (walk absolute target)
        (walk-up_parts absolute base (reverse base) (reverse common) (length-reverse base))
    ∙ ap (walk absolute target) (
        sym (walk_down absolute common 0 [] names ∙ ap (λ l. (0, l)) (append-nil (reverse common))))
    ∙ sym (walk-append absolute common target (0, []))

-- what a relative path that spells out some parts satisfies
abbrev pub Spells : Bool → List Bytes → Bytes → Type 0
Spells absolute parts p =
    (is_nil p ≡ false)
    × (is_absolute p ≡ false)
    × ((q : Place) → walk absolute (segments p) q ≡ walk absolute parts q)

pub dot-Spells : (absolute : Bool) → Spells absolute [] dot
unfolding root_length segments bytes_eq
dot-Spells absolute = (refl, refl, λ q. refl)

parts-Spells :
    (absolute : Bool) (parts : List Bytes)
    → All IsPart parts
    → Spells absolute parts (if is_nil (join_parts parts) then dot else join_parts parts)
unfolding join_parts
parts-Spells absolute [] a = dot-Spells absolute
parts-Spells absolute (s ∷ parts) (p, a) =
    let some = join_parts-some s parts p in
    subst (Spells absolute (s ∷ parts)) (sym (if-false dot (join_parts (s ∷ parts)) some)) (
      some,
      ap (λ n. not (n == 0)) (root_length-join_parts s parts p),
      λ q. ap (λ l. walk absolute l q) (segments-join_parts (s ∷ parts) (p, a)),
    )

pub joined-place :
    (absolute : Bool) (base p : Bytes) (parts : List Bytes)
    → is_absolute base ≡ absolute
    → Spells absolute parts p
    → place_of (join base p) ≡ walk absolute parts (walk absolute (segments base) (0, []))
joined-place absolute base p parts e (n, r, w) =
    let (s, root) = join-segments base p n r in
    place_of_whole (join base p)
    ∙ ap₂ (λ b l. walk b l (0, [])) (root ∙ e) s
    ∙ walk-append absolute (segments base) (segments p) (0, [])
    ∙ w (walk absolute (segments base) (0, []))

-- When both paths are absolute or both relative, and the base has no `..`, the path from the base to
-- the target, joined to the base, leads where the target leads.
pub join-relative :
    (target base : Bytes)
    → is_absolute target ≡ is_absolute base
    → All (λ s. is_up s ≡ false) (segments base)
    → place_of (join base (relative target base)) ≡ place_of target
unfolding relative split
join-relative target base roots no_up =
    let absolute = is_absolute base in
    let q = drop_common (split target) (split base) in
    let (common, t, b) = drop_common-Common (split target) (split base) in
    let base_names : All IsName (common ++ q.1) =
      subst (All IsName) b (kept_parts-IsName (segments base) (segments-All base) no_up) in
    let target_parts : All IsPart (common ++ q.0) =
      subst (All IsPart) t (kept_parts-IsPart (segments target) (segments-All target)) in
    let spelled = parts-Spells absolute (up_parts q.1 ++ q.0) (
      All-append IsPart (up_parts q.1) q.0 (up_parts-IsPart q.1)
        (All-left IsPart common q.0 target_parts).1) in
    let ends : place_of target ≡ walk absolute (common ++ q.0) (0, []) =
      place_of_whole target
      ∙ ap (λ r. walk r (segments target) (0, [])) roots
      ∙ sym (walk-kept_parts absolute (segments target) (0, []))
      ∙ ap (λ l. walk absolute l (0, [])) t in
    let begins : walk absolute (segments base) (0, []) ≡ walk absolute (common ++ q.1) (0, []) =
      sym (walk-kept_parts absolute (segments base) (0, []))
      ∙ ap (λ l. walk absolute l (0, [])) b in
    if_cases (λ p. place_of (join base p) ≡ place_of target) (bytes_eq target base) dot _
      (λ e.
        joined-place absolute base dot [] refl (dot-Spells absolute)
        ∙ sym (place_of_whole base)
        ∙ ap place_of (sym (bytes_eq→eq target base e)))
      (λ e.
        joined-place absolute base _ (up_parts q.1 ++ q.0) refl spelled
        ∙ ap (walk absolute (up_parts q.1 ++ q.0)) begins
        ∙ walk-over absolute common q.1 q.0 base_names
        ∙ sym ends)
