-- ===== src/Core/Path/Walk.antt =====
-- The place that a path leads to, where no directory is a symbolic link.
use putup.Prelude.{
  ℕ, zero, suc, ◌+◌, ◌≡◌, refl, ap, sym, ◌∙◌, Bool, true, false, List, [], ◌∷◌, ◌++◌, reverse,
  append_assoc, Bytes, bytes_eq_refl, All, drop, if◌then◌else◌, if-true, if-false, if_cases,
  if_both, arith, Bool-cases, inl, inr,
}
use putup.Core.Path.{
  dot_dot, root_length, is_absolute, segments, is_skipped, is_up, push_part, collect,
}
use putup.Core.Path.Shape.{HasNoSlash, IsName, ups, reverse-cons, up_eq}
use putup.Core.Path.Fixed.{up_kept}

-- how many directories above the start, and the names below there, the last one first
abbrev pub Place : Type 0
Place = ℕ × List Bytes

-- one directory up; the root is its own parent
abbrev pub leave : Bool → Place → Place
leave absolute (n, x ∷ names) = (n, names)
leave absolute (n, []) = if absolute then (n, []) else (suc n, [])

abbrev pub follow : Bool → Bytes → Place → Place
follow absolute part place =
    if is_skipped part
    then place
    else if is_up part
    then leave absolute place
    else (place.0, part ∷ place.1)

abbrev pub walk : Bool → List Bytes → Place → Place
walk absolute [] place = place
walk absolute (part ∷ parts) place = walk absolute parts (follow absolute part place)

abbrev pub place_of : Bytes → Place
place_of p = walk (is_absolute p) (segments (drop (root_length p) p)) (0, [])

-- the vector of parts that stands for a place
abbrev pub flat : Place → List Bytes
flat place = place.1 ++ ups place.0

push_part-leave :
    (absolute : Bool) (part : Bytes) (n : ℕ) (names : List Bytes)
    → is_skipped part ≡ false
    → is_up part ≡ true
    → All IsName names
    → push_part absolute part (flat (n, names)) ≡ flat (leave absolute (n, names))
unfolding push_part
push_part-leave absolute part n (x ∷ names) k u ((kx, ux, cx), a) = simp (k, u, ux)
push_part-leave true part zero [] k u a = simp (k, u)
push_part-leave true part (suc n) [] k u a = simp (k, u, bytes_eq_refl dot_dot)
push_part-leave false part zero [] k u a = simp (k, u) (ap (λ x. x ∷ []) (up_eq part u))
push_part-leave false part (suc n) [] k u a =
    simp (k, u, bytes_eq_refl dot_dot) (ap (λ x. x ∷ dot_dot ∷ ups n) (up_eq part u))

push_part-follow :
    (absolute : Bool) (part : Bytes) (place : Place)
    → All IsName place.1
    → push_part absolute part (flat place) ≡ flat (follow absolute part place)
unfolding push_part
push_part-follow absolute part place a = elim (Bool-cases (is_skipped part)) [
  | inl skipped ↦ simp skipped
  | inr kept ↦ elim (Bool-cases (is_up part)) [
    | inl up ↦
        push_part-leave absolute part place.0 place.1 kept up a
        ∙ sym (ap flat (if-false place _ kept ∙ if-true _ _ up))
    | inr name ↦ simp (kept, name)
  ]
]

leave-names :
    (absolute : Bool) (place : Place) → All IsName place.1 → All IsName (leave absolute place).1
leave-names absolute (n, x ∷ names) (m, a) = a
leave-names true (n, []) a = tt
leave-names false (n, []) a = tt

follow-names :
    (absolute : Bool) (part : Bytes) (place : Place)
    → HasNoSlash part
    → All IsName place.1
    → All IsName (follow absolute part place).1
follow-names absolute part place c a =
    if_cases {A = Place} (λ q. All IsName q.1) (is_skipped part) place _ (λ e. a)
      (λ kept.
        if_cases {A = Place} (λ q. All IsName q.1) (is_up part) (leave absolute place)
          (place.0, part ∷ place.1) (λ up. leave-names absolute place a)
          (λ name. ((kept, name, c), a)))

pub walk-names :
    (absolute : Bool) (parts : List Bytes) (place : Place)
    → All HasNoSlash parts
    → All IsName place.1
    → All IsName (walk absolute parts place).1
walk-names absolute [] place c a = a
walk-names absolute (s ∷ parts) place (c, cs) a =
    walk-names absolute parts (follow absolute s place) cs (follow-names absolute s place c a)

pub collect-walk :
    (absolute : Bool) (parts : List Bytes) (place : Place)
    → All HasNoSlash parts
    → All IsName place.1
    → collect absolute parts (flat place) ≡ flat (walk absolute parts place)
unfolding collect
collect-walk absolute [] place c a = refl
collect-walk absolute (s ∷ parts) place (c, cs) a =
    ap (collect absolute parts) (push_part-follow absolute s place a)
    ∙ collect-walk absolute parts (follow absolute s place) cs (follow-names absolute s place c a)

-- under the root there is nothing above the start
leave-rooted : (place : Place) → place.0 ≡ 0 → (leave true place).0 ≡ 0
leave-rooted (n, x ∷ names) e = e
leave-rooted (n, []) e = e

pub walk-rooted : (parts : List Bytes) (place : Place) → place.0 ≡ 0 → (walk true parts place).0 ≡ 0
walk-rooted [] place e = e
walk-rooted (s ∷ parts) place e = walk-rooted parts (follow true s place) (
    if_both {A = Place} (λ q. q.0 ≡ 0) (is_skipped s) place _ e
      (if_both {A = Place} (λ q. q.0 ≡ 0) (is_up s) (leave true place) (place.0, s ∷ place.1)
        (leave-rooted place e) e))

pub walk_down :
    (absolute : Bool) (ns : List Bytes) (m : ℕ) (ys : List Bytes)
    → All IsName ns
    → walk absolute ns (m, ys) ≡ (m, reverse ns ++ ys)
walk_down absolute [] m ys a = refl
walk_down absolute (s ∷ ns) m ys ((k, u, c), a) =
    ap (walk absolute ns) (if-false (m, ys) _ k ∙ if-false (leave absolute (m, ys)) (m, s ∷ ys) u)
    ∙ walk_down absolute ns m (s ∷ ys) a
    ∙ ap (λ xs. (m, xs))
        (sym (ap (λ xs. xs ++ ys) (reverse-cons s ns) ∙ append_assoc (reverse ns) (s ∷ []) ys))

pub walk_up :
    (n m : ℕ) (xs : List Bytes) → walk false (ups n ++ xs) (m, []) ≡ walk false xs (n + m, [])
walk_up zero m xs = ap (λ k. walk false xs (k, [])) (omega arith)
walk_up (suc n) m xs =
    ap (walk false (ups n ++ xs))
      (if-false (m, []) _ up_kept ∙ if-true _ (m, dot_dot ∷ []) (bytes_eq_refl dot_dot))
    ∙ walk_up n (suc m) xs
    ∙ ap (λ k. walk false xs (k, [])) (omega arith)
