-- ===== src/Core/Path/Fixed.antt =====
-- Parts in the shape of a normal path, under the loops of `is_normal` and `normalize`.
use putup.Prelude.{
  ℕ, zero, suc, ◌+◌, ◌≡◌, refl, ap, ap₂, ◌⊎◌, sym, ◌∙◌, Bool, true, false, ◌||◌, List, [], ◌∷◌,
  ◌++◌, reverse, reverse-append, reverse-reverse, append_assoc, Bytes, bytes_eq, bytes_eq_refl, All,
  if◌then◌else◌, arith, inl, inr,
}
use putup.Core.Path.{dot_dot, is_skipped, is_up, push_part, collect, parts_normal}
use putup.Core.Path.Shape.{HasNoSlash, IsName, ups, Shape, reverse-cons, reverse-ups, up_eq}

pub up_kept : is_skipped dot_dot ≡ false
unfolding bytes_eq
up_kept = refl

names-normal :
    (absolute seen : Bool) (ns : List Bytes) → All IsName ns → parts_normal absolute seen ns ≡ true
unfolding parts_normal
names-normal absolute seen [] a = refl
names-normal absolute seen (s ∷ ns) ((k, u, c), a) = simp (k, u, names-normal absolute true ns a)

ups-normal :
    (n : ℕ) (ns : List Bytes) → All IsName ns → parts_normal false false (ups n ++ ns) ≡ true
unfolding parts_normal
ups-normal zero ns a = names-normal false false ns a
ups-normal (suc n) ns a = simp (bytes_eq_refl dot_dot, up_kept, ups-normal n ns a)

pub push_name :
    (absolute : Bool) (s : Bytes) (parts : List Bytes)
    → IsName s
    → push_part absolute s parts ≡ s ∷ parts
unfolding push_part
push_name absolute s parts (k, u, c) = simp (k, u)

collect-names :
    (absolute : Bool) (ns parts : List Bytes)
    → All IsName ns
    → collect absolute ns parts ≡ reverse ns ++ parts
unfolding collect
collect-names absolute [] parts a = refl
collect-names absolute (s ∷ ns) parts (m, a) =
    ap (collect absolute ns) (push_name absolute s parts m)
    ∙ collect-names absolute ns (s ∷ parts) a
    ∙ sym (ap (λ xs. xs ++ parts) (reverse-cons s ns) ∙ append_assoc (reverse ns) (s ∷ []) parts)

push_up : (m : ℕ) → push_part false dot_dot (ups m) ≡ dot_dot ∷ ups m
unfolding push_part
push_up zero = simp (bytes_eq_refl dot_dot, up_kept)
push_up (suc m) = simp (bytes_eq_refl dot_dot, up_kept)

collect-ups :
    (n m : ℕ) (ns : List Bytes)
    → All IsName ns
    → collect false (ups n ++ ns) (ups m) ≡ reverse ns ++ ups (n + m)
unfolding collect
collect-ups zero m ns a =
    collect-names false ns (ups m) a ∙ ap (λ k. reverse ns ++ ups k) (omega arith)
collect-ups (suc n) m ns a =
    ap (collect false (ups n ++ ns)) (push_up m)
    ∙ collect-ups n (suc m) ns a
    ∙ ap (λ k. reverse ns ++ ups k) (omega arith)

pub unreverse : (n : ℕ) (ns : List Bytes) → reverse (reverse ns ++ ups n) ≡ ups n ++ ns
unreverse n ns =
    reverse-append (reverse ns) (ups n)
    ∙ ap (λ xs. xs ++ reverse (reverse ns)) (reverse-ups n)
    ∙ ap (λ xs. ups n ++ xs) (reverse-reverse ns)

pub parts_normal-Shape :
    (absolute : Bool) (parts : List Bytes)
    → Shape absolute parts
    → parts_normal absolute false parts ≡ true
parts_normal-Shape true parts sh =
    ap (parts_normal true false) (sh.same ∙ ap (λ n. ups n ++ sh.names) (sh.rooted refl))
    ∙ names-normal true false sh.names sh.named
parts_normal-Shape false parts sh =
    ap (parts_normal false false) sh.same ∙ ups-normal sh.height sh.names sh.named

pub collect-fixed :
    (absolute : Bool) (parts : List Bytes)
    → Shape absolute parts
    → reverse (collect absolute parts []) ≡ parts
collect-fixed true parts sh =
    let flat = sh.same ∙ ap (λ n. ups n ++ sh.names) (sh.rooted refl) in
    ap (λ xs. reverse (collect true xs [])) flat
    ∙ ap reverse (collect-names true sh.names [] sh.named)
    ∙ unreverse 0 sh.names
    ∙ sym flat
collect-fixed false parts sh =
    ap (λ xs. reverse (collect false xs [])) sh.same
    ∙ ap reverse (collect-ups sh.height 0 sh.names sh.named)
    ∙ unreverse (sh.height + 0) sh.names
    ∙ ap (λ n. ups n ++ sh.names) (omega arith)
    ∙ sym sh.same

never : (b : Bool) → (b || true) ≡ false → ⊥
never b h = ground arith

-- what a test of `is_normal` on one part says
read_part :
    (skipped up low x y : Bool)
    → (if skipped then false else if up then (if low then false else x) else y) ≡ true
    → (skipped ≡ false) × (((up ≡ true) × (low ≡ false) × (x ≡ true)) ⊎ ((up ≡ false) × (y ≡ true)))
read_part true up low x y h = cc
read_part false true true x y h = cc
read_part false true false x y h = (refl, inl (refl, refl, h))
read_part false false low x y h = (refl, inr (refl, h))

normal-names :
    (absolute : Bool) (parts : List Bytes)
    → All HasNoSlash parts
    → parts_normal absolute true parts ≡ true
    → All IsName parts
unfolding parts_normal
normal-names absolute [] c h = tt
normal-names absolute (s ∷ parts) (c, cs) h =
    let (kept, kind) = read_part (is_skipped s) (is_up s) (absolute || true) _ _ h in
    elim kind [
      | inl (up, low, rest) ↦ absurd (never absolute low)
      | inr (name, rest) ↦ ((kept, name, c), normal-names absolute parts cs rest)
    ]

pub normal-Shape :
    (absolute : Bool) (parts : List Bytes)
    → All HasNoSlash parts
    → parts_normal absolute false parts ≡ true
    → Shape absolute parts
unfolding parts_normal
normal-Shape absolute [] c h = record {
  height = 0;
  names = [];
  same = refl;
  named = tt;
  rooted = λ e. refl;
}
normal-Shape absolute (s ∷ parts) (c, cs) h =
    let (kept, kind) = read_part (is_skipped s) (is_up s) (absolute || false) _ _ h in
    elim kind [
      | inl (up, low, rest) ↦
          let sh = normal-Shape absolute parts cs rest in
          record {
            height = suc sh.height;
            names = sh.names;
            same = ap₂ (λ x xs. x ∷ xs) (up_eq s up) sh.same;
            named = sh.named;
            rooted = λ under. absurd (ground arith);
          }
      | inr (name, rest) ↦ record {
        height = 0;
        names = s ∷ parts;
        same = refl;
        named = ((kept, name, c), normal-names absolute parts cs rest);
        rooted = λ e. refl;
      }
    ]
