-- ===== src/Core/Path/Meaning.antt =====
-- Where the result of `normalize` leads.
use putup.Prelude.{
  ℕ, ◌+◌, ◌≡◌, refl, ap, sym, ◌∙◌, Bool, true, false, not, List, [], ◌∷◌, ◌++◌, reverse,
  reverse-append, reverse-reverse, append-nil, Bytes, slash, bytes_eq, All, drop, ◌==◌, arith,
}
use putup.Core.Path.{dot, root_length, is_absolute, segments, collect, join_parts, spell, normalize}
use putup.Core.Path.Segments.{IsPart, segments-All, segments-join_parts}
use putup.Core.Path.Shape.{IsName, ups, collect-Shape, reverse-ups, All-reverse}
use putup.Core.Path.Normal.{body, Shape-IsPart, root_length-join_parts, spell-rooted}
use putup.Core.Path.Walk.{
  walk, place_of, flat, walk-names, collect-walk, walk-rooted, walk_down, walk_up,
}

-- a place is reached by its own parts
walk_back :
    (absolute : Bool) (n : ℕ) (names : List Bytes)
    → All IsName names
    → (absolute ≡ true → n ≡ 0)
    → walk absolute (reverse (flat (n, names))) (0, []) ≡ (n, names)
walk_back true n names a rooted =
    ap (λ k. walk true (reverse (flat (k, names))) (0, [])) (rooted refl)
    ∙ ap (λ xs. walk true xs (0, [])) (reverse-append names [])
    ∙ walk_down true (reverse names) 0 [] (All-reverse names a)
    ∙ ap (λ xs. (0, xs)) (append-nil (reverse (reverse names)) ∙ reverse-reverse names)
    ∙ ap (λ k. (k, names)) (sym (rooted refl))
walk_back false n names a rooted =
    ap (λ xs. walk false xs (0, []))
      (reverse-append names (ups n) ∙ ap (λ xs. xs ++ reverse names) (reverse-ups n))
    ∙ walk_up n 0 (reverse names)
    ∙ walk_down false (reverse names) (n + 0) [] (All-reverse names a)
    ∙ ap (λ xs. (n + 0, xs)) (append-nil (reverse (reverse names)) ∙ reverse-reverse names)
    ∙ ap (λ k. (k, names)) (omega arith)

-- where a path that is spelled out leads
abbrev Leads : Bool → List Bytes → Bytes → Type 0
Leads absolute parts p = (is_absolute p ≡ absolute) × (place_of p ≡ walk absolute parts (0, []))

rooted-Leads : (b : Bytes) → Leads true (segments b) (slash ∷ b)
unfolding root_length
rooted-Leads b = (refl, refl)

unrooted-Leads : (b : Bytes) → root_length b ≡ 0 → Leads false (segments b) b
unrooted-Leads b e =
    (ap (λ n. not (n == 0)) e, ap (λ n. walk (not (n == 0)) (segments (drop n b)) (0, [])) e)

dot-Leads : Leads false [] dot
unfolding root_length segments bytes_eq
dot-Leads = (refl, refl)

spell-Leads :
    (absolute : Bool) (parts : List Bytes)
    → All IsPart parts
    → Leads absolute parts (spell absolute parts)
unfolding spell
spell-Leads true parts a =
    rw (spell-rooted parts) (rw (segments-join_parts parts a) at (rooted-Leads (join_parts parts)))
spell-Leads false [] a = dot-Leads
spell-Leads false (s ∷ parts) (p, a) =
    rw (segments-join_parts (s ∷ parts) (p, a)) at
      (unrooted-Leads (join_parts (s ∷ parts)) (root_length-join_parts s parts p))

-- Normalizing keeps a path absolute or relative, and a walk along the parts of the result, on which
-- `.` stays, `..` goes to the parent and stays at the root, ends where a walk along the parts of
-- the path ends.
pub normalize-place_of :
    (p : Bytes)
    → (is_absolute (normalize p) ≡ is_absolute p) × (place_of (normalize p) ≡ place_of p)
unfolding normalize
normalize-place_of p =
    let absolute = is_absolute p in
    let parts = segments (body p) in
    let clean = segments-All (body p) in
    let kept = reverse (collect absolute parts []) in
    let leads =
      spell-Leads absolute kept (Shape-IsPart absolute kept (collect-Shape absolute parts clean)) in
    (
      leads.0,
      leads.1
          ∙ ap (λ xs. walk absolute (reverse xs) (0, []))
              (collect-walk absolute parts (0, []) clean tt)
          ∙ walk_back absolute (place_of p).0 (place_of p).1
              (walk-names absolute parts (0, []) clean tt) (λ e. under absolute parts e),
    )
  where
    under :
        (absolute : Bool) (parts : List Bytes)
        → absolute ≡ true
        → (walk absolute parts (0, [])).0 ≡ 0
    under true parts e = walk-rooted parts (0, []) refl
    under false parts e = cc
