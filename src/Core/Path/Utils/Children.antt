-- ===== src/Core/Path/Utils/Children.antt =====
-- A normal path behind one of its separators.
use putup.Prelude.{
  ℕ, ◌≡◌, refl, ap, sym, subst, ◌∙◌, true, false, [], ◌∷◌, ◌++◌, append_assoc, Bytes, slash,
  bytes_eq, is_nil, ◌==◌, if-false, arith, Bool-cases, ==_iff, inl, inr,
}
use putup.Core.Path.{root_length, segments, is_skipped, ends_in_slash, parts_normal, is_normal}
use putup.Core.Path.Normal.{is_normal-rooted, is_normal-unrooted, root_length-name}
use putup.Core.Path.Segments.{segments-slash}
use putup.Core.Path.Compose.{join}
use putup.Core.Path.Compose.Joined.{ends_in_slash-snoc}
use putup.Core.Path.Names.Laws.{no_double, empty_part, ends_in_slash-end, join-slash}

-- the two sides of a separator behind a first byte
abbrev Sides : Bytes → Bytes → Type 0
Sides a b = (ends_in_slash a ≡ false) × (ends_in_slash (a ++ slash ∷ b) ≡ false)

rooted-Sides : (a b : Bytes) → is_normal (slash ∷ a ++ slash ∷ b) ≡ true → Sides (slash ∷ a) b
unfolding ends_in_slash
rooted-Sides [] b h =
    let body = sym (is_normal-rooted (slash ∷ b)) ∙ h in
    let bad =
      ap (parts_normal true false) (segments-slash b) ∙ empty_part true false [] (segments b) in
    absurd (ground (arith, body, bad))
rooted-Sides (y ∷ a) b h =
    let body = sym (is_normal-rooted (y ∷ a ++ slash ∷ b)) ∙ h in
    (no_double true (y ∷ a) b (ground (arith, body)), ground (arith, body))

plain-Sides :
    (x : ℕ) (a b : Bytes)
    → (x == slash) ≡ false
    → is_normal (x ∷ a ++ slash ∷ b) ≡ true
    → Sides (x ∷ a) b
unfolding bytes_eq
plain-Sides x a b away h =
    let body =
      is_normal-unrooted (x ∷ a ++ slash ∷ b) (root_length-name x (a ++ slash ∷ b) away) (named a)
        h in
    (no_double false (x ∷ a) b (ground (arith, body)), ground (arith, body))
  where
    named : (a : Bytes) → is_skipped (x ∷ a ++ slash ∷ b) ≡ false
    named [] = ground arith
    named (y ∷ a) = ground arith

normal-Sides : (a b : Bytes) → is_nil a ≡ false → is_normal (a ++ slash ∷ b) ≡ true → Sides a b
normal-Sides [] b n h = cc
normal-Sides (x ∷ a) b n h = elim (Bool-cases (x == slash)) [
  | inl here ↦
      subst (λ y. is_normal (y ∷ a ++ slash ∷ b) ≡ true → Sides (y ∷ a) b)
        (sym ((==_iff x slash).0 here)) (rooted-Sides a b) h
  | inr away ↦ plain-Sides x a b away h
]

unrooted_after :
    (a b : Bytes) → is_nil a ≡ false → is_normal (a ++ slash ∷ b) ≡ true → root_length b ≡ 0
unfolding root_length
unrooted_after a [] n h = refl
unrooted_after a (c ∷ b) n h = elim (Bool-cases (c == slash)) [
  | inl here ↦
      let same : c ≡ slash = (==_iff c slash).0 here in
      let again : is_normal ((a ++ slash ∷ []) ++ slash ∷ b) ≡ true =
        ap is_normal (append_assoc a (slash ∷ []) (slash ∷ b))
        ∙ subst (λ y. is_normal (a ++ slash ∷ y ∷ b) ≡ true) same h in
      let open_end = (normal-Sides (a ++ slash ∷ []) b (longer a) again).0 in
      let bad = ends_in_slash-snoc a in absurd (ground (arith, open_end, bad))
  | inr away ↦ if-false 1 0 away
]
  where
    longer : (a : Bytes) → is_nil (a ++ slash ∷ []) ≡ false
    longer [] = refl
    longer (x ∷ a) = refl

-- what stands before a separator of a normal path, and what stands behind it, join to the path
pub normal_child :
    (a b : Bytes) → is_nil a ≡ false → is_normal (a ++ slash ∷ b) ≡ true → join a b ≡ a ++ slash ∷ b
normal_child a b n h =
    let (open_end, whole) = normal-Sides a b n h in
    join-slash a b n open_end (ends_in_slash-end a b whole) (unrooted_after a b n h)
