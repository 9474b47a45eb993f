-- ===== src/Core/Path/Utils/SourceRelative.antt =====
-- A path seen from a source directory, and the way back to the root.
use putup.Prelude.{
  ◌≡◌, refl, ap, ap₂, sym, ◌∙◌, true, false, not, ◌&&◌, ◌||◌, List, [], ◌∷◌, ◌++◌, append_assoc,
  Bytes, slash, bytes_eq, bytes_eq→eq, is_nil, is_nil→eq, All, length, drop, starts_with,
  starts_with-drop, if_cases, arith, Bool-cases, inl, inr,
}
use putup.Core.Path.{dot, dot_dot, root_length, is_absolute, segments, is_skipped, is_up, is_normal}
use putup.Core.Path.Segments.{segments-All}
use putup.Core.Path.Walk.{walk, place_of}
use putup.Core.Path.Compose.{join, kept_parts, up_parts}
use putup.Core.Path.Compose.Joined.{walk-kept_parts, place_of_whole}
use putup.Core.Path.Compose.RoundTrip.{dot-Spells, joined-place, walk-over, kept_parts-IsName}
use putup.Core.Path.Utils.{up_text, compute_source_to_root, make_source_relative}
use putup.Core.Path.Utils.Children.{normal_child}

segments-up : (t : Bytes) → segments (b'.' ∷ b'.' ∷ slash ∷ t) ≡ dot_dot ∷ segments t
unfolding segments
segments-up t = refl

segments-up_text :
    (parts : List Bytes) (path : Bytes)
    → segments (up_text parts ++ path) ≡ up_parts (kept_parts parts) ++ segments path
unfolding up_text kept_parts
segments-up_text [] path = refl
segments-up_text (part ∷ parts) path = elim (Bool-cases (is_skipped part)) [
  | inl skipped ↦ simp skipped (segments-up_text parts path)
  | inr kept ↦
      simp kept
        (segments-up (up_text parts ++ path) ∙ ap (λ l. dot_dot ∷ l) (segments-up_text parts path))
]

-- a path that is neither empty nor absolute stays so behind steps up
up_text-relative :
    (parts : List Bytes) (path : Bytes)
    → is_nil path ≡ false
    → is_absolute path ≡ false
    → (is_nil (up_text parts ++ path) ≡ false) × (is_absolute (up_text parts ++ path) ≡ false)
unfolding up_text root_length
up_text-relative [] path n r = (n, r)
up_text-relative (part ∷ parts) path n r =
    if_cases (λ t. (is_nil (t ++ path) ≡ false) × (is_absolute (t ++ path) ≡ false))
      (is_skipped part) (up_text parts) _ (λ _. up_text-relative parts path n r) (λ _. (refl, refl))

-- what the theorem asks of a directory
abbrev pub IsSourceDir : Bytes → Type 0
IsSourceDir dir = (is_absolute dir ≡ false) × All (λ s. is_up s ≡ false) (segments dir)

climb :
    (dir path : Bytes)
    → IsSourceDir dir
    → is_nil path ≡ false
    → is_absolute path ≡ false
    → place_of (join dir (compute_source_to_root dir ++ path)) ≡ place_of path
unfolding compute_source_to_root
climb dir path (rel, no_up) n r =
    let up = up_text (segments dir) in
    let (n', r') = up_text-relative (segments dir) path n r in
    let names = kept_parts-IsName (segments dir) (segments-All dir) no_up in
    joined-place false dir (up ++ path) (segments (up ++ path)) rel (n', r', λ q. refl)
    ∙ ap₂ (λ l q. walk false l q) (segments-up_text (segments dir) path)
        (sym (walk-kept_parts false (segments dir) (0, [])))
    ∙ walk-over false [] (kept_parts (segments dir)) (segments path) names
    ∙ ap (λ b. walk b (segments path) (0, [])) (sym r)
    ∙ sym (place_of_whole path)

-- without a step up, the directory is the root
stay :
    (dir path : Bytes)
    → IsSourceDir dir
    → is_nil path ≡ false
    → is_absolute path ≡ false
    → is_nil (compute_source_to_root dir) ≡ true
    → place_of (join dir path) ≡ place_of path
stay dir path s n r e =
    ap (λ u. place_of (join dir (u ++ path))) (sym (is_nil→eq (compute_source_to_root dir) e))
    ∙ climb dir path s n r

no_steps :
    (dir : Bytes)
    → (not (is_nil (compute_source_to_root dir)) && not (is_nil dir)) ≡ false
    → is_nil (compute_source_to_root dir) ≡ true
unfolding compute_source_to_root up_text segments
no_steps [] e = refl
no_steps (c ∷ dir) e = ground (arith, e)

same_place : (dir : Bytes) → IsSourceDir dir → place_of (join dir dot) ≡ place_of dir
same_place dir (rel, no_up) =
    joined-place false dir dot [] rel (dot-Spells false)
    ∙ ap (λ b. walk b (segments dir) (0, [])) (sym rel)
    ∙ sym (place_of_whole dir)

below :
    (dir path : Bytes)
    → is_normal path ≡ true
    → is_absolute path ≡ false
    → starts_with (dir ++ slash ∷ []) path ≡ true
    → join dir (drop (length (dir ++ slash ∷ [])) path) ≡ path
unfolding root_length
below [] path h r e =
    let rooted = starts_with-drop (slash ∷ []) path e in
    let bad = ap is_absolute rooted in absurd (ground (arith, bad, r))
below (c ∷ dir) path h r e =
    let rest = drop (length (c ∷ dir ++ slash ∷ [])) path in
    let split : path ≡ c ∷ dir ++ slash ∷ rest =
      starts_with-drop (c ∷ dir ++ slash ∷ []) path e ∙ append_assoc (c ∷ dir) (slash ∷ []) rest in
    normal_child (c ∷ dir) rest refl (ap is_normal (sym split) ∙ h) ∙ sym split

-- A normal relative path made relative to a source directory without `..`, with the steps that
-- `compute_source_to_root` gives, leads from that directory where the path leads from the root.
pub make_source_relative-place_of :
    (path dir : Bytes)
    → is_normal path ≡ true
    → is_nil path ≡ false
    → is_absolute path ≡ false
    → IsSourceDir dir
    → place_of (join dir (make_source_relative path (compute_source_to_root dir) dir))
      ≡ place_of path
unfolding make_source_relative
make_source_relative-place_of path dir h n r s =
    let up = compute_source_to_root dir in
    let P : Bytes → Type 0 = λ p. place_of (join dir p) ≡ place_of path in
    let climbs : P (up ++ path) = climb dir path s n r in
    if_cases P (is_nil path || is_absolute path) path _ (λ e. absurd (ground (arith, e)))
      (λ _.
        if_cases P (starts_with dot_dot path) _ _
          (λ _.
            if_cases P (not (is_nil up) && not (is_nil dir)) _ _ (λ _. climbs)
              (λ e. stay dir path s n r (no_steps dir e)))
          (λ _.
            if_cases P (is_nil up) path _ (λ e. stay dir path s n r e)
              (λ _.
                if_cases P (starts_with (dir ++ slash ∷ []) path) _ _
                  (λ e. ap place_of (below dir path h r e))
                  (λ _.
                    if_cases P (bytes_eq path dir) dot _
                      (λ e. same_place dir s ∙ ap place_of (sym (bytes_eq→eq path dir e)))
                      (λ _. climbs)))))
