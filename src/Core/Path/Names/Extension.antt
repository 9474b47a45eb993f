-- ===== src/Core/Path/Names/Extension.antt =====
-- The file name of a path, cut at its last `.`.
use putup.Prelude.{
  ◌≡◌, ◌≢◌, ◌⊎◌, refl, ap, ◌∙◌, false, true, Option, none, some, [], ◌∷◌, ◌++◌, Bytes, bytes_eq→eq,
  bytes_eq_iff, is_nil, drop, rsplit, IsSplit, rsplit-IsSplit, count, if◌then◌else◌, inl, inr,
  arith, Bool-cases,
}
use putup.Core.Path.{dot, dot_dot, is_skipped}
use putup.Core.Path.Names.{filename, has_no_extension, stem, extension}

-- a name with no `.` behind its first character, and `..`
abbrev pub IsWhole : Bytes → Type 0
IsWhole name = (name ≡ dot_dot) ⊎ (count b'.' (drop 1 name) ≡ 0)

-- Such a name is its own stem; another one is cut before its last `.`, which is not its first character.
abbrev pub IsNamed : Bytes → Bytes → Bytes → Type 0
IsNamed name s e =
    (IsWhole name × (s ≡ name) × (e ≡ []))
    ⊎ ((name ≢ dot_dot)
        × (is_nil s ≡ false)
        × (name ≡ s ++ e)
        × ((rest : Bytes) × (e ≡ b'.' ∷ rest) × (count b'.' rest ≡ 0)))

bare-IsWhole : (name : Bytes) → has_no_extension name ≡ true → IsWhole name
bare-IsWhole [] h = inr refl
bare-IsWhole (c ∷ t) h = elim (Bool-cases (is_skipped (c ∷ t))) [
  | inl skipped ↦
      let same : c ∷ t ≡ dot = bytes_eq→eq (c ∷ t) dot skipped in
      inr (ap (λ n. count b'.' (drop 1 n)) same)
  | inr kept ↦ inl (bytes_eq→eq (c ∷ t) dot_dot (ground (arith, h, kept)))
]

full-not_up : (name : Bytes) → has_no_extension name ≡ false → name ≢ dot_dot
full-not_up name h e = let up = (bytes_eq_iff name dot_dot).1 e in absurd (ground (arith, h, up))

drop-count : (t : Bytes) → count b'.' t ≡ 0 → count b'.' (drop 1 t) ≡ 0
drop-count [] h = refl
drop-count (c ∷ t) h = ground (arith, h)

-- For every path, when its file name is `..` or has no `.` behind its first character, the stem is the
-- file name and the extension is empty; otherwise the stem is not empty, stem and extension make up the
-- file name, and the extension is the last `.` with what follows it.
pub stem-extension : (p : Bytes) → IsNamed (filename p) (stem p) (extension p)
unfolding stem extension
stem-extension p = elim (Bool-cases (has_no_extension (filename p))) [
  | inl bare ↦ rw (bare) (inl (bare-IsWhole (filename p) bare, refl, refl))
  | inr full ↦
      rw (full)
        (from (filename p) full (rsplit b'.' (filename p)) (rsplit-IsSplit b'.' (filename p)))
]
  where
    from :
        (name : Bytes)
        → has_no_extension name ≡ false
        → (o : Option (Bytes × Bytes)) → IsSplit b'.' name o
        → IsNamed name
            (elim o [ none ↦ name | some (before, after) ↦ if is_nil before then name else before ])
            (elim o [
              | none ↦ []
              | some (before, after) ↦ if is_nil before then [] else b'.' ∷ after
            ])
    from name full none h = inl (inr (drop-count name h), refl, refl)
    from name full (some ([], after)) (e, h) =
        inl (inr (ap (λ n. count b'.' (drop 1 n)) e ∙ h), refl, refl)
    from name full (some (c ∷ before, after)) (e, h) =
        inr (full-not_up name full, refl, e, (after, refl, h))
