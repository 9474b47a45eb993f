-- ===== src/Core/Path/Utils/UnderRoot.antt =====
-- Paths under a root.
use putup.Prelude.{
  suc, ◌≡◌, ◌⊎◌, ◌↔◌, refl, ap, ap₂, sym, subst, ◌∙◌, true, false, not, [], ◌∷◌, ◌++◌, Bytes, slash,
  bytes_eq, bytes_eq→eq, bytes_eq_iff, length, drop, starts_with, ==_iff, if-true, if-false,
  if_cases, arith, inl, inr,
}
use putup.Core.Path.Utils.{strip_separators, separator_at, is_path_under, relative_to_root}

-- the root itself, or something behind it and a separator
abbrev pub IsUnder : Bytes → Bytes → Type 0
IsUnder path root = (path ≡ root) ⊎ ((rest : Bytes) × (path ≡ root ++ slash ∷ rest))

separator_at-split :
    (root path : Bytes)
    → starts_with root path ≡ true
    → separator_at (length root) path ≡ true
    → path ≡ root ++ slash ∷ drop (suc (length root)) path
unfolding starts_with separator_at
separator_at-split [] [] s e = cc
separator_at-split [] (c ∷ path) s e = ap (λ x. x ∷ path) ((==_iff c slash).0 e)
separator_at-split (x ∷ root) [] s e = cc
separator_at-split (x ∷ root) (c ∷ path) s e =
    ap₂ (λ y t. y ∷ t) (sym ((==_iff x c).0 (ground (arith, s))))
      (separator_at-split root path (ground (arith, s)) e)

separator_at-append :
    (root rest : Bytes)
    → (starts_with root (root ++ slash ∷ rest) ≡ true)
      × (separator_at (length root) (root ++ slash ∷ rest) ≡ true)
unfolding starts_with separator_at
separator_at-append [] rest = (refl, refl)
separator_at-append (x ∷ root) rest =
    let (s, e) = separator_at-append root rest in (ground (arith, s), e)

under_cases :
    (path root : Bytes)
    → is_path_under path root ≡ true
    → (path ≡ strip_separators root)
      ⊎ (path ≡ strip_separators root ++ slash ∷ drop (suc (length (strip_separators root))) path)
unfolding is_path_under
under_cases path root =
    let root' = strip_separators root in
    let R : Type 0 = (path ≡ root') ⊎ (path ≡ root' ++ slash ∷ drop (suc (length root')) path) in
    if_cases (λ b. b ≡ true → R) (bytes_eq path root') true _
      (λ e _. inl (bytes_eq→eq path root' e))
      (λ _.
        if_cases (λ b. b ≡ true → R) (not (starts_with root' path)) false _ (λ _ h. cc)
          (λ s h. inr (separator_at-split root' path (ground (arith, s)) h)))

IsUnder-under :
    (path root : Bytes) → IsUnder path (strip_separators root) → is_path_under path root ≡ true
unfolding is_path_under
IsUnder-under path root (inl e) = if-true true _ ((bytes_eq_iff path (strip_separators root)).1 e)
IsUnder-under path root (inr (rest, e)) =
    let root' = strip_separators root in
    let (s, c) =
      subst (λ p. (starts_with root' p ≡ true) × (separator_at (length root') p ≡ true)) (sym e)
        (separator_at-append root' rest) in
    if_cases (λ b. b ≡ true) (bytes_eq path root') true _ (λ _. refl)
      (λ _. if-false {b = not (starts_with root' path)} false _ (ap not s) ∙ c)

-- A path is under a root exactly when it is the root without the separators at its end, or goes on
-- behind it with a separator; `relative_to_root` then gives what stands behind that separator.
pub is_path_under_iff :
    (path root : Bytes)
    → let root' = strip_separators root in
      ((is_path_under path root ≡ true) ↔ IsUnder path root')
      × (is_path_under path root ≡ true
          → (path ≡ root') ⊎ (path ≡ root' ++ slash ∷ relative_to_root path root))
      × (is_path_under path root ≡ false → relative_to_root path root ≡ [])
unfolding relative_to_root
is_path_under_iff path root =
    let root' = strip_separators root in
    (
      (
        λ h. elim (under_cases path root h) [ inl e ↦ inl e | inr e ↦ inr (_, e) ],
        IsUnder-under path root,
      ),
      λ h. elim (under_cases path root h) [
        | inl e ↦ inl e
        | inr e ↦
            if_cases (λ s. (path ≡ root') ⊎ (path ≡ root' ++ slash ∷ s))
              (not (is_path_under path root)) [] _ (λ b. absurd (ground (arith, h, b)))
              (λ _.
                if_cases (λ s. (path ≡ root') ⊎ (path ≡ root' ++ slash ∷ s)) (bytes_eq path root')
                  [] _ (λ b. inl (bytes_eq→eq path root' b)) (λ _. inr e))
      ],
      λ h. if-true {b = not (is_path_under path root)} [] _ (ap not h),
    )
