-- ===== src/Prelude/Text.antt =====
-- Text as the list of its bytes, as `std::string_view` reads it.
use Prim.Native.Nat.{ℕ}
use Prim.Native.Char.{code}
use Prim.Native.String.{String}
use mathlib.Core.Path.{◌≡◌, refl, ap, ap₂, sym, ◌∙◌}
use mathlib.Core.Logic.{◌↔◌}
use mathlib.Core.Bool.{Bool, true, false, ◌&&◌}
use mathlib.Core.List.{List, [], ◌∷◌, ◌++◌}
use mathlib.Core.Option.{Option, none, some}
use native.Mathlib.Omega.{arith}
use putup.Prelude.Tests.{◌==◌, ==_iff, if◌then◌else◌, if_cases, if-false}
use putup.Prelude.Lists.{count, length, drop}

abbrev pub Bytes : Type 0
Bytes = List ℕ

-- The bytes of an ASCII literal.
abbrev pub codes : String → Bytes
codes String.[] = []
codes (String.◌∷◌ c s) = code c ∷ codes s

abbrev pub slash : ℕ
slash = b'/'

abbrev pub backslash : ℕ
backslash = 92

abbrev pub newline : ℕ
newline = 10

abbrev pub carriage_return : ℕ
carriage_return = 13

abbrev pub tab : ℕ
tab = 9

-- `==` of two views.
unfoldable pub bytes_eq : Bytes → Bytes → Bool
bytes_eq [] [] = true
bytes_eq [] (y ∷ ys) = false
bytes_eq (x ∷ xs) [] = false
bytes_eq (x ∷ xs) (y ∷ ys) = x == y && bytes_eq xs ys

pub bytes_eq→eq : (xs ys : Bytes) → bytes_eq xs ys ≡ true → xs ≡ ys
unfolding bytes_eq
bytes_eq→eq [] [] h = refl
bytes_eq→eq [] (y ∷ ys) h = cc
bytes_eq→eq (x ∷ xs) [] h = cc
bytes_eq→eq (x ∷ xs) (y ∷ ys) h = ground (arith, bytes_eq→eq xs ys)

pub bytes_eq_refl : (xs : Bytes) → bytes_eq xs xs ≡ true
unfolding bytes_eq
bytes_eq_refl [] = refl
bytes_eq_refl (x ∷ xs) = ground (arith, bytes_eq_refl xs)

pub bytes_eq_iff : (xs ys : Bytes) → (bytes_eq xs ys ≡ true) ↔ (xs ≡ ys)
bytes_eq_iff xs ys = (bytes_eq→eq xs ys, λ e. rw e (bytes_eq_refl ys))

-- `text.starts_with(prefix)`, the prefix first.
unfoldable pub starts_with : Bytes → Bytes → Bool
starts_with [] text = true
starts_with (x ∷ xs) [] = false
starts_with (x ∷ xs) (y ∷ ys) = x == y && starts_with xs ys

pub starts_with-drop :
    (start text : Bytes) → starts_with start text ≡ true → text ≡ start ++ drop (length start) text
unfolding starts_with
starts_with-drop [] text h = refl
starts_with-drop (x ∷ xs) [] h = cc
starts_with-drop (x ∷ xs) (y ∷ ys) h =
    ap₂ (λ c t. c ∷ t) (sym ((==_iff x y).0 (ground arith))) (starts_with-drop xs ys (ground arith))

-- The text before and after the last `x`, which `rfind` finds.
unfoldable pub rsplit : ℕ → Bytes → Option (Bytes × Bytes)
rsplit x [] = none
rsplit x (c ∷ p) = elim (rsplit x p) [
  | some (before, after) ↦ some (c ∷ before, after)
  | none ↦ if c == x then some ([], p) else none
]

abbrev pub IsSplit : ℕ → Bytes → Option (Bytes × Bytes) → Type 0
IsSplit x p none = count x p ≡ 0
IsSplit x p (some (before, after)) = (p ≡ before ++ x ∷ after) × (count x after ≡ 0)

pub rsplit-IsSplit : (x : ℕ) (p : Bytes) → IsSplit x p (rsplit x p)
unfolding rsplit
rsplit-IsSplit x [] = refl
rsplit-IsSplit x (c ∷ p) = extend (rsplit x p) (rsplit-IsSplit x p)
  where
    extend :
        (o : Option (Bytes × Bytes))
        → IsSplit x p o
        → IsSplit x (c ∷ p) (elim o [
          | some (before, after) ↦ some (c ∷ before, after)
          | none ↦ if c == x then some ([], p) else none
        ])
    extend (some (before, after)) (e, h) = (ap (λ t. c ∷ t) e, h)
    extend none h =
        if_cases (IsSplit x (c ∷ p)) (c == x) (some ([], p)) none
          (λ e. (ap (λ y. y ∷ p) ((==_iff c x).0 e), h)) (λ e. ground arith)

-- The text before and after the first `x`, which `find` finds.
unfoldable pub cut : ℕ → Bytes → Option (Bytes × Bytes)
cut x [] = none
cut x (c ∷ p) =
    if c == x
    then some ([], p)
    else (elim (cut x p) [ none ↦ none | some (before, after) ↦ some (c ∷ before, after) ])

abbrev pub IsCut : ℕ → Bytes → Option (Bytes × Bytes) → Type 0
IsCut x p none = count x p ≡ 0
IsCut x p (some (before, after)) = (p ≡ before ++ x ∷ after) × (count x before ≡ 0)

pub cut-IsCut : (x : ℕ) (p : Bytes) → IsCut x p (cut x p)
unfolding cut
cut-IsCut x [] = refl
cut-IsCut x (c ∷ p) =
    if_cases (IsCut x (c ∷ p)) (c == x) (some ([], p)) _
      (λ e. (ap (λ y. y ∷ p) ((==_iff c x).0 e), refl)) (λ e. extend e (cut x p) (cut-IsCut x p))
  where
    extend :
        (c == x) ≡ false
        → (o : Option (Bytes × Bytes)) → IsCut x p o
        → IsCut x (c ∷ p) (elim o [ none ↦ none | some (before, after) ↦ some (c ∷ before, after) ])
    extend e none h = ground arith
    extend e (some (before, after)) (s, h) = (ap (λ t. c ∷ t) s, ground arith)

pub cut-here : (x : ℕ) (after : Bytes) → cut x (x ∷ after) ≡ some ([], after)
unfolding cut
cut-here x after =
    if_cases (λ o. o ≡ some ([], after)) (x == x) (some ([], after)) _ (λ e. refl)
      (λ e. absurd (ground arith))

pub cut-later :
    (x c : ℕ) (p : Bytes)
    → (c == x) ≡ false
    → cut x (c ∷ p)
      ≡ (elim (cut x p) [ none ↦ none | some (before, after) ↦ some (c ∷ before, after) ])
unfolding cut
cut-later x c p h = if-false (some ([], p)) _ h

pub cut-append :
    (x : ℕ) (before after : Bytes)
    → count x before ≡ 0
    → cut x (before ++ x ∷ after) ≡ some (before, after)
cut-append x [] after h = cut-here x after
cut-append x (c ∷ before) after h =
    cut-later x c (before ++ x ∷ after) (ground arith)
    ∙ rw (cut-append x before after (ground arith)) refl
