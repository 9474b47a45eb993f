-- ===== src/Parser/Glob/Inverses.antt =====
-- What a match of a pattern rests on.
use putup.Prelude.{
  ℕ, ◌≡◌, refl, sym, subst, true, false, [], ◌∷◌, Bytes, slash, inl, inr, ◌⊎◌, ◌==◌,
}
use putup.Parser.Glob.{is_star, match_bracket}
use putup.Parser.Glob.Spec.{Trails, IsLiteral, Matches, trailing, deep, star, any, class, same}
use putup.Parser.Glob.Classes.{match_bracket-IsClass}
use putup.Parser.Glob.Splits.{Splits}

-- a split is tried rightly where every try is right
pub Splits-map :
    (Gone Rest Rest' : Bytes → Type 0)
    → ((r : Bytes) → Rest r → Rest' r)
    → (t : Bytes) → Splits Gone Rest t
    → Splits Gone Rest' t
Splits-map Gone Rest Rest' f t (g, r, s, u, h) = (g, r, s, u, f r h)

pub Matches-nil : (t : Bytes) → Matches [] t → t ≡ []
Matches-nil t (trailing d) = refl

-- how a pattern that begins with no star matches
pub plain_inv :
    (pc : ℕ) (p : Bytes) (c : ℕ) (t : Bytes)
    → is_star pc ≡ false
    → Matches (pc ∷ p) (c ∷ t)
    → (((pc == b'?') ≡ true) × ((c == slash) ≡ false) × Matches p t)
      ⊎ ((((pc == b'[') ≡ true) × ((match_bracket p c).0 ≡ true) × Matches (match_bracket p c).1 t)
          ⊎ (IsLiteral pc × (pc ≡ c) × Matches p t))
plain_inv pc (qc ∷ p) c t plain (deep q g r a b e k m) = cc
plain_inv pc p c t plain (star g r a s e u m) = cc
plain_inv pc p c t plain (any a b m) = inl (a, b, m)
plain_inv pc p c t plain (class n i r a k b m) =
    let (test, left) = match_bracket-IsClass c n p i r k in
    inr (inl (a, test.1 b, subst (λ r. Matches r t) (sym left) m))
plain_inv pc p c t plain (same l e m) = inr (inr (l, e, m))

pub empty_inv : (c : ℕ) (t : Bytes) → Matches [] (c ∷ t) → ⊥
empty_inv c t d = elim d [ ]

pub trailing_inv : (p : Bytes) → Matches p [] → Trails p
trailing_inv p (trailing h) = h
