-- ===== src/Parser/Glob/Directory.antt =====
-- The directory part of a pattern.
use putup.Prelude.{
  ℕ, suc, ◌≡◌, ◌⊎◌, refl, ap, sym, ◌∙◌, false, Option, none, some, [], ◌∷◌, ◌++◌, append_assoc,
  Bytes, slash, length, drop, rsplit, IsSplit, rsplit-IsSplit, inl, inr, arith, if-true, if-false,
  Bool-cases, count, true,
}
use putup.Parser.Glob.{is_wild, has_glob_chars, before_glob, glob_split_path}

-- nothing, or a wildcard and what follows it
abbrev pub IsWildOrEmpty : Bytes → Type 0
IsWildOrEmpty [] = Unit
IsWildOrEmpty (c ∷ tail) = is_wild c ≡ true

-- a text without a wildcard, and what begins with the first wildcard
pub record IsBeforeGlob (p plain tail : Bytes) : Type 0 where
  pub whole : p ≡ plain ++ tail
  pub no_wildcard : has_glob_chars plain ≡ false
  pub begins : IsWildOrEmpty tail

before_glob-append : (p : Bytes) → (tail : Bytes) × IsBeforeGlob p (before_glob p) tail
unfolding before_glob has_glob_chars
before_glob-append [] = ([], record { whole = refl; no_wildcard = refl; begins = tt })
before_glob-append (c ∷ p) = elim (Bool-cases (is_wild c)) [
  | inl wild ↦ (
    c ∷ p,
    record {
      whole = ap (λ s. s ++ c ∷ p) (sym (if-true [] (c ∷ before_glob p) wild));
      no_wildcard = ap has_glob_chars (if-true [] (c ∷ before_glob p) wild);
      begins = wild;
    },
  )
  | inr plain ↦
      let (tail, h) = before_glob-append p in
      let no_more = h.no_wildcard in
      let same = if-false [] (c ∷ before_glob p) plain in
      (
        tail,
        record {
          whole = ap (λ s. c ∷ s) h.whole ∙ ap (λ s. s ++ tail) (sym same);
          no_wildcard = ap has_glob_chars same ∙ ground (arith, plain, no_more);
          begins = h.begins;
        },
      )
]

has_glob_chars-left : (a b : Bytes) → has_glob_chars (a ++ b) ≡ false → has_glob_chars a ≡ false
unfolding has_glob_chars
has_glob_chars-left [] b h = refl
has_glob_chars-left (c ∷ a) b h = ground (arith, h, has_glob_chars-left a b)

has_glob_chars-right : (a b : Bytes) → has_glob_chars (a ++ b) ≡ false → has_glob_chars b ≡ false
unfolding has_glob_chars
has_glob_chars-right [] b h = h
has_glob_chars-right (c ∷ a) b h = has_glob_chars-right a b (ground (arith, h))

no_text : has_glob_chars [] ≡ false
unfolding has_glob_chars
no_text = refl

drop-behind : (d : Bytes) (x : ℕ) (t : Bytes) → drop (suc (length d)) (d ++ x ∷ t) ≡ t
drop-behind [] x t = refl
drop-behind (c ∷ d) x t = drop-behind d x t

-- a pattern split at the last separator before its first wildcard, when there is one
pub record IsDirectory (p directory rest : Bytes) : Type 0 where
  pub plain : Bytes
  pub tail : Bytes
  pub no_wildcard : has_glob_chars directory ≡ false
  pub names : IsBeforeGlob rest plain tail
  pub last : count slash plain ≡ 0
  pub split : (p ≡ directory ++ slash ∷ rest) ⊎ ((directory ≡ []) × (rest ≡ p))

-- The directory of a pattern has no wildcard; it is followed by a separator and the rest, or it is empty
-- and the rest is the whole pattern. In both cases no separator stands in the rest before its first
-- wildcard.
pub glob_split_path-append : (p : Bytes) → IsDirectory p (glob_split_path p).0 (glob_split_path p).1
unfolding glob_split_path
glob_split_path-append p =
    from (rsplit slash (before_glob p)) (rsplit-IsSplit slash (before_glob p))
  where
    from :
        (o : Option (Bytes × Bytes))
        → IsSplit slash (before_glob p) o
        → let q : Bytes × Bytes = elim o [
          | none ↦ ([], p)
          | some (directory, after) ↦ (directory, drop (suc (length directory)) p)
        ] in
          IsDirectory p q.0 q.1
    from none h =
        let (tail, cut) = before_glob-append p in
        record {
          plain = before_glob p;
          tail = tail;
          no_wildcard = no_text;
          names = cut;
          last = h;
          split = inr (refl, refl);
        }
    from (some (d, after)) (e, h) =
        let (tail, cut) = before_glob-append p in
        let split : p ≡ d ++ (slash ∷ after ++ tail) =
          cut.whole ∙ ap (λ s. s ++ tail) e ∙ append_assoc d (slash ∷ after) tail in
        let rest = ap (drop (suc (length d))) split ∙ drop-behind d slash (after ++ tail) in
        let clear = ap has_glob_chars (sym e) ∙ cut.no_wildcard in
        record {
          plain = after;
          tail = tail;
          no_wildcard = has_glob_chars-left d (slash ∷ after) clear;
          names = record {
            whole = rest;
            no_wildcard =
                has_glob_chars-right (slash ∷ []) after
                  (has_glob_chars-right d (slash ∷ after) clear);
            begins = cut.begins;
          };
          last = h;
          split = inl (split ∙ ap (λ s. d ++ slash ∷ s) (sym rest));
        }
