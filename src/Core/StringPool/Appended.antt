-- ===== src/Core/StringPool/Appended.antt =====
-- A text that the index does not know, and the pool with it.
use putup.Prelude.{
  ℕ, suc, ◌+◌, ◌-◌, ◌%◌, ◌^◌, ◌<◌, ◌≡◌, ◌⊎◌, ap, ap₂, sym, subst, ◌∙◌, false, [], ◌∷◌, Bytes,
  bytes_eq→eq, bytes_eq_iff, is_nil, length, length-append, inl, inr, ◌==◌, ==_iff, arith,
  Bool-cases,
}
use putup.Core.RobinHood.{fix_hash, index_insert, index_find, missing}
use putup.Core.RobinHood.Refines.{Entries, Listed, Answers, index_find-Answers}
use putup.Core.StringPool.{Entry, StringPool, key_at, has_key, fnv1a, append_text}
use putup.Core.StringPool.Keys.{IsPool, after, key_at-old, key_at-new, after-IsInside}

-- the sizes up to which numbers fit their types
pub record IsSmall (p : StringPool) (str : Bytes) : Type 0 where
  pub few : length p.entries < 52428
  pub bytes : length p.bytes < 2 ^ 32
  pub short : length str < 2 ^ 32

-- a text that no entry has
abbrev pub IsNew : StringPool → Bytes → Type 0
IsNew p str = (i : ℕ) → i < length p.entries → has_key p str (suc i) ≡ false

module _ (str : Bytes) (p : StringPool) (rows : Entries) (h : IsPool p rows) (small : IsSmall p str)
    (some_text : is_nil str ≡ false) where
  -- what the index answers
  pub lookup :
      Answers rows
        (fix_hash (fnv1a str))
        (has_key p str)
        (index_find (fnv1a str) (has_key p str) p.index)
  lookup =
      subst
        (λ t.
          Answers rows (fix_hash (fnv1a str)) (has_key p str)
            (index_find (fnv1a str) (has_key p str) t))
        (sym h.indexed)
        (index_find-Answers rows (omega (arith, h.sized, small.few)) (fnv1a str) (has_key p str))

  pub missing-IsNew : Answers rows (fix_hash (fnv1a str)) (has_key p str) missing → IsNew p str
  missing-IsNew none_there i b = elim (Bool-cases (has_key p str (suc i))) [
    | inr unlike ↦ unlike
    | inl like ↦
        let same = bytes_eq→eq (key_at p (suc i - 1)) str like in
        let less : suc i - 1 ≡ i = omega arith in
        let row =
          subst (λ k. Listed rows (fix_hash (fnv1a k)) (suc i)) (ap (key_at p) (sym less) ∙ same)
            (h.listed i b) in
        none_there (suc i) row
  ]

  abbrev pub new_rows : Entries
  new_rows = (fnv1a str, suc (length p.entries)) ∷ rows

  pub numbered : (length p.entries + 1) % 2 ^ 32 ≡ suc (length p.entries)
  numbered = let few = small.few in omega (arith, few)

  pub grown : length (after str p).entries ≡ suc (length p.entries)
  unfolding append_text
  grown =
      let new : Entry = record { offset = length p.bytes % 2 ^ 32; length = length str % 2 ^ 32 } in
      omega (arith, length-append p.entries (new ∷ []))

  place :
      (i : ℕ)
      → i < length (after str p).entries
      → ((i < length p.entries) × (key_at (after str p) i ≡ key_at p i))
        ⊎ ((i ≡ length p.entries) × (key_at (after str p) i ≡ str))
  place i b = elim (Bool-cases (i == length p.entries)) [
    | inl here ↦
        let same = (==_iff i (length p.entries)).0 here in
        inr (same, ap (key_at (after str p)) same ∙ key_at-new str p small.bytes small.short)
    | inr away ↦
        let early : i < length p.entries = ground (arith, b, grown, away) in
        inl (early, key_at-old str p h.inside i early)
  ]

  pub append-IsPool : IsNew p str → IsPool (after str p) new_rows
  unfolding append_text
  append-IsPool new = record {
    indexed = ap₂ (λ v x. index_insert (fnv1a str) v x) numbered h.indexed;
    sized = omega (arith, grown, h.sized);
    listed = λ i b. elim (place i b) [
      | inl (l, e) ↦
          inl (subst (λ k. Listed rows (fix_hash (fnv1a k)) (suc i)) (sym e) (h.listed i l))
      | inr (same, e) ↦ inr (ap (λ k. fix_hash (fnv1a k)) (sym e), ap suc (sym same))
    ];
    numbered = λ k v l. elim l [
      | inl old ↦ let (x, y) = h.numbered k v old in (x, omega (arith, grown, y))
      | inr (e, now) ↦ (omega (arith, now), omega (arith, grown, now))
    ];
    inside = after-IsInside str p h.inside small.bytes small.short;
    written = λ i b. elim (place i b) [
      | inl (l, e) ↦ ap is_nil e ∙ h.written i l
      | inr (same, e) ↦ ap is_nil e ∙ some_text
    ];
    distinct = λ i j b c e. apart i j (place i b) (place j c) e;
  }
    where
      clash : (i : ℕ) → i < length p.entries → key_at p i ≡ str → ⊥
      clash i b e =
          let less : suc i - 1 ≡ i = omega arith in
          let like = (bytes_eq_iff (key_at p (suc i - 1)) str).1 (ap (key_at p) less ∙ e) in
          let unlike = new i b in absurd (ground (arith, like, unlike))

      apart :
          (i j : ℕ)
          → ((i < length p.entries) × (key_at (after str p) i ≡ key_at p i))
            ⊎ ((i ≡ length p.entries) × (key_at (after str p) i ≡ str))
          → ((j < length p.entries) × (key_at (after str p) j ≡ key_at p j))
            ⊎ ((j ≡ length p.entries) × (key_at (after str p) j ≡ str))
          → key_at (after str p) i ≡ key_at (after str p) j
          → i ≡ j
      apart i j (inl (b, x)) (inl (c, y)) e = h.distinct i j b c (sym x ∙ e ∙ y)
      apart i j (inl (b, x)) (inr (c, y)) e = absurd (clash i b (sym x ∙ e ∙ y))
      apart i j (inr (b, x)) (inl (c, y)) e = absurd (clash j c (sym y ∙ sym e ∙ x))
      apart i j (inr (b, x)) (inr (c, y)) e = b ∙ sym c
