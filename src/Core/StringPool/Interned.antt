-- ===== src/Core/StringPool/Interned.antt =====
-- What `intern` gives, and what it leaves.
use putup.Prelude.{
  ◌≤◌, ℕ, zero, suc, ◌-◌, ◌<◌, ◌≡◌, refl, ap, sym, subst, ◌∙◌, true, false, [], Bytes, bytes_eq→eq,
  bytes_eq_iff, is_nil, is_nil→eq, length, inl, inr, ltb, ◌==◌, if-false, if_cases, arith,
  Bool-cases,
}
use putup.Core.RobinHood.{fix_hash, index_find, Search, found, missing, exhausted}
use putup.Core.RobinHood.Refines.{Entries, Listed, Answers, index_find-Answers}
use putup.Core.StringPool.{
  StringPool, key_at, has_key, fnv1a, append_text, intern, pool_get, pool_find,
}
use putup.Core.StringPool.Keys.{IsPool, key_at-past, after, key_at-old, key_at-new}
use putup.Core.StringPool.Appended.{
  IsSmall, IsNew, lookup, missing-IsNew, new_rows, numbered, grown, append-IsPool,
}

-- a stored text is found under its number
pool_find-key_at :
    (str : Bytes) (p : StringPool) (rows : Entries)
    → IsPool p rows
    → length p.entries ≤ 52428
    → (i : ℕ) → i < length p.entries
    → key_at p i ≡ str
    → pool_find str p ≡ suc i
unfolding pool_find
pool_find-key_at str p rows h few i b e =
    if-false {b = is_nil str} 0 _ (ap is_nil (sym e) ∙ h.written i b)
    ∙ from (index_find (fnv1a str) (has_key p str) p.index) (
        subst
          (λ t.
            Answers rows (fix_hash (fnv1a str)) (has_key p str)
              (index_find (fnv1a str) (has_key p str) t))
          (sym h.indexed)
          (index_find-Answers rows (omega (arith, h.sized, few)) (fnv1a str) (has_key p str)))
  where
    from :
        (o : Search)
        → Answers rows (fix_hash (fnv1a str)) (has_key p str) o
        → (elim o as (λ o. ℕ) [ found v ↦ v | missing ↦ 0 | exhausted ↦ 0 ]) ≡ suc i
    from (found v) (listed, like) =
        let (lo, hi) = h.numbered (fix_hash (fnv1a str)) v listed in
        let same =
          h.distinct (v - 1) i (omega (arith, lo, hi)) b
            (bytes_eq→eq (key_at p (v - 1)) str like ∙ sym e) in
        omega (arith, same, lo)
    from exhausted none_there = elim none_there [ ]
    from missing none_there =
        let less : suc i - 1 ≡ i = omega arith in
        let like = (bytes_eq_iff (key_at p (suc i - 1)) str).1 (ap (key_at p) less ∙ e) in
        let unlike =
          none_there (suc i)
            (subst (λ k. Listed rows (fix_hash (fnv1a k)) (suc i)) e (h.listed i b)) in
        absurd (ground (arith, like, unlike))

-- what a pool promises of a text that it was given
pub record IsInterned (str : Bytes) (p : StringPool) (r : ℕ × StringPool) : Type 0 where
  pub rows : Entries
  pub pool : IsPool r.1 rows
  pub back : pool_get r.0 r.1 ≡ str
  pub old : (id : ℕ) → is_nil (pool_get id p) ≡ false → pool_get id r.1 ≡ pool_get id p
  pub same_id : (id : ℕ) → is_nil str ≡ false → pool_get id p ≡ str → r.0 ≡ id
  pub known : is_nil str ≡ false → pool_find str r.1 ≡ r.0

no_text : (p : StringPool) → pool_get 0 p ≡ []
unfolding pool_get
no_text p = refl

pool_get-suc : (p : StringPool) (i : ℕ) → pool_get (suc i) p ≡ key_at p i
unfolding pool_get
pool_get-suc p i =
    let less : suc i - 1 ≡ i = omega arith in
    if-false {b = suc i == 0} [] (key_at p (suc i - 1)) (ground arith) ∙ ap (key_at p) less

-- a number that has a text
number_of :
    (p : StringPool) (id : ℕ)
    → is_nil (pool_get id p) ≡ false
    → (i : ℕ) × (id ≡ suc i) × (i < length p.entries) × (pool_get id p ≡ key_at p i)
number_of p zero n =
    let none_there = ap is_nil (no_text p) in absurd (ground (arith, n, none_there))
number_of p (suc i) n =
    let same = pool_get-suc p i in
    elim (Bool-cases (ltb i (length p.entries))) [
      | inl l ↦ (i, refl, ground (arith, l), same)
      | inr past ↦
          let none_there = ap is_nil (same ∙ key_at-past p i (ground (arith, past))) in
          absurd (ground (arith, n, none_there))
    ]

module _ (str : Bytes) (p : StringPool) (rows : Entries) (h : IsPool p rows) (small : IsSmall p str)
    (some_text : is_nil str ≡ false) where
  appended-IsInterned : IsNew p str → IsInterned str p (append_text str p)
  unfolding append_text
  appended-IsInterned new = record {
    rows = new_rows str p rows h small some_text;
    pool = append-IsPool str p rows h small some_text new;
    back =
        ap (λ v. pool_get v (after str p)) (numbered str p rows h small some_text)
        ∙ pool_get-suc (after str p) (length p.entries)
        ∙ key_at-new str p small.bytes small.short;
    old = λ id n.
        let (i, e, l, at) = number_of p id n in
        ap (λ v. pool_get v (after str p)) e
        ∙ pool_get-suc (after str p) i
        ∙ key_at-old str p h.inside i l
        ∙ sym at;
    same_id = λ id s e.
        let (i, e', l, at) = number_of p id (ap is_nil e ∙ s) in
        let less : suc i - 1 ≡ i = omega arith in
        let like = (bytes_eq_iff (key_at p (suc i - 1)) str).1 (ap (key_at p) less ∙ sym at ∙ e) in
        let unlike = new i l in absurd (ground (arith, like, unlike));
    known = λ s.
        let sound = append-IsPool str p rows h small some_text new in
        let more = grown str p rows h small some_text in
        let few = small.few in
        pool_find-key_at str (after str p) (new_rows str p rows h small some_text) sound
          (omega (arith, more, few)) (length p.entries) (omega (arith, more))
          (key_at-new str p small.bytes small.short)
        ∙ sym (numbered str p rows h small some_text);
  }

  found-IsInterned :
      (v : ℕ)
      → Answers rows (fix_hash (fnv1a str)) (has_key p str) (found v)
      → IsInterned str p (v, p)
  found-IsInterned v (listed, like) =
      let (lo, hi) = h.numbered (fix_hash (fnv1a str)) v listed in
      let key : key_at p (v - 1) ≡ str = bytes_eq→eq (key_at p (v - 1)) str like in
      let whole : suc (v - 1) ≡ v = omega (arith, lo) in
      record {
        rows = rows;
        pool = h;
        back = ap (λ x. pool_get x p) (sym whole) ∙ pool_get-suc p (v - 1) ∙ key;
        old = λ id n. refl;
        same_id = λ id s e.
            let (i, e', l, at) = number_of p id (ap is_nil e ∙ s) in
            sym whole
            ∙ ap suc (h.distinct (v - 1) i (omega (arith, lo, hi)) l (key ∙ sym e ∙ at))
            ∙ sym e';
        known = λ s.
            let few = small.few in
            pool_find-key_at str p rows h (omega (arith, few)) (v - 1) (omega (arith, lo, hi)) key
            ∙ whole;
      }

-- On a sound pool of fewer than 52428 texts and 2^32 bytes, and for a text below 2^32 bytes, `intern` gives a number that stands for the text,
-- the number it had when it was stored before, which `find` then gives; every other number keeps its
-- text, and the pool stays sound.
pub intern-IsInterned :
    (str : Bytes) (p : StringPool) (rows : Entries)
    → IsPool p rows
    → IsSmall p str
    → IsInterned str p (intern str p)
unfolding intern
intern-IsInterned str p rows h small =
    if_cases (IsInterned str p) (is_nil str) (0, p) _ (λ e. nothing e)
      (λ n. from n (index_find (fnv1a str) (has_key p str) p.index) (lookup str p rows h small n))
  where
    nothing : is_nil str ≡ true → IsInterned str p (0, p)
    nothing e = record {
      rows = rows;
      pool = h;
      back = no_text p ∙ sym (is_nil→eq str e);
      old = λ id n. refl;
      same_id = λ id s e'. absurd (ground (arith, e, s));
      known = λ s. absurd (ground (arith, e, s));
    }

    from :
        is_nil str ≡ false
        → (o : Search) → Answers rows (fix_hash (fnv1a str)) (has_key p str) o
        → IsInterned str p
            (elim o [ found v ↦ (v, p) | missing ↦ append_text str p | exhausted ↦ (0, p) ])
    from n (found v) a = found-IsInterned str p rows h small n v a
    from n exhausted a = elim a [ ]
    from n missing a =
        appended-IsInterned str p rows h small n (missing-IsNew str p rows h small n a)
