-- ===== src/Core/Path/Names/Laws.antt =====
-- The parts of a path's spelling, put together again.
use putup.Prelude.{
  ℕ, suc, ◌≡◌, refl, ap, sym, subst, ◌∙◌, Bool, true, false, not, ◌&&◌, ◌||◌, Option, none, some,
  List, [], ◌∷◌, ◌++◌, Bytes, slash, bytes_eq→eq, is_nil, length, take, drop, ltb, leb, get_or,
  rsplit, IsSplit, rsplit-IsSplit, count, ◌==◌, if◌then◌else◌, if-true, if-false, if_cases, arith,
  Bool-cases, ==_iff, inl, inr,
}
use putup.Core.Path.{
  dot, root_length, is_absolute, segments, ends_in_slash, parts_normal, is_normal, is_skipped,
}
use putup.Core.Path.Segments.{segments-slash}
use putup.Core.Path.Normal.{is_normal-rooted, is_normal-unrooted, root_length-name}
use putup.Core.Path.Compose.{join}
use putup.Core.Path.Compose.Joined.{segments-after}
use putup.Core.Path.Names.{is_root, strip_end, root_of, parent, filename}

pub empty_part :
    (absolute seen : Bool) (xs ys : List Bytes) → parts_normal absolute seen (xs ++ [] ∷ ys) ≡ false
unfolding parts_normal
empty_part absolute seen [] ys = refl
empty_part absolute seen (x ∷ xs) ys =
    ground (arith, empty_part absolute seen xs ys, empty_part absolute true xs ys)

-- a separator follows a separator
pub no_double :
    (absolute : Bool) (a b : Bytes)
    → parts_normal absolute false (segments (a ++ slash ∷ b)) ≡ true
    → ends_in_slash a ≡ false
no_double absolute a b h = elim (Bool-cases (ends_in_slash a)) [
  | inl ends ↦
      let split =
        segments-after a (slash ∷ b) ends ∙ ap (λ l. segments a ++ l) (segments-slash b) in
      let bad =
        ap (parts_normal absolute false) split
        ∙ empty_part absolute false (segments a) (segments b) in
      cc
  | inr open_end ↦ open_end
]

last_slash : (c : ℕ) (p : Bytes) → ends_in_slash (c ∷ p) ≡ (get_or (c ∷ p) (length p) 0 == slash)
unfolding ends_in_slash
last_slash c [] = refl
last_slash c (d ∷ p) = last_slash d p

strip_end-same :
    (root_len : ℕ) (p : Bytes)
    → ends_in_slash p ≡ false
    → strip_end root_len p (length p) ≡ length p
unfolding strip_end
strip_end-same root_len [] h = refl
strip_end-same root_len (c ∷ p) h =
    let last = last_slash c p in
    if-false
      {b = ltb root_len (suc (length p))
        && (ltb 1 (suc (length p)) && get_or (c ∷ p) (length p) 0 == slash)}
      _ (suc (length p)) (ground (arith, h, last))

take-length : (p : Bytes) → take (length p) p ≡ p
take-length [] = refl
take-length (c ∷ p) = ap (λ t. c ∷ t) (take-length p)

longer_than_root :
    (p : Bytes) → is_nil p ≡ false → is_root p ≡ false → leb (length p) (root_length p) ≡ false
unfolding is_root root_length
longer_than_root [] h r = cc
longer_than_root (c ∷ p) h r =
    if_cases (λ n. (not (n == 0) && (suc (length p) == n)) ≡ false → leb (suc (length p)) n ≡ false)
      (c == slash) 1 0 (λ _ r. ground (arith, r)) (λ _ r. ground arith) r

no_slash-unrooted : (p : Bytes) → count slash p ≡ 0 → root_length p ≡ 0
unfolding root_length
no_slash-unrooted [] h = refl
no_slash-unrooted (c ∷ p) h = if_cases (λ n. n ≡ 0) (c == slash) 1 0 (λ e. ground arith) (λ _. refl)

pub ends_in_slash-end : (a b : Bytes) → ends_in_slash (a ++ slash ∷ b) ≡ false → is_nil b ≡ false
unfolding ends_in_slash
ends_in_slash-end [] [] h = cc
ends_in_slash-end a (c ∷ b) h = refl
ends_in_slash-end (x ∷ []) [] h = cc
ends_in_slash-end (x ∷ y ∷ a) [] h = ends_in_slash-end (y ∷ a) [] h

-- A path that its parent and its file name give back.
abbrev Parted : Bytes → Type 0
Parted p = join (parent p) (filename p) ≡ p

parent-stripped :
    (p : Bytes)
    → is_nil p ≡ false
    → is_root p ≡ false
    → ends_in_slash p ≡ false
    → parent p ≡ elim (rsplit slash p) [
      | none ↦ root_of p
      | some (before, after) ↦ if ltb (length before) (root_length p) then root_of p else before
    ]
unfolding parent
parent-stripped p written root ends =
    if-false [] _ written
    ∙ if-false p _ root
    ∙ rw (strip_end-same (root_length p) p ends, take-length p)
        (if-false (root_of p) _ (longer_than_root p written root))

join-name : (b : Bytes) → is_nil b ≡ false → join [] b ≡ b
unfolding join
join-name b written = if-false [] b written

pub join-slash :
    (a b : Bytes)
    → is_nil a ≡ false
    → ends_in_slash a ≡ false
    → is_nil b ≡ false
    → root_length b ≡ 0
    → join a b ≡ a ++ slash ∷ b
unfolding join
join-slash a b written ends name unrooted =
    if-false a _ name
    ∙ if-false {b = is_nil a || is_absolute b} b _ (ground arith)
    ∙ if-true (a ++ slash ∷ b) (a ++ b) (ap not ends)

pub join-root : (b : Bytes) → is_nil b ≡ false → root_length b ≡ 0 → join (slash ∷ []) b ≡ slash ∷ b
unfolding join ends_in_slash
join-root b name unrooted = if-false (slash ∷ []) _ name ∙ if-false b _ (ground arith)

parted-some :
    (before after : Bytes)
    → ends_in_slash before ≡ false
    → count slash after ≡ 0
    → is_nil after ≡ false
    → join
        (if ltb (length before) (root_length (before ++ slash ∷ after))
          then root_of (before ++ slash ∷ after)
          else before)
        after
      ≡ before ++ slash ∷ after
unfolding root_length
parted-some [] after ends clear name = join-root after name (no_slash-unrooted after clear)
parted-some (c ∷ before) after ends clear name =
    ap (λ t. join t after)
      (if-false (root_of (c ∷ before ++ slash ∷ after)) (c ∷ before) (
        if_cases (λ n. ltb (suc (length before)) n ≡ false) (c == slash) 1 0 (λ _. ground arith)
          (λ _. ground arith)))
    ∙ join-slash (c ∷ before) after refl ends name (no_slash-unrooted after clear)

case-Parted :
    (p : Bytes)
    → is_nil p ≡ false
    → is_root p ≡ false
    → ends_in_slash p ≡ false
    → ((before after : Bytes) → p ≡ before ++ slash ∷ after → ends_in_slash before ≡ false)
    → Parted p
unfolding filename
case-Parted p written root ends single =
    ap (λ t. join t (filename p)) (parent-stripped p written root ends)
    ∙ from (rsplit slash p) (rsplit-IsSplit slash p)
  where
    from :
        (o : Option (Bytes × Bytes))
        → IsSplit slash p o
        → join
            (elim o [
              | none ↦ root_of p
              | some (before, after) ↦
                  if ltb (length before) (root_length p) then root_of p else before
            ])
            (elim o [ none ↦ drop (root_length p) p | some (before, after) ↦ after ])
          ≡ p
    from none h = rw (no_slash-unrooted p h) (join-name p written)
    from (some (before, after)) (e, h) =
        subst
          (λ t. join (if ltb (length before) (root_length t) then root_of t else before) after ≡ t)
          (sym e)
          (parted-some before after (single before after e) h
            (ends_in_slash-end before after (ap ends_in_slash (sym e) ∙ ends)))

root-Parted : Parted (slash ∷ [])
unfolding join parent filename is_root root_length strip_end rsplit ends_in_slash
root-Parted = refl

empty-Parted : Parted []
unfolding join parent filename is_root root_length strip_end rsplit
empty-Parted = refl

dot-Parted : Parted dot
unfolding join parent filename is_root root_length strip_end rsplit
dot-Parted = refl

single_rooted :
    (d : ℕ) (b : Bytes)
    → parts_normal true false (segments (d ∷ b)) ≡ true
    → (before after : Bytes) → slash ∷ d ∷ b ≡ before ++ slash ∷ after
    → ends_in_slash before ≡ false
unfolding ends_in_slash
single_rooted d b h [] after e = refl
single_rooted d b h (x ∷ []) after e =
    let bad =
      ap (λ l. parts_normal true false (segments (drop 1 l))) e
      ∙ ap (parts_normal true false) (segments-slash after)
      ∙ empty_part true false [] (segments after) in
    cc
single_rooted d b h (x ∷ y ∷ before) after e =
    no_double true (y ∷ before) after
      (ap (λ l. parts_normal true false (segments (drop 1 l))) (sym e) ∙ h)

rooted-Parted : (b : Bytes) → is_normal (slash ∷ b) ≡ true → Parted (slash ∷ b)
unfolding is_root root_length ends_in_slash
rooted-Parted [] h = root-Parted
rooted-Parted (d ∷ b) h =
    let body : (not (ends_in_slash (d ∷ b)) && parts_normal true false (segments (d ∷ b))) ≡ true =
      sym (is_normal-rooted (d ∷ b)) ∙ h in
    case-Parted (slash ∷ d ∷ b) refl (ground arith) (ground arith)
      (single_rooted d b (ground arith))

unrooted-Parted :
    (c : ℕ) (b : Bytes)
    → root_length (c ∷ b) ≡ 0
    → is_skipped (c ∷ b) ≡ false
    → is_normal (c ∷ b) ≡ true
    → Parted (c ∷ b)
unfolding is_root
unrooted-Parted c b unrooted kept h =
    let body = is_normal-unrooted (c ∷ b) unrooted kept h in
    case-Parted (c ∷ b) refl (rw unrooted refl) (ground arith) (λ before after e.
      no_double false before after
        (ap (λ p. parts_normal false false (segments p)) (sym e) ∙ ground arith))

-- The parent of a normal path and its file name join to the path.
pub parent-filename : (p : Bytes) → is_normal p ≡ true → join (parent p) (filename p) ≡ p
parent-filename [] h = empty-Parted
parent-filename (c ∷ b) h = elim (Bool-cases (c == slash)) [
  | inl here ↦
      let same : c ≡ slash = (==_iff c slash).0 here in
      subst (λ x. is_normal (x ∷ b) ≡ true → Parted (x ∷ b)) (sym same) (rooted-Parted b) h
  | inr away ↦ elim (Bool-cases (is_skipped (c ∷ b))) [
    | inl skipped ↦ subst Parted (sym (bytes_eq→eq (c ∷ b) dot skipped)) dot-Parted
    | inr kept ↦ unrooted-Parted c b (root_length-name c b away) kept h
  ]
]
