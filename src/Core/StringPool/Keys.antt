-- ===== src/Core/StringPool/Keys.antt =====
-- The stored texts, and what storing one more leaves as it is.
use putup.Prelude.{
  ℕ, zero, suc, ◌+◌, ◌%◌, ◌^◌, ◌≤◌, ◌<◌, ◌≡◌, ◌⊎◌, refl, ap, ap₂, sym, ◌∙◌, false, none, some, List,
  [], ◌∷◌, ◌++◌, Bytes, is_nil, length, length-append, take, drop, get_elem?, get_elem?-append_left,
  get_elem?-snoc, inl, inr, arith,
}
use native.Mathlib.Nat.{mod-eq_of_lt}
use putup.Core.RobinHood.{fix_hash}
use putup.Core.RobinHood.Refines.{Entries, inserts, Listed}
use putup.Core.StringPool.{Entry, StringPool, text_of, key_at, fnv1a, append_text, empty_pool}

take-all : (xs ys : Bytes) → take (length xs) (xs ++ ys) ≡ xs
take-all [] ys = refl
take-all (x ∷ xs) ys = ap (λ l. x ∷ l) (take-all xs ys)

drop-all : (xs ys : Bytes) → drop (length xs) (xs ++ ys) ≡ ys
drop-all [] ys = refl
drop-all (x ∷ xs) ys = drop-all xs ys

take-inside : (n : ℕ) (xs ys : Bytes) → n ≤ length xs → take n (xs ++ ys) ≡ take n xs
take-inside zero xs ys b = refl
take-inside (suc n) [] ys b = absurd (omega arith)
take-inside (suc n) (x ∷ xs) ys b = ap (λ l. x ∷ l) (take-inside n xs ys (omega arith))

slice-inside :
    (off n : ℕ) (xs ys : Bytes)
    → off + n ≤ length xs
    → take n (drop off (xs ++ ys)) ≡ take n (drop off xs)
slice-inside zero n xs ys b = take-inside n xs ys (omega arith)
slice-inside (suc off) n [] ys b = absurd (omega arith)
slice-inside (suc off) n (x ∷ xs) ys b = slice-inside off n xs ys (omega arith)

-- every entry lies inside the bytes
abbrev pub IsInside : Bytes → List Entry → Type 0
IsInside bytes entries =
    (i : ℕ) (e : Entry) → get_elem? entries i ≡ some e → e.offset + e.length ≤ length bytes

-- A pool, with what was inserted in its index: each entry under the hash of its text, with its number;
-- the texts are not empty and differ from each other.
pub record IsPool (p : StringPool) (rows : Entries) : Type 0 where
  pub indexed : p.index ≡ inserts rows
  pub sized : length rows ≡ length p.entries
  pub listed : (i : ℕ) → i < length p.entries → Listed rows (fix_hash (fnv1a (key_at p i))) (suc i)
  pub numbered : (h v : ℕ) → Listed rows h v → (1 ≤ v) × (v ≤ length p.entries)
  pub inside : IsInside p.bytes p.entries
  pub written : (i : ℕ) → i < length p.entries → is_nil (key_at p i) ≡ false
  pub distinct :
      (i j : ℕ) → i < length p.entries → j < length p.entries → key_at p i ≡ key_at p j → i ≡ j

get_elem?-some :
    (entries : List Entry) (i : ℕ)
    → i < length entries
    → (e : Entry) × (get_elem? entries i ≡ some e)
get_elem?-some [] i b = absurd (omega arith)
get_elem?-some (e ∷ entries) zero b = (e, refl)
get_elem?-some (e ∷ entries) (suc i) b = get_elem?-some entries i (omega arith)

last_or_before :
    (entries : List Entry) (new : Entry) (i : ℕ) (e : Entry)
    → get_elem? (entries ++ new ∷ []) i ≡ some e
    → (get_elem? entries i ≡ some e) ⊎ (e ≡ new)
last_or_before [] new zero e at = inr (sym (ap (λ o. elim o [ none ↦ new | some x ↦ x ]) at))
last_or_before [] new (suc i) e at = inl at
last_or_before (x ∷ entries) new zero e at = inl at
last_or_before (x ∷ entries) new (suc i) e at = last_or_before entries new i e at

pub key_at-past : (p : StringPool) (i : ℕ) → length p.entries ≤ i → key_at p i ≡ []
unfolding text_of
key_at-past p i b = ap (text_of p.bytes) (past p.entries i b)
  where
    past : (entries : List Entry) (i : ℕ) → length entries ≤ i → get_elem? entries i ≡ none
    past [] i b = refl
    past (e ∷ entries) zero b = absurd (omega arith)
    past (e ∷ entries) (suc i) b = past entries i (omega arith)

module _ (str : Bytes) (p : StringPool) where
  -- the pool with the text
  abbrev pub after : StringPool
  after = (append_text str p).1

  pub key_at-old :
      IsInside p.bytes p.entries → (i : ℕ) → i < length p.entries → key_at after i ≡ key_at p i
  unfolding append_text text_of
  key_at-old inside i b =
      let (e, at) = get_elem?-some p.entries i b in
      let new : Entry = record { offset = length p.bytes % 2 ^ 32; length = length str % 2 ^ 32 } in
      let bytes = p.bytes ++ (str ++ 0 ∷ []) in
      ap (text_of bytes) (get_elem?-append_left p.entries (new ∷ []) i b ∙ at)
      ∙ slice-inside e.offset e.length p.bytes (str ++ 0 ∷ []) (inside i e at)
      ∙ sym (ap (text_of p.bytes) at)

  pub key_at-new :
      length p.bytes < 2 ^ 32 → length str < 2 ^ 32 → key_at after (length p.entries) ≡ str
  unfolding append_text text_of
  key_at-new small short =
      let new : Entry = record { offset = length p.bytes % 2 ^ 32; length = length str % 2 ^ 32 } in
      let bytes = p.bytes ++ (str ++ 0 ∷ []) in
      ap (text_of bytes) (get_elem?-snoc p.entries new)
      ∙ ap₂ (λ n off. take n (drop off bytes)) (mod-eq_of_lt {n = length str} {m = 2 ^ 32} short)
          (mod-eq_of_lt {n = length p.bytes} {m = 2 ^ 32} small)
      ∙ ap (take (length str)) (drop-all p.bytes (str ++ 0 ∷ []))
      ∙ take-all str (0 ∷ [])

  pub after-IsInside :
      IsInside p.bytes p.entries
      → length p.bytes < 2 ^ 32
      → length str < 2 ^ 32
      → IsInside after.bytes after.entries
  unfolding append_text
  after-IsInside inside small short i e at =
      let more = length-append p.bytes (str ++ 0 ∷ []) in
      let own = length-append str (0 ∷ []) in
      elim (last_or_before p.entries _ i e at) [
        | inl before ↦ omega (arith, inside i e before, more)
        | inr new ↦
            let off =
              ap (λ (x : Entry). x.offset) new
              ∙ mod-eq_of_lt {n = length p.bytes} {m = 2 ^ 32} small in
            let len =
              ap (λ (x : Entry). x.length) new ∙ mod-eq_of_lt {n = length str} {m = 2 ^ 32} short in
            omega (arith, off, len, more, own)
      ]

pub empty-IsPool : IsPool empty_pool []
empty-IsPool = record {
  indexed = refl;
  sized = refl;
  listed = λ i b. absurd (omega arith);
  numbered = λ h v l. absurd l;
  inside = λ i e at. cc;
  written = λ i b. absurd (omega arith);
  distinct = λ i j b c e. absurd (omega arith);
}
