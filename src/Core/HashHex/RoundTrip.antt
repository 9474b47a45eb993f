-- ===== src/Core/HashHex/RoundTrip.antt =====
-- Writing a hash and reading it, in both orders.
use putup.Prelude.{
  ℕ, zero, suc, ◌+◌, ◌-◌, ◌*◌, ◌/◌, ◌%◌, ◌<◌, ◌≡◌, refl, ap, sym, subst, ◌∙◌, not, ◌&&◌, List, [],
  ◌∷◌, Option, none, some, Result, ok, err, Bytes, length, get_or, leb, ◌==◌, if◌then◌else◌,
  if-false, if-true, if_cases, Bool-cases, All, map, arith, inl, inr,
}
use putup.Core.HashHex.{
  HexError, wrong_size, hex_chars, hash_to_hex, parse_nibble, push_byte, parse_pairs, hex_to_hash,
}

-- digit after digit is read as the next value
abbrev ReadsFrom : ℕ → Bytes → Type 0
ReadsFrom k [] = Unit
ReadsFrom k (c ∷ cs) = (parse_nibble c ≡ some k) × ReadsFrom (suc k) cs

hex_chars-ReadsFrom : ReadsFrom 0 hex_chars
unfolding parse_nibble
hex_chars-ReadsFrom = (
  refl,
  (
    refl,
    (
      refl,
      (
        refl,
        (
          refl,
          (
            refl,
            (refl, (refl, (refl, (refl, (refl, (refl, (refl, (refl, (refl, (refl, tt)))))))))),
          ),
        ),
      ),
    ),
  ),
)

ReadsFrom-at :
    (k : ℕ) (cs : Bytes) (n : ℕ)
    → ReadsFrom k cs
    → n < length cs
    → parse_nibble (get_or cs n 0) ≡ some (k + n)
ReadsFrom-at k [] n r h = absurd (omega arith)
ReadsFrom-at k (c ∷ cs) zero (e, r) h = e ∙ ap some (omega arith)
ReadsFrom-at k (c ∷ cs) (suc n) (e, r) h =
    ReadsFrom-at (suc k) cs n r (omega arith) ∙ ap some (omega arith)

-- the digit of a value is read as that value
parse_nibble-digit : (n : ℕ) → n < 16 → parse_nibble (get_or hex_chars n 0) ≡ some n
parse_nibble-digit n h = ReadsFrom-at 0 hex_chars n hex_chars-ReadsFrom h ∙ ap some (omega arith)

abbrev pub IsByte : ℕ → Type 0
IsByte b = b < 256

pairs-read : (hash : List ℕ) → All IsByte hash → parse_pairs (hash_to_hex hash) ≡ ok hash
unfolding parse_pairs hash_to_hex push_byte
pairs-read [] a = refl
pairs-read (b ∷ hash) (p, a) =
    rw
      (
        parse_nibble-digit (b / 16) (omega arith),
        parse_nibble-digit (b % 16) (omega arith),
        pairs-read hash a,
      )
      (ap (λ x. ok (x ∷ hash)) (omega arith))

length-hash_to_hex : (hash : List ℕ) → length (hash_to_hex hash) ≡ 2 * length hash
unfolding hash_to_hex
length-hash_to_hex [] = refl
length-hash_to_hex (b ∷ hash) = omega (arith, length-hash_to_hex hash)

-- A list of 32 bytes is the hash that is read from its hexadecimal text.
pub hex_to_hash-hash_to_hex :
    (hash : List ℕ) → length hash ≡ 32 → All IsByte hash → hex_to_hash (hash_to_hex hash) ≡ ok hash
unfolding hex_to_hash
hex_to_hash-hash_to_hex hash size a =
    if-false (err wrong_size) (parse_pairs (hash_to_hex hash))
      (ground (arith, length-hash_to_hex hash))
    ∙ pairs-read hash a

-- the digits of the letters `A` to `F` are written in lower case
abbrev pub lower_digit : ℕ → ℕ
lower_digit c = if leb 65 c && leb c 70 then c + 32 else c

-- the digit of a value, by its code
abbrev digit_code : ℕ → ℕ
digit_code n = if leb n 9 then 48 + n else 87 + n

abbrev SpellsFrom : ℕ → Bytes → Type 0
SpellsFrom k [] = Unit
SpellsFrom k (d ∷ ds) = (d ≡ digit_code k) × SpellsFrom (suc k) ds

hex_chars-SpellsFrom : SpellsFrom 0 hex_chars
hex_chars-SpellsFrom = (
  refl,
  (
    refl,
    (
      refl,
      (
        refl,
        (
          refl,
          (
            refl,
            (refl, (refl, (refl, (refl, (refl, (refl, (refl, (refl, (refl, (refl, tt)))))))))),
          ),
        ),
      ),
    ),
  ),
)

SpellsFrom-at :
    (k : ℕ) (ds : Bytes) (n : ℕ)
    → SpellsFrom k ds
    → n < length ds
    → get_or ds n 0 ≡ digit_code (k + n)
SpellsFrom-at k [] n r h = absurd (omega arith)
SpellsFrom-at k (d ∷ ds) zero (e, r) h = e ∙ ap digit_code (omega arith)
SpellsFrom-at k (d ∷ ds) (suc n) (e, r) h =
    SpellsFrom-at (suc k) ds n r (omega arith) ∙ ap digit_code (omega arith)

-- what is known of a character that was read
Digit : ℕ → Option ℕ → Type 0
Digit c none = Unit
Digit c (some n) = (n < 16) × (get_or hex_chars n 0 ≡ lower_digit c)

parse_nibble-Digit : (c : ℕ) → Digit c (parse_nibble c)
unfolding parse_nibble Digit
parse_nibble-Digit c =
    if_cases (Digit c) (leb 48 c && leb c 57) (some (c - 48)) _
      (λ e. (ground arith, at (c - 48) (ground arith) ∙ ground arith))
      (λ e.
        if_cases (Digit c) (leb 97 c && leb c 102) (some (c - 97 + 10)) _
          (λ e. (ground arith, at (c - 97 + 10) (ground arith) ∙ ground arith))
          (λ e'.
            if_cases (Digit c) (leb 65 c && leb c 70) (some (c - 65 + 10)) none
              (λ e. (ground arith, at (c - 65 + 10) (ground arith) ∙ ground arith)) (λ e. tt)))
  where
    at : (n : ℕ) → n < 16 → get_or hex_chars n 0 ≡ digit_code n
    at n h = SpellsFrom-at 0 hex_chars n hex_chars-SpellsFrom h ∙ ap digit_code (omega arith)

-- what is known of the bytes that were read
Reads : Bytes → Result HexError (List ℕ) → Type 0
Reads hex (err e) = Unit
Reads hex (ok hash) = (hash_to_hex hash ≡ map lower_digit hex) × All IsByte hash

push_byte-Reads :
    (hi lo : ℕ) (h l : Option ℕ) (hex : Bytes) (rest : Result HexError (List ℕ))
    → Digit hi h
    → Digit lo l
    → Reads hex rest
    → Reads (hi ∷ lo ∷ hex) (push_byte h l rest)
unfolding push_byte Digit Reads hash_to_hex
push_byte-Reads hi lo none l hex rest a b r = tt
push_byte-Reads hi lo (some h) none hex rest a b r = tt
push_byte-Reads hi lo (some h) (some l) hex (err e) a b r = tt
push_byte-Reads hi lo (some h) (some l) hex (ok hash) (u, a) (v, b) (e, s) =
    let high : (h * 16 + l) / 16 ≡ h = omega arith in
    let low : (h * 16 + l) % 16 ≡ l = omega arith in
    (rw (high, low, a, b, e) refl, (omega arith, s))

parse_pairs-Reads : (n : ℕ) (hex : Bytes) → length hex ≡ 2 * n → Reads hex (parse_pairs hex)
unfolding parse_pairs Reads hash_to_hex
parse_pairs-Reads n [] h = (refl, tt)
parse_pairs-Reads n (c ∷ []) h = absurd (omega arith)
parse_pairs-Reads n (hi ∷ lo ∷ hex) h =
    push_byte-Reads hi lo (parse_nibble hi) (parse_nibble lo) hex (parse_pairs hex)
      (parse_nibble-Digit hi) (parse_nibble-Digit lo) (parse_pairs-Reads (n - 1) hex (omega arith))

length-lower : (hex : Bytes) → length (map lower_digit hex) ≡ length hex
length-lower [] = refl
length-lower (c ∷ hex) = ap suc (length-lower hex)

-- A text that is read as a hash has 64 characters, its hash has 32 bytes, and writing that hash gives
-- the text back with the digits `A` to `F` in lower case.
pub hash_to_hex-hex_to_hash :
    (hex : Bytes) (hash : List ℕ)
    → hex_to_hash hex ≡ ok hash
    → (length hex ≡ 64)
      × (length hash ≡ 32)
      × All IsByte hash
      × (hash_to_hex hash ≡ map lower_digit hex)
unfolding hex_to_hash Reads
hash_to_hex-hex_to_hash hex hash e = elim (Bool-cases (not (length hex == 64))) [
  | inl wrong ↦
      let refused : hex_to_hash hex ≡ err wrong_size =
        if-true (err wrong_size) (parse_pairs hex) wrong in
      cc
  | inr right ↦
      let parsed : parse_pairs hex ≡ ok hash =
        sym (if-false (err wrong_size) (parse_pairs hex) right) ∙ e in
      let size : length hex ≡ 64 = ground arith in
      let (back, small) = subst (Reads hex) parsed (parse_pairs-Reads 32 hex (ground arith)) in
      (size, omega (arith, length-hash_to_hex hash, ap length back, length-lower hex), small, back)
]
