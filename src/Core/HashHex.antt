-- ===== src/Core/HashHex.antt =====
-- src/core/hash.cpp: a hash as text and back. A `Hash256` is the list of its bytes.
pub mod RoundTrip
use putup.Prelude.{
  ℕ, ◌+◌, ◌-◌, ◌*◌, ◌/◌, ◌%◌, Bool, not, ◌&&◌, List, [], ◌∷◌, Option, none, some, Result, ok, err,
  Bytes, codes, length, get_or, leb, ◌==◌, if◌then◌else◌,
}

-- the two messages of `ErrorCode::InvalidArgument`
pub data HexError : Type 0 where
  wrong_size invalid_character : HexError

abbrev pub hex_chars : Bytes
hex_chars = codes "0123456789abcdef"

-- `b >> 4` is `b / 16`, and `b & 0x0F` is `b % 16`.
unfoldable pub hash_to_hex : List ℕ → Bytes
hash_to_hex [] = []
hash_to_hex (b ∷ hash) =
    get_or hex_chars (b / 16) 0 ∷ get_or hex_chars (b % 16) 0 ∷ hash_to_hex hash

-- `none` for the value -1
unfoldable pub parse_nibble : ℕ → Option ℕ
parse_nibble c =
    if leb 48 c && leb c 57
    then some (c - 48)
    else if leb 97 c && leb c 102
    then some (c - 97 + 10)
    else if leb 65 c && leb c 70
    then some (c - 65 + 10)
    else none

-- one byte from the values of its two digits
unfoldable pub push_byte : Option ℕ → Option ℕ → Result HexError (List ℕ) → Result HexError (List ℕ)
push_byte (some hi) (some lo) (ok rest) = ok ((hi * 16 + lo) ∷ rest)
push_byte (some hi) (some lo) (err e) = err e
push_byte (some hi) none rest = err invalid_character
push_byte none lo rest = err invalid_character

-- the loop over the 32 pairs of digits
unfoldable pub parse_pairs : Bytes → Result HexError (List ℕ)
parse_pairs [] = ok []
parse_pairs (c ∷ []) = ok []
parse_pairs (hi ∷ lo ∷ hex) = push_byte (parse_nibble hi) (parse_nibble lo) (parse_pairs hex)

unfoldable pub hex_to_hash : Bytes → Result HexError (List ℕ)
hex_to_hash hex = if not (length hex == 64) then err wrong_size else parse_pairs hex
