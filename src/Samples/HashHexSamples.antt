-- ===== src/Samples/HashHexSamples.antt =====
-- A hash of 32 equal bytes, and its text.
use putup.Prelude.{ℕ, ◌≡◌, refl, List, [], ◌∷◌, ok, err, Bytes, codes, length, All, map, arith}
use putup.Core.HashHex.{hash_to_hex, hex_to_hash, parse_pairs, parse_nibble, push_byte, wrong_size}
use putup.Core.HashHex.RoundTrip.{
  IsByte, lower_digit, hex_to_hash-hash_to_hex, hash_to_hex-hex_to_hash,
}

abbrev hash : List ℕ
hash =
    0 ∷ 17 ∷ 34 ∷ 51 ∷ 68 ∷ 85 ∷ 102 ∷ 119 ∷ 136 ∷ 153 ∷ 170 ∷ 187 ∷ 204 ∷ 221 ∷ 238 ∷ 255 ∷ 0 ∷ 17
    ∷ 34 ∷ 51 ∷ 68 ∷ 85 ∷ 102 ∷ 119 ∷ 136 ∷ 153 ∷ 170 ∷ 187 ∷ 204 ∷ 221 ∷ 238 ∷ 255 ∷ []

hash-IsByte : All IsByte hash
hash-IsByte = ground arith

abbrev upper : Bytes
upper = codes "00112233445566778899AABBCCDDEEFF00112233445566778899aabbccddeeff"

upper_read : hex_to_hash upper ≡ ok hash
unfolding hex_to_hash parse_pairs parse_nibble push_byte
upper_read = refl

too_short : hex_to_hash (codes "00") ≡ err wrong_size
unfolding hex_to_hash parse_pairs parse_nibble push_byte
too_short = refl

hex_to_hash-hash_to_hex_example : hex_to_hash (hash_to_hex hash) ≡ ok hash
hex_to_hash-hash_to_hex_example = hex_to_hash-hash_to_hex hash refl hash-IsByte

hash_to_hex-hex_to_hash_example :
    (length upper ≡ 64)
    × (length hash ≡ 32)
    × All IsByte hash
    × (hash_to_hex hash ≡ map lower_digit upper)
hash_to_hex-hex_to_hash_example = hash_to_hex-hex_to_hash upper hash upper_read
