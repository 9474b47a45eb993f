-- ===== src/Core/StringPool.antt =====
-- src/core/string_pool.cpp: texts stored once, one behind the other, and found through the hash index. A
-- `StringId` is its number, 0 for the empty text.
pub mod Keys
pub mod Appended
pub mod Interned
use Prim.Native.Nat.{bit_xor}
use putup.Prelude.{
  ℕ, zero, suc, ◌+◌, ◌-◌, ◌*◌, ◌%◌, ◌^◌, Bool, true, false, Option, none, some, List, [], ◌∷◌, ◌++◌,
  Bytes, bytes_eq, is_nil, length, take, drop, get_elem?, ◌==◌, if◌then◌else◌,
}
use putup.Core.RobinHood.{
  RobinHoodIndex, index_insert, index_find, index_clear, found, missing, exhausted,
}

unfoldable pub fnv_loop : ℕ → Bytes → ℕ
fnv_loop h [] = h
fnv_loop h (c ∷ s) = fnv_loop (bit_xor h c * 16777619 % 2 ^ 32) s

unfoldable pub fnv1a : Bytes → ℕ
fnv1a s = fnv_loop 2166136261 s

pub record Entry : Type 0 where
  pub offset : ℕ
  pub length : ℕ

-- `bytes_size_` is the length of `bytes`.
pub record StringPool : Type 0 where
  pub bytes : Bytes
  pub entries : List Entry
  pub index : RobinHoodIndex

abbrev pub empty_pool : StringPool
empty_pool = record { bytes = []; entries = []; index = index_clear }

-- the bytes of an entry, where there is one
unfoldable pub text_of : Bytes → Option Entry → Bytes
text_of bytes none = []
text_of bytes (some e) = take e.length (drop e.offset bytes)

-- `key_of(value)`, with the value less 1
abbrev pub key_at : StringPool → ℕ → Bytes
key_at p i = text_of p.bytes (get_elem? p.entries i)

abbrev pub has_key : StringPool → Bytes → ℕ → Bool
has_key p str v = bytes_eq (key_at p (v - 1)) str

-- a text that the pool does not hold yet
unfoldable pub append_text : Bytes → StringPool → ℕ × StringPool
append_text str p =
    let value = (length p.entries + 1) % 2 ^ 32 in
    let e : Entry = record { offset = length p.bytes % 2 ^ 32; length = length str % 2 ^ 32 } in
    (
      value,
      record {
        bytes = p.bytes ++ (str ++ 0 ∷ []);
        entries = p.entries ++ e ∷ [];
        index = index_insert (fnv1a str) value p.index;
      },
    )

-- A search that ran out of fuel has no counterpart in the code.
unfoldable pub intern : Bytes → StringPool → ℕ × StringPool
intern str p =
    if is_nil str then (0, p) else elim (index_find (fnv1a str) (has_key p str) p.index) [
      | found v ↦ (v, p)
      | missing ↦ append_text str p
      | exhausted ↦ (0, p)
    ]

unfoldable pub pool_get : ℕ → StringPool → Bytes
pool_get id p = if id == 0 then [] else key_at p (id - 1)

unfoldable pub pool_find : Bytes → StringPool → ℕ
pool_find str p = if is_nil str then 0 else elim (index_find (fnv1a str) (has_key p str) p.index) [
  | found v ↦ v
  | missing ↦ 0
  | exhausted ↦ 0
]
