-- ===== src/Parser/Glob/Spec.antt =====
-- What it means for a text to match a pattern, with no search in it.
use putup.Prelude.{
  ℕ, ◌+◌, ◌-◌, ◌≤◌, ◌≡◌, ◌⊎◌, Bool, true, false, ◌||◌, List, [], ◌∷◌, ◌++◌, Bytes, slash, ltb, ◌==◌,
  if◌then◌else◌, count,
}

-- what is left of a pattern behind a character that may be missing
abbrev pub IsBehind : ℕ → Bytes → Bytes → Type 0
IsBehind x [] rest = rest ≡ []
IsBehind x (c ∷ p) rest = (((c == x) ≡ true) × (rest ≡ p)) ⊎ (((c == x) ≡ false) × (rest ≡ c ∷ p))

-- `*`, `**`, `*/` and `**/`, one after the other, match the empty text.
pub data Trails : Bytes → Type 0 where
  done : Trails []
  stars :
      {pc : ℕ} {p : Bytes} (behind_star behind_slash : Bytes)
      → (pc == b'*') ≡ true
      → IsBehind b'*' p behind_star
      → IsBehind slash behind_star behind_slash
      → Trails behind_slash
      → Trails (pc ∷ p)

-- the pattern does not begin with a second star
abbrev pub IsSingle : Bytes → Type 0
IsSingle [] = Unit
IsSingle (c ∷ p) = (c == b'*') ≡ false

-- no character with a meaning of its own
abbrev pub IsLiteral : ℕ → Type 0
IsLiteral c = ((c == b'*') ≡ false) × ((c == b'?') ≡ false) × ((c == b'[') ≡ false)

-- what stands in a bracket expression
pub data Item : Type 0 where
  single : ℕ → Item
  range : ℕ → ℕ → Item

-- the value of a signed `char`, and 128
abbrev pub signed : ℕ → ℕ
signed c = if ltb c 128 then c + 128 else c - 128

abbrev pub Holds : ℕ → Item → Type 0
Holds c (single x) = x ≡ c
Holds c (range a b) = (signed a ≤ signed c) × (signed c ≤ signed b)

abbrev pub HoldsSome : ℕ → List Item → Type 0
HoldsSome c [] = ⊥
HoldsSome c (item ∷ items) = Holds c item ⊎ HoldsSome c items

abbrev pub IsHeld : Bool → ℕ → List Item → Type 0
IsHeld true c items = HoldsSome c items → ⊥
IsHeld false c items = HoldsSome c items

-- a `-` between a character that begins no new item and one that is not the closing bracket
abbrev pub IsSpan : ℕ → ℕ → Bytes → Type 0
IsSpan prev pc [] = ⊥
IsSpan prev pc (end ∷ p) = ((pc == b'-') ≡ true) × ((prev == 0) ≡ false) × ((end == b']') ≡ false)

-- The items behind a character, 0 where there is none or it ended a range, and the pattern behind the
-- closing bracket; without one the items go to the end.
pub data Spells : ℕ → Bytes → List Item → Bytes → Type 0 where
  ended : {prev : ℕ} → Spells prev [] [] []
  closed : {prev pc : ℕ} {rest : Bytes} → (pc == b']') ≡ true → Spells prev (pc ∷ rest) [] rest
  one :
      {prev pc : ℕ} {p rest : Bytes} {items : List Item}
      → (pc == b']') ≡ false
      → (IsSpan prev pc p → ⊥)
      → Spells pc p items rest
      → Spells prev (pc ∷ p) (single pc ∷ items) rest
  span :
      {prev pc end : ℕ} {p rest : Bytes} {items : List Item}
      → IsSpan prev pc (end ∷ p)
      → Spells 0 p items rest
      → Spells prev (pc ∷ end ∷ p) (range prev end ∷ items) rest

-- `!` or `^` negates a bracket expression.
abbrev pub negates : ℕ → Bool
negates x = x == b'!' || x == b'^'

abbrev pub IsPlain : Bytes → Type 0
IsPlain [] = Unit
IsPlain (x ∷ p) = negates x ≡ false

-- a bracket expression behind its opening bracket
pub data IsClass : Bytes → Bool → List Item → Bytes → Type 0 where
  negated :
      {x : ℕ} {p rest : Bytes} {items : List Item}
      → negates x ≡ true
      → Spells 0 p items rest
      → IsClass (x ∷ p) true items rest
  listed :
      {p rest : Bytes} {items : List Item}
      → IsPlain p
      → Spells 0 p items rest
      → IsClass p false items rest

pub data Matches : Bytes → Bytes → Type 0 where
  -- at the end of the text
  trailing : {p : Bytes} → Trails p → Matches p []
  -- `**` and a separator after it stand for any text
  deep :
      {pc qc c : ℕ} {p t : Bytes} (behind gone rest : Bytes)
      → (pc == b'*') ≡ true
      → (qc == b'*') ≡ true
      → c ∷ t ≡ gone ++ rest
      → IsBehind slash p behind
      → Matches behind rest
      → Matches (pc ∷ qc ∷ p) (c ∷ t)
  -- `*` stands for any text without a separator
  star :
      {pc c : ℕ} {p t : Bytes} (gone rest : Bytes)
      → (pc == b'*') ≡ true
      → IsSingle p
      → c ∷ t ≡ gone ++ rest
      → count slash gone ≡ 0
      → Matches p rest
      → Matches (pc ∷ p) (c ∷ t)
  -- `?` stands for any character but a separator
  any :
      {pc c : ℕ} {p t : Bytes}
      → (pc == b'?') ≡ true
      → (c == slash) ≡ false
      → Matches p t
      → Matches (pc ∷ p) (c ∷ t)
  -- a bracket expression stands for a character that it holds, a negated one for one that it does not
  class :
      {pc c : ℕ} {p t : Bytes} (negative : Bool) (items : List Item) (rest : Bytes)
      → (pc == b'[') ≡ true
      → IsClass p negative items rest
      → IsHeld negative c items
      → Matches rest t
      → Matches (pc ∷ p) (c ∷ t)
  same : {pc c : ℕ} {p t : Bytes} → IsLiteral pc → pc ≡ c → Matches p t → Matches (pc ∷ p) (c ∷ t)
