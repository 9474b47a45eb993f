-- ===== src/Core/Path.antt =====
-- src/core/path.cpp as it is built for POSIX, where `/` is the only separator and the only root. A
-- `Vec` of parts stands with its last element first.
mod Segments
mod Shape
mod Fixed
pub mod Normal
pub mod Walk
pub mod Meaning
pub mod Compose
pub mod Names
pub mod Utils
use putup.Prelude.{
  ℕ, zero, suc, Bool, true, false, not, ◌&&◌, ◌||◌, List, [], ◌∷◌, ◌++◌, reverse, Bytes, codes,
  slash, bytes_eq, is_nil, drop, ◌==◌, if◌then◌else◌,
}

abbrev pub dot : Bytes
dot = codes "."

abbrev pub dot_dot : Bytes
dot_dot = codes ".."

unfoldable pub root_length : Bytes → ℕ
root_length [] = 0
root_length (c ∷ p) = if c == slash then 1 else 0

abbrev pub is_absolute : Bytes → Bool
is_absolute p = not (root_length p == 0)

-- The parts that the loops over `find('/', start)` see. No part follows a last separator.
abbrev pub onto_first : ℕ → List Bytes → List Bytes
onto_first c [] = (c ∷ []) ∷ []
onto_first c (part ∷ parts) = (c ∷ part) ∷ parts

unfoldable pub segments : Bytes → List Bytes
segments [] = []
segments (c ∷ p) = if c == slash then [] ∷ segments p else onto_first c (segments p)

-- `part.empty() || part == "."`
abbrev pub is_skipped : Bytes → Bool
is_skipped part = is_nil part || bytes_eq part dot

abbrev pub is_up : Bytes → Bool
is_up part = bytes_eq part dot_dot

abbrev pub can_pop : List Bytes → Bool
can_pop [] = false
can_pop (part ∷ parts) = not (is_up part)

abbrev pub pop_back : List Bytes → List Bytes
pop_back [] = []
pop_back (part ∷ parts) = parts

-- the body of the loop of `normalize`
unfoldable pub push_part : Bool → Bytes → List Bytes → List Bytes
push_part absolute part parts =
    if is_skipped part
    then parts
    else if is_up part && can_pop parts
    then pop_back parts
    else if is_up part && absolute
    then parts
    else part ∷ parts

unfoldable pub collect : Bool → List Bytes → List Bytes → List Bytes
collect absolute [] parts = parts
collect absolute (part ∷ rest) parts = collect absolute rest (push_part absolute part parts)

-- the parts with a separator between them
unfoldable pub join_parts : List Bytes → Bytes
join_parts [] = []
join_parts (part ∷ []) = part
join_parts (part ∷ next ∷ parts) = part ++ slash ∷ join_parts (next ∷ parts)

unfoldable pub spell : Bool → List Bytes → Bytes
spell absolute [] = if absolute then slash ∷ [] else dot
spell absolute (part ∷ parts) =
    if absolute then slash ∷ join_parts (part ∷ parts) else join_parts (part ∷ parts)

unfoldable pub normalize : Bytes → Bytes
normalize p =
    spell (is_absolute p) (reverse (collect (is_absolute p) (segments (drop (root_length p) p)) []))

-- `!body.empty() && body.back() == '/'`
unfoldable pub ends_in_slash : Bytes → Bool
ends_in_slash [] = false
ends_in_slash (c ∷ []) = c == slash
ends_in_slash (c ∷ d ∷ p) = ends_in_slash (d ∷ p)

-- the loop of `is_normal`
unfoldable pub parts_normal : Bool → Bool → List Bytes → Bool
parts_normal absolute seen_name [] = true
parts_normal absolute seen_name (part ∷ parts) =
    let up = parts_normal absolute seen_name parts in
    let name = parts_normal absolute true parts in
    if is_skipped part
    then false
    else if is_up part
    then (if absolute || seen_name then false else up)
    else name

unfoldable pub is_normal : Bytes → Bool
is_normal p =
    if is_skipped p
    then true
    else not (ends_in_slash (drop (root_length p) p))
      && parts_normal (is_absolute p) false (segments (drop (root_length p) p))
