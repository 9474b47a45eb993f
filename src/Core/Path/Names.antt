-- ===== src/Core/Path/Names.antt =====
-- The parts of a path's spelling: `parent`, `filename`, `stem` and `extension` of src/core/path.cpp.
pub mod Laws
pub mod Extension
use putup.Prelude.{
  ℕ, zero, suc, Bool, true, false, not, ◌&&◌, ◌||◌, Option, none, some, List, [], ◌∷◌, Bytes, slash,
  bytes_eq, is_nil, length, take, drop, ltb, leb, get_or, rsplit, ◌==◌, if◌then◌else◌,
}
use putup.Core.Path.{dot, dot_dot, root_length, is_absolute, is_skipped, is_up}

unfoldable pub is_root : Bytes → Bool
is_root p = not (root_length p == 0) && (length p == root_length p)

-- `while (end > root_len && end > 1 && is_separator(p[end - 1])) --end;`
unfoldable pub strip_end : ℕ → Bytes → ℕ → ℕ
strip_end root_len p zero = zero
strip_end root_len p (suc last) =
    let rest = strip_end root_len p last in
    if ltb root_len (suc last) && (ltb 1 (suc last) && get_or p last 0 == slash)
    then rest
    else suc last

abbrev pub root_of : Bytes → Bytes
root_of p = take (root_length p) p

unfoldable pub parent : Bytes → Bytes
parent p =
    let end = strip_end (root_length p) p (length p) in
    if is_nil p
    then []
    else if is_root p
    then p
    else if leb end (root_length p)
    then root_of p
    else elim (rsplit slash (take end p)) [
      | none ↦ root_of p
      | some (before, after) ↦ if ltb (length before) (root_length p) then root_of p else before
    ]

unfoldable pub filename : Bytes → Bytes
filename p = elim (rsplit slash p) [ none ↦ drop (root_length p) p | some (before, after) ↦ after ]

-- `name.empty() || name == "." || name == ".."`
abbrev pub has_no_extension : Bytes → Bool
has_no_extension name = is_skipped name || is_up name

-- the name before its last `.`; a `.` at the beginning does not count
unfoldable pub stem : Bytes → Bytes
stem p =
    let name = filename p in
    if has_no_extension name then name else elim (rsplit b'.' name) [
      | none ↦ name
      | some (before, after) ↦ if is_nil before then name else before
    ]

-- the name from its last `.` on
unfoldable pub extension : Bytes → Bytes
extension p =
    let name = filename p in
    if has_no_extension name then [] else elim (rsplit b'.' name) [
      | none ↦ []
      | some (before, after) ↦ if is_nil before then [] else b'.' ∷ after
    ]

-- `ext.remove_prefix(1)` where `ext[0] == '.'`
abbrev pub without_dot : Bytes → Bytes
without_dot [] = []
without_dot (c ∷ ext) = if c == b'.' then ext else c ∷ ext

unfoldable pub bare_extension : Bytes → Bytes
bare_extension p = without_dot (extension p)
