-- ===== src/Core/Path/Compose.antt =====
-- `join` and `relative` of src/core/path.cpp.
pub mod Joined
pub mod RoundTrip
use putup.Prelude.{
  ℕ, zero, suc, Bool, true, false, not, ◌&&◌, ◌||◌, List, [], ◌∷◌, ◌++◌, Bytes, slash, bytes_eq,
  is_nil, length, ◌==◌, if◌then◌else◌,
}
use putup.Core.Path.{
  dot, dot_dot, root_length, is_absolute, segments, is_skipped, join_parts, ends_in_slash,
}

-- `!p.empty() && is_separator(p.back())`; the second test is for drives
abbrev pub separates_from_child : Bytes → Bool
separates_from_child p = ends_in_slash p

unfoldable pub join : Bytes → Bytes → Bytes
join a b =
    if is_nil b
    then a
    else if is_nil a || is_absolute b
    then b
    else if not (separates_from_child a)
    then a ++ slash ∷ b
    else a ++ b

-- the lambda `split`: the parts that are neither empty nor `.`
unfoldable pub kept_parts : List Bytes → List Bytes
kept_parts [] = []
kept_parts (part ∷ parts) = if is_skipped part then kept_parts parts else part ∷ kept_parts parts

unfoldable pub split : Bytes → List Bytes
split p = kept_parts (segments p)

-- the loop over the common parts: what is left of both
unfoldable pub drop_common : List Bytes → List Bytes → List Bytes × List Bytes
drop_common [] base = ([], base)
drop_common (t ∷ target) [] = (t ∷ target, [])
drop_common (t ∷ target) (b ∷ base) =
    if bytes_eq t b then drop_common target base else (t ∷ target, b ∷ base)

-- `..` for each part of the base
abbrev pub up_parts : List Bytes → List Bytes
up_parts [] = []
up_parts (part ∷ parts) = dot_dot ∷ up_parts parts

-- The source asserts that both paths are normal and rooted in the same way; here they may be any paths.
unfoldable pub relative : Bytes → Bytes → Bytes
relative target base =
    let (target', base') = drop_common (split target) (split base) in
    let buf = join_parts (up_parts base' ++ target') in
    if bytes_eq target base then dot else if is_nil buf then dot else buf
