-- ===== src/Core/Path/Utils.antt =====
-- src/core/path_utils.cpp: paths under a root, in a scope, and seen from a source directory.
mod Children
pub mod SourceRelative
pub mod UnderRoot
use putup.Prelude.{
  ℕ, zero, suc, Bool, true, false, not, ◌&&◌, ◌||◌, Option, none, some, List, [], ◌∷◌, ◌++◌, Bytes,
  codes, slash, backslash, bytes_eq, starts_with, is_nil, length, drop, ◌==◌, if◌then◌else◌,
}
use putup.Core.Path.{dot, dot_dot, is_absolute, segments, is_skipped, normalize}
use putup.Core.Path.Compose.{join, relative}

-- a root without the separators at its end
unfoldable pub strip_separators : Bytes → Bytes
strip_separators [] = []
strip_separators (c ∷ p) =
    let rest = strip_separators p in if c == slash && is_nil rest then [] else c ∷ rest

-- `text[n] == '/'`, where a text that ends before has no such character
unfoldable pub separator_at : ℕ → Bytes → Bool
separator_at n [] = false
separator_at zero (c ∷ text) = c == slash
separator_at (suc n) (c ∷ text) = separator_at n text

-- The source asserts that the path is normal; here it may be any path.
unfoldable pub is_path_under : Bytes → Bytes → Bool
is_path_under path root =
    let root' = strip_separators root in
    if bytes_eq path root'
    then true
    else if not (starts_with root' path)
    then false
    else separator_at (length root') path

-- the empty text where the path is not under the root
unfoldable pub relative_to_root : Bytes → Bytes → Bytes
relative_to_root path root =
    let root' = strip_separators root in
    if not (is_path_under path root)
    then []
    else if bytes_eq path root'
    then []
    else drop (suc (length root')) path

abbrev pub is_any_separator : ℕ → Bool
is_any_separator c = c == slash || c == backslash

-- the scope without the separators of both kinds at its end
unfoldable pub strip_scope : Bytes → Bytes
strip_scope [] = []
strip_scope (c ∷ scope) =
    let rest = strip_scope scope in if is_any_separator c && is_nil rest then [] else c ∷ rest

-- behind the scope: the end, or a separator
unfoldable pub ends_or_separates : ℕ → Bytes → Bool
ends_or_separates zero [] = true
ends_or_separates zero (c ∷ path) = is_any_separator c
ends_or_separates (suc n) [] = false
ends_or_separates (suc n) (c ∷ path) = ends_or_separates n path

unfoldable pub is_path_in_scope : Bytes → Bytes → Bool
is_path_in_scope path scope =
    let scope' = strip_scope scope in
    if is_nil scope
    then true
    else if is_nil scope'
    then true
    else if not (starts_with scope' path)
    then false
    else ends_or_separates (length scope') path

unfoldable pub in_any : Bytes → List Bytes → Bool
in_any path [] = false
in_any path (scope ∷ scopes) = is_path_in_scope path scope || in_any path scopes

unfoldable pub is_path_in_any_scope : Bytes → List Bytes → Bool
is_path_in_any_scope path scopes = if is_nil scopes then true else in_any path scopes

-- `../` for each part that is neither empty nor `.`
unfoldable pub up_text : List Bytes → Bytes
up_text [] = []
up_text (part ∷ parts) =
    if is_skipped part then up_text parts else b'.' ∷ b'.' ∷ slash ∷ up_text parts

unfoldable pub compute_source_to_root : Bytes → Bytes
compute_source_to_root source_dir = up_text (segments source_dir)

unfoldable pub make_source_relative : Bytes → Bytes → Bytes → Bytes
make_source_relative path source_to_root source_dir =
    if is_nil path || is_absolute path
    then path
    else if starts_with dot_dot path
    then (if not (is_nil source_to_root) && not (is_nil source_dir)
        then source_to_root ++ path
        else path)
    else if is_nil source_to_root
    then path
    else if starts_with (source_dir ++ slash ∷ []) path
    then drop (length (source_dir ++ slash ∷ [])) path
    else if bytes_eq path source_dir
    then dot
    else source_to_root ++ path

unfoldable pub strip_path_prefix : Bytes → Bytes → Bytes
strip_path_prefix path prefix =
    if is_nil prefix
    then path
    else if starts_with (prefix ++ slash ∷ []) path
    then drop (length (prefix ++ slash ∷ [])) path
    else path

unfoldable pub resolve_under_root : Bytes → Bytes → Bytes → Option Bytes
resolve_under_root path source_root target_root =
    let rel = relative (normalize (join source_root path)) (normalize target_root) in
    if not (starts_with dot_dot path)
    then none
    else if not (is_nil rel) && not (starts_with dot_dot rel)
    then some rel
    else none
