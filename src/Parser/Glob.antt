-- ===== src/Parser/Glob.antt =====
-- src/parser/glob.cpp: matching a path against a pattern, and splitting a pattern in its directory and
-- its file pattern. The functions that list directories are left out.
pub mod Spec
mod Splits
mod Classes
mod Inverses
pub mod Decides
pub mod Directory
use putup.Prelude.{
  Option, none, some, rsplit, drop, ℕ, zero, suc, ◌+◌, ◌-◌, Bool, true, false, not, ◌&&◌, ◌||◌,
  List, [], ◌∷◌, ◌++◌, Bytes, slash, bytes_eq, is_nil, length, ltb, leb, ◌==◌, if◌then◌else◌,
}

abbrev pub is_star : ℕ → Bool
is_star c = c == b'*'

-- `c == '*' || c == '?' || c == '['`
abbrev pub is_wild : ℕ → Bool
is_wild c = c == b'*' || (c == b'?' || c == b'[')

unfoldable pub has_glob_chars : Bytes → Bool
has_glob_chars [] = false
has_glob_chars (c ∷ p) = is_wild c || has_glob_chars p

-- `text.find('/') != npos`
unfoldable pub has_slash : Bytes → Bool
has_slash [] = false
has_slash (c ∷ t) = c == slash || has_slash t

-- `if (pi < pattern.size() && pattern[pi] == x) ++pi;`
unfoldable pub skip_one : ℕ → Bytes → Bytes
skip_one x [] = []
skip_one x (c ∷ p) = if c == x then p else c ∷ p

-- a `char` is signed: the bytes from 128 on stand for negative numbers
abbrev pub char_leb : ℕ → ℕ → Bool
char_leb a b =
    leb ((a + 128) - (if ltb a 128 then 0 else 256)) ((b + 128) - (if ltb b 128 then 0 else 256))

-- The loop of `match_bracket` up to `]`: whether `c` was matched, and what is left.
unfoldable pub bracket_loop : ℕ → Bool → ℕ → Bytes → Bool × Bytes
bracket_loop c matched prev [] = (matched, [])
bracket_loop c matched prev (pc ∷ []) =
    if pc == b']' then (matched, pc ∷ []) else (matched || pc == c, [])
bracket_loop c matched prev (pc ∷ end ∷ p) =
    let range = bracket_loop c (matched || (char_leb prev c && char_leb c end)) 0 p in
    let single = bracket_loop c (matched || pc == c) pc (end ∷ p) in
    if pc == b']'
    then (matched, pc ∷ end ∷ p)
    else if pc == b'-' && (not (prev == 0) && not (end == b']'))
    then range
    else single

-- `match_bracket` behind the opening bracket
unfoldable pub match_bracket : Bytes → ℕ → Bool × Bytes
match_bracket [] c = (false, [])
match_bracket (x ∷ p) c =
    if x == b'!' || x == b'^'
    then (let (matched, rest) = bracket_loop c false 0 p in (not matched, skip_one b']' rest))
    else (let (matched, rest) = bracket_loop c false 0 (x ∷ p) in (matched, skip_one b']' rest))

-- the last loop of `match_recursive`: one star or two, and a separator behind them, at a time
unfoldable pub only_trailing : ℕ → Bytes → Bool
only_trailing fuel [] = true
only_trailing zero (pc ∷ p) = false
only_trailing (suc fuel) (pc ∷ p) =
    let rest = only_trailing fuel (skip_one slash (skip_one b'*' p)) in
    if is_star pc then rest else false

-- `for (i = ti; i <= text.size(); ++i)`
unfoldable pub at_any_suffix : (Bytes → Bool) → Bytes → Bool
at_any_suffix try [] = try []
at_any_suffix try (c ∷ t) = try (c ∷ t) || at_any_suffix try t

-- up to the next separator, and there
unfoldable pub within_segment : (Bytes → Bool) → Bytes → Bool
within_segment try [] = try []
within_segment try (c ∷ t) = if c == slash then try (c ∷ t) else try (c ∷ t) || within_segment try t

-- The two branches for stars, at some text. `try` is the recursive call.
unfoldable pub match_deep : (Bytes → Bytes → Bool) → Bytes → Bytes → Bool
match_deep try p t = if is_nil p then true else at_any_suffix (try p) t

unfoldable pub match_star : (Bytes → Bytes → Bool) → Bytes → Bytes → Bool
match_star try [] t = not (has_slash t)
match_star try (qc ∷ p) t =
    if is_star qc then match_deep try (skip_one slash p) t else within_segment (try (qc ∷ p)) t

-- the branches for one character of the text
unfoldable pub match_one : (Bytes → Bytes → Bool) → ℕ → Bytes → ℕ → Bytes → Bool
match_one try pc p c t =
    if pc == b'?'
    then (if c == slash then false else try p t)
    else if pc == b'['
    then (let (matched, rest) = match_bracket p c in if matched then try rest t else false)
    else if pc == c
    then try p t
    else false

-- one turn of the loop of `match_recursive`, or its end
unfoldable pub match_step : (Bytes → Bytes → Bool) → Bytes → Bytes → Bool
match_step try [] t = is_nil t
match_step try (pc ∷ p) [] = only_trailing (length (pc ∷ p)) (pc ∷ p)
match_step try (pc ∷ p) (c ∷ t) =
    if is_star pc then match_star try p (c ∷ t) else match_one try pc p c t

-- Every turn and every call leaves a shorter pattern, so the fuel need not exceed its length.
unfoldable pub match_loop : ℕ → Bytes → Bytes → Bool
match_loop zero p t = match_step (λ p t. false) p t
match_loop (suc fuel) p t = match_step (match_loop fuel) p t

unfoldable pub match_recursive : Bytes → Bytes → Bool
match_recursive pattern text = match_loop (length pattern) pattern text

-- `Glob::matches`
unfoldable pub matches : Bytes → Bytes → Bool
matches pattern filename =
    if not (has_glob_chars pattern)
    then bytes_eq pattern filename
    else match_recursive pattern filename

-- `pattern.substr(0, glob_pos)`
unfoldable pub before_glob : Bytes → Bytes
before_glob [] = []
before_glob (c ∷ p) = let rest = before_glob p in if is_wild c then [] else c ∷ rest

-- the directory before the first wildcard, and the rest; without a wildcard the whole pattern counts
unfoldable pub glob_split_path : Bytes → Bytes × Bytes
glob_split_path pattern = elim (rsplit slash (before_glob pattern)) [
  | none ↦ ([], pattern)
  | some (directory, after) ↦ (directory, drop (suc (length directory)) pattern)
]
