-- ===== src/Samples/GlobSamples.antt =====
-- Patterns and the names that they match.
use putup.Prelude.{rsplit, ◌≡◌, ◌↔◌, refl, true, false, codes, bytes_eq}
use putup.Parser.Glob.{
  before_glob, glob_split_path, matches, match_recursive, match_loop, match_step, match_one,
  match_star, match_deep, match_bracket, bracket_loop, at_any_suffix, within_segment, only_trailing,
  skip_one, has_slash, has_glob_chars,
}
use putup.Parser.Glob.Directory.{IsDirectory, glob_split_path-append}
use putup.Parser.Glob.Spec.{Matches}
use putup.Parser.Glob.Decides.{matches_iff}

source_matches : matches (codes "src/**/*.[ch]") (codes "src/core/hash/sha.c") ≡ true
unfolding matches match_recursive match_loop match_step match_one match_star match_deep
    match_bracket bracket_loop at_any_suffix within_segment only_trailing skip_one has_slash
    has_glob_chars bytes_eq
source_matches = refl

star_stays : matches (codes "*.c") (codes "src/a.c") ≡ false
unfolding matches match_recursive match_loop match_step match_one match_star match_deep
    match_bracket bracket_loop at_any_suffix within_segment only_trailing skip_one has_slash
    has_glob_chars bytes_eq
star_stays = refl

-- a separator behind a single star is dropped at the end of the text
dropped_separator : matches (codes "lib*/") (codes "lib") ≡ true
unfolding matches match_recursive match_loop match_step match_one match_star match_deep
    match_bracket bracket_loop at_any_suffix within_segment only_trailing skip_one has_slash
    has_glob_chars bytes_eq
dropped_separator = refl

kept_separator : matches (codes "lib*/") (codes "libx") ≡ false
unfolding matches match_recursive match_loop match_step match_one match_star match_deep
    match_bracket bracket_loop at_any_suffix within_segment only_trailing skip_one has_slash
    has_glob_chars bytes_eq
kept_separator = refl

matches_iff_example :
    (matches (codes "*.c") (codes "main.c") ≡ true) ↔ Matches (codes "*.c") (codes "main.c")
matches_iff_example = matches_iff (codes "*.c") (codes "main.c")

-- `**/` does not stop at a separator
inside_a_name : matches (codes "**/b.c") (codes "ab.c") ≡ true
unfolding matches match_recursive match_loop match_step match_one match_star match_deep
    match_bracket bracket_loop at_any_suffix within_segment only_trailing skip_one has_slash
    has_glob_chars bytes_eq
inside_a_name = refl

negated_class : matches (codes "[!a-c]x") (codes "bx") ≡ false
unfolding matches match_recursive match_loop match_step match_one match_star match_deep
    match_bracket bracket_loop at_any_suffix within_segment only_trailing skip_one has_slash
    has_glob_chars bytes_eq
negated_class = refl

split_at_wildcard : glob_split_path (codes "src/core/*.c") ≡ (codes "src/core", codes "*.c")
unfolding glob_split_path before_glob rsplit
split_at_wildcard = refl

-- an absolute pattern in the root has the same directory as a bare one
root_lost : (glob_split_path (codes "/*.c")).0 ≡ (glob_split_path (codes "*.c")).0
unfolding glob_split_path before_glob rsplit
root_lost = refl

glob_split_path-append_example :
    IsDirectory
      (codes "src/core/*.c")
      (glob_split_path (codes "src/core/*.c")).0
      (glob_split_path (codes "src/core/*.c")).1
glob_split_path-append_example = glob_split_path-append (codes "src/core/*.c")
