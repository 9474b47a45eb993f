-- ===== src/Samples/PathSamples.antt =====
-- Paths before and after normalization.
use putup.Prelude.{
  slash, starts_with, false, ◌↔◌, ◌⊎◌, ◌≡◌, ◌∷◌, ◌≢◌, refl, true, [], ap, is_nil, codes, Bytes,
  bytes_eq, ◌++◌, rsplit,
}
use putup.Core.Path.{
  is_absolute, normalize, is_normal, spell, collect, push_part, segments, root_length, join_parts,
  ends_in_slash, parts_normal,
}
use putup.Core.Path.Walk.{place_of}
use putup.Core.Path.Meaning.{normalize-place_of}
use putup.Core.Path.Compose.{join, relative, split, kept_parts, drop_common}
use putup.Core.Path.Compose.RoundTrip.{join-relative}
use putup.Core.Path.Names.{is_root, parent, filename, stem, extension, strip_end}
use putup.Core.Path.Names.Laws.{parent-filename}
use putup.Core.Path.Names.Extension.{IsNamed, stem-extension}
use putup.Core.Path.Utils.{
  strip_separators, is_path_under, relative_to_root, is_path_in_scope, in_any, strip_scope,
  ends_or_separates, is_path_in_any_scope, up_text, compute_source_to_root, make_source_relative,
}
use putup.Core.Path.Utils.SourceRelative.{make_source_relative-place_of}
use putup.Core.Path.Utils.UnderRoot.{IsUnder, is_path_under_iff}
use putup.Core.Path.Normal.{is_normal-normalize, normalize_fixes}

abbrev messy : Bytes
messy = codes "a/./b//../../../c/"

messy_normalized : normalize messy ≡ codes "../c"
unfolding normalize spell collect push_part segments root_length join_parts bytes_eq
messy_normalized = refl

above_the_root : normalize (codes "/../a/..") ≡ codes "/"
unfolding normalize spell collect push_part segments root_length join_parts bytes_eq
above_the_root = refl

abbrev tidy : Bytes
tidy = codes "../src/main.c"

tidy-normal : is_normal tidy ≡ true
unfolding is_normal ends_in_slash parts_normal segments root_length bytes_eq
tidy-normal = refl

tidy_written : tidy ≢ []
tidy_written e = let empty : is_nil tidy ≡ true = ap is_nil e in cc

is_normal-normalize_example : is_normal (normalize messy) ≡ true
is_normal-normalize_example = is_normal-normalize messy

normalize_fixes_example : normalize tidy ≡ tidy
normalize_fixes_example = normalize_fixes tidy tidy_written tidy-normal

normalize-place_of_example :
    (is_absolute (normalize messy) ≡ is_absolute messy)
    × (place_of (normalize messy) ≡ place_of messy)
normalize-place_of_example = normalize-place_of messy

messy_place : place_of messy ≡ (1, codes "c" ∷ [])
unfolding segments root_length bytes_eq
messy_place = refl

abbrev source_file : Bytes
source_file = codes "src/a.c"

abbrev build_dir : Bytes
build_dir = codes "build/x"

source_from_build : relative source_file build_dir ≡ codes "../../src/a.c"
unfolding relative split kept_parts drop_common segments join_parts bytes_eq
source_from_build = refl

join-relative_example :
    place_of (join build_dir (relative source_file build_dir)) ≡ place_of source_file
unfolding segments root_length bytes_eq
join-relative_example = join-relative source_file build_dir refl (refl, (refl, tt))

parent-filename_example : join (parent tidy) (filename tidy) ≡ tidy
parent-filename_example = parent-filename tidy tidy-normal

stem-extension_example : IsNamed (filename source_file) (stem source_file) (extension source_file)
stem-extension_example = stem-extension source_file

above_source : parent source_file ≡ codes "src"
unfolding parent strip_end rsplit root_length is_root
above_source = refl

abbrev sub_dir : Bytes
sub_dir = codes "src/lib"

beside :
    make_source_relative source_file (compute_source_to_root sub_dir) sub_dir
    ≡ codes "../../src/a.c"
unfolding make_source_relative compute_source_to_root up_text segments root_length bytes_eq
    starts_with
beside = refl

source_file-normal : is_normal source_file ≡ true
unfolding is_normal ends_in_slash parts_normal segments root_length bytes_eq
source_file-normal = refl

make_source_relative-place_of_example :
    place_of
      (join sub_dir (make_source_relative source_file (compute_source_to_root sub_dir) sub_dir))
    ≡ place_of source_file
unfolding segments root_length bytes_eq
make_source_relative-place_of_example =
    make_source_relative-place_of source_file sub_dir source_file-normal refl refl
      (refl, (refl, (refl, tt)))

is_path_under_iff_example :
    let root' = strip_separators (codes "src//") in
    ((is_path_under source_file (codes "src//") ≡ true) ↔ IsUnder source_file root')
    × (is_path_under source_file (codes "src//") ≡ true
        → (source_file ≡ root')
          ⊎ (source_file ≡ root' ++ slash ∷ relative_to_root source_file (codes "src//")))
    × (is_path_under source_file (codes "src//") ≡ false
        → relative_to_root source_file (codes "src//") ≡ [])
is_path_under_iff_example = is_path_under_iff source_file (codes "src//")

scope_of_lib :
    is_path_in_any_scope
      (codes "src/lib/x.c")
      (codes "doc" ∷ codes "src/li" ∷ codes "src/lib/" ∷ [])
    ≡ true
unfolding is_path_in_any_scope in_any is_path_in_scope strip_scope ends_or_separates starts_with
scope_of_lib = refl

only_whole_names : is_path_in_any_scope (codes "src/lib/x.c") (codes "src/li" ∷ []) ≡ false
unfolding is_path_in_any_scope in_any is_path_in_scope strip_scope ends_or_separates starts_with
only_whole_names = refl
