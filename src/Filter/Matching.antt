-- ===== src/Filter/Matching.antt =====
-- crates/tryke_types/src/filter.rs: path specs, and which tests a filter matches.
use tryke.Prelude.{
  ℕ, ◌+◌, ◌*◌, ◌-◌, ◌^◌, Bool, true, false, ◌&&◌, ◌||◌, not, List, [], ◌∷◌, ◌++◌, filter, any,
  Option, none, some, Text, codes, join, contains_text, ltb, leb, ◌==◌, nat_eq, list_eq, option_eq,
  is_empty, unwrap_or, is_none, reverse, if◌then◌else◌, length,
}
use tryke.Paths.{FilePath, Component, component_eq, components}
use tryke.Types.{TestItem, id}
use tryke.Filter.Syntax.{
  FilterExpr, substring, conj, disj, neg, path_spec_error, Result, ok, err, ◌>>=◌,
}
use tryke.Filter.Parser.{parse}

pub data PathSpec : Type 0 where
  file : FilePath → PathSpec
  file_line : FilePath → ℕ → PathSpec

pub record TestFilter : Type 0 where
  pub path_specs : List PathSpec
  pub expr : Option FilterExpr
  pub marker_expr : Option FilterExpr

-- `s.rsplit_once(c)`.
unfoldable pub rsplit_once : ℕ → Text → Option (Text × Text)
rsplit_once c [] = none
rsplit_once c (x ∷ s) = elim (rsplit_once c s) [
  | some (a, b) ↦ some (x ∷ a, b)
  | none ↦ if x == c then some ([], s) else none
]

abbrev pub is_digit : ℕ → Bool
is_digit c = leb b'0' c && leb c b'9'

-- The number that the digits spell behind `n`.
abbrev pub add_digit : Option ℕ → Text → Option ℕ
add_digit none s = none
add_digit (some n) [] = some n
add_digit (some n) (c ∷ s) =
    let next = n * 10 + (c - b'0') in
    add_digit (if is_digit c && ltb next (2 ^ 32) then some next else none) s

abbrev pub unsigned : Text → Option ℕ
unsigned [] = none
unsigned (c ∷ s) = add_digit (some 0) (c ∷ s)

-- `str::parse::<u32>`: digits, behind at most one `+`.
unfoldable pub parse_u32 : Text → Option ℕ
parse_u32 [] = none
parse_u32 (c ∷ s) = if c == b'+' then unsigned s else unsigned (c ∷ s)

unfoldable pub parse_file : Text → Result PathSpec
parse_file [] = err (path_spec_error (codes "empty path"))
parse_file (c ∷ s) = ok (file (c ∷ s))

unfoldable pub parse_with : Text → Text → Option ℕ → Result PathSpec
unfolding parse_file
parse_with s path (some line) = ok (file_line path line)
parse_with s path none = parse_file s

-- `PathSpec::parse`.
unfoldable pub parse_path_spec : Text → Result PathSpec
unfolding rsplit_once parse_u32 parse_with parse_file
parse_path_spec s = elim (rsplit_once b':' s) [
  | some (path, line) ↦ parse_with s path (parse_u32 line)
  | none ↦ parse_file s
]

-- `n.iter().zip(h.iter()).all(|(a, b)| a == b)`, the needle first.
unfoldable pub all_equal : List Component → List Component → Bool
all_equal [] h = true
all_equal (a ∷ n) [] = true
all_equal (a ∷ n) (b ∷ h) = a == b && all_equal n h

abbrev pub suffix_of : List Component → List Component → Bool
suffix_of haystack needle =
    if ltb (length haystack) (length needle)
    then false
    else all_equal (reverse needle) (reverse haystack)

abbrev pub prefix_of : List Component → List Component → Bool
prefix_of haystack needle =
    if is_empty needle || ltb (length haystack) (length needle)
    then false
    else all_equal needle haystack

unfoldable pub path_suffix_match : FilePath → FilePath → Bool
path_suffix_match haystack needle = suffix_of (components haystack) (components needle)

unfoldable pub path_prefix_match : FilePath → FilePath → Bool
path_prefix_match haystack needle = prefix_of (components haystack) (components needle)

unfoldable pub path_spec_matches : FilePath → FilePath → Bool
unfolding path_suffix_match path_prefix_match
path_spec_matches haystack needle =
    path_suffix_match haystack needle || path_prefix_match haystack needle

unfoldable pub file_matches : Option FilePath → FilePath → Bool
unfolding path_spec_matches
file_matches none spec_path = false
file_matches (some path) spec_path = path_spec_matches path spec_path

-- `PathSpec::matches`.
unfoldable pub spec_matches : PathSpec → TestItem → Bool
unfolding file_matches
spec_matches (file spec_path) test = file_matches test.file_path spec_path
spec_matches (file_line spec_path line) test =
    file_matches test.file_path spec_path && test.line_number == some line

-- Two or more results, collected to the first error.
abbrev pub parse_paths : List Text → Result (List PathSpec)
parse_paths [] = ok []
parse_paths (s ∷ ss) = parse_path_spec s >>= λ spec. parse_paths ss >>= λ specs. ok (spec ∷ specs)

-- `filter.map(FilterExpr::parse).transpose()`.
abbrev pub parse_option : Option Text → Result (Option FilterExpr)
parse_option none = ok none
parse_option (some s) = parse s >>= λ e. ok (some e)

-- `TestFilter::from_args`.
unfoldable pub from_args : List Text → Option Text → Option Text → Result TestFilter
from_args paths expr markers = parse_paths paths >>= λ path_specs. parse_option expr >>= λ e.
    parse_option markers >>= λ m. ok (record { path_specs = path_specs; expr = e; marker_expr = m })

abbrev pub filter_is_empty : TestFilter → Bool
filter_is_empty f = is_empty f.path_specs && is_none f.expr && is_none f.marker_expr

-- `str::to_lowercase` is the standard library's, by the tables of Unicode.
module _ (to_lowercase : Text → Text) where
  unfoldable pub matches_tags : FilterExpr → List Text → Bool
  matches_tags (substring s) tags = any (λ t. contains_text (to_lowercase s) (to_lowercase t)) tags
  matches_tags (conj a b) tags = matches_tags a tags && matches_tags b tags
  matches_tags (disj a b) tags = matches_tags a tags || matches_tags b tags
  matches_tags (neg e) tags = not (matches_tags e tags)

  unfoldable pub matches_inner : FilterExpr → Text → Text → Text → Text → Text → Bool
  matches_inner (substring s) i name m display qualified =
      let needle = to_lowercase s in
      contains_text needle i
      || (contains_text needle name
          || (contains_text needle m
              || (contains_text needle display || contains_text needle qualified)))
  matches_inner (conj a b) i name m display qualified =
      matches_inner a i name m display qualified && matches_inner b i name m display qualified
  matches_inner (disj a b) i name m display qualified =
      matches_inner a i name m display qualified || matches_inner b i name m display qualified
  matches_inner (neg e) i name m display qualified =
      not (matches_inner e i name m display qualified)

  abbrev pub qualified_name : TestItem → Text
  qualified_name test =
      if is_empty test.groups
      then []
      else to_lowercase
          (join (codes " > ") (test.groups ++ unwrap_or test.display_name test.name ∷ []))

  -- `FilterExpr::matches`.
  unfoldable pub expr_matches : FilterExpr → TestItem → Bool
  unfolding matches_inner
  expr_matches e test =
      matches_inner e (to_lowercase (id test)) (to_lowercase test.name)
        (to_lowercase test.module_path) (to_lowercase (unwrap_or test.display_name []))
        (qualified_name test)

  abbrev pub none_or : (FilterExpr → Bool) → Option FilterExpr → Bool
  none_or f none = true
  none_or f (some e) = f e

  -- `TestFilter::matches`.
  unfoldable pub matches : TestFilter → TestItem → Bool
  unfolding expr_matches matches_tags spec_matches
  matches f test =
      (is_empty f.path_specs || any (λ spec. spec_matches spec test) f.path_specs)
      && (none_or (λ e. expr_matches e test) f.expr
          && none_or (λ e. matches_tags e test.tags) f.marker_expr)

  unfoldable pub apply : TestFilter → List TestItem → List TestItem
  unfolding matches
  apply f tests = if filter_is_empty f then tests else filter (matches f) tests
