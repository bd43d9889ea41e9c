-- ===== src/Filter/Samples.antt =====
-- Small filter expressions, and the theorems at them.
use tryke.Prelude.{◌≡◌, ◌≢◌, ◌↔◌, refl, codes, String, [], ◌∷◌, All}
use tryke.Prelude.{true, ◌⊎◌, some, none, filter}
use tryke.Paths.{components}
use tryke.Types.{TestItem, default_item}
use tryke.Filter.Matching.{
  TestFilter, file, file_line, parse_path_spec, rsplit_once, parse_u32, parse_with, parse_file,
  path_spec_matches, matches, apply,
}
use tryke.Filter.Matches.{Begins, Ends, path_spec_matches_iff, apply-filter}
use tryke.Filter.Syntax.{
  FilterExpr, substring, conj, disj, neg, ident, lparen, kw_not, Tokens, ok, out_of_fuel,
}
use tryke.Filter.Lexer.{tokenize, is_delimiter, is_blank, word_token}
use tryke.Filter.Parser.{parse}
use tryke.Filter.Grammar.{IsOr}
use tryke.Filter.Reads.{parse-eq-ok_iff}
use tryke.Filter.Spelling.{render, IsSpelt, tokenize-render}
use tryke.Filter.Print.{whole, print, HasSpeltWords, parse-render-print}

abbrev word_of : String → FilterExpr
word_of s = substring (codes s)

abbrev sample : FilterExpr
sample = conj (disj (word_of "add") (neg (word_of "sub"))) (word_of "math")

sample-HasSpeltWords : HasSpeltWords sample
unfolding is_delimiter is_blank word_token
sample-HasSpeltWords = (
  (((cc), (refl, (refl, (refl, tt))), refl), ((cc), (refl, (refl, (refl, tt))), refl)),
  ((cc), (refl, (refl, (refl, (refl, tt)))), refl),
)

abbrev sample_tokens : Tokens
sample_tokens = lparen ∷ ident (codes "add") ∷ kw_not ∷ []

sample_tokens-IsSpelt : All IsSpelt sample_tokens
unfolding is_delimiter is_blank word_token
sample_tokens-IsSpelt = (tt, (((cc), (refl, (refl, (refl, tt))), refl), (tt, tt)))

parse-eq-ok_iff_example :
    ((e : FilterExpr)
      → (parse (codes "a or not (b") ≡ ok e) ↔ IsOr e (tokenize (codes "a or not (b")))
    × (parse (codes "a or not (b") ≢ out_of_fuel)
parse-eq-ok_iff_example = parse-eq-ok_iff (codes "a or not (b")

parse-render-print_example : parse (render (print whole sample)) ≡ ok sample
parse-render-print_example = parse-render-print sample sample-HasSpeltWords

tokenize-render_example : tokenize (render sample_tokens) ≡ sample_tokens
tokenize-render_example = tokenize-render sample_tokens sample_tokens-IsSpelt

path_spec_matches_iff_example :
    (path_spec_matches (codes "tests/math.py") (codes "tests") ≡ true) ↔ (
      Ends (components (codes "tests/math.py")) (components (codes "tests"))
      ⊎ ((components (codes "tests") ≢ [])
          × Begins (components (codes "tests/math.py")) (components (codes "tests"))))
path_spec_matches_iff_example = path_spec_matches_iff (codes "tests/math.py") (codes "tests")

abbrev slow_filter : TestFilter
slow_filter = record { path_specs = []; expr = some sample; marker_expr = none }

abbrev sub_test : TestItem
sub_test = record default_item { name = codes "sub"; module_path = codes "math" }

apply-filter_example :
    apply (λ s. s) slow_filter (sub_test ∷ default_item ∷ [])
    ≡ filter (matches (λ s. s) slow_filter) (sub_test ∷ default_item ∷ [])
apply-filter_example = apply-filter (λ s. s) slow_filter (sub_test ∷ default_item ∷ [])

path_specs :
    (parse_path_spec (codes "tests/math.py:+12") ≡ ok (file_line (codes "tests/math.py") 12))
    × (parse_path_spec (codes "C:x") ≡ ok (file (codes "C:x")))
    × (parse_path_spec (codes "a:4294967296") ≡ ok (file (codes "a:4294967296")))
unfolding parse_path_spec rsplit_once parse_u32 parse_with parse_file
path_specs = (refl, refl, refl)
