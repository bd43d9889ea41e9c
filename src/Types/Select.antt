-- ===== src/Types/Select.antt =====
-- crates/tryke_types/src/lib.rs: which statically found assertion a reported one is.
use tryke.Prelude.{
  ℕ, ◌-◌, ◌^◌, max, Bool, true, false, ◌&&◌, ◌||◌, not, List, [], ◌∷◌, map, filter, all, Option,
  none, some, Text, trim, starts_with, ltb, leb, ◌==◌, nat_eq, list_eq, byte_len, is_empty,
  unwrap_or, if◌then◌else◌,
}
use tryke.Types.Item.{ExpectedAssertion}

pub record AssertionWire : Type 0 where
  pub expression : Text
  pub expected : Text
  pub received : Text
  pub line : ℕ
  pub column : Option ℕ
  pub file : Option Text

abbrev pub expected_end_line : ExpectedAssertion → ℕ
expected_end_line ea = max ea.end_line ea.line

abbrev pub expected_contains_line : ExpectedAssertion → ℕ → Bool
expected_contains_line ea line = leb ea.line line && leb line (expected_end_line ea)

-- Whether the column is left of the start, where the line is the first one.
abbrev left_of : Option ℕ → ℕ → Bool
left_of none column = false
left_of (some start) column = ltb column start

abbrev right_of : Option ℕ → ℕ → Bool
right_of none column = false
right_of (some end) column = ltb end column

abbrev pub column_fits : ExpectedAssertion → ℕ → Option ℕ → Bool
column_fits ea line none = true
column_fits ea line (some column) =
    if (line == ea.line) && left_of ea.start_column column
    then false
    else not ((line == expected_end_line ea) && right_of ea.end_column column)

unfoldable pub expected_contains_position : ExpectedAssertion → ℕ → Option ℕ → Bool
expected_contains_position ea line column =
    if expected_contains_line ea line then column_fits ea line column else false

-- The key of `expected_rank`, and the lexicographic order of such keys.
abbrev pub Rank : Type 0
Rank = ℕ × ℕ × ℕ

abbrev u32_max : ℕ
u32_max = 2 ^ 32 - 1

unfoldable pub expected_rank : ExpectedAssertion → Rank
expected_rank ea =
    (expected_end_line ea - ea.line, byte_len ea.expression, unwrap_or ea.start_column u32_max)

abbrev pub rank_lt : Rank → Rank → Bool
rank_lt (a, b, c) (x, y, z) = ltb a x || ((a == x) && (ltb b y || ((b == y) && ltb c z)))

-- `min_by_key(expected_rank)`: the first of the least.
abbrev pub min_from : ExpectedAssertion → List ExpectedAssertion → ExpectedAssertion
min_from best [] = best
min_from best (ea ∷ eas) =
    min_from (if rank_lt (expected_rank ea) (expected_rank best) then ea else best) eas

abbrev pub min_by_rank : List ExpectedAssertion → Option ExpectedAssertion
min_by_rank [] = none
min_by_rank (ea ∷ eas) = some (min_from ea eas)

-- `arg.split_once('=')`
split_once : ℕ → Text → Option (Text × Text)
split_once c [] = none
split_once c (x ∷ s) = elim (split_once c s) [
  | none ↦ if x == c then some ([], s) else none
  | some (a, b) ↦ if x == c then some ([], s) else some (x ∷ a, b)
]

is_alphabetic : ℕ → Bool
is_alphabetic c = (leb b'a' c && leb c b'z') || (leb b'A' c && leb c b'Z')

is_ascii_python_identifier : Text → Bool
unfolding is_alphabetic
is_ascii_python_identifier [] = false
is_ascii_python_identifier (first ∷ chars) =
    (first == b'_' || is_alphabetic first)
    && all (λ c. c == b'_' || (is_alphabetic c || (leb b'0' c && leb c b'9'))) chars

keyword_value : Text → Text → Option (Text × Text)
unfolding is_ascii_python_identifier
keyword_value name value =
    if is_empty name || (starts_with (b'=' ∷ []) value || not (is_ascii_python_identifier name))
    then none
    else some (name, value)

split_keyword_arg_value : Text → Option (Text × Text)
unfolding split_once keyword_value
split_keyword_arg_value arg = elim (split_once b'=' arg) [
  | none ↦ none
  | some (name, value) ↦ keyword_value (trim name) (trim value)
]

first_arg_value : List Text → Option Text
unfolding split_keyword_arg_value
first_arg_value [] = none
first_arg_value (a ∷ args) = elim (split_keyword_arg_value (trim a)) [
  | some (name, value) ↦ some (trim value)
  | none ↦ some (trim a)
]

expected_arg_value : ExpectedAssertion → Option Text
unfolding first_arg_value
expected_arg_value ea = elim ea.expected_arg_value [
  | some value ↦ some (trim value)
  | none ↦ first_arg_value ea.args
]

pub expected_arg_matches_wire : ExpectedAssertion → AssertionWire → Bool
unfolding expected_arg_value
expected_arg_matches_wire ea wire = elim (expected_arg_value ea) [
  | some arg ↦ arg == trim wire.expected
  | none ↦ false
]

-- `if let [ea] = matches.as_slice()`
abbrev pub only : List ExpectedAssertion → Option ExpectedAssertion
only (ea ∷ []) = some ea
only _ = none

abbrev pub or_else : Option ExpectedAssertion → Option ExpectedAssertion → Option ExpectedAssertion
or_else (some ea) other = some ea
or_else none other = other

abbrev pub expression_matches : AssertionWire → ExpectedAssertion → Bool
expression_matches wire ea = not (is_empty ea.expression) && ea.expression == wire.expression

-- The matches by line; then by position where the worker gives a column, or else the one match by
-- argument, the one by expression, or the one by line.
unfoldable pub choose : List ExpectedAssertion → AssertionWire → Option ℕ → Option ExpectedAssertion
choose line_matches wire (some column) =
    or_else
      (min_by_rank
        (filter (λ ea. expected_contains_position ea wire.line (some column)) line_matches))
      (min_by_rank line_matches)
choose line_matches wire none =
    or_else (only (filter (λ ea. expected_arg_matches_wire ea wire) line_matches))
      (or_else (only (filter (expression_matches wire) line_matches)) (only line_matches))

unfoldable pub select_expected_assertion :
    List ExpectedAssertion → AssertionWire → Option ExpectedAssertion
unfolding choose
select_expected_assertion expected_assertions wire =
    choose (filter (λ ea. expected_contains_line ea wire.line) expected_assertions) wire wire.column

-- A line in exactly one assertion becomes that assertion's first line.
abbrev mapped_line : ℕ → List ExpectedAssertion → ℕ
mapped_line line (ea ∷ []) = ea.line
mapped_line line _ = line

unfoldable pub map_executed_lines : List ℕ → List ExpectedAssertion → List ℕ
map_executed_lines lines expected_assertions =
    map
      (λ line. mapped_line line (filter (λ ea. expected_contains_line ea line) expected_assertions))
      lines
