-- ===== src/Types/Outcome.antt =====
-- crates/tryke_types/src/lib.rs: outcomes and results, and the format of the Python worker that
-- they are converted from. A `Duration` is its milliseconds, the unit of the worker's format.
use mathlib.Core.Option as Option
use tryke.Prelude.{ℕ, max, List, [], ◌∷◌, map, Option, none, some, Text, byte_len, unwrap_or}
use tryke.Types.Item.{TestItem, ExpectedAssertion}
use tryke.Types.Select.{AssertionWire, select_expected_assertion, map_executed_lines}

pub record Assertion : Type 0 where
  pub expression : Text
  pub file : Option Text
  pub line : ℕ
  pub span_offset : ℕ
  pub span_length : ℕ
  pub expected : Text
  pub received : Text
  pub expected_arg_span : Option (ℕ × ℕ)

pub data TestOutcome : Type 0 where
  passed : TestOutcome
  failed :
      (message : Text) (traceback : Option Text) (assertions : List Assertion)
      (executed_lines : List ℕ)
      → TestOutcome
  skipped : (reason : Option Text) → TestOutcome
  error : (message : Text) → TestOutcome
  xfailed : (reason : Option Text) → TestOutcome
  xpassed : TestOutcome
  todo : (description : Option Text) → TestOutcome

pub record TestResult : Type 0 where
  pub test : TestItem
  pub outcome : TestOutcome
  pub duration : ℕ
  pub stdout : Text
  pub stderr : Text

-- `RunTestResultWire`: what every variant has, and the variant.
pub data WireOutcome : Type 0 where
  wire_passed wire_xpassed : WireOutcome
  wire_failed :
      (message : Text) (traceback : Option Text) (assertions : List AssertionWire)
      (executed_lines : List ℕ)
      → WireOutcome
  wire_skipped wire_xfailed wire_todo : Option Text → WireOutcome

pub record RunTestResultWire : Type 0 where
  pub outcome : WireOutcome
  pub duration_ms : ℕ
  pub stdout : Text
  pub stderr : Text

abbrev wire_or_own : Text → Text → Text
wire_or_own [] wire = wire
wire_or_own (c ∷ own) wire = c ∷ own

-- `ea.expression`, unless there is no such assertion or its expression is empty.
abbrev shown_expression : AssertionWire → Option ExpectedAssertion → Text
shown_expression wire none = wire.expression
shown_expression wire (some ea) = wire_or_own ea.expression wire.expression

abbrev subject_span_of : Option ExpectedAssertion → Option (ℕ × ℕ)
subject_span_of none = none
subject_span_of (some ea) = ea.subject_span

abbrev arg_span_of : Option ExpectedAssertion → Option (ℕ × ℕ)
arg_span_of none = none
arg_span_of (some ea) = ea.expected_arg_span

abbrev shown_line : AssertionWire → Option ExpectedAssertion → ℕ
shown_line wire none = wire.line
shown_line wire (some ea) = ea.line

-- `relative_to_cwd` is the environment's: it takes the current directory off the front of a path
-- that lies below it, and leaves any other path.
module _ (relative_to_cwd : Text → Text) where
  unfoldable pub convert_assertion : AssertionWire → Option ExpectedAssertion → Assertion
  convert_assertion wire expected_assertion =
      let expression = shown_expression wire expected_assertion in
      let span : ℕ × ℕ =
        unwrap_or (subject_span_of expected_assertion) (0, max (byte_len expression) 1) in
      record {
        expression = expression;
        file = Option.map relative_to_cwd wire.file;
        line = shown_line wire expected_assertion;
        span_offset = span.0;
        span_length = span.1;
        expected = wire.expected;
        received = wire.received;
        expected_arg_span = arg_span_of expected_assertion;
      }

  unfoldable pub convert_outcome : List ExpectedAssertion → WireOutcome → TestOutcome
  unfolding convert_assertion
  convert_outcome eas wire_passed = passed
  convert_outcome eas wire_xpassed = xpassed
  convert_outcome eas (wire_failed message traceback assertions executed_lines) =
      failed message traceback
        (map (λ wire. convert_assertion wire (select_expected_assertion eas wire)) assertions)
        (map_executed_lines executed_lines eas)
  convert_outcome eas (wire_skipped reason) = skipped reason
  convert_outcome eas (wire_xfailed reason) = xfailed reason
  convert_outcome eas (wire_todo description) = todo description

  unfoldable pub convert_wire_result : TestItem → RunTestResultWire → TestResult
  unfolding convert_outcome
  convert_wire_result test wire = record {
    test = test;
    outcome = convert_outcome test.expected_assertions wire.outcome;
    duration = wire.duration_ms;
    stdout = wire.stdout;
    stderr = wire.stderr;
  }
