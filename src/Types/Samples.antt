-- ===== src/Types/Samples.antt =====
-- Small inputs for the conversion of results, and the theorems at them.
use tryke.Prelude.{
  Member, filter, ℕ, ◌≡◌, refl, inl, true, false, List, [], ◌∷◌, none, some, codes, length,
}
use tryke.Types.Item.{ExpectedAssertion, default_item}
use tryke.Types.Select.{AssertionWire, expected_contains_position, select_expected_assertion}
use tryke.Types.Chosen.{NotBefore, select_expected_assertion-least}
use tryke.Types.Outcome.{TestResult, TestOutcome, passed, xpassed, skipped}
use tryke.Types.Summary.{
  Heading, count_under, belongs, total, from_results, sum_durations, from_results_counts,
}

abbrev expectation : ℕ → ℕ → ExpectedAssertion
expectation line end_line = record {
  subject = codes "x";
  matcher = codes "to_equal";
  negated = false;
  args = [];
  line = line;
  label = none;
  end_line = end_line;
  start_column = some 4;
  end_column = some 30;
  expression = codes "expect(x)";
  subject_span = none;
  expected_arg_span = none;
  expected_arg_value = none;
}

-- One inside the other.
abbrev nested : List ExpectedAssertion
nested = expectation 1 9 ∷ expectation 3 3 ∷ []

abbrev reported : AssertionWire
reported = record {
  expression = codes "expect(x)";
  expected = [];
  received = [];
  line = 3;
  column = some 5;
  file = none;
}

select_expected_assertion-least_example :
    (ea : ExpectedAssertion) × (select_expected_assertion nested reported ≡ some ea)
    × Member ea nested
    × (expected_contains_position ea 3 (some 5) ≡ true)
    × NotBefore (expectation 1 9) ea
select_expected_assertion-least_example =
    select_expected_assertion-least nested reported 5 (expectation 1 9) refl (inl refl)
      (unfold expected_contains_position in refl)

abbrev result : TestOutcome → ℕ → TestResult
result outcome duration = record {
  test = default_item;
  outcome = outcome;
  duration = duration;
  stdout = [];
  stderr = [];
}

abbrev results : List TestResult
results = result passed 5 ∷ result xpassed 2 ∷ result (skipped none) 0 ∷ []

from_results_counts_example :
    ((h : Heading)
      → count_under h (from_results results) ≡ length (filter (λ r. belongs h r.outcome) results))
    × (total (from_results results) ≡ length results)
    × ((from_results results).duration ≡ sum_durations results)
    × ((from_results results).test_duration ≡ some (sum_durations results))
from_results_counts_example = from_results_counts results
