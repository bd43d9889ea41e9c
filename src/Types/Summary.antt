-- ===== src/Types/Summary.antt =====
-- crates/tryke_types/src/lib.rs: `RunSummary` and `RunSummary::from_results`.
use tryke.Prelude.{
  ℕ, ◌+◌, ◌≡◌, refl, Bool, true, false, filter, List, [], ◌∷◌, Option, none, some, Text, length,
  arith,
}
use tryke.Types.Outcome.{
  TestOutcome, TestResult, passed, failed, skipped, error, xfailed, xpassed, todo,
}

pub record ChangedSelectionSummary : Type 0 where
  pub changed_files : ℕ
  pub affected_tests : ℕ

pub record RunSummary : Type 0 where
  pub passed : ℕ
  pub failed : ℕ
  pub skipped : ℕ
  pub errors : ℕ
  pub xfailed : ℕ
  pub todo : ℕ
  pub duration : ℕ
  pub discovery_duration : Option ℕ
  pub test_duration : Option ℕ
  pub file_count : ℕ
  pub start_time : Option Text
  pub changed_selection : Option ChangedSelectionSummary

abbrev pub no_results : RunSummary
no_results = record {
  passed = 0;
  failed = 0;
  skipped = 0;
  errors = 0;
  xfailed = 0;
  todo = 0;
  duration = 0;
  discovery_duration = none;
  test_duration = none;
  file_count = 0;
  start_time = none;
  changed_selection = none;
}

-- The body's `match` on the outcome.
unfoldable pub count_outcome : TestOutcome → RunSummary → RunSummary
count_outcome passed s = record s { passed = s.passed + 1 }
count_outcome (failed message traceback assertions lines) s = record s { failed = s.failed + 1 }
count_outcome xpassed s = record s { failed = s.failed + 1 }
count_outcome (skipped reason) s = record s { skipped = s.skipped + 1 }
count_outcome (error message) s = record s { errors = s.errors + 1 }
count_outcome (xfailed reason) s = record s { xfailed = s.xfailed + 1 }
count_outcome (todo description) s = record s { todo = s.todo + 1 }

add_results : RunSummary → List TestResult → RunSummary
unfolding count_outcome
add_results s [] = s
add_results s (r ∷ rs) =
    add_results (count_outcome r.outcome (record s { duration = s.duration + r.duration })) rs

pub from_results : List TestResult → RunSummary
unfolding add_results
from_results results =
    let s = add_results no_results results in record s { test_duration = some s.duration }

-- The headings of a report.
pub data Heading : Type 0 where
  under_passed under_failed under_skipped under_errors under_xfailed under_todo : Heading

abbrev pub count_under : Heading → RunSummary → ℕ
count_under under_passed s = s.passed
count_under under_failed s = s.failed
count_under under_skipped s = s.skipped
count_under under_errors s = s.errors
count_under under_xfailed s = s.xfailed
count_under under_todo s = s.todo

-- The results that belong under a heading: one that passed although it was expected to fail is a
-- failure.
abbrev pub belongs : Heading → TestOutcome → Bool
belongs under_passed passed = true
belongs under_failed (failed message traceback assertions lines) = true
belongs under_failed xpassed = true
belongs under_skipped (skipped reason) = true
belongs under_errors (error message) = true
belongs under_xfailed (xfailed reason) = true
belongs under_todo (todo description) = true
belongs _ _ = false

abbrev pub one_if : Bool → ℕ
one_if true = 1
one_if false = 0

-- All the counts together.
abbrev pub total : RunSummary → ℕ
total s = s.passed + s.failed + s.skipped + s.errors + s.xfailed + s.todo

count_under-count_outcome :
    (h : Heading) (o : TestOutcome) (s : RunSummary)
    → count_under h (count_outcome o s) ≡ count_under h s + one_if (belongs h o)
unfolding count_outcome
count_under-count_outcome h passed s = grind arith
count_under-count_outcome h (failed message traceback assertions lines) s = grind arith
count_under-count_outcome h xpassed s = grind arith
count_under-count_outcome h (skipped reason) s = grind arith
count_under-count_outcome h (error message) s = grind arith
count_under-count_outcome h (xfailed reason) s = grind arith
count_under-count_outcome h (todo description) s = grind arith

pub total-count_outcome :
    (o : TestOutcome) (s : RunSummary) → total (count_outcome o s) ≡ total s + 1
unfolding count_outcome
total-count_outcome passed s = omega arith
total-count_outcome _ s = omega arith

-- What a run of a single result reports.
abbrev pub sum_durations : List TestResult → ℕ
sum_durations [] = 0
sum_durations (r ∷ rs) = r.duration + sum_durations rs

duration-count_outcome :
    (o : TestOutcome) (s : RunSummary) → (count_outcome o s).duration ≡ s.duration
unfolding count_outcome
duration-count_outcome passed s = refl
duration-count_outcome _ s = refl

count_under_time :
    (h : Heading) (s : RunSummary) (n : ℕ)
    → count_under h (record s { duration = s.duration + n }) ≡ count_under h s
count_under_time under_passed s n = refl
count_under_time under_failed s n = refl
count_under_time under_skipped s n = refl
count_under_time under_errors s n = refl
count_under_time under_xfailed s n = refl
count_under_time under_todo s n = refl

add_results_counts :
    (s : RunSummary) (rs : List TestResult)
    → (total (add_results s rs) ≡ total s + length rs)
      × ((add_results s rs).duration ≡ s.duration + sum_durations rs)
      × ((h : Heading)
          → count_under h (add_results s rs)
            ≡ count_under h s + length (filter (λ r. belongs h r.outcome) rs))
unfolding add_results
add_results_counts s [] = (omega arith, omega arith, λ h. omega arith)
add_results_counts s (r ∷ rs) =
    let s' = record s { duration = s.duration + r.duration } in
    let next = count_outcome r.outcome s' in
    let (counts, time, headings) = add_results_counts next rs in
    (
      omega (arith, counts, total-count_outcome r.outcome s'),
      omega (arith, time, duration-count_outcome r.outcome s'),
      λ h. ground (
        arith,
        headings h,
        count_under-count_outcome h r.outcome s',
        count_under_time h s r.duration,
      ),
    )

-- The counts of a report are the numbers of the results with each outcome, one that passed although
-- it was expected to fail counted as failed; they add up to the number of results, so each is counted
-- once; and the duration is the sum of the results' durations.
pub from_results_counts :
    (results : List TestResult)
    → ((h : Heading)
        → count_under h (from_results results) ≡ length (filter (λ r. belongs h r.outcome) results))
      × (total (from_results results) ≡ length results)
      × ((from_results results).duration ≡ sum_durations results)
      × ((from_results results).test_duration ≡ some (sum_durations results))
unfolding from_results
from_results_counts results =
    let (counts, time, headings) = add_results_counts no_results results in
    (
      λ h. grind (arith, headings h),
      omega (arith, counts),
      omega (arith, time),
      ground (arith, time),
    )
