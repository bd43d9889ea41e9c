-- ===== src/Report/Samples.antt =====
-- A run of three tests, one of them skipped, and the theorem at it.
use mathlib.Core.List.{Perm}
use tryke.Prelude.{ℕ, ◌≡◌, Option, none, some, List, [], ◌∷◌, ◌++◌, map, filter, Text, codes}
use tryke.Types.{TestItem, default_item}
use tryke.Types.Outcome.{TestResult, passed}
use tryke.Report.{run_cycle, short_result, is_short}
use tryke.Report.Reported.{run_cycle-reports}

abbrev in_file : Text → Text → TestItem
in_file path name = record default_item { name = name; file_path = some path }

abbrev three : List TestItem
three =
    in_file (codes "a.py") (codes "one")
    ∷ in_file (codes "b.py") (codes "two")
    ∷ record (in_file (codes "a.py") (codes "three")) { skip = some (codes "slow") }
    ∷ []

abbrev result_of : TestItem → TestResult
result_of t = record { test = t; outcome = passed; duration = 1; stdout = []; stderr = [] }

abbrev answers : List TestResult
answers =
    result_of (in_file (codes "b.py") (codes "two"))
    ∷ result_of (in_file (codes "a.py") (codes "one"))
    ∷ []

run_cycle-reports_example :
    ((run_cycle three none answers).buffers ≡ [])
    × ((read : List TestResult) × (rest : List TestResult) × (answers ≡ read ++ rest)
        × (◌≡◌ {A = Option ℕ} none none → rest ≡ [])
        × Perm
            (run_cycle three none answers).reported
            (read ++ map short_result (filter is_short three)))
run_cycle-reports_example = run_cycle-reports three none answers
