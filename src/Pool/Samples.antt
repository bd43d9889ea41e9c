-- ===== src/Pool/Samples.antt =====
-- A worker that crashes in the middle of a unit, and the theorems at it.
use tryke.Prelude.{
  ◌≡◌, inl, inr, none, List, [], ◌∷◌, ◌++◌, map, Text, codes, length, ◌==◌, nat_eq, if◌then◌else◌,
}
use tryke.Types.{TestItem, default_item, HookItem, per_scope}
use tryke.Types.Outcome.{TestResult, wire_passed}
use tryke.Schedule.Units.{WorkUnit}
use tryke.Pool.Wire.{Outside}
use tryke.Pool.Worker.{new_task, Queues, unit, restart, handle_unit, worker_loop}
use tryke.Pool.Knowing.{IsReady}
use tryke.Pool.Ready.{worker_loop-IsReady}
use tryke.Pool.Backing.{Backed}
use tryke.Pool.Backed.{handle_unit-Backed}
use tryke.Pool.Answers.{handle_unit-answers}

abbrev crashing : Outside
crashing = record {
  python_bin = codes "python";
  relative_to_cwd = λ path. path;
  spawn_error = λ log. none;
  register_error = λ log process params. none;
  run_reply = λ log process request.
      if length log == 2
      then inl (codes "Broken pipe")
      else inr (record { outcome = wire_passed; duration_ms = 7; stdout = []; stderr = [] });
  finalize_error = λ log process m. none;
  stderr = λ log process. codes "Traceback";
}

abbrev test_named : Text → TestItem
test_named name = record default_item { name = name; module_path = codes "math" }

abbrev scope_hook : HookItem
scope_hook = record {
  name = codes "db";
  module_path = codes "math";
  per = per_scope;
  groups = [];
  depends_on = [];
  line_number = none;
}

abbrev two_tests : WorkUnit
two_tests = record {
  tests = test_named (codes "add") ∷ test_named (codes "sub") ∷ [];
  hooks = scope_hook ∷ [];
}

abbrev arriving : List Queues
arriving = ([], unit two_tests ∷ []) ∷ (restart ∷ [], unit two_tests ∷ []) ∷ ([], []) ∷ []

handle_unit-answers_example :
    (rs : List TestResult) × ((handle_unit crashing two_tests new_task).sent ≡ [] ++ rs)
    × (map (λ r. r.test) rs ≡ two_tests.tests)
handle_unit-answers_example = handle_unit-answers crashing two_tests new_task

worker_loop-IsReady_example : IsReady (worker_loop crashing arriving ([], []) new_task)
worker_loop-IsReady_example = worker_loop-IsReady crashing arriving

handle_unit-Backed_example : Backed two_tests.hooks [] (handle_unit crashing two_tests new_task).log
handle_unit-Backed_example = handle_unit-Backed crashing two_tests new_task tt
