-- ===== src/Pool/Answers.antt =====
-- crates/tryke_runner/src/pool.rs: the results that a worker task sends.
use mathlib.Core.List as List
use tryke.Prelude.{
  ℕ, ◌⊎◌, inl, inr, ◌≡◌, refl, sym, subst, ◌∙◌, ap, Bool, true, false, Option, none, some, List, [],
  ◌∷◌, ◌++◌, map, append_assoc, append-nil, Text, arith, length,
}
use tryke.Prelude.Dict.{Dict}
use tryke.Types.{TestItem, HookItem}
use tryke.Types.Outcome.{TestResult, RunTestResultWire, convert_wire_result}
use tryke.Schedule.Units.{WorkUnit}
use tryke.Pool.Wire.{RegisterHooksParams, Outside, registered, spawned}
use tryke.Pool.Worker.{
  modules_of, Task, note, cache_hooks, module_params, replay, adopt, spawn_with, ensure_with,
  accepted, ensure_worker, answered, run_on, run_with, run_single_test, run_tests, register_with,
  register_module, register_modules, register_hooks_for_unit, prepare, finalize_on,
  finalize_modules, handle_unit,
}

module _ (outside : Outside) where
  replay-sent :
      (process : ℕ) (cached : Dict Text RegisterHooksParams) (task : Task)
      → (replay outside process cached task).1.sent ≡ task.sent
  unfolding replay
  replay-sent process [] task = refl
  replay-sent process ((m, params) ∷ cached) task =
      let reply = outside.register_error task.log process params in
      ground (arith, replay-sent process cached (note (registered process params reply) task))

  adopt-sent :
      (process : ℕ) (finished : Bool) (task : Task)
      → (adopt outside process (finished, task)).1.sent ≡ task.sent
  adopt-sent process true task = refl
  adopt-sent process false task = refl

  spawn_with-sent :
      (reply : Option Text) (task : Task) → (spawn_with outside reply task).1.sent ≡ task.sent
  spawn_with-sent (some err) task = refl
  spawn_with-sent none task =
      let process = length task.log in
      let next = note (spawned process) task in
      let (finished, after) = replay outside process task.state.hook_cache next in
      adopt-sent process finished after ∙ replay-sent process task.state.hook_cache next

  ensure_with-sent :
      (process : Option ℕ) (task : Task) → (ensure_with outside process task).1.sent ≡ task.sent
  ensure_with-sent (some p) task = refl
  ensure_with-sent none task = spawn_with-sent (outside.spawn_error task.log) task

  pub ensure_worker-sent : (task : Task) → (ensure_worker outside task).1.sent ≡ task.sent
  unfolding ensure_worker
  ensure_worker-sent task = ensure_with-sent task.state.process task

  accepted-sent :
      (process : ℕ) (params : RegisterHooksParams) (reply : Option Text) (task : Task)
      → (accepted outside process params reply task).sent ≡ task.sent
  accepted-sent process params none task = refl
  accepted-sent process params (some err) task = refl

  register_with-sent :
      (params : RegisterHooksParams) (process : Option ℕ) (task : Task)
      → (register_with outside params (process, task)).sent ≡ task.sent
  register_with-sent params none task = refl
  register_with-sent params (some p) task = accepted-sent p params _ task

  register_module-sent :
      (hooks : List HookItem) (m : Text) (task : Task)
      → (register_module outside hooks m task).sent ≡ task.sent
  unfolding register_module
  register_module-sent hooks m task =
      let params = module_params hooks m in
      let (process, next) = ensure_worker outside (cache_hooks params task) in
      ground (
        arith,
        register_with-sent params process next,
        ensure_worker-sent (cache_hooks params task),
      )

  register_modules-sent :
      (hooks : List HookItem) (ms : List Text) (task : Task)
      → (register_modules outside hooks ms task).sent ≡ task.sent
  unfolding register_modules
  register_modules-sent hooks [] task = refl
  register_modules-sent hooks (m ∷ ms) task =
      register_modules-sent hooks ms (register_module outside hooks m task)
      ∙ register_module-sent hooks m task

  prepare-sent : (u : WorkUnit) (task : Task) → (prepare outside u task).sent ≡ task.sent
  unfolding prepare register_hooks_for_unit
  prepare-sent u task = ground (arith, register_modules-sent u.hooks (modules_of u.tests) task)

  finalize_on-sent :
      (process : Option ℕ) (m : Text) (task : Task)
      → (finalize_on outside process m task).sent ≡ task.sent
  finalize_on-sent none m task = refl
  finalize_on-sent (some p) m task = refl

  finalize_modules-sent :
      (ms : List Text) (task : Task) → (finalize_modules outside ms task).sent ≡ task.sent
  unfolding finalize_modules
  finalize_modules-sent [] task = refl
  finalize_modules-sent (m ∷ ms) task =
      finalize_modules-sent ms (finalize_on outside task.state.process m task)
      ∙ finalize_on-sent task.state.process m task

  -- The results that are sent after `before`.
  abbrev Answers : List TestItem → List TestResult → List TestResult → Type 0
  Answers tests before after =
      (rs : List TestResult) × (after ≡ before ++ rs) × (map (λ r. r.test) rs ≡ tests)

  answered-Answers :
      (p : ℕ) (t : TestItem) (reply : Text ⊎ RunTestResultWire) (task : Task)
      → Answers (t ∷ []) task.sent (answered outside p t reply task).sent
  unfolding convert_wire_result
  answered-Answers p t (inl err) task = (_, refl, refl)
  answered-Answers p t (inr wire) task = (_, refl, refl)

  run_with-Answers :
      (t : TestItem) (process : Option ℕ) (task : Task)
      → Answers (t ∷ []) task.sent (run_with outside t (process, task)).sent
  unfolding run_on
  run_with-Answers t none task = (_, refl, refl)
  run_with-Answers t (some p) task = answered-Answers p t _ task

  run_single_test-Answers :
      (t : TestItem) (task : Task)
      → Answers (t ∷ []) task.sent (run_single_test outside t task).sent
  unfolding run_single_test
  run_single_test-Answers t task =
      let (process, next) = ensure_worker outside task in
      subst (λ before. Answers (t ∷ []) before (run_with outside t (process, next)).sent)
        (ensure_worker-sent task) (run_with-Answers t process next)

  run_tests-Answers :
      (ts : List TestItem) (task : Task) → Answers ts task.sent (run_tests outside ts task).sent
  unfolding run_tests
  run_tests-Answers [] task = ([], sym (append-nil task.sent), refl)
  run_tests-Answers (t ∷ ts) task =
      let (rs, sent, tests) = run_single_test-Answers t task in
      let (rs', sent', tests') = run_tests-Answers ts (run_single_test outside t task) in
      (
        rs ++ rs',
        sent' ∙ (ap (λ l. l ++ rs') sent ∙ append_assoc task.sent rs rs'),
        List.map-append (λ r. r.test) rs rs' ∙ cc (tests, tests'),
      )

  -- A unit's tests are answered by one result each, in their order, behind the results that the
  -- task has sent before, whatever the workers answer and whether or not one can be had.
  pub handle_unit-answers :
      (u : WorkUnit) (task : Task)
      → (rs : List TestResult) × ((handle_unit outside u task).sent ≡ task.sent ++ rs)
        × (map (λ r. r.test) rs ≡ u.tests)
  unfolding handle_unit
  handle_unit-answers u task =
      let (rs, sent, tests) = run_tests-Answers u.tests (prepare outside u task) in
      (
        rs,
        finalize_modules-sent (modules_of u.tests)
              (run_tests outside u.tests (prepare outside u task))
            ∙ (sent ∙ ap (λ l. l ++ rs) (prepare-sent u task)),
        tests,
      )
