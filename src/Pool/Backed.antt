-- ===== src/Pool/Backed.antt =====
-- crates/tryke_runner/src/pool.rs: no test runs on a process that lacks its module's hooks.
use tryke.Prelude.{
  ℕ, ◌⊎◌, inl, inr, ◌≡◌, refl, sym, subst, ◌∙◌, true, Option, none, some, List, [], ◌∷◌, Text,
  is_empty, Bool-cases, All, Member, list_eq, nat_eq,
}
use tryke.Types.{TestItem, HookItem}
use tryke.Types.Outcome.{RunTestResultWire}
use tryke.Schedule.Units.{WorkUnit}
use tryke.Pool.Wire.{Outside, Log, registered}
use tryke.Pool.Worker.{
  modules_of, Task, module_params, ensure_worker, answered, run_on, run_with, run_single_test,
  run_tests, register_hooks_for_unit, prepare, handle_unit,
}
use tryke.Pool.Knowing.{Knows, ReadyFor, IsReady, SameCache, ensure_worker-Ensured}
use tryke.Pool.Ready.{prepare-IsReady, run_single_test-IsReady}
use tryke.Pool.Caching.{has_hooks, Cached, get-Knows, prepare-Cached}
use tryke.Pool.Backing.{
  Backed, nothing, other, run, ensure_worker-Backed, register_modules-Backed,
  finalize_modules-Backed,
}

module _ (outside : Outside) (hooks : List HookItem) (start : Log) where
  -- A test that runs where the process has accepted the hooks of its module.
  answered-Backed :
      (process : ℕ) (t : TestItem) (reply : Text ⊎ RunTestResultWire) (task : Task)
      → (has_hooks hooks t.module_path ≡ true
          → Member (registered process (module_params hooks t.module_path) none) task.log)
      → Backed hooks start task.log
      → Backed hooks start (answered outside process t reply task).log
  answered-Backed process t (inr wire) task accepts h = run accepts h
  answered-Backed process t (inl err) task accepts h = other refl (other refl (run accepts h))

  answered-SameCache :
      (process : ℕ) (t : TestItem) (reply : Text ⊎ RunTestResultWire) (task : Task)
      → SameCache task (answered outside process t reply task)
  answered-SameCache process t (inl err) task = refl
  answered-SameCache process t (inr wire) task = refl

  run_with-Backed :
      (t : TestItem) (process : Option ℕ) (task : Task)
      → task.state.process ≡ process
      → IsReady task
      → Cached hooks task.state.hook_cache t.module_path
      → Backed hooks start task.log
      → Backed hooks start (run_with outside t (process, task)).log
        × SameCache task (run_with outside t (process, task))
  unfolding run_on
  run_with-Backed t none task e ready cached h = (h, refl)
  run_with-Backed t (some p) task e ready cached h =
      let known : All (Knows p task.log none) task.state.hook_cache =
        subst (λ q. ReadyFor none q task.state.hook_cache task.log) e ready in
      let accepts : has_hooks hooks t.module_path ≡ true
          → Member (registered p (module_params hooks t.module_path) none) task.log =
        λ some_hook.
          get-Knows p task.log task.state.hook_cache t.module_path
            (module_params hooks t.module_path) known (cached some_hook) in
      (answered-Backed p t _ task accepts h, answered-SameCache p t _ task)

  run_single_test-Backed :
      (t : TestItem) (task : Task)
      → IsReady task
      → Cached hooks task.state.hook_cache t.module_path
      → Backed hooks start task.log
      → Backed hooks start (run_single_test outside t task).log
        × SameCache task (run_single_test outside t task)
  unfolding run_single_test
  run_single_test-Backed t task ready cached h =
      let (process, next) = ensure_worker outside task in
      let (ready', holds, same) = ensure_worker-Ensured outside none task ready in
      let (backed, kept) =
        run_with-Backed t process next holds ready'
          (subst (λ c. Cached hooks c t.module_path) (sym same) cached)
          (ensure_worker-Backed outside hooks start task h) in
      (backed, kept ∙ same)

  run_tests-Backed :
      (ts : List TestItem) (task : Task)
      → IsReady task
      → All (λ t. Cached hooks task.state.hook_cache t.module_path) ts
      → Backed hooks start task.log
      → Backed hooks start (run_tests outside ts task).log
  unfolding run_tests
  run_tests-Backed [] task ready cached h = h
  run_tests-Backed (t ∷ ts) task ready cached h =
      let (backed, same) = run_single_test-Backed t task ready cached.0 h in
      run_tests-Backed ts (run_single_test outside t task)
        (run_single_test-IsReady outside t task ready)
        (subst (λ c. All (λ u. Cached hooks c u.module_path) ts) (sym same) cached.1) backed

module _ (outside : Outside) where
  prepare-Backed :
      (u : WorkUnit) (task : Task) → Backed u.hooks task.log (prepare outside u task).log
  unfolding prepare register_hooks_for_unit
  prepare-Backed u task = elim (Bool-cases (is_empty u.hooks)) [
    | inl e ↦ rw e nothing
    | inr e ↦
        rw e (register_modules-Backed outside u.hooks task.log (modules_of u.tests) task nothing)
  ]

  -- While a unit is handled by a task whose process, if it has one, has accepted all cached hooks, a
  -- test whose module has hooks in the unit runs only on a process that has accepted these hooks
  -- before, also after processes have crashed.
  pub handle_unit-Backed :
      (u : WorkUnit) (task : Task)
      → IsReady task
      → Backed u.hooks task.log (handle_unit outside u task).log
  unfolding handle_unit
  handle_unit-Backed u task ready =
      let prepared = prepare outside u task in
      finalize_modules-Backed outside u.hooks task.log (modules_of u.tests)
        (run_tests outside u.tests prepared)
        (run_tests-Backed outside u.hooks task.log u.tests prepared
          (prepare-IsReady outside u task ready) (prepare-Cached outside u task ready)
          (prepare-Backed u task))
