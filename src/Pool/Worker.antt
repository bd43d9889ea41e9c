-- ===== src/Pool/Worker.antt =====
-- crates/tryke_runner/src/pool.rs: the operations of a worker task.
mod State
use tryke.Prelude.{
  ℕ, Bool, true, false, ◌⊎◌, inl, inr, Option, none, some, List, [], ◌∷◌, ◌++◌, map, filter,
  distinct, Text, codes, trim, is_empty, ◌==◌, nat_eq, list_eq, if◌then◌else◌, length, unwrap_or,
}
use tryke.Prelude.Dict.{Dict, insert}
use tryke.Types.{FixturePer, per_test, per_scope, HookItem, TestItem}
use tryke.Types.Outcome.{TestResult, error, convert_wire_result, RunTestResultWire}
use tryke.Schedule.Units.{WorkUnit}
use tryke.Pool.Wire.{
  HookWire, RegisterHooksParams, run_request, Event, spawn_failed, spawned, registered, ran,
  finalized, drained, dropped, shut_down, acknowledged, Log, Outside,
}
pub use State.*
unfoldable pub use State.{format_worker_failure, hook_wire, module_params}

module _ (outside : Outside) where
  -- The failure of an RPC: stderr is drained, and the process is dropped.
  abbrev pub give_up : Text → Text → ℕ → Task → Task
  give_up prefix err process task =
      let message = format_worker_failure prefix err (outside.stderr task.log process) in
      note (dropped process) (set_failure (some message) (note (drained process) task))

  -- The body of the loop of `ensure_worker` over the cached hooks, by the outcome of the call: the
  -- rest of the loop, or the early return.
  abbrev pub replayed : Text → ℕ → Option Text → Bool × Task → Task → Bool × Task
  replayed m process none rest next = rest
  replayed m process (some err) rest next =
      (false, give_up (codes "hook replay failed for module " ++ m) err process next)

  -- The loop; `false` where it returns early.
  unfoldable pub replay : ℕ → Dict Text RegisterHooksParams → Task → Bool × Task
  replay process [] task = (true, task)
  replay process ((m, params) ∷ cached) task =
      let reply = outside.register_error task.log process params in
      let next = note (registered process params reply) task in
      replayed m process reply (replay process cached next) next

  abbrev pub adopt : ℕ → Bool × Task → Option ℕ × Task
  adopt process (true, task) = (some process, set_process (some process) (set_failure none task))
  adopt process (false, task) = (none, task)

  abbrev pub spawn_message : Text → Text
  spawn_message err =
      format_worker_failure
        (codes "failed to spawn python worker ("
          ++ (outside.python_bin ++ codes " -m tryke.worker)"))
        err []

  -- `ensure_worker` where there is no process, by the outcome of `spawn_worker_process`.
  abbrev pub spawn_with : Option Text → Task → Option ℕ × Task
  spawn_with (some err) task =
      (none, set_failure (some (spawn_message err)) (note (spawn_failed err) task))
  spawn_with none task =
      let process = length task.log in
      adopt process (replay process task.state.hook_cache (note (spawned process) task))

  abbrev pub ensure_with : Option ℕ → Task → Option ℕ × Task
  ensure_with (some process) task = (some process, task)
  ensure_with none task = spawn_with (outside.spawn_error task.log) task

  unfoldable pub ensure_worker : Task → Option ℕ × Task
  unfolding replay
  ensure_worker task = ensure_with task.state.process task

  -- The `match` on the outcome of `w.run_test(&test).await`.
  abbrev pub answered : ℕ → TestItem → Text ⊎ RunTestResultWire → Task → Task
  answered process test (inr wire) task =
      send (convert_wire_result outside.relative_to_cwd test wire)
        (note (ran process test none) task)
  answered process test (inl err) task =
      let asked = note (ran process test (some err)) task in
      let stderr = outside.stderr asked.log process in
      send (error_result test (format_worker_failure (codes "worker error") err stderr) stderr)
        (set_process none (note (dropped process) (note (drained process) asked)))

  unfoldable pub run_on : ℕ → TestItem → Task → Task
  run_on process test task =
      answered process test (outside.run_reply task.log process (run_request test)) task

  abbrev pub run_with : TestItem → Option ℕ × Task → Task
  run_with test (some process, task) = run_on process test task
  run_with test (none, task) =
      send (error_result test (unavailable task.state.last_failure) []) task

  unfoldable pub run_single_test : TestItem → Task → Task
  unfolding ensure_worker run_on
  run_single_test test task = run_with test (ensure_worker task)

  unfoldable pub run_tests : List TestItem → Task → Task
  unfolding run_single_test
  run_tests [] task = task
  run_tests (t ∷ ts) task = run_tests ts (run_single_test t task)

  -- The outcome of `w.register_hooks(params).await`.
  abbrev pub accepted : ℕ → RegisterHooksParams → Option Text → Task → Task
  accepted process params none task = note (registered process params none) task
  accepted process params (some err) task = set_process none (
      give_up (codes "register_hooks failed for module " ++ params.module_name) err process
        (note (registered process params (some err)) task))

  abbrev pub register_with : RegisterHooksParams → Option ℕ × Task → Task
  register_with params (none, task) = task
  register_with params (some process, task) =
      accepted process params (outside.register_error task.log process params) task

  unfoldable pub register_module : List HookItem → Text → Task → Task
  unfolding module_params ensure_worker
  register_module hooks m task =
      let params = module_params hooks m in
      if is_empty params.hooks
      then task
      else register_with params (ensure_worker (cache_hooks params task))

  unfoldable pub register_modules : List HookItem → List Text → Task → Task
  unfolding register_module
  register_modules hooks [] task = task
  register_modules hooks (m ∷ ms) task = register_modules hooks ms (register_module hooks m task)

  -- The loop skips a module that it has seen; what is left are the distinct modules.
  unfoldable pub register_hooks_for_unit : List HookItem → List TestItem → Task → Task
  unfolding register_modules
  register_hooks_for_unit hooks tests = register_modules hooks (modules_of tests)

  abbrev pub finalize_on : Option ℕ → Text → Task → Task
  finalize_on none m task = task
  finalize_on (some process) m task =
      note (finalized process m (outside.finalize_error task.log process m)) task

  unfoldable pub finalize_modules : List Text → Task → Task
  finalize_modules [] task = task
  finalize_modules (m ∷ ms) task = finalize_modules ms (finalize_on task.state.process m task)

  -- `register_hooks_for_unit`, for a unit with hooks.
  unfoldable pub prepare : WorkUnit → Task → Task
  unfolding register_hooks_for_unit
  prepare u task = if is_empty u.hooks then task else register_hooks_for_unit u.hooks u.tests task

  unfoldable pub handle_unit : WorkUnit → Task → Task
  unfolding prepare run_tests finalize_modules
  handle_unit u task = finalize_modules (modules_of u.tests) (run_tests u.tests (prepare u task))

  abbrev pub stop : Option ℕ → Task → Task
  stop none task = task
  stop (some process) task = note (shut_down process) (set_process none task)

  unfoldable pub handle_ctrl : WorkerCtrl → Task → Task
  unfolding ensure_worker
  handle_ctrl ping task = note acknowledged (ensure_worker task).1
  handle_ctrl restart task = note acknowledged (stop task.state.process task)

  -- A round of the loop: `select!` is biased towards the control channel. The last component says
  -- whether the loop goes on.
  unfoldable pub select : Queues → Task → Queues × Task × Bool
  unfolding handle_ctrl handle_unit
  select (c ∷ ctrl, work) task = ((ctrl, work), handle_ctrl c task, true)
  select ([], unit u ∷ work) task = (([], work), handle_unit u task, true)
  select ([], shutdown ∷ work) task = (([], work), task, false)
  select ([], []) task = (([], []), task, true)

  -- The loop, by what arrives on the two channels before each round.
  unfoldable pub worker_loop : List Queues → Queues → Task → Task
  unfolding select
  worker_loop [] queues task = task
  worker_loop ((ctrl, work) ∷ arrivals) queues task =
      let (queues', task', go_on) = select (queues.0 ++ ctrl, queues.1 ++ work) task in
      let more = worker_loop arrivals queues' task' in
      if go_on then more else stop task'.state.process task'
