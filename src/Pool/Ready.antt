-- ===== src/Pool/Ready.antt =====
-- crates/tryke_runner/src/pool.rs: a live worker has registered all hooks that the task has cached.
use tryke.Prelude.{
  ℕ, ◌⊎◌, inl, inr, ◌≡◌, sym, subst, Option, none, some, List, [], ◌∷◌, ◌++◌, Text, is_empty,
  Bool-cases, arith, All, All-mono, list_eq, nat_eq,
}
use tryke.Prelude.Dict.{insert}
use tryke.Types.{TestItem, HookItem}
use tryke.Types.Outcome.{RunTestResultWire}
use tryke.Schedule.Units.{WorkUnit}
use tryke.Pool.Wire.{acknowledged, RegisterHooksParams, Outside, Event, Log, registered, ran}
use tryke.Pool.Worker.{
  modules_of, new_task, Task, note, cache_hooks, module_params, accepted, ensure_worker, answered,
  run_on, run_with, run_single_test, run_tests, register_with, register_module, register_modules,
  register_hooks_for_unit, prepare, finalize_on, finalize_modules, handle_unit, WorkerCtrl, ping,
  restart, unit, shutdown, Queues, stop, handle_ctrl, select, worker_loop,
}
use tryke.Pool.Knowing.{
  Cache, Knows, ReadyFor, IsReady, ReadyFor-grow, Knows-settle, insert-Knows, ReadyBut,
  ensure_worker-Ensured,
}

module _ (outside : Outside) where
  answered-IsReady :
      (process : ℕ) (t : TestItem) (reply : Text ⊎ RunTestResultWire) (task : Task)
      → IsReady task
      → IsReady (answered outside process t reply task)
  answered-IsReady process t (inl err) task h = tt
  answered-IsReady process t (inr wire) task h =
      ReadyFor-grow none task.state.process task.state.hook_cache (ran process t none) task.log h

  run_with-IsReady :
      (t : TestItem) (process : Option ℕ) (task : Task)
      → IsReady task
      → IsReady (run_with outside t (process, task))
  unfolding run_on
  run_with-IsReady t none task h = h
  run_with-IsReady t (some p) task h = answered-IsReady p t _ task h

  pub run_single_test-IsReady :
      (t : TestItem) (task : Task) → IsReady task → IsReady (run_single_test outside t task)
  unfolding run_single_test
  run_single_test-IsReady t task h =
      let (process, next) = ensure_worker outside task in
      run_with-IsReady t process next (ensure_worker-Ensured outside none task h).0

  run_tests-IsReady :
      (ts : List TestItem) (task : Task) → IsReady task → IsReady (run_tests outside ts task)
  unfolding run_tests
  run_tests-IsReady [] task h = h
  run_tests-IsReady (t ∷ ts) task h =
      run_tests-IsReady ts (run_single_test outside t task) (run_single_test-IsReady t task h)

  accepted-IsReady :
      (process : ℕ) (params : RegisterHooksParams) (reply : Option Text) (task : Task)
      → task.state.process ≡ some process
      → ReadyBut (some params) task
      → IsReady (accepted outside process params reply task)
  accepted-IsReady process params (some err) task e h = tt
  accepted-IsReady process params none task e h =
      let known : All (Knows process task.log (some params)) task.state.hook_cache =
        subst (λ q. ReadyFor (some params) q task.state.hook_cache task.log) e h in
      subst (λ q. ReadyFor none q task.state.hook_cache (registered process params none ∷ task.log))
        (sym e) (All-mono (Knows-settle process task.log params) task.state.hook_cache known)

  register_with-IsReady :
      (params : RegisterHooksParams) (process : Option ℕ) (task : Task)
      → task.state.process ≡ process
      → ReadyBut (some params) task
      → IsReady (register_with outside params (process, task))
  register_with-IsReady params none task e h = rw e tt
  register_with-IsReady params (some p) task e h = accepted-IsReady p params _ task e h

  pub cache_hooks-ReadyBut :
      (params : RegisterHooksParams) (process : Option ℕ) (cache : Cache) (log : Log)
      → ReadyFor none process cache log
      → ReadyFor (some params) process (insert params.module_name params cache) log
  cache_hooks-ReadyBut params none cache log h = tt
  cache_hooks-ReadyBut params (some p) cache log h = insert-Knows p params log _ cache h

  pub register_module-IsReady :
      (hooks : List HookItem) (m : Text) (task : Task)
      → IsReady task
      → IsReady (register_module outside hooks m task)
  unfolding register_module
  register_module-IsReady hooks m task h =
      let params = module_params hooks m in
      let cached = cache_hooks params task in
      let pending =
        cache_hooks-ReadyBut params task.state.process task.state.hook_cache task.log h in
      let (process, next) = ensure_worker outside cached in
      let (ready, holds, same) = ensure_worker-Ensured outside (some params) cached pending in
      elim (Bool-cases (is_empty params.hooks)) [
        | inl e ↦ rw e h
        | inr e ↦ rw e (register_with-IsReady params process next holds ready)
      ]

  register_modules-IsReady :
      (hooks : List HookItem) (ms : List Text) (task : Task)
      → IsReady task
      → IsReady (register_modules outside hooks ms task)
  unfolding register_modules
  register_modules-IsReady hooks [] task h = h
  register_modules-IsReady hooks (m ∷ ms) task h =
      register_modules-IsReady hooks ms (register_module outside hooks m task)
        (register_module-IsReady hooks m task h)

  pub prepare-IsReady :
      (u : WorkUnit) (task : Task) → IsReady task → IsReady (prepare outside u task)
  unfolding prepare register_hooks_for_unit
  prepare-IsReady u task h =
      ground (arith, h, register_modules-IsReady u.hooks (modules_of u.tests) task h)

  finalize_on-IsReady :
      (process : Option ℕ) (m : Text) (task : Task)
      → IsReady task
      → IsReady (finalize_on outside process m task)
  finalize_on-IsReady none m task h = h
  finalize_on-IsReady (some p) m task h =
      ReadyFor-grow none task.state.process task.state.hook_cache _ task.log h

  finalize_modules-IsReady :
      (ms : List Text) (task : Task) → IsReady task → IsReady (finalize_modules outside ms task)
  unfolding finalize_modules
  finalize_modules-IsReady [] task h = h
  finalize_modules-IsReady (m ∷ ms) task h =
      finalize_modules-IsReady ms _ (finalize_on-IsReady task.state.process m task h)

  pub handle_unit-IsReady :
      (u : WorkUnit) (task : Task) → IsReady task → IsReady (handle_unit outside u task)
  unfolding handle_unit
  handle_unit-IsReady u task h =
      finalize_modules-IsReady (modules_of u.tests) _
        (run_tests-IsReady u.tests _ (prepare-IsReady u task h))

  stop-IsReady :
      (process : Option ℕ) (task : Task) → IsReady task → IsReady (stop outside process task)
  stop-IsReady none task h = h
  stop-IsReady (some p) task h = tt

  note-IsReady : (e : Event) (task : Task) → IsReady task → IsReady (note e task)
  note-IsReady e task = ReadyFor-grow none task.state.process task.state.hook_cache e task.log

  handle_ctrl-IsReady :
      (c : WorkerCtrl) (task : Task) → IsReady task → IsReady (handle_ctrl outside c task)
  unfolding handle_ctrl
  handle_ctrl-IsReady ping task h =
      note-IsReady acknowledged (ensure_worker outside task).1
        (ensure_worker-Ensured outside none task h).0
  handle_ctrl-IsReady restart task h =
      note-IsReady acknowledged (stop outside task.state.process task)
        (stop-IsReady task.state.process task h)

  select-IsReady :
      (queues : Queues) (task : Task) → IsReady task → IsReady (select outside queues task).1
  unfolding select
  select-IsReady (c ∷ ctrl, work) task h = handle_ctrl-IsReady c task h
  select-IsReady ([], unit u ∷ work) task h = handle_unit-IsReady u task h
  select-IsReady ([], shutdown ∷ work) task h = h
  select-IsReady ([], []) task h = h

  worker_loop-keeps :
      (arrivals : List Queues) (queues : Queues) (task : Task)
      → IsReady task
      → IsReady (worker_loop outside arrivals queues task)
  unfolding worker_loop
  worker_loop-keeps [] queues task h = h
  worker_loop-keeps ((ctrl, work) ∷ arrivals) queues task h =
      let here = select-IsReady (queues.0 ++ ctrl, queues.1 ++ work) task h in
      let (queues', next, go_on) = select outside (queues.0 ++ ctrl, queues.1 ++ work) task in
      elim (Bool-cases go_on) [
        | inl e ↦ rw e (worker_loop-keeps arrivals queues' next here)
        | inr e ↦ rw e (stop-IsReady next.state.process next here)
      ]

  -- Through any run of the loop, whatever arrives and whatever is answered, the live process of
  -- the task, if there is one, has accepted the hooks that are cached for every module.
  pub worker_loop-IsReady :
      (arrivals : List Queues) → IsReady (worker_loop outside arrivals ([], []) new_task)
  worker_loop-IsReady arrivals = worker_loop-keeps arrivals ([], []) new_task tt
