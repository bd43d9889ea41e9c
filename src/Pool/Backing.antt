-- ===== src/Pool/Backing.antt =====
-- crates/tryke_runner/src/pool.rs: a log in which no test runs on a process that lacks its module's
-- hooks, and the operations that run no test.
use tryke.Prelude.{
  ℕ, inl, inr, ◌≡◌, refl, Bool, true, false, Option, none, some, List, [], ◌∷◌, Text, is_empty,
  Bool-cases, length, Member, list_eq, nat_eq,
}
use tryke.Types.{TestItem, HookItem}
use tryke.Pool.Wire.{RegisterHooksParams, Outside, Event, Log, registered, spawned, ran}
use tryke.Pool.Worker.{
  Task, note, cache_hooks, module_params, replayed, replay, adopt, spawn_with, ensure_with,
  accepted, ensure_worker, register_with, register_module, register_modules, finalize_on,
  finalize_modules,
}
use tryke.Pool.Knowing.{Cache}
use tryke.Pool.Caching.{has_hooks}

abbrev is_run : Event → Bool
is_run (ran process test err) = true
is_run _ = false

-- What the log has on top of `start`: before each run of a test whose module has hooks, the same
-- process has accepted just these hooks.
pub data Backed (hooks : List HookItem) (start : Log) : Log → Type 0 where
  nothing : Backed hooks start start
  other :
      {e : Event} {log : Log}
      → is_run e ≡ false
      → Backed hooks start log
      → Backed hooks start (e ∷ log)
  run :
      {process : ℕ} {t : TestItem} {err : Option Text} {log : Log}
      → (has_hooks hooks t.module_path ≡ true
          → Member (registered process (module_params hooks t.module_path) none) log)
      → Backed hooks start log
      → Backed hooks start (ran process t err ∷ log)

module _ (outside : Outside) (hooks : List HookItem) (start : Log) where
  pub replayed-Backed :
      (m : Text) (process : ℕ) (reply : Option Text) (rest : Bool × Task) (next : Task)
      → Backed hooks start rest.1.log
      → Backed hooks start next.log
      → Backed hooks start (replayed outside m process reply rest next).1.log
  replayed-Backed m process none rest next h h' = h
  replayed-Backed m process (some err) rest next h h' = other refl (other refl h')

  pub replay-Backed :
      (process : ℕ) (cached : Cache) (task : Task)
      → Backed hooks start task.log
      → Backed hooks start (replay outside process cached task).1.log
  unfolding replay
  replay-Backed process [] task h = h
  replay-Backed process ((m, params) ∷ cached) task h =
      let reply = outside.register_error task.log process params in
      let next = note (registered process params reply) task in
      replayed-Backed m process reply (replay outside process cached next) next
        (replay-Backed process cached next (other refl h)) (other refl h)

  pub adopt-Backed :
      (process : ℕ) (finished : Bool) (task : Task)
      → Backed hooks start task.log
      → Backed hooks start (adopt outside process (finished, task)).1.log
  adopt-Backed process true task h = h
  adopt-Backed process false task h = h

  pub ensure_with-Backed :
      (process : Option ℕ) (task : Task)
      → Backed hooks start task.log
      → Backed hooks start (ensure_with outside process task).1.log
  ensure_with-Backed (some p) task h = h
  ensure_with-Backed none task h = go (outside.spawn_error task.log)
    where
      go : (reply : Option Text) → Backed hooks start (spawn_with outside reply task).1.log
      go (some err) = other refl h
      go none =
          let process = length task.log in
          let next = note (spawned process) task in
          let (finished, after) = replay outside process task.state.hook_cache next in
          adopt-Backed process finished after
            (replay-Backed process task.state.hook_cache next (other refl h))

  pub ensure_worker-Backed :
      (task : Task)
      → Backed hooks start task.log
      → Backed hooks start (ensure_worker outside task).1.log
  unfolding ensure_worker
  ensure_worker-Backed task = ensure_with-Backed task.state.process task

  pub accepted-Backed :
      (process : ℕ) (params : RegisterHooksParams) (reply : Option Text) (task : Task)
      → Backed hooks start task.log
      → Backed hooks start (accepted outside process params reply task).log
  accepted-Backed process params none task h = other refl h
  accepted-Backed process params (some err) task h = other refl (other refl (other refl h))

  pub register_with-Backed :
      (params : RegisterHooksParams) (process : Option ℕ) (task : Task)
      → Backed hooks start task.log
      → Backed hooks start (register_with outside params (process, task)).log
  register_with-Backed params none task h = h
  register_with-Backed params (some p) task h = accepted-Backed p params _ task h

  pub register_module-Backed :
      (m : Text) (task : Task)
      → Backed hooks start task.log
      → Backed hooks start (register_module outside hooks m task).log
  unfolding register_module
  register_module-Backed m task h =
      let params = module_params hooks m in
      let (process, next) = ensure_worker outside (cache_hooks params task) in
      elim (Bool-cases (is_empty params.hooks)) [
        | inl e ↦ rw e h
        | inr e ↦ rw e (
            register_with-Backed params process next
              (ensure_worker-Backed (cache_hooks params task) h))
      ]

  pub register_modules-Backed :
      (ms : List Text) (task : Task)
      → Backed hooks start task.log
      → Backed hooks start (register_modules outside hooks ms task).log
  unfolding register_modules
  register_modules-Backed [] task h = h
  register_modules-Backed (m ∷ ms) task h =
      register_modules-Backed ms (register_module outside hooks m task)
        (register_module-Backed m task h)

  pub finalize_on-Backed :
      (process : Option ℕ) (m : Text) (task : Task)
      → Backed hooks start task.log
      → Backed hooks start (finalize_on outside process m task).log
  finalize_on-Backed none m task h = h
  finalize_on-Backed (some p) m task h = other refl h

  pub finalize_modules-Backed :
      (ms : List Text) (task : Task)
      → Backed hooks start task.log
      → Backed hooks start (finalize_modules outside ms task).log
  unfolding finalize_modules
  finalize_modules-Backed [] task h = h
  finalize_modules-Backed (m ∷ ms) task h =
      finalize_modules-Backed ms (finalize_on outside task.state.process m task)
        (finalize_on-Backed task.state.process m task h)
