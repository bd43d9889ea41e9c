-- ===== src/Pool/Worker/State.antt =====
-- crates/tryke_runner/src/pool.rs: the state of a worker task, its messages, and what it formats.
use tryke.Prelude.{
  ℕ, Option, none, List, [], ◌∷◌, ◌++◌, map, filter, distinct, Text, codes, trim, is_empty, ◌==◌,
  nat_eq, list_eq, if◌then◌else◌, unwrap_or,
}
use tryke.Prelude.Dict.{Dict, insert}
use tryke.Types.{FixturePer, per_test, per_scope, HookItem, TestItem}
use tryke.Types.Outcome.{TestResult, error}
use tryke.Schedule.Units.{WorkUnit}
use tryke.Pool.Wire.{HookWire, RegisterHooksParams, Event, Log}

-- The messages; the senders for results and acknowledgements are the task's `sent` and `log`. A
-- closed channel ends the loop as `Shutdown` does.
pub data WorkerMsg : Type 0 where
  unit : WorkUnit → WorkerMsg
  shutdown : WorkerMsg

pub data WorkerCtrl : Type 0 where
  ping restart : WorkerCtrl

-- What waits on the control channel and on the shared work channel.
abbrev pub Queues : Type 0
Queues = List WorkerCtrl × List WorkerMsg

pub record WorkerState : Type 0 where
  pub process : Option ℕ
  pub hook_cache : Dict Text RegisterHooksParams
  pub last_failure : Option Text

-- A worker task: its state, the log of its requests, and the results that it has sent, the newest
-- last. A receiver that is gone makes no difference to the task.
pub record Task : Type 0 where
  pub state : WorkerState
  pub log : Log
  pub sent : List TestResult

-- `WorkerState::new()`, at the start of `worker_task`.
abbrev pub new_task : Task
new_task = record {
  state = record { process = none; hook_cache = []; last_failure = none };
  log = [];
  sent = [];
}

abbrev pub note : Event → Task → Task
note event task = record task { log = event ∷ task.log }

abbrev pub send : TestResult → Task → Task
send result task = record task { sent = task.sent ++ result ∷ [] }

abbrev pub set_failure : Option Text → Task → Task
set_failure failure task = record task { state = record task.state { last_failure = failure } }

abbrev pub set_process : Option ℕ → Task → Task
set_process process task = record task { state = record task.state { process = process } }

abbrev pub cache_hooks : RegisterHooksParams → Task → Task
cache_hooks params task = record task {
  state = record task.state { hook_cache = insert params.module_name params task.state.hook_cache };
}

unfoldable pub format_worker_failure : Text → Text → Text → Text
format_worker_failure prefix err stderr =
    let trimmed = trim stderr in
    prefix
    ++ (codes ": "
        ++ (err ++ (if is_empty trimmed then [] else codes "\nworker stderr:\n" ++ trimmed)))

abbrev per_text : FixturePer → Text
per_text per_test = codes "test"
per_text per_scope = codes "scope"

unfoldable pub hook_wire : HookItem → HookWire
hook_wire h = record {
  name = h.name;
  per = per_text h.per;
  groups = h.groups;
  depends_on = h.depends_on;
  line_number = h.line_number;
}

-- What a unit with these hooks registers for a module.
unfoldable pub module_params : List HookItem → Text → RegisterHooksParams
unfolding hook_wire
module_params hooks m = record {
  module_name = m;
  hooks = map hook_wire (filter (λ h. h.module_path == m) hooks);
}

abbrev pub error_result : TestItem → Text → Text → TestResult
error_result test message stderr = record {
  test = test;
  outcome = error message;
  duration = 0;
  stdout = [];
  stderr = stderr;
}

-- The modules of the tests, each once.
abbrev pub modules_of : List TestItem → List Text
modules_of tests = distinct (map (λ t. t.module_path) tests)

abbrev pub unavailable : Option Text → Text
unavailable last_failure =
    unwrap_or last_failure (codes "worker unavailable (spawn or hook replay failed)")
