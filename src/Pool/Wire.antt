-- ===== src/Pool/Wire.antt =====
-- crates/tryke_runner/src/protocol.rs and worker.rs: the requests to the Python worker, and the log
-- of what a worker task has asked.
use tryke.Prelude.{ℕ, ◌⊎◌, Option, none, some, List, Text}
use tryke.Types.{TestItem}
use tryke.Types.Outcome.{RunTestResultWire}

pub record HookWire : Type 0 where
  pub name : Text
  pub per : Text
  pub groups : List Text
  pub depends_on : List Text
  pub line_number : Option ℕ

pub record RegisterHooksParams : Type 0 where
  pub module_name : Text
  pub hooks : List HookWire

pub record RunTestParams : Type 0 where
  pub module_name : Text
  pub function : Text
  pub xfail : Option Text
  pub groups : List Text
  pub case_label : Option Text

pub record RunDoctestParams : Type 0 where
  pub module_name : Text
  pub object_path : Text

-- The two requests of `WorkerProcess::run_test`.
pub data RunRequest : Type 0 where
  run_test : RunTestParams → RunRequest
  run_doctest : RunDoctestParams → RunRequest

unfoldable pub run_request : TestItem → RunRequest
run_request test = elim test.doctest_object [
  | some object_path ↦
      run_doctest (record { module_name = test.module_path; object_path = object_path })
  | none ↦ run_test (record {
    module_name = test.module_path;
    function = test.name;
    xfail = test.xfail;
    groups = test.groups;
    case_label = test.case_label;
  })
]

-- A process is named by the number of events before it was spawned. An outcome is the error, if
-- there is one.
pub data Event : Type 0 where
  spawn_failed : (error : Text) → Event
  spawned : (process : ℕ) → Event
  registered : (process : ℕ) (params : RegisterHooksParams) (error : Option Text) → Event
  ran : (process : ℕ) (test : TestItem) (error : Option Text) → Event
  finalized : (process : ℕ) (module_name : Text) (error : Option Text) → Event
  drained dropped shut_down : (process : ℕ) → Event
  acknowledged : Event

-- The newest event stands first.
abbrev pub Log : Type 0
Log = List Event

-- The command of the workers, the path that the conversion of results shortens, and what answers:
-- the Python process, through `WorkerProcess::spawn`, `call` and `drain_stderr`.
pub record Outside : Type 0 where
  pub python_bin : Text
  pub relative_to_cwd : Text → Text
  pub spawn_error : Log → Option Text
  pub register_error : Log → ℕ → RegisterHooksParams → Option Text
  pub run_reply : Log → ℕ → RunRequest → Text ⊎ RunTestResultWire
  pub finalize_error : Log → ℕ → Text → Option Text
  pub stderr : Log → ℕ → Text
