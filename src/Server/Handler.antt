-- ===== src/Server/Handler.antt =====
-- crates/tryke_server/src/handler.rs: the handling of a request. What a pool returns for its units
-- is a function of the calls that were made of it; whether a message can be serialized and queued is
-- a function of what was sent before. `none` is an `Err`: a message could not be sent.
use tryke.Prelude.{
  ◌⊎◌, inl, inr, ℕ, ◌+◌, Bool, true, List, [], ◌∷◌, ◌++◌, Option, none, some, Text, codes, filter,
  length, distinct, contains, is_empty, unwrap_or, if◌then◌else◌, list_eq, nat_eq,
}
use tryke.Types.{TestItem, id}
use tryke.Types.Outcome.{TestResult}
use tryke.Types.Summary.{RunSummary, no_results, count_outcome}
use tryke.Paths.Operations.{PathBuf}
use tryke.Filter.Syntax.{Result, ok}
use tryke.Filter.Matching.{TestFilter, from_args, apply}
use tryke.Schedule.Units.{WorkUnit, by_test}
use tryke.Schedule.{partition_with_hooks}
use tryke.Discover.Files.{Disk}
use tryke.Discover.State.{Analysis, Discoverer}
use tryke.Discover.Rediscover.{rediscover}
use tryke.Discover.Change.{ChangeImpact, apply_changes, tests, hooks}
use tryke.Server.Protocol.{
  RequestMethod, ping, discover, did_change, run, unknown, RunParams, Request, method_not_found,
  invalid_params, pong, ok_changed, discovered, ran, Notification, discover_complete, run_start,
  test_complete, run_complete, Message, response, error_response, notification,
}

pub data PoolCall : Type 0 where
  restart_workers : PoolCall
  submit : List WorkUnit → PoolCall

-- A connection: the discoverer and the pool that it shares, and what was sent.
pub record Connection (V : Type 0) : Type 0 where
  pub discoverer : Discoverer
  pub pool : List PoolCall
  pub sent : List (Message V)

-- What is outside of the handler: the JSON library's reading of a line and of parameters, with the
-- error's text, the workers, the queue, the clock, and what discovery takes as given.
pub record World (V : Type 0) : Type 0 where
  pub null : V
  pub read_request : Text → Option (Request V)
  pub read_paths : V → Text ⊎ List PathBuf
  pub read_run : V → Text ⊎ RunParams
  pub results_of : List PoolCall → List TestResult
  pub accepts : List (Message V) → Message V → Bool
  pub discovery_duration : ℕ
  pub test_duration : ℕ
  pub start_time : Text
  pub disk : Disk
  pub analysis : Analysis
  pub to_lowercase : Text → Text

abbrev pub wanted_by : Option (List Text) → TestItem → Bool
wanted_by none test = true
wanted_by (some ids) test = contains ids (id test)

abbrev pub filtered_by : (Text → Text) → Result TestFilter → List TestItem → List TestItem
filtered_by to_lowercase (ok f) tests = apply to_lowercase f tests
filtered_by to_lowercase _ tests = tests

unfoldable pub select_tests : (Text → Text) → RunParams → List TestItem → List TestItem
unfolding contains from_args apply
select_tests to_lowercase params all_tests =
    filtered_by to_lowercase (from_args (unwrap_or params.paths []) params.filter params.markers)
      (filter (wanted_by params.tests) all_tests)

abbrev pub file_paths : List TestItem → List Text
file_paths [] = []
file_paths (t ∷ ts) = elim t.file_path [ some p ↦ p ∷ file_paths ts | none ↦ file_paths ts ]

module _ {V : Type 0} (w : World V) where
  -- `outbound_tx.send`.
  unfoldable pub send_message : Connection V → Message V → Option (Connection V)
  send_message c m =
      if w.accepts c.sent m then some (record c { sent = c.sent ++ m ∷ [] }) else none

  abbrev pub send_notification : Connection V → Notification → Option (Connection V)
  send_notification c n = send_message c (notification n)

  abbrev pub change_found :
      Connection V → Option (Discoverer × ChangeImpact) → Option (Connection V)
  change_found c none = none
  change_found c (some (d, impact)) =
      let c = record c { discoverer = d } in
      if is_empty impact.paths
      then some c
      else send_notification c (discover_complete impact.affected_tests)

  unfoldable pub apply_change : Connection V → List PathBuf → Option (Connection V)
  unfolding send_message apply_changes
  apply_change c [] = some c
  apply_change c (p ∷ paths) =
      change_found c (apply_changes w.analysis w.disk c.discoverer (p ∷ paths))

  -- `while let Some(result) = stream.next().await`
  unfoldable pub forward_results :
      Text → List TestResult → Connection V × RunSummary → Option (Connection V × RunSummary)
  unfolding send_message count_outcome
  forward_results run_id [] s = some s
  forward_results run_id (r ∷ rs) (c, summary) =
      elim (send_notification c (test_complete run_id r)) [
        | some c ↦ forward_results run_id rs (c, count_outcome r.outcome summary)
        | none ↦ none
      ]

  abbrev pub timed : List TestItem → RunSummary → RunSummary
  timed tests s = record s {
    duration = w.discovery_duration + w.test_duration;
    discovery_duration = some w.discovery_duration;
    test_duration = some w.test_duration;
    file_count = length (distinct (file_paths tests));
    start_time = some w.start_time;
    changed_selection = none;
  }

  abbrev pub complete_run :
      Text → List TestItem → Option (Connection V × RunSummary) → Option (Connection V × RunSummary)
  complete_run run_id tests none = none
  complete_run run_id tests (some (c, s)) =
      elim (send_notification c (run_complete run_id (timed tests s))) [
        | some c ↦ some (c, timed tests s)
        | none ↦ none
      ]

  -- The units of a run, on the pool after its restart.
  abbrev pub submit_units : Connection V → List TestItem → Connection V
  submit_units c selected = record c {
    pool = c.pool ++ submit (partition_with_hooks selected (hooks c.discoverer) by_test).units ∷ [];
  }

  unfoldable pub execute_run : Connection V → RunParams → Option (Connection V × RunSummary)
  unfolding select_tests distinct tests hooks send_message forward_results
  execute_run c params =
      let c = record c { pool = c.pool ++ restart_workers ∷ [] } in
      let selected = select_tests w.to_lowercase params (tests c.discoverer) in
      elim (send_notification c (run_start params.run_id selected)) [
        | some c ↦
            let c = submit_units c selected in
            complete_run params.run_id selected
              (forward_results params.run_id (w.results_of c.pool) (c, no_results))
        | none ↦ none
      ]

  -- A request's answer: the connection and the response, which is sent after.
  abbrev pub Answer : Type 0
  Answer = Option (Connection V × Message V)

  abbrev pub answer_with : Option (Connection V) → Message V → Answer
  answer_with none m = none
  answer_with (some c) m = some (c, m)

  abbrev pub on_discover : Connection V → V → Answer
  on_discover c request_id =
      let (d, found) = rediscover w.analysis w.disk c.discoverer in
      answer_with (send_notification (record c { discoverer = d }) (discover_complete found))
        (response request_id (discovered found))

  abbrev pub on_paths : Connection V → Request V → Text ⊎ List PathBuf → Answer
  on_paths c req (inl e) =
      some
        (c, error_response req.id invalid_params (codes "invalid params for 'did_change': " ++ e))
  on_paths c req (inr []) =
      let (d, found) = rediscover w.analysis w.disk c.discoverer in
      answer_with (send_notification (record c { discoverer = d }) (discover_complete found))
        (response (unwrap_or req.id w.null) ok_changed)
  on_paths c req (inr (p ∷ paths)) =
      answer_with (apply_change c (p ∷ paths)) (response (unwrap_or req.id w.null) ok_changed)

  abbrev pub on_run : Connection V → Request V → Text ⊎ RunParams → Answer
  on_run c req (inl e) =
      some (c, error_response req.id invalid_params (codes "invalid params for 'run': " ++ e))
  on_run c req (inr params) = elim (execute_run c params) [
    | some (c, summary) ↦ some (c, response (unwrap_or req.id w.null) (ran params.run_id summary))
    | none ↦ none
  ]

  abbrev pub on_method : Connection V → Request V → RequestMethod → Option V → Answer
  on_method c req ping params = some (c, response (unwrap_or req.id w.null) pong)
  on_method c req discover params = on_discover c (unwrap_or req.id w.null)
  on_method c req did_change none = some (
    c,
    error_response req.id invalid_params (codes "method 'did_change' requires params with paths"),
  )
  on_method c req did_change (some params) = on_paths c req (w.read_paths params)
  on_method c req run none =
      some
        (c, error_response req.id invalid_params (codes "method 'run' requires params with run_id"))
  on_method c req run (some params) = on_run c req (w.read_run params)
  on_method c req (unknown method) params =
      some (c, error_response req.id method_not_found (codes "method not found: " ++ method))

  -- With the send of the response, by the loop of `run`.
  abbrev pub replied : Answer → Option (Connection V)
  replied none = none
  replied (some (c, m)) = send_message c m

  abbrev pub on_request : Connection V → Option (Request V) → Option (Connection V)
  on_request c none = some c
  on_request c (some req) = replied (on_method c req req.method req.params)

  unfoldable pub handle_request : Connection V → Text → Option (Connection V)
  unfolding send_message apply_change execute_run rediscover
  handle_request c line = on_request c (w.read_request line)

  -- The loop of `run`, up to the end of the input or the first error.
  unfoldable pub serve : Connection V → List Text → Option (Connection V)
  unfolding handle_request
  serve c [] = some c
  serve c (line ∷ lines) = elim (handle_request c line) [ some c ↦ serve c lines | none ↦ none ]
