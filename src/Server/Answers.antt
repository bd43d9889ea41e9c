-- ===== src/Server/Answers.antt =====
-- crates/tryke_server/src/handler.rs: what a connection sends for the requests that it reads.
use tryke.Prelude.{
  ◌+◌, ◌≡◌, refl, ap, ◌∙◌, true, List, [], ◌∷◌, ◌++◌, map, some, Text, length, append_assoc,
  append-nil, arith,
}
use tryke.Types.{TestItem}
use tryke.Types.Outcome.{TestResult}
use tryke.Types.Summary.{RunSummary, no_results, count_outcome, total, total-count_outcome}
use tryke.Schedule.Units.{by_test}
use tryke.Schedule.{partition_with_hooks}
use tryke.Discover.Change.{hooks, tests}
use tryke.Server.Protocol.{RunParams, run_start, test_complete, run_complete, Message, notification}
use tryke.Server.Handler.{
  Connection, World, restart_workers, submit, select_tests, send_message, forward_results,
  complete_run, timed, submit_units, execute_run,
}

module _ {V : Type 0} (w : World V)
    (open_queue : (sent : List (Message V)) (m : Message V) → w.accepts sent m ≡ true) where
  abbrev pub with_sent : Connection V → List (Message V) → Connection V
  with_sent c ms = record c { sent = c.sent ++ ms }

  pub send_message-open :
      (c : Connection V) (m : Message V) → send_message w c m ≡ some (with_sent c (m ∷ []))
  unfolding send_message
  send_message-open c m = rw (open_queue c.sent m) refl

  abbrev pub completions : Text → List TestResult → List (Message V)
  completions run_id rs = map (λ r. notification (test_complete run_id r)) rs

  forward_results-sends :
      (run_id : Text) (rs : List TestResult) (c : Connection V) (s : RunSummary)
      → (after : RunSummary) × (forward_results w run_id rs (c, s)
          ≡ some (with_sent c (completions run_id rs), after))
        × (total after ≡ total s + length rs)
  unfolding forward_results
  forward_results-sends run_id [] c s = (s, rw (append-nil c.sent) refl, omega arith)
  forward_results-sends run_id (r ∷ rs) c s =
      let m = notification (test_complete run_id r) in
      let (after, e, counts) =
        forward_results-sends run_id rs (with_sent c (m ∷ [])) (count_outcome r.outcome s) in
      (
        after,
        rw
            (
              send_message-open c m,
              forward_results,
              e,
              append_assoc c.sent (m ∷ []) (completions run_id rs),
            )
            refl,
        omega (arith, counts, total-count_outcome r.outcome s),
      )

  complete_run-sends :
      (run_id : Text) (ts : List TestItem) (c : Connection V) (s : RunSummary)
      → complete_run w run_id ts (some (c, s))
        ≡ some (with_sent c (notification (run_complete run_id (timed w ts s)) ∷ []), timed w ts s)
  complete_run-sends run_id ts c s =
      rw (send_message-open c (notification (run_complete run_id (timed w ts s))), complete_run)
        refl

  regroup :
      (xs : List (Message V)) (a : Message V) (ys : List (Message V)) (b : Message V)
      → ((xs ++ a ∷ []) ++ ys) ++ b ∷ [] ≡ xs ++ (a ∷ (ys ++ b ∷ []))
  regroup xs a ys b =
      append_assoc (xs ++ a ∷ []) ys (b ∷ []) ∙ append_assoc xs (a ∷ []) (ys ++ b ∷ [])

  -- The two sends around the results.
  run_sends :
      (run_id : Text) (ts : List TestItem) (rs : List TestResult) (c : Connection V)
      → (summary : RunSummary) × (complete_run w run_id ts
            (forward_results w run_id rs (c, no_results))
          ≡ some (
            with_sent
                (with_sent c (completions run_id rs))
                (notification (run_complete run_id summary) ∷ []),
            summary,
          ))
        × (total summary ≡ length rs)
  run_sends run_id ts rs c =
      let (s, e, counts) = forward_results-sends run_id rs c no_results in
      (
        timed w ts s,
        ap (complete_run w run_id ts) e
            ∙ complete_run-sends run_id ts (with_sent c (completions run_id rs)) s,
        omega (arith, counts),
      )

  -- While the client reads, a run restarts the workers, submits the units of the selected tests, and
  -- sends the start of the run with these tests, each result that the pool gives, in its order, and
  -- the summary, which counts each of them once; the discoverer stays.
  pub execute_run-sends :
      (c : Connection V) (params : RunParams)
      → let selected = select_tests w.to_lowercase params (tests c.discoverer) in
        (after : Connection V) × (summary : RunSummary) × (execute_run w c params
          ≡ some (after, summary))
        × (after.sent
            ≡ c.sent
              ++ (notification (run_start params.run_id selected)
                  ∷ (completions params.run_id (w.results_of after.pool)
                      ++ notification (run_complete params.run_id summary) ∷ [])))
        × (total summary ≡ length (w.results_of after.pool))
        × (after.pool
            ≡ (c.pool ++ restart_workers ∷ [])
              ++ submit (partition_with_hooks selected (hooks c.discoverer) by_test).units ∷ [])
        × (after.discoverer ≡ c.discoverer)
  unfolding execute_run
  execute_run-sends c params =
      let selected = select_tests w.to_lowercase params (tests c.discoverer) in
      let restarted = record c { pool = c.pool ++ restart_workers ∷ [] } in
      let m = notification (run_start params.run_id selected) in
      let running = submit_units w (with_sent restarted (m ∷ [])) selected in
      let rs = w.results_of running.pool in
      let (summary, e, counts) = run_sends params.run_id selected rs running in
      (
        with_sent (with_sent running (completions params.run_id rs))
            (notification (run_complete params.run_id summary) ∷ []),
        summary,
        rw (send_message-open restarted m, execute_run) e,
        regroup c.sent m (completions params.run_id rs) _,
        counts,
        refl,
        refl,
      )
