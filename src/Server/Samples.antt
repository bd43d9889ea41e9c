-- ===== src/Server/Samples.antt =====
-- A client that pings, asks for an unknown method, sends a change without parameters and runs.
use tryke.Prelude.{
  Bool, ◌↔◌, ℕ, ◌≡◌, refl, true, false, List, [], ◌∷◌, ◌++◌, Option, none, some, Text, codes, inr,
  filter, length, nat_eq, list_eq,
}
use tryke.Types.{TestItem, default_item, id}
use tryke.Types.Outcome.{passed}
use tryke.Types.Summary.{RunSummary, total}
use tryke.Paths.Operations.{PathBuf, path}
use tryke.Filter.Matching.{from_args}
use tryke.Schedule.Units.{by_test}
use tryke.Schedule.{partition_with_hooks}
use tryke.Discover.Files.{Disk, default_discovered_file}
use tryke.Discover.Cache.{CacheFile}
use tryke.Discover.Save.{Bytes}
use tryke.Discover.State.{Analysis}
use tryke.Discover.Change.{tests, hooks}
use tryke.Discover.New.{new}
use tryke.Discover.Tracked.{IsTracked}
use tryke.Discover.Runs.{take_steps-IsTracked}
use tryke.Server.Protocol.{
  method_of, RunParams, Request, notification, run_start, run_complete, method_not_found,
  invalid_params,
}
use tryke.Server.Handler.{
  Connection, World, restart_workers, submit, select_tests, execute_run, serve,
}
use tryke.Server.Selection.{IsListed, Fits, select_tests-filter}
use tryke.Server.Answers.{completions, execute_run-sends}
use tryke.Server.Answering.{replies, replies_to}
use tryke.Server.Replies.{serve-replies}

abbrev project : Disk
project = record {
  walk = λ p. [];
  excluded = λ p. false;
  ignored = λ p. false;
  metadata = λ p. none;
  read_to_string = λ p. none;
  exists = λ p. false;
  canonicalize = λ p. some p;
}

abbrev undecodable : Bytes → Option CacheFile
undecodable bytes = none

abbrev root : PathBuf
root = path (codes "/p")

abbrev nothing_found : Analysis
nothing_found = record {
  discover = λ f. default_discovered_file;
  same_body = λ t u. true;
  same_body_refl = λ t. refl;
  imports_same = λ f t u h. refl;
  dynamic_same = λ f t u h. refl;
}

abbrev item : TestItem
item = record default_item { name = codes "test_a" }

abbrev everything : RunParams
everything = record {
  tests = none;
  filter = some (codes "a");
  paths = none;
  markers = none;
  run_id = codes "r";
}

-- The first character of a line is its request's method; the ids are numbers.
abbrev request_of : Text → Option (Request ℕ)
request_of [] = none
request_of (c ∷ line) = some (record { id = some c; method = method_of line; params = none })

abbrev world : World ℕ
world = record {
  null = 0;
  read_request = request_of;
  read_paths = λ v. inr [];
  read_run = λ v. inr everything;
  results_of = λ calls.
      record { test = item; outcome = passed; duration = 3; stdout = []; stderr = [] } ∷ [];
  accepts = λ sent m. true;
  discovery_duration = 1;
  test_duration = 3;
  start_time = codes "12:00:00";
  disk = project;
  analysis = nothing_found;
  to_lowercase = λ s. s;
}

abbrev connection : Connection ℕ
connection = record { discoverer = new undecodable project [] root [] none; pool = []; sent = [] }

connection-IsTracked : IsTracked connection.discoverer
connection-IsTracked = take_steps-IsTracked nothing_found undecodable project [] root [] none []

abbrev lines : List Text
lines = codes "1ping" ∷ codes "2pong" ∷ [] ∷ codes "3did_change" ∷ codes "4discover" ∷ []

lines_run :
    replies_to world lines
    ≡ (49, none) ∷ (50, some method_not_found) ∷ (51, some invalid_params) ∷ (52, none) ∷ []
unfolding method_of
lines_run = refl

serve-replies_example :
    (after : Connection ℕ) × (serve world connection lines ≡ some after)
    × IsTracked after.discoverer
    × (replies world after.sent ≡ replies world connection.sent ++ replies_to world lines)
serve-replies_example = serve-replies world (λ sent m. refl) lines connection connection-IsTracked

execute_run-sends_example :
    let selected = select_tests (λ s. s) everything (tests connection.discoverer) in
    (after : Connection ℕ) × (summary : RunSummary) × (execute_run world connection everything
      ≡ some (after, summary))
    × (after.sent
        ≡ connection.sent
          ++ (notification (run_start everything.run_id selected)
              ∷ (completions world (λ sent m. refl) everything.run_id (world.results_of after.pool)
                  ++ notification (run_complete everything.run_id summary) ∷ [])))
    × (total summary ≡ length (world.results_of after.pool))
    × (after.pool
        ≡ (connection.pool ++ restart_workers ∷ [])
          ++ submit (partition_with_hooks selected (hooks connection.discoverer) by_test).units
            ∷ [])
    × (after.discoverer ≡ connection.discoverer)
execute_run-sends_example = execute_run-sends world (λ sent m. refl) connection everything

abbrev listing_one : RunParams
listing_one = record everything { tests = some (id item ∷ []) }

select_tests-filter_example :
    (keep : TestItem → Bool) × ((ts : List TestItem)
      → select_tests (λ s. s) listing_one ts ≡ filter keep ts)
    × ((t : TestItem)
        → (keep t ≡ true) ↔ (
            IsListed (λ s. s) (some (id item ∷ [])) (id t)
            × Fits (λ s. s) (from_args [] everything.filter everything.markers) t))
select_tests-filter_example = select_tests-filter (λ s. s) listing_one
