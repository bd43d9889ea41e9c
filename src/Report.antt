-- ===== src/Report.antt =====
-- crates/tryke/src/execution.rs: the results of a run are buffered by file and reported file by
-- file, in the order of discovery within a file. The stream of results is what the pool yields; the
-- clock is a parameter. The reporter is the list of what it is told.
pub mod Buffers
pub mod Reported
mod Samples
use tryke.Prelude.{
  zero, suc, ℕ, ◌+◌, ◌-◌, ◌^◌, min, Bool, true, false, ◌||◌, not, List, [], ◌∷◌, ◌++◌, map, filter,
  distinct, Option, none, some, is_some, is_none, Text, ltb, leb, ◌==◌, nat_eq, list_eq, option_eq,
  length, is_empty, unwrap_or, if◌then◌else◌,
}
use tryke.Prelude.Sort.{sort_by}
use tryke.Prelude.Dict.{Dict, get, insert}
use tryke.Paths.{component_eq}
use tryke.Types.{TestItem, id, HookItem, DiscoveryWarning}
use tryke.Types.Outcome.{TestResult, TestOutcome, skipped, todo}
use tryke.Types.Summary.{RunSummary, ChangedSelectionSummary, no_results, count_outcome}
use tryke.Schedule.Units.{DistMode, FileKey, file_key}
use tryke.Schedule.{partition_with_hooks}
use Buffers.{Buffer, BufferMap, push, take_out}

abbrev pub usize_max : ℕ
usize_max = 2 ^ 64 - 1

-- `discovery_order`: the last index of each identifier.
unfoldable pub index_from : ℕ → List TestItem → Dict Text ℕ → Dict Text ℕ
index_from i [] order = order
index_from i (t ∷ ts) order = index_from (i + 1) ts (insert (id t) i order)

abbrev pub index_of : Dict Text ℕ → TestItem → ℕ
index_of order t = unwrap_or (get (id t) order) usize_max

abbrev pub counted : ℕ → Option ℕ
counted zero = none
counted (suc n) = some (suc n)

-- `expected_per_file.get(&file)`: how many tests the file has, if any.
unfoldable pub expected_for : List TestItem → FileKey → Option ℕ
expected_for tests file = counted (length (filter (λ t. file_key t == file) tests))

-- What the loops change: the buffers, the results reported so far, and the counts.
pub record Cycle : Type 0 where
  pub buffers : BufferMap
  pub reported : List TestResult
  pub counts : RunSummary

abbrev pub by_index : ℕ × TestResult → ℕ × TestResult → Bool
by_index a b = leb a.0 b.0

abbrev pub report : Option Buffer → Cycle → Cycle
report none cycle = cycle
report (some buf) cycle = record cycle {
  reported = cycle.reported ++ map (λ e. e.1) (sort_by by_index buf);
}

unfoldable pub flush_buffer : FileKey → Cycle → Cycle
flush_buffer file cycle =
    let (buf, rest) = take_out file cycle.buffers in report buf (record cycle { buffers = rest })

-- `buffers.entry(file).or_default().push((idx, result))`, with the count of the outcome.
abbrev pub receive : Dict Text ℕ → TestResult → Cycle → Cycle
receive order result cycle = record cycle {
  buffers = push (file_key result.test) (index_of order result.test, result) cycle.buffers;
  counts = count_outcome result.outcome cycle.counts;
}

abbrev pub is_short : TestItem → Bool
is_short t = is_some t.skip || is_some t.todo

abbrev pub short_outcome : TestItem → TestOutcome
short_outcome t = if is_some t.todo then todo t.todo else skipped t.skip

-- The result of a test that is not run.
abbrev pub short_result : TestItem → TestResult
short_result t = record {
  test = t;
  outcome = short_outcome t;
  duration = 0;
  stdout = [];
  stderr = [];
}

unfoldable pub receive_all : Dict Text ℕ → List TestResult → Cycle → Cycle
receive_all order [] cycle = cycle
receive_all order (r ∷ rs) cycle = receive_all order rs (receive order r cycle)

abbrev pub fills : Option ℕ → Option Buffer → Bool
fills (some expected) (some buf) = leb expected (length buf)
fills _ _ = false

-- Whether the file's buffer holds all that is expected.
unfoldable pub is_complete : (FileKey → Option ℕ) → FileKey → Cycle → Bool
is_complete expected file cycle = fills (expected file) (take_out file cycle.buffers).0

abbrev pub reaches : Option ℕ → ℕ → Bool
reaches none failed = false
reaches (some max) failed = leb max failed

-- A round of the loop over the stream, up to the test of `maxfail`.
unfoldable pub absorb : Dict Text ℕ → (FileKey → Option ℕ) → TestResult → Cycle → Cycle
unfolding is_complete flush_buffer
absorb order expected result cycle =
    let next = receive order result cycle in
    let file = file_key result.test in
    if is_complete expected file next then flush_buffer file next else next

-- The loop: what is left of the stream is not read when enough tests have failed.
unfoldable pub consume :
    Dict Text ℕ → (FileKey → Option ℕ) → Option ℕ → List TestResult → Cycle → Cycle
unfolding absorb
consume order expected maxfail [] cycle = cycle
consume order expected maxfail (r ∷ rs) cycle =
    let next = absorb order expected r cycle in
    let more = consume order expected maxfail rs next in
    if reaches maxfail next.counts.failed then next else more

-- The least index of a buffer.
abbrev pub min_index : Buffer → ℕ
min_index [] = usize_max
min_index (e ∷ []) = e.0
min_index (e ∷ f ∷ buf) = min e.0 (min_index (f ∷ buf))

abbrev pub by_first : ℕ × FileKey → ℕ × FileKey → Bool
by_first a b = leb a.0 b.0

unfoldable pub flush_files : List FileKey → Cycle → Cycle
unfolding flush_buffer
flush_files [] cycle = cycle
flush_files (file ∷ files) cycle = flush_files files (flush_buffer file cycle)

-- The files that are still buffered, by the least index of each.
abbrev pub remaining_files : BufferMap → List FileKey
remaining_files bufs = map (λ r. r.1) (sort_by by_first (map (λ b. (min_index b.1, b.0)) bufs))

-- Where no file is buffered, the source's test skips a loop that would do nothing.
unfoldable pub flush_remaining : Cycle → Cycle
unfolding flush_files
flush_remaining cycle = flush_files (remaining_files cycle.buffers) cycle

abbrev pub initial : Cycle
initial = record { buffers = []; reported = []; counts = no_results }

-- The results that reach the reporter, and the counts; `stream` is what the pool yields for the
-- units that it is given.
unfoldable pub run_cycle : List TestItem → Option ℕ → List TestResult → Cycle
unfolding index_from expected_for receive_all consume flush_remaining
run_cycle tests maxfail stream =
    let order = index_from 0 tests [] in
    let short = receive_all order (map short_result (filter is_short tests)) initial in
    flush_remaining (consume order (expected_for tests) maxfail stream short)
