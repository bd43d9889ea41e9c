-- ===== src/Lib.antt =====
-- tryke: verification of the core of a test runner for Python.
--
-- tryke discovers tests and fixtures in Python files, selects tests by filter expressions and by the
-- files that changed, partitions them into units of work for a pool of Python workers, and reports
-- the workers' results. The development follows the data: `Types` has what discovery finds and what
-- workers report, `Filter` the language by which tests are selected, `Graph` the imports by which a
-- change selects tests, `Discover` the state that keeps both up to date as
-- files change, `Schedule` the units, `Pool` what a worker does with a unit, and `Report` the order in
-- which results are shown. `Command` selects the tests of a single run; `Watch` and `Server` feed changes
-- and requests to a `Discoverer` that lives on.
--
-- Prelude: equality as an interface, lists and texts over the native naturals, sets, sorting. A text
--   is its list of code points.
-- Paths: file paths, compared by their components, as the standard library compares them, and in
--   Paths.Operations its operations on them.
-- Types: crates/tryke_types/src/lib.rs. Types.Item has TestItem, HookItem and the warnings;
--   Types.Select has select_expected_assertion and its helpers, Types.Chosen what is proved of it;
--   Types.Outcome has the results and convert_wire_result; Types.Summary has RunSummary and
--   from_results.
-- Filter: crates/tryke_types/src/filter.rs. Filter.Lexer has tokenize, Filter.Parser the recursive
--   descent parser, Filter.Grammar an independent grammar as derivations, Filter.Sound and
--   Filter.Reads the two directions between them, Filter.Spelling and Filter.Print a printer.
--   Filter.Matching has path specs and TestFilter, Filter.Matches what is proved of them; the
--   lowercase tables of Unicode are a parameter.
-- Graph: crates/tryke_discovery/src/filesystem/import_graph.rs. Graph.Maps has the finite maps,
--   Graph.Mirror the invariant of the two indexes, Graph.Search and Graph.Affected the search.
-- Discover: crates/tryke_discovery/src/filesystem, and of crates/tryke_discovery/src/source.rs the
--   module names and the resolution of imports. Discover.Files has what is read of the file system,
--   Discover.Cache and Discover.Save the disk cache, Discover.State, Discover.Rediscover, Discover.Change
--   and Discover.New the Discoverer; the other modules are named for what they prove. One run of an
--   operation reads one state of the file system, an argument, as are the walk and the ignore matchers.
--   The query discover_file of filesystem/db.rs is memoised: an edit that leaves the statements of a file
--   equal, of a comment for example, keeps the analysis of the older text. The Discoverer has the
--   texts of these memos; the analysis of a text, and which texts have equal statements, are an interface
--   with laws, Analysis.
-- Schedule: crates/tryke_runner/src/schedule.rs. Schedule.Grouping has the insertion-ordered maps of
--   the source, Schedule.Units the units and the two groupings; the other modules are named for what
--   they prove of partition_with_hooks.
-- Pool: crates/tryke_runner/src/pool.rs with the requests of crates/tryke_runner/src/worker.rs and
--   crates/tryke_runner/src/protocol.rs. Pool.Wire has the requests and the log, Pool.Worker the
--   operations of a worker task from ensure_worker to worker_task's loop, Pool.Worker.State its state.
--   What is outside of the task, the Python process above all, is a parameter that answers each
--   request from the whole log, so that any behaviour of it, crashes included, is an instance. A
--   process is named by the length of the log at its start. Pool.Stderr has the buffer of its standard
--   error.
-- Report: crates/tryke/src/execution.rs, the buffering of results by file and the loops of
--   report_cycle. Report.Buffers has the buffers, Report.Reported what is reported of them. The
--   stream of results from the pool is an argument.
-- Server: crates/tryke_server/src/handler.rs and protocol.rs. Server.Protocol has the messages,
--   Server.Handler the handling of a request, on a Discoverer and with the units of `Schedule`; the other
--   modules are named for what they prove. JSON, the queue, the workers and the clock are a record of
--   functions.
-- Watch: crates/tryke_watcher/src/lib.rs, the queue of file changes, on one state of the file system
--   for each turn of its loop; Watch.Batches is what is proved of it.
-- Command: crates/tryke/src/discovery.rs, the tests that a command selects; Command.WalkRoots and
--   Command.ChangedFirst are what is proved of it. What git prints is an argument.
-- Reporter: crates/tryke_reporter/src/duration.rs, durations of a minute or more.
--
-- A duration is its milliseconds, the unit of the workers' messages, and stands without the bound of
-- the machine type; counts are natural numbers, since a count of list elements cannot overflow. A
-- HashMap is an association list and a HashSet a list of distinct elements, and no order of theirs is
-- used where the source does not sort. The lexer's loop has the length of its input as fuel, since
-- each round takes a character; the parser's nesting has one unit more than there are tokens, since
-- each nested call takes a token; the search of the import graph has as many rounds as files could be
-- queued, since each is queued once. That the fuel is enough is part of the theorems.
--
-- Not modelled: processes, pipes, sockets, files and terminals; Python's syntax tree, which comes from
-- a third-party parser, and what discovery reads from it; TOML and command-line parsing, also
-- third-party; the configuration, the rest of the reporters' output and the loops of watch mode; log messages. The function
-- that shortens a path by the current directory is a parameter of the conversion of results.
pub mod Command
pub mod Discover
pub mod Filter
pub mod Graph
pub mod Paths
pub mod Pool
pub mod Prelude
pub mod Report
pub mod Reporter
pub mod Schedule
pub mod Server
pub mod Types
pub mod Watch
