-- ===== src/Lib.antt =====
-- A model of StatGuardian, a validator of data against contracts, with what makes it correct.
--
-- The program reads a contract, compiles it into a plan of checks, runs the plan over data in
-- batches or over a stream of records, and reports what it found. Its parts here:
--
-- - Core: crates/statguardian-core.
--   Ast is src/ast.rs: the contract and its rules. Dag is src/compiler/dag.rs: the checks and the
--   plan. Optimizer is src/compiler/optimizer.rs: `optimize` runs `deduplicate`,
--   `fuse_null_checks` and `sort_by_cost`, and `group_by_column` splits a plan. Compiler is
--   src/compiler/mod.rs: `contract_nodes` are the pushes of `compile` in their order. Windows is
--   src/streaming.rs: the tumbling and the sliding executor over event time. Parser is
--   src/parser/mod.rs over the pairs that pest gives for src/parser/grammar.pest: Tree is those
--   pairs, Words, Fields, Rules and Contract the functions, with `parse_and_compile` of src/lib.rs,
--   and Print the pairs of a contract. Errors is src/error.rs.
-- - Stream: crates/statguardian-stream.
--   Reader is `read_line_capped` of src/ndjson.rs over any `BufRead`, Ndjson is `NdjsonSource`.
--   Json is the values of serde_json. Sanitize is src/sanitize.rs. Report is src/limits.rs,
--   src/error.rs and src/report.rs. Validator is `RunState` of src/validator.rs, and its child Run
--   is `StreamValidator::validate_reader` (`validate_path` and `validate_bytes` in its child
--   Sources): `run_loop` over `next_line`, with `handle_line` for a
--   line and `flush_batch` for a full batch. Agent is src/agent.rs: `aggregate` and `detect_loops`
--   over the events, in its child Guard `AgentGuard::evaluate` and `enforcement`, and in its child
--   Events `AgentEvent::from_json` and `parse_ndjson`.
-- - Lineage: crates/statguardian-lineage. Model is src/model.rs, the graph and its impact chain.
--   Storage is src/storage.rs: a table is a list of rows, `insert_version` and `insert_change` are
--   the two `INSERT OR REPLACE`, and `commit` is the foreign key, where SQLite enforces it.
-- - Validators: crates/statguardian-validators. Violation is what a check finds, in src/lib.rs.
--   Frame is what the code uses of polars, of regex and of `f64`, as records of operations. Schema
--   is src/schema.rs, with the arms of `check_constraints` as functions, and Rules src/rules.rs.
-- - Engine: crates/statguardian-engine. Batch is `execute_node` of src/batch.rs, its child Outliers
--   `detect_outliers`, and its child Execute `BatchExecutor::execute`, which calls the validators,
--   `group_by_column`, the drift engine and `ValidationReport::new`. Run is `run` of src/lib.rs,
--   and Streaming its `execute_file` and `execute_streaming`.
-- - Io: crates/statguardian-io. Reader is `read_file` of src/lib.rs, Formats its readers of single
--   files, Batches `StreamingBatcher` and Rows `RowBuffer`. Delta is src/delta.rs, Cloud
--   src/cloud.rs and Sql src/sql.rs. Iceberg is src/iceberg.rs: Metadata the snapshots, Files the
--   manifests, Reader `IcebergReader`, Steps its paths. System is what all of them use of the file
--   system and of polars, a record of operations, and Paths what they use of `std::path`.
-- - Metrics: crates/statguardian-metrics. Report is src/report.rs.
-- - Stats: crates/statguardian-stats. Hll has the registers of src/hll.rs, for values given by
--   their hashes, since the algorithm of `DefaultHasher` is not specified, and in its child
--   Estimate `cardinality`. Drift is src/drift.rs,
--   Floats the sorting of `f64` that it shares with the engine, and Profiler src/profiler.rs.
-- - Base: what the parts share. Sort is `slice::sort_by`, Dedup is `Vec::dedup` and the filter by
--   a set of seen items, Assoc is a map as an association list, Text is UTF-8 decoding and
--   trimming.
-- - Tests: runs on concrete inputs.
--
-- How code becomes definitions:
--
-- - `f64` is a type parameter `F64`: contracts only carry floats. Two nodes are the same if their
--   `Debug` texts are, which show every field, so equality of floats is that of their texts.
-- - A reader is the list of answers that its `fill_buf` has left: buffers, interrupts, errors.
--   Theorems that ask for `IsClean` have no error ahead; the bounds hold over every reader.
-- - `u64` counts wrap at 2 ^ 64. A `Duration` and a `SystemTime` count nanoseconds, and their own
--   ranges are not modelled. Identifiers such as `window_{n}` are the numbers in them.
-- - A `HashMap` is an association list. No theorem says anything of its order but that closed
--   windows come in it.
-- - What a run calls is the parameter `Calls`: the JSON parser, the data frame of a batch and
--   `Engine::execute`. `TextOps` is the text of a JSON value and the two case mappings. Theorems
--   hold whatever these do. A clock's answers are arguments.
-- - An error, a panic or a loop that does not end is a value: `IoResult`, `Outcome`, `MayPanic`.
--   Sorting by an unwrapped `partial_cmp` panics where a NaN stands among two values or more.
-- - A literal of an `f64` is `literal` of its text. The id, the time and the duration of a report
--   are arguments, and so is the profile of a frame. A `HashMap` of groups comes in the order of
--   its columns' first checks; the report is sorted by column, so no theorem depends on it.
-- - Loops: `next_line` has one round of fuel more than the bytes left, since every round but the
--   last consumes one, and `collect` likewise. The loop of
--   `SlidingWindowExecutor::get_windows_for_event` is given fuel; one round per second since the
--   epoch and two more are enough where the slide is a second or more, and none is enough where
--   it is less. There the source's `u64` counter of slides goes up to 2 ^ 64 first.
-- - The parser of pest is the parameter `pest_parse`, and so is how a float is read (`Numbers`). The
--   text of a pair that has parts is arbitrary. An `unwrap` of nothing is the value `panics`.
-- - `parse_ndjson` has one round more than there are bytes, as `collect` has.
-- - `ks_statistic` has one round per value and one more: a round that takes no value leaves the loop
--   where it is, so without an end in these it has none, and the result is `hangs`.
-- - A reference `&mut` into the map of a tumbling executor is the key of its window: `write_window`
--   is what a caller does through it.
-- - `arrange` of the storage's `Codec` is the order of the rows of a query that names none.
-- - `validate_reader` has one round more than there are bytes, since every round reads a record, and
--   `get_impact_chain` one per edge and two more, since a node is expanded once.
-- - A file system does not change while a table is read, but `execute_streaming` takes what each
--   read of the file would give, as a sequence. It has one round per row and one more, since every
--   round but the last gives a row. The names in a directory come in any order.
-- - The walk over the folder of a table's data has the depth that it may reach as fuel: it ends on
--   a tree that `IsShallow` describes, and does not end where a link leads back into it.
-- - The loop over `next_line` stands for that of its users, who collect or handle each record.
--
-- Not modelled: what pest does with a text, the formats of files, what polars, serde_json and sqlx
-- do, opening a database, the JSON texts of reports, and the bindings.
mod Base
pub mod Core
pub mod Stream
pub mod Lineage
pub mod Validators
pub mod Stats
pub mod Metrics
pub mod Io
pub mod Engine
mod Tests
