-- ===== src/Stream/Validator/Run/Accounting.antt =====
-- Every record of a run is counted: as validated, as malformed, or as the one behind a limit.
use Prim.Native.Nat.{max}
use stat_guardian.Base.{
  ℕ, ◌+◌, ◌≤◌, ◌<◌, ◌≡◌, ◌⊎◌, Bool, true, false, Option, none, some, [], length,
}
use stat_guardian.Stream.Reader.{Reader, bytes_of, u64_mod, ok}
use stat_guardian.Stream.Reader.Lines.{lines_of}
use stat_guardian.Stream.Ndjson.{RawLine, NdjsonSource, Answer, next_line}
use stat_guardian.Stream.Ndjson
use stat_guardian.Stream.Ndjson.Lines.{IsReady}
use stat_guardian.Stream.Report.{StreamError, StreamResult, done, failed, StreamReport}
use stat_guardian.Stream.Validator.{StreamOptions, RunState}
use stat_guardian.Stream.Validator.Run.{Calls, Batch, LoopEnd}

module _ {Number Frame F64 : Type 0} (calls : Calls Number Frame F64)
    (options : StreamOptions) where
  -- The records that a run has dealt with or holds.
  abbrev pub taken : RunState → Batch calls → ℕ
  taken state batch = state.records_validated + length batch + state.malformed_count

  -- What one more record does.
  record Counted (before : ℕ) (truncated : Bool) (state' : RunState) (batch' : Batch calls)
      : Type 0 where
    more : taken state' batch' ≡ before + 1
    same_end : state'.truncated ≡ truncated
    room : length batch' < max options.limits.batch_size 1

  abbrev Handled : ℕ → Bool → StreamResult (RunState × Batch calls) → Type 0
  Handled before truncated (failed e) = Unit
  Handled before truncated (done (state', batch')) = Counted before truncated state' batch'

  -- A flush counts the batch as validated.
  abbrev Flushed : RunState → Batch calls → StreamResult RunState → Type 0
  Flushed state batch (failed e) = Unit
  Flushed state batch (done state') =
      (taken state' [] ≡ taken state batch) × (state'.truncated ≡ state.truncated)

abbrev seen : Option RawLine → ℕ
seen none = 0
seen (some _) = 1

abbrev lines_left : NdjsonSource → ℕ
lines_left src = length (lines_of (bytes_of src.reader))

-- What a call of `next_line` does to the counts.
record Stepped (src src' : NdjsonSource) (raw : Option RawLine) : Type 0 where
  answer : next_line src ≡ some (ok (raw, src'))
  ready : IsReady src'
  index : src'.record_index ≡ src.record_index + seen raw
  fewer : lines_left src' + seen raw ≤ lines_left src

-- Whether a record was read that is neither validated nor malformed.
abbrev pub owed : Bool → ℕ
owed true = 1
owed false = 0

module _ {Number Frame F64 : Type 0} (calls : Calls Number Frame F64)
    (options : StreamOptions) where
  record Settled (src : NdjsonSource) (state : RunState) (batch : Batch calls) : Type 0 where
    account : taken calls options state batch + owed state.truncated ≡ src.record_index
    small : src.record_index < u64_mod
    room : length batch < max options.limits.batch_size 1

  abbrev Ends : LoopEnd calls options → Type 0
  Ends o =
      ((e : StreamError) × (o ≡ some (failed e)))
      ⊎ ((src : NdjsonSource) × (state : RunState) × (batch : Batch calls) × (o
            ≡ some (done (src, state, batch)))
          × Settled src state batch)

  -- The state of the loop before a round.
  record Running (src : NdjsonSource) (state : RunState) (batch : Batch calls) : Type 0 where
    ready : IsReady src
    account : taken calls options state batch ≡ src.record_index
    small : src.record_index + lines_left src < u64_mod
    on : state.truncated ≡ false
    room : length batch < max options.limits.batch_size 1

  -- A run ends with an error, or with a report in which every record read is validated, malformed,
  -- or the one record that was read behind a limit.
  abbrev pub IsAccounted : Option (StreamResult StreamReport) → Type 0
  IsAccounted o =
      ((e : StreamError) × (o ≡ some (failed e)))
      ⊎ ((report : StreamReport) × (o ≡ some (done report))
          × (report.records_validated + report.malformed_count + owed report.truncated
              ≡ report.records_read))
