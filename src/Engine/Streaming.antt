-- ===== src/Engine/Streaming.antt =====
-- `Engine::execute_streaming` and `execute_file` of crates/statguardian-engine/src/lib.rs.
use Prim.Native.Nat.{max}
use stat_guardian.Base.{
  ℕ, zero, suc, ◌<◌, ◌^◌, ◌≡◌, refl, String, Option, none, some, List, [], ◌∷◌,
}
use stat_guardian.Base.Panic.{MayPanic, returns, panics, hangs}
use stat_guardian.Stream.Reader.{u64_mod}
use stat_guardian.Io.Errors.{IoResult, ok, err, ◌>>=◌}
use stat_guardian.Io.System.{System}
use stat_guardian.Io.Batches.{Batcher, new, next_batch}
use stat_guardian.Io.Batches.Drain.{after_batch, drain, push_batch, Covers, drain-Covers}

module _ (sys : System) {Report : Type 0} where
  -- `execute` is that of the engine, with the frame of reference, if there is one.
  module _ (execute : sys.Frame → Option sys.Frame → MayPanic Report) where
    -- `read_file` may have another answer for each path.
    unfoldable pub execute_file :
        (read_file : String → IoResult sys.Polars sys.Frame)
        → (path : String) → (reference_path : Option String) → IoResult sys.Polars (MayPanic Report)
    execute_file read_file path none = do df ← read_file path; ok (execute df none)
    execute_file read_file path (some reference_path) = do
      df ← read_file path
      reference ← read_file reference_path
      ok (execute df (some reference))

    -- The report of a batch before those of the batches behind it, which are not run after a panic,
    -- or where the batch does not end.
    abbrev pub push_report :
        MayPanic Report
        → Option (IoResult sys.Polars (MayPanic (List Report)))
        → Option (IoResult sys.Polars (MayPanic (List Report)))
    push_report panics rest = some (ok panics)
    push_report hangs rest = some (ok hangs)
    push_report (returns report) (some (ok (returns reports))) =
        some (ok (returns (report ∷ reports)))
    push_report (returns report) rest = rest

    abbrev pub after_execute :
        IoResult sys.Polars (Option sys.Frame × Batcher sys)
        → (Batcher sys → Option (IoResult sys.Polars (MayPanic (List Report))))
        → Option (IoResult sys.Polars (MayPanic (List Report)))
    after_execute (err e) rest = some (err e)
    after_execute (ok (none, b)) rest = some (ok (returns []))
    after_execute (ok (some batch, b)) rest = push_report (execute batch none) (rest b)

    -- `none` means that the fuel ran out.
    unfoldable pub streaming_loop :
        (fuel : ℕ)
        → (reads : ℕ → IoResult sys.Polars sys.Frame) → Batcher sys
        → Option (IoResult sys.Polars (MayPanic (List Report)))
    unfolding next_batch
    streaming_loop zero reads b = none
    streaming_loop (suc fuel) reads b =
        after_execute (next_batch sys (reads 0) b) (streaming_loop fuel (λ i. reads (suc i)))

    unfoldable pub execute_streaming :
        (fuel : ℕ)
        → (reads : ℕ → IoResult sys.Polars sys.Frame) → (path : String) → (batch_size : ℕ)
        → Option (IoResult sys.Polars (MayPanic (List Report)))
    unfolding streaming_loop new
    execute_streaming fuel reads path batch_size = streaming_loop fuel reads (new path batch_size)

    abbrev report_before : MayPanic Report → MayPanic (List Report) → MayPanic (List Report)
    report_before panics rest = panics
    report_before hangs rest = hangs
    report_before (returns report) panics = panics
    report_before (returns report) hangs = hangs
    report_before (returns report) (returns reports) = returns (report ∷ reports)

    -- The reports of batches, in their order.
    abbrev pub reports_of : List sys.Frame → MayPanic (List Report)
    reports_of [] = returns []
    reports_of (batch ∷ batches) = report_before (execute batch none) (reports_of batches)

    push_report-reports :
        (r : MayPanic Report) (rs : MayPanic (List Report))
        → push_report r (some (ok rs)) ≡ some (ok (report_before r rs))
    push_report-reports panics rs = refl
    push_report-reports hangs rs = refl
    push_report-reports (returns r) panics = refl
    push_report-reports (returns r) hangs = refl
    push_report-reports (returns r) (returns rs) = refl

    push_batch-ok :
        (df : sys.Frame) (rest : Option (IoResult sys.Polars (List sys.Frame)))
        (batches : List sys.Frame)
        → push_batch sys df rest ≡ some (ok batches)
        → (dfs : List sys.Frame) × (rest ≡ some (ok dfs)) × (batches ≡ df ∷ dfs)
    push_batch-ok df none batches h = cc h
    push_batch-ok df (some (err e)) batches h = cc h
    push_batch-ok df (some (ok dfs)) batches h = (dfs, refl, cc h)

    -- Two loops over the same batches.
    after_execute-after_batch :
        (a : IoResult sys.Polars (Option sys.Frame × Batcher sys))
        (rest : Batcher sys → Option (IoResult sys.Polars (List sys.Frame)))
        (rest' : Batcher sys → Option (IoResult sys.Polars (MayPanic (List Report))))
        (batches : List sys.Frame)
        → ((b : Batcher sys) (dfs : List sys.Frame)
            → rest b ≡ some (ok dfs)
            → rest' b ≡ some (ok (reports_of dfs)))
        → after_batch sys a rest ≡ some (ok batches)
        → after_execute a rest' ≡ some (ok (reports_of batches))
    after_execute-after_batch (err e) rest rest' batches later h = cc h
    after_execute-after_batch (ok (none, b)) rest rest' batches later h =
        let empty : batches ≡ [] = cc h in rw empty refl
    after_execute-after_batch (ok (some df, b)) rest rest' batches later h =
        let (dfs, behind, whole) = push_batch-ok df (rest b) batches h in
        rw whole (rw (later b dfs behind) (push_report-reports (execute df none) (reports_of dfs)))

    streaming_loop-drain :
        (fuel : ℕ) (reads : ℕ → IoResult sys.Polars sys.Frame) (b : Batcher sys)
        (batches : List sys.Frame)
        → drain sys fuel reads b ≡ some (ok batches)
        → streaming_loop fuel reads b ≡ some (ok (reports_of batches))
    unfolding streaming_loop drain
    streaming_loop-drain zero reads b batches h = cc h
    streaming_loop-drain (suc fuel) reads b batches h =
        after_execute-after_batch (next_batch sys (reads 0) b) _ _ batches
          (streaming_loop-drain fuel (λ i. reads (suc i))) h

    -- If the first read of the file gives a frame of fewer than 2^63 rows, the streaming execution
    -- ends after at most one call more than there are rows, whatever the file becomes later, with
    -- the reports of batches that hold all rows once and in order, each of the batch size except
    -- the last.
    pub execute_streaming-Covers :
        (path : String) (batch_size : ℕ) (df : sys.Frame)
        (reads : ℕ → IoResult sys.Polars sys.Frame)
        → reads 0 ≡ ok df
        → sys.height df < 2 ^ 63
        → batch_size < u64_mod
        → (batches : List sys.Frame) × (execute_streaming
              (suc (sys.height df))
              reads
              path
              batch_size
            ≡ some (ok (reports_of batches)))
          × Covers sys df (max batch_size 1) 0 batches
    unfolding execute_streaming
    execute_streaming-Covers path batch_size df reads first bounded small =
        let (batches, drained, covered) =
          drain-Covers sys path batch_size df reads first bounded small in
        (
          batches,
          streaming_loop-drain (suc (sys.height df)) reads (new path batch_size) batches drained,
          covered,
        )
