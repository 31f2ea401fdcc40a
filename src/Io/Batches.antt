-- ===== src/Io/Batches.antt =====
-- `StreamingBatcher` of crates/statguardian-io/src/lib.rs: a file in batches of rows.
pub mod Drain
use Prim.Native.Nat.{min, max}
use stat_guardian.Base.{
  ℕ, zero, suc, ◌+◌, ◌-◌, String, Bool, true, false, Option, none, some, List, [], ◌∷◌, leb,
}
use stat_guardian.Stream.Reader.{u64}
use stat_guardian.Io.Errors.{IoResult, ok, err, ◌>>=◌}
use stat_guardian.Io.System.{System}

pub record StreamingBatcher (Frame : Type 0) : Type 0 where
  pub path : String
  pub batch_size : ℕ
  pub cached : Option Frame
  pub offset : ℕ

unfoldable pub new : {Frame : Type 0} → String → ℕ → StreamingBatcher Frame
new path batch_size = record {
  path = path;
  batch_size = max batch_size 1;
  cached = none;
  offset = 0;
}

module _ (sys : System) where
  abbrev pub Batcher : Type 0
  Batcher = StreamingBatcher sys.Frame

  -- The batch at the offset, where one is left.
  abbrev pub cut_batch : sys.Frame → Bool → Batcher → Option sys.Frame × Batcher
  cut_batch df true b = (none, b)
  cut_batch df false b =
      let end = min (u64 (b.offset + b.batch_size)) (sys.height df) in
      (some (sys.slice df b.offset (end - b.offset)), record b { offset = end })

  abbrev pub next_of : sys.Frame → Batcher → Option sys.Frame × Batcher
  next_of df b = cut_batch df (leb (sys.height df) b.offset) b

  -- The file is read if it is not cached.
  abbrev pub load :
      IoResult sys.Polars sys.Frame → Batcher → IoResult sys.Polars (sys.Frame × Batcher)
  load read b = elim b.cached [
    | some df ↦ ok (df, b)
    | none ↦ read >>= λ df. ok (df, record b { cached = some df })
  ]

  -- `read` is what `DataReader::read_file` gives at the time of the call.
  unfoldable pub next_batch :
      IoResult sys.Polars sys.Frame → Batcher → IoResult sys.Polars (Option sys.Frame × Batcher)
  next_batch read b = do (df, b') ← load read b; ok (next_of df b')

abbrev pub is_bounded_memory : {Frame : Type 0} → StreamingBatcher Frame → Bool
is_bounded_memory b = false
