-- ===== src/Io/Formats.antt =====
-- The readers of single files in `DataReader` of crates/statguardian-io/src/lib.rs, and the frames
-- of many files as one.
use stat_guardian.Base.{ℕ, String, List, [], ◌∷◌}
use stat_guardian.Io.Errors.{IoError, IoResult, ok, err, ◌>>=◌, map_results}
use stat_guardian.Io.System.{System, of_polars, of_read}

module _ (sys : System) where
  abbrev pub Read : Type 0
  Read = IoResult sys.Polars sys.Frame

  unfoldable pub open_path : String → IoResult sys.Polars sys.File
  open_path path = of_read sys path (sys.open_file path)

  unfoldable pub read_parquet : String → Read
  unfolding open_path
  read_parquet path = do file ← open_path path; of_polars sys (sys.parquet_reader file)

  unfoldable pub read_csv : String → Read
  unfolding open_path
  read_csv path = do file ← open_path path; of_polars sys (sys.csv_reader file)

  unfoldable pub read_json : String → Read
  unfolding open_path
  read_json path = do file ← open_path path; of_polars sys (sys.json_reader file)

  unfoldable pub read_ipc : String → Read
  unfolding open_path
  read_ipc path = do file ← open_path path; of_polars sys (sys.ipc_reader file)

  unfoldable pub read_avro : String → Read
  unfolding open_path
  read_avro path = do file ← open_path path; of_polars sys (sys.avro_reader file)

  unfoldable pub read_orc : String → Read
  read_orc path = err (
      IoError.unsupported_format
        "ORC is not supported: the underlying Polars engine (0.44) has no ORC reader. Convert to Parquet (e.g. via `pyarrow` or `duckdb`) and read that instead.")

  unfoldable pub from_json_bytes : List ℕ → Read
  from_json_bytes bytes = of_polars sys (sys.json_bytes bytes)

  -- `try_fold` of `vstack_mut`
  unfoldable pub stack_from : sys.Frame → List sys.Frame → Read
  stack_from acc [] = ok acc
  stack_from acc (df ∷ dfs) = do stacked ← of_polars sys (sys.vstack acc df); stack_from stacked dfs

  unfoldable pub vstack_all : List sys.Frame → Read
  unfolding stack_from
  vstack_all [] = ok sys.default_frame
  vstack_all (df ∷ dfs) = stack_from df dfs

  unfoldable pub read_and_concat : List String → Read
  unfolding map_results read_parquet vstack_all
  read_and_concat paths = do dfs ← map_results read_parquet paths; vstack_all dfs
