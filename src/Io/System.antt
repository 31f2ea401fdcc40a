-- ===== src/Io/System.antt =====
-- What crates/statguardian-io uses of the file system and of polars, as a record of operations.
use stat_guardian.Base.{ℕ, String, Bool, ◌⊎◌, inl, inr, Option, List}
use stat_guardian.Io.Errors.{IoError, IoResult, ok, err}

-- Left is an error: of the operating system its text, of polars its value. `open_file` gives the handle
-- of a file; the five readers take one, and `json_bytes` takes the bytes. The `scan` functions are
-- the lazy readers, with an error of their plan, and `collect` runs a plan. `read_dir` gives the
-- names that could be read, in the order of the directory. `default_frame` is
-- `DataFrame::default()`.
pub record System : Type 1 where
  pub Frame : Type 0
  pub Polars : Type 0
  pub File : Type 0
  pub Plan : Type 0
  pub exists : String → Bool
  pub is_dir : String → Bool
  pub read_dir : String → String ⊎ List String
  pub read_to_string : String → String ⊎ String
  pub file_len : String → String ⊎ ℕ
  pub open_file : String → String ⊎ File
  pub parquet_reader : File → Polars ⊎ Frame
  pub csv_reader : File → Polars ⊎ Frame
  pub json_reader : File → Polars ⊎ Frame
  pub ipc_reader : File → Polars ⊎ Frame
  pub avro_reader : File → Polars ⊎ Frame
  pub json_bytes : List ℕ → Polars ⊎ Frame
  pub scan_parquet : String → String ⊎ Plan
  pub scan_csv : String → String ⊎ Plan
  pub scan_ndjson : String → String ⊎ Plan
  pub scan_ipc : String → String ⊎ Plan
  pub collect_plan : Plan → Polars ⊎ Frame
  pub height : Frame → ℕ
  pub slice : Frame → (offset len : ℕ) → Frame
  pub vstack : Frame → Frame → Polars ⊎ Frame
  pub default_frame : Frame
  pub new_frame : ℕ → List (String × List (Option String)) → Polars ⊎ Frame

module _ (sys : System) where
  -- `map_err(IoError::Polars)`
  abbrev pub of_polars : {A : Type 0} → sys.Polars ⊎ A → IoResult sys.Polars A
  of_polars (inl e) = err (IoError.polars e)
  of_polars (inr a) = ok a

  -- `map_err(|e| IoError::ReadError { path, msg: e.to_string() })`
  abbrev pub of_read : {A : Type 0} → String → String ⊎ A → IoResult sys.Polars A
  of_read path (inl msg) = err (IoError.read_error path msg)
  of_read path (inr a) = ok a

  -- `map_err(IoError::Io)`
  abbrev pub of_io : {A : Type 0} → String ⊎ A → IoResult sys.Polars A
  of_io (inl msg) = err (IoError.io msg)
  of_io (inr a) = ok a
