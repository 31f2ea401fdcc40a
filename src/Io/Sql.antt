-- ===== src/Io/Sql.antt =====
-- crates/statguardian-io/src/sql.rs: which database an address names, and the frame of its rows.
use Prim.Native.String.{◌++◌ as ◌<>◌}
use stat_guardian.Base.{
  ℕ, suc, String, ◌⊎◌, inl, inr, Bool, true, false, Option, List, [], ◌∷◌, length, map, contains,
  ◌==◌, string_eq, if◌then◌else◌,
}
use stat_guardian.Base.Affix.{before_text}
use stat_guardian.Io.Errors.{IoError, err, ◌>>=◌}
use stat_guardian.Io.System.{System, of_read}
use stat_guardian.Io.Formats.{Read}

pub data SqlBackend : Type 0 where
  postgres mysql sqlite : SqlBackend
  python_layer : String → SqlBackend

abbrev pub backend_of : String → SqlBackend
backend_of scheme =
    if contains ("postgresql" ∷ "postgres" ∷ "pg" ∷ []) scheme
    then SqlBackend.postgres
    else if contains ("mysql" ∷ "mariadb" ∷ []) scheme
    then SqlBackend.mysql
    else if scheme == "sqlite"
    then SqlBackend.sqlite
    else SqlBackend.python_layer scheme

abbrev pub is_rust_native : SqlBackend → Bool
is_rust_native (SqlBackend.python_layer scheme) = false
is_rust_native _ = true

module _ (to_lowercase : String → String) where
  unfoldable pub from_url : String → SqlBackend
  unfolding before_text
  from_url url = backend_of (to_lowercase (before_text url "://"))

-- Which of the features are built in.
pub record SqlFeatures : Type 0 where
  pub sql_postgres : Bool
  pub sql_mysql : Bool
  pub sql_sqlite : Bool

-- What the code uses of tokio and sqlx: the runtime, or its error; the pool of a database; all rows
-- of a query; the columns of a row and the text at an index, if there is one; and the text of the
-- error into which one of polars is made.
pub record Sqlx (Polars : Type 0) : Type 1 where
  pub Pool : Type 0
  pub Row : Type 0
  pub runtime : String ⊎ Unit {0}
  pub connect : SqlBackend → String → String ⊎ Pool
  pub fetch_all : Pool → String → String ⊎ List Row
  pub column_names : Row → List String
  pub value_at : Row → ℕ → Option String
  pub decode_error : Polars → String

module _ (sys : System) (sqlx : Sqlx sys.Polars) where
  -- The columns from an index on.
  abbrev pub columns_from : ℕ → List String → List sqlx.Row → List (String × List (Option String))
  columns_from i [] rows = []
  columns_from i (name ∷ names) rows =
      (name, map (λ row. sqlx.value_at row i) rows) ∷ columns_from (suc i) names rows

  abbrev pub decoded : sys.Polars ⊎ sys.Frame → String ⊎ sys.Frame
  decoded (inl e) = inl (sqlx.decode_error e)
  decoded (inr df) = inr df

  -- The columns are those of the first row.
  unfoldable pub frame_of_rows : List sqlx.Row → String ⊎ sys.Frame
  frame_of_rows [] = inr sys.default_frame
  frame_of_rows (row ∷ rows) =
      decoded
        (sys.new_frame (length (row ∷ rows)) (columns_from 0 (sqlx.column_names row) (row ∷ rows)))

  abbrev pub frame_of_answer : String ⊎ List sqlx.Row → String ⊎ sys.Frame
  frame_of_answer (inl e) = inl e
  frame_of_answer (inr rows) = frame_of_rows rows

  unfoldable pub fetch_to_dataframe : sqlx.Pool → String → String ⊎ sys.Frame
  unfolding frame_of_rows
  fetch_to_dataframe pool query = frame_of_answer (sqlx.fetch_all pool query)

  -- `read_postgres`, `read_mysql` and `read_sqlite`
  unfoldable pub read_database : SqlBackend → (query url : String) → Read sys
  unfolding fetch_to_dataframe
  read_database backend query url = do
    built ← of_read sys "runtime" sqlx.runtime
    pool ← of_read sys url (sqlx.connect backend url)
    of_read sys url (fetch_to_dataframe pool query)

  abbrev pub if_built : Bool → String → Read sys → Read sys
  if_built true message read = read
  if_built false message read = err (IoError.unsupported_format message)

  module _ (features : SqlFeatures) (to_lowercase : String → String) where
    abbrev pub read_from : SqlBackend → (query url : String) → Read sys
    read_from (SqlBackend.python_layer scheme) query url = err (
        IoError.unsupported_format (
          "'"
          <> (scheme
              <> "' is not supported in the Rust SQL layer. Use statguardian.execute_sql() in Python with connectorx installed.")))
    read_from SqlBackend.postgres query url =
        if_built features.sql_postgres
          "PostgreSQL support requires feature `sql-postgres`. Rebuild with: cargo build --features sql-postgres"
          (read_database SqlBackend.postgres query url)
    read_from SqlBackend.mysql query url =
        if_built features.sql_mysql
          "MySQL support requires feature `sql-mysql`. Rebuild with: cargo build --features sql-mysql"
          (read_database SqlBackend.mysql query url)
    read_from SqlBackend.sqlite query url =
        if_built features.sql_sqlite
          "SQLite support requires feature `sql-sqlite`. Rebuild with: cargo build --features sql-sqlite"
          (read_database SqlBackend.sqlite query url)

    unfoldable pub read_sql : (query connection_url : String) → Read sys
    unfolding from_url read_database
    read_sql query connection_url =
        read_from (from_url to_lowercase connection_url) query connection_url
