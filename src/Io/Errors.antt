-- ===== src/Io/Errors.antt =====
-- `IoError` and `IoResult` of crates/statguardian-io/src/lib.rs.
use stat_guardian.Base.{String, List, [], ◌∷◌}

-- `Polars` stands for `PolarsError`, and the error of the operating system for its text.
pub data IoError (Polars : Type 0) : Type 0 where
  read_error : (path msg : String) → IoError Polars
  unsupported_format : String → IoError Polars
  polars : Polars → IoError Polars
  io : String → IoError Polars

pub data IoResult (Polars : Type 0) (A : Type 0) : Type 0 where
  ok : A → IoResult Polars A
  err : IoError Polars → IoResult Polars A

infixl 5 ◌>>=◌
abbrev pub ◌>>=◌ :
    {Polars A B : Type 0} → IoResult Polars A → (A → IoResult Polars B) → IoResult Polars B
ok a >>= f = f a
err e >>= f = err e

-- `iter().map(f).collect::<Result<Vec<_>, _>>()`
unfoldable pub map_results :
    {Polars A B : Type 0} → (A → IoResult Polars B) → List A → IoResult Polars (List B)
map_results f [] = ok []
map_results f (x ∷ xs) = do y ← f x; ys ← map_results f xs; ok (y ∷ ys)
