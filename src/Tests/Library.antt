-- ===== src/Tests/Library.antt =====
-- A small data frame library for the tests: floats are natural numbers, infinity and a NaN.
use stat_guardian.Base.{
  ℕ, ◌+◌, ◌-◌, ◌*◌, ◌/◌, String, ◌≡◌, refl, ◌⊎◌, inl, inr, Bool, true, false, Option, none, some,
  List, [], ◌∷◌, length, not, ltb, leb, ◌==◌, string_eq, filter, if◌then◌else◌, arith,
}
use stat_guardian.Core.Ast.{FloatOps}
use stat_guardian.Validators.Frame.{Dtype, Floats, Library}
use stat_guardian.Stats.Drift.Ends.{IsIeee, IsNan}
use stat_guardian.Stats.Profiler.Quantiles.{IsLinear}

pub data Float : Type 0 where
  fin : ℕ → Float
  infinite nan : Float

abbrev pub le : Float → Float → Bool
le (fin a) (fin b) = leb a b
le (fin a) infinite = true
le infinite infinite = true
le _ _ = false

abbrev pub lt : Float → Float → Bool
lt (fin a) (fin b) = ltb a b
lt (fin a) infinite = true
lt _ _ = false

abbrev pub lift : (ℕ → ℕ → ℕ) → Float → Float → Float
lift op (fin a) (fin b) = fin (op a b)
lift op _ _ = nan

abbrev pub literal_of : String → Float
literal_of s = if s == "INFINITY" then infinite else if s == "0.0" then fin 0 else fin 1

abbrev pub count_of : Float → ℕ
count_of (fin a) = a
count_of _ = 0

abbrev pub test_ops : FloatOps Float
test_ops = record {
  lt_f64 = lt;
  le_f64 = le;
  sub_f64 = lift (λ a b. a - b);
  abs_f64 = λ a. a;
  epsilon = fin 1;
}

abbrev pub test_floats : Floats Float
test_floats = record {
  ops = test_ops;
  literal = literal_of;
  of_count = fin;
  add_f64 = lift (λ a b. a + b);
  mul_f64 = lift (λ a b. a * b);
  div_f64 = lift (λ a b. a / b);
  min_f64 = λ a b. if le a b then a else b;
  max_f64 = λ a b. if le a b then b else a;
  sqrt_f64 = λ a. a;
  ln_f64 = λ a. a;
  floor_count = count_of;
  round_count = count_of;
  show_f64 = λ _ _. "x";
}

pub data Column : Type 0 where
  numbers : List (Option Float) → Column
  words : List (Option String) → Column

abbrev pub is_null : {A : Type 0} → Option A → Bool
is_null none = true
is_null (some a) = false

abbrev pub nulls_of : Column → ℕ
nulls_of (numbers vs) = length (filter is_null vs)
nulls_of (words vs) = length (filter is_null vs)

abbrev pub rows_of : Column → ℕ
rows_of (numbers vs) = length vs
rows_of (words vs) = length vs

abbrev pub numbers_of : Column → Option (List (Option Float))
numbers_of (numbers vs) = some vs
numbers_of (words vs) = none

abbrev pub words_of : Column → Option (List (Option String))
words_of (numbers vs) = none
words_of (words vs) = some vs

abbrev pub dtype_of : Column → Dtype
dtype_of (numbers vs) = Dtype.float64
dtype_of (words vs) = Dtype.string

abbrev pub height_of : List (String × Column) → ℕ
height_of [] = 0
height_of ((name, c) ∷ cs) = rows_of c

abbrev pub column_of : String → List (String × Column) → Option Column
column_of name [] = none
column_of name ((other, c) ∷ cs) = if other == name then some c else column_of name cs

-- A pattern matches itself.
abbrev pub test_library : Library Float
test_library = record {
  Frame = List (String × Column);
  Series = Column;
  Pattern = String;
  column = λ df name. column_of name df;
  plain_column = λ df name. column_of name df;
  height = height_of;
  dtype = dtype_of;
  show_dtype = λ _. "dtype";
  series_len = rows_of;
  null_count = nulls_of;
  n_unique = λ c. some (rows_of c);
  floats = numbers_of;
  texts = words_of;
  bools = λ _. none;
  mean = λ _. none;
  std = λ _. none;
  minimum = λ _. none;
  maximum = λ _. none;
  compile_pattern = λ p. inr p;
  is_match = λ p s. p == s;
}

test_total : (a b : Float) → le a a ≡ true → le b b ≡ true → (le a b ≡ true) ⊎ (le b a ≡ true)
test_total (fin a) (fin b) h k = ground arith
test_total (fin a) infinite h k = inl refl
test_total infinite (fin b) h k = inr refl
test_total infinite infinite h k = inl refl
test_total nan b h k = cc h
test_total a nan h k = cc k

test_infinite : (a : Float) → le a a ≡ true → le a infinite ≡ true
test_infinite (fin a) h = refl
test_infinite infinite h = refl
test_infinite nan h = cc h

pub test_ieee : IsIeee test_floats
test_ieee = record { total = test_total; infinite = test_infinite }

test_trans : (a b c : Float) → le a b ≡ true → le b c ≡ true → le a c ≡ true
test_trans (fin a) (fin b) (fin c) h k = ground arith
test_trans (fin a) b infinite h k = refl
test_trans infinite infinite infinite h k = refl
test_trans (fin a) infinite (fin c) h k = cc k
test_trans infinite (fin b) c h k = cc h
test_trans infinite infinite (fin c) h k = cc k
test_trans nan b c h k = cc h
test_trans a nan c h k = cc k
test_trans (fin a) (fin b) nan h k = cc k
test_trans (fin a) infinite nan h k = cc k
test_trans infinite infinite nan h k = cc k

test_strict : (a b : Float) → le a a ≡ true → le b b ≡ true → lt a b ≡ not (le b a)
test_strict (fin a) (fin b) h k = ground arith
test_strict (fin a) infinite h k = refl
test_strict infinite (fin b) h k = refl
test_strict infinite infinite h k = refl
test_strict nan b h k = cc h
test_strict a nan h k = cc k

pub test_linear : IsLinear test_floats
test_linear = record { total = test_total; trans = test_trans; strict = test_strict }

pub nan-IsNan : IsNan test_floats nan
nan-IsNan (fin a) = (refl, refl)
nan-IsNan infinite = (refl, refl)
nan-IsNan nan = (refl, refl)

-- The ages of four people, one of them not known, and where they live.
abbrev pub people : List (String × Column)
people =
    ("age", numbers (some (fin 30) ∷ some (fin 17) ∷ none ∷ some (fin 45) ∷ []))
    ∷ ("country", words (some "UK" ∷ some "UK" ∷ some "DE" ∷ some "DE" ∷ []))
    ∷ []
