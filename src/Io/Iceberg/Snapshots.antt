-- ===== src/Io/Iceberg/Snapshots.antt =====
-- Which snapshot of a table is the one at a time.
use mathlib.Core.List.Memᴰ
use stat_guardian.Base.{
  ℤ, leb_int, leb_int_total, leb_int_trans, String, true, ◌⊎◌, inl, inr, none, some, List, [], ◌∷◌,
  ◌≡◌, refl, filter, Memᴰ, Bool-cases,
}
use Prim.Native.String.{◌++◌ as ◌<>◌}
use stat_guardian.Base.{⊎_elim}
use stat_guardian.Base.Sort.{All}
use stat_guardian.Io.Errors.{IoError, IoResult, ok, err}
use stat_guardian.Io.System.{System}
use stat_guardian.Io.Iceberg.Metadata.{
  IcebergSnapshot, IcebergMetadata, unwrap_or_empty, max_by_time, find_snapshot_at_timestamp,
}

-- A snapshot of the list that is not older than any other of it.
abbrev pub IsNewest : List IcebergSnapshot → IcebergSnapshot → Type 0
IsNewest ss s = Memᴰ s ss × All (λ other. leb_int other.timestamp_ms s.timestamp_ms ≡ true) ss

leb_int_self : (a : ℤ) → leb_int a a ≡ true
leb_int_self a = ⊎_elim (λ h. h) (λ h. h) (leb_int_total a a)

skip_second :
    {s b c : IcebergSnapshot} {ss : List IcebergSnapshot} → Memᴰ s (b ∷ ss) → Memᴰ s (b ∷ c ∷ ss)
skip_second m = ⊎_elim Memᴰ.head (λ rest. Memᴰ.tail (Memᴰ.tail rest)) (Memᴰ.cases_cons m)

max_by_time-IsNewest :
    (b : IcebergSnapshot) (ss : List IcebergSnapshot)
    → (s : IcebergSnapshot) × (max_by_time (some b) ss ≡ some s) × IsNewest (b ∷ ss) s
unfolding max_by_time
max_by_time-IsNewest b [] = (b, refl, (Memᴰ.head refl, (leb_int_self b.timestamp_ms, tt)))
max_by_time-IsNewest b (c ∷ ss) = elim (Bool-cases (leb_int b.timestamp_ms c.timestamp_ms)) [
  | inl newer ↦
      let (s, found, (there, (above, rest))) = max_by_time-IsNewest c ss in
      (
        s,
        rw newer found,
        (
          Memᴰ.tail there,
          (leb_int_trans b.timestamp_ms c.timestamp_ms s.timestamp_ms newer above, (above, rest)),
        ),
      )
  | inr older ↦
      let (s, found, (there, (above, rest))) = max_by_time-IsNewest b ss in
      let below : leb_int c.timestamp_ms b.timestamp_ms ≡ true =
        ⊎_elim (λ h. cc (h, older)) (λ h. h) (leb_int_total b.timestamp_ms c.timestamp_ms) in
      (
        s,
        rw older found,
        (
          skip_second there,
          (above, (leb_int_trans c.timestamp_ms b.timestamp_ms s.timestamp_ms below above, rest)),
        ),
      )
]

-- The snapshots that are not after a time.
abbrev pub snapshots_at : ℤ → IcebergMetadata → List IcebergSnapshot
snapshots_at timestamp_ms metadata =
    filter (λ s. leb_int s.timestamp_ms timestamp_ms) (unwrap_or_empty metadata.snapshots)

max_by_time_cases :
    (ss : List IcebergSnapshot)
    → ((ss ≡ []) × (max_by_time none ss ≡ none))
      ⊎ ((s : IcebergSnapshot) × (max_by_time none ss ≡ some s) × IsNewest ss s)
unfolding max_by_time
max_by_time_cases [] = inl (refl, refl)
max_by_time_cases (s ∷ ss) = inr (max_by_time-IsNewest s ss)

module _ (sys : System) (show_int : ℤ → String) where
  abbrev pub IsAnswer :
      List IcebergSnapshot
      → (message : String) → String
      → IoResult sys.Polars IcebergSnapshot
      → Type 0
  IsAnswer ss message table_path answer =
      ((ss ≡ []) × (answer ≡ err (IoError.read_error table_path message)))
      ⊎ ((s : IcebergSnapshot) × (answer ≡ ok s) × IsNewest ss s)

  -- The snapshot of a time is one of those not after it that none of them is newer than; where
  -- there are none, the answer is the error that says so.
  pub find_snapshot_at_timestamp-newest :
      (metadata : IcebergMetadata) (timestamp_ms : ℤ) (table_path : String)
      → IsAnswer
          (snapshots_at timestamp_ms metadata)
          ("no Iceberg snapshot at or before timestamp " <> show_int timestamp_ms)
          table_path
          (find_snapshot_at_timestamp sys show_int metadata timestamp_ms table_path)
  unfolding find_snapshot_at_timestamp
  find_snapshot_at_timestamp-newest metadata timestamp_ms table_path =
      ⊎_elim (λ (empty, nothing). inl (empty, rw nothing refl))
        (λ (s, found, newest). inr (s, rw found refl, newest))
        (max_by_time_cases (snapshots_at timestamp_ms metadata))
