-- ===== src/Lineage/Storage/RoundTrip/Changes.antt =====
-- The changes of a version, in whatever order the rows of a query come.
use Prim.Native.String.{◌++◌ as ◌<>◌}
use mathlib.Core.List.{Permᴰ}
use mathlib.Core.List.Permᴰ
use stat_guardian.Base.Sort.{All}
use stat_guardian.Base.{
  String, ◌≡◌, refl, some, List, [], ◌∷◌, ◌++◌, filter, ◌==◌, string_eq, if◌then◌else◌,
}
use stat_guardian.Lineage.Model.{LineageChange, change_name, change_severity_name}
use stat_guardian.Lineage.Storage.{
  ChangeRow, Store, ok, ◌>>=◌, Codec, save_change, read_change, read_changes, get_changes,
}
use stat_guardian.Lineage.Storage.RoundTrip.{
  insert_change-ok, >>=-ok, IsFresh, filter-fresh, filter-appended, read_changes-append,
  read_changes_single,
}

module _ {F64 : Type 0} (codec : Codec F64) where
  read_changes-cons :
      (row : ChangeRow) (rows : List ChangeRow) (c : LineageChange) (cs : List LineageChange)
      → read_change codec row ≡ ok c
      → read_changes codec rows ≡ ok cs
      → read_changes codec (row ∷ rows) ≡ ok (c ∷ cs)
  unfolding read_changes
  read_changes-cons row rows c cs one rest = rw (one, ◌>>=◌) (rw (rest, ◌>>=◌) refl)

  read_changes-inv :
      (row : ChangeRow) (rows : List ChangeRow) (cs : List LineageChange)
      → read_changes codec (row ∷ rows) ≡ ok cs
      → (c : LineageChange) × (ds : List LineageChange) × (read_change codec row ≡ ok c)
        × (read_changes codec rows ≡ ok ds)
        × (cs ≡ c ∷ ds)
  unfolding read_changes
  read_changes-inv row rows cs h =
      let (c, one, rest) =
        >>=-ok (read_change codec row) (λ c. read_changes codec rows >>= λ r. ok (c ∷ r)) h in
      let (ds, others, both) = >>=-ok (read_changes codec rows) (λ r. ok (c ∷ r)) rest in
      (c, ds, one, others, cc both)

  -- In another order the rows are read to the same changes, in another order.
  read_changes-Permᴰ :
      (rows rows' : List ChangeRow) (cs : List LineageChange)
      → Permᴰ rows rows'
      → read_changes codec rows ≡ ok cs
      → (cs' : List LineageChange) × (read_changes codec rows' ≡ ok cs') × Permᴰ cs cs'
  read_changes-Permᴰ rows rows' cs Permᴰ.nil h = (cs, h, Permᴰ.refl cs)
  read_changes-Permᴰ rows rows' cs (Permᴰ.cons {a} {b} {l₁} {l₂} e d) h =
      let (c, ds, one, rest, whole) = read_changes-inv a l₁ cs h in
      let (ds', rest', p) = read_changes-Permᴰ l₁ l₂ ds d rest in
      (c ∷ ds', read_changes-cons b l₂ c ds' (rw (← e) one) rest', rw whole (Permᴰ.cons refl p))
  read_changes-Permᴰ rows rows' cs (Permᴰ.swap {a} {b} {a'} {b'} {l} e e') h =
      let (c, ds, one, rest, whole) = read_changes-inv a (b ∷ l) cs h in
      let (c', ds', one', rest', whole') = read_changes-inv b l ds rest in
      (
        c' ∷ (c ∷ ds'),
        read_changes-cons a' (b' ∷ l) c' (c ∷ ds') (rw (← e') one')
            (read_changes-cons b' l c ds' (rw (← e) one) rest'),
        rw whole (rw whole' (Permᴰ.swap refl refl)),
      )
  read_changes-Permᴰ rows rows' cs (Permᴰ.trans {l₁} {l₂} {l₃} d d') h =
      let (ds, h', p) = read_changes-Permᴰ l₁ l₂ cs d h in
      let (ds', h'', p') = read_changes-Permᴰ l₂ l₃ ds d' h' in (ds', h'', Permᴰ.trans p p')

  -- If SQLite gives the rows of a query in some order, each once, a change whose texts can be read
  -- back, whose id is not taken and whose table and type have no change in its version yet is,
  -- once saved, read with the changes that were there, each as often as before, and no other, in
  -- some order.
  pub get_changes-save_change :
      (uuid version_id : String) (change : LineageChange) (store : Store) (cs : List LineageChange)
      {store' : Store}
      → ((rows : List ChangeRow) → Permᴰ (codec.arrange rows) rows)
      → codec.read_time (codec.write_time change.changed_at) ≡ some change.changed_at
      → (s : String) → codec.write_tables change.tables_affected ≡ some s
      → codec.read_tables s ≡ some change.tables_affected
      → All (IsFresh (version_id <> "_" <> uuid) version_id change) store.changes
      → get_changes codec version_id store ≡ ok cs
      → save_change codec uuid change version_id store ≡ ok store'
      → (cs' : List LineageChange) × (get_changes codec version_id store' ≡ ok cs')
        × Permᴰ (cs ++ change ∷ []) cs'
  unfolding save_change get_changes
  get_changes-save_change uuid version_id change store cs {store'} arranges time s tw tr fresh found
        saved =
      let row : ChangeRow = record {
        change_id = version_id <> "_" <> uuid;
        version_id = version_id;
        change_type = change_name change.change_type;
        source_table = change.source_table;
        target_table = change.target_table;
        change_reason = change.change_reason;
        changed_at = codec.write_time change.changed_at;
        changed_by = change.changed_by;
        tables_affected_json = s;
        severity = change_severity_name change.severity;
        propagates_schema_changes = if change.propagates_schema_changes then 1 else 0;
      } in
      let e = insert_change-ok row store (rw tw at saved) in
      let old = filter (λ c. c.version_id == version_id) store.changes in
      let (ds, read, p) = read_changes-Permᴰ (codec.arrange old) old cs (arranges old) found in
      let appended =
        read_changes-append codec old (row ∷ []) ds (change ∷ []) read
          (read_changes_single codec row change refl refl refl refl refl refl refl time tr) in
      let (cs', read', p') =
        read_changes-Permᴰ (old ++ row ∷ []) (codec.arrange (old ++ row ∷ [])) (ds ++ change ∷ [])
          (Permᴰ.symm (arranges (old ++ row ∷ []))) appended in
      (
        cs',
        rw e (
            rw (filter-fresh row change store.changes refl refl fresh)
              (rw (filter-appended row store.changes) read')),
        Permᴰ.trans (Permᴰ.append_right (change ∷ []) p) p',
      )
