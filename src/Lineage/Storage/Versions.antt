-- ===== src/Lineage/Storage/Versions.antt =====
-- The numbers of the versions of a warehouse.
use Prim.Native.Nat.{compare, Ordering}
use mathlib.Core.List.Memᴰ
use stat_guardian.Base.{
  ℕ, ◌≤◌, String, ◌≡◌, refl, sym, ◌⊎◌, inl, inr, ◌↔◌, true, none, List, [], ◌∷◌, map, filter, Memᴰ,
  Memᴰ-cons, Memᴰ-nil, Memᴰ-filter, ◌==◌, string_eq, arith,
}
use stat_guardian.Base.Order.{IsOrder, IsOrder-nat, is_le}
use stat_guardian.Base.Sort.{All_at, IsSorted, sort_by-IsSorted, Memᴰ-sort_by}
use stat_guardian.Lineage.Storage.{
  VersionRow, Store, ok, Codec, limited, numbers_of, list_versions, get_version, get_latest_version,
}

-- A version of the warehouse with the number is stored.
abbrev pub IsStored : String → ℕ → Store → Type 0
IsStored warehouse_id n store =
    (row : VersionRow) × Memᴰ row store.versions
    × ((row.warehouse_id == warehouse_id) ≡ true)
    × (row.version_number ≡ n)

descending : ℕ → ℕ → Ordering
descending a b = compare b a

IsOrder-descending : IsOrder descending
unfolding descending
IsOrder-descending = record {
  flips = λ a b. IsOrder-nat.flips b a;
  trans = λ a b c h k. IsOrder-nat.trans c b a k h;
}

descending-le : (a b : ℕ) → is_le (descending a b) ≡ true → b ≤ a
unfolding descending
descending-le a b h = ground arith

-- The rows of the warehouse.
abbrev rows_of : String → Store → List VersionRow
rows_of warehouse_id store = filter (λ row. row.warehouse_id == warehouse_id) store.versions

numbers_of-IsSorted : (w : String) (store : Store) → IsSorted descending (numbers_of w store)
unfolding numbers_of descending
numbers_of-IsSorted w store =
    sort_by-IsSorted descending IsOrder-descending
      (map (λ row. row.version_number) (rows_of w store))

Memᴰ-numbers_of :
    (w : String) (store : Store) (n : ℕ) → Memᴰ n (numbers_of w store) ↔ IsStored w n store
unfolding numbers_of descending
Memᴰ-numbers_of w store n =
    let number = λ (row : VersionRow). row.version_number in
    let numbers = map number (rows_of w store) in
    let here = λ (row : VersionRow). row.warehouse_id == w in
    (
      λ m.
          let (row, inside, e) =
            Memᴰ.of_map number (rows_of w store) ((Memᴰ-sort_by descending n numbers).0 m) in
          let (stored, same) = (Memᴰ-filter here row store.versions).0 inside in
          (row, stored, same, e),
      λ (row, stored, same, e). (Memᴰ-sort_by descending n numbers).1 (
          Memᴰ.cast (sym e)
            (Memᴰ.map number ((Memᴰ-filter here row store.versions).1 (stored, same)))),
    )

List-cases {ℓ} : {A : Type ℓ} (xs : List A) → (xs ≡ []) ⊎ ((x : A) × (ys : List A) × (xs ≡ x ∷ ys))
List-cases [] = inl refl
List-cases (x ∷ xs) = inr (x, xs, refl)

module _ {F64 : Type 0} (codec : Codec F64) where
  -- The latest version of a warehouse is the one that list_versions names first, it is stored, and
  -- no stored version of the warehouse has a greater number; there is none exactly where none is
  -- stored.
  pub get_latest_version-exact :
      (warehouse_id : String) (store : Store)
      → ((list_versions warehouse_id 1 store ≡ [])
          × (get_latest_version codec warehouse_id store ≡ ok none)
          × ((n : ℕ) → ¬ IsStored warehouse_id n store))
        ⊎ ((latest : ℕ) × (list_versions warehouse_id 1 store ≡ latest ∷ [])
            × (get_latest_version codec warehouse_id store
                ≡ get_version codec warehouse_id latest store)
            × IsStored warehouse_id latest store
            × ((n : ℕ) → IsStored warehouse_id n store → n ≤ latest))
  unfolding list_versions limited get_latest_version
  get_latest_version-exact w store =
      let stored = Memᴰ-numbers_of w store in
      elim (List-cases (numbers_of w store)) [
        | inl e ↦
            inl (
              rw e refl,
              rw (e, get_latest_version) refl,
              λ n s. Memᴰ-nil n (rw e at (stored n).1 s),
            )
        | inr (latest, ns, e) ↦
            let sorted : IsSorted descending (latest ∷ ns) =
              rw e at (numbers_of-IsSorted w store) in
            inr (
              latest,
              rw e refl,
              rw (e, get_latest_version) refl,
              (stored latest).0 (rw e (Memᴰ.head refl)),
              λ n s. elim ((Memᴰ-cons n latest ns).0 (rw e at ((stored n).1 s))) [
                | inl same ↦ omega arith
                | inr later ↦
                    descending-le latest n
                      (All_at (λ k. is_le (descending latest k) ≡ true) ns sorted.0 n later)
              ],
            )
      ]
