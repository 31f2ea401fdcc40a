-- ===== src/Core/Dag/Columns.antt =====
-- The columns that a plan refers to.
use Prim.Native.String.{compare}
use mathlib.Core.List.Memᴰ
use text.Mathlib.TextEquality.{path_by_compare}
use stat_guardian.Base.{String, ◌≡◌, sym, ◌↔◌, List, Memᴰ, map, string_eq}
use stat_guardian.Base.Order.{IsOrder-text}
use stat_guardian.Base.Sort.{sort_by, sort_by-IsSorted, Memᴰ-sort_by}
use stat_guardian.Base.Dedup.{Memᴰ-dedup, IsIncreasing, dedup-IsIncreasing}
use stat_guardian.Core.Dag.{DagNode, column, new}

-- Each text comes before all behind it in the order of texts.
abbrev IsAscending : List String → Type 0
IsAscending = IsIncreasing compare IsOrder-text path_by_compare

module _ {F64 : Type 0} where
  -- referenced_columns names exactly the columns of the nodes, in ascending order and each once.
  referenced_columns-exact :
      (nodes : List (DagNode F64))
      → IsAscending (new nodes).referenced_columns
        × ((c : String)
            → Memᴰ c (new nodes).referenced_columns
              ↔ ((n : DagNode F64) × Memᴰ n nodes × (column n ≡ c)))
  unfolding new
  referenced_columns-exact nodes =
      let columns = map column nodes in
      (
        dedup-IsIncreasing compare IsOrder-text path_by_compare (sort_by compare columns)
            (sort_by-IsSorted compare IsOrder-text columns),
        λ c. (
          λ m.
              Memᴰ.of_map column nodes
                ((Memᴰ-sort_by compare c columns).0 ((Memᴰ-dedup c (sort_by compare columns)).0 m)),
          λ (n, m, e).
              (Memᴰ-dedup c (sort_by compare columns)).1
                ((Memᴰ-sort_by compare c columns).1 (Memᴰ.cast (sym e) (Memᴰ.map column m))),
        ),
      )
