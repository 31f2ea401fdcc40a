-- ===== src/Core/Optimizer/Groups.antt =====
-- `group_by_column`: the checks of each column, in the order of the plan.
use mathlib.Core.List.{append_assoc}
use text.Mathlib.TextEquality.{eq_iff}
use stat_guardian.Base.{
  String, ◌≡◌, refl, ap, ◌∙◌, Option, none, some, List, [], ◌∷◌, ◌++◌, filter, string_eq, ◌==◌,
  if◌then◌else◌, arith, Bool-cases, inl, inr,
}
use stat_guardian.Base.Assoc.{get}
use stat_guardian.Core.Dag.{DagNode, column, ExecutionDag}
use stat_guardian.Core.Optimizer.{push_group, group_nodes, group_by_column}

module _ {F64 : Type 0} where
  -- A group, if there is one, with more checks behind its own.
  abbrev with_more : Option (List (DagNode F64)) → List (DagNode F64) → Option (List (DagNode F64))
  with_more o [] = o
  with_more none (n ∷ ns) = some (n ∷ ns)
  with_more (some old) (n ∷ ns) = some (old ++ (n ∷ ns))

  get-push_group :
      (k c : String) (n : DagNode F64) (groups : List (String × List (DagNode F64)))
      → get k (push_group c n groups)
        ≡ (if c == k then with_more (get k groups) (n ∷ []) else get k groups)
  unfolding get push_group
  get-push_group k c n [] = refl
  get-push_group k c n ((d, ns) ∷ groups) =
      ground (arith, eq_iff d c, eq_iff d k, eq_iff c k, get-push_group k c n groups)

  with_more-cons :
      (o : Option (List (DagNode F64))) (n : DagNode F64) (ns : List (DagNode F64))
      → with_more (with_more o (n ∷ [])) ns ≡ with_more o (n ∷ ns)
  with_more-cons none n [] = refl
  with_more-cons none n (m ∷ ns) = refl
  with_more-cons (some old) n [] = refl
  with_more-cons (some old) n (m ∷ ns) = ap some (append_assoc old (n ∷ []) (m ∷ ns))

  get-group_nodes :
      (k : String) (ns : List (DagNode F64)) (groups : List (String × List (DagNode F64)))
      → get k (group_nodes ns groups) ≡ with_more (get k groups) (filter (λ n. column n == k) ns)
  unfolding group_nodes
  get-group_nodes k [] groups = refl
  get-group_nodes k (n ∷ ns) groups =
      get-group_nodes k ns (push_group (column n) n groups) ∙ elim (Bool-cases (column n == k)) [
        | inl same ↦
            rw (get-push_group, same)
              (with_more-cons (get k groups) n (filter (λ n. column n == k) ns))
        | inr other ↦ rw (get-push_group, other)
      ]

  -- The group of a column holds the plan's checks of that column in their order; a column without
  -- checks has no group.
  get-group_by_column :
      (dag : ExecutionDag F64) (k : String)
      → get k (group_by_column dag) ≡ with_more none (filter (λ n. column n == k) dag.nodes)
  unfolding group_by_column get
  get-group_by_column dag k = get-group_nodes k dag.nodes []
