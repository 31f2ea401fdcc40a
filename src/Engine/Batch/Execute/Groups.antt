-- ===== src/Engine/Batch/Execute/Groups.antt =====
-- Which checks of a column are run.
use mathlib.Core.List.{append_assoc, append-nil}
use stat_guardian.Base.{◌≡◌, refl, sym, ap, true, false, List, [], ◌∷◌, ◌++◌, arith}
use stat_guardian.Base.Panic.{returns, ◌>>=◌, >>=-returns, flat_map}
use stat_guardian.Core.Dag.{DagNode}
use stat_guardian.Validators.Violation.{Violation, any_blocking}
use stat_guardian.Validators.Schema.Blocking.{any_blocking-append}
use stat_guardian.Validators.Frame.{Floats, Library}
use stat_guardian.Engine.Batch.{execute_node}
use stat_guardian.Engine.Batch.Execute.{run_group}

module _ {F64 : Type 0} (f : Floats F64) (l : Library F64) (df : l.Frame) where
  run_group_done : (nodes : List (DagNode F64)) → run_group f l df true nodes ≡ returns []
  unfolding run_group
  run_group_done [] = refl
  run_group_done (n ∷ ns) = refl

  -- The checks of a column are run in their order up to the first that finds something blocking,
  -- whose findings are kept; those behind it are not run.
  run_group-append :
      (before after : List (DagNode F64)) (node : DagNode F64) (vs ws : List (Violation F64))
      → flat_map (execute_node f l df) before ≡ returns vs
      → any_blocking vs ≡ false
      → execute_node f l df node ≡ returns ws
      → any_blocking ws ≡ true
      → run_group f l df false (before ++ (node ∷ after)) ≡ returns (vs ++ ws)
  unfolding run_group flat_map
  run_group-append [] after node vs ws ran none_blocks found blocks =
      let e : vs ≡ [] = cc ran in
      rw (found, ◌>>=◌)
        (rw blocks (rw (run_group_done after, ◌>>=◌) (rw e (ap returns (append-nil ws)))))
  run_group-append (n ∷ before) after node vs ws ran none_blocks found blocks =
      let run = flat_map (execute_node f l df) before in
      let (us, first, ran') =
        >>=-returns (execute_node f l df n) (λ us. run >>= λ zs. returns (us ++ zs)) ran in
      let (zs, later, both) = >>=-returns run (λ zs. returns (us ++ zs)) ran' in
      let e : vs ≡ us ++ zs = cc both in
      let passes : (any_blocking us ≡ false) × (any_blocking zs ≡ false) =
        ground (arith, any_blocking-append us zs) in
      let rest = run_group-append before after node zs ws later passes.1 found blocks in
      rw (first, ◌>>=◌)
        (rw (passes.0) (rw (rest, ◌>>=◌) (rw e (ap returns (sym (append_assoc us zs ws))))))
