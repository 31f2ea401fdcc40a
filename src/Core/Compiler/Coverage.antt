-- ===== src/Core/Compiler/Coverage.antt =====
-- Which checks a compiled contract makes.
use mathlib.Core.List.Memᴰ
use mathlib.Core.Logic.Iff
use stat_guardian.Base.{
  String, ◌≡◌, sym, ap, ◌↔◌, ◌⊎◌, inl, inr, ⊎_elim, Option, none, some, List, [], ◌∷◌, map, Memᴰ,
  Memᴰ-cons, Any, Any-nil, Any-cons, ⊎_iff, Memᴰ-append, Memᴰ-nil,
}
use stat_guardian.Core.Ast.{
  type_name, Constraint, FieldDef, Severity, QualityRule, StatsRule, AnomalyRule, DataContract,
}
use stat_guardian.Core.Dag.{DagNode, type_check, profile}
use stat_guardian.Core.Compiler.{
  has_coerce, constraint_node, push_node, constraint_nodes, field_nodes, schema_nodes, quality_node,
  stats_node, anomaly_node, contract_nodes,
}

module _ {F64 : Type 0} where
  -- Why a contract asks for a check.
  pub data Demands (c : DataContract F64) (n : DagNode F64) : Type 0 where
    of_field : (f : FieldDef F64) → Memᴰ f c.schema → n ≡ profile f.name → Demands c n
    of_type :
        (f : FieldDef F64)
        → Memᴰ f c.schema
        → n ≡ type_check f.name (type_name f.data_type) (has_coerce f.constraints) Severity.blocking
        → Demands c n
    of_constraint :
        (f : FieldDef F64) (k : Constraint F64)
        → Memᴰ f c.schema
        → Memᴰ k f.constraints
        → constraint_node f.name k ≡ some n
        → Demands c n
    of_quality : (r : QualityRule F64) → Memᴰ r c.quality_rules → n ≡ quality_node r → Demands c n
    of_stats : (r : StatsRule F64) → Memᴰ r c.stats_rules → n ≡ stats_node r → Demands c n
    of_anomaly : (r : AnomalyRule) → Memᴰ r c.anomaly_rules → n ≡ anomaly_node r → Demands c n

  Memᴰ-push_node :
      (n : DagNode F64) (o : Option (DagNode F64)) (ns : List (DagNode F64))
      → Memᴰ n (push_node o ns) ↔ ((o ≡ some n) ⊎ Memᴰ n ns)
  unfolding push_node
  Memᴰ-push_node n none ns = (inr, ⊎_elim (λ e. cc) (λ m. m))
  Memᴰ-push_node n (some m) ns =
      Iff.trans (Memᴰ-cons n m ns) (⊎_iff (λ e. ap some (sym e), λ e. cc) Iff.rfl)

  Memᴰ-constraint_nodes :
      (n : DagNode F64) (col : String) (ks : List (Constraint F64))
      → Memᴰ n (constraint_nodes col ks) ↔ Any (λ k. constraint_node col k ≡ some n) ks
  unfolding constraint_nodes
  Memᴰ-constraint_nodes n col [] = (λ m. absurd (Memᴰ-nil n m), λ a. absurd (Any-nil _ a))
  Memᴰ-constraint_nodes n col (k ∷ ks) =
      Iff.trans (Memᴰ-push_node n (constraint_node col k) (constraint_nodes col ks))
        (Iff.trans (⊎_iff Iff.rfl (Memᴰ-constraint_nodes n col ks)) (Iff.symm (Any-cons _ k ks)))

  -- What one field asks for.
  abbrev FieldDemands : DagNode F64 → FieldDef F64 → Type 0
  FieldDemands n f =
      (n ≡ profile f.name)
      ⊎ (n ≡ type_check f.name (type_name f.data_type) (has_coerce f.constraints) Severity.blocking)
      ⊎ Any (λ k. constraint_node f.name k ≡ some n) f.constraints

  Memᴰ-field_nodes :
      (n : DagNode F64) (f : FieldDef F64) → Memᴰ n (field_nodes f) ↔ FieldDemands n f
  unfolding field_nodes
  Memᴰ-field_nodes n f = Iff.trans (Memᴰ-cons n _ _) (
      ⊎_iff Iff.rfl (
        Iff.trans (Memᴰ-cons n _ _) (⊎_iff Iff.rfl (Memᴰ-constraint_nodes n f.name f.constraints))))

  Memᴰ-schema_nodes :
      (n : DagNode F64) (fs : List (FieldDef F64))
      → Memᴰ n (schema_nodes fs) ↔ Any (FieldDemands n) fs
  unfolding schema_nodes
  Memᴰ-schema_nodes n [] = (λ m. absurd (Memᴰ-nil n m), λ a. absurd (Any-nil _ a))
  Memᴰ-schema_nodes n (f ∷ fs) = Iff.trans (Memᴰ-append n (field_nodes f) (schema_nodes fs)) (
      Iff.trans (⊎_iff (Memᴰ-field_nodes n f) (Memᴰ-schema_nodes n fs))
        (Iff.symm (Any-cons _ f fs)))

  Memᴰ-map :
      {B : Type 0} (g : B → DagNode F64) (n : DagNode F64) (xs : List B)
      → Memᴰ n (map g xs) ↔ Any (λ x. n ≡ g x) xs
  Memᴰ-map g n xs = (
    λ m. let (x, there, e) = Memᴰ.of_map g xs m in (x, there, sym e),
    λ (x, there, e). Memᴰ.cast e (Memᴰ.map g there),
  )

  pub Memᴰ-contract_nodes :
      (c : DataContract F64) (n : DagNode F64) → Memᴰ n (contract_nodes c) ↔ Demands c n
  unfolding contract_nodes
  Memᴰ-contract_nodes c n = (λ m. sort_out (parts.0 m), λ d. parts.1 (place d))
    where
      parts : Memᴰ n (contract_nodes c) ↔ (
          Any (FieldDemands n) c.schema
          ⊎ Any (λ r. n ≡ quality_node r) c.quality_rules
          ⊎ Any (λ r. n ≡ stats_node r) c.stats_rules
          ⊎ Any (λ r. n ≡ anomaly_node r) c.anomaly_rules)
      parts = Iff.trans (Memᴰ-append n (schema_nodes c.schema) _) (
          ⊎_iff (Memᴰ-schema_nodes n c.schema) (
            Iff.trans (Memᴰ-append n (map quality_node c.quality_rules) _) (
              ⊎_iff (Memᴰ-map quality_node n c.quality_rules) (
                Iff.trans (Memᴰ-append n (map stats_node c.stats_rules) _) (
                  ⊎_iff (Memᴰ-map stats_node n c.stats_rules)
                    (Memᴰ-map anomaly_node n c.anomaly_rules))))))

      sort_out :
          Any (FieldDemands n) c.schema
            ⊎ Any (λ r. n ≡ quality_node r) c.quality_rules
            ⊎ Any (λ r. n ≡ stats_node r) c.stats_rules
            ⊎ Any (λ r. n ≡ anomaly_node r) c.anomaly_rules
          → Demands c n
      sort_out (inl (f, m, inl e)) = of_field f m e
      sort_out (inl (f, m, inr (inl e))) = of_type f m e
      sort_out (inl (f, m, inr (inr (k, there, e)))) = of_constraint f k m there e
      sort_out (inr (inl (r, m, e))) = of_quality r m e
      sort_out (inr (inr (inl (r, m, e)))) = of_stats r m e
      sort_out (inr (inr (inr (r, m, e)))) = of_anomaly r m e

      place :
          Demands c n
          → Any (FieldDemands n) c.schema
            ⊎ Any (λ r. n ≡ quality_node r) c.quality_rules
            ⊎ Any (λ r. n ≡ stats_node r) c.stats_rules
            ⊎ Any (λ r. n ≡ anomaly_node r) c.anomaly_rules
      place (of_field f m e) = inl (f, m, inl e)
      place (of_type f m e) = inl (f, m, inr (inl e))
      place (of_constraint f k m there e) = inl (f, m, inr (inr (k, there, e)))
      place (of_quality r m e) = inr (inl (r, m, e))
      place (of_stats r m e) = inr (inr (inl (r, m, e)))
      place (of_anomaly r m e) = inr (inr (inr (r, m, e)))
