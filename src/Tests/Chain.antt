-- ===== src/Tests/Chain.antt =====
-- The lineage graph of crates/statguardian-lineage on a small warehouse.
use stat_guardian.Base.{String, ◌≡◌, refl, none, some, [], ◌∷◌, string_eq}
use stat_guardian.Lineage.Model.{
  LineageEdge, LineageGraph, new_node, get_downstream, push_unvisited, get_impact_chain, cache_key,
}
use stat_guardian.Lineage.Model.Impact.{IsChain, get_impact_chain-IsChain}

cache_key-new_node :
    cache_key (new_node 0 "customers" "raw" 12 "snowflake" "raw_db" "public" "customers_raw")
    ≡ "customers:raw:v12"
unfolding cache_key new_node
cache_key-new_node = refl

abbrev edge : String → String → LineageEdge
edge source target = record {
  edge_id = "";
  source_node_id = source;
  target_node_id = target;
  join_type = none;
  columns_used = [];
  filter_condition = none;
  version = 1;
  created_at = 0;
  last_modified = none;
  modification_reason = none;
}

-- A diamond with a way back.
abbrev diamond : LineageGraph
diamond = record {
  warehouse_id = "w";
  timestamp = 0;
  nodes = [];
  edges =
      edge "a" "b" ∷ edge "a" "c" ∷ edge "b" "d" ∷ edge "c" "d" ∷ edge "d" "a" ∷ edge "e" "a" ∷ [];
}

diamond_chain : get_impact_chain diamond "a" ≡ some ("a" ∷ "c" ∷ "d" ∷ "b" ∷ [])
unfolding get_impact_chain get_downstream push_unvisited
diamond_chain = refl

get_impact_chain-IsChain_example : IsChain diamond "a" (get_impact_chain diamond "a")
get_impact_chain-IsChain_example = get_impact_chain-IsChain diamond "a"
