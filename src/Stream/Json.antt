-- ===== src/Stream/Json.antt =====
-- A `serde_json::Value`. A map's entries stand in the order of its iteration.
use stat_guardian.Base.{String, Bool}

mutual
  pub data Value (Number : Type 0) : Type 0 where
    null : Value Number
    boolean : Bool → Value Number
    number : Number → Value Number
    string : String → Value Number
    array : Items Number → Value Number
    object : Fields Number → Value Number

  pub data Items (Number : Type 0) : Type 0 where
    nil : Items Number
    cons : Value Number → Items Number → Items Number

  pub data Fields (Number : Type 0) : Type 0 where
    end : Fields Number
    field : (key : String) → Value Number → Fields Number → Fields Number
