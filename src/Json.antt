-- ===== src/Json.antt =====
-- JSON values: `serde_json::Value`. A number is kept as its text. An object keeps the order in which
-- its fields were inserted, since `serde_json/preserve_order` is on in the repository's build.
pub mod Objects
pub mod Maps
use thoughtgate.Base.{String, Bool}

mutual
  pub data Value : Type 0 where
    null : Value
    bool : Bool → Value
    number : String → Value
    string : String → Value
    array : Items → Value
    object : Fields → Value

  pub data Items : Type 0 where
    nil : Items
    cons : Value → Items → Items

  pub data Fields : Type 0 where
    end : Fields
    field : String → Value → Fields → Fields
