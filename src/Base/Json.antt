-- ===== src/Base/Json.antt =====
-- What encoding/json decodes into: `interface{}` values, with a number kept as its literal.
use Prim.Native.String.{String}
use mathlib.Core.Bool.{Bool}
use foundryvtt_rest_api_rela.Base.Maps.{Dict}

mutual
  pub data Value : Type 0 where
    null : Value
    bool : Bool → Value
    num : String → Value
    str : String → Value
    arr : Items → Value
    obj : Members → Value

  pub data Items : Type 0 where
    nil : Items
    cons : Value → Items → Items

  pub data Members : Type 0 where
    empty : Members
    member : String → Value → Members → Members

-- `map[string]interface{}`
abbrev pub Object : Type 0
Object = Dict String Value
