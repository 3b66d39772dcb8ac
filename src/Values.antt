-- ===== src/Values.antt =====
-- The dynamic values that internal/eval computes with: Go's `any` as it holds decoded JSON and what
-- an embedding program puts into an evaluation context, and the services of encoding/json, regexp,
-- strconv and cel-go that internal/config and internal/eval call.
pub mod Ieee
pub mod Services
use false_flag_demo.Base.{String, Bool}
use false_flag_demo.Base.Int.{ℤ}
use false_flag_demo.Values.Ieee.{Float64}

-- `null` is the nil interface. A `float32` is given by the binary64 value that it converts to exactly.
-- `array` and `object` are `[]any` and `map[string]any`.
mutual
  pub data Value : Type 0 where
    null : Value
    bool : Bool → Value
    string : String → Value
    float64 : Float64 → Value
    float32 : Float64 → Value
    int : ℤ → Value
    int64 : ℤ → Value
    json_number : String → Value
    array : Items → Value
    object : Fields → Value

  pub data Fields : Type 0 where
    end : Fields
    field : String → Value → Fields → Fields

  pub data Items : Type 0 where
    nil : Items
    cons : Value → Items → Items

-- The text of a JSON value, `json.RawMessage`; the empty text is an absent value.
abbrev pub RawMessage : Type 0
RawMessage = String
