-- ===== src/Values/Services.antt =====
-- encoding/json, regexp, strconv and cel-go, which are not part of the repository, as a parameter.
use false_flag_demo.Base.{String, Bool, Option}
use false_flag_demo.Base.Int.{ℤ}
use false_flag_demo.Values.{Value, Fields, RawMessage}
use false_flag_demo.Values.Ieee.{Float64}

-- A checked CEL expression: whether its output type is exactly bool, and `env.Program` on it.
-- A program maps the variable `ctx` to an error, or to a CEL value: a bool or something else.
abbrev pub CelProgram : Type 0
CelProgram = Fields → Option (Option Bool)

pub record CelAst : Type 0 where
  pub is_bool : Bool
  pub program : Option CelProgram

-- `env.Compile`, with `none` for issues.
abbrev pub CelEnv : Type 0
CelEnv = String → Option CelAst

pub record Services : Type 0 where
  -- `json.Unmarshal` into an `any`
  pub unmarshal : RawMessage → Option Value
  -- `json.Marshal` with its error dropped: the empty text then
  pub marshal : Value → String
  -- `float64(n)` and `json.Number.Float64`
  pub int_to_float64 : ℤ → Float64
  pub number_to_float64 : String → Option Float64
  -- `regexp.Compile`, and `MatchString` of what it returns
  pub compile_regexp : String → Option (String → Bool)
  -- `cel.NewEnv` with the one variable `ctx`
  pub cel_env : Option CelEnv
