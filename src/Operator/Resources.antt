-- ===== src/Operator/Resources.antt =====
-- operator/api/v1alpha1: the specs of the custom resources. An `int32` is given by its bits, a number
-- below 2^32.
use false_flag_demo.Base.{ℕ, String, Option, none, some, List}
use false_flag_demo.Config.Ir.{ValueType}
use false_flag_demo.Values.{RawMessage}

-- `RawExtension.Raw`, a byte slice that may be nil.
abbrev pub Raw : Type 0
Raw = Option RawMessage

-- The conversion to `json.RawMessage`, in which nil is the empty text.
abbrev pub raw_message : Raw → RawMessage
raw_message none = ""
raw_message (some text) = text

pub record FlagRule : Type 0 where
  pub id : String
  pub when : Raw
  pub value : Option Raw
  pub rollout_ref : String

pub record FlagSpecBinding : Type 0 where
  pub environment : String
  pub default : Option Raw
  pub rules : Option (List FlagRule)

pub record FlagSpec : Type 0 where
  pub project_slug : String
  pub key : String
  pub name : String
  pub value_type : ValueType
  pub default : Raw
  pub rules : List FlagRule
  pub bindings : List FlagSpecBinding

pub record RolloutVariant : Type 0 where
  pub id : String
  pub weight : ℕ
  pub value : Raw

pub record RolloutPolicy : Type 0 where
  pub project_slug : String
  pub name : String
  pub variants : List RolloutVariant

pub record ProjectSpec : Type 0 where
  pub project_slug : String
  pub display_name : String
  pub config_strategy : String

pub record EnvironmentSpec : Type 0 where
  pub project_slug : String
  pub slug : String
  pub name : String

pub record SegmentSpec : Type 0 where
  pub project_slug : String
  pub key : String
  pub name : String
  pub description : String
  pub predicate : Raw

pub record FlagBindingSpec : Type 0 where
  pub project_slug : String
  pub flag_key : String
  pub environments : List String
  pub overrides : Option Raw
