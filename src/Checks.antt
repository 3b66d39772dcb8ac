-- ===== src/Checks.antt =====
-- A flag, services and a codec to run the code of internal/config, internal/eval and internal/sdkgo
-- on, and the tests.
pub mod Compiling
pub mod Evaluating
pub mod Client
pub mod Segments
pub mod Operating
pub mod Proxying
pub mod Storing
pub mod Postgres
pub mod Handling
pub mod Listing
pub mod Relaying
pub mod Reconciling
use text.Mathlib.Text.{◌==◌}
use false_flag_demo.Base.{
  Bool, true, false, Option, none, some, [], ◌∷◌, if◌then◌else◌, String, List,
}
use false_flag_demo.Base.Int.{pos}
use false_flag_demo.Config.Compile.{Codec}
use false_flag_demo.Config.Ir.{
  boolean, eq, any, rollout, Leaf, nil, node, end, cons, Rule, RulesTree, Strategy, Compiled,
  PredicateKind,
}
use false_flag_demo.Values.{Value, bool, string, Fields, field, RawMessage}
use false_flag_demo.Values.Services.{Services, CelProgram}

-- The JSON texts "true", "false" and "\"pro\"", and nothing else.
abbrev pub sample_unmarshal : RawMessage → Option Value
sample_unmarshal raw =
    if raw == "true"
    then some (bool true)
    else if raw == "false"
    then some (bool false)
    else if raw == "\"pro\""
    then some (string "pro")
    else none

-- Every CEL expression compiles, to the constant true.
abbrev pub sample_program : CelProgram
sample_program ctx = some (some true)

abbrev pub sample_services : Services
sample_services = record {
  unmarshal = sample_unmarshal;
  marshal = λ v. "";
  int_to_float64 = λ n. record { bits = 0 };
  number_to_float64 = λ t. none;
  compile_regexp = λ pattern. some (λ t. t == pattern);
  cel_env = some (λ source. some (record { is_bool = true; program = some sample_program }));
}

abbrev pub no_operands : Leaf
no_operands = record {
  attr = "";
  value = "";
  values = [];
  pattern = "";
  salt = "";
  percent = pos 0;
  source = "";
  segment_key = "";
}

abbrev pub on_plan : Rule
on_plan = record {
  id = "plan";
  when = node eq (record no_operands { attr = "plan"; value = "\"pro\"" }) end nil;
  value = "true";
}

abbrev pub on_beta : Rule
on_beta = record {
  id = "beta";
  when =
      node any no_operands
        (cons (node PredicateKind.cel (record no_operands { source = "ctx.beta" }) end nil) end)
        nil;
  value = "true";
}

abbrev pub on_half : Rule
on_half = record {
  id = "half";
  when =
      node rollout (record no_operands { attr = "plan"; salt = "half"; percent = pos 50 }) end nil;
  value = "true";
}

-- Without CEL, and with it.
abbrev pub plain_tree : RulesTree
plain_tree = record { value_type = boolean; default = "false"; rules = on_plan ∷ [] }

abbrev pub beta_tree : RulesTree
beta_tree = record {
  value_type = boolean;
  default = "false";
  rules = on_plan ∷ on_beta ∷ on_half ∷ [];
}

abbrev pub plain_flag : Compiled
plain_flag = record { strategy = Strategy.json; ir = some plain_tree; cel_programs = [] }

abbrev pub beta_flag : Compiled
beta_flag = record {
  strategy = Strategy.cel;
  ir = some beta_tree;
  cel_programs = ("ctx.beta", sample_program) ∷ [];
}

abbrev pub sample_decode_tree : RawMessage → Option RulesTree
sample_decode_tree raw =
    if raw == "plain" then some plain_tree else if raw == "beta" then some beta_tree else none

abbrev pub sample_codec : Codec
sample_codec = record {
  decode_tree = sample_decode_tree;
  encode_tree = λ tree. none;
  build = λ source. none;
  run_module = λ js. none;
}

abbrev pub free_user : Fields
free_user = field "plan" (string "free") Fields.end

abbrev pub pro_user : Fields
pro_user = field "plan" (string "pro") Fields.end
