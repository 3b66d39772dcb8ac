-- ===== src/Checks/Operating.antt =====
-- Runs of internal/operator.
use text.Mathlib.Text.{◌==◌}
use false_flag_demo.Base.{
  String, Option, none, some, ◌≡◌, ◌≢◌, ◌⊎◌, ◌↔◌, refl, List, [], ◌∷◌, arith, All, if◌then◌else◌,
}
use false_flag_demo.Base.Result.{ok}
use false_flag_demo.Base.Text.{StringMap, get, put}
use false_flag_demo.Checks.{on_plan}
use false_flag_demo.Config.Ir.{boolean, Predicate, RulesTree}
use false_flag_demo.Operator.Conditions.{Condition, Code, synced_true}
use false_flag_demo.Operator.Conditions.Upsert.{find_condition, HasUniqueKinds}
use false_flag_demo.Operator.Policies.{validate_rollout_policy, resolve_rollouts}
use false_flag_demo.Operator.Policies.References.{IsResolved, resolve_rollouts-IsResolved}
use false_flag_demo.Operator.Policies.Weights.{HasValue, weights, validate_rollout_policy_iff}
use false_flag_demo.Operator.Resources.{FlagRule, FlagSpec, RolloutPolicy}
use false_flag_demo.Operator.Translate.{pick_rollout_value, ir_for_flag, environment_tree}
use false_flag_demo.Operator.Translate.Heaviest.{IsHeaviest, pick_rollout_value-IsHeaviest}
use false_flag_demo.Operator.Translate.Rules.{
  AreTranslated, HasDefault, HasRules, ir_for_flag-AreTranslated, environment_tree-no_refs,
}
use false_flag_demo.Values.{RawMessage}

abbrev split : RolloutPolicy
split = record {
  project_slug = "shop";
  name = "split";
  variants =
      record { id = "a"; weight = 30; value = some "false" }
      ∷ record { id = "b"; weight = 70; value = some "true" }
      ∷ [];
}

validate_rollout_policy_iff_example :
    (validate_rollout_policy split ≡ ok tt)
    ↔ ((split.variants ≢ []) × All HasValue split.variants × (weights split.variants ≡ 100))
validate_rollout_policy_iff_example =
    validate_rollout_policy_iff split (omega arith, (omega arith, tt)) (omega arith)

pick_rollout_value-IsHeaviest_example :
    (text : RawMessage) × (pick_rollout_value split ≡ some text) × IsHeaviest split.variants text
pick_rollout_value-IsHeaviest_example =
    pick_rollout_value-IsHeaviest split (λ e. cc) (λ e. cc, (λ e. cc, tt))
      (omega arith, (omega arith, tt))

abbrev on_split : FlagRule
on_split = record { id = "split"; when = some "pro"; value = none; rollout_ref = "split" }

abbrev on_value : FlagRule
on_value = record { id = "value"; when = some "pro"; value = some (some "true"); rollout_ref = "" }

abbrev split_flag : FlagSpec
split_flag = record {
  project_slug = "shop";
  key = "flag";
  name = "Flag";
  value_type = boolean;
  default = some "false";
  rules = on_split ∷ on_value ∷ [];
  bindings = [];
}

abbrev value_flag : FlagSpec
value_flag = record split_flag { rules = on_value ∷ [] }

abbrev sample_decode : RawMessage → Option Predicate
sample_decode raw = if raw == "pro" then some on_plan.when else none

abbrev policies : StringMap RolloutPolicy
policies = ("split", split) ∷ []

split_resolves : resolve_rollouts split_flag (some (split ∷ [])) ≡ ok policies
unfolding resolve_rollouts get put
split_resolves = refl

resolve_rollouts-IsResolved_example :
    All (λ r. (r.rollout_ref ≡ "") ⊎ IsResolved split_flag policies r.rollout_ref) split_flag.rules
resolve_rollouts-IsResolved_example =
    resolve_rollouts-IsResolved split_flag (some (split ∷ [])) policies split_resolves

abbrev split_tree : RulesTree
split_tree = record {
  value_type = boolean;
  default = "false";
  rules = record on_plan { id = "split" } ∷ record on_plan { id = "value" } ∷ [];
}

split_translates : ir_for_flag sample_decode (some split_flag) policies none ≡ ok split_tree
unfolding ir_for_flag get
split_translates = refl

ir_for_flag-AreTranslated_example :
    (split_tree.value_type ≡ split_flag.value_type)
    × HasDefault sample_decode policies split_flag none split_tree.default
    × (sources : List FlagRule) × HasRules sample_decode policies split_flag none sources
    × AreTranslated sample_decode policies sources split_tree.rules
ir_for_flag-AreTranslated_example =
    ir_for_flag-AreTranslated sample_decode policies split_flag none split_tree split_translates

abbrev value_tree : RulesTree
value_tree = record split_tree { rules = record on_plan { id = "value" } ∷ [] }

value_published : environment_tree sample_decode value_flag [] "prod" ≡ ok value_tree
unfolding environment_tree get
value_published = refl

environment_tree-no_refs_example : All (λ r. r.rollout_ref ≡ "") value_flag.rules
environment_tree-no_refs_example =
    environment_tree-no_refs sample_decode value_flag [] "prod" value_tree value_published

abbrev earlier : List Condition
earlier = record synced_true { last_transition_time = 5 } ∷ []

one_kind : HasUniqueKinds earlier
unfolding find_condition
one_kind = (refl, tt)

abbrev render : Code → String → String
render code text = text
