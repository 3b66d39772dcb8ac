-- ===== src/Eval/Decision.antt =====
-- internal/eval/eval.go: decisions, and `Evaluate`.
pub mod Served
pub mod Faultless
pub mod Leftover
use false_flag_demo.Base.{
  String, Bool, true, false, Option, none, some, List, [], ◌∷◌, if◌then◌else◌,
}
use false_flag_demo.Base.Int.{ℤ}
use false_flag_demo.Base.Result.{Result, ok, err}
use false_flag_demo.Config.Ir.{
  ValueType, boolean, string, number, object, rollout, node, Predicate, Rule, RulesTree, Compiled,
}
use false_flag_demo.Values.{Value, null, Fields, RawMessage}
use false_flag_demo.Values.Services.{Services}
use false_flag_demo.Eval.Lookup.{to_float}
use false_flag_demo.Eval.Match.{match}
use false_flag_demo.Eval.Outcome.{Outcome}
use text.Mathlib.Text.{◌==◌}

pub data Reason : Type 0 where
  default rule_matched rollout_in_bucket rollout_out_of_bucket type_mismatch error : Reason

-- A rule's id is the empty text where no rule decided.
pub record Decision : Type 0 where
  pub value : Value
  pub reason : Reason
  pub rule_id : String
  pub version : ℤ

-- The two errors that `Evaluate` returns.
pub data Failure : Type 0 where
  nil_compiled decoding_default : Failure

-- `none` is a decoding error.
unfoldable pub decode_value : Services → RawMessage → Option Value
decode_value s raw = if raw == "" then some null else s.unmarshal raw

abbrev is_some {ℓ} : {A : Type ℓ} → Option A → Bool
is_some none = false
is_some (some a) = true

unfoldable pub value_matches_type : Services → Value → ValueType → Bool
unfolding to_float
value_matches_type s (Value.bool _) boolean = true
value_matches_type s v boolean = false
value_matches_type s (Value.string _) string = true
value_matches_type s v string = false
value_matches_type s v number = is_some (to_float s v)
value_matches_type s (Value.object _) object = true
value_matches_type s v object = false
value_matches_type s v (ValueType.other _) = false

abbrev reason_for_predicate : Predicate → Reason
reason_for_predicate (node rollout _ _ _) = rollout_in_bucket
reason_for_predicate _ = rule_matched

unfoldable pub reason_for_rule : Rule → Reason
reason_for_rule r = reason_for_predicate r.when

-- The part of the loop's body below the match: the rule fired.
unfoldable pub serve : Services → ℤ → RulesTree → Value → Rule → Decision
unfolding decode_value value_matches_type reason_for_rule
serve s version tree def_value r = elim (decode_value s r.value) [
  | none ↦ record { value = def_value; reason = type_mismatch; rule_id = r.id; version = version }
  | some v ↦
      if value_matches_type s v tree.value_type
      then record { value = v; reason = reason_for_rule r; rule_id = r.id; version = version }
      else record { value = def_value; reason = type_mismatch; rule_id = r.id; version = version }
]

unfoldable pub served_default : ℤ → Value → Decision
served_default version def_value = record {
  value = def_value;
  reason = default;
  rule_id = "";
  version = version;
}

unfoldable pub served_error : ℤ → Value → Rule → Decision
served_error version def_value r = record {
  value = def_value;
  reason = error;
  rule_id = r.id;
  version = version;
}

module _ (s : Services) (ctx : Fields) (version : ℤ) (c : Compiled) (tree : RulesTree)
    (def_value : Value) where
  -- One round of the loop, given what the rest of the loop returns.
  abbrev pub step_rule : Rule → Outcome → Decision → Decision
  step_rule r (_, some _) rest = served_error version def_value r
  step_rule r (false, none) rest = rest
  step_rule r (true, none) rest = serve s version tree def_value r

  -- The loop of `Evaluate`.
  unfoldable pub evaluate_rules : List Rule → Decision
  evaluate_rules [] = served_default version def_value
  evaluate_rules (r ∷ rules) =
      step_rule r (match s ctx c.cel_programs r.when) (evaluate_rules rules)

module _ (s : Services) where
  -- `Evaluate` below its guard against a nil IR.
  unfoldable pub evaluate_tree : Compiled → RulesTree → Fields → ℤ → Result Failure Decision
  unfolding evaluate_rules decode_value
  evaluate_tree c tree ctx version = elim (decode_value s tree.default) [
    | none ↦ err decoding_default
    | some def_value ↦ ok (evaluate_rules s ctx version c tree def_value tree.rules)
  ]

  -- `none` is the nil pointer.
  unfoldable pub evaluate : Option Compiled → Fields → ℤ → Result Failure Decision
  unfolding evaluate_tree
  evaluate none ctx version = err nil_compiled
  evaluate (some c) ctx version = elim c.ir [
    | none ↦ err nil_compiled
    | some tree ↦ evaluate_tree c tree ctx version
  ]
