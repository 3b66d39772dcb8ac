-- ===== src/Operator/Translate.antt =====
-- internal/operator/translate: Flag resources to the IR.
pub mod Heaviest
pub mod Rules
use text.Mathlib.Text.{◌==◌}
use false_flag_demo.Base.{
  ℕ, ◌+◌, ◌%◌, ◌^◌, String, Bool, Option, none, some, List, [], ◌∷◌, ltb, if◌then◌else◌,
}
use false_flag_demo.Base.Result.{Result, ok, err, ◌>>=◌}
use false_flag_demo.Base.Text.{StringMap, get}
use false_flag_demo.Config.Ir.{Predicate, Rule, RulesTree}
use false_flag_demo.Operator.Resources.{
  Raw, raw_message, FlagRule, FlagSpecBinding, FlagSpec, RolloutVariant, RolloutPolicy,
}
use false_flag_demo.Values.{RawMessage}

-- One constructor for each error, without its text.
pub data PredicateError : Type 0 where
  predicate_empty unmarshal_predicate_failed : PredicateError

pub data TranslateError : Type 0 where
  flag_is_nil : TranslateError
  bad_when : String → PredicateError → TranslateError
  unknown_rollout : String → String → TranslateError
  no_variants : String → String → TranslateError
  no_value : String → TranslateError

-- `a < b` on `int32`.
abbrev pub lt_int32 : ℕ → ℕ → Bool
lt_int32 a b = ltb ((a + 2 ^ 31) % 2 ^ 32) ((b + 2 ^ 31) % 2 ^ 32)

-- The loop of `pickRolloutValue`.
unfoldable pub heaviest_of : RolloutVariant → List RolloutVariant → RolloutVariant
heaviest_of heaviest [] = heaviest
heaviest_of heaviest (v ∷ variants) =
    heaviest_of (if lt_int32 heaviest.weight v.weight then v else heaviest) variants

abbrev pub zero_variant : RolloutVariant
zero_variant = record { id = ""; weight = 0; value = none }

-- The test after the loop; `first` is `Variants[0]`.
abbrev pub or_first : RolloutVariant → RolloutVariant → Raw → RolloutVariant
or_first heaviest first none = first
or_first heaviest first (some text) = heaviest

-- `none` is the error that there are no variants.
unfoldable pub pick_rollout_value : RolloutPolicy → Option RawMessage
unfolding heaviest_of
pick_rollout_value rp = elim rp.variants [
  | [] ↦ none
  | first ∷ variants ↦
      let heaviest = heaviest_of zero_variant (first ∷ variants) in
      some (raw_message (or_first heaviest first heaviest.value).value)
]

-- `decode` is `json.Unmarshal` into a `Predicate`.
module _ (decode : RawMessage → Option Predicate) where
  abbrev pub decoded_or_error : Option Predicate → Result PredicateError Predicate
  decoded_or_error none = err unmarshal_predicate_failed
  decoded_or_error (some p) = ok p

  unfoldable pub unmarshal_predicate : Raw → Result PredicateError Predicate
  unmarshal_predicate raw =
      if raw_message raw == ""
      then err predicate_empty
      else decoded_or_error (decode (raw_message raw))

  -- `rule %q when: %w`.
  abbrev pub in_when : String → Result PredicateError Predicate → Result TranslateError Predicate
  in_when id (ok p) = ok p
  in_when id (err e) = err (bad_when id e)

  abbrev pub static_value : FlagRule → Option Raw → Result TranslateError RawMessage
  static_value r none = err (no_value r.id)
  static_value r (some raw) = ok (raw_message raw)

  -- The two cases of the switch that give a value, and its default.
  unfoldable pub rule_value : StringMap RolloutPolicy → FlagRule → Result TranslateError RawMessage
  unfolding pick_rollout_value
  rule_value rollouts r =
      if r.rollout_ref == "" then static_value r r.value else (elim (get r.rollout_ref rollouts) [
        | none ↦ err (unknown_rollout r.id r.rollout_ref)
        | some rp ↦ elim (pick_rollout_value rp) [
          | none ↦ err (no_variants r.id rp.name)
          | some value ↦ ok value
        ]
      ])

  unfoldable pub translate_rule : StringMap RolloutPolicy → FlagRule → Result TranslateError Rule
  unfolding unmarshal_predicate rule_value
  translate_rule rollouts r = do
    when ← in_when r.id (unmarshal_predicate r.when)
    value ← rule_value rollouts r
    ok (record { id = r.id; when = when; value = value })

  -- The loop of `IRForFlag`.
  unfoldable pub translate_rules :
      StringMap RolloutPolicy → List FlagRule → Result TranslateError (List Rule)
  unfolding translate_rule
  translate_rules rollouts [] = ok []
  translate_rules rollouts (r ∷ rules) = do
    rule ← translate_rule rollouts r
    rest ← translate_rules rollouts rules
    ok (rule ∷ rest)

  abbrev pub chosen_default : FlagSpec → Option FlagSpecBinding → Raw
  chosen_default flag none = flag.default
  chosen_default flag (some binding) = elim binding.default [ none ↦ flag.default | some raw ↦ raw ]

  abbrev pub chosen_rules : FlagSpec → Option FlagSpecBinding → List FlagRule
  chosen_rules flag none = flag.rules
  chosen_rules flag (some binding) = elim binding.rules [ none ↦ flag.rules | some rules ↦ rules ]

  -- A nil map of rollouts is the empty one; `none` is a nil flag or binding.
  unfoldable pub ir_for_flag :
      Option FlagSpec
      → StringMap RolloutPolicy
      → Option FlagSpecBinding
      → Result TranslateError RulesTree
  unfolding translate_rules
  ir_for_flag none rollouts binding = err flag_is_nil
  ir_for_flag (some flag) rollouts binding = do
    rules ← translate_rules rollouts (chosen_rules flag binding)
    ok (record {
      value_type = flag.value_type;
      default = raw_message (chosen_default flag binding);
      rules = rules;
    })

  -- The binding that `publishAll` of the FlagBinding reconciler makes for an environment, and the
  -- tree that it publishes there: it passes no rollouts.
  unfoldable pub environment_tree :
      FlagSpec → StringMap Raw → String → Result TranslateError RulesTree
  unfolding ir_for_flag
  environment_tree flag overrides env =
      ir_for_flag (some flag) []
        (some (record { environment = env; default = get env overrides; rules = none }))
