-- ===== src/Config/Validate.antt =====
-- internal/config/json.go, cel.go and predicate.go: structural validation.
pub mod WellFormed
use text.Mathlib.Text.{◌==◌}
use false_flag_demo.Base.{Bool, true, false, not, ◌||◌, Option, none, some, List, [], ◌∷◌}
use false_flag_demo.Base.Int.{pos, ltb_ℤ}
use false_flag_demo.Base.Result.{Check, ok, ◌>>◌}
use false_flag_demo.Config.Errors.{
  ConfigError, invalid_ir, invalid_predicate, invalid_value_type, reject_if, for_rule,
}
use false_flag_demo.Config.Ir.{
  ValueType, PredicateKind, eq, neq, in_values, gt, gte, lt, lte, matches, starts_with, rollout,
  all, any, cel, always, segment, unknown, Leaf, Predicate, nil, node, Predicates, end, cons, Rule,
  RulesTree,
}
use false_flag_demo.Values.Services.{Services}

abbrev pub is_nil : Predicate → Bool
is_nil nil = true
is_nil (node _ _ _ _) = false

abbrev pub is_end : Predicates → Bool
is_end end = true
is_end (cons _ _) = false

abbrev pub is_empty {ℓ} : {A : Type ℓ} → List A → Bool
is_empty [] = true
is_empty (_ ∷ _) = false

abbrev pub is_none {ℓ} : {A : Type ℓ} → Option A → Bool
is_none none = true
is_none (some _) = false

-- The case of eq, neq, gt, gte, lt, lte and starts_with.
unfoldable pub check_comparison : Leaf → Check ConfigError
check_comparison p = do
  reject_if (p.attr == "") invalid_predicate
  reject_if (p.value == "") invalid_predicate

unfoldable pub check_in : Leaf → Check ConfigError
check_in p = do
  reject_if (p.attr == "") invalid_predicate
  reject_if (is_empty p.values) invalid_predicate

unfoldable pub check_matches : Services → Leaf → Check ConfigError
check_matches s p = do
  reject_if (p.attr == "" || p.pattern == "") invalid_predicate
  reject_if (is_none (s.compile_regexp p.pattern)) invalid_predicate

unfoldable pub check_rollout : Leaf → Check ConfigError
check_rollout p = do
  reject_if (p.attr == "" || p.salt == "") invalid_predicate
  reject_if (ltb_ℤ p.percent (pos 0) || ltb_ℤ (pos 100) p.percent) invalid_predicate

unfoldable pub check_cel : Bool → Leaf → Check ConfigError
check_cel allow_cel p = do
  reject_if (not allow_cel) invalid_predicate
  reject_if (p.source == "") invalid_predicate

module _ (s : Services) (allow_cel : Bool) where
  unfoldable mutual
    pub validate_predicate : Predicate → Check ConfigError
    validate_predicate nil = reject_if true invalid_predicate
    validate_predicate (node eq p of of_one) = check_comparison p
    validate_predicate (node neq p of of_one) = check_comparison p
    validate_predicate (node gt p of of_one) = check_comparison p
    validate_predicate (node gte p of of_one) = check_comparison p
    validate_predicate (node lt p of of_one) = check_comparison p
    validate_predicate (node lte p of of_one) = check_comparison p
    validate_predicate (node starts_with p of of_one) = check_comparison p
    validate_predicate (node in_values p of of_one) = check_in p
    validate_predicate (node matches p of of_one) = check_matches s p
    validate_predicate (node rollout p of of_one) = check_rollout p
    validate_predicate (node all p of of_one) = do
      reject_if (is_end of) invalid_predicate
      validate_predicates of
    validate_predicate (node any p of of_one) = do
      reject_if (is_end of) invalid_predicate
      validate_predicates of
    validate_predicate (node PredicateKind.not p of of_one) = do
      reject_if (is_nil of_one) invalid_predicate
      validate_predicate of_one
    validate_predicate (node cel p of of_one) = check_cel allow_cel p
    validate_predicate (node always p of of_one) = ok tt
    validate_predicate (node segment p of of_one) =
        reject_if (p.segment_key == "") invalid_predicate
    validate_predicate (node (unknown k) p of of_one) = reject_if true invalid_predicate

    -- The loop over `p.Of`.
    pub validate_predicates : Predicates → Check ConfigError
    validate_predicates end = ok tt
    validate_predicates (cons c rest) = do validate_predicate c; validate_predicates rest

abbrev pub is_known : ValueType → Bool
is_known (ValueType.other _) = false
is_known _ = true

module _ (s : Services) where
  -- The body of the loop of `validateTreeWith`, then the loop.
  unfoldable pub validate_rule_with : Bool → Rule → Check ConfigError
  validate_rule_with allow_cel r = do
    reject_if (r.id == "") invalid_ir
    reject_if (r.value == "") invalid_ir
    reject_if (is_nil r.when) invalid_ir
    for_rule r.id (validate_predicate s allow_cel r.when)

  unfoldable pub validate_rules_with : Bool → List Rule → Check ConfigError
  validate_rules_with allow_cel [] = ok tt
  validate_rules_with allow_cel (r ∷ rules) = do
    validate_rule_with allow_cel r
    validate_rules_with allow_cel rules

  unfoldable pub validate_tree_with : RulesTree → Bool → Check ConfigError
  validate_tree_with tree allow_cel = do
    reject_if (not (is_known tree.value_type)) invalid_value_type
    reject_if (tree.default == "") invalid_ir
    validate_rules_with allow_cel tree.rules

  -- The body of the loop of `validateTree`, then the loop.
  unfoldable pub validate_rule : Rule → Check ConfigError
  validate_rule r = do
    reject_if (r.id == "") invalid_ir
    reject_if (r.value == "") invalid_ir
    reject_if (is_nil r.when) invalid_ir
    for_rule r.id (validate_predicate s false r.when)

  unfoldable pub validate_rules : List Rule → Check ConfigError
  validate_rules [] = ok tt
  validate_rules (r ∷ rules) = do validate_rule r; validate_rules rules

  unfoldable pub validate_tree : RulesTree → Check ConfigError
  validate_tree tree = do
    reject_if (not (is_known tree.value_type)) invalid_value_type
    reject_if (tree.default == "") invalid_ir
    validate_rules tree.rules
