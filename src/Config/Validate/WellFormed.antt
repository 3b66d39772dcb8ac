-- ===== src/Config/Validate/WellFormed.antt =====
-- What `validatePredicate` and the two tree validators accept, stated without their control flow.
use false_flag_demo.Base.{
  Bool, true, false, ◌≡◌, ◌≢◌, ◌↔◌, ◌⊎◌, refl, none, List, [], ◌∷◌, arith, eq_iff, All,
}
use false_flag_demo.Base.Int.{pos, ◌≤ℤ◌}
use false_flag_demo.Base.Result.{ok}
use false_flag_demo.Config.Ir.{
  ValueType, boolean, string, number, object, PredicateKind, eq, neq, in_values, gt, gte, lt, lte,
  matches, starts_with, rollout, all, any, cel, always, segment, unknown, Leaf, Predicate, nil,
  node, Predicates, end, cons, Rule, RulesTree,
}
use false_flag_demo.Config.Validate.{
  validate_predicate, validate_predicates, check_comparison, check_in, check_matches, check_rollout,
  check_cel, is_known, validate_rule, validate_rule_with, validate_rules_with, validate_tree_with,
  validate_rules, validate_tree,
}
use false_flag_demo.Values.Services.{Services}

abbrev pub IsKnown : ValueType → Type 0
IsKnown t = (t ≡ boolean) ⊎ ((t ≡ string) ⊎ ((t ≡ number) ⊎ (t ≡ object)))

is_known_iff : (t : ValueType) → (is_known t ≡ true) ↔ IsKnown t
is_known_iff boolean = ground arith
is_known_iff t = ground arith

abbrev pub HasOperands : Leaf → Type 0
HasOperands p = (p.attr ≢ "") × (p.value ≢ "")

module _ (s : Services) (allow_cel : Bool) where
  abbrev mutual
    pub IsWellFormed : Predicate → Type 0
    IsWellFormed nil = ⊥
    IsWellFormed (node eq p of of_one) = HasOperands p
    IsWellFormed (node neq p of of_one) = HasOperands p
    IsWellFormed (node gt p of of_one) = HasOperands p
    IsWellFormed (node gte p of of_one) = HasOperands p
    IsWellFormed (node lt p of of_one) = HasOperands p
    IsWellFormed (node lte p of of_one) = HasOperands p
    IsWellFormed (node starts_with p of of_one) = HasOperands p
    IsWellFormed (node in_values p of of_one) = (p.attr ≢ "") × (p.values ≢ [])
    IsWellFormed (node matches p of of_one) =
        (p.attr ≢ "") × (p.pattern ≢ "") × (s.compile_regexp p.pattern ≢ none)
    IsWellFormed (node rollout p of of_one) =
        (p.attr ≢ "") × (p.salt ≢ "") × (pos 0 ≤ℤ p.percent) × (p.percent ≤ℤ pos 100)
    IsWellFormed (node all p of of_one) = (of ≢ end) × AreWellFormed of
    IsWellFormed (node any p of of_one) = (of ≢ end) × AreWellFormed of
    IsWellFormed (node PredicateKind.not p of of_one) = IsWellFormed of_one
    IsWellFormed (node cel p of of_one) = (allow_cel ≡ true) × (p.source ≢ "")
    IsWellFormed (node always p of of_one) = Unit
    IsWellFormed (node segment p of of_one) = p.segment_key ≢ ""
    IsWellFormed (node (unknown k) p of of_one) = ⊥

    pub AreWellFormed : Predicates → Type 0
    AreWellFormed end = Unit
    AreWellFormed (cons c rest) = IsWellFormed c × AreWellFormed rest

  mutual
    unfolding validate_predicate check_comparison check_in check_matches check_rollout check_cel

    accepts : (p : Predicate) → (validate_predicate s allow_cel p ≡ ok tt) ↔ IsWellFormed p
    accepts nil = ground arith
    accepts (node eq p of of_one) = ground (arith, eq_iff p.attr "", eq_iff p.value "")
    accepts (node neq p of of_one) = ground (arith, eq_iff p.attr "", eq_iff p.value "")
    accepts (node gt p of of_one) = ground (arith, eq_iff p.attr "", eq_iff p.value "")
    accepts (node gte p of of_one) = ground (arith, eq_iff p.attr "", eq_iff p.value "")
    accepts (node lt p of of_one) = ground (arith, eq_iff p.attr "", eq_iff p.value "")
    accepts (node lte p of of_one) = ground (arith, eq_iff p.attr "", eq_iff p.value "")
    accepts (node starts_with p of of_one) = ground (arith, eq_iff p.attr "", eq_iff p.value "")
    accepts (node in_values p of of_one) = ground (arith, eq_iff p.attr "")
    accepts (node matches p of of_one) = ground (arith, eq_iff p.attr "", eq_iff p.pattern "")
    accepts (node rollout p of of_one) = ground (arith, eq_iff p.attr "", eq_iff p.salt "")
    accepts (node all p of of_one) = ground (arith, (all_accepted of).0, (all_accepted of).1)
    accepts (node any p of of_one) = ground (arith, (all_accepted of).0, (all_accepted of).1)
    accepts (node PredicateKind.not p of of_one) =
        ground (arith, (accepts of_one).0, (accepts of_one).1)
    accepts (node cel p of of_one) = ground (arith, eq_iff p.source "")
    accepts (node always p of of_one) = ground arith
    accepts (node segment p of of_one) = ground (arith, eq_iff p.segment_key "")
    accepts (node (unknown k) p of of_one) = ground arith

    all_accepted :
        (of : Predicates) → (validate_predicates s allow_cel of ≡ ok tt) ↔ AreWellFormed of
    all_accepted end = ground arith
    all_accepted (cons c rest) =
        ground (arith, (accepts c).0, (accepts c).1, (all_accepted rest).0, (all_accepted rest).1)

  -- A rule's parts that the validators ask for.
  abbrev pub IsWellFormedRule : Rule → Type 0
  IsWellFormedRule r = (r.id ≢ "") × (r.value ≢ "") × IsWellFormed r.when

  abbrev pub IsWellFormedTree : RulesTree → Type 0
  IsWellFormedTree tree =
      IsKnown tree.value_type × (tree.default ≢ "") × All IsWellFormedRule tree.rules

  rule_accepted : (r : Rule) → (validate_rule_with s allow_cel r ≡ ok tt) ↔ IsWellFormedRule r
  unfolding validate_rule_with
  rule_accepted r =
      ground (arith, eq_iff r.id "", eq_iff r.value "", (accepts r.when).0, (accepts r.when).1)

  rules_accepted :
      (rules : List Rule)
      → (validate_rules_with s allow_cel rules ≡ ok tt) ↔ All IsWellFormedRule rules
  unfolding validate_rules_with
  rules_accepted [] = ground arith
  rules_accepted (r ∷ rules) = ground (
    arith,
    (rule_accepted r).0,
    (rule_accepted r).1,
    (rules_accepted rules).0,
    (rules_accepted rules).1,
  )

  -- The validator of the CEL and TypeScript strategies accepts exactly the well-formed trees: a known
  -- value type, a default, and for each rule an id, a value and a well-formed predicate.
  pub validate_tree_with_iff :
      (tree : RulesTree) → (validate_tree_with s tree allow_cel ≡ ok tt) ↔ IsWellFormedTree tree
  unfolding validate_tree_with
  validate_tree_with_iff tree = ground (
    arith,
    (is_known_iff tree.value_type).0,
    (is_known_iff tree.value_type).1,
    eq_iff tree.default "",
    (rules_accepted tree.rules).0,
    (rules_accepted tree.rules).1,
  )

-- The JSON strategy's copy of the validator is the other one without CEL: the same trees are accepted
-- and the same errors returned.
pub validate_tree-eq-validate_tree_with :
    (s : Services) (tree : RulesTree) → validate_tree s tree ≡ validate_tree_with s tree false
unfolding validate_tree validate_tree_with validate_rules validate_rules_with validate_rule
    validate_rule_with
validate_tree-eq-validate_tree_with s tree = rw (same_rules tree.rules)
  where
    same_rules : (rules : List Rule) → validate_rules s rules ≡ validate_rules_with s false rules
    same_rules [] = refl
    same_rules (r ∷ rules) = rw (same_rules rules)
