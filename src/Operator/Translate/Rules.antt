-- ===== src/Operator/Translate/Rules.antt =====
-- The rules of a translated flag, and which references the translation needs.
use text.Mathlib.Text.{◌==◌ as str_eq}
use false_flag_demo.Base.{
  Bool-cases, Option-cases, sym, ap, ◌∙◌, String, ◌≡◌, ◌≢◌, refl, ◌⊎◌, Option, none, some, inl, inr,
  List, [], ◌∷◌, arith, All, eq_iff,
}
use false_flag_demo.Base.Result.{Result, ok, err, >>=-eq-ok, ok-injective}
use false_flag_demo.Base.Text.{StringMap, get}
use false_flag_demo.Config.Ir.{Predicate, Rule, RulesTree}
use false_flag_demo.Operator.Policies.{resolve_rollouts}
use false_flag_demo.Operator.Policies.References.{IsResolved, resolve_rollouts-IsResolved}
use false_flag_demo.Operator.Resources.{
  Raw, raw_message, FlagRule, FlagSpecBinding, FlagSpec, RolloutPolicy,
}
use false_flag_demo.Operator.Translate.{
  PredicateError, unknown_rollout, unmarshal_predicate, in_when, rule_value, translate_rule,
  translate_rules, static_value, pick_rollout_value, chosen_default, chosen_rules, ir_for_flag,
  environment_tree,
}
use false_flag_demo.Values.{RawMessage}

module _ (decode : RawMessage → Option Predicate) (rollouts : StringMap RolloutPolicy) where
  -- The value of a rule without a reference is its own; that of a rule with one is what the policy
  -- that it names gives, whatever value it has itself.
  abbrev pub HasValue : FlagRule → RawMessage → Type 0
  HasValue r value =
      ((r.rollout_ref ≡ "") × (raw : Raw) × (r.value ≡ some raw) × (value ≡ raw_message raw))
      ⊎ ((r.rollout_ref ≢ "")
          × (rp : RolloutPolicy) × (get r.rollout_ref rollouts ≡ some rp)
          × (pick_rollout_value rp ≡ some value))

  -- The rule has the resource's id, its predicate as it decodes and nothing else, and its value.
  abbrev pub IsTranslated : FlagRule → Rule → Type 0
  IsTranslated r rule =
      (rule.id ≡ r.id) × (decode (raw_message r.when) ≡ some rule.when) × HasValue r rule.value

  -- Rule by rule, in order.
  abbrev pub AreTranslated : List FlagRule → List Rule → Type 0
  AreTranslated [] [] = Unit
  AreTranslated [] (rule ∷ rules) = ⊥
  AreTranslated (r ∷ sources) [] = ⊥
  AreTranslated (r ∷ sources) (rule ∷ rules) = IsTranslated r rule × AreTranslated sources rules

  in_when-eq-ok :
      (id : String) (m : Result PredicateError Predicate) (p : Predicate)
      → in_when decode id m ≡ ok p
      → m ≡ ok p
  in_when-eq-ok id (ok q) p e = ground arith
  in_when-eq-ok id (err f) p e = cc

  unmarshal_predicate-eq-ok :
      (raw : Raw) (p : Predicate)
      → unmarshal_predicate decode raw ≡ ok p
      → decode (raw_message raw) ≡ some p
  unfolding unmarshal_predicate
  unmarshal_predicate-eq-ok raw p e = ground arith

  static_value-eq-ok :
      (r : FlagRule) (o : Option Raw) (value : RawMessage)
      → static_value decode r o ≡ ok value
      → (raw : Raw) × (o ≡ some raw) × (value ≡ raw_message raw)
  static_value-eq-ok r none value e = cc
  static_value-eq-ok r (some raw) value e = (raw, refl, sym (ok-injective e))

  rule_value-HasValue :
      (r : FlagRule) (value : RawMessage)
      → rule_value decode rollouts r ≡ ok value
      → HasValue r value
  unfolding rule_value
  rule_value-HasValue r value e = elim (Bool-cases (str_eq r.rollout_ref "")) [
    | inl bare ↦
        let (raw, own, same) = static_value-eq-ok r r.value value (rw bare at e) in
        inl (ground (arith, eq_iff r.rollout_ref ""), raw, own, same)
    | inr refers ↦ elim (Option-cases (get r.rollout_ref rollouts)) [
      | inl missing ↦ absurd (ground (arith, e))
      | inr (rp, found) ↦ elim (Option-cases (pick_rollout_value rp)) [
        | inl nothing ↦ absurd (ground (arith, e))
        | inr (v, picked) ↦ inr (
          ground (arith, eq_iff r.rollout_ref ""),
          rp,
          found,
          picked ∙ ap some (ok-injective (rw (refers, found, picked) at e)),
        )
      ]
    ]
  ]

  translate_rule-IsTranslated :
      (r : FlagRule) (rule : Rule)
      → translate_rule decode rollouts r ≡ ok rule
      → IsTranslated r rule
  unfolding translate_rule
  translate_rule-IsTranslated r rule e =
      let (when, h, e₁) = >>=-eq-ok (in_when decode r.id (unmarshal_predicate decode r.when)) _ e in
      let (value, k, e₂) = >>=-eq-ok (rule_value decode rollouts r) _ e₁ in
      let decoded = unmarshal_predicate-eq-ok r.when when (in_when-eq-ok r.id _ when h) in
      rw (← ok-injective e₂) (refl, decoded, rule_value-HasValue r value k)

  translate_rules-AreTranslated :
      (sources : List FlagRule) (rules : List Rule)
      → translate_rules decode rollouts sources ≡ ok rules
      → AreTranslated sources rules
  unfolding translate_rules
  translate_rules-AreTranslated [] rules e = rw (← ok-injective e) tt
  translate_rules-AreTranslated (r ∷ sources) rules e =
      let (rule, h, e₁) = >>=-eq-ok (translate_rule decode rollouts r) _ e in
      let (rest, k, e₂) = >>=-eq-ok (translate_rules decode rollouts sources) _ e₁ in
      rw (← ok-injective e₂)
        (translate_rule-IsTranslated r rule h, translate_rules-AreTranslated sources rest k)

  -- The default of the binding, if it has one, or that of the flag.
  abbrev pub HasDefault : FlagSpec → Option FlagSpecBinding → RawMessage → Type 0
  HasDefault flag binding default =
      (((binding ≡ none) ⊎ ((b : FlagSpecBinding) × (binding ≡ some b) × (b.default ≡ none)))
        × (default ≡ raw_message flag.default))
      ⊎ ((b : FlagSpecBinding) × (raw : Raw) × (binding ≡ some b)
          × (b.default ≡ some raw)
          × (default ≡ raw_message raw))

  -- The rules of the binding, if it has any of its own, or those of the flag.
  abbrev pub HasRules : FlagSpec → Option FlagSpecBinding → List FlagRule → Type 0
  HasRules flag binding rules =
      (((binding ≡ none) ⊎ ((b : FlagSpecBinding) × (binding ≡ some b) × (b.rules ≡ none)))
        × (rules ≡ flag.rules))
      ⊎ ((b : FlagSpecBinding) × (binding ≡ some b) × (b.rules ≡ some rules))

  chosen_default-HasDefault :
      (flag : FlagSpec) (binding : Option FlagSpecBinding)
      → HasDefault flag binding (raw_message (chosen_default decode flag binding))
  chosen_default-HasDefault flag none = inl (inl refl, refl)
  chosen_default-HasDefault flag (some b) = elim (Option-cases b.default) [
    | inl missing ↦ inl (inr (b, refl, missing), rw missing refl)
    | inr (raw, there) ↦ inr (b, raw, refl, there, rw there refl)
  ]

  chosen_rules-HasRules :
      (flag : FlagSpec) (binding : Option FlagSpecBinding)
      → HasRules flag binding (chosen_rules decode flag binding)
  chosen_rules-HasRules flag none = inl (inl refl, refl)
  chosen_rules-HasRules flag (some b) = elim (Option-cases b.rules) [
    | inl missing ↦ inl (inr (b, refl, missing), rw missing refl)
    | inr (rules, there) ↦ inr (b, refl, there ∙ rw there refl)
  ]

  ir_for_flag-eq-ok :
      (flag : FlagSpec) (binding : Option FlagSpecBinding) (tree : RulesTree)
      → ir_for_flag decode (some flag) rollouts binding ≡ ok tree
      → (tree.value_type ≡ flag.value_type)
        × (tree.default ≡ raw_message (chosen_default decode flag binding))
        × AreTranslated (chosen_rules decode flag binding) tree.rules
  unfolding ir_for_flag
  ir_for_flag-eq-ok flag binding tree e =
      let (rules, h, e₁) =
        >>=-eq-ok (translate_rules decode rollouts (chosen_rules decode flag binding)) _ e in
      rw (← ok-injective e₁) (refl, refl, translate_rules-AreTranslated _ rules h)

  -- A flag that `IRForFlag` translates becomes a tree of the same value type, whose default and
  -- rules are the binding's, where it has its own, and the flag's otherwise. The rules stand in order,
  -- each with its id and its own predicate, also where it refers to a rollout policy. A rule without
  -- a reference has its own value; one with a reference has the value picked from the policy that it
  -- names, whatever value it has itself.
  pub ir_for_flag-AreTranslated :
      (flag : FlagSpec) (binding : Option FlagSpecBinding) (tree : RulesTree)
      → ir_for_flag decode (some flag) rollouts binding ≡ ok tree
      → (tree.value_type ≡ flag.value_type)
        × HasDefault flag binding tree.default
        × (sources : List FlagRule) × HasRules flag binding sources
        × AreTranslated sources tree.rules
  ir_for_flag-AreTranslated flag binding tree e =
      let (typed, kept, rules) = ir_for_flag-eq-ok flag binding tree e in
      (
        typed,
        rw kept (chosen_default-HasDefault flag binding),
        chosen_rules decode flag binding,
        chosen_rules-HasRules flag binding,
        rules,
      )

  ref_found :
      (r : FlagRule) (value : RawMessage)
      → HasValue r value
      → r.rollout_ref ≢ ""
      → get r.rollout_ref rollouts ≢ none
  ref_found r value (inl (bare, raw, own, same)) ne missing = absurd (ne bare)
  ref_found r value (inr (refers, rp, there, picked)) ne missing = cc

  refs_found :
      (sources : List FlagRule) (rules : List Rule)
      → AreTranslated sources rules
      → All (λ r. r.rollout_ref ≢ "" → get r.rollout_ref rollouts ≢ none) sources
  refs_found [] rules h = tt
  refs_found (r ∷ sources) [] h = absurd h
  refs_found (r ∷ sources) (rule ∷ rules) (h, hs) =
      (ref_found r rule.value h.2, refs_found sources rules hs)

no_refs :
    (sources : List FlagRule)
    → All (λ r. r.rollout_ref ≢ "" → get {V = RolloutPolicy} r.rollout_ref [] ≢ none) sources
    → All (λ r. r.rollout_ref ≡ "") sources
unfolding get
no_refs [] h = tt
no_refs (r ∷ sources) (h, hs) = (ground (arith, eq_iff r.rollout_ref ""), no_refs sources hs)

-- What the FlagBinding reconciler publishes for an environment it can publish only for flags none of
-- whose rules refers to a rollout policy, whatever policies there are.
pub environment_tree-no_refs :
    (decode : RawMessage → Option Predicate) (flag : FlagSpec) (overrides : StringMap Raw)
    (env : String) (tree : RulesTree)
    → environment_tree decode flag overrides env ≡ ok tree
    → All (λ r. r.rollout_ref ≡ "") flag.rules
unfolding environment_tree
environment_tree-no_refs decode flag overrides env tree e =
    let binding : FlagSpecBinding = record {
      environment = env;
      default = get env overrides;
      rules = none;
    } in
    let (typed, kept, rules) = ir_for_flag-eq-ok decode [] flag (some binding) tree e in
    no_refs flag.rules (refs_found decode [] flag.rules tree.rules rules)

-- The error "references unknown RolloutPolicy" needs a reference without a policy.
rules-ne-unknown :
    (decode : RawMessage → Option Predicate) (rollouts : StringMap RolloutPolicy)
    (sources : List FlagRule) (id ref : String)
    → All (λ r. r.rollout_ref ≢ "" → get r.rollout_ref rollouts ≢ none) sources
    → translate_rules decode rollouts sources ≢ err (unknown_rollout id ref)
unfolding translate_rules translate_rule rule_value
rules-ne-unknown decode rollouts [] id ref h = λ e. cc
rules-ne-unknown decode rollouts (r ∷ sources) id ref (h, hs) =
    ground (arith, eq_iff r.rollout_ref "", rules-ne-unknown decode rollouts sources id ref hs)

found_refs :
    (flag : FlagSpec) (out : StringMap RolloutPolicy) (sources : List FlagRule)
    → All (λ r. (r.rollout_ref ≡ "") ⊎ IsResolved flag out r.rollout_ref) sources
    → All (λ r. r.rollout_ref ≢ "" → get r.rollout_ref out ≢ none) sources
found_refs flag out [] h = tt
found_refs flag out (r ∷ sources) (inl empty, hs) =
    (λ ne. absurd (ne empty), found_refs flag out sources hs)
found_refs flag out (r ∷ sources) (inr (rp, there, named, owned), hs) =
    (λ ne. rw there (λ x. cc), found_refs flag out sources hs)

-- The translation of a flag without a binding, with the rollouts that `resolveRollouts` found, does
-- not fail for an unknown policy.
pub resolve_rollouts-ir_for_flag :
    (decode : RawMessage → Option Predicate) (flag : FlagSpec) (items : Option (List RolloutPolicy))
    (out : StringMap RolloutPolicy) (id ref : String)
    → resolve_rollouts flag items ≡ ok out
    → ir_for_flag decode (some flag) out none ≢ err (unknown_rollout id ref)
unfolding ir_for_flag
resolve_rollouts-ir_for_flag decode flag items out id ref e =
    let found = found_refs flag out flag.rules (resolve_rollouts-IsResolved flag items out e) in
    ground (arith, rules-ne-unknown decode out flag.rules id ref found)
