-- ===== src/Eval/Decision/Served.antt =====
-- What `Evaluate` may serve, and why.
use false_flag_demo.Base.{
  inl, inr, Option-cases, ◌≡◌, ◌≢◌, refl, sym, ap, ◌∙◌, ◌⊎◌, ◌↔◌, true, false, some, List, [], ◌∷◌,
  ◌++◌, arith, All,
}
use false_flag_demo.Base.Int.{ℤ}
use false_flag_demo.Base.Result.{ok, ok-injective}
use false_flag_demo.Config.Ir.{Rule, RulesTree, Compiled}
use false_flag_demo.Values.{Value, Fields}
use false_flag_demo.Values.Services.{Services, CelProgram}
use false_flag_demo.Base.Text.{StringMap}
use false_flag_demo.Eval.Match.{match}
use false_flag_demo.Eval.Outcome.{answer}
use false_flag_demo.Eval.Decision.{
  default, rule_matched, rollout_in_bucket, type_mismatch, error, Decision, decode_value,
  value_matches_type, serve, served_default, served_error, evaluate_rules, evaluate,
}

-- The decision carries a rule's value, of the declared type, or the default.
abbrev pub IsTyped : Services → RulesTree → Value → Decision → Type 0
IsTyped s tree def_value d =
    (((d.reason ≡ rule_matched) ⊎ (d.reason ≡ rollout_in_bucket))
      × (value_matches_type s d.value tree.value_type ≡ true))
    ⊎ (((d.reason ≡ default) ⊎ ((d.reason ≡ type_mismatch) ⊎ (d.reason ≡ error)))
        × (d.value ≡ def_value))

-- The rule's predicate does not fire, and raises no error.
abbrev pub IsQuiet : Services → Fields → StringMap CelProgram → Rule → Type 0
IsQuiet s ctx programs r = match s ctx programs r.when ≡ answer false

module _ (s : Services) (ctx : Fields) (version : ℤ) (c : Compiled) (tree : RulesTree)
    (def_value : Value) where
  evaluate_rules-append :
      (quiet rest : List Rule)
      → All (IsQuiet s ctx c.cel_programs) quiet
      → evaluate_rules s ctx version c tree def_value (quiet ++ rest)
        ≡ evaluate_rules s ctx version c tree def_value rest
  unfolding evaluate_rules
  evaluate_rules-append [] rest h = refl
  evaluate_rules-append (r ∷ quiet) rest (h, hs) = rw h (evaluate_rules-append quiet rest hs)

  -- What the loop does at a rule that is not quiet depends on neither the rules behind it nor the
  -- rules and the IR that the tree and the flag hold.
  evaluate_rules_loud :
      (r : Rule) (later : List Rule)
      → ¬ IsQuiet s ctx c.cel_programs r
      → evaluate_rules s ctx version c tree def_value (r ∷ later)
        ≡ evaluate_rules s ctx version
            (record c { ir = some (record tree { rules = r ∷ [] }) })
            (record tree { rules = r ∷ [] })
            def_value
            (r ∷ [])
  unfolding evaluate_rules serve served_error
  evaluate_rules_loud r later n = ground arith

  serve-ne-default : (r : Rule) → (serve s version tree def_value r).reason ≢ default
  unfolding serve
  serve-ne-default r = ground arith

  default-iff-IsQuiet :
      (rules : List Rule)
      → ((evaluate_rules s ctx version c tree def_value rules).reason ≡ default)
        ↔ All (IsQuiet s ctx c.cel_programs) rules
  unfolding evaluate_rules served_default served_error
  default-iff-IsQuiet [] = (λ _. tt, λ _. refl)
  default-iff-IsQuiet (r ∷ rules) =
      ground
        (arith, serve-ne-default r, (default-iff-IsQuiet rules).0, (default-iff-IsQuiet rules).1)

module _ (s : Services) (ctx : Fields) (version : ℤ) (c : Compiled) (tree : RulesTree)
    (def_value : Value) (has_ir : c.ir ≡ some tree)
    (decoded : decode_value s tree.default ≡ some def_value) where
  pub evaluate-eq-evaluate_rules :
      evaluate s (some c) ctx version
      ≡ ok (evaluate_rules s ctx version c tree def_value tree.rules)
  unfolding evaluate
  evaluate-eq-evaluate_rules = ground arith

-- A decision was made by the loop over the rules, from a default that decodes.
pub evaluate-eq-ok :
    (s : Services) (ctx : Fields) (version : ℤ) (c : Compiled) (tree : RulesTree) (d : Decision)
    → c.ir ≡ some tree
    → evaluate s (some c) ctx version ≡ ok d
    → (v : Value) × (decode_value s tree.default ≡ some v)
      × (evaluate_rules s ctx version c tree v tree.rules ≡ d)
unfolding evaluate
evaluate-eq-ok s ctx version c tree d has_ir e = elim (Option-cases (decode_value s tree.default)) [
  | inl bad ↦ absurd (ground arith)
  | inr (v, decoded) ↦ (
    v,
    decoded,
    ok-injective (sym (evaluate-eq-evaluate_rules s ctx version c tree v has_ir decoded) ∙ e),
  )
]

module _ (s : Services) (ctx : Fields) (version : ℤ) (c : Compiled) (tree : RulesTree)
    (def_value : Value) (has_ir : c.ir ≡ some tree)
    (decoded : decode_value s tree.default ≡ some def_value) where
  -- The default is served for the reason "default" exactly when every rule's predicate was
  -- evaluated without error and did not hold.
  pub evaluate-default_iff :
      (d : Decision)
      → evaluate s (some c) ctx version ≡ ok d
      → (d.reason ≡ default) ↔ All (IsQuiet s ctx c.cel_programs) tree.rules
  evaluate-default_iff d e =
      let same =
        ok-injective
          (sym (evaluate-eq-evaluate_rules s ctx version c tree def_value has_ir decoded) ∙ e) in
      rw (← same) (default-iff-IsQuiet s ctx version c tree def_value tree.rules)

  -- The first rule that holds or fails decides, as if it were the only one: rules that do not hold
  -- before it, and any rules after it, make no difference.
  pub evaluate_first :
      (quiet later : List Rule) (r : Rule)
      → tree.rules ≡ quiet ++ r ∷ later
      → All (IsQuiet s ctx c.cel_programs) quiet
      → ¬ IsQuiet s ctx c.cel_programs r
      → evaluate s (some c) ctx version
        ≡ evaluate s (some (record c { ir = some (record tree { rules = r ∷ [] }) })) ctx version
  evaluate_first quiet later r e h n = cc (
    evaluate-eq-evaluate_rules s ctx version c tree def_value has_ir decoded,
    evaluate-eq-evaluate_rules s ctx version
        (record c { ir = some (record tree { rules = r ∷ [] }) }) (record tree { rules = r ∷ [] })
        def_value refl decoded,
    ap (evaluate_rules s ctx version c tree def_value) e,
    evaluate_rules-append s ctx version c tree def_value quiet (r ∷ later) h,
    evaluate_rules_loud s ctx version c tree def_value r later n,
  )
