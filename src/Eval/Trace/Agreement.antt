-- ===== src/Eval/Trace/Agreement.antt =====
-- When the traced evaluation agrees with the plain one.
use mathlib.Core.List.{map}
use false_flag_demo.Base.{
  ◌≡◌, ◌≢◌, refl, sym, ap, ◌∙◌, inl, inr, Option-cases, none, some, List, [], ◌∷◌, arith, All,
  Option,
}
use false_flag_demo.Base.Int.{ℤ}
use false_flag_demo.Base.Result.{ok, ok-injective}
use false_flag_demo.Base.Text.{StringMap}
use false_flag_demo.Config.Ir.{
  PredicateKind, all, any, eq, Predicate, nil, node, Predicates, end, cons, Rule, RulesTree,
  Compiled,
}
use false_flag_demo.Values.{Value, Fields}
use false_flag_demo.Values.Services.{Services, CelProgram}
use false_flag_demo.Eval.Match.{match, match_all, match_any}
use false_flag_demo.Eval.Decision.{
  Decision, error, decode_value, serve, served_default, evaluate_rules, evaluate,
}
use false_flag_demo.Eval.Decision.Served.{evaluate-eq-evaluate_rules}
use false_flag_demo.Eval.TraceNode.{TraceRule, Trace}
use false_flag_demo.Eval.Trace.{
  trace_match, trace_all, trace_any, trace_rule, winner, decide_by, record_trace, trace_tree,
  evaluate_with_trace,
}

module _ (s : Services) (ctx : Fields) (programs : StringMap CelProgram) where
  mutual
    unfolding match trace_match

    trace_match-eq-match_lem :
        (p : Predicate)
        → (trace_match s ctx programs p).1.1 ≡ none
        → match s ctx programs p ≡ ((trace_match s ctx programs p).1.0, none)
    trace_match-eq-match_lem (node all p of of_one) h = ground (arith, trace_all-eq of)
    trace_match-eq-match_lem (node any p of of_one) h = ground (arith, trace_any-eq of)
    trace_match-eq-match_lem (node PredicateKind.not p of of_one) h =
        ground (arith, trace_match-eq-match_lem of_one)
    trace_match-eq-match_lem nil h = refl
    trace_match-eq-match_lem (node eq p of of_one) h = ground arith
    trace_match-eq-match_lem (node _ p of of_one) h = ground arith

    trace_all-eq :
        (of : Predicates)
        → (trace_all s ctx programs of).first_err ≡ none
        → match_all s ctx programs of ≡ ((trace_all s ctx programs of).held, none)
    trace_all-eq end h = refl
    trace_all-eq (cons c rest) h = ground (arith, trace_match-eq-match_lem c, trace_all-eq rest)

    trace_any-eq :
        (of : Predicates)
        → (trace_any s ctx programs of).first_err ≡ none
        → match_any s ctx programs of ≡ ((trace_any s ctx programs of).held, none)
    trace_any-eq end h = refl
    trace_any-eq (cons c rest) h = ground (arith, trace_match-eq-match_lem c, trace_any-eq rest)

-- No rule's trace carries an error.
abbrev pub IsClean : List TraceRule → Type 0
IsClean = All (λ r. r.error ≡ none)

module _ (s : Services) (ctx : Fields) (version : ℤ) (c : Compiled) (tree : RulesTree)
    (def_value : Value) where
  abbrev traces : List Rule → List TraceRule
  traces = map (trace_rule s ctx c.cel_programs)

  winner-decides :
      (rules : List Rule)
      → IsClean (traces rules)
      → evaluate_rules s ctx version c tree def_value rules
        ≡ decide_by s version tree def_value (winner s ctx c.cel_programs rules)
  unfolding evaluate_rules winner
  winner-decides [] h = refl
  winner-decides (r ∷ rules) (h, hs) =
      ground (arith, trace_match-eq-match_lem s ctx c.cel_programs r.when, winner-decides rules hs)

  pub evaluate_with_trace-eq :
      c.ir ≡ some tree
      → decode_value s tree.default ≡ some def_value
      → evaluate_with_trace s (some c) ctx version
        ≡ ok (
          decide_by s version tree def_value (winner s ctx c.cel_programs tree.rules),
          record_trace (traces tree.rules) (winner s ctx c.cel_programs tree.rules),
        )
  unfolding evaluate_with_trace
  evaluate_with_trace-eq has_ir decoded = rw has_ir (rw (decoded, trace_tree))

  evaluated_rules-record_trace :
      (rules : List TraceRule) (o : Option Rule) → (record_trace rules o).evaluated_rules ≡ rules
  evaluated_rules-record_trace rules none = refl
  evaluated_rules-record_trace rules (some r) = refl

  agrees :
      (d : Decision) (t : Trace)
      → c.ir ≡ some tree
      → decode_value s tree.default ≡ some def_value
      → evaluate_with_trace s (some c) ctx version ≡ ok (d, t)
      → IsClean t.evaluated_rules
      → evaluate s (some c) ctx version ≡ ok d
  agrees d t has_ir decoded e h =
      let same = ok-injective (sym (evaluate_with_trace-eq has_ir decoded) ∙ e) in
      let chosen = winner s ctx c.cel_programs tree.rules in
      let rules = ap (λ p. p.1.evaluated_rules) same in
      evaluate-eq-evaluate_rules s ctx version c tree def_value has_ir decoded
      ∙ ap ok (
          winner-decides tree.rules
            (rw (← evaluated_rules-record_trace (traces tree.rules) chosen) (rw rules h))
          ∙ ap (λ p. p.0) same)

-- A traced evaluation that returns a decision had an IR whose default decodes.
traced_has_ir :
    (s : Services) (c : Compiled) (ctx : Fields) (version : ℤ) {r : Decision × Trace}
    → evaluate_with_trace s (some c) ctx version ≡ ok r
    → (tree : RulesTree) × (def_value : Value) × (c.ir ≡ some tree)
      × (decode_value s tree.default ≡ some def_value)
unfolding evaluate_with_trace
traced_has_ir s c ctx version e = elim (Option-cases c.ir) [
  | inl missing ↦ absurd (ground arith)
  | inr (tree, has_ir) ↦ elim (Option-cases (decode_value s tree.default)) [
    | inl bad ↦ absurd (ground arith)
    | inr (v, decoded) ↦ (tree, v, has_ir, decoded)
  ]
]

-- If no rule's predicate raised an error in the trace, the traced evaluation and the plain one give
-- the same decision.
pub evaluate_with_trace-agrees :
    (s : Services) (c : Compiled) (ctx : Fields) (version : ℤ) (d : Decision) (t : Trace)
    → evaluate_with_trace s (some c) ctx version ≡ ok (d, t)
    → IsClean t.evaluated_rules
    → evaluate s (some c) ctx version ≡ ok d
evaluate_with_trace-agrees s c ctx version d t e h =
    let (tree, v, has_ir, decoded) = traced_has_ir s c ctx version e in
    agrees s ctx version c tree v d t has_ir decoded e h

serve-ne-error :
    (s : Services) (version : ℤ) (tree : RulesTree) (v : Value) (o : Option Rule)
    → (decide_by s version tree v o).reason ≢ error
unfolding serve served_default
serve-ne-error s version tree v none = cc
serve-ne-error s version tree v (some r) = ground arith

-- Where the plain evaluation decides by an error, the traced one, which goes on to the later rules,
-- returns another decision.
pub evaluate_with_trace-disagrees :
    (s : Services) (c : Compiled) (ctx : Fields) (version : ℤ) (d d' : Decision) (t : Trace)
    → evaluate s (some c) ctx version ≡ ok d
    → d.reason ≡ error
    → evaluate_with_trace s (some c) ctx version ≡ ok (d', t)
    → d' ≢ d
evaluate_with_trace-disagrees s c ctx version d d' t plain failed e same =
    let (tree, v, has_ir, decoded) = traced_has_ir s c ctx version e in
    let eq = evaluate_with_trace-eq s ctx version c tree v has_ir decoded in
    let chosen = winner s ctx c.cel_programs tree.rules in
    serve-ne-error s version tree v chosen
      (ap (λ p. p.0.reason) (ok-injective (sym eq ∙ e)) ∙ ap (λ x. x.reason) same ∙ failed)
