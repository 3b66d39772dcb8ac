-- ===== src/Eval/Trace.antt =====
-- internal/eval/trace.go: the explained evaluation.
pub mod Agreement
use false_flag_demo.Base.{
  ℕ, String, true, false, ◌&&◌, Option, none, some, List, [], ◌∷◌, if◌then◌else◌,
}
use false_flag_demo.Base.Int.{ℤ}
use false_flag_demo.Base.Result.{Result, ok, err}
use false_flag_demo.Base.Text.{StringMap}
use false_flag_demo.Config.Ir.{
  PredicateKind, eq, neq, in_values, gt, gte, lt, lte, matches, starts_with, rollout, all, any, cel,
  always, Leaf, Predicate, nil, node, Predicates, end, cons, Rule, RulesTree, Compiled,
}
use false_flag_demo.Values.{Value, string, Fields, RawMessage}
use false_flag_demo.Values.Services.{Services, CelProgram}
use false_flag_demo.Eval.Lookup.{lookup, or_null, lookup_string, or_empty}
use false_flag_demo.Eval.Outcome.{Outcome, unknown_kind, fail}
use false_flag_demo.Eval.Rollout.{rollout_bucket}
use false_flag_demo.Eval.Match.{match}
use false_flag_demo.Eval.Decision.{
  Decision, Failure, nil_compiled, decoding_default, decode_value, serve, served_default,
}
use false_flag_demo.Eval.TraceNode.{
  TraceFields, TraceNode, TraceNodes, TraceRule, Trace, blank, Collected, no_error, collect_all,
  collect_any, close_group, close_not,
}
use mathlib.Core.List.{map}

module _ (s : Services) (ctx : Fields) (programs : StringMap CelProgram) where
  -- A node without children that carries the outcome of `match`.
  abbrev close_leaf : TraceFields → Outcome → TraceNode × Outcome
  close_leaf fields (held, e) =
      (TraceNode.node (record fields { result = held }) TraceNodes.end, (held, e))

  -- `_ = json.Unmarshal(raw, &v)`: on an error `v` stays nil.
  abbrev decoded : RawMessage → Value
  decoded raw = or_null (s.unmarshal raw)

  abbrev compared : PredicateKind → Leaf → TraceFields
  compared kind p = record (blank (some kind)) {
    attr = p.attr;
    attr_value = or_null (lookup ctx p.attr);
    expected = decoded p.value;
  }

  abbrev listed : Leaf → TraceFields
  listed p = record (blank (some in_values)) {
    attr = p.attr;
    attr_value = or_null (lookup ctx p.attr);
    expected_values = map decoded p.values;
  }

  abbrev matched_pattern : Leaf → TraceFields
  matched_pattern p = record (blank (some matches)) {
    attr = p.attr;
    attr_value = string (or_empty (lookup_string ctx p.attr));
    pattern = p.pattern;
  }

  abbrev bucket_of : Leaf → Option String → ℕ
  bucket_of p none = 0
  bucket_of p (some actual) = rollout_bucket p.salt actual

  abbrev rolled : Leaf → TraceFields
  rolled p = record (blank (some rollout)) {
    attr = p.attr;
    salt = p.salt;
    percent = p.percent;
    attr_value = string (or_empty (lookup_string ctx p.attr));
    bucket = bucket_of p (lookup_string ctx p.attr);
  }

  abbrev celled : Leaf → TraceFields
  celled p = record (blank (some cel)) { source = p.source }

  unfoldable mutual
    pub trace_match : Predicate → TraceNode × Outcome
    trace_match nil = (TraceNode.node (blank none) TraceNodes.end, (false, none))
    trace_match (node always p of of_one) = (
      TraceNode.node (record (blank (some always)) { result = true }) TraceNodes.end,
      (true, none),
    )
    trace_match (node eq p of of_one) =
        close_leaf (compared eq p) (match s ctx programs (node eq p of of_one))
    trace_match (node neq p of of_one) =
        close_leaf (compared neq p) (match s ctx programs (node neq p of of_one))
    trace_match (node starts_with p of of_one) =
        close_leaf (compared starts_with p) (match s ctx programs (node starts_with p of of_one))
    trace_match (node in_values p of of_one) =
        close_leaf (listed p) (match s ctx programs (node in_values p of of_one))
    trace_match (node gt p of of_one) =
        close_leaf (compared gt p) (match s ctx programs (node gt p of of_one))
    trace_match (node gte p of of_one) =
        close_leaf (compared gte p) (match s ctx programs (node gte p of of_one))
    trace_match (node lt p of of_one) =
        close_leaf (compared lt p) (match s ctx programs (node lt p of of_one))
    trace_match (node lte p of of_one) =
        close_leaf (compared lte p) (match s ctx programs (node lte p of of_one))
    trace_match (node matches p of of_one) =
        close_leaf (matched_pattern p) (match s ctx programs (node matches p of of_one))
    trace_match (node rollout p of of_one) =
        close_leaf (rolled p) (match s ctx programs (node rollout p of of_one))
    trace_match (node all p of of_one) = close_group all (trace_all of)
    trace_match (node any p of of_one) = close_group any (trace_any of)
    trace_match (node PredicateKind.not p of of_one) = close_not (trace_match of_one)
    trace_match (node cel p of of_one) =
        close_leaf (celled p) (match s ctx programs (node cel p of of_one))
    trace_match (node kind p of of_one) =
        (TraceNode.node (blank (some kind)) TraceNodes.end, fail (unknown_kind kind))

    pub trace_all : Predicates → Collected
    trace_all end = record { children = TraceNodes.end; held = true; first_err = none }
    trace_all (cons c rest) = collect_all (trace_match c) (trace_all rest)

    pub trace_any : Predicates → Collected
    trace_any end = record { children = TraceNodes.end; held = false; first_err = none }
    trace_any (cons c rest) = collect_any (trace_match c) (trace_any rest)

abbrev trace_rule_of : Rule → TraceNode × Outcome → TraceRule
trace_rule_of r (n, (held, e)) = record {
  rule_id = r.id;
  matched = held && no_error e;
  predicate = n;
  error = e;
}

module _ (s : Services) (ctx : Fields) (programs : StringMap CelProgram) where
  unfoldable pub trace_rule : Rule → TraceRule
  trace_rule r = trace_rule_of r (trace_match s ctx programs r.when)

  -- The loop of `EvaluateWithTrace`: every rule is traced, and the first that matched wins.
  unfoldable pub winner : List Rule → Option Rule
  unfolding trace_rule
  winner [] = none
  winner (r ∷ rules) = let rest = winner rules in if (trace_rule r).matched then some r else rest

-- The tail of `EvaluateWithTrace`: the decision by the winning rule, and the trace.
abbrev pub decide_by : Services → ℤ → RulesTree → Value → Option Rule → Decision
decide_by s version tree def_value none = served_default version def_value
decide_by s version tree def_value (some r) = serve s version tree def_value r

abbrev pub record_trace : List TraceRule → Option Rule → Trace
record_trace rules none = record {
  evaluated_rules = rules;
  default_used = true;
  matched_rule_id = "";
}
record_trace rules (some r) = record {
  evaluated_rules = rules;
  default_used = false;
  matched_rule_id = r.id;
}

module _ (s : Services) where
  unfoldable pub trace_tree : Compiled → RulesTree → Fields → ℤ → Result Failure (Decision × Trace)
  unfolding winner
  trace_tree c tree ctx version = elim (decode_value s tree.default) [
    | none ↦ err decoding_default
    | some def_value ↦
        let chosen = winner s ctx c.cel_programs tree.rules in
        ok (
          decide_by s version tree def_value chosen,
          record_trace (map (trace_rule s ctx c.cel_programs) tree.rules) chosen,
        )
  ]

  unfoldable pub evaluate_with_trace :
      Option Compiled → Fields → ℤ → Result Failure (Decision × Trace)
  unfolding trace_tree
  evaluate_with_trace none ctx version = err nil_compiled
  evaluate_with_trace (some c) ctx version = elim c.ir [
    | none ↦ err nil_compiled
    | some tree ↦ trace_tree c tree ctx version
  ]
