-- ===== src/Eval/Match/Programs.antt =====
-- The error "cel program missing" of `match` does not occur for compiled flags.
use false_flag_demo.Base.{
  some-injective, sym, ◌∙◌, String, ◌≡◌, ◌≢◌, none, some, inl, inr, Option-cases, List, [], ◌∷◌,
  arith, All,
}
use false_flag_demo.Base.Result.{ok}
use false_flag_demo.Base.Text.{get}
use false_flag_demo.Config.Cel.{Programs}
use false_flag_demo.Config.Cel.Coverage.{Covers, CoversAll}
use false_flag_demo.Config.Compile.{Codec, compile}
use false_flag_demo.Config.Compile.Linked.{compile-IsLinked}
use false_flag_demo.Config.Ir.{
  PredicateKind, eq, neq, in_values, gt, gte, lt, lte, matches, starts_with, rollout, all, any, cel,
  always, Leaf, Predicate, nil, node, Predicates, end, cons, Rule, RulesTree, Strategy, Compiled,
}
use false_flag_demo.Values.{Value, Fields, RawMessage}
use false_flag_demo.Values.Services.{Services}
use false_flag_demo.Eval.Compare.{
  cmp_eq, cmp_in, cmp_in_values, cmp_ord, cmp_matches, cmp_starts_with,
}
use false_flag_demo.Eval.Lookup.{lookup}
use false_flag_demo.Eval.Match.{match, match_all, match_any, match_cel, match_rollout}
use false_flag_demo.Eval.Outcome.{cel_program_missing}

module _ (s : Services) (ctx : Fields) (programs : Programs) (source : String) where
  in_values_found :
      (actual : Value) (values : List RawMessage)
      → (cmp_in_values s actual values).1 ≢ some (cel_program_missing source)
  unfolding cmp_in_values
  in_values_found actual [] = λ e. cc
  in_values_found actual (raw ∷ values) = ground (arith, in_values_found actual values)

  in_found : (p : Leaf) → (cmp_in s p ctx).1 ≢ some (cel_program_missing source)
  unfolding cmp_in
  in_found p = elim (Option-cases (lookup ctx p.attr)) [
    | inl missing ↦ rw (missing, cmp_in) (λ e. cc)
    | inr (actual, there) ↦ rw (there, cmp_in) (in_values_found actual p.values)
  ]

  eq_found : (p : Leaf) → (cmp_eq s p ctx).1 ≢ some (cel_program_missing source)
  unfolding cmp_eq
  eq_found p = ground arith

  ord_found :
      (kind : PredicateKind) (p : Leaf)
      → (cmp_ord s kind p ctx).1 ≢ some (cel_program_missing source)
  unfolding cmp_ord
  ord_found kind p = ground arith

  cel_found :
      (p : Leaf)
      → get p.source programs ≢ none
      → (match_cel programs p ctx).1 ≢ some (cel_program_missing source)
  unfolding match_cel
  cel_found p h = ground arith

  mutual
    unfolding match cmp_matches cmp_starts_with match_rollout

    found :
        (p : Predicate)
        → Covers programs p
        → (match s ctx programs p).1 ≢ some (cel_program_missing source)
    found nil c = λ e. cc
    found (node always p of of_one) c = λ e. cc
    found (node eq p of of_one) c = eq_found p
    found (node neq p of of_one) c = ground (arith, eq_found p)
    found (node in_values p of of_one) c = in_found p
    found (node gt p of of_one) c = ord_found gt p
    found (node gte p of of_one) c = ord_found gte p
    found (node lt p of of_one) c = ord_found lt p
    found (node lte p of of_one) c = ord_found lte p
    found (node matches p of of_one) c = ground arith
    found (node starts_with p of of_one) c = ground arith
    found (node rollout p of of_one) c = ground arith
    found (node all p of of_one) c = all_found of c
    found (node any p of of_one) c = any_found of c
    found (node PredicateKind.not p of of_one) c = ground (arith, found of_one c)
    found (node cel p of of_one) c = cel_found p c
    found (node _ p of of_one) c = λ e. cc

    all_found :
        (of : Predicates)
        → CoversAll programs of
        → (match_all s ctx programs of).1 ≢ some (cel_program_missing source)
    all_found end c = λ e. cc
    all_found (cons q rest) (c, cs) = ground (arith, found q c, all_found rest cs)

    any_found :
        (of : Predicates)
        → CoversAll programs of
        → (match_any s ctx programs of).1 ≢ some (cel_program_missing source)
    any_found end c = λ e. cc
    any_found (cons q rest) (c, cs) = ground (arith, found q c, any_found rest cs)

  rules_found :
      (rules : List Rule)
      → All (λ r. Covers programs r.when) rules
      → All (λ r. (match s ctx programs r.when).1 ≢ some (cel_program_missing source)) rules
  rules_found [] h = tt
  rules_found (r ∷ rules) (h, hs) = (found r.when h, rules_found rules hs)

-- In a compiled flag no rule's predicate fails for want of a CEL program, in any context.
pub compile-finds_programs :
    (s : Services) (codec : Codec) (strategy : Strategy) (raw : RawMessage) (c : Compiled)
    (tree : RulesTree) (ctx : Fields) (source : String)
    → compile s codec strategy raw ≡ ok c
    → c.ir ≡ some tree
    → All
        (λ r. (match s ctx c.cel_programs r.when).1 ≢ some (cel_program_missing source))
        tree.rules
compile-finds_programs s codec strategy raw c tree ctx source e h =
    let linked = compile-IsLinked s codec strategy raw c e in
    let same = some-injective (sym linked.has_ir ∙ h) in
    rw (← same) (rules_found s ctx c.cel_programs source linked.tree.rules linked.covers)
