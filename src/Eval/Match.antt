-- ===== src/Eval/Match.antt =====
-- internal/eval/predicates.go: `match`, over the predicate tree.
pub mod Safety
pub mod Programs
use false_flag_demo.Base.{true, false, not, none, some}
use false_flag_demo.Base.Text.{StringMap, get}
use false_flag_demo.Config.Ir.{
  PredicateKind, eq, neq, in_values, gt, gte, lt, lte, matches, starts_with, rollout, all, any, cel,
  always, Leaf, Predicate, nil, node, Predicates, end, cons,
}
use false_flag_demo.Values.{Fields}
use false_flag_demo.Values.Services.{Services, CelProgram}
use false_flag_demo.Eval.Lookup.{lookup_string}
use false_flag_demo.Eval.Outcome.{
  Outcome, answer, fail, cel_failed, cel_program_missing, unknown_kind,
}
use false_flag_demo.Eval.Rollout.{in_bucket}
use false_flag_demo.Eval.Compare.{cmp_eq, cmp_in, cmp_ord, cmp_matches, cmp_starts_with}

-- `return !ok, err`: the error, if any, is passed on beside the negated answer.
abbrev pub negate : Outcome → Outcome
negate (ok, err) = (not ok, err)

-- config.EvalCEL: an output that is not a bool counts as false.
unfoldable pub eval_cel : CelProgram → Fields → Outcome
eval_cel prog ctx = elim (prog ctx) [
  | none ↦ fail cel_failed
  | some none ↦ answer false
  | some (some b) ↦ answer b
]

-- The case PredCEL: the program is looked up by its source.
unfoldable pub match_cel : StringMap CelProgram → Leaf → Fields → Outcome
unfolding eval_cel
match_cel programs p ctx = elim (get p.source programs) [
  | none ↦ fail (cel_program_missing p.source)
  | some prog ↦ eval_cel prog ctx
]

-- The case PredRollout.
unfoldable pub match_rollout : Leaf → Fields → Outcome
match_rollout p ctx = elim (lookup_string ctx p.attr) [
  | none ↦ answer false
  | some v ↦ answer (in_bucket p.salt v p.percent)
]

-- One round of the loop of PredAll, given what the rest of the loop returns; then of PredAny.
abbrev pub step_all : Outcome → Outcome → Outcome
step_all (ok, some err) rest = fail err
step_all (false, none) rest = answer false
step_all (true, none) rest = rest

abbrev pub step_any : Outcome → Outcome → Outcome
step_any (ok, some err) rest = fail err
step_any (true, none) rest = answer true
step_any (false, none) rest = rest

module _ (s : Services) (ctx : Fields) (programs : StringMap CelProgram) where
  -- `match_all` and `match_any` are the loops over `p.Of`, which stop at the first error and at the
  -- first child that decides.
  unfoldable mutual
    pub match : Predicate → Outcome
    match nil = answer false
    match (node always p of of_one) = answer true
    match (node eq p of of_one) = cmp_eq s p ctx
    match (node neq p of of_one) = negate (cmp_eq s p ctx)
    match (node in_values p of of_one) = cmp_in s p ctx
    match (node gt p of of_one) = cmp_ord s gt p ctx
    match (node gte p of of_one) = cmp_ord s gte p ctx
    match (node lt p of of_one) = cmp_ord s lt p ctx
    match (node lte p of of_one) = cmp_ord s lte p ctx
    match (node matches p of of_one) = cmp_matches s p ctx
    match (node starts_with p of of_one) = cmp_starts_with s p ctx
    match (node rollout p of of_one) = match_rollout p ctx
    match (node all p of of_one) = match_all of
    match (node any p of of_one) = match_any of
    match (node PredicateKind.not p of of_one) = negate (match of_one)
    match (node cel p of of_one) = match_cel programs p ctx
    match (node kind p of of_one) = fail (unknown_kind kind)

    pub match_all : Predicates → Outcome
    match_all end = answer true
    match_all (cons c rest) = step_all (match c) (match_all rest)

    pub match_any : Predicates → Outcome
    match_any end = answer false
    match_any (cons c rest) = step_any (match c) (match_any rest)
