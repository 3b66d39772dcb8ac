-- ===== src/Config/Cel.antt =====
-- internal/config/cel.go: compiling the CEL sources of a tree into its program map.
pub mod Coverage
use false_flag_demo.Base.{String, true, false, none, some, List, [], ◌∷◌}
use false_flag_demo.Base.Result.{Result, ok, err, ◌>>=◌}
use false_flag_demo.Base.Text.{StringMap, get, put}
use false_flag_demo.Config.Errors.{ConfigError, wrapped, in_rule, cel_compile_failure}
use false_flag_demo.Config.Ir.{
  PredicateKind, all, any, cel, Leaf, Predicate, nil, node, Predicates, end, cons, Rule,
}
use false_flag_demo.Values.Services.{CelProgram, CelEnv}

abbrev pub Programs : Type 0
Programs = StringMap CelProgram

-- The part of the case PredCEL below the test for a program that is there already.
unfoldable pub compile_source : CelEnv → String → Programs → Result ConfigError Programs
compile_source env source out = elim (env source) [
  | none ↦ err (wrapped cel_compile_failure)
  | some ast ↦ elim ast.is_bool [
    | false ↦ err (wrapped cel_compile_failure)
    | true ↦ elim ast.program [
      | none ↦ err (wrapped cel_compile_failure)
      | some prog ↦ ok (put source prog out)
    ]
  ]
]

unfoldable pub compile_cel : CelEnv → Leaf → Programs → Result ConfigError Programs
unfolding compile_source
compile_cel env p out = elim (get p.source out) [
  | some _ ↦ ok out
  | none ↦ compile_source env p.source out
]

module _ (env : CelEnv) where
  -- The map `out`, which the source fills in place, is passed on.
  unfoldable mutual
    pub walk_and_compile : Predicate → Programs → Result ConfigError Programs
    walk_and_compile nil out = ok out
    walk_and_compile (node cel p of of_one) out = compile_cel env p out
    walk_and_compile (node all p of of_one) out = walk_children of out
    walk_and_compile (node any p of of_one) out = walk_children of out
    walk_and_compile (node PredicateKind.not p of of_one) out = walk_and_compile of_one out
    walk_and_compile (node _ p of of_one) out = ok out

    pub walk_children : Predicates → Programs → Result ConfigError Programs
    walk_children end out = ok out
    walk_children (cons c rest) out = walk_and_compile c out >>= walk_children rest

  abbrev pub in_rule_of : String → Result ConfigError Programs → Result ConfigError Programs
  in_rule_of id (ok out) = ok out
  in_rule_of id (err e) = err (in_rule id e)

  unfoldable pub compile_predicates : List Rule → Programs → Result ConfigError Programs
  compile_predicates [] out = ok out
  compile_predicates (r ∷ rules) out =
      in_rule_of r.id (walk_and_compile r.when out) >>= compile_predicates rules
