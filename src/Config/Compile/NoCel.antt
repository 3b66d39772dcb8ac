-- ===== src/Config/Compile/NoCel.antt =====
-- Trees without CEL nodes under the CEL-aware compiler: still well-formed, and no program is compiled.
use false_flag_demo.Base.{true, false, ◌≡◌, refl, List, [], ◌∷◌, All}
use false_flag_demo.Base.Result.{ok}
use false_flag_demo.Config.Cel.{Programs, walk_and_compile, walk_children, compile_predicates}
use false_flag_demo.Config.Ir.{
  PredicateKind, all, any, cel, Predicate, nil, node, Predicates, end, cons, Rule,
}
use false_flag_demo.Config.Validate.WellFormed.{IsWellFormed, AreWellFormed, IsWellFormedRule}
use false_flag_demo.Values.Services.{Services, CelEnv}

module _ (s : Services) where
  mutual
    allow_more : (p : Predicate) → IsWellFormed s false p → IsWellFormed s true p
    allow_more nil w = w
    allow_more (node cel p of of_one) w = cc
    allow_more (node all p of of_one) w = (w.0, allow_more_all of w.1)
    allow_more (node any p of of_one) w = (w.0, allow_more_all of w.1)
    allow_more (node PredicateKind.not p of of_one) w = allow_more of_one w
    allow_more (node _ p of of_one) w = w

    allow_more_all : (of : Predicates) → AreWellFormed s false of → AreWellFormed s true of
    allow_more_all end w = w
    allow_more_all (cons c rest) (w, ws) = (allow_more c w, allow_more_all rest ws)

  pub allow_more_rules :
      (rules : List Rule)
      → All (IsWellFormedRule s false) rules
      → All (IsWellFormedRule s true) rules
  allow_more_rules [] w = w
  allow_more_rules (r ∷ rules) (w, ws) =
      ((w.0, w.1, allow_more r.when w.2), allow_more_rules rules ws)

  module _ (env : CelEnv) where
    mutual
      unfolding walk_and_compile

      no_cel_walk :
          (p : Predicate) (out : Programs)
          → IsWellFormed s false p
          → walk_and_compile env p out ≡ ok out
      no_cel_walk nil out w = refl
      no_cel_walk (node cel p of of_one) out w = cc
      no_cel_walk (node all p of of_one) out w = no_cel_children of out w.1
      no_cel_walk (node any p of of_one) out w = no_cel_children of out w.1
      no_cel_walk (node PredicateKind.not p of of_one) out w = no_cel_walk of_one out w
      no_cel_walk (node _ p of of_one) out w = refl

      no_cel_children :
          (of : Predicates) (out : Programs)
          → AreWellFormed s false of
          → walk_children env of out ≡ ok out
      no_cel_children end out w = refl
      no_cel_children (cons c rest) out (w, ws) =
          rw (no_cel_walk c out w) (no_cel_children rest out ws)

    pub no_cel_rules :
        (rules : List Rule) (out : Programs)
        → All (IsWellFormedRule s false) rules
        → compile_predicates env rules out ≡ ok out
    unfolding compile_predicates
    no_cel_rules [] out w = refl
    no_cel_rules (r ∷ rules) out (w, ws) =
        rw (no_cel_walk r.when out w.2) (no_cel_rules rules out ws)
