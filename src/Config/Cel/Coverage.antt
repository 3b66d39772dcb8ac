-- ===== src/Config/Cel/Coverage.antt =====
-- The program map holds a program for every CEL source that the evaluator can reach.
use false_flag_demo.Base.{
  String, ◌≡◌, ◌≢◌, none, inl, inr, Option-cases, List, [], ◌∷◌, arith, All, eq_iff,
}
use false_flag_demo.Base.Result.{Result, ok, err, >>=-eq-ok, ok-injective}
use false_flag_demo.Base.Text.{get, put, get-put}
use false_flag_demo.Config.Errors.{ConfigError}
use false_flag_demo.Config.Cel.{
  Programs, compile_source, compile_cel, walk_and_compile, walk_children, in_rule_of,
  compile_predicates,
}
use false_flag_demo.Config.Ir.{
  PredicateKind, all, any, cel, Leaf, Predicate, nil, node, Predicates, end, cons, Rule,
}
use false_flag_demo.Values.Services.{CelProgram, CelEnv}

abbrev mutual
  -- Every CEL node that evaluation can reach has its program.
  pub Covers : Programs → Predicate → Type 0
  Covers out nil = Unit
  Covers out (node cel p of of_one) = get p.source out ≢ none
  Covers out (node all p of of_one) = CoversAll out of
  Covers out (node any p of of_one) = CoversAll out of
  Covers out (node PredicateKind.not p of of_one) = Covers out of_one
  Covers out (node _ p of of_one) = Unit

  pub CoversAll : Programs → Predicates → Type 0
  CoversAll out end = Unit
  CoversAll out (cons c rest) = Covers out c × CoversAll out rest

-- What is there stays there.
abbrev pub Extends : Programs → Programs → Type 0
Extends out out' = (k : String) → get k out ≢ none → get k out' ≢ none

mutual
  Covers-mono :
      (out out' : Programs) (p : Predicate) → Extends out out' → Covers out p → Covers out' p
  Covers-mono out out' nil e h = tt
  Covers-mono out out' (node cel p of of_one) e h = e p.source h
  Covers-mono out out' (node all p of of_one) e h = CoversAll-mono out out' of e h
  Covers-mono out out' (node any p of of_one) e h = CoversAll-mono out out' of e h
  Covers-mono out out' (node PredicateKind.not p of of_one) e h = Covers-mono out out' of_one e h
  Covers-mono out out' (node _ p of of_one) e h = tt

  CoversAll-mono :
      (out out' : Programs) (of : Predicates)
      → Extends out out'
      → CoversAll out of
      → CoversAll out' of
  CoversAll-mono out out' end e h = tt
  CoversAll-mono out out' (cons c rest) e (h, hs) =
      (Covers-mono out out' c e h, CoversAll-mono out out' rest e hs)

module _ (env : CelEnv) where
  compile_source-eq-ok :
      (source : String) (out out' : Programs)
      → compile_source env source out ≡ ok out'
      → (prog : CelProgram) × (out' ≡ put source prog out)
  unfolding compile_source
  compile_source-eq-ok source out out' e = elim (Option-cases (env source)) [
    | inl bad ↦ absurd (ground arith)
    | inr (ast, checked) ↦ elim (Option-cases ast.program) [
      | inl bad ↦ absurd (ground arith)
      | inr (prog, linked) ↦ (prog, ground arith)
    ]
  ]

  put-Extends : (k : String) (prog : CelProgram) (out : Programs) → Extends out (put k prog out)
  put-Extends k prog out j h = rw get-put (ground arith)

  put-ne-none : (k : String) (prog : CelProgram) (out : Programs) → get k (put k prog out) ≢ none
  put-ne-none k prog out = rw get-put (ground (arith, eq_iff k k))

  -- Compiling a source keeps what is in the map, and the source is in it then.
  compile_cel-covers :
      (p : Leaf) (out out' : Programs)
      → compile_cel env p out ≡ ok out'
      → Extends out out' × (get p.source out' ≢ none)
  unfolding compile_cel
  compile_cel-covers p out out' e = elim (Option-cases (get p.source out)) [
    | inr (prog, there) ↦
        let same = ok-injective (rw (there, compile_cel) at e) in
        rw (← same) (λ k h. h, rw there (cc))
    | inl absent ↦
        let (prog, added) =
          compile_source-eq-ok p.source out out' (rw (absent, compile_cel) at e) in
        rw added (put-Extends p.source prog out, put-ne-none p.source prog out)
  ]

  mutual
    unfolding walk_and_compile

    walk-Extends :
        (p : Predicate) (out out' : Programs)
        → walk_and_compile env p out ≡ ok out'
        → Extends out out'
    walk-Extends nil out out' e k h = ground arith
    walk-Extends (node cel p of of_one) out out' e k h = (compile_cel-covers p out out' e).0 k h
    walk-Extends (node all p of of_one) out out' e k h = children-Extends of out out' e k h
    walk-Extends (node any p of of_one) out out' e k h = children-Extends of out out' e k h
    walk-Extends (node PredicateKind.not p of of_one) out out' e k h =
        walk-Extends of_one out out' e k h
    walk-Extends (node _ p of of_one) out out' e k h = ground arith

    children-Extends :
        (of : Predicates) (out out' : Programs)
        → walk_children env of out ≡ ok out'
        → Extends out out'
    children-Extends end out out' e k h = ground arith
    children-Extends (cons c rest) out out' e k h =
        let (mid, first, later) =
          >>=-eq-ok (walk_and_compile env c out) (walk_children env rest) e in
        children-Extends rest mid out' later k (walk-Extends c out mid first k h)

  mutual
    unfolding walk_and_compile

    walk-Covers :
        (p : Predicate) (out out' : Programs) → walk_and_compile env p out ≡ ok out' → Covers out' p
    walk-Covers nil out out' e = tt
    walk-Covers (node cel p of of_one) out out' e = (compile_cel-covers p out out' e).1
    walk-Covers (node all p of of_one) out out' e = children-Covers of out out' e
    walk-Covers (node any p of of_one) out out' e = children-Covers of out out' e
    walk-Covers (node PredicateKind.not p of of_one) out out' e = walk-Covers of_one out out' e
    walk-Covers (node _ p of of_one) out out' e = tt

    children-Covers :
        (of : Predicates) (out out' : Programs)
        → walk_children env of out ≡ ok out'
        → CoversAll out' of
    children-Covers end out out' e = tt
    children-Covers (cons c rest) out out' e =
        let (mid, first, later) =
          >>=-eq-ok (walk_and_compile env c out) (walk_children env rest) e in
        (
          Covers-mono mid out' c (children-Extends rest mid out' later)
              (walk-Covers c out mid first),
          children-Covers rest mid out' later,
        )

  in_rule_of-eq-ok :
      (id : String) (m : Result ConfigError Programs) {out : Programs}
      → in_rule_of env id m ≡ ok out
      → m ≡ ok out
  in_rule_of-eq-ok id (ok out) e = e
  in_rule_of-eq-ok id (err f) e = cc

  compile_predicates-Extends :
      (rules : List Rule) (out out' : Programs)
      → compile_predicates env rules out ≡ ok out'
      → Extends out out'
  unfolding compile_predicates
  compile_predicates-Extends [] out out' e = rw (ok-injective e) (λ k h. h)
  compile_predicates-Extends (r ∷ rules) out out' e =
      let (mid, first, later) = >>=-eq-ok _ (compile_predicates env rules) e in
      let walked = in_rule_of-eq-ok r.id (walk_and_compile env r.when out) first in
      λ k h.
        compile_predicates-Extends rules mid out' later k (walk-Extends r.when out mid walked k h)

  -- After a successful compilation the map has a program for every CEL node of every rule.
  pub compile_predicates-Covers :
      (rules : List Rule) (out out' : Programs)
      → compile_predicates env rules out ≡ ok out'
      → All (λ r. Covers out' r.when) rules
  unfolding compile_predicates
  compile_predicates-Covers [] out out' e = tt
  compile_predicates-Covers (r ∷ rules) out out' e =
      let (mid, first, later) = >>=-eq-ok _ (compile_predicates env rules) e in
      let walked = in_rule_of-eq-ok r.id (walk_and_compile env r.when out) first in
      let kept = compile_predicates-Extends rules mid out' later in
      (
        Covers-mono mid out' r.when kept (walk-Covers r.when out mid walked),
        compile_predicates-Covers rules mid out' later,
      )
