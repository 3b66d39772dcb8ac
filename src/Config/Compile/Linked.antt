-- ===== src/Config/Compile/Linked.antt =====
-- What a successful compilation guarantees, whatever the strategy.
use false_flag_demo.Base.{
  Bool, true, false, ◌≡◌, refl, sym, ◌∙◌, some, inl, inr, Option-cases, List, [], ◌∷◌, arith, All,
}
use false_flag_demo.Base.Result.{Result, ok, err, >>=-eq-ok, ok-injective}
use false_flag_demo.Config.Cel.{Programs, compile_predicates}
use false_flag_demo.Config.Cel.Coverage.{Covers, CoversAll, compile_predicates-Covers}
use false_flag_demo.Config.Compile.{
  Codec, compile_json, new_cel_env, link, compile_cel_strategy, try_rehydrate_ir, build_and_run,
  compile_typescript, compile, succeeded,
}
use false_flag_demo.Config.Errors.{ConfigError}
use false_flag_demo.Config.Ir.{
  PredicateKind, all, any, cel, Predicate, nil, node, Predicates, end, cons, Rule, RulesTree,
  Strategy, json, typescript, Compiled,
}
use false_flag_demo.Config.Validate.{validate_tree, validate_tree_with}
use false_flag_demo.Config.Validate.WellFormed.{
  IsWellFormed, AreWellFormed, IsWellFormedRule, IsWellFormedTree, validate_tree_with_iff,
  validate_tree-eq-validate_tree_with,
}
use false_flag_demo.Values.{RawMessage}
use false_flag_demo.Values.Services.{Services}

module _ (s : Services) where
  mutual
    Covers-of_no_cel : (out : Programs) (p : Predicate) → IsWellFormed s false p → Covers out p
    Covers-of_no_cel out nil w = tt
    Covers-of_no_cel out (node cel p of of_one) w = cc
    Covers-of_no_cel out (node all p of of_one) w = CoversAll-of_no_cel out of w.1
    Covers-of_no_cel out (node any p of of_one) w = CoversAll-of_no_cel out of w.1
    Covers-of_no_cel out (node PredicateKind.not p of of_one) w = Covers-of_no_cel out of_one w
    Covers-of_no_cel out (node _ p of of_one) w = tt

    CoversAll-of_no_cel :
        (out : Programs) (of : Predicates) → AreWellFormed s false of → CoversAll out of
    CoversAll-of_no_cel out end w = tt
    CoversAll-of_no_cel out (cons c rest) (w, ws) =
        (Covers-of_no_cel out c w, CoversAll-of_no_cel out rest ws)

  rules_of_no_cel :
      (out : Programs) (rules : List Rule)
      → All (IsWellFormedRule s false) rules
      → All (λ r. Covers out r.when) rules
  rules_of_no_cel out [] w = tt
  rules_of_no_cel out (r ∷ rules) (w, ws) =
      (Covers-of_no_cel out r.when w.2, rules_of_no_cel out rules ws)

  -- The IR is there, it is well-formed, and every CEL node in it has its program.
  pub record IsLinked (c : Compiled) : Type 0 where
    pub tree : RulesTree
    pub has_ir : c.ir ≡ some tree
    pub allow_cel : Bool
    pub well_formed : IsWellFormedTree s allow_cel tree
    pub covers : All (λ r. Covers c.cel_programs r.when) tree.rules

  module _ (codec : Codec) where
    link-IsLinked :
        (strategy : Strategy) (tree : RulesTree) (c : Compiled)
        → link s codec strategy tree ≡ ok c
        → IsLinked c
    unfolding link
    link-IsLinked strategy tree c e =
        let (u, valid, e₁) = >>=-eq-ok (validate_tree_with s tree true) _ e in
        let (env, found, e₂) = >>=-eq-ok (new_cel_env s codec) _ e₁ in
        let (programs, built, e₃) = >>=-eq-ok (compile_predicates env tree.rules []) _ e₂ in
        rw (← ok-injective e₃) (record {
          tree = tree;
          has_ir = refl;
          allow_cel = true;
          well_formed = (validate_tree_with_iff s true tree).0 valid;
          covers = compile_predicates-Covers env tree.rules [] programs built;
        })

    compile_json-IsLinked :
        (source : RawMessage) (c : Compiled) → compile_json s codec source ≡ ok c → IsLinked c
    unfolding compile_json
    compile_json-IsLinked source c e = elim (Option-cases (codec.decode_tree source)) [
      | inl bad ↦ absurd (ground arith)
      | inr (tree, decoded) ↦
          let (u, valid, built) =
            >>=-eq-ok (validate_tree s tree) _ (rw (decoded, compile_json) at e) in
          let w =
            (validate_tree_with_iff s false tree).0
              (sym (validate_tree-eq-validate_tree_with s tree) ∙ valid) in
          rw (← ok-injective built) (record {
            tree = tree;
            has_ir = refl;
            allow_cel = false;
            well_formed = w;
            covers = rules_of_no_cel [] tree.rules w.2;
          })
    ]

    compile_cel-IsLinked :
        (source : RawMessage) (c : Compiled)
        → compile_cel_strategy s codec source ≡ ok c
        → IsLinked c
    unfolding compile_cel_strategy
    compile_cel-IsLinked source c e = elim (Option-cases (codec.decode_tree source)) [
      | inl bad ↦ absurd (ground arith)
      | inr (tree, decoded) ↦ link-IsLinked cel tree c (rw (decoded, compile_cel_strategy) at e)
    ]

    pub succeeded-eq-some :
        (r : Result ConfigError Compiled) (c : Compiled) → succeeded s codec r ≡ some c → r ≡ ok c
    succeeded-eq-some (ok x) c e = ground arith
    succeeded-eq-some (err x) c e = cc

    rehydrate-link :
        (source : RawMessage) (c : Compiled)
        → try_rehydrate_ir s codec source ≡ some c
        → (tree : RulesTree) × (link s codec typescript tree ≡ ok c)
    unfolding try_rehydrate_ir
    rehydrate-link source c e = elim (Option-cases (codec.decode_tree source)) [
      | inl bad ↦ absurd (ground arith)
      | inr (tree, decoded) ↦
          (tree, succeeded-eq-some (link s codec typescript tree) c (ground arith))
    ]

    build_and_run-link :
        (source : RawMessage) (c : Compiled)
        → build_and_run s codec source ≡ ok c
        → (tree : RulesTree) × (link s codec typescript tree ≡ ok c)
    unfolding build_and_run
    build_and_run-link source c e = elim (Option-cases (codec.build source)) [
      | inl bad ↦ absurd (ground arith)
      | inr (js, built) ↦ elim (Option-cases (codec.run_module js)) [
        | inl bad ↦ absurd (ground arith)
        | inr (ir_json, ran) ↦ elim (Option-cases (codec.decode_tree ir_json)) [
          | inl bad ↦ absurd (ground arith)
          | inr (tree, decoded) ↦ (tree, ground arith)
        ]
      ]
    ]

    pub compile_typescript-link :
        (source : RawMessage) (c : Compiled)
        → compile_typescript s codec source ≡ ok c
        → (tree : RulesTree) × (link s codec typescript tree ≡ ok c)
    unfolding compile_typescript
    compile_typescript-link source c e = elim (Option-cases (try_rehydrate_ir s codec source)) [
      | inl fresh ↦ build_and_run-link source c (ground arith)
      | inr (c', done) ↦ rehydrate-link source c (ground arith)
    ]

    -- Whatever compiles, by any strategy, has an IR that is well-formed, and a program for every CEL
    -- node that evaluation can reach.
    pub compile-IsLinked :
        (strategy : Strategy) (source : RawMessage) (c : Compiled)
        → compile s codec strategy source ≡ ok c
        → IsLinked c
    unfolding compile
    compile-IsLinked json source c e = compile_json-IsLinked source c e
    compile-IsLinked cel source c e = compile_cel-IsLinked source c e
    compile-IsLinked typescript source c e =
        let (tree, built) = compile_typescript-link source c e in
        link-IsLinked typescript tree c built
    compile-IsLinked (Strategy.other t) source c e = cc
