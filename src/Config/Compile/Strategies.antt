-- ===== src/Config/Compile/Strategies.antt =====
-- The strategies against one another, and against their own output.
use mathlib.Core.Path.{subst}
use false_flag_demo.Base.{
  some-injective, true, false, ◌≡◌, ◌≢◌, refl, sym, ◌∙◌, some, inl, inr, Option-cases, [], arith,
  eq_iff, ap,
}
use false_flag_demo.Base.Result.{Result, ok, ◌>>◌, >>=-eq-ok, ok-injective}
use false_flag_demo.Config.Cel.{compile_predicates}
use false_flag_demo.Config.Compile.{
  Codec, compile_json, new_cel_env, link, compile_cel_strategy, try_rehydrate_ir, compile, is_unset,
}
use false_flag_demo.Config.Compile.NoCel.{allow_more_rules, no_cel_rules}
use false_flag_demo.Config.Compile.Linked.{compile_typescript-link}
use false_flag_demo.Config.Errors.{ConfigError}
use false_flag_demo.Config.Ir.{ValueType, cel, RulesTree, Strategy, json, typescript, Compiled}
use false_flag_demo.Config.Validate.{validate_tree, validate_tree_with}
use false_flag_demo.Config.Validate.WellFormed.{
  IsKnown, validate_tree_with_iff, validate_tree-eq-validate_tree_with,
}
use false_flag_demo.Values.{RawMessage}
use false_flag_demo.Values.Services.{Services, CelEnv}

module _ (s : Services) where
  module _ (codec : Codec) where
    abbrev json_compiled : RulesTree → Compiled
    json_compiled tree = record { strategy = json; ir = some tree; cel_programs = [] }

    pub compile_json-eq-ok :
        (source : RawMessage) (c : Compiled)
        → compile_json s codec source ≡ ok c
        → (tree : RulesTree) × (codec.decode_tree source ≡ some tree)
          × (validate_tree s tree ≡ ok tt)
          × (c ≡ json_compiled tree)
    unfolding compile_json
    compile_json-eq-ok source c e = elim (Option-cases (codec.decode_tree source)) [
      | inl bad ↦ absurd (ground arith)
      | inr (tree, decoded) ↦
          let (u, valid, built) =
            >>=-eq-ok (validate_tree s tree) _ (rw (decoded, compile_json) at e) in
          (tree, decoded, valid, sym (ok-injective built))
    ]

    link_of_no_cel :
        (env : CelEnv) (strategy : Strategy) (tree : RulesTree)
        → s.cel_env ≡ some env
        → validate_tree s tree ≡ ok tt
        → link s codec strategy tree ≡ ok (record (json_compiled tree) { strategy = strategy })
    unfolding link
    link_of_no_cel env strategy tree has_env valid =
        let w =
          (validate_tree_with_iff s false tree).0
            (sym (validate_tree-eq-validate_tree_with s tree) ∙ valid) in
        let accepted =
          (validate_tree_with_iff s true tree).1 (w.0, w.1, allow_more_rules s tree.rules w.2) in
        rw accepted (rw has_env (rw (no_cel_rules s env tree.rules [] w.2)))

    -- Every source that the JSON strategy compiles is compiled by the CEL strategy too, to the same
    -- IR and with no CEL program, if a CEL environment can be made.
    pub compile_cel-of-compile_json :
        (env : CelEnv) (source : RawMessage) (c : Compiled)
        → s.cel_env ≡ some env
        → compile s codec json source ≡ ok c
        → compile s codec cel source ≡ ok (record c { strategy = cel })
    unfolding compile compile_cel_strategy
    compile_cel-of-compile_json env source c has_env e =
        let (tree, decoded, valid, same) = compile_json-eq-ok source c e in
        rw same (rw (decoded, compile_cel_strategy) (link_of_no_cel env cel tree has_env valid))

    -- The part of each compiler behind the decoding.
    abbrev compile_tree : Strategy → RulesTree → Result ConfigError Compiled
    compile_tree json tree = validate_tree s tree >> ok (json_compiled tree)
    compile_tree strategy tree = link s codec strategy tree

    pub link-ir :
        (strategy : Strategy) (tree : RulesTree) (c : Compiled)
        → link s codec strategy tree ≡ ok c
        → c.ir ≡ some tree
    unfolding link
    link-ir strategy tree c e =
        let (u, valid, e₁) = >>=-eq-ok (validate_tree_with s tree true) _ e in
        let (env, found, e₂) = >>=-eq-ok (new_cel_env s codec) _ e₁ in
        let (programs, built, e₃) = >>=-eq-ok (compile_predicates env tree.rules []) _ e₂ in
        ap (λ x. x.ir) (sym (ok-injective e₃))

    known_is_set : (t : ValueType) → IsKnown t → is_unset s codec t ≡ false
    known_is_set (ValueType.other t) k = absurd (ground arith)
    known_is_set _ k = refl

    link-is_set :
        (strategy : Strategy) (tree : RulesTree) (c : Compiled)
        → link s codec strategy tree ≡ ok c
        → is_unset s codec tree.value_type ≡ false
    unfolding link
    link-is_set strategy tree c e =
        let (u, valid, e₁) = >>=-eq-ok (validate_tree_with s tree true) _ e in
        known_is_set tree.value_type ((validate_tree_with_iff s true tree).0 valid).0

    compile_cel-link :
        (source : RawMessage) (c : Compiled)
        → compile_cel_strategy s codec source ≡ ok c
        → (tree : RulesTree) × (link s codec cel tree ≡ ok c)
    unfolding compile_cel_strategy
    compile_cel-link source c e = elim (Option-cases (codec.decode_tree source)) [
      | inl bad ↦ absurd (ground arith)
      | inr (tree, decoded) ↦ (tree, rw (decoded, compile_cel_strategy) at e)
    ]

    compile-tree :
        (strategy : Strategy) (source : RawMessage) (c : Compiled) (tree : RulesTree)
        → compile s codec strategy source ≡ ok c
        → c.ir ≡ some tree
        → compile_tree strategy tree ≡ ok c
    unfolding compile compile_cel_strategy
    compile-tree json source c tree e h =
        let (tree', decoded, valid, same) = compile_json-eq-ok source c e in
        let e' = some-injective (ap (λ x. x.ir) (sym same) ∙ h) in
        subst (λ t. compile_tree json t ≡ ok c) e' (rw valid (rw same))
    compile-tree cel source c tree e h =
        let (tree', built) = compile_cel-link source c e in
        subst (λ t. link s codec cel t ≡ ok c)
          (some-injective (sym (link-ir cel tree' c built) ∙ h)) built
    compile-tree typescript source c tree e h =
        let (tree', built) = compile_typescript-link s codec source c e in
        subst (λ t. link s codec typescript t ≡ ok c)
          (some-injective (sym (link-ir typescript tree' c built) ∙ h)) built
    compile-tree (Strategy.other t) source c tree e h = cc

    -- Recompiling what was persisted: any text that decodes to the IR of a compiled flag compiles, by
    -- the same strategy, to that compiled flag again.
    pub compile_again :
        (strategy : Strategy) (source raw : RawMessage) (c : Compiled) (tree : RulesTree)
        → compile s codec strategy source ≡ ok c
        → c.ir ≡ some tree
        → raw ≢ ""
        → codec.decode_tree raw ≡ some tree
        → compile s codec strategy raw ≡ ok c
    unfolding compile compile_json compile_cel_strategy
    compile_again json source raw c tree e h ne decoded =
        rw (decoded, compile_json) (compile-tree json source c tree e h)
    compile_again cel source raw c tree e h ne decoded =
        rw (decoded, compile_cel_strategy) (compile-tree cel source c tree e h)
    compile_again typescript source raw c tree e h ne decoded =
        let linked = compile-tree typescript source c tree e h in
        let known = link-is_set typescript tree c linked in
        let rehydrated : try_rehydrate_ir s codec raw ≡ some c =
          rw (decoded, try_rehydrate_ir) (rw known (rw linked)) in
        ground (arith, eq_iff raw "", rehydrated)
    compile_again (Strategy.other t) source raw c tree e h ne decoded = cc

    link-strategy :
        (strategy target : Strategy) (tree : RulesTree) (c : Compiled)
        → link s codec strategy tree ≡ ok c
        → link s codec target tree ≡ ok (record c { strategy = target })
    unfolding link
    link-strategy strategy target tree c e =
        let (u, valid, e₁) = >>=-eq-ok (validate_tree_with s tree true) _ e in
        let (env, found, e₂) = >>=-eq-ok (new_cel_env s codec) _ e₁ in
        let (programs, built, e₃) = >>=-eq-ok (compile_predicates env tree.rules []) _ e₂ in
        let renamed : Compiled → Result ConfigError Compiled =
          λ x. ok (record x { strategy = target }) in
        rw valid (rw found (rw built (ap renamed (ok-injective e₃))))

    -- The IR of a flag compiled by any strategy compiles by the CEL strategy too, to the same IR and
    -- programs.
    pub compile_cel-of-compile :
        (env : CelEnv) (strategy : Strategy) (source raw : RawMessage) (c : Compiled)
        (tree : RulesTree)
        → s.cel_env ≡ some env
        → compile s codec strategy source ≡ ok c
        → c.ir ≡ some tree
        → codec.decode_tree raw ≡ some tree
        → compile s codec cel raw ≡ ok (record c { strategy = cel })
    unfolding compile compile_cel_strategy
    compile_cel-of-compile env json source raw c tree has_env e h decoded =
        let (tree', read, valid, same) = compile_json-eq-ok source c e in
        let trees = some-injective (ap (λ x. x.ir) (sym same) ∙ h) in
        rw same (
          rw trees (
            rw (decoded, compile_cel_strategy)
              (link_of_no_cel env cel tree has_env (rw (← trees) valid))))
    compile_cel-of-compile env cel source raw c tree has_env e h decoded =
        rw (decoded, compile_cel_strategy)
          (link-strategy cel cel tree c (compile-tree cel source c tree e h))
    compile_cel-of-compile env typescript source raw c tree has_env e h decoded =
        rw (decoded, compile_cel_strategy)
          (link-strategy typescript cel tree c (compile-tree typescript source c tree e h))
    compile_cel-of-compile env (Strategy.other t) source raw c tree has_env e h decoded = cc
