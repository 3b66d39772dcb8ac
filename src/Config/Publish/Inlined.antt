-- ===== src/Config/Publish/Inlined.antt =====
-- What is published by the JSON and CEL strategies has no segment references.
use mathlib.Core.Path.{subst}
use false_flag_demo.Base.{
  ℕ, ◌≡◌, ◌⊎◌, refl, sym, ap, ◌∙◌, some-injective, inl, inr, Option-cases, some, arith, All,
}
use false_flag_demo.Base.Result.{Result, ok, err, >>=-eq-ok}
use false_flag_demo.Config.Compile.{Codec, compile, compile_cel_strategy}
use false_flag_demo.Config.Compile.Strategies.{compile_json-eq-ok, link-ir}
use false_flag_demo.Config.Errors.{ConfigError}
use false_flag_demo.Config.Ir.{RulesTree, Strategy, json, cel, Compiled}
use false_flag_demo.Config.Publish.{
  marshal_resolved, resolve_segment_refs, or_compiling, resolve_and_compile,
}
use false_flag_demo.Config.Segments.{SegmentResolver, Resolved, resolve_segments}
use false_flag_demo.Config.Segments.Resolution.{IsInlined, resolve_segments-IsInlined}
use false_flag_demo.Values.{RawMessage}
use false_flag_demo.Values.Services.{Services}

module _ (s : Services) (codec : Codec) where
  -- The JSON and CEL strategies keep the tree that the source decodes to.
  compile-decoded :
      (strategy : Strategy) (source : RawMessage) (c : Compiled)
      → (strategy ≡ json) ⊎ (strategy ≡ cel)
      → compile s codec strategy source ≡ ok c
      → codec.decode_tree source ≡ c.ir
  unfolding compile compile_cel_strategy
  compile-decoded json source c which e =
      let (tree, decoded, valid, same) = compile_json-eq-ok s codec source c e in
      decoded ∙ ap (λ x. x.ir) (sym same)
  compile-decoded cel source c which e = elim (Option-cases (codec.decode_tree source)) [
    | inl bad ↦ absurd (ground arith)
    | inr (tree, decoded) ↦
        decoded ∙ sym (link-ir s codec cel tree c (rw (decoded, compile_cel_strategy) at e))
  ]
  compile-decoded Strategy.typescript source c which e = absurd (ground arith)
  compile-decoded (Strategy.other t) source c which e = absurd (ground arith)

  module _ (resolver : SegmentResolver) (fuel : ℕ) where
    marshal_resolved-eq-ok :
        (m : Resolved RulesTree) (raw : RawMessage)
        → marshal_resolved codec resolver fuel m ≡ ok raw
        → (tree : RulesTree) × (m ≡ ok tree) × (codec.encode_tree tree ≡ some raw)
    marshal_resolved-eq-ok (err e) raw h = cc
    marshal_resolved-eq-ok (ok tree) raw h = (tree, refl, ground arith)

    or_compiling-eq-ok :
        (m : Result ConfigError Compiled) (c : Compiled)
        → or_compiling codec resolver fuel m ≡ ok c
        → m ≡ ok c
    or_compiling-eq-ok (err e) c h = cc
    or_compiling-eq-ok (ok d) c h = ground arith

    -- What is published was compiled, from some text.
    pub resolve_and_compile-compile :
        (strategy : Strategy) (source : RawMessage) (c : Compiled)
        → resolve_and_compile codec resolver fuel s strategy source ≡ ok c
        → (resolved : RawMessage) × (compile s codec strategy resolved ≡ ok c)
    unfolding resolve_and_compile
    resolve_and_compile-compile strategy source c e =
        let (raw, refs, built) = >>=-eq-ok (resolve_segment_refs codec resolver fuel source) _ e in
        (raw, or_compiling-eq-ok (compile s codec strategy raw) c built)

    -- A flag that is published by the JSON or the CEL strategy from a source that decodes has no
    -- segment reference in its IR, if the resolved tree decodes from the text that it encodes to.
    pub resolve_and_compile-IsInlined :
        (strategy : Strategy) (source : RawMessage) (tree t : RulesTree) (c : Compiled)
        → (strategy ≡ json) ⊎ (strategy ≡ cel)
        → codec.decode_tree source ≡ some tree
        → ((tree' : RulesTree) (raw : RawMessage)
            → resolve_segments resolver fuel tree ≡ ok tree'
            → codec.encode_tree tree' ≡ some raw
            → codec.decode_tree raw ≡ some tree')
        → resolve_and_compile codec resolver fuel s strategy source ≡ ok c
        → c.ir ≡ some t
        → All (λ r. IsInlined r.when) t.rules
    unfolding resolve_and_compile
    resolve_and_compile-IsInlined strategy source tree t c which decoded faithful e h =
        let (raw, refs, e₁) = >>=-eq-ok (resolve_segment_refs codec resolver fuel source) _ e in
        let (tree', resolved, encoded) =
          marshal_resolved-eq-ok (resolve_segments resolver fuel tree) raw
            (rw (decoded, resolve_segment_refs) at refs) in
        let compiled = or_compiling-eq-ok (compile s codec strategy raw) c e₁ in
        let same = some-injective (
          sym (faithful tree' raw resolved encoded)
          ∙ compile-decoded strategy raw c which compiled
          ∙ h) in
        subst (λ x. All (λ r. IsInlined r.when) x.rules) same
          (resolve_segments-IsInlined resolver fuel tree tree' resolved)
