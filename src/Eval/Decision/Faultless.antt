-- ===== src/Eval/Decision/Faultless.antt =====
-- When a compiled flag cannot be decided by an error.
use false_flag_demo.Base.{
  some-injective, sym, ap, ◌∙◌, Bool, ◌≡◌, ◌≢◌, some, List, [], ◌∷◌, arith, All,
}
use false_flag_demo.Base.Int.{ℤ}
use false_flag_demo.Base.Result.{ok}
use false_flag_demo.Config.Cel.Coverage.{Covers}
use false_flag_demo.Config.Compile.{Codec, compile}
use false_flag_demo.Config.Compile.Linked.{compile-IsLinked}
use false_flag_demo.Config.Ir.{Rule, RulesTree, Strategy, Compiled}
use false_flag_demo.Config.Validate.WellFormed.{IsWellFormedRule}
use false_flag_demo.Values.{Value, Fields, RawMessage}
use false_flag_demo.Values.Services.{Services}
use false_flag_demo.Eval.Decision.{Decision, error, serve, served_default, evaluate_rules, evaluate}
use false_flag_demo.Eval.Decision.Served.{evaluate-eq-ok}
use false_flag_demo.Eval.Match.Safety.{IsDecodable, AreTotal, clean}

module _ (s : Services) (ctx : Fields) (version : ℤ) (c : Compiled) (tree : RulesTree)
    (def_value : Value) where
  serve-ne-error : (r : Rule) → (serve s version tree def_value r).reason ≢ error
  unfolding serve
  serve-ne-error r = ground arith

  rules-ne-error :
      (allow_cel : Bool) (rules : List Rule)
      → All (IsWellFormedRule s allow_cel) rules
      → All (λ r. Covers c.cel_programs r.when) rules
      → All (λ r. IsDecodable s r.when) rules
      → AreTotal c.cel_programs ctx
      → (evaluate_rules s ctx version c tree def_value rules).reason ≢ error
  unfolding evaluate_rules served_default
  rules-ne-error b [] w v d t = λ e. cc
  rules-ne-error b (r ∷ rules) (w, ws) (v, vs) (d, ds) t = ground (
    arith,
    clean s ctx c.cel_programs b r.when w.2 d v t,
    serve-ne-error r,
    rules-ne-error b rules ws vs ds t,
  )

-- A flag that compiled, whose operands decode (to a string for starts_with), that refers to no
-- segment, and whose CEL programs return a value in the given context, is never decided by an error.
pub compile-ne-error :
    (s : Services) (codec : Codec) (strategy : Strategy) (raw : RawMessage) (c : Compiled)
    (tree : RulesTree) (ctx : Fields) (version : ℤ) (d : Decision)
    → compile s codec strategy raw ≡ ok c
    → c.ir ≡ some tree
    → All (λ r. IsDecodable s r.when) tree.rules
    → AreTotal c.cel_programs ctx
    → evaluate s (some c) ctx version ≡ ok d
    → d.reason ≢ error
compile-ne-error s codec strategy raw c tree ctx version d e h decodable total run failed =
    let linked = compile-IsLinked s codec strategy raw c e in
    let same = some-injective (sym linked.has_ir ∙ h) in
    let (v, decoded, made) = evaluate-eq-ok s ctx version c tree d h run in
    rules-ne-error s ctx version c tree v linked.allow_cel tree.rules
      (rw (← same) linked.well_formed.2) (rw (← same) linked.covers) decodable total
      (ap (λ x. x.reason) made ∙ failed)
