-- ===== src/Sdk/Agreement.antt =====
-- The client's decisions against those of the API, which evaluates the flag as it was published.
use false_flag_demo.Base.{String, ◌≡◌, refl, sym, ap, ◌∙◌, some, List, [], ◌∷◌, arith}
use false_flag_demo.Base.Int.{ℤ}
use false_flag_demo.Base.Result.{ok}
use false_flag_demo.Base.Text.{get}
use false_flag_demo.Config.Compile.{Codec, compile}
use false_flag_demo.Config.Compile.Strategies.{compile_cel-of-compile}
use false_flag_demo.Config.Ir.{cel, Rule, RulesTree, Strategy, Compiled}
use false_flag_demo.Eval.Decision.{
  Decision, serve, served_default, served_error, evaluate_rules, evaluate,
}
use false_flag_demo.Eval.Decision.Served.{evaluate-eq-ok, evaluate-eq-evaluate_rules}
use false_flag_demo.Sdk.Client.{SnapshotBody, load, compile_flags, or_failed, client_evaluate}
use false_flag_demo.Sdk.Polling.{HasUniqueKeys, compiled_entry, compiled_or_none, get-compile_flags}
use false_flag_demo.Values.{Value, Fields, RawMessage}
use false_flag_demo.Values.Services.{Services, CelEnv}

module _ (s : Services) (ctx : Fields) (tree : RulesTree) (v : Value) where
  -- The version is only carried along, and the strategy and the IR of the flag are not read.
  rules_version :
      (c c' : Compiled) (n m : ℤ) (rules : List Rule)
      → c.cel_programs ≡ c'.cel_programs
      → record (evaluate_rules s ctx n c tree v rules) { version = m }
        ≡ evaluate_rules s ctx m c' tree v rules
  unfolding evaluate_rules served_default served_error serve
  rules_version c c' n m [] same = refl
  rules_version c c' n m (r ∷ rules) same = ground (arith, rules_version c c' n m rules same)

evaluate_version :
    (s : Services) (ctx : Fields) (n m : ℤ) (c : Compiled) (tree : RulesTree) (d : Decision)
    (strategy : Strategy)
    → c.ir ≡ some tree
    → evaluate s (some c) ctx n ≡ ok d
    → evaluate s (some (record c { strategy = strategy })) ctx m ≡ ok (record d { version = m })
evaluate_version s ctx n m c tree d strategy h e =
    let (v, decoded, made) = evaluate-eq-ok s ctx n c tree d h e in
    evaluate-eq-evaluate_rules s ctx m (record c { strategy = strategy }) tree v h decoded
    ∙ ap ok (
        sym (rules_version s ctx tree v c (record c { strategy = strategy }) n m tree.rules refl)
        ∙ ap {A = Decision} {B = Decision} (λ x. record x { version = m }) made)

-- A client that loaded a snapshot holding the IR of a published flag decides as the API does from the
-- flag as compiled by its own strategy, but for the version: the client's decisions carry the
-- snapshot's.
pub client_evaluate-agrees :
    (s : Services) (codec : Codec) (env : CelEnv) (strategy : Strategy) (source raw : RawMessage)
    (c : Compiled) (tree : RulesTree) (body : SnapshotBody) (key : String) (ctx : Fields)
    (version : ℤ) (d : Decision)
    → s.cel_env ≡ some env
    → compile s codec strategy source ≡ ok c
    → c.ir ≡ some tree
    → codec.decode_tree raw ≡ some tree
    → HasUniqueKeys body.flags
    → get key body.flags ≡ some raw
    → evaluate s (some c) ctx version ≡ ok d
    → client_evaluate s (some (load s codec body)) key ctx ≡ record d { version = body.version }
unfolding client_evaluate
client_evaluate-agrees s codec env strategy source raw c tree body key ctx version d has_env e h
      decoded unique there decides =
    let compiled =
      compile_cel-of-compile s codec env strategy source raw c tree has_env e h decoded in
    let held = get-compile_flags s codec key body.flags unique in
    let same = evaluate_version s ctx version body.version c tree d cel h decides in
    let found : get key (compile_flags s codec body.flags) ≡ some (record c { strategy = cel }) =
      held ∙ ap (compiled_entry s codec) there ∙ ap (compiled_or_none s codec) compiled in
    rw (found, client_evaluate) (ap (or_failed body.version) same)
