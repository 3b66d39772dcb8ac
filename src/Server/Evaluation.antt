-- ===== src/Server/Evaluation.antt =====
-- internal/server/handlers/evaluate.go.
pub mod Served
use false_flag_demo.Base.{ℕ, String, Option, some}
use false_flag_demo.Base.Int.{pos}
use false_flag_demo.Base.Result.{Result, ok, err, ◌>>=◌}
use false_flag_demo.Config.Compile.{Codec, compile}
use false_flag_demo.Config.Errors.{ConfigError}
use false_flag_demo.Config.Ir.{Compiled}
use false_flag_demo.Eval.Decision.{Decision, Failure, evaluate}
use false_flag_demo.Eval.Trace.{evaluate_with_trace}
use false_flag_demo.Eval.TraceNode.{Trace}
use false_flag_demo.Server.{
  Api, Connection, Refusal, status, Reply, require_store, not_found_or_error, or_status, read,
  parse_strategy,
}
use false_flag_demo.Store.Lookups.{get_project_by_slug, get_flag_by_key, get_latest_flag_version}
use false_flag_demo.Values.{Fields}
use false_flag_demo.Values.Services.{Services}

pub record Loaded : Type 0 where
  pub compiled : Compiled
  pub version : ℕ
  pub context : Fields

-- Any error of package config or eval, as `writeError` with status 500.
abbrev pub or_failed : {E A : Type 0} → Result E A → Result Refusal A
or_failed (ok x) = ok x
or_failed (err e) = err (status 500)

module _ (s : Services) (codec : Codec) where
  unfoldable pub load_evaluation :
      Connection → String → String → Option Fields → Result Refusal Loaded
  unfolding not_found_or_error get_project_by_slug get_flag_by_key get_latest_flag_version compile
      parse_strategy
  load_evaluation conn slug key body = do
    proj ← not_found_or_error (read conn (get_project_by_slug slug))
    flag ← not_found_or_error (read conn (get_flag_by_key proj.id key))
    v ← not_found_or_error (read conn (get_latest_flag_version flag.id))
    context ← or_status 400 body
    compiled ← or_failed (compile s codec (parse_strategy v.strategy) v.compiled)
    ok (record { compiled = compiled; version = v.version; context = context })

  unfoldable pub handle_evaluate_flag : Api → String → String → Option Fields → Reply Decision
  unfolding require_store load_evaluation evaluate
  handle_evaluate_flag api slug key body = do
    conn ← require_store api
    loaded ← load_evaluation conn slug key body
    d ← or_failed (evaluate s (some loaded.compiled) loaded.context (pos loaded.version))
    ok (200, d)

  unfoldable pub handle_evaluate_flag_with_trace :
      Api → String → String → Option Fields → Reply (Decision × Trace)
  unfolding require_store load_evaluation evaluate_with_trace
  handle_evaluate_flag_with_trace api slug key body = do
    conn ← require_store api
    loaded ← load_evaluation conn slug key body
    d ← or_failed (evaluate_with_trace s (some loaded.compiled) loaded.context (pos loaded.version))
    ok (200, d)
