-- ===== src/Server/Rpc/Evaluation.antt =====
-- internal/server/rpc/evaluation.go.
use false_flag_demo.Base.{String, Option, some}
use false_flag_demo.Base.Int.{pos}
use false_flag_demo.Base.Result.{Result, ok, err, ◌>>=◌}
use false_flag_demo.Config.Compile.{Codec, compile}
use false_flag_demo.Eval.Decision.{Decision, evaluate}
use false_flag_demo.Eval.Trace.{evaluate_with_trace}
use false_flag_demo.Eval.TraceNode.{Trace}
use false_flag_demo.Server.{Connection, read, parse_strategy}
use false_flag_demo.Server.Evaluation.{Loaded}
use false_flag_demo.Server.Rpc.{connect_code, code_internal, Answer, or_connect_error}
use false_flag_demo.Server.Rpc.Segments.{as_map}
use false_flag_demo.Store.Lookups.{get_project_by_slug, get_flag_by_key, get_latest_flag_version}
use false_flag_demo.Values.{Fields}
use false_flag_demo.Values.Services.{Services}

-- Any error of package config or eval, as one of code internal.
abbrev pub or_internal : {E A : Type 0} → Result E A → Answer A
or_internal (ok x) = ok x
or_internal (err e) = err (connect_code code_internal)

module _ (s : Services) (codec : Codec) where
  unfoldable pub rpc_load_evaluation : Connection → String → String → Option Fields → Answer Loaded
  unfolding or_connect_error get_project_by_slug get_flag_by_key get_latest_flag_version compile
      parse_strategy as_map
  rpc_load_evaluation conn slug key context = do
    proj ← or_connect_error (read conn (get_project_by_slug slug))
    flag ← or_connect_error (read conn (get_flag_by_key proj.id key))
    v ← or_connect_error (read conn (get_latest_flag_version flag.id))
    compiled ← or_internal (compile s codec (parse_strategy v.strategy) v.compiled)
    ok (record { compiled = compiled; version = v.version; context = as_map context })

  unfoldable pub rpc_evaluate : Connection → String → String → Option Fields → Answer Decision
  unfolding rpc_load_evaluation evaluate
  rpc_evaluate conn slug key context = do
    loaded ← rpc_load_evaluation conn slug key context
    or_internal (evaluate s (some loaded.compiled) loaded.context (pos loaded.version))

  unfoldable pub rpc_evaluate_with_trace :
      Connection → String → String → Option Fields → Answer (Decision × Trace)
  unfolding rpc_load_evaluation evaluate_with_trace
  rpc_evaluate_with_trace conn slug key context = do
    loaded ← rpc_load_evaluation conn slug key context
    or_internal (evaluate_with_trace s (some loaded.compiled) loaded.context (pos loaded.version))
