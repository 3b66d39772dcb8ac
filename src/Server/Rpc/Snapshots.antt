-- ===== src/Server/Rpc/Snapshots.antt =====
-- internal/server/rpc/snapshots.go.
use text.Mathlib.Text.{◌==◌}
use false_flag_demo.Base.{String, Option, none, some, List, [], length, if◌then◌else◌}
use false_flag_demo.Base.Int.{ℤ, pos, ltb_ℤ}
use false_flag_demo.Base.Result.{Result, ok, err, ◌>>=◌}
use false_flag_demo.Base.Text.{StringMap}
use false_flag_demo.Config.Compile.{Codec}
use false_flag_demo.Config.Ir.{RulesTree}
use false_flag_demo.Server.{Connection, Json, read}
use false_flag_demo.Server.Projects.{must_marshal}
use false_flag_demo.Server.Rpc.{
  connect_code, code_internal, code_invalid_argument, Answer, Committed, connect_error,
  or_connect_error, or_code,
}
use false_flag_demo.Server.Snapshots.{bundle_from}
use false_flag_demo.Store.{
  Uuid, Snapshot, Environment, StoreError, not_found, AppendAuditParams, CompileSnapshotParams,
}
use false_flag_demo.Store.Lookups.{
  get_project_by_slug, get_environment_by_slug, list_snapshots_by_project, get_latest_snapshot,
  get_snapshot_by_id, list_latest_flag_versions,
}
use false_flag_demo.Store.Tx.{with_audit, compile_snapshot}
use false_flag_demo.Values.{int, object, field, end, RawMessage}

-- The limit of a listing: what is not positive stands for the default.
unfoldable pub positive_or : ℤ → ℤ → ℤ
positive_or default limit = if ltb_ℤ (pos 0) limit then limit else default

unfoldable pub rpc_list_snapshots : Connection → String → ℤ → Answer (List Snapshot)
unfolding or_connect_error get_project_by_slug list_snapshots_by_project positive_or
rpc_list_snapshots conn slug limit = do
  proj ← or_connect_error (read conn (get_project_by_slug slug))
  or_connect_error
      (read conn (λ db. ok (list_snapshots_by_project proj.id (positive_or (pos 50) limit) db)))

-- The identifier as `uuid.Parse` reads it.
unfoldable pub rpc_get_snapshot : Connection → String → Option Uuid → Answer Snapshot
unfolding or_connect_error get_project_by_slug get_snapshot_by_id
rpc_get_snapshot conn slug parsed = do
  proj ← or_connect_error (read conn (get_project_by_slug slug))
  id ← or_code code_invalid_argument parsed
  or_connect_error (read conn (get_snapshot_by_id proj.id id))

unfoldable pub rpc_get_latest_snapshot : Connection → String → Answer Snapshot
unfolding or_connect_error get_project_by_slug get_latest_snapshot
rpc_get_latest_snapshot conn slug = do
  proj ← or_connect_error (read conn (get_project_by_slug slug))
  or_connect_error (read conn (get_latest_snapshot proj.id))

abbrev pub resolved_environment : Result StoreError Environment → Answer (Option Uuid)
resolved_environment (ok env) = ok (some env.id)
resolved_environment (err not_found) = err (connect_code code_invalid_argument)
resolved_environment (err e) = err (connect_code (connect_error e))

-- The environment that the message names: none if the slug is absent or empty.
unfoldable pub chosen_environment : Connection → Uuid → Option String → Answer (Option Uuid)
unfolding connect_error get_environment_by_slug
chosen_environment conn project none = ok none
chosen_environment conn project (some slug) =
    if slug == ""
    then ok none
    else resolved_environment (read conn (get_environment_by_slug project slug))

-- `compileBundle`, whose loop is that of the HTTP handlers, its errors by `connectError`.
unfoldable pub rpc_compile_bundle : Codec → Connection → Uuid → Answer (StringMap RulesTree)
unfolding or_connect_error bundle_from list_latest_flag_versions
rpc_compile_bundle codec conn project = do
  latest ← or_connect_error (read conn (λ db. ok (list_latest_flag_versions project db)))
  or_code code_internal (bundle_from codec [] latest)

abbrev compiled_event : Json → String → Uuid → StringMap RulesTree → AppendAuditParams
compiled_event j actor project bundle = record {
  project_id = some project;
  flag_id = none;
  action = "compile_snapshot";
  actor = actor;
  payload = must_marshal j (object (field "flag_count" (int (pos (length bundle))) end));
}

abbrev compiled_params : Uuid → Option Uuid → RawMessage → CompileSnapshotParams
compiled_params project env raw = record {
  project_id = project;
  environment_id = env;
  compiled = raw;
}

unfoldable pub rpc_compile_snapshot :
    Codec → Json → Connection → String → String → Option String → Committed Snapshot
unfolding or_connect_error get_project_by_slug chosen_environment rpc_compile_bundle with_audit
    compile_snapshot
rpc_compile_snapshot codec j conn actor slug env_slug = do
  proj ← or_connect_error (read conn (get_project_by_slug slug))
  env ← chosen_environment conn proj.id env_slug
  bundle ← rpc_compile_bundle codec conn proj.id
  raw ← or_code code_internal (j.marshal_bundle bundle)
  or_connect_error (
      with_audit conn.attempts (compiled_event j actor proj.id bundle)
        (λ f. compile_snapshot f (compiled_params proj.id env raw)))
