-- ===== src/Server/Snapshots.antt =====
-- internal/server/handlers/snapshots.go.
pub mod Bundled
use text.Mathlib.Text.{◌==◌}
use false_flag_demo.Base.{
  ℕ, zero, suc, String, Bool, Option, none, some, List, [], ◌∷◌, length, if◌then◌else◌,
}
use false_flag_demo.Base.Int.{ℤ, pos, ltb_ℤ}
use false_flag_demo.Base.Result.{Result, ok, err, ◌>>=◌}
use false_flag_demo.Base.Text.{StringMap, put}
use false_flag_demo.Config.Compile.{Codec}
use false_flag_demo.Config.Ir.{RulesTree}
use false_flag_demo.Server.{
  Api, Connection, Json, Refusal, status, Reply, Written, require_store, not_found_or_error,
  or_internal_error, write_store_err, or_status, read, limit_or,
}
use false_flag_demo.Server.Projects.{must_marshal}
use false_flag_demo.Store.{
  Uuid, Snapshot, LatestFlagVersion, Environment, StoreError, not_found, AppendAuditParams,
  CompileSnapshotParams,
}
use false_flag_demo.Store.Lookups.{
  get_project_by_slug, get_environment_by_slug, list_snapshots_by_project, get_latest_snapshot,
  get_snapshot_by_id, list_latest_flag_versions,
}
use false_flag_demo.Store.Tx.{with_audit, compile_snapshot}
use false_flag_demo.Values.{Value, int, object, field, end, RawMessage}

unfoldable pub handle_list_snapshots : Api → String → Option ℤ → Reply (List Snapshot)
unfolding require_store not_found_or_error get_project_by_slug list_snapshots_by_project
handle_list_snapshots api slug limit = do
  conn ← require_store api
  proj ← not_found_or_error (read conn (get_project_by_slug slug))
  rows ←
      or_internal_error
        (read conn (λ db. ok (list_snapshots_by_project proj.id (limit_or 50 limit) db)))
  ok (200, rows)

unfoldable pub handle_get_latest_snapshot : Api → String → Reply Snapshot
unfolding require_store not_found_or_error get_project_by_slug get_latest_snapshot
handle_get_latest_snapshot api slug = do
  conn ← require_store api
  proj ← not_found_or_error (read conn (get_project_by_slug slug))
  snap ← not_found_or_error (read conn (get_latest_snapshot proj.id))
  ok (200, snap)

unfoldable pub handle_get_snapshot : Api → String → Uuid → Reply Snapshot
unfolding require_store not_found_or_error get_project_by_slug get_snapshot_by_id
handle_get_snapshot api slug id = do
  conn ← require_store api
  proj ← not_found_or_error (read conn (get_project_by_slug slug))
  snap ← not_found_or_error (read conn (get_snapshot_by_id proj.id id))
  ok (200, snap)

-- The body with `r.ContentLength`, -1 where it is not known: the slug of an environment, "" for none,
-- or `none` if it does not decode.
pub record CompileSnapshotRequest : Type 0 where
  pub content_length : ℤ
  pub body : Option String

abbrev pub unknown_environment : Result StoreError Environment → Result Refusal (Option Uuid)
unknown_environment (ok env) = ok (some env.id)
unknown_environment (err not_found) = err (status 400)
unknown_environment (err _) = err (status 500)

abbrev pub named_environment : Connection → Uuid → String → Result Refusal (Option Uuid)
named_environment conn project slug =
    if slug == ""
    then ok none
    else unknown_environment (read conn (get_environment_by_slug project slug))

-- The environment that the request selects.
unfoldable pub selected_environment :
    Connection → Uuid → CompileSnapshotRequest → Result Refusal (Option Uuid)
unfolding get_environment_by_slug
selected_environment conn project req =
    if ltb_ℤ (pos 0) req.content_length
    then or_status 400 req.body >>= named_environment conn project
    else ok none

-- The loop of `compileBundle`, the entries so far in a map; `none` where an IR does not decode.
unfoldable pub bundle_from :
    Codec → StringMap RulesTree → List LatestFlagVersion → Option (StringMap RulesTree)
bundle_from codec flags [] = some flags
bundle_from codec flags (lv ∷ latest) = elim (codec.decode_tree lv.compiled) [
  | none ↦ none
  | some tree ↦ bundle_from codec (put lv.flag_key tree flags) latest
]

unfoldable pub compile_bundle : Codec → Connection → Uuid → Result Refusal (StringMap RulesTree)
unfolding bundle_from list_latest_flag_versions
compile_bundle codec conn project = do
  latest ← or_internal_error (read conn (λ db. ok (list_latest_flag_versions project db)))
  or_status 500 (bundle_from codec [] latest)

abbrev pub snapshot_event : Json → String → Uuid → StringMap RulesTree → AppendAuditParams
snapshot_event j actor project bundle = record {
  project_id = some project;
  flag_id = none;
  action = "compile_snapshot";
  actor = actor;
  payload = must_marshal j (object (field "flag_count" (int (pos (length bundle))) end));
}

abbrev pub snapshot_params : Uuid → Option Uuid → RawMessage → CompileSnapshotParams
snapshot_params project env raw = record {
  project_id = project;
  environment_id = env;
  compiled = raw;
}

unfoldable pub handle_compile_snapshot :
    Codec → Json → Api → String → String → CompileSnapshotRequest → Written Snapshot
unfolding require_store not_found_or_error get_project_by_slug selected_environment compile_bundle
    write_store_err with_audit compile_snapshot
handle_compile_snapshot codec j api actor slug req = do
  conn ← require_store api
  proj ← not_found_or_error (read conn (get_project_by_slug slug))
  env ← selected_environment conn proj.id req
  bundle ← compile_bundle codec conn proj.id
  raw ← or_status 500 (j.marshal_bundle bundle)
  out ← write_store_err (
      with_audit conn.attempts (snapshot_event j actor proj.id bundle)
        (λ f. compile_snapshot f (snapshot_params proj.id env raw)))
  ok ((201, out.0), out.1)
