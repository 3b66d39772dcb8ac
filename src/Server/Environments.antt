-- ===== src/Server/Environments.antt =====
-- internal/server/handlers/environments.go.
use false_flag_demo.Base.{String, Option, none, some, List}
use false_flag_demo.Base.Result.{ok, ◌>>=◌}
use false_flag_demo.Server.{
  Api, Json, Reply, Written, require_store, not_found_or_error, or_internal_error, write_store_err,
  or_status, read,
}
use false_flag_demo.Server.Projects.{must_marshal, one_text}
use false_flag_demo.Store.{Uuid, Environment, AppendAuditParams}
use false_flag_demo.Store.Lookups.{
  get_project_by_slug, get_environment_by_slug, list_environments_by_project,
}
use false_flag_demo.Store.Tx.{with_audit, create_environment}

pub record CreateEnvironmentRequest : Type 0 where
  pub slug : String
  pub name : String

unfoldable pub handle_list_environments : Api → String → Reply (List Environment)
unfolding require_store not_found_or_error get_project_by_slug list_environments_by_project
handle_list_environments api slug = do
  conn ← require_store api
  proj ← not_found_or_error (read conn (get_project_by_slug slug))
  rows ← or_internal_error (read conn (λ db. ok (list_environments_by_project proj.id db)))
  ok (200, rows)

abbrev pub environment_event : Json → String → Uuid → CreateEnvironmentRequest → AppendAuditParams
environment_event j actor project req = record {
  project_id = some project;
  flag_id = none;
  action = "create_environment";
  actor = actor;
  payload = must_marshal j (one_text "slug" req.slug);
}

unfoldable pub handle_create_environment :
    Json → Api → String → String → Option CreateEnvironmentRequest → Written Environment
unfolding require_store not_found_or_error get_project_by_slug write_store_err with_audit
    create_environment
handle_create_environment j api actor slug body = do
  conn ← require_store api
  proj ← not_found_or_error (read conn (get_project_by_slug slug))
  req ← or_status 400 body
  out ← write_store_err (
      with_audit conn.attempts (environment_event j actor proj.id req)
        (λ f. create_environment f proj.id req.slug req.name))
  ok ((201, out.0), out.1)

unfoldable pub handle_get_environment : Api → String → String → Reply Environment
unfolding require_store not_found_or_error get_project_by_slug get_environment_by_slug
handle_get_environment api slug env_slug = do
  conn ← require_store api
  proj ← not_found_or_error (read conn (get_project_by_slug slug))
  env ← not_found_or_error (read conn (get_environment_by_slug proj.id env_slug))
  ok (200, env)
