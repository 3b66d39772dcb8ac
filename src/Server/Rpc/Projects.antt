-- ===== src/Server/Rpc/Projects.antt =====
-- internal/server/rpc/projects.go and environments.go.
use false_flag_demo.Base.{String, none, some, List, if◌then◌else◌}
use false_flag_demo.Base.Result.{ok, err, ◌>>=◌, ◌>>◌, Check}
use false_flag_demo.Config.Compile.{valid}
use false_flag_demo.Server.{Connection, Json, read, parse_strategy}
use false_flag_demo.Server.Projects.{must_marshal, one_text}
use false_flag_demo.Server.Rpc.{
  RpcError, connect_code, code_invalid_argument, Answer, Committed, or_connect_error, ProtoStrategy,
  strategy_from_proto,
}
use false_flag_demo.Store.{Uuid, Project, Environment, AppendAuditParams}
use false_flag_demo.Store.Lookups.{
  get_project_by_slug, list_projects, get_environment_by_slug, list_environments_by_project,
}
use false_flag_demo.Store.Tx.{with_audit, create_project, create_environment}

pub record CreateProject : Type 0 where
  pub slug : String
  pub display_name : String
  pub config_strategy : ProtoStrategy

pub record CreateEnvironment : Type 0 where
  pub slug : String
  pub name : String

abbrev pub require_valid : String → Check RpcError
require_valid strategy =
    if valid (parse_strategy strategy) then ok tt else err (connect_code code_invalid_argument)

unfoldable pub rpc_list_projects : Connection → Answer (List Project)
unfolding or_connect_error list_projects
rpc_list_projects conn = or_connect_error (read conn (λ db. ok (list_projects db)))

unfoldable pub rpc_get_project : Connection → String → Answer Project
unfolding or_connect_error get_project_by_slug
rpc_get_project conn slug = or_connect_error (read conn (get_project_by_slug slug))

abbrev created_project : Json → String → String → AppendAuditParams
created_project j actor slug = record {
  project_id = none;
  flag_id = none;
  action = "create_project";
  actor = actor;
  payload = must_marshal j (one_text "slug" slug);
}

unfoldable pub rpc_create_project : Json → Connection → String → CreateProject → Committed Project
unfolding or_connect_error with_audit create_project strategy_from_proto parse_strategy valid
rpc_create_project j conn actor msg = do
  let strategy = strategy_from_proto msg.config_strategy
  require_valid strategy
  or_connect_error (
      with_audit conn.attempts (created_project j actor msg.slug)
        (λ f. create_project f msg.slug msg.display_name strategy))

unfoldable pub rpc_list_environments : Connection → String → Answer (List Environment)
unfolding or_connect_error get_project_by_slug list_environments_by_project
rpc_list_environments conn slug = do
  proj ← or_connect_error (read conn (get_project_by_slug slug))
  or_connect_error (read conn (λ db. ok (list_environments_by_project proj.id db)))

unfoldable pub rpc_get_environment : Connection → String → String → Answer Environment
unfolding or_connect_error get_project_by_slug get_environment_by_slug
rpc_get_environment conn slug env_slug = do
  proj ← or_connect_error (read conn (get_project_by_slug slug))
  or_connect_error (read conn (get_environment_by_slug proj.id env_slug))

abbrev created_environment : Json → String → Uuid → String → AppendAuditParams
created_environment j actor project slug = record {
  project_id = some project;
  flag_id = none;
  action = "create_environment";
  actor = actor;
  payload = must_marshal j (one_text "slug" slug);
}

unfoldable pub rpc_create_environment :
    Json → Connection → String → String → CreateEnvironment → Committed Environment
unfolding or_connect_error get_project_by_slug with_audit create_environment
rpc_create_environment j conn actor slug msg = do
  proj ← or_connect_error (read conn (get_project_by_slug slug))
  or_connect_error (
      with_audit conn.attempts (created_environment j actor proj.id msg.slug)
        (λ f. create_environment f proj.id msg.slug msg.name))
