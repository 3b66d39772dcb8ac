-- ===== src/Server/Projects.antt =====
-- internal/server/handlers/projects.go.
use false_flag_demo.Base.{String, Option, none, List}
use false_flag_demo.Base.Result.{ok, ◌>>=◌, ◌>>◌}
use false_flag_demo.Config.Compile.{valid}
use false_flag_demo.Server.{
  Api, Json, Reply, Written, require_store, not_found_or_error, or_internal_error, write_store_err,
  or_status, read, accept, parse_strategy,
}
use false_flag_demo.Store.{Project, AppendAuditParams}
use false_flag_demo.Store.Lookups.{get_project_by_slug, list_projects}
use false_flag_demo.Store.Tx.{with_audit, create_project}
use false_flag_demo.Values.{Value, string, object, field, end, RawMessage}

pub record CreateProjectRequest : Type 0 where
  pub slug : String
  pub display_name : String
  pub config_strategy : String

-- An audit payload: `{}` where it does not marshal.
unfoldable pub must_marshal : Json → Value → RawMessage
must_marshal j v = elim (j.marshal v) [ none ↦ "{}" | Option.some raw ↦ raw ]

-- `map[string]any{key: text}`.
abbrev pub one_text : String → String → Value
one_text key text = object (field key (string text) end)

abbrev pub project_event : Json → String → CreateProjectRequest → AppendAuditParams
project_event j actor req = record {
  project_id = none;
  flag_id = none;
  action = "create_project";
  actor = actor;
  payload = must_marshal j (one_text "slug" req.slug);
}

unfoldable pub handle_list_projects : Api → Reply (List Project)
unfolding require_store list_projects
handle_list_projects api = do
  conn ← require_store api
  rows ← or_internal_error (read conn (λ db. ok (list_projects db)))
  ok (200, rows)

unfoldable pub handle_create_project :
    Json → Api → String → Option CreateProjectRequest → Written Project
unfolding require_store write_store_err with_audit create_project parse_strategy valid
handle_create_project j api actor body = do
  conn ← require_store api
  req ← or_status 400 body
  accept (valid (parse_strategy req.config_strategy))
  out ← write_store_err (
      with_audit conn.attempts (project_event j actor req)
        (λ f. create_project f req.slug req.display_name req.config_strategy))
  ok ((201, out.0), out.1)

unfoldable pub handle_get_project : Api → String → Reply Project
unfolding require_store not_found_or_error get_project_by_slug
handle_get_project api slug = do
  conn ← require_store api
  proj ← not_found_or_error (read conn (get_project_by_slug slug))
  ok (200, proj)
