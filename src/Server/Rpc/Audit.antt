-- ===== src/Server/Rpc/Audit.antt =====
-- internal/server/rpc/audit.go.
use false_flag_demo.Base.{String, Option, none, some, List, [], take}
use false_flag_demo.Base.Int.{ℤ, pos, negsuc}
use false_flag_demo.Base.Result.{ok, ◌>>=◌}
use false_flag_demo.Server.{Connection, read}
use false_flag_demo.Server.Audit.{succ_int32}
use false_flag_demo.Server.Rpc.{Answer, or_connect_error}
use false_flag_demo.Server.Rpc.Snapshots.{positive_or}
use false_flag_demo.Store.{Uuid, Time, AuditEvent, ListAuditEventsParams}
use false_flag_demo.Store.Lookups.{get_project_by_slug, list_audit_events}

-- `project_slug` is an argument of the handler; the cursor is not read.
pub record ListAuditEvents : Type 0 where
  pub limit : ℤ
  pub action : Option String
  pub actor : Option String
  pub from : Option Time
  pub to : Option Time

abbrev text_or_empty : Option String → String
text_or_empty none = ""
text_or_empty (some t) = t

unfoldable pub rpc_audit_params : Uuid → ListAuditEvents → ℤ → ListAuditEventsParams
rpc_audit_params project msg limit = record {
  project_id = project;
  action = text_or_empty msg.action;
  actor = text_or_empty msg.actor;
  from = msg.from;
  to = msg.to;
  cursor_ts = none;
  cursor_id = 0;
  limit = succ_int32 limit;
}

-- The loop that stops at the limit.
abbrev take_limit : ℤ → List AuditEvent → List AuditEvent
take_limit (pos n) rows = take n rows
take_limit (negsuc n) rows = []

unfoldable pub rpc_list_audit_events :
    Connection → String → ListAuditEvents → Answer (List AuditEvent)
unfolding or_connect_error get_project_by_slug list_audit_events rpc_audit_params positive_or take
rpc_list_audit_events conn slug msg = do
  proj ← or_connect_error (read conn (get_project_by_slug slug))
  let limit = positive_or (pos 100) msg.limit
  rows ←
      or_connect_error
        (read conn (λ db. ok (list_audit_events (rpc_audit_params proj.id msg limit) db)))
  ok (take_limit limit rows)
