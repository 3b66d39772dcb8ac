-- ===== src/Server/Audit.antt =====
-- internal/server/handlers/audit.go. The text of a cursor, base64 over JSON, is a parameter.
pub mod Pages
pub mod Cuts
pub mod Walk
pub mod Limits
use text.Mathlib.Text.{◌==◌}
use false_flag_demo.Base.{
  ℕ, suc, ◌+◌, ◌-◌, String, Bool, Option, none, some, List, [], ◌∷◌, length, ltb, take,
  if◌then◌else◌,
}
use false_flag_demo.Base.Int.{ℤ, pos, negsuc, ltb_ℤ}
use false_flag_demo.Base.Result.{Result, ok, err, ◌>>=◌}
use false_flag_demo.Server.{
  Api, Refusal, panicked, Reply, require_store, not_found_or_error, or_internal_error, or_status,
  read, limit_or,
}
use false_flag_demo.Store.{Uuid, Time, AuditEvent, ListAuditEventsParams, Db, StoreError}
use false_flag_demo.Store.Lookups.{get_project_by_slug, list_audit_events}

-- `encodeAuditCursor` and `decodeAuditCursor`; a cursor without a time decodes to the zero time.
pub record CursorCodec : Type 0 where
  pub encode : Time → Uuid → String
  pub decode : String → Option (Option Time × Uuid)

-- The query; an absent text is the empty one.
pub record AuditQuery : Type 0 where
  pub limit : Option ℤ
  pub cursor : String
  pub action : String
  pub actor : String
  pub from : Option Time
  pub to : Option Time

pub record AuditEventList : Type 0 where
  pub items : List AuditEvent
  pub next_cursor : Option String

-- `limit + 1` in an int32.
abbrev pub succ_int32 : ℤ → ℤ
succ_int32 (pos n) = if ltb n 2147483647 then pos (suc n) else negsuc 2147483647
succ_int32 (negsuc ℕ.zero) = pos 0
succ_int32 (negsuc (suc n)) = negsuc n

unfoldable pub audit_params : Uuid → AuditQuery → ℤ → Option Time → Uuid → ListAuditEventsParams
audit_params project q limit cursor_ts cursor_id = record {
  project_id = project;
  action = q.action;
  actor = q.actor;
  from = q.from;
  to = q.to;
  cursor_ts = cursor_ts;
  cursor_id = cursor_id;
  limit = succ_int32 limit;
}

unfoldable pub read_cursor : CursorCodec → String → Result Refusal (Option Time × Uuid)
read_cursor c text = if text == "" then ok (none, 0) else or_status 400 (c.decode text)

-- `rows[i]`.
unfoldable pub get_elem? : {A : Type 0} → ℕ → List A → Option A
get_elem? i [] = none
get_elem? ℕ.zero (x ∷ xs) = some x
get_elem? (suc i) (x ∷ xs) = get_elem? i xs

-- The items of a page, and the cursor behind its last one if there are more; an index out of range
-- panics.
unfoldable pub page : CursorCodec → ℤ → List AuditEvent → Result Refusal AuditEventList
unfolding get_elem? take
page c (pos ℕ.zero) [] = ok (record { items = []; next_cursor = none })
page c (pos ℕ.zero) (e ∷ rows) = err panicked
page c (pos (suc n)) rows =
    if ltb (suc n) (length rows)
    then (elim (get_elem? n rows) [
      | none ↦ err panicked
      | some last ↦ ok (record {
        items = take (suc n) rows;
        next_cursor = some (c.encode last.created_at last.id);
      })
    ])
    else ok (record { items = take (suc n) rows; next_cursor = none })
page c (negsuc n) rows = err panicked

-- `Store.ListAuditEvents`, which each engine has its own statement for.
abbrev pub Listing : Type 0
Listing = ListAuditEventsParams → Db → Result StoreError (List AuditEvent)

-- The handler over the given engine.
unfoldable pub handle_list_audit_events_on :
    Listing → CursorCodec → Api → String → AuditQuery → Reply AuditEventList
unfolding require_store not_found_or_error get_project_by_slug audit_params read_cursor page
handle_list_audit_events_on listing c api slug q = do
  conn ← require_store api
  proj ← not_found_or_error (read conn (get_project_by_slug slug))
  let limit = limit_or 100 q.limit
  cursor ← read_cursor c q.cursor
  rows ←
      or_internal_error
        (read conn (λ db. listing (audit_params proj.id q limit cursor.0 cursor.1) db))
  body ← page c limit rows
  ok (200, body)

abbrev pub on_sqlite : Listing
on_sqlite p db = ok (list_audit_events p db)

unfoldable pub handle_list_audit_events :
    CursorCodec → Api → String → AuditQuery → Reply AuditEventList
unfolding handle_list_audit_events_on list_audit_events
handle_list_audit_events = handle_list_audit_events_on on_sqlite
