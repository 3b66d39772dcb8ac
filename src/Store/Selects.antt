-- ===== src/Store/Selects.antt =====
-- internal/db/sqlite: the statements that read. Rows that a query orders alike keep the order of the
-- table.
use text.Mathlib.Text.{◌==◌ as str_eq}
use false_flag_demo.Base.{
  ℕ, String, Bool, true, false, ◌&&◌, ◌||◌, not, Option, none, some, List, ltb, ◌==◌, first, select,
  order_by, take, head,
}
use false_flag_demo.Base.Int.{ℤ, pos, negsuc}
use false_flag_demo.Store.{
  Uuid, Time, Project, Flag, FlagVersion, AuditEvent, Environment, Segment, Snapshot,
  ListAuditEventsParams, Db,
}
use false_flag_demo.Store.Queries.{of_flag, of_project, is_segment}

abbrev pub has_slug : String → Project → Bool
has_slug slug p = str_eq p.slug slug

abbrev pub select_project_by_slug : String → Db → Option Project
select_project_by_slug slug db = first (has_slug slug) db.projects

abbrev pub select_projects : Db → List Project
select_projects db =
    order_by (λ (p : Project) (q : Project). ltb q.created_at p.created_at) db.projects

abbrev pub is_flag : Uuid → String → Flag → Bool
is_flag project key f = (f.project_id == project) && str_eq f.key key

abbrev pub select_flag_by_key : Uuid → String → Db → Option Flag
select_flag_by_key project key db = first (is_flag project key) db.flags

abbrev pub select_flags_by_project : Uuid → Db → List Flag
select_flags_by_project project db =
    order_by (λ (f : Flag) (g : Flag). ltb g.created_at f.created_at)
      (select (λ (f : Flag). f.project_id == project) db.flags)

-- `ORDER BY version DESC`.
abbrev pub descending : {A : Type 0} → (A → ℕ) → A → A → Bool
descending key x y = ltb (key y) (key x)

abbrev pub version_of : FlagVersion → ℕ
version_of v = v.version

abbrev pub select_flag_versions : Uuid → Db → List FlagVersion
select_flag_versions flag db =
    order_by (descending version_of) (select (of_flag flag) db.flag_versions)

abbrev pub select_environment_by_slug : Uuid → String → Db → Option Environment
select_environment_by_slug project slug db =
    first (λ (e : Environment). (e.project_id == project) && str_eq e.slug slug) db.environments

-- `ORDER BY created_at ASC`, as of segments.
abbrev pub select_environments_by_project : Uuid → Db → List Environment
select_environments_by_project project db =
    order_by (λ (e : Environment) (f : Environment). ltb e.created_at f.created_at)
      (select (λ (e : Environment). e.project_id == project) db.environments)

abbrev pub select_segment_by_key : Uuid → String → Db → Option Segment
select_segment_by_key project key db = first (is_segment project key) db.segments

abbrev pub select_segments_by_project : Uuid → Db → List Segment
select_segments_by_project project db =
    order_by (λ (s : Segment) (t : Segment). ltb s.created_at t.created_at)
      (select (λ (s : Segment). s.project_id == project) db.segments)

abbrev pub select_snapshot_by_id : Uuid → Uuid → Db → Option Snapshot
select_snapshot_by_id project id db =
    first (λ (s : Snapshot). (s.project_id == project) && (s.id == id)) db.snapshots

abbrev pub number_of : Snapshot → ℕ
number_of s = s.version

abbrev pub select_snapshots : Uuid → Db → List Snapshot
select_snapshots project db =
    order_by (descending number_of) (select (of_project project) db.snapshots)

-- `LIMIT ?`: SQLite takes a negative limit for none.
abbrev pub limit_rows : {A : Type 0} → ℤ → List A → List A
limit_rows (pos n) rows = take n rows
limit_rows (negsuc n) rows = rows

abbrev pub select_latest_snapshot : Uuid → Db → Option Snapshot
select_latest_snapshot project db = head (select_snapshots project db)

abbrev pub select_snapshots_by_project : Uuid → ℤ → Db → List Snapshot
select_snapshots_by_project project limit db = limit_rows limit (select_snapshots project db)

-- `?n IS NULL OR column = ?n`, where the empty text is passed as NULL.
abbrev pub unset_or_is : String → String → Bool
unset_or_is wanted value = str_eq wanted "" || str_eq value wanted

abbrev pub not_before : Option Time → Time → Bool
not_before none t = true
not_before (some from) t = not (ltb t from)

abbrev pub before : Option Time → Time → Bool
before none t = true
before (some to) t = ltb t to

-- Newest first, and of one time the greater id first.
abbrev pub comes_before : Time → Uuid → Time → Uuid → Bool
comes_before t id u id' = ltb u t || ((t == u) && ltb id' id)

abbrev pub behind_cursor : Option Time → Uuid → AuditEvent → Bool
behind_cursor none id e = true
behind_cursor (some ts) id e = comes_before ts id e.created_at e.id

abbrev pub in_project : Uuid → Option Uuid → Bool
in_project project none = false
in_project project (some id) = id == project

-- The conditions but that on the cursor.
unfoldable pub is_listed : ListAuditEventsParams → AuditEvent → Bool
is_listed p e =
    in_project p.project_id e.project_id
    && unset_or_is p.action e.action
    && unset_or_is p.actor e.actor
    && not_before p.from e.created_at
    && before p.to e.created_at

abbrev pub event_before : AuditEvent → AuditEvent → Bool
event_before e f = comes_before e.created_at e.id f.created_at f.id

abbrev pub select_audit_events : ListAuditEventsParams → Db → List AuditEvent
select_audit_events p db = limit_rows p.limit (
    order_by event_before
      (select (λ e. is_listed p e && behind_cursor p.cursor_ts p.cursor_id e) db.audit_events))
