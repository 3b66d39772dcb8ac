-- ===== src/Store/Reachable/Steps.antt =====
-- The statements of internal/store/sqlite_tx.go and sqlite_audit.go as steps, and the consistency of
-- the tables.
use text.Mathlib.Text.{◌==◌ as str_eq}
use false_flag_demo.Base.{String, Bool, true, false, ◌&&◌, ◌≡◌, List, [], ◌∷◌, ◌==◌, All, exists}
use false_flag_demo.Base.Result.{ok}
use false_flag_demo.Store.{
  Uuid, Project, Flag, FlagVersion, AuditEvent, Environment, Segment, Snapshot, AppendAuditParams,
  CreateFlagParams, PublishFlagVersionParams, CreateSegmentParams, UpdateSegmentParams,
  CompileSnapshotParams, Db, Fresh,
}
use false_flag_demo.Store.Queries.{
  has_flag, has_project, has_environment, has_optional, versions_of, snapshot_versions, is_segment,
}
use false_flag_demo.Store.Tx.{
  create_project, create_flag, create_environment, create_segment, update_segment,
  publish_flag_version, compile_snapshot, append_audit,
}
use false_flag_demo.Store.Numbering.{IsNumbered}

abbrev pub empty_db : Db
empty_db = record {
  projects = [];
  flags = [];
  flag_versions = [];
  audit_events = [];
  environments = [];
  segments = [];
  snapshots = [];
}

-- One statement of the `Tx` interface, or the append of an audit event, that succeeds.
pub data Step : Db → Db → Type 0 where
  project_created :
      {db db' : Db} (f : Fresh) (slug name strategy : String) (x : Project)
      → create_project f slug name strategy db ≡ ok (x, db')
      → Step db db'
  flag_created :
      {db db' : Db} (f : Fresh) (p : CreateFlagParams) (x : Flag)
      → create_flag f p db ≡ ok (x, db')
      → Step db db'
  environment_created :
      {db db' : Db} (f : Fresh) (project : Uuid) (slug name : String) (x : Environment)
      → create_environment f project slug name db ≡ ok (x, db')
      → Step db db'
  segment_created :
      {db db' : Db} (f : Fresh) (p : CreateSegmentParams) (x : Segment)
      → create_segment f p db ≡ ok (x, db')
      → Step db db'
  segment_updated :
      {db db' : Db} (f : Fresh) (p : UpdateSegmentParams) (x : Segment)
      → update_segment f p db ≡ ok (x, db')
      → Step db db'
  version_published :
      {db db' : Db} (f : Fresh) (p : PublishFlagVersionParams) (x : FlagVersion)
      → publish_flag_version f p db ≡ ok (x, db')
      → Step db db'
  snapshot_compiled :
      {db db' : Db} (f : Fresh) (p : CompileSnapshotParams) (x : Snapshot)
      → compile_snapshot f p db ≡ ok (x, db')
      → Step db db'
  audit_appended :
      {db db' : Db} (f : Fresh) (p : AppendAuditParams) (x : AuditEvent)
      → append_audit f p db ≡ ok (x, db')
      → Step db db'

pub data Reach (start : Db) : Db → Type 0 where
  here : Reach start start
  next : {db db' : Db} → Reach start db → Step db db' → Reach start db'

-- No two rows are the same in a column, or in several.
abbrev pub IsDistinct : {A : Type 0} → (A → A → Bool) → List A → Type 0
IsDistinct same [] = Unit
IsDistinct same (x ∷ xs) = (exists (same x) xs ≡ false) × IsDistinct same xs

abbrev pub same_slug : Project → Project → Bool
same_slug p q = str_eq q.slug p.slug

abbrev pub same_flag : Flag → Flag → Bool
same_flag f g = (g.project_id == f.project_id) && str_eq g.key f.key

abbrev pub same_flag_id : Flag → Flag → Bool
same_flag_id f g = g.id == f.id

abbrev pub same_event_id : AuditEvent → AuditEvent → Bool
same_event_id e f = f.id == e.id

abbrev pub same_segment : Segment → Segment → Bool
same_segment s t = is_segment s.project_id s.key t

abbrev pub same_environment : Environment → Environment → Bool
same_environment e f = (f.project_id == e.project_id) && str_eq f.slug e.slug

-- The rows that these have references to are in the tables, an audit event's and a snapshot's
-- environment if it has one.
pub record AreReferences (db : Db) (environments : List Environment) (segments : List Segment)
    (snapshots : List Snapshot) (events : List AuditEvent) : Type 0 where
  pub environments_owned :
      All (λ (e : Environment). has_project e.project_id db ≡ true) environments
  pub segments_owned : All (λ (s : Segment). has_project s.project_id db ≡ true) segments
  pub snapshots_owned : All (λ (s : Snapshot). has_project s.project_id db ≡ true) snapshots
  pub snapshots_placed :
      All (λ (s : Snapshot). has_optional has_environment s.environment_id db ≡ true) snapshots
  pub events_owned :
      All (λ (e : AuditEvent). has_optional has_project e.project_id db ≡ true) events
  pub events_flagged : All (λ (e : AuditEvent). has_optional has_flag e.flag_id db ≡ true) events

abbrev pub HasReferences : Db → Type 0
HasReferences db = AreReferences db db.environments db.segments db.snapshots db.audit_events

pub record IsConsistent (db : Db) : Type 0 where
  pub flags_numbered : (flag : Uuid) → IsNumbered (versions_of flag db)
  pub snapshots_numbered : (project : Uuid) → IsNumbered (snapshot_versions project db)
  pub project_slugs : IsDistinct same_slug db.projects
  pub flag_keys : IsDistinct same_flag db.flags
  pub flag_ids : IsDistinct same_flag_id db.flags
  pub segment_keys : IsDistinct same_segment db.segments
  pub event_ids : IsDistinct same_event_id db.audit_events
  pub flags_owned : All (λ (f : Flag). has_project f.project_id db ≡ true) db.flags
  pub versions_owned : All (λ (v : FlagVersion). has_flag v.flag_id db ≡ true) db.flag_versions
  pub environment_slugs : IsDistinct same_environment db.environments
  pub references : HasReferences db
