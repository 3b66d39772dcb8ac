-- ===== src/Server/Committed/Mutations.antt =====
-- The one statement that a request with the given action makes, and what it leaves alone.
use false_flag_demo.Base.{String, ◌≡◌, ap}
use false_flag_demo.Base.Result.{ok}
use false_flag_demo.Store.{
  Uuid, Project, Flag, FlagVersion, Environment, Segment, Snapshot, CreateFlagParams,
  PublishFlagVersionParams, CreateSegmentParams, UpdateSegmentParams, CompileSnapshotParams, Db,
  Fresh,
}
use false_flag_demo.Store.Reachable.{
  Step, project_created, flag_created, environment_created, segment_created, segment_updated,
  version_published, snapshot_compiled,
}
use false_flag_demo.Store.Tx.{
  create_project, create_flag, create_environment, create_segment, update_segment,
  publish_flag_version, compile_snapshot,
}
use false_flag_demo.Store.Written as Written

-- `Mutation A action row before after`: the statement named by the action gives the row.
pub data Mutation : (A : Type 0) → String → A → Db → Db → Type 1 where
  inserts_project :
      {db db' : Db} (f : Fresh) (slug name strategy : String) (x : Project)
      → create_project f slug name strategy db ≡ ok (x, db')
      → Mutation Project "create_project" x db db'
  inserts_flag :
      {db db' : Db} (f : Fresh) (p : CreateFlagParams) (x : Flag)
      → create_flag f p db ≡ ok (x, db')
      → Mutation Flag "create_flag" x db db'
  inserts_environment :
      {db db' : Db} (f : Fresh) (project : Uuid) (slug name : String) (x : Environment)
      → create_environment f project slug name db ≡ ok (x, db')
      → Mutation Environment "create_environment" x db db'
  inserts_segment :
      {db db' : Db} (f : Fresh) (p : CreateSegmentParams) (x : Segment)
      → create_segment f p db ≡ ok (x, db')
      → Mutation Segment "create_segment" x db db'
  overwrites_segment :
      {db db' : Db} (f : Fresh) (p : UpdateSegmentParams) (x : Segment)
      → update_segment f p db ≡ ok (x, db')
      → Mutation Segment "update_segment" x db db'
  inserts_version :
      {db db' : Db} (f : Fresh) (p : PublishFlagVersionParams) (x : FlagVersion)
      → publish_flag_version f p db ≡ ok (x, db')
      → Mutation FlagVersion "publish_version" x db db'
  inserts_snapshot :
      {db db' : Db} (f : Fresh) (p : CompileSnapshotParams) (x : Snapshot)
      → compile_snapshot f p db ≡ ok (x, db')
      → Mutation Snapshot "compile_snapshot" x db db'

pub Mutation-Step :
    {A : Type 0} {action : String} {row : A} {db db' : Db}
    → Mutation A action row db db'
    → Step db db'
Mutation-Step (inserts_project f slug name strategy x e) = project_created f slug name strategy x e
Mutation-Step (inserts_flag f p x e) = flag_created f p x e
Mutation-Step (inserts_environment f project slug name x e) =
    environment_created f project slug name x e
Mutation-Step (inserts_segment f p x e) = segment_created f p x e
Mutation-Step (overwrites_segment f p x e) = segment_updated f p x e
Mutation-Step (inserts_version f p x e) = version_published f p x e
Mutation-Step (inserts_snapshot f p x e) = snapshot_compiled f p x e

-- None of these statements touches the audit events.
pub Mutation-events :
    {A : Type 0} {action : String} {row : A} {db db' : Db}
    → Mutation A action row db db'
    → db'.audit_events ≡ db.audit_events
Mutation-events {db = db} {db' = db'} (inserts_project f slug name strategy x e) =
    let (row, rows, q₁, q₂) = Written.create_project-eq-ok f db slug name strategy x db' e in
    ap (λ d. d.audit_events) rows
Mutation-events {db = db} {db' = db'} (inserts_flag f p x e) =
    let (row, rows, q₁, q₂, q₃) = Written.create_flag-eq-ok f db p x db' e in
    ap (λ d. d.audit_events) rows
Mutation-events {db = db} {db' = db'} (inserts_environment f project slug name x e) =
    let (row, rows) = Written.create_environment-eq-ok f db project slug name x db' e in
    ap (λ d. d.audit_events) rows
Mutation-events {db = db} {db' = db'} (inserts_segment f p x e) =
    let (row, rows, q) = Written.create_segment-eq-ok f db p x db' e in
    ap (λ d. d.audit_events) rows
Mutation-events {db = db} {db' = db'} (overwrites_segment f p x e) =
    let (found, rows) = Written.update_segment-eq-ok f db p x db' e in ap (λ d. d.audit_events) rows
Mutation-events {db = db} {db' = db'} (inserts_version f p x e) =
    let (row, rows, q) = Written.publish_flag_version-eq-ok f db p x db' e in
    ap (λ d. d.audit_events) rows
Mutation-events {db = db} {db' = db'} (inserts_snapshot f p x e) =
    let (row, rows, q) = Written.compile_snapshot-eq-ok f db p x db' e in
    ap (λ d. d.audit_events) rows
