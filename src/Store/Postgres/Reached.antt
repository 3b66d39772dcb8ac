-- ===== src/Store/Postgres/Reached.antt =====
-- Every state that the statements of internal/store/pg_tx.go and pg_audit.go can reach.
use false_flag_demo.Base.{◌<◌, String, false, Option, some, ◌≡◌, All}
use text.Mathlib.Text.{◌==◌ as str_eq}
use false_flag_demo.Base.Result.{ok}
use false_flag_demo.Store.{
  Uuid, Project, Flag, FlagVersion, AuditEvent, Environment, Segment, Snapshot, AppendAuditParams,
  CreateFlagParams, PublishFlagVersionParams, CreateSegmentParams, UpdateSegmentParams,
  CompileSnapshotParams, Db, Fresh,
}
use false_flag_demo.Store.Queries.{Sql}
use false_flag_demo.Store.Queries as Sqlite
use false_flag_demo.Store.Postgres.Queries as Pg
use false_flag_demo.Store.Postgres.Refined as Refined
use false_flag_demo.Store.Postgres.Tx as PgTx
use false_flag_demo.Store.Reachable.{
  Step, project_created, flag_created, environment_created, segment_created, segment_updated,
  version_published, snapshot_compiled, audit_appended, Reach, here, next, empty_db, IsConsistent,
  Reach-IsConsistent,
}
use false_flag_demo.Store.Tx as SqliteTx
use false_flag_demo.Store.Tx.{Attempt}
use false_flag_demo.Store.Written as Written
use false_flag_demo.Values.{RawMessage}

-- One statement of `pgTx`, or the append of an audit event, that succeeds.
pub data PgStep (jsonb : RawMessage → Option RawMessage) : Db → Db → Type 0 where
  pg_project_created :
      {db db' : Db} (f : Fresh) (slug name strategy : String) (x : Project)
      → PgTx.create_project f slug name strategy db ≡ ok (x, db')
      → PgStep jsonb db db'
  pg_flag_created :
      {db db' : Db} (f : Fresh) (p : CreateFlagParams) (x : Flag)
      → PgTx.create_flag jsonb f p db ≡ ok (x, db')
      → PgStep jsonb db db'
  pg_environment_created :
      {db db' : Db} (f : Fresh) (project : Uuid) (slug name : String) (x : Environment)
      → PgTx.create_environment f project slug name db ≡ ok (x, db')
      → PgStep jsonb db db'
  pg_segment_created :
      {db db' : Db} (f : Fresh) (p : CreateSegmentParams) (x : Segment)
      → PgTx.create_segment jsonb f p db ≡ ok (x, db')
      → PgStep jsonb db db'
  pg_segment_updated :
      {db db' : Db} (f : Fresh) (p : UpdateSegmentParams) (x : Segment)
      → PgTx.update_segment jsonb f p db ≡ ok (x, db')
      → PgStep jsonb db db'
  pg_version_published :
      {db db' : Db} (f : Fresh) (p : PublishFlagVersionParams) (x : FlagVersion)
      → PgTx.publish_flag_version jsonb f p db ≡ ok (x, db')
      → PgStep jsonb db db'
  pg_snapshot_compiled :
      {db db' : Db} (f : Fresh) (p : CompileSnapshotParams) (x : Snapshot)
      → PgTx.compile_snapshot jsonb f p db ≡ ok (x, db')
      → PgStep jsonb db db'
  pg_audit_appended :
      {db db' : Db} (f : Fresh) (p : AppendAuditParams) (x : AuditEvent)
      → PgTx.append_audit jsonb f p db ≡ ok (x, db')
      → PgStep jsonb db db'

pub data PgReach (jsonb : RawMessage → Option RawMessage) (start : Db) : Db → Type 0 where
  pg_here : PgReach jsonb start start
  pg_next : {db db' : Db} → PgReach jsonb start db → PgStep jsonb db db' → PgReach jsonb start db'

-- Every number of a version fits the column of 32 bits that holds it.
abbrev pub FitsInt4 : Db → Type 0
FitsInt4 db =
    All (λ (v : FlagVersion). v.version < 2147483648) db.flag_versions
    × All (λ (s : Snapshot). s.version < 2147483648) db.snapshots

module _ (jsonb : RawMessage → Option RawMessage)
    (written : (raw kept : RawMessage) → jsonb raw ≡ some kept → str_eq kept "" ≡ false) where
  PgStep-Step : {db db' : Db} → PgStep jsonb db db' → FitsInt4 db → Step db db' × FitsInt4 db'
  unfolding SqliteTx.create_project PgTx.create_project Sqlite.insert_project Pg.insert_project
      SqliteTx.create_environment PgTx.create_environment Sqlite.insert_environment
      Pg.insert_environment
  PgStep-Step {db} {db'} (pg_project_created f slug name strategy x e) fits =
      let did : SqliteTx.create_project f slug name strategy db ≡ ok (x, db') =
        Refined.constrained_alike _ _ _ x _ db' (λ c. c) e in
      let (row, rows, r₁, r₂) = Written.create_project-eq-ok f db slug name strategy x db' did in
      (project_created f slug name strategy x did, rw rows fits)
  PgStep-Step {db} {db'} (pg_environment_created f project slug name x e) fits =
      let did : SqliteTx.create_environment f project slug name db ≡ ok (x, db') =
        Refined.constrained_alike _ _ _ x _ db' (λ c. c) e in
      let (row, rows) = Written.create_environment-eq-ok f db project slug name x db' did in
      (environment_created f project slug name x did, rw rows fits)
  PgStep-Step {db} {db'} (pg_flag_created f p x e) fits =
      let (q, did) = Refined.create_flag-eq-ok jsonb written f db db' p x e in
      let (row, rows, r₁, r₂, r₃) = Written.create_flag-eq-ok f db q x db' did in
      (flag_created f q x did, rw rows fits)
  PgStep-Step {db} {db'} (pg_segment_created f p x e) fits =
      let (q, did) = Refined.create_segment-eq-ok jsonb written f db db' p x e in
      let (row, rows, rest) = Written.create_segment-eq-ok f db q x db' did in
      (segment_created f q x did, rw rows fits)
  PgStep-Step {db} {db'} (pg_segment_updated f p x e) fits =
      let (q, did) = Refined.update_segment-eq-ok jsonb written f db db' p x e in
      let (row, rows) = Written.update_segment-eq-ok f db q x db' did in
      (segment_updated f q x did, rw rows fits)
  PgStep-Step {db} {db'} (pg_version_published f p x e) (fits, others) =
      let (q, same, did, bound) = Refined.publish_flag_version-eq-ok jsonb written f db db' p x e in
      let (row, rows, rest) = Written.publish_flag_version-eq-ok f db q x db' did in
      (version_published f q x did, rw rows ((rw same bound, fits), others))
  PgStep-Step {db} {db'} (pg_snapshot_compiled f p x e) (others, fits) =
      let (q, same, did, bound) = Refined.compile_snapshot-eq-ok jsonb written f db db' p x e in
      let (row, rows, rest) = Written.compile_snapshot-eq-ok f db q x db' did in
      (snapshot_compiled f q x did, rw rows (others, (rw same bound, fits)))
  PgStep-Step {db} {db'} (pg_audit_appended f p x e) fits =
      let (q, did) = Refined.append_audit-eq-ok jsonb written f db db' p x e in
      let (row, rows, rest) = Written.append_audit-eq-ok f db q x db' did in
      (audit_appended f q x did, rw rows fits)

  -- Every state that Postgres' statements reach from the empty database, where no JSON text that
  -- a column keeps is empty, SQLite's reach too: it is consistent; and every version in it fits 32
  -- bits.
  pub PgReach-Reach :
      (db : Db) → PgReach jsonb empty_db db → Reach empty_db db × IsConsistent db × FitsInt4 db
  PgReach-Reach db pg_here = (here, Reach-IsConsistent empty_db here, (tt, tt))
  PgReach-Reach db (pg_next r s) =
      let (before, consistent, fits) = PgReach-Reach _ r in
      let (step, after) = PgStep-Step s fits in
      (next before step, Reach-IsConsistent db (next before step), after)
