-- ===== src/Store/Postgres/Queries.antt =====
-- internal/db: the statements that write, on the tables and constraints of db/migrations. Postgres
-- checks in the order of the lists: the CHECK constraints, the primary key, the UNIQUE constraint,
-- and the references last. A statement that fails changes nothing. That
-- a text with the character U+0000 is refused (SQLSTATE 22021) is left out: the texts are those
-- without it.
use text.Mathlib.Text.{◌==◌ as str_eq}
use false_flag_demo.Base.{
  ℕ, String, Bool, true, false, ◌&&◌, not, Option, none, some, List, [], ◌∷◌, ltb, ◌==◌,
  if◌then◌else◌, exists,
}
use false_flag_demo.Base.Result.{Result, ok, err, ◌>>=◌}
use false_flag_demo.Store.{
  Uuid, Project, Flag, FlagVersion, AuditEvent, Environment, Segment, Snapshot, AppendAuditParams,
  CreateFlagParams, PublishFlagVersionParams, CreateSegmentParams, UpdateSegmentParams,
  CompileSnapshotParams, Db, Fresh, StoreError, sqlstate, unique_violation, foreign_key_violation,
}
use false_flag_demo.Store.Queries as Sqlite
use false_flag_demo.Store.Queries.{
  Sql, is_strategy, is_value_type, has_project, has_flag, has_environment, has_optional, of_flag,
  of_project, is_segment, project_row, flag_row, flag_version_row, environment_row, segment_row,
  snapshot_row, audit_event_row, update_segment_row,
}
use false_flag_demo.Values.{RawMessage}

abbrev pub check_violation : String
check_violation = "23514"

abbrev pub invalid_text_representation : String
invalid_text_representation = "22P02"

abbrev pub numeric_value_out_of_range : String
numeric_value_out_of_range = "22003"

-- A write under its constraints, each with its violation and the SQLSTATE for it.
unfoldable pub constrained :
    {A : Type 0} → List (Bool × String) → A → Db → Result StoreError (A × Db)
constrained [] row db = ok (row, db)
constrained ((true, code) ∷ rest) row db = err (sqlstate code)
constrained ((false, code) ∷ rest) row db = constrained rest row db

unfoldable pub insert_project : Fresh → String → String → String → Sql Project
insert_project f slug display_name strategy db =
    let row = project_row f slug display_name strategy in
    constrained
      ((not (is_strategy strategy), check_violation)
        ∷ (has_project f.id db, unique_violation)
        ∷ (exists (λ (p : Project). str_eq p.slug slug) db.projects, unique_violation)
        ∷ [])
      row (record db { projects = row ∷ db.projects })

unfoldable pub insert_environment : Fresh → Uuid → String → String → Sql Environment
insert_environment f project slug name db =
    let row = environment_row f project slug name in
    constrained
      ((has_environment f.id db, unique_violation)
        ∷ (
          exists (λ (e : Environment). (e.project_id == project) && str_eq e.slug slug)
              db.environments,
          unique_violation,
        )
        ∷ (not (has_project project db), foreign_key_violation)
        ∷ [])
      row (record db { environments = row ∷ db.environments })

-- `integer`, which is 32 bits wide, as is the sum `COALESCE(MAX(version), 0) + 1`.
unfoldable pub int4 : ℕ → Result StoreError ℕ
int4 n = if ltb n 2147483648 then ok n else err (sqlstate numeric_value_out_of_range)

unfoldable pub next_flag_version : Uuid → Db → Result StoreError ℕ
unfolding int4
next_flag_version flag db = int4 (Sqlite.next_flag_version flag db)

unfoldable pub next_snapshot_version : Uuid → Db → Result StoreError ℕ
unfolding int4
next_snapshot_version project db = int4 (Sqlite.next_snapshot_version project db)

-- What a column of type `jsonb` keeps of a text, if it takes it.
module _ (jsonb : RawMessage → Option RawMessage) where
  abbrev pub stored : RawMessage → Result StoreError RawMessage
  stored raw = elim (jsonb raw) [
    | none ↦ err (sqlstate invalid_text_representation)
    | some kept ↦ ok kept
  ]

  unfoldable pub insert_flag : Fresh → CreateFlagParams → Sql Flag
  insert_flag f p db = do
    kept ← stored p.default_value
    let row = flag_row f (record p { default_value = kept })
    constrained
        ((not (is_value_type p.value_type), check_violation)
          ∷ (has_flag f.id db, unique_violation)
          ∷ (
            exists (λ (x : Flag). (x.project_id == p.project_id) && str_eq x.key p.key) db.flags,
            unique_violation,
          )
          ∷ (not (has_project p.project_id db), foreign_key_violation)
          ∷ [])
        row (record db { flags = row ∷ db.flags })

  unfoldable pub insert_flag_version : Fresh → ℕ → PublishFlagVersionParams → Sql FlagVersion
  insert_flag_version f version p db = do
    source ← stored p.source
    compiled ← stored p.compiled
    let row = flag_version_row f version (record p { source = source; compiled = compiled })
    constrained
        ((not (is_strategy p.strategy), check_violation)
          ∷ (exists (λ (v : FlagVersion). v.id == f.id) db.flag_versions, unique_violation)
          ∷ (
            exists (λ (v : FlagVersion). of_flag p.flag_id v && (v.version == version))
                db.flag_versions,
            unique_violation,
          )
          ∷ (not (has_flag p.flag_id db), foreign_key_violation)
          ∷ [])
        row (record db { flag_versions = row ∷ db.flag_versions })

  unfoldable pub insert_segment : Fresh → CreateSegmentParams → Sql Segment
  insert_segment f p db = do
    kept ← stored p.predicate
    let row = segment_row f (record p { predicate = kept })
    constrained
        ((exists (λ (s : Segment). s.id == f.id) db.segments, unique_violation)
          ∷ (exists (is_segment p.project_id p.key) db.segments, unique_violation)
          ∷ (not (has_project p.project_id db), foreign_key_violation)
          ∷ [])
        row (record db { segments = row ∷ db.segments })

  -- The statement is that of SQLite.
  unfoldable pub update_segment : Fresh → UpdateSegmentParams → Sql Segment
  unfolding update_segment_row
  update_segment f p db = do
    kept ← stored p.predicate
    update_segment_row f (record p { predicate = kept }) db

  unfoldable pub insert_snapshot : Fresh → ℕ → CompileSnapshotParams → Sql Snapshot
  insert_snapshot f version p db = do
    kept ← stored p.compiled
    let row = snapshot_row f version (record p { compiled = kept })
    constrained
        ((exists (λ (s : Snapshot). s.id == f.id) db.snapshots, unique_violation)
          ∷ (
            exists (λ (s : Snapshot). of_project p.project_id s && (s.version == version))
                db.snapshots,
            unique_violation,
          )
          ∷ (not (has_project p.project_id db), foreign_key_violation)
          ∷ (not (has_optional has_environment p.environment_id db), foreign_key_violation)
          ∷ [])
        row (record db { snapshots = row ∷ db.snapshots })

  unfoldable pub insert_audit_event : Fresh → AppendAuditParams → Sql AuditEvent
  insert_audit_event f p db = do
    kept ← stored p.payload
    let row = audit_event_row f (record p { payload = kept })
    constrained
        ((exists (λ (e : AuditEvent). e.id == f.id) db.audit_events, unique_violation)
          ∷ (not (has_optional has_project p.project_id db), foreign_key_violation)
          ∷ (not (has_optional has_flag p.flag_id db), foreign_key_violation)
          ∷ [])
        row (record db { audit_events = row ∷ db.audit_events })
