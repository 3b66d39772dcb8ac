-- ===== src/Store/Written.antt =====
-- What the statements of a transaction write where they succeed.
use text.Mathlib.Text.{◌==◌ as str_eq}
use false_flag_demo.Base.{
  ℕ, String, Bool, true, false, ◌&&◌, ◌≡◌, refl, List, [], ◌∷◌, arith, ◌==◌, All, exists,
  Option-cases, inl, inr, some,
}
use false_flag_demo.Base.Result.{ok}
use false_flag_demo.Store.{
  Uuid, Project, Flag, FlagVersion, AuditEvent, Environment, Segment, Snapshot, AppendAuditParams,
  CreateFlagParams, PublishFlagVersionParams, CreateSegmentParams, UpdateSegmentParams,
  CompileSnapshotParams, Db, Fresh,
}
use false_flag_demo.Store.Queries.{
  constrained, has_flag, has_project, project_row, flag_row, flag_version_row, environment_row,
  segment_row, snapshot_row, audit_event_row, next_flag_version, insert_project, insert_flag,
  insert_flag_version, insert_environment, insert_segment, next_snapshot_version, insert_snapshot,
  insert_audit_event, overwrite, update_segment_row, is_segment,
}
use false_flag_demo.Store.Tx.{
  raw_message, create_project, create_flag, create_environment, create_segment, update_segment,
  publish_flag_version, compile_snapshot, append_audit, stored_version, stored_snapshot,
  audit_insert_params,
}

pub constrained-eq-ok :
    {A : Type 0} (guards : List (Bool × ℕ)) (row a : A) (db db' : Db)
    → constrained guards row db ≡ ok (a, db')
    → (a ≡ row) × (db' ≡ db) × All (λ g. g.0 ≡ false) guards
unfolding constrained
constrained-eq-ok [] row a db db' e = (cc, cc, tt)
constrained-eq-ok ((true, code) ∷ rest) row a db db' e = cc
constrained-eq-ok ((false, code) ∷ rest) row a db db' e =
    let (here, there, clear) = constrained-eq-ok rest row a db db' e in (here, there, (refl, clear))

module _ (f : Fresh) (db : Db) where
  -- A version that was published has the next number, and nothing else changed.
  pub publish_flag_version-eq-ok :
      (p : PublishFlagVersionParams) (v : FlagVersion) (db' : Db)
      → publish_flag_version f p db ≡ ok (v, db')
      → let row = flag_version_row f (next_flag_version p.flag_id db) (stored_version p) in
        (v ≡ row)
        × (db' ≡ record db { flag_versions = row ∷ db.flag_versions })
        × (has_flag p.flag_id db ≡ true)
  unfolding publish_flag_version insert_flag_version
  publish_flag_version-eq-ok p v db' e =
      let (row, rows, g) = constrained-eq-ok _ _ v _ db' e in (row, rows, ground arith)

  pub compile_snapshot-eq-ok :
      (p : CompileSnapshotParams) (s : Snapshot) (db' : Db)
      → compile_snapshot f p db ≡ ok (s, db')
      → let row = snapshot_row f (next_snapshot_version p.project_id db) (stored_snapshot p) in
        (s ≡ row)
        × (db' ≡ record db { snapshots = row ∷ db.snapshots })
        × (has_project p.project_id db ≡ true)
  unfolding compile_snapshot insert_snapshot
  compile_snapshot-eq-ok p s db' e =
      let (row, rows, g) = constrained-eq-ok _ _ s _ db' e in (row, rows, ground arith)

  pub create_project-eq-ok :
      (slug name strategy : String) (x : Project) (db' : Db)
      → create_project f slug name strategy db ≡ ok (x, db')
      → let row = project_row f slug name strategy in
        (x ≡ row)
        × (db' ≡ record db { projects = row ∷ db.projects })
        × (has_project f.id db ≡ false)
        × (exists (λ (p : Project). str_eq p.slug slug) db.projects ≡ false)
  unfolding create_project insert_project
  create_project-eq-ok slug name strategy x db' e =
      let (row, rows, g) = constrained-eq-ok _ _ x _ db' e in
      (row, rows, ground arith, ground arith)

  pub create_flag-eq-ok :
      (p : CreateFlagParams) (x : Flag) (db' : Db)
      → create_flag f p db ≡ ok (x, db')
      → let row = flag_row f (record p { default_value = raw_message p.default_value }) in
        (x ≡ row)
        × (db' ≡ record db { flags = row ∷ db.flags })
        × (has_flag f.id db ≡ false)
        × (exists (λ (y : Flag). (y.project_id == p.project_id) && str_eq y.key p.key) db.flags
            ≡ false)
        × (has_project p.project_id db ≡ true)
  unfolding create_flag insert_flag
  create_flag-eq-ok p x db' e =
      let (row, rows, g) = constrained-eq-ok _ _ x _ db' e in
      (row, rows, ground arith, ground arith, ground arith)

  pub create_environment-eq-ok :
      (project : Uuid) (slug name : String) (x : Environment) (db' : Db)
      → create_environment f project slug name db ≡ ok (x, db')
      → let row = environment_row f project slug name in
        (x ≡ row) × (db' ≡ record db { environments = row ∷ db.environments })
  unfolding create_environment insert_environment
  create_environment-eq-ok project slug name x db' e =
      let (row, rows, g) = constrained-eq-ok _ _ x _ db' e in (row, rows)

  pub create_segment-eq-ok :
      (p : CreateSegmentParams) (x : Segment) (db' : Db)
      → create_segment f p db ≡ ok (x, db')
      → let row = segment_row f (record p { predicate = raw_message p.predicate }) in
        (x ≡ row)
        × (db' ≡ record db { segments = row ∷ db.segments })
        × (exists (is_segment p.project_id p.key) db.segments ≡ false)
  unfolding create_segment insert_segment
  create_segment-eq-ok p x db' e =
      let (row, rows, g) = constrained-eq-ok _ _ x _ db' e in (row, rows, ground arith)

  pub append_audit-eq-ok :
      (p : AppendAuditParams) (x : AuditEvent) (db' : Db)
      → append_audit f p db ≡ ok (x, db')
      → let row = audit_event_row f (audit_insert_params p) in
        (x ≡ row)
        × (db' ≡ record db { audit_events = row ∷ db.audit_events })
        × (exists (λ (e : AuditEvent). e.id == f.id) db.audit_events ≡ false)
  unfolding append_audit insert_audit_event
  append_audit-eq-ok p x db' e =
      let (row, rows, g) = constrained-eq-ok _ _ x _ db' e in (row, rows, ground arith)

  pub update_segment-eq-ok :
      (p : UpdateSegmentParams) (x : Segment) (db' : Db)
      → update_segment f p db ≡ ok (x, db')
      → let out = overwrite f (record p { predicate = raw_message p.predicate }) db.segments in
        (out.0 ≡ some x) × (db' ≡ record db { segments = out.1 })
  unfolding update_segment update_segment_row
  update_segment-eq-ok p x db' e =
      let out = overwrite f (record p { predicate = raw_message p.predicate }) db.segments in
      elim (Option-cases out.0) [
        | inl missing ↦ absurd (ground arith)
        | inr (s, found) ↦ ground arith
      ]
