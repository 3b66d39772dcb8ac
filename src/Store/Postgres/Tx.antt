-- ===== src/Store/Postgres/Tx.antt =====
-- internal/store/pg_tx.go, pg_audit.go, pg_flags.go and pg_snapshots.go: the statements a transaction
-- may make, and its retries. A serializable transaction that commits has run as if alone: the tables
-- it found are those before it in that order. An error that a statement meets from outside, as
-- a serialization failure, is met at the commit: either way nothing is kept.
use text.Mathlib.Text.{◌==◌ as str_eq}
use false_flag_demo.Base.{ℕ, String, Bool, false, Option, if◌then◌else◌}
use false_flag_demo.Base.Result.{Result, ok, ◌>>=◌}
use false_flag_demo.Store.{
  Uuid, Project, Flag, FlagVersion, AuditEvent, Environment, Segment, Snapshot, AppendAuditParams,
  CreateFlagParams, PublishFlagVersionParams, CreateSegmentParams, UpdateSegmentParams,
  CompileSnapshotParams, Db, Fresh, StoreError, sqlstate,
}
use false_flag_demo.Store.Queries.{Sql}
use false_flag_demo.Store.Postgres.Queries as Pg
use false_flag_demo.Store.Tx.{Attempt, run_once_tx, retry_from}
use false_flag_demo.Values.{RawMessage}

unfoldable pub create_project : Fresh → String → String → String → Sql Project
unfolding Pg.insert_project
create_project = Pg.insert_project

unfoldable pub create_environment : Fresh → Uuid → String → String → Sql Environment
unfolding Pg.insert_environment
create_environment = Pg.insert_environment

abbrev pub serialization_failure : String
serialization_failure = "40001"

unfoldable pub is_serialization_failure : StoreError → Bool
is_serialization_failure (sqlstate s) = str_eq s serialization_failure
is_serialization_failure _ = false

abbrev pub with_audit_max_retries : ℕ
with_audit_max_retries = 8

-- `pgAuditInsertParams`: an empty payload is kept as `{}`.
abbrev pub audit_insert_params : AppendAuditParams → AppendAuditParams
audit_insert_params p = record p { payload = if str_eq p.payload "" then "{}" else p.payload }

module _ (jsonb : RawMessage → Option RawMessage) where
  unfoldable pub create_flag : Fresh → CreateFlagParams → Sql Flag
  unfolding Pg.insert_flag
  create_flag = Pg.insert_flag jsonb

  unfoldable pub create_segment : Fresh → CreateSegmentParams → Sql Segment
  unfolding Pg.insert_segment
  create_segment = Pg.insert_segment jsonb

  unfoldable pub update_segment : Fresh → UpdateSegmentParams → Sql Segment
  unfolding Pg.update_segment
  update_segment = Pg.update_segment jsonb

  unfoldable pub publish_flag_version : Fresh → PublishFlagVersionParams → Sql FlagVersion
  unfolding Pg.next_flag_version Pg.insert_flag_version
  publish_flag_version f p db = do
    version ← Pg.next_flag_version p.flag_id db
    Pg.insert_flag_version jsonb f version p db

  unfoldable pub compile_snapshot : Fresh → CompileSnapshotParams → Sql Snapshot
  unfolding Pg.next_snapshot_version Pg.insert_snapshot
  compile_snapshot f p db = do
    version ← Pg.next_snapshot_version p.project_id db
    Pg.insert_snapshot jsonb f version p db

  unfoldable pub append_audit : Fresh → AppendAuditParams → Sql AuditEvent
  unfolding Pg.insert_audit_event
  append_audit f p = Pg.insert_audit_event jsonb f (audit_insert_params p)

  -- Neither of these two is tried again.
  unfoldable pub publish_flag_version_standalone :
      Attempt → PublishFlagVersionParams → Result StoreError (FlagVersion × Db)
  unfolding run_once_tx publish_flag_version
  publish_flag_version_standalone a p = run_once_tx a (λ b. publish_flag_version b.fresh p)

  unfoldable pub compile_snapshot_standalone :
      Attempt → CompileSnapshotParams → Result StoreError (Snapshot × Db)
  unfolding run_once_tx compile_snapshot
  compile_snapshot_standalone a p = run_once_tx a (λ b. compile_snapshot b.fresh p)

  module _ {A : Type 0} where
    -- What `withAuditOnce` runs between the begin and the commit.
    unfoldable pub audited : AppendAuditParams → (Fresh → Sql A) → Attempt → Sql A
    unfolding append_audit
    audited event body a db = do
      out ← body a.fresh db
      appended ← append_audit a.audit_fresh event out.1
      ok (out.0, appended.1)

    unfoldable pub with_audit :
        (ℕ → Attempt) → AppendAuditParams → (Fresh → Sql A) → Result StoreError (A × Db)
    unfolding retry_from is_serialization_failure audited
    with_audit attempts event body =
        retry_from is_serialization_failure attempts (audited event body) 0 with_audit_max_retries
