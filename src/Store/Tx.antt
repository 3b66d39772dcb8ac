-- ===== src/Store/Tx.antt =====
-- internal/store/sqlite_tx.go and sqlite_audit.go: what a transaction may do, and its retries.
use text.Mathlib.Text.{◌==◌ as str_eq}
use false_flag_demo.Base.{ℕ, zero, suc, String, Bool, false, ◌||◌, ◌==◌, if◌then◌else◌}
use false_flag_demo.Base.Result.{Result, ok, err, Check, ◌>>=◌, ◌>>◌}
use false_flag_demo.Store.{
  Uuid, Project, Flag, FlagVersion, AuditEvent, Environment, Segment, Snapshot, AppendAuditParams,
  CreateFlagParams, PublishFlagVersionParams, CreateSegmentParams, UpdateSegmentParams,
  CompileSnapshotParams, Db, Fresh, StoreError, coded,
}
use false_flag_demo.Store.Queries.{
  Sql, insert_project, insert_flag, next_flag_version, insert_flag_version, insert_environment,
  insert_segment, update_segment_row, next_snapshot_version, insert_snapshot, insert_audit_event,
}
use false_flag_demo.Values.{RawMessage}

-- `sqliteRawMessage`: an empty message is kept as `{}`.
abbrev pub raw_message : RawMessage → RawMessage
raw_message raw = if str_eq raw "" then "{}" else raw

unfoldable pub create_project : Fresh → String → String → String → Sql Project
unfolding insert_project
create_project = insert_project

unfoldable pub create_flag : Fresh → CreateFlagParams → Sql Flag
unfolding insert_flag
create_flag f p = insert_flag f (record p { default_value = raw_message p.default_value })

unfoldable pub create_environment : Fresh → Uuid → String → String → Sql Environment
unfolding insert_environment
create_environment = insert_environment

unfoldable pub create_segment : Fresh → CreateSegmentParams → Sql Segment
unfolding insert_segment
create_segment f p = insert_segment f (record p { predicate = raw_message p.predicate })

unfoldable pub update_segment : Fresh → UpdateSegmentParams → Sql Segment
unfolding update_segment_row
update_segment f p = update_segment_row f (record p { predicate = raw_message p.predicate })

abbrev pub stored_version : PublishFlagVersionParams → PublishFlagVersionParams
stored_version p = record p { source = raw_message p.source; compiled = raw_message p.compiled }

unfoldable pub publish_flag_version : Fresh → PublishFlagVersionParams → Sql FlagVersion
unfolding next_flag_version insert_flag_version
publish_flag_version f p db =
    insert_flag_version f (next_flag_version p.flag_id db) (stored_version p) db

abbrev pub stored_snapshot : CompileSnapshotParams → CompileSnapshotParams
stored_snapshot p = record p { compiled = raw_message p.compiled }

unfoldable pub compile_snapshot : Fresh → CompileSnapshotParams → Sql Snapshot
unfolding next_snapshot_version insert_snapshot
compile_snapshot f p db =
    insert_snapshot f (next_snapshot_version p.project_id db) (stored_snapshot p) db

abbrev pub audit_insert_params : AppendAuditParams → AppendAuditParams
audit_insert_params p = record p { payload = raw_message p.payload }

unfoldable pub append_audit : Fresh → AppendAuditParams → Sql AuditEvent
unfolding insert_audit_event
append_audit f p = insert_audit_event f (audit_insert_params p)

-- What one attempt at a transaction meets: the committed tables that `BEGIN IMMEDIATE` locks, or its
-- error; the fresh values of its inserts; the outcome of `COMMIT`; and how the wait after it ends,
-- an error being that of a cancelled context.
pub record Attempt : Type 0 where
  pub begun : Result StoreError Db
  pub fresh : Fresh
  pub audit_fresh : Fresh
  pub committed : Check StoreError
  pub waited : Check StoreError

abbrev pub sqlite_busy : ℕ
sqlite_busy = 5

abbrev pub sqlite_busy_snapshot : ℕ
sqlite_busy_snapshot = 517

unfoldable pub is_sqlite_retry : StoreError → Bool
is_sqlite_retry (coded c) = (c == sqlite_busy) || (c == sqlite_busy_snapshot)
is_sqlite_retry _ = false

abbrev pub max_retries : ℕ
max_retries = 8

-- A result stands for `err == nil` with what the closure captured, and the tables committed.
module _ {A : Type 0} where
  -- The deferred rollback leaves the tables as they were.
  unfoldable pub run_once_tx : Attempt → (Attempt → Sql A) → Result StoreError (A × Db)
  run_once_tx a body = do db ← a.begun; out ← body a db; a.committed >> ok out

  -- Which errors are tried again depends on the engine.
  module _ (is_retry : StoreError → Bool) where
    abbrev pub or_retry :
        Check StoreError
        → Result StoreError (A × Db)
        → Result StoreError (A × Db)
        → Result StoreError (A × Db)
    or_retry wait again (ok out) = ok out
    or_retry wait again (err e) = if is_retry e then wait >> again else err e

    -- The loop from attempt `n` on, `left` retries being left.
    unfoldable pub retry_from :
        (ℕ → Attempt) → (Attempt → Sql A) → ℕ → ℕ → Result StoreError (A × Db)
    unfolding run_once_tx
    retry_from attempts body n zero = run_once_tx (attempts n) body
    retry_from attempts body n (suc left) =
        or_retry (attempts n).waited (retry_from attempts body (suc n) left)
          (run_once_tx (attempts n) body)

  unfoldable pub with_immediate_tx : (ℕ → Attempt) → (Attempt → Sql A) → Result StoreError (A × Db)
  unfolding retry_from is_sqlite_retry
  with_immediate_tx attempts body = retry_from is_sqlite_retry attempts body 0 max_retries

  -- The body of the transaction that `WithAudit` runs.
  unfoldable pub audited : AppendAuditParams → (Fresh → Sql A) → Attempt → Sql A
  unfolding append_audit
  audited event body a db = do
    out ← body a.fresh db
    appended ← append_audit a.audit_fresh event out.1
    ok (out.0, appended.1)

  unfoldable pub with_audit :
      (ℕ → Attempt) → AppendAuditParams → (Fresh → Sql A) → Result StoreError (A × Db)
  unfolding with_immediate_tx audited
  with_audit attempts event body = with_immediate_tx attempts (audited event body)

unfoldable pub publish_flag_version_standalone :
    (ℕ → Attempt) → PublishFlagVersionParams → Result StoreError (FlagVersion × Db)
unfolding with_immediate_tx publish_flag_version
publish_flag_version_standalone attempts p =
    with_immediate_tx attempts (λ a. publish_flag_version a.fresh p)

unfoldable pub compile_snapshot_standalone :
    (ℕ → Attempt) → CompileSnapshotParams → Result StoreError (Snapshot × Db)
unfolding with_immediate_tx compile_snapshot
compile_snapshot_standalone attempts p =
    with_immediate_tx attempts (λ a. compile_snapshot a.fresh p)
