-- ===== src/Store/Postgres/Lookups.antt =====
-- internal/store/pg_snapshots.go, pg_audit.go and pg_segments.go, with their queries in internal/db:
-- the reads whose statements are not those of SQLite.
use false_flag_demo.Base.{
  String, Bool, ◌&&◌, ◌||◌, Option, none, some, List, [], ◌∷◌, ltb, ◌==◌, first, select, order_by,
  take, if◌then◌else◌,
}
use false_flag_demo.Base.Int.{ℤ, pos, negsuc}
use false_flag_demo.Base.Result.{Result, ok, err}
use false_flag_demo.Store.{
  Uuid, Flag, FlagVersion, AuditEvent, Segment, Snapshot, LatestFlagVersion, ListAuditEventsParams,
  UpdateSegmentParams, Db, Fresh, StoreError, sqlstate, no_rows, not_found,
}
use false_flag_demo.Store.Lookups.{latest_row}
use false_flag_demo.Store.Postgres.Tx.{update_segment}
use false_flag_demo.Store.Queries.{Sql}
use false_flag_demo.Store.Selects.{select_snapshots, is_listed, behind_cursor, event_before}
use false_flag_demo.Values.{RawMessage}

abbrev pub invalid_row_count_in_limit_clause : String
invalid_row_count_in_limit_clause = "2201W"

-- `LIMIT $2`: a negative limit is refused.
unfoldable pub limit_rows : {A : Type 0} → ℤ → List A → Result StoreError (List A)
limit_rows (pos n) rows = ok (take n rows)
limit_rows (negsuc n) rows = err (sqlstate invalid_row_count_in_limit_clause)

unfoldable pub list_snapshots_by_project : Uuid → ℤ → Db → Result StoreError (List Snapshot)
unfolding limit_rows
list_snapshots_by_project project limit db = limit_rows limit (select_snapshots project db)

unfoldable pub list_audit_events : ListAuditEventsParams → Db → Result StoreError (List AuditEvent)
unfolding limit_rows is_listed
list_audit_events p db = limit_rows p.limit (
    order_by event_before
      (select (λ e. is_listed p e && behind_cursor p.cursor_ts p.cursor_id e) db.audit_events))

abbrev no_rows_found : {A : Type 0} → Result StoreError A → Result StoreError A
no_rows_found (err no_rows) = err not_found
no_rows_found r = r

-- `UpdateSegment` of the store, outside a transaction of `WithAudit`.
unfoldable pub update_segment_standalone :
    (RawMessage → Option RawMessage) → Fresh → UpdateSegmentParams → Sql Segment
unfolding update_segment
update_segment_standalone jsonb f p db = no_rows_found (update_segment jsonb f p db)

abbrev pub has_id : Uuid → Flag → Bool
has_id id f = f.id == id

-- The row of a version, where the query wants its flag.
abbrev pub with_row :
    Uuid → FlagVersion → List LatestFlagVersion → Option Flag → List LatestFlagVersion
with_row project v rest none = rest
with_row project v rest (some f) = if f.project_id == project then latest_row f v ∷ rest else rest

-- `flag_versions INNER JOIN flags ON f.id = fv.flag_id WHERE f.project_id = $1`, on the primary key.
unfoldable pub joined : Uuid → List Flag → List FlagVersion → List LatestFlagVersion
joined project flags [] = []
joined project flags (v ∷ versions) =
    let rest = joined project flags versions in
    with_row project v rest (first (has_id v.flag_id) flags)

-- `ORDER BY fv.flag_id, fv.version DESC`.
abbrev pub row_before : LatestFlagVersion → LatestFlagVersion → Bool
row_before r s = ltb r.flag_id s.flag_id || ((r.flag_id == s.flag_id) && ltb s.version r.version)

-- The rows that follow one of the given flag.
unfoldable pub distinct_after : Uuid → List LatestFlagVersion → List LatestFlagVersion
distinct_after flag [] = []
distinct_after flag (r ∷ rows) =
    let rest = distinct_after r.flag_id rows in if r.flag_id == flag then rest else r ∷ rest

-- `SELECT DISTINCT ON (fv.flag_id)`: the first row of each run.
unfoldable pub distinct_on : List LatestFlagVersion → List LatestFlagVersion
unfolding distinct_after
distinct_on [] = []
distinct_on (r ∷ rows) = r ∷ distinct_after r.flag_id rows

unfoldable pub list_latest_flag_versions : Uuid → Db → List LatestFlagVersion
unfolding distinct_on joined
list_latest_flag_versions project db =
    distinct_on (order_by row_before (joined project db.flags db.flag_versions))
