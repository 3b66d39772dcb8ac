-- ===== src/Store/Lookups.antt =====
-- internal/store/sqlite_projects.go, sqlite_flags.go, sqlite_segments.go, sqlite_environments.go,
-- sqlite_snapshots.go and sqlite_audit.go: the reads of the store.
use false_flag_demo.Base.{String, Option, none, some, List, [], ◌∷◌, ◌==◌, if◌then◌else◌, head}
use false_flag_demo.Base.Int.{ℤ}
use false_flag_demo.Base.Result.{Result, ok, err}
use false_flag_demo.Store.{
  Uuid, Project, Flag, FlagVersion, AuditEvent, Environment, Segment, Snapshot, LatestFlagVersion,
  ListAuditEventsParams, UpdateSegmentParams, Db, Fresh, StoreError, no_rows, not_found,
}
use false_flag_demo.Store.Queries.{Sql}
use false_flag_demo.Store.Selects.{
  select_project_by_slug, select_projects, select_flag_by_key, select_flags_by_project,
  select_flag_versions, select_environment_by_slug, select_environments_by_project,
  select_segment_by_key, select_segments_by_project, select_snapshot_by_id, select_snapshots,
  select_latest_snapshot, select_snapshots_by_project, is_listed, select_audit_events,
}
use false_flag_demo.Store.Tx.{update_segment}

-- `sql.ErrNoRows` becomes `ErrNotFound`.
abbrev pub found : {A : Type 0} → Option A → Result StoreError A
found none = err not_found
found (some row) = ok row

unfoldable pub get_project_by_slug : String → Db → Result StoreError Project
get_project_by_slug slug db = found (select_project_by_slug slug db)

unfoldable pub list_projects : Db → List Project
list_projects db = select_projects db

unfoldable pub get_flag_by_key : Uuid → String → Db → Result StoreError Flag
get_flag_by_key project key db = found (select_flag_by_key project key db)

unfoldable pub list_flags_by_project : Uuid → Db → List Flag
list_flags_by_project project db = select_flags_by_project project db

unfoldable pub list_flag_versions : Uuid → Db → List FlagVersion
list_flag_versions flag db = select_flag_versions flag db

-- `ORDER BY version DESC LIMIT 1`.
unfoldable pub get_latest_flag_version : Uuid → Db → Result StoreError FlagVersion
unfolding list_flag_versions
get_latest_flag_version flag db = found (head (list_flag_versions flag db))

unfoldable pub get_environment_by_slug : Uuid → String → Db → Result StoreError Environment
get_environment_by_slug project slug db = found (select_environment_by_slug project slug db)

unfoldable pub list_environments_by_project : Uuid → Db → List Environment
list_environments_by_project project db = select_environments_by_project project db

unfoldable pub get_segment_by_key : Uuid → String → Db → Result StoreError Segment
get_segment_by_key project key db = found (select_segment_by_key project key db)

unfoldable pub list_segments_by_project : Uuid → Db → List Segment
list_segments_by_project project db = select_segments_by_project project db

abbrev no_rows_found : {A : Type 0} → Result StoreError A → Result StoreError A
no_rows_found (err no_rows) = err not_found
no_rows_found r = r

-- `UpdateSegment` of the store, outside a transaction of `WithAudit`.
unfoldable pub update_segment_standalone : Fresh → UpdateSegmentParams → Sql Segment
unfolding update_segment
update_segment_standalone f p db = no_rows_found (update_segment f p db)

unfoldable pub get_snapshot_by_id : Uuid → Uuid → Db → Result StoreError Snapshot
get_snapshot_by_id project id db = found (select_snapshot_by_id project id db)

-- The snapshots of a project by their numbers, without a limit.
unfoldable pub snapshots_by_project : Uuid → Db → List Snapshot
snapshots_by_project project db = select_snapshots project db

unfoldable pub get_latest_snapshot : Uuid → Db → Result StoreError Snapshot
get_latest_snapshot project db = found (select_latest_snapshot project db)

unfoldable pub list_snapshots_by_project : Uuid → ℤ → Db → List Snapshot
list_snapshots_by_project project limit db = select_snapshots_by_project project limit db

abbrev pub latest_row : Flag → FlagVersion → LatestFlagVersion
latest_row f v = record {
  flag_key = f.key;
  flag_id = v.flag_id;
  version = v.version;
  strategy = v.strategy;
  compiled = v.compiled;
  published_at = v.published_at;
}

-- The join of the flags with their versions, the first row of each partition.
unfoldable pub latest_rows : Uuid → Db → List Flag → List LatestFlagVersion
unfolding list_flag_versions
latest_rows project db [] = []
latest_rows project db (f ∷ flags) =
    let rest = latest_rows project db flags in
    if f.project_id == project
    then (elim (list_flag_versions f.id db) [ [] ↦ rest | v ∷ _ ↦ latest_row f v ∷ rest ])
    else rest

unfoldable pub list_latest_flag_versions : Uuid → Db → List LatestFlagVersion
unfolding latest_rows
list_latest_flag_versions project db = latest_rows project db db.flags

unfoldable pub list_audit_events : ListAuditEventsParams → Db → List AuditEvent
unfolding is_listed
list_audit_events p db = select_audit_events p db
