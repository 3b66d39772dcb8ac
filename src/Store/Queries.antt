-- ===== src/Store/Queries.antt =====
-- internal/db/sqlite: the statements that write, on the tables and constraints of
-- db/migrations/sqlite. A statement that fails changes nothing.
use text.Mathlib.Text.{◌==◌ as str_eq}
use false_flag_demo.Base.{
  ℕ, suc, String, Bool, true, false, ◌&&◌, ◌||◌, not, Option, none, some, List, [], ◌∷◌, ltb, ◌==◌,
  if◌then◌else◌, exists, select, map,
}
use false_flag_demo.Base.Result.{Result, ok, err}
use false_flag_demo.Store.{
  Uuid, Project, Flag, FlagVersion, AuditEvent, Environment, Segment, Snapshot, AppendAuditParams,
  CreateFlagParams, PublishFlagVersionParams, CreateSegmentParams, UpdateSegmentParams,
  CompileSnapshotParams, Db, Fresh, StoreError, no_rows, coded, constraint_unique,
  constraint_primarykey, constraint_foreignkey, constraint_check,
}

-- A statement in a transaction: an error, or its rows and the tables after it.
abbrev pub Sql : Type 0 → Type 0
Sql A = Db → Result StoreError (A × Db)

-- A write under its constraints, each with its violation and the code for it.
unfoldable pub constrained : {A : Type 0} → List (Bool × ℕ) → A → Db → Result StoreError (A × Db)
constrained [] row db = ok (row, db)
constrained ((true, code) ∷ rest) row db = err (coded code)
constrained ((false, code) ∷ rest) row db = constrained rest row db

-- `CHECK (strategy IN ('json', 'cel', 'typescript'))`, and that of `value_type`.
unfoldable pub is_strategy : String → Bool
is_strategy s = str_eq s "json" || str_eq s "cel" || str_eq s "typescript"

unfoldable pub is_value_type : String → Bool
is_value_type t = str_eq t "boolean" || str_eq t "string" || str_eq t "number" || str_eq t "object"

-- `REFERENCES projects(id)`, and the other references.
unfoldable pub has_project : Uuid → Db → Bool
has_project id db = exists (λ (p : Project). p.id == id) db.projects

unfoldable pub has_flag : Uuid → Db → Bool
has_flag id db = exists (λ (f : Flag). f.id == id) db.flags

unfoldable pub has_environment : Uuid → Db → Bool
has_environment id db = exists (λ (e : Environment). e.id == id) db.environments

-- A reference that may be NULL.
abbrev pub has_optional : (Uuid → Db → Bool) → Option Uuid → Db → Bool
has_optional has none db = true
has_optional has (some id) db = has id db

abbrev pub project_row : Fresh → String → String → String → Project
project_row f slug display_name strategy = record {
  id = f.id;
  slug = slug;
  display_name = display_name;
  config_strategy = strategy;
  created_at = f.now;
  updated_at = f.now;
}

unfoldable pub insert_project : Fresh → String → String → String → Sql Project
insert_project f slug display_name strategy db =
    let row = project_row f slug display_name strategy in
    constrained
      ((not (is_strategy strategy), constraint_check)
        ∷ (has_project f.id db, constraint_primarykey)
        ∷ (exists (λ (p : Project). str_eq p.slug slug) db.projects, constraint_unique)
        ∷ [])
      row (record db { projects = row ∷ db.projects })

abbrev pub flag_row : Fresh → CreateFlagParams → Flag
flag_row f p = record {
  id = f.id;
  project_id = p.project_id;
  key = p.key;
  name = p.name;
  description = p.description;
  value_type = p.value_type;
  default_value = p.default_value;
  created_at = f.now;
  updated_at = f.now;
}

unfoldable pub insert_flag : Fresh → CreateFlagParams → Sql Flag
insert_flag f p db =
    let row = flag_row f p in
    constrained
      ((not (is_value_type p.value_type), constraint_check)
        ∷ (has_flag f.id db, constraint_primarykey)
        ∷ (
          exists (λ (x : Flag). (x.project_id == p.project_id) && str_eq x.key p.key) db.flags,
          constraint_unique,
        )
        ∷ (not (has_project p.project_id db), constraint_foreignkey)
        ∷ [])
      row (record db { flags = row ∷ db.flags })

-- `COALESCE(MAX(version), 0)`.
unfoldable pub max_version : List ℕ → ℕ
max_version [] = 0
max_version (n ∷ ns) = let m = max_version ns in if ltb n m then m else n

abbrev pub of_flag : Uuid → FlagVersion → Bool
of_flag flag v = v.flag_id == flag

abbrev pub of_project : Uuid → Snapshot → Bool
of_project project s = s.project_id == project

unfoldable pub versions_of : Uuid → Db → List ℕ
versions_of flag db = map (λ (v : FlagVersion). v.version) (select (of_flag flag) db.flag_versions)

unfoldable pub next_flag_version : Uuid → Db → ℕ
unfolding max_version versions_of
next_flag_version flag db = suc (max_version (versions_of flag db))

abbrev pub flag_version_row : Fresh → ℕ → PublishFlagVersionParams → FlagVersion
flag_version_row f version p = record {
  id = f.id;
  flag_id = p.flag_id;
  version = version;
  strategy = p.strategy;
  source = p.source;
  compiled = p.compiled;
  source_text = p.source_text;
  published_at = f.now;
}

unfoldable pub insert_flag_version : Fresh → ℕ → PublishFlagVersionParams → Sql FlagVersion
insert_flag_version f version p db =
    let row = flag_version_row f version p in
    constrained
      ((not (is_strategy p.strategy), constraint_check)
        ∷ (exists (λ (v : FlagVersion). v.id == f.id) db.flag_versions, constraint_primarykey)
        ∷ (
          exists (λ (v : FlagVersion). of_flag p.flag_id v && (v.version == version))
              db.flag_versions,
          constraint_unique,
        )
        ∷ (not (has_flag p.flag_id db), constraint_foreignkey)
        ∷ [])
      row (record db { flag_versions = row ∷ db.flag_versions })

abbrev pub environment_row : Fresh → Uuid → String → String → Environment
environment_row f project slug name = record {
  id = f.id;
  project_id = project;
  slug = slug;
  name = name;
  created_at = f.now;
}

unfoldable pub insert_environment : Fresh → Uuid → String → String → Sql Environment
insert_environment f project slug name db =
    let row = environment_row f project slug name in
    constrained
      ((has_environment f.id db, constraint_primarykey)
        ∷ (
          exists (λ (e : Environment). (e.project_id == project) && str_eq e.slug slug)
              db.environments,
          constraint_unique,
        )
        ∷ (not (has_project project db), constraint_foreignkey)
        ∷ [])
      row (record db { environments = row ∷ db.environments })

abbrev pub is_segment : Uuid → String → Segment → Bool
is_segment project key s = (s.project_id == project) && str_eq s.key key

abbrev pub segment_row : Fresh → CreateSegmentParams → Segment
segment_row f p = record {
  id = f.id;
  project_id = p.project_id;
  key = p.key;
  name = p.name;
  description = p.description;
  predicate = p.predicate;
  created_at = f.now;
  updated_at = f.now;
}

unfoldable pub insert_segment : Fresh → CreateSegmentParams → Sql Segment
insert_segment f p db =
    let row = segment_row f p in
    constrained
      ((exists (λ (s : Segment). s.id == f.id) db.segments, constraint_primarykey)
        ∷ (exists (is_segment p.project_id p.key) db.segments, constraint_unique)
        ∷ (not (has_project p.project_id db), constraint_foreignkey)
        ∷ [])
      row (record db { segments = row ∷ db.segments })

abbrev pub overwritten : Fresh → UpdateSegmentParams → Segment → Segment
overwritten f p s = record s {
  name = p.name;
  description = p.description;
  predicate = p.predicate;
  updated_at = f.now;
}

-- The rows after the update, and the one that `RETURNING` gives, if there is one.
unfoldable pub overwrite :
    Fresh → UpdateSegmentParams → List Segment → Option Segment × List Segment
overwrite f p [] = (none, [])
overwrite f p (s ∷ rest) =
    let (found, rows) = overwrite f p rest in
    if is_segment p.project_id p.key s
    then (some (overwritten f p s), overwritten f p s ∷ rows)
    else (found, s ∷ rows)

unfoldable pub update_segment_row : Fresh → UpdateSegmentParams → Sql Segment
unfolding overwrite
update_segment_row f p db =
    let (found, rows) = overwrite f p db.segments in
    elim found [ none ↦ err no_rows | some s ↦ ok (s, record db { segments = rows }) ]

unfoldable pub snapshot_versions : Uuid → Db → List ℕ
snapshot_versions project db =
    map (λ (s : Snapshot). s.version) (select (of_project project) db.snapshots)

unfoldable pub next_snapshot_version : Uuid → Db → ℕ
unfolding max_version snapshot_versions
next_snapshot_version project db = suc (max_version (snapshot_versions project db))

abbrev pub snapshot_row : Fresh → ℕ → CompileSnapshotParams → Snapshot
snapshot_row f version p = record {
  id = f.id;
  project_id = p.project_id;
  environment_id = p.environment_id;
  version = version;
  compiled = p.compiled;
  created_at = f.now;
}

unfoldable pub insert_snapshot : Fresh → ℕ → CompileSnapshotParams → Sql Snapshot
insert_snapshot f version p db =
    let row = snapshot_row f version p in
    constrained
      ((exists (λ (s : Snapshot). s.id == f.id) db.snapshots, constraint_primarykey)
        ∷ (
          exists (λ (s : Snapshot). of_project p.project_id s && (s.version == version))
              db.snapshots,
          constraint_unique,
        )
        ∷ (not (has_project p.project_id db), constraint_foreignkey)
        ∷ (not (has_optional has_environment p.environment_id db), constraint_foreignkey)
        ∷ [])
      row (record db { snapshots = row ∷ db.snapshots })

abbrev pub audit_event_row : Fresh → AppendAuditParams → AuditEvent
audit_event_row f p = record {
  id = f.id;
  project_id = p.project_id;
  flag_id = p.flag_id;
  action = p.action;
  actor = p.actor;
  payload = p.payload;
  created_at = f.now;
}

unfoldable pub insert_audit_event : Fresh → AppendAuditParams → Sql AuditEvent
insert_audit_event f p db =
    let row = audit_event_row f p in
    constrained
      ((exists (λ (e : AuditEvent). e.id == f.id) db.audit_events, constraint_primarykey)
        ∷ (not (has_optional has_project p.project_id db), constraint_foreignkey)
        ∷ (not (has_optional has_flag p.flag_id db), constraint_foreignkey)
        ∷ [])
      row (record db { audit_events = row ∷ db.audit_events })
