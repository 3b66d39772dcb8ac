-- ===== src/Store/Reachable.antt =====
-- Every state that the statements of internal/store/sqlite_tx.go and sqlite_audit.go can reach.
mod Steps
mod References
use false_flag_demo.Store.Reachable.References.{
  All-implies, Step-HasReferences, create_environment-refers,
}
pub use Steps.*
use text.Mathlib.Text.{◌==◌ as str_eq}
use false_flag_demo.Base.{
  String, Bool, true, false, ◌&&◌, ◌≡◌, refl, List, [], ◌∷◌, arith, ◌==◌, All, exists, Bool-cases,
  inl, inr, select, map,
}
use false_flag_demo.Base.Result.{ok}
use false_flag_demo.Store.{
  Uuid, Project, Flag, FlagVersion, AuditEvent, Environment, Segment, Snapshot, AppendAuditParams,
  CreateFlagParams, PublishFlagVersionParams, CreateSegmentParams, UpdateSegmentParams,
  CompileSnapshotParams, Db, Fresh,
}
use false_flag_demo.Store.Queries.{
  has_flag, has_project, versions_of, snapshot_versions, overwrite, is_segment,
}
use false_flag_demo.Store.Tx.{
  create_project, create_flag, create_environment, create_segment, update_segment,
  publish_flag_version, compile_snapshot, append_audit,
}
use false_flag_demo.Store.Written.{
  create_project-eq-ok, create_flag-eq-ok, create_environment-eq-ok, create_segment-eq-ok,
  update_segment-eq-ok, publish_flag_version-eq-ok, compile_snapshot-eq-ok, append_audit-eq-ok,
}
use false_flag_demo.Store.Numbering.{
  IsNumbered, publish_flag_version-IsNumbered, compile_snapshot-IsNumbered,
}

-- An update changes no segment's project or key.
exists-overwrite :
    (f : Fresh) (p : UpdateSegmentParams) (project : Uuid) (key : String) (rows : List Segment)
    → exists (is_segment project key) (overwrite f p rows).1 ≡ exists (is_segment project key) rows
unfolding overwrite exists
exists-overwrite f p project key [] = refl
exists-overwrite f p project key (s ∷ rows) = ground (arith, exists-overwrite f p project key rows)

overwrite-IsDistinct :
    (f : Fresh) (p : UpdateSegmentParams) (rows : List Segment)
    → IsDistinct same_segment rows
    → IsDistinct same_segment (overwrite f p rows).1
unfolding overwrite
overwrite-IsDistinct f p [] h = tt
overwrite-IsDistinct f p (s ∷ rows) (h, hs) =
    let ih = overwrite-IsDistinct f p rows hs in
    let kept = exists-overwrite f p s.project_id s.key rows in
    elim (Bool-cases (is_segment p.project_id p.key s)) [
      | inl hit ↦ rw hit (rw kept h, ih)
      | inr miss ↦ rw miss (rw kept h, ih)
    ]

empty-IsConsistent : IsConsistent empty_db
unfolding versions_of snapshot_versions select map
empty-IsConsistent = record {
  flags_numbered = λ flag. refl;
  snapshots_numbered = λ project. refl;
  project_slugs = tt;
  flag_keys = tt;
  flag_ids = tt;
  segment_keys = tt;
  event_ids = tt;
  flags_owned = tt;
  versions_owned = tt;
  environment_slugs = tt;
  references = record {
    environments_owned = tt;
    segments_owned = tt;
    snapshots_owned = tt;
    snapshots_placed = tt;
    events_owned = tt;
    events_flagged = tt;
  };
}

module _ (db db' : Db) (c : IsConsistent db) where
  project_created-IsConsistent :
      (f : Fresh) (slug name strategy : String) (x : Project)
      → create_project f slug name strategy db ≡ ok (x, db')
      → IsConsistent db'
  unfolding versions_of snapshot_versions has_project has_flag exists
  project_created-IsConsistent f slug name strategy x e =
      let (row, rows, fresh_id, fresh_slug) =
        create_project-eq-ok f db slug name strategy x db' e in
      rw rows (record {
        flags_numbered = c.flags_numbered;
        snapshots_numbered = c.snapshots_numbered;
        project_slugs = (fresh_slug, c.project_slugs);
        flag_keys = c.flag_keys;
        flag_ids = c.flag_ids;
        segment_keys = c.segment_keys;
        event_ids = c.event_ids;
        flags_owned = All-implies db.flags (λ g known. ground (arith, known)) c.flags_owned;
        versions_owned = c.versions_owned;
        environment_slugs = c.environment_slugs;
        references =
            rw rows at (Step-HasReferences (project_created f slug name strategy x e) c.references);
      })

  flag_created-IsConsistent :
      (f : Fresh) (p : CreateFlagParams) (x : Flag)
      → create_flag f p db ≡ ok (x, db')
      → IsConsistent db'
  unfolding versions_of snapshot_versions has_project has_flag exists
  flag_created-IsConsistent f p x e =
      let (row, rows, fresh_id, fresh_key, known) = create_flag-eq-ok f db p x db' e in
      rw rows (record {
        flags_numbered = c.flags_numbered;
        snapshots_numbered = c.snapshots_numbered;
        project_slugs = c.project_slugs;
        flag_keys = (fresh_key, c.flag_keys);
        flag_ids = (fresh_id, c.flag_ids);
        segment_keys = c.segment_keys;
        event_ids = c.event_ids;
        flags_owned = (known, c.flags_owned);
        versions_owned =
            All-implies db.flag_versions (λ v owned. ground (arith, owned)) c.versions_owned;
        environment_slugs = c.environment_slugs;
        references = rw rows at (Step-HasReferences (flag_created f p x e) c.references);
      })

  environment_created-IsConsistent :
      (f : Fresh) (project : Uuid) (slug name : String) (x : Environment)
      → create_environment f project slug name db ≡ ok (x, db')
      → IsConsistent db'
  unfolding versions_of snapshot_versions has_project has_flag exists
  environment_created-IsConsistent f project slug name x e =
      let (row, rows) = create_environment-eq-ok f db project slug name x db' e in
      rw rows (record {
        flags_numbered = c.flags_numbered;
        snapshots_numbered = c.snapshots_numbered;
        project_slugs = c.project_slugs;
        flag_keys = c.flag_keys;
        flag_ids = c.flag_ids;
        segment_keys = c.segment_keys;
        event_ids = c.event_ids;
        flags_owned = c.flags_owned;
        versions_owned = c.versions_owned;
        environment_slugs =
            ((create_environment-refers f db project slug name x db' e).0, c.environment_slugs);
        references =
            rw rows at
              (Step-HasReferences (environment_created f project slug name x e) c.references);
      })

  segment_created-IsConsistent :
      (f : Fresh) (p : CreateSegmentParams) (x : Segment)
      → create_segment f p db ≡ ok (x, db')
      → IsConsistent db'
  unfolding versions_of snapshot_versions has_project has_flag exists
  segment_created-IsConsistent f p x e =
      let (row, rows, fresh_key) = create_segment-eq-ok f db p x db' e in
      rw rows (record {
        flags_numbered = c.flags_numbered;
        snapshots_numbered = c.snapshots_numbered;
        project_slugs = c.project_slugs;
        flag_keys = c.flag_keys;
        flag_ids = c.flag_ids;
        segment_keys = (fresh_key, c.segment_keys);
        event_ids = c.event_ids;
        flags_owned = c.flags_owned;
        versions_owned = c.versions_owned;
        environment_slugs = c.environment_slugs;
        references = rw rows at (Step-HasReferences (segment_created f p x e) c.references);
      })

  segment_updated-IsConsistent :
      (f : Fresh) (p : UpdateSegmentParams) (x : Segment)
      → update_segment f p db ≡ ok (x, db')
      → IsConsistent db'
  unfolding versions_of snapshot_versions has_project has_flag exists
  segment_updated-IsConsistent f p x e =
      let (found, rows) = update_segment-eq-ok f db p x db' e in
      rw rows (record {
        flags_numbered = c.flags_numbered;
        snapshots_numbered = c.snapshots_numbered;
        project_slugs = c.project_slugs;
        flag_keys = c.flag_keys;
        flag_ids = c.flag_ids;
        segment_keys = overwrite-IsDistinct f _ db.segments c.segment_keys;
        event_ids = c.event_ids;
        flags_owned = c.flags_owned;
        versions_owned = c.versions_owned;
        environment_slugs = c.environment_slugs;
        references = rw rows at (Step-HasReferences (segment_updated f p x e) c.references);
      })

  version_published-IsConsistent :
      (f : Fresh) (p : PublishFlagVersionParams) (x : FlagVersion)
      → publish_flag_version f p db ≡ ok (x, db')
      → IsConsistent db'
  unfolding versions_of snapshot_versions has_project has_flag exists
  version_published-IsConsistent f p x e =
      let (row, rows, known) = publish_flag_version-eq-ok f db p x db' e in
      rw rows (record {
        flags_numbered = λ flag.
            rw rows at (publish_flag_version-IsNumbered f db p x db' e c.flags_numbered flag);
        snapshots_numbered = c.snapshots_numbered;
        project_slugs = c.project_slugs;
        flag_keys = c.flag_keys;
        flag_ids = c.flag_ids;
        segment_keys = c.segment_keys;
        event_ids = c.event_ids;
        flags_owned = c.flags_owned;
        versions_owned = (known, c.versions_owned);
        environment_slugs = c.environment_slugs;
        references = rw rows at (Step-HasReferences (version_published f p x e) c.references);
      })

  snapshot_compiled-IsConsistent :
      (f : Fresh) (p : CompileSnapshotParams) (x : Snapshot)
      → compile_snapshot f p db ≡ ok (x, db')
      → IsConsistent db'
  unfolding versions_of snapshot_versions has_project has_flag exists
  snapshot_compiled-IsConsistent f p x e =
      let (row, rows, known) = compile_snapshot-eq-ok f db p x db' e in
      rw rows (record {
        flags_numbered = c.flags_numbered;
        snapshots_numbered = λ project.
            rw rows at (compile_snapshot-IsNumbered f db p x db' e c.snapshots_numbered project);
        project_slugs = c.project_slugs;
        flag_keys = c.flag_keys;
        flag_ids = c.flag_ids;
        segment_keys = c.segment_keys;
        event_ids = c.event_ids;
        flags_owned = c.flags_owned;
        versions_owned = c.versions_owned;
        environment_slugs = c.environment_slugs;
        references = rw rows at (Step-HasReferences (snapshot_compiled f p x e) c.references);
      })

  audit_appended-IsConsistent :
      (f : Fresh) (p : AppendAuditParams) (x : AuditEvent)
      → append_audit f p db ≡ ok (x, db')
      → IsConsistent db'
  unfolding versions_of snapshot_versions has_project has_flag exists
  audit_appended-IsConsistent f p x e =
      let (row, rows, fresh_id) = append_audit-eq-ok f db p x db' e in
      rw rows (record {
        flags_numbered = c.flags_numbered;
        snapshots_numbered = c.snapshots_numbered;
        project_slugs = c.project_slugs;
        flag_keys = c.flag_keys;
        flag_ids = c.flag_ids;
        segment_keys = c.segment_keys;
        event_ids = (fresh_id, c.event_ids);
        flags_owned = c.flags_owned;
        versions_owned = c.versions_owned;
        environment_slugs = c.environment_slugs;
        references = rw rows at (Step-HasReferences (audit_appended f p x e) c.references);
      })

Step-IsConsistent : {db db' : Db} → Step db db' → IsConsistent db → IsConsistent db'
Step-IsConsistent {db} {db'} (project_created f slug name strategy x e) c =
    project_created-IsConsistent db db' c f slug name strategy x e
Step-IsConsistent {db} {db'} (flag_created f p x e) c = flag_created-IsConsistent db db' c f p x e
Step-IsConsistent {db} {db'} (environment_created f project slug name x e) c =
    environment_created-IsConsistent db db' c f project slug name x e
Step-IsConsistent {db} {db'} (segment_created f p x e) c =
    segment_created-IsConsistent db db' c f p x e
Step-IsConsistent {db} {db'} (segment_updated f p x e) c =
    segment_updated-IsConsistent db db' c f p x e
Step-IsConsistent {db} {db'} (version_published f p x e) c =
    version_published-IsConsistent db db' c f p x e
Step-IsConsistent {db} {db'} (snapshot_compiled f p x e) c =
    snapshot_compiled-IsConsistent db db' c f p x e
Step-IsConsistent {db} {db'} (audit_appended f p x e) c =
    audit_appended-IsConsistent db db' c f p x e

-- Whatever the statements do, one after the other, from the empty database on: the versions of every
-- flag and the snapshots of every project are numbered 1, 2, … without a gap; no two projects share
-- a slug, no two environments of one project either, no two flags or segments of one project a key,
-- and no two flags or audit events an id. Flags, environments, segments and snapshots are of projects
-- that are there, versions of flags that are; a snapshot's environment and an audit event's project
-- and flag are there, if it has one.
pub Reach-IsConsistent : (db : Db) → Reach empty_db db → IsConsistent db
Reach-IsConsistent db here = empty-IsConsistent
Reach-IsConsistent db (next r st) = Step-IsConsistent st (Reach-IsConsistent _ r)
