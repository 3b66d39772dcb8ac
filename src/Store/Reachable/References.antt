-- ===== src/Store/Reachable/References.antt =====
-- The references of environments, segments, snapshots and audit events, under the statements.
use text.Mathlib.Text.{◌==◌ as str_eq}
use false_flag_demo.Base.{
  String, Bool, true, false, ◌&&◌, ◌≡◌, refl, ap, Option, none, some, List, [], ◌∷◌, arith, ◌==◌,
  All, exists, Bool-cases, inl, inr,
}
use false_flag_demo.Base.Result.{ok}
use false_flag_demo.Store.{
  Uuid, Environment, Segment, Snapshot, AuditEvent, CreateSegmentParams, UpdateSegmentParams,
  CompileSnapshotParams, AppendAuditParams, Db, Fresh,
}
use false_flag_demo.Store.Queries.{
  has_project, has_flag, has_environment, has_optional, overwrite, is_segment, insert_environment,
  insert_segment, insert_snapshot, insert_audit_event, environment_row,
}
use false_flag_demo.Store.Reachable.Steps.{
  Step, project_created, flag_created, environment_created, segment_created, segment_updated,
  version_published, snapshot_compiled, audit_appended, AreReferences, HasReferences,
}
use false_flag_demo.Store.Tx.{create_environment, create_segment, compile_snapshot, append_audit}
use false_flag_demo.Store.Written as Written
use false_flag_demo.Store.Written.{constrained-eq-ok}

pub All-implies {ℓ κ μ} :
    {A : Type ℓ} {P : A → Type κ} {Q : A → Type μ} (xs : List A)
    → ((x : A) → P x → Q x)
    → All P xs
    → All Q xs
All-implies [] f h = tt
All-implies (x ∷ xs) f (h, hs) = (f x h, All-implies xs f hs)

has_optional-kept :
    (has : Uuid → Db → Bool) (db db' : Db)
    → ((id : Uuid) → has id db ≡ true → has id db' ≡ true)
    → (id : Option Uuid) → has_optional has id db ≡ true
    → has_optional has id db' ≡ true
has_optional-kept has db db' kept none h = refl
has_optional-kept has db db' kept (some id) h = kept id h

-- Tables in which every project, flag and environment of others is.
record Includes (db db' : Db) : Type 0 where
  projects_kept : (id : Uuid) → has_project id db ≡ true → has_project id db' ≡ true
  flags_kept : (id : Uuid) → has_flag id db ≡ true → has_flag id db' ≡ true
  environments_kept : (id : Uuid) → has_environment id db ≡ true → has_environment id db' ≡ true

AreReferences-Includes :
    (db db' : Db) (es : List Environment) (ss : List Segment) (ns : List Snapshot)
    (vs : List AuditEvent)
    → Includes db db'
    → AreReferences db es ss ns vs
    → AreReferences db' es ss ns vs
AreReferences-Includes db db' es ss ns vs i r = record {
  environments_owned = All-implies es (λ e. i.projects_kept e.project_id) r.environments_owned;
  segments_owned = All-implies ss (λ s. i.projects_kept s.project_id) r.segments_owned;
  snapshots_owned = All-implies ns (λ s. i.projects_kept s.project_id) r.snapshots_owned;
  snapshots_placed =
      All-implies ns
        (λ s. has_optional-kept has_environment db db' i.environments_kept s.environment_id)
        r.snapshots_placed;
  events_owned =
      All-implies vs (λ e. has_optional-kept has_project db db' i.projects_kept e.project_id)
        r.events_owned;
  events_flagged =
      All-implies vs (λ e. has_optional-kept has_flag db db' i.flags_kept e.flag_id)
        r.events_flagged;
}

-- Tables with the same projects, flags and environments.
same_lookups :
    (db db' : Db)
    → db'.projects ≡ db.projects
    → db'.flags ≡ db.flags
    → db'.environments ≡ db.environments
    → Includes db db'
unfolding has_project has_flag has_environment
same_lookups db db' ps fs es = record {
  projects_kept = λ id h. rw ps h;
  flags_kept = λ id h. rw fs h;
  environments_kept = λ id h. rw es h;
}

overwrite-All {κ} :
    (P : Uuid → Type κ) (f : Fresh) (p : UpdateSegmentParams) (rows : List Segment)
    → All (λ (s : Segment). P s.project_id) rows
    → All (λ (s : Segment). P s.project_id) (overwrite f p rows).1
unfolding overwrite
overwrite-All P f p [] h = tt
overwrite-All P f p (s ∷ rows) (h, hs) =
    let ih = overwrite-All P f p rows hs in
    elim (Bool-cases (is_segment p.project_id p.key s)) [
      | inl hit ↦ rw hit (h, ih)
      | inr miss ↦ rw miss (h, ih)
    ]

module _ (f : Fresh) (db : Db) where
  pub create_environment-refers :
      (project : Uuid) (slug name : String) (x : Environment) (db' : Db)
      → create_environment f project slug name db ≡ ok (x, db')
      → (exists
            (λ (e : Environment). (e.project_id == project) && str_eq e.slug slug)
            db.environments
          ≡ false)
        × (has_project project db ≡ true)
  unfolding create_environment insert_environment
  create_environment-refers project slug name x db' e =
      let (row, rows, g) = constrained-eq-ok _ _ x _ db' e in (ground arith, ground arith)

  create_segment-refers :
      (p : CreateSegmentParams) (x : Segment) (db' : Db)
      → create_segment f p db ≡ ok (x, db')
      → has_project p.project_id db ≡ true
  unfolding create_segment insert_segment
  create_segment-refers p x db' e =
      let (row, rows, g) = constrained-eq-ok _ _ x _ db' e in ground arith

  compile_snapshot-refers :
      (p : CompileSnapshotParams) (x : Snapshot) (db' : Db)
      → compile_snapshot f p db ≡ ok (x, db')
      → has_optional has_environment p.environment_id db ≡ true
  unfolding compile_snapshot insert_snapshot
  compile_snapshot-refers p x db' e =
      let (row, rows, g) = constrained-eq-ok _ _ x _ db' e in ground arith

  append_audit-refers :
      (p : AppendAuditParams) (x : AuditEvent) (db' : Db)
      → append_audit f p db ≡ ok (x, db')
      → (has_optional has_project p.project_id db ≡ true)
        × (has_optional has_flag p.flag_id db ≡ true)
  unfolding append_audit insert_audit_event
  append_audit-refers p x db' e =
      let (row, rows, g) = constrained-eq-ok _ _ x _ db' e in (ground arith, ground arith)

pub Step-HasReferences : {db db' : Db} → Step db db' → HasReferences db → HasReferences db'
unfolding has_project has_flag has_environment exists
Step-HasReferences {db} {db'} (project_created f slug name strategy x e) r =
    let (row, rows, q₁, q₂) = Written.create_project-eq-ok f db slug name strategy x db' e in
    rw rows (
      AreReferences-Includes db _ _ _ _ _
        (record {
          projects_kept = λ id h. ground arith;
          flags_kept = λ id h. h;
          environments_kept = λ id h. h;
        })
        r)
Step-HasReferences {db} {db'} (flag_created f p x e) r =
    let (row, rows, q₁, q₂, q₃) = Written.create_flag-eq-ok f db p x db' e in
    rw rows (
      AreReferences-Includes db _ _ _ _ _
        (record {
          projects_kept = λ id h. h;
          flags_kept = λ id h. ground arith;
          environments_kept = λ id h. h;
        })
        r)
Step-HasReferences {db} {db'} (environment_created f project slug name x e) r =
    let (row, rows) = Written.create_environment-eq-ok f db project slug name x db' e in
    let (free, known) = create_environment-refers f db project slug name x db' e in
    let db₁ = record db { environments = environment_row f project slug name ∷ db.environments } in
    let kept =
      AreReferences-Includes db db₁ db.environments db.segments db.snapshots db.audit_events
        (record {
          projects_kept = λ id h. h;
          flags_kept = λ id h. h;
          environments_kept = λ id h. ground arith;
        })
        r in
    rw rows (record {
      environments_owned = (known, kept.environments_owned);
      segments_owned = kept.segments_owned;
      snapshots_owned = kept.snapshots_owned;
      snapshots_placed = kept.snapshots_placed;
      events_owned = kept.events_owned;
      events_flagged = kept.events_flagged;
    })
Step-HasReferences {db} {db'} (segment_created f p x e) r =
    let (row, rows, q) = Written.create_segment-eq-ok f db p x db' e in
    let known = create_segment-refers f db p x db' e in
    let i =
      same_lookups db db' (ap (λ d. d.projects) rows) (ap (λ d. d.flags) rows)
        (ap (λ d. d.environments) rows) in
    let kept = rw rows at (
      AreReferences-Includes db db' db.environments db.segments db.snapshots db.audit_events i r) in
    rw rows (record {
      environments_owned = kept.environments_owned;
      segments_owned = (known, kept.segments_owned);
      snapshots_owned = kept.snapshots_owned;
      snapshots_placed = kept.snapshots_placed;
      events_owned = kept.events_owned;
      events_flagged = kept.events_flagged;
    })
Step-HasReferences {db} {db'} (segment_updated f p x e) r =
    let (found, rows) = Written.update_segment-eq-ok f db p x db' e in
    let i =
      same_lookups db db' (ap (λ d. d.projects) rows) (ap (λ d. d.flags) rows)
        (ap (λ d. d.environments) rows) in
    let kept = rw rows at (
      AreReferences-Includes db db' db.environments db.segments db.snapshots db.audit_events i r) in
    rw rows (record {
      environments_owned = kept.environments_owned;
      segments_owned =
          overwrite-All (λ id. has_project id db ≡ true) f _ db.segments kept.segments_owned;
      snapshots_owned = kept.snapshots_owned;
      snapshots_placed = kept.snapshots_placed;
      events_owned = kept.events_owned;
      events_flagged = kept.events_flagged;
    })
Step-HasReferences {db} {db'} (version_published f p x e) r =
    let (row, rows, q) = Written.publish_flag_version-eq-ok f db p x db' e in
    let i =
      same_lookups db db' (ap (λ d. d.projects) rows) (ap (λ d. d.flags) rows)
        (ap (λ d. d.environments) rows) in
    let kept = rw rows at (
      AreReferences-Includes db db' db.environments db.segments db.snapshots db.audit_events i r) in
    rw rows (record {
      environments_owned = kept.environments_owned;
      segments_owned = kept.segments_owned;
      snapshots_owned = kept.snapshots_owned;
      snapshots_placed = kept.snapshots_placed;
      events_owned = kept.events_owned;
      events_flagged = kept.events_flagged;
    })
Step-HasReferences {db} {db'} (snapshot_compiled f p x e) r =
    let (row, rows, owned) = Written.compile_snapshot-eq-ok f db p x db' e in
    let i =
      same_lookups db db' (ap (λ d. d.projects) rows) (ap (λ d. d.flags) rows)
        (ap (λ d. d.environments) rows) in
    let kept = rw rows at (
      AreReferences-Includes db db' db.environments db.segments db.snapshots db.audit_events i r) in
    let placed = rw rows at (
      has_optional-kept has_environment db db' i.environments_kept p.environment_id
        (compile_snapshot-refers f db p x db' e)) in
    rw rows (record {
      environments_owned = kept.environments_owned;
      segments_owned = kept.segments_owned;
      snapshots_owned = (owned, kept.snapshots_owned);
      snapshots_placed = (placed, kept.snapshots_placed);
      events_owned = kept.events_owned;
      events_flagged = kept.events_flagged;
    })
Step-HasReferences {db} {db'} (audit_appended f p x e) r =
    let (row, rows, q) = Written.append_audit-eq-ok f db p x db' e in
    let (owned, flagged) = append_audit-refers f db p x db' e in
    let i =
      same_lookups db db' (ap (λ d. d.projects) rows) (ap (λ d. d.flags) rows)
        (ap (λ d. d.environments) rows) in
    let kept = rw rows at (
      AreReferences-Includes db db' db.environments db.segments db.snapshots db.audit_events i r) in
    let owned' =
      rw rows at (has_optional-kept has_project db db' i.projects_kept p.project_id owned) in
    let flagged' = rw rows at (has_optional-kept has_flag db db' i.flags_kept p.flag_id flagged) in
    rw rows (record {
      environments_owned = kept.environments_owned;
      segments_owned = kept.segments_owned;
      snapshots_owned = kept.snapshots_owned;
      snapshots_placed = kept.snapshots_placed;
      events_owned = (owned', kept.events_owned);
      events_flagged = (flagged', kept.events_flagged);
    })
