-- ===== src/Server/Committed.antt =====
-- What the handlers that write commit.
pub mod Mutations
use false_flag_demo.Base.{ℕ, String, ◌≡◌, refl, ap, ◌∙◌, some, ◌∷◌}
use false_flag_demo.Base.Result.{Result, ok, ◌>>=◌, >>=-eq-ok, ok-injective}
use false_flag_demo.Config.Compile.{Codec, valid}
use false_flag_demo.Server.{
  Connection, Json, Refusal, Written, require_store, not_found_or_error, or_status, accept, read,
  write_store_err, parse_strategy,
}
use false_flag_demo.Server.Environments.{
  CreateEnvironmentRequest, handle_create_environment, environment_event,
}
use false_flag_demo.Server.Flags.{
  CreateFlagRequest, PublishFlagVersionRequest, handle_create_flag, handle_publish_flag_version,
  flag_event, flag_params, publish_event, publish_params,
}
use false_flag_demo.Server.Flags.Published.{
  write_store_err-eq-ok, handle_publish_flag_version-IsPublished,
}
use false_flag_demo.Server.Projects.{CreateProjectRequest, handle_create_project, project_event}
use false_flag_demo.Server.Segments.{
  CreateSegmentRequest, UpdateSegmentRequest, handle_create_segment, handle_update_segment,
  predicate_bytes, segment_event, segment_params, update_params,
}
use false_flag_demo.Server.Snapshots.{
  CompileSnapshotRequest, handle_compile_snapshot, selected_environment, compile_bundle,
  snapshot_event, snapshot_params,
}
use false_flag_demo.Store.{
  Db, Environment, Fresh, Project, Flag, FlagVersion, Segment, Snapshot, AppendAuditParams,
  AuditEvent, StoreError,
}
use false_flag_demo.Store.Audited.{with_audit-IsAudited, with_audit-Reach}
use false_flag_demo.Store.Lookups.{get_project_by_slug}
use false_flag_demo.Store.Queries.{Sql, audit_event_row}
use false_flag_demo.Server.Committed.Mutations.{
  Mutation, inserts_project, inserts_flag, inserts_environment, inserts_segment, overwrites_segment,
  inserts_version, inserts_snapshot, Mutation-Step, Mutation-events,
}
use false_flag_demo.Store.Reachable.{Reach, empty_db, IsConsistent, Reach-IsConsistent}
use false_flag_demo.Store.Tx.{
  audit_insert_params, with_audit, create_environment, create_project, create_flag, create_segment,
  update_segment, publish_flag_version, compile_snapshot,
}
use false_flag_demo.Values.Services.{Services}

module _ (s : Services) (codec : Codec) (j : Json) (fuel : ℕ) (conn : Connection) where
  -- A request that a handler answers, `Commits A action row db` saying with which action, which row it
  -- answers, and what is committed.
  pub data Commits : (A : Type 0) → String → A → Db → Type 1 where
    creates_project :
        {db : Db} (actor : String) (req : CreateProjectRequest) (code : ℕ) (x : Project)
        → handle_create_project j (some conn) actor (some req) ≡ ok ((code, x), db)
        → Commits Project "create_project" x db
    creates_flag :
        {db : Db} (actor slug : String) (req : CreateFlagRequest) (code : ℕ) (x : Flag)
        → handle_create_flag j (some conn) actor slug (some req) ≡ ok ((code, x), db)
        → Commits Flag "create_flag" x db
    publishes :
        {db : Db} (actor slug key : String) (req : PublishFlagVersionRequest) (code : ℕ)
        (x : FlagVersion)
        → handle_publish_flag_version s codec j fuel (some conn) actor slug key (some req)
          ≡ ok ((code, x), db)
        → Commits FlagVersion "publish_version" x db
    creates_environment :
        {db : Db} (actor slug : String) (req : CreateEnvironmentRequest) (code : ℕ)
        (x : Environment)
        → handle_create_environment j (some conn) actor slug (some req) ≡ ok ((code, x), db)
        → Commits Environment "create_environment" x db
    creates_segment :
        {db : Db} (actor slug : String) (req : CreateSegmentRequest) (code : ℕ) (x : Segment)
        → handle_create_segment s j (some conn) actor slug (some req) ≡ ok ((code, x), db)
        → Commits Segment "create_segment" x db
    updates_segment :
        {db : Db} (actor slug key : String) (req : UpdateSegmentRequest) (code : ℕ) (x : Segment)
        → handle_update_segment s j (some conn) actor slug key (some req) ≡ ok ((code, x), db)
        → Commits Segment "update_segment" x db
    compiles_snapshot :
        {db : Db} (actor slug : String) (req : CompileSnapshotRequest) (code : ℕ) (x : Snapshot)
        → handle_compile_snapshot codec j (some conn) actor slug req ≡ ok ((code, x), db)
        → Commits Snapshot "compile_snapshot" x db

  -- What a handler commits is one statement, the one its action names, and one audit event with the
  -- action, on the tables that an attempt found.
  pub data CommitsAudited {A : Type 0} (action : String) (x : A) (db : Db) : Type 1 where
    audited_step :
        (event : AppendAuditParams) (body : Fresh → Sql A)
        → event.action ≡ action
        → ((f : Fresh) (before after : Db) (y : A)
            → body f before ≡ ok (y, after)
            → Mutation A action y before after)
        → with_audit conn.attempts event body ≡ ok (x, db)
        → CommitsAudited action x db

  -- The end of every handler that writes.
  abbrev replied : {A : Type 0} → ℕ → A × Db → Written A
  replied status out = ok ((status, out.0), out.1)

  committed-eq-ok :
      {A : Type 0} (code status : ℕ) (r : Result StoreError (A × Db)) (x : A) (db : Db)
      → (write_store_err r >>= replied status) ≡ ok ((code, x), db)
      → r ≡ ok (x, db)
  committed-eq-ok {A} code status r x db e =
      let (out, wrote, same) = >>=-eq-ok (write_store_err r) (replied status) e in
      write_store_err-eq-ok r out wrote
      ∙ ap (λ (y : A × Db). ok y) (ap (λ y. (y.0.1, y.1)) (ok-injective same))

  -- The project of a request, and the rest of its handler.
  in_project :
      {B : Type 0} (slug : String) (rest : Project → Result Refusal B) (out : B)
      → (not_found_or_error (read conn (get_project_by_slug slug)) >>= rest) ≡ ok out
      → (proj : Project) × (rest proj ≡ ok out)
  in_project slug rest out e =
      let (proj, found, e₁) =
        >>=-eq-ok (not_found_or_error (read conn (get_project_by_slug slug))) rest e in
      (proj, e₁)

  Commits-CommitsAudited :
      {A : Type 0} (action : String) (x : A) (db : Db)
      → Commits A action x db
      → CommitsAudited action x db
  unfolding handle_create_project handle_create_environment handle_create_flag handle_create_segment
      handle_update_segment handle_compile_snapshot require_store
  Commits-CommitsAudited action _ db (creates_project actor req code x e) =
      let (u, accepted, e₁) = >>=-eq-ok (accept (valid (parse_strategy req.config_strategy))) _ e in
      audited_step (project_event j actor req)
        (λ f. create_project f req.slug req.display_name req.config_strategy) refl
        (λ f before after y h. inserts_project f req.slug req.display_name req.config_strategy y h)
        (committed-eq-ok code 201 _ x db e₁)
  Commits-CommitsAudited action _ db (creates_flag actor slug req code x e) =
      let (proj, e₁) = in_project slug _ ((code, x), db) e in
      let (raw, marshalled, e₂) = >>=-eq-ok (or_status 400 (j.marshal req.default_value)) _ e₁ in
      audited_step (flag_event j actor proj.id req)
        (λ f. create_flag f (flag_params proj.id req raw)) refl
        (λ f before after y h. inserts_flag f (flag_params proj.id req raw) y h)
        (committed-eq-ok code 201 _ x db e₂)
  Commits-CommitsAudited action _ db (publishes actor slug key req code x e) =
      let p =
        handle_publish_flag_version-IsPublished s codec j fuel conn actor slug key req code x db
          e in
      audited_step (publish_event j actor p.proj.id p.flag req)
        (λ f. publish_flag_version f (publish_params p.flag.id req p.source_raw p.compiled_raw))
        refl
        (λ f before after y h.
          inserts_version f (publish_params p.flag.id req p.source_raw p.compiled_raw) y h)
        p.stored
  Commits-CommitsAudited action _ db (creates_environment actor slug req code x e) =
      let (proj, e₁) = in_project slug _ ((code, x), db) e in
      audited_step (environment_event j actor proj.id req)
        (λ f. create_environment f proj.id req.slug req.name) refl
        (λ f before after y h. inserts_environment f proj.id req.slug req.name y h)
        (committed-eq-ok code 201 _ x db e₁)
  Commits-CommitsAudited action _ db (creates_segment actor slug req code x e) =
      let (proj, e₁) = in_project slug _ ((code, x), db) e in
      let (raw, accepted, e₂) = >>=-eq-ok (predicate_bytes s j req.predicate) _ e₁ in
      audited_step (segment_event j "create_segment" actor proj.id req.key)
        (λ f. create_segment f (segment_params proj.id req raw)) refl
        (λ f before after y h. inserts_segment f (segment_params proj.id req raw) y h)
        (committed-eq-ok code 201 _ x db e₂)
  Commits-CommitsAudited action _ db (updates_segment actor slug key req code x e) =
      let (proj, e₁) = in_project slug _ ((code, x), db) e in
      let (raw, accepted, e₂) = >>=-eq-ok (predicate_bytes s j req.predicate) _ e₁ in
      audited_step (segment_event j "update_segment" actor proj.id key)
        (λ f. update_segment f (update_params proj.id key req raw)) refl
        (λ f before after y h. overwrites_segment f (update_params proj.id key req raw) y h)
        (committed-eq-ok code 200 _ x db e₂)
  Commits-CommitsAudited action _ db (compiles_snapshot actor slug req code x e) =
      let (proj, e₁) = in_project slug _ ((code, x), db) e in
      let (env, selected, e₂) = >>=-eq-ok (selected_environment conn proj.id req) _ e₁ in
      let (bundle, bundled, e₃) = >>=-eq-ok (compile_bundle codec conn proj.id) _ e₂ in
      let (raw, marshalled, e₄) = >>=-eq-ok (or_status 500 (j.marshal_bundle bundle)) _ e₃ in
      audited_step (snapshot_event j actor proj.id bundle)
        (λ f. compile_snapshot f (snapshot_params proj.id env raw)) refl
        (λ f before after y h. inserts_snapshot f (snapshot_params proj.id env raw) y h)
        (committed-eq-ok code 201 _ x db e₄)

  -- Whatever request a handler answers by writing, it leaves consistent tables, if every transaction
  -- begins on tables that the store's statements can have reached. On the tables that one attempt
  -- found it has made the one statement that the action names, which gave the row answered and
  -- touched no audit event, and it has put exactly one event with the action before those there.
  pub Commits-IsConsistent :
      {A : Type 0} (action : String) (x : A) (db : Db)
      → ((i : ℕ) (seen : Db) → (conn.attempts i).begun ≡ ok seen → Reach empty_db seen)
      → Commits A action x db
      → IsConsistent db
        × (i : ℕ) × (seen : Db) × (written : Db) × (event : AuditEvent) × ((conn.attempts i).begun
            ≡ ok seen)
        × Mutation A action x seen written
        × (written.audit_events ≡ seen.audit_events)
        × (db ≡ record written { audit_events = event ∷ seen.audit_events })
        × (event.action ≡ action)
  Commits-IsConsistent action x db reached h = elim (Commits-CommitsAudited action x db h) [
    | audited_step event body named steps e ↦
        let a = with_audit-IsAudited conn.attempts event body (x, db) e in
        let step = steps (conn.attempts a.attempt).fresh a.before a.written x a.ran in
        let kept = Mutation-events step in
        let logged =
          audit_event_row (conn.attempts a.attempt).audit_fresh (audit_insert_params event) in
        (
          Reach-IsConsistent db (
              with_audit-Reach conn.attempts event body (x, db)
                (λ f before after y did. Mutation-Step (steps f before after y did)) reached e),
          a.attempt,
          a.before,
          a.written,
          logged,
          a.begun,
          step,
          kept,
          a.after ∙ ap (λ es. record a.written { audit_events = logged ∷ es }) kept,
          named,
        )
  ]
