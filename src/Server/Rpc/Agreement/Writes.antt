-- ===== src/Server/Rpc/Agreement/Writes.antt =====
-- The Connect handlers that write segments and snapshots against the HTTP handlers.
use text.Mathlib.Text.{◌==◌}
use false_flag_demo.Base.{
  ℕ, Bool, true, false, suc, String, ◌≡◌, refl, some, none, Option, [], arith, if◌then◌else◌,
}
use false_flag_demo.Base.Int.{pos, ltb_ℤ}
use false_flag_demo.Base.Result.{Result, ok, err}
use false_flag_demo.Config.Compile.{Codec}
use false_flag_demo.Config.Errors.{ConfigError}
use false_flag_demo.Config.Segments.{normalize_predicate}
use false_flag_demo.Server.{Connection, Json, require_store, Refusal, read}
use false_flag_demo.Server.Rpc.{RpcError, or_connect_error}
use false_flag_demo.Server.Rpc.Relayed.{
  relay, body, relay->>=, relay-read, relay-committed, relay-or_status, code_of,
}
use false_flag_demo.Server.Rpc.Segments.{
  as_map, normalized, normalize_predicate_bytes, SegmentMessage, rpc_update_segment,
}
use false_flag_demo.Server.Rpc.Snapshots.{
  rpc_compile_snapshot, rpc_compile_bundle, chosen_environment, resolved_environment,
}
use false_flag_demo.Server.Segments.{
  accepted, predicate_bytes, handle_update_segment, segment_event, update_params,
  UpdateSegmentRequest,
}
use false_flag_demo.Server.Snapshots.{
  unknown_environment, handle_compile_snapshot, compile_bundle, selected_environment,
  CompileSnapshotRequest, snapshot_event, snapshot_params, bundle_from,
}
use false_flag_demo.Store.{Db, Fresh, Uuid, Environment}
use false_flag_demo.Store.Lookups.{
  get_project_by_slug, get_environment_by_slug, list_latest_flag_versions, found,
}
use false_flag_demo.Store.Selects.{select_project_by_slug, select_environment_by_slug}
use false_flag_demo.Store.Tx.{with_audit, update_segment, compile_snapshot}
use false_flag_demo.Values.{Fields, object, RawMessage}
use false_flag_demo.Values.Services.{Services}

-- The message of an update with a predicate, and the body of the same content.
abbrev pub segment_message : String → String → Fields → SegmentMessage
segment_message name description fields = record {
  name = name;
  description = description;
  predicate = some fields;
}

abbrev pub segment_body : String → String → Fields → UpdateSegmentRequest
segment_body name description fields = record {
  name = name;
  description = description;
  predicate = object fields;
}

-- The body that names an environment.
abbrev pub snapshot_body : ℕ → String → CompileSnapshotRequest
snapshot_body n env_slug = record { content_length = pos (suc n); body = some env_slug }

relay-accepted :
    (raw : RawMessage) (r : Result ConfigError (Unit {0}))
    → normalized raw r ≡ relay (λ x. x) (accepted raw r)
unfolding code_of
relay-accepted raw (ok u) = refl
relay-accepted raw (err e) = refl

relay-environment :
    (o : Option Environment)
    → resolved_environment (found o) ≡ relay (λ x. x) (unknown_environment (found o))
unfolding code_of
relay-environment none = refl
relay-environment (some env) = refl

relay-unless :
    {A : Type 0} (b : Bool) (x : A) (r' : Result RpcError A) (r : Result Refusal A)
    → r' ≡ relay (λ x. x) r
    → (if b then ok x else r') ≡ relay (λ x. x) (if b then ok x else r)
relay-unless true x r' r e = refl
relay-unless false x r' r e = e

module _ (s : Services) (j : Json) where
  relay-predicate_bytes :
      (fields : Fields)
      → normalize_predicate_bytes s j (some fields)
        ≡ relay (λ r. r) (predicate_bytes s j (object fields))
  unfolding normalize_predicate_bytes predicate_bytes as_map code_of
  relay-predicate_bytes fields =
      relay->>= (λ r. r) _ _ _ _ (relay-or_status 400 (j.marshal (object fields)))
        (λ raw.
          relay->>= (λ r. r) _ _ _ _ (relay-or_status 400 (j.decode_predicate raw))
            (λ p. relay-accepted raw (normalize_predicate s p)))

  module _ (conn : Connection) (db : Db) (actor slug key : String) where
    -- The two surfaces update segments alike: where the tables can be read, UpdateSegment over
    -- Connect on a message with a predicate commits what the HTTP handler commits on the body of the
    -- same content, and refuses with the code of the status where that refuses.
    pub rpc_update_segment-agrees :
        (name description : String) (fields : Fields)
        → conn.reading ≡ ok db
        → rpc_update_segment s j conn actor slug key (segment_message name description fields)
          ≡ relay body (
              handle_update_segment s j
                (some conn)
                actor
                slug
                key
                (some (segment_body name description fields)))
    unfolding rpc_update_segment handle_update_segment require_store get_project_by_slug
    rpc_update_segment-agrees name description fields reads =
        let req = segment_body name description fields in
        relay->>= body _ _ _ _ (relay-read conn db (select_project_by_slug slug) reads) (λ proj.
          relay->>= body _ _ _ _ (relay-predicate_bytes fields) (λ raw. relay-committed 200 (
            with_audit conn.attempts (segment_event j "update_segment" actor proj.id key)
              (λ (f : Fresh). update_segment f (update_params proj.id key req raw)))))

module _ (codec : Codec) (j : Json) (conn : Connection) (db : Db) where
  relay-compile_bundle :
      (project : Uuid)
      → conn.reading ≡ ok db
      → rpc_compile_bundle codec conn project ≡ relay (λ b. b) (compile_bundle codec conn project)
  unfolding rpc_compile_bundle compile_bundle or_connect_error code_of
  relay-compile_bundle project reads =
      rw reads (relay-or_status 500 (bundle_from codec [] (list_latest_flag_versions project db)))

  relay-selected_environment :
      (project : Uuid) (n : ℕ) (slug : String)
      → conn.reading ≡ ok db
      → chosen_environment conn project (some slug)
        ≡ relay (λ e. e) (selected_environment conn project (snapshot_body n slug))
  unfolding chosen_environment selected_environment get_environment_by_slug code_of
  relay-selected_environment project n slug reads =
      let positive : ltb_ℤ (pos 0) (pos (suc n)) ≡ true = ground arith in
      rw positive (
        relay-unless (slug == "") none
          (resolved_environment (read conn (get_environment_by_slug project slug)))
          (unknown_environment (read conn (get_environment_by_slug project slug)))
          (rw reads (relay-environment (select_environment_by_slug project slug db))))

  -- The two surfaces compile snapshots alike: where the tables can be read, CompileSnapshot over
  -- Connect with the slug of an environment, or the empty one, commits what the HTTP handler commits
  -- on a body with that slug and a known length, and refuses with the code of the status where that
  -- refuses.
  pub rpc_compile_snapshot-agrees :
      (actor slug env_slug : String) (n : ℕ)
      → conn.reading ≡ ok db
      → rpc_compile_snapshot codec j conn actor slug (some env_slug)
        ≡ relay body
            (handle_compile_snapshot codec j (some conn) actor slug (snapshot_body n env_slug))
  unfolding rpc_compile_snapshot handle_compile_snapshot require_store get_project_by_slug code_of
  rpc_compile_snapshot-agrees actor slug env_slug n reads =
      relay->>= body _ _ _ _ (relay-read conn db (select_project_by_slug slug) reads) (λ proj.
        relay->>= body _ _ _ _ (relay-selected_environment proj.id n env_slug reads) (λ env.
          relay->>= body _ _ _ _ (relay-compile_bundle proj.id reads) (λ bundle.
            relay->>= body _ _ _ _ (relay-or_status 500 (j.marshal_bundle bundle)) (λ raw.
              relay-committed 201 (
                with_audit conn.attempts (snapshot_event j actor proj.id bundle)
                  (λ (f : Fresh). compile_snapshot f (snapshot_params proj.id env raw)))))))
