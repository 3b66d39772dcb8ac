-- ===== src/Server/Rpc/Agreement.antt =====
-- The Connect handlers against the HTTP handlers.
pub mod Writes
use false_flag_demo.Base.{ℕ, String, ◌≡◌, refl, some, arith, if◌then◌else◌, head}
use false_flag_demo.Base.Int.{pos}
use false_flag_demo.Base.Result.{Result, ok, err, ◌>>=◌}
use false_flag_demo.Server.Rpc.Segments.{as_map}
use false_flag_demo.Config.Compile.{Codec, valid, compile}
use false_flag_demo.Config.Ir.{Compiled}
use false_flag_demo.Config.Publish.{PublishError, resolve_and_compile}
use false_flag_demo.Eval.Decision.{evaluate}
use false_flag_demo.Server.{Connection, Json, parse_strategy, require_store}
use false_flag_demo.Server.Evaluation.{or_failed, handle_evaluate_flag, load_evaluation}
use false_flag_demo.Server.Flags.{
  handle_publish_flag_version, or_uncompiled, segment_resolver, marshal_ir, from_text,
  publish_event, publish_params, PublishFlagVersionRequest,
}
use false_flag_demo.Server.Rpc.{ProtoStrategy, strategy_from_proto}
use false_flag_demo.Server.Rpc.Evaluation.{or_internal, rpc_evaluate, rpc_load_evaluation}
use false_flag_demo.Server.Rpc.Flags.{
  PublishFlagVersion, or_rejected, rpc_publish_flag_version, struct_to_json_raw,
}
use false_flag_demo.Server.Rpc.Relayed.{
  relay, body, answered, relay->>=, relay-read, relay-committed, relay-accept, relay-or_status,
  code_of,
}
use false_flag_demo.Store.{Db, Fresh}
use false_flag_demo.Store.Lookups.{
  get_project_by_slug, get_flag_by_key, get_latest_flag_version, list_flag_versions,
}
use false_flag_demo.Store.Selects.{select_project_by_slug, select_flag_by_key}
use false_flag_demo.Store.Tx.{with_audit, publish_flag_version}
use false_flag_demo.Values.{Fields, object}
use false_flag_demo.Values.Services.{Services}

relay-or_uncompiled :
    (r : Result PublishError Compiled) → or_rejected r ≡ relay (λ c. c) (or_uncompiled r)
unfolding or_rejected or_uncompiled code_of
relay-or_uncompiled r = ground arith

module _ {E A : Type 0} where
  relay-or_failed : (r : Result E A) → or_internal r ≡ relay (λ a. a) (or_failed r)
  unfolding code_of
  relay-or_failed (ok x) = refl
  relay-or_failed (err e) = refl

  relay-decided :
      (r : Result E A) → or_internal r ≡ relay answered (or_failed r >>= λ d. ok (200, d))
  unfolding code_of
  relay-decided (ok x) = refl
  relay-decided (err e) = refl

-- A publication's message with a source, and the body of the same content.
abbrev pub message : ProtoStrategy → Fields → String → PublishFlagVersion
message strategy fields text = record {
  strategy = strategy;
  source = some fields;
  source_text = text;
}

abbrev pub posted : ProtoStrategy → Fields → String → PublishFlagVersionRequest
posted strategy fields text = record {
  strategy = strategy_from_proto strategy;
  source = object fields;
  source_text = text;
}

module _ (s : Services) (codec : Codec) (j : Json) (fuel : ℕ) (conn : Connection) (db : Db)
    (actor slug key : String) where
  -- The two surfaces publish alike: where the tables can be read, PublishFlagVersion over Connect on
  -- a message with a source commits the same version and the same tables as the HTTP handler on the
  -- body of the same content, and it refuses with the code that stands for the status where the HTTP
  -- handler refuses: 400 and 422 as invalid argument, 404 as not found, 409 as already exists, and
  -- 500 as internal.
  pub rpc_publish_flag_version-agrees :
      (strategy : ProtoStrategy) (fields : Fields) (text : String)
      → conn.reading ≡ ok db
      → rpc_publish_flag_version s codec j fuel conn actor slug key (message strategy fields text)
        ≡ relay body (
            handle_publish_flag_version s codec j fuel
              (some conn)
              actor
              slug
              key
              (some (posted strategy fields text)))
  unfolding rpc_publish_flag_version handle_publish_flag_version require_store struct_to_json_raw
      get_project_by_slug get_flag_by_key code_of
  rpc_publish_flag_version-agrees strategy fields text reads =
      let req = posted strategy fields text in
      let parsed = parse_strategy req.strategy in
      relay->>= body _ _ _ _ (relay-read conn db (select_project_by_slug slug) reads) (λ proj.
        relay->>= body _ _ _ _ (relay-read conn db (select_flag_by_key proj.id key) reads) (λ flag.
          relay->>= body _ _ _ _ (relay-accept (valid parsed)) (λ accepted.
            relay->>= body _ _ _ _ (relay-or_status 400 (j.marshal req.source)) (λ source_raw.
              relay->>= body _ _ _ _
                (relay-or_uncompiled (
                  resolve_and_compile codec (segment_resolver j conn proj.id) fuel s parsed
                    (if from_text parsed text then text else source_raw)))
                (λ compiled.
                  relay->>= body _ _ _ _ (relay-or_status 500 (marshal_ir codec compiled))
                    (λ compiled_raw. relay-committed 200 (
                      with_audit conn.attempts (publish_event j actor proj.id flag req)
                        (λ (f : Fresh).
                          publish_flag_version f
                            (publish_params flag.id req source_raw compiled_raw)))))))))

module _ (s : Services) (codec : Codec) (conn : Connection) (db : Db) (slug key : String) where
  -- The two surfaces evaluate alike: where the tables can be read, Evaluate over Connect on a context
  -- gives the decision that the HTTP handler gives on it, and refuses with the code that stands for
  -- the status where the HTTP handler refuses.
  pub rpc_evaluate-agrees :
      (ctx : Fields)
      → conn.reading ≡ ok db
      → rpc_evaluate s codec conn slug key (some ctx)
        ≡ relay answered (handle_evaluate_flag s codec (some conn) slug key (some ctx))
  unfolding rpc_evaluate rpc_load_evaluation handle_evaluate_flag load_evaluation require_store
      get_project_by_slug get_flag_by_key get_latest_flag_version as_map
  rpc_evaluate-agrees ctx reads =
      relay->>= answered _ _ _ _
        (relay->>= (λ l. l) _ _ _ _ (relay-read conn db (select_project_by_slug slug) reads)
          (λ proj.
            relay->>= (λ l. l) _ _ _ _ (relay-read conn db (select_flag_by_key proj.id key) reads)
              (λ flag.
                relay->>= (λ l. l) _ _ _ _
                  (relay-read conn db (λ tables. head (list_flag_versions flag.id tables)) reads)
                  (λ v.
                    relay->>= (λ l. l) _ _ _ _
                      (relay-or_failed (compile s codec (parse_strategy v.strategy) v.compiled))
                      (λ compiled. refl)))))
        (λ loaded.
          relay-decided (evaluate s (some loaded.compiled) loaded.context (pos loaded.version)))
