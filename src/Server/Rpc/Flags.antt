-- ===== src/Server/Rpc/Flags.antt =====
-- internal/server/rpc/flags.go. The segment resolver and resolveSegmentRefs of
-- internal/server/rpc/segment_resolver.go are, word for word, those of the HTTP handlers, and stand
-- here as the same definitions.
use false_flag_demo.Base.{ℕ, String, Option, none, some, List, if◌then◌else◌}
use false_flag_demo.Base.Result.{Result, ok, err, ◌>>=◌, ◌>>◌}
use false_flag_demo.Config.Compile.{Codec, valid}
use false_flag_demo.Config.Ir.{Compiled}
use false_flag_demo.Config.Publish.{
  PublishError, resolving, marshalling_resolved, compiling, resolve_and_compile,
}
use false_flag_demo.Config.Segments.{config_error, out_of_fuel}
use false_flag_demo.Server.{Connection, Json, read, parse_strategy}
use false_flag_demo.Server.Flags.{
  FlagWithLatest, is_compile_error, segment_resolver, from_text, marshal_ir,
}
use false_flag_demo.Server.Projects.{must_marshal, one_text}
use false_flag_demo.Server.Rpc.{
  connect_code, unbounded, code_internal, code_invalid_argument, Answer, Committed, connect_error,
  or_connect_error, or_code, ProtoStrategy, strategy_from_proto, ProtoValueType,
  value_type_from_proto,
}
use false_flag_demo.Server.Rpc.Projects.{require_valid}
use false_flag_demo.Store.{
  Uuid, Flag, FlagVersion, StoreError, not_found, AppendAuditParams, CreateFlagParams,
  PublishFlagVersionParams,
}
use false_flag_demo.Store.Lookups.{
  get_project_by_slug, get_flag_by_key, list_flags_by_project, get_latest_flag_version,
  list_flag_versions,
}
use false_flag_demo.Store.Tx.{with_audit, create_flag, publish_flag_version}
use false_flag_demo.Values.{Value, null, string, object, field, end, Fields, RawMessage}
use false_flag_demo.Values.Services.{Services}

-- `project_slug` is an argument of the handler.
pub record CreateFlag : Type 0 where
  pub key : String
  pub name : String
  pub description : String
  pub value_type : ProtoValueType
  pub default_value : Option Value

-- `project_slug` and `key` are arguments of the handler.
pub record PublishFlagVersion : Type 0 where
  pub strategy : ProtoStrategy
  pub source : Option Fields
  pub source_text : String

unfoldable pub value_to_any : Option Value → Value
value_to_any none = null
value_to_any (some v) = v

unfoldable pub struct_to_json_raw : Json → Option Fields → Option RawMessage
struct_to_json_raw j none = some "{}"
struct_to_json_raw j (some fields) = j.marshal (object fields)

unfoldable pub rpc_list_flags : Connection → String → Answer (List Flag)
unfolding or_connect_error get_project_by_slug list_flags_by_project
rpc_list_flags conn slug = do
  proj ← or_connect_error (read conn (get_project_by_slug slug))
  or_connect_error (read conn (λ db. ok (list_flags_by_project proj.id db)))

-- A flag that has no version yet is no error.
abbrev latest_or_none : Flag → Result StoreError FlagVersion → Answer FlagWithLatest
latest_or_none flag (ok v) = ok (record { flag = flag; latest_version = some v })
latest_or_none flag (err not_found) = ok (record { flag = flag; latest_version = none })
latest_or_none flag (err e) = err (connect_code (connect_error e))

unfoldable pub rpc_get_flag : Connection → String → String → Answer FlagWithLatest
unfolding or_connect_error connect_error get_project_by_slug get_flag_by_key get_latest_flag_version
rpc_get_flag conn slug key = do
  proj ← or_connect_error (read conn (get_project_by_slug slug))
  flag ← or_connect_error (read conn (get_flag_by_key proj.id key))
  latest_or_none flag (read conn (get_latest_flag_version flag.id))

abbrev created_flag : Json → String → Uuid → String → AppendAuditParams
created_flag j actor project key = record {
  project_id = some project;
  flag_id = none;
  action = "create_flag";
  actor = actor;
  payload = must_marshal j (one_text "key" key);
}

abbrev created_flag_params : Uuid → CreateFlag → RawMessage → CreateFlagParams
created_flag_params project msg default_raw = record {
  project_id = project;
  key = msg.key;
  name = msg.name;
  description = msg.description;
  value_type = value_type_from_proto msg.value_type;
  default_value = default_raw;
}

unfoldable pub rpc_create_flag : Json → Connection → String → String → CreateFlag → Committed Flag
unfolding or_connect_error get_project_by_slug value_to_any value_type_from_proto with_audit
    create_flag
rpc_create_flag j conn actor slug msg = do
  proj ← or_connect_error (read conn (get_project_by_slug slug))
  default_raw ← or_code code_invalid_argument (j.marshal (value_to_any msg.default_value))
  or_connect_error (
      with_audit conn.attempts (created_flag j actor proj.id msg.key)
        (λ f. create_flag f (created_flag_params proj.id msg default_raw)))

-- `badRequest`, and `compileErrorToConnect` for an error of a strategy.
unfoldable pub or_rejected : Result PublishError Compiled → Answer Compiled
unfolding is_compile_error
or_rejected (ok c) = ok c
or_rejected (err (resolving (config_error e))) = err (connect_code code_invalid_argument)
or_rejected (err (resolving out_of_fuel)) = err unbounded
or_rejected (err marshalling_resolved) = err (connect_code code_invalid_argument)
or_rejected (err (compiling e)) =
    if is_compile_error e
    then err (connect_code code_invalid_argument)
    else err (connect_code code_invalid_argument)

abbrev published_event : Json → String → Uuid → Flag → String → AppendAuditParams
published_event j actor project flag strategy = record {
  project_id = some project;
  flag_id = some flag.id;
  action = "publish_version";
  actor = actor;
  payload =
      must_marshal j
        (object (field "strategy" (string strategy) (field "flag_key" (string flag.key) end)));
}

abbrev version_params : Uuid → String → String → RawMessage → RawMessage → PublishFlagVersionParams
version_params flag strategy source_text source_raw compiled_raw = record {
  flag_id = flag;
  strategy = strategy;
  source = if from_text (parse_strategy strategy) source_text then compiled_raw else source_raw;
  compiled = compiled_raw;
  source_text = source_text;
}

-- The fuel bounds how deep segments are inlined in one another.
unfoldable pub rpc_publish_flag_version :
    Services
    → Codec
    → Json
    → ℕ
    → Connection
    → String
    → String
    → String
    → PublishFlagVersion
    → Committed FlagVersion
unfolding or_connect_error get_project_by_slug get_flag_by_key strategy_from_proto parse_strategy
    valid struct_to_json_raw resolve_and_compile segment_resolver or_rejected with_audit
    publish_flag_version
rpc_publish_flag_version s codec j fuel conn actor slug key msg = do
  proj ← or_connect_error (read conn (get_project_by_slug slug))
  flag ← or_connect_error (read conn (get_flag_by_key proj.id key))
  let strategy = strategy_from_proto msg.strategy
  require_valid strategy
  source_raw ← or_code code_invalid_argument (struct_to_json_raw j msg.source)
  let input =
      if from_text (parse_strategy strategy) msg.source_text then msg.source_text else source_raw
  compiled ← or_rejected (
      resolve_and_compile codec (segment_resolver j conn proj.id) fuel s (parse_strategy strategy)
        input)
  compiled_raw ← or_code code_internal (marshal_ir codec compiled)
  or_connect_error (
      with_audit conn.attempts (published_event j actor proj.id flag strategy) (λ f.
        publish_flag_version f
          (version_params flag.id strategy msg.source_text source_raw compiled_raw)))

unfoldable pub rpc_list_flag_versions : Connection → String → String → Answer (List FlagVersion)
unfolding or_connect_error get_project_by_slug get_flag_by_key list_flag_versions
rpc_list_flag_versions conn slug key = do
  proj ← or_connect_error (read conn (get_project_by_slug slug))
  flag ← or_connect_error (read conn (get_flag_by_key proj.id key))
  or_connect_error (read conn (λ db. ok (list_flag_versions flag.id db)))
