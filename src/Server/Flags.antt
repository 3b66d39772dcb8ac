-- ===== src/Server/Flags.antt =====
-- internal/server/handlers/flags.go and compile_error.go.
pub mod Published
pub mod Stored
use text.Mathlib.Text.{◌==◌}
use false_flag_demo.Base.{
  ℕ, String, Bool, true, false, ◌&&◌, not, Option, none, some, List, if◌then◌else◌,
}
use false_flag_demo.Base.Result.{Result, ok, err, ◌>>=◌, ◌>>◌}
use false_flag_demo.Config.Compile.{Codec, valid}
use false_flag_demo.Config.Errors.{ConfigError, wrapped, in_rule, unknown_strategy}
use false_flag_demo.Config.Ir.{Strategy, typescript, Compiled}
use false_flag_demo.Config.Publish.{
  PublishError, resolving, marshalling_resolved, compiling, store_segment_resolver,
  resolve_and_compile,
}
use false_flag_demo.Config.Segments.{SegmentResolver, config_error, out_of_fuel}
use false_flag_demo.Server.{
  Api, Connection, Json, Refusal, status, Reply, Written, require_store, not_found_or_error,
  or_internal_error, write_store_err, or_status, read, accept, parse_strategy,
}
use false_flag_demo.Server.Projects.{must_marshal, one_text}
use false_flag_demo.Store.{
  Uuid, Flag, FlagVersion, Segment, StoreError, not_found, AppendAuditParams, CreateFlagParams,
  PublishFlagVersionParams,
}
use false_flag_demo.Store.Lookups.{
  get_project_by_slug, get_flag_by_key, list_flags_by_project, get_latest_flag_version,
  list_flag_versions, get_segment_by_key,
}
use false_flag_demo.Store.Tx.{with_audit, create_flag, publish_flag_version}
use false_flag_demo.Values.{Value, string, object, field, end, RawMessage}
use false_flag_demo.Values.Services.{Services}

pub record CreateFlagRequest : Type 0 where
  pub key : String
  pub name : String
  pub description : String
  pub value_type : String
  pub default_value : Value

-- An absent source text is the empty one.
pub record PublishFlagVersionRequest : Type 0 where
  pub strategy : String
  pub source : Value
  pub source_text : String

unfoldable pub handle_list_flags : Api → String → Reply (List Flag)
unfolding require_store not_found_or_error get_project_by_slug list_flags_by_project
handle_list_flags api slug = do
  conn ← require_store api
  proj ← not_found_or_error (read conn (get_project_by_slug slug))
  rows ← or_internal_error (read conn (λ db. ok (list_flags_by_project proj.id db)))
  ok (200, rows)

abbrev pub flag_event : Json → String → Uuid → CreateFlagRequest → AppendAuditParams
flag_event j actor project req = record {
  project_id = some project;
  flag_id = none;
  action = "create_flag";
  actor = actor;
  payload = must_marshal j (one_text "key" req.key);
}

abbrev pub flag_params : Uuid → CreateFlagRequest → RawMessage → CreateFlagParams
flag_params project req default_raw = record {
  project_id = project;
  key = req.key;
  name = req.name;
  description = req.description;
  value_type = req.value_type;
  default_value = default_raw;
}

unfoldable pub handle_create_flag :
    Json → Api → String → String → Option CreateFlagRequest → Written Flag
unfolding require_store not_found_or_error get_project_by_slug write_store_err with_audit
    create_flag
handle_create_flag j api actor slug body = do
  conn ← require_store api
  proj ← not_found_or_error (read conn (get_project_by_slug slug))
  req ← or_status 400 body
  default_raw ← or_status 400 (j.marshal req.default_value)
  out ← write_store_err (
      with_audit conn.attempts (flag_event j actor proj.id req)
        (λ f. create_flag f (flag_params proj.id req default_raw)))
  ok ((201, out.0), out.1)

pub record FlagWithLatest : Type 0 where
  pub flag : Flag
  pub latest_version : Option FlagVersion

-- A flag that has no version yet is no error.
abbrev pub with_latest : Flag → Result StoreError FlagVersion → Reply FlagWithLatest
with_latest flag (ok v) = ok (200, record { flag = flag; latest_version = some v })
with_latest flag (err not_found) = ok (200, record { flag = flag; latest_version = none })
with_latest flag (err _) = err (status 500)

unfoldable pub handle_get_flag : Api → String → String → Reply FlagWithLatest
unfolding require_store not_found_or_error get_project_by_slug get_flag_by_key
    get_latest_flag_version
handle_get_flag api slug key = do
  conn ← require_store api
  proj ← not_found_or_error (read conn (get_project_by_slug slug))
  flag ← not_found_or_error (read conn (get_flag_by_key proj.id key))
  with_latest flag (read conn (get_latest_flag_version flag.id))

-- Every sentinel but that of an unknown strategy.
unfoldable pub is_compile_error : ConfigError → Bool
is_compile_error (wrapped unknown_strategy) = false
is_compile_error (wrapped _) = true
is_compile_error (in_rule id e) = is_compile_error e

-- `badRequest` for what resolution refuses, `writeCompileError` with 422 for what compilation does.
unfoldable pub or_uncompiled : Result PublishError Compiled → Result Refusal Compiled
unfolding is_compile_error
or_uncompiled (ok c) = ok c
or_uncompiled (err (resolving (config_error e))) = err (status 400)
or_uncompiled (err (resolving out_of_fuel)) = err Refusal.out_of_fuel
or_uncompiled (err marshalling_resolved) = err (status 400)
or_uncompiled (err (compiling e)) =
    if is_compile_error e then err (status 422) else err (status 400)

abbrev stored_predicate : Result StoreError Segment → Option RawMessage
stored_predicate (ok s) = some s.predicate
stored_predicate (err e) = none

-- `storeSegmentResolver` over one connection.
unfoldable pub segment_resolver : Json → Connection → Uuid → SegmentResolver
unfolding get_segment_by_key store_segment_resolver
segment_resolver j conn project =
    store_segment_resolver (λ key. stored_predicate (read conn (get_segment_by_key project key)))
      j.decode_predicate

abbrev is_typescript : Strategy → Bool
is_typescript typescript = true
is_typescript _ = false

-- The TypeScript source text stands for the source, where there is one.
abbrev pub from_text : Strategy → String → Bool
from_text strategy text = is_typescript strategy && not (text == "")

-- `json.Marshal(compiled.IR)`.
abbrev pub marshal_ir : Codec → Compiled → Option RawMessage
marshal_ir codec c = elim c.ir [ none ↦ some "null" | some tree ↦ codec.encode_tree tree ]

abbrev pub publish_event :
    Json → String → Uuid → Flag → PublishFlagVersionRequest → AppendAuditParams
publish_event j actor project flag req = record {
  project_id = some project;
  flag_id = some flag.id;
  action = "publish_version";
  actor = actor;
  payload =
      must_marshal j
        (object (field "strategy" (string req.strategy) (field "flag_key" (string flag.key) end)));
}

abbrev pub publish_params :
    Uuid → PublishFlagVersionRequest → RawMessage → RawMessage → PublishFlagVersionParams
publish_params flag req source_raw compiled_raw = record {
  flag_id = flag;
  strategy = req.strategy;
  source =
      if from_text (parse_strategy req.strategy) req.source_text then compiled_raw else source_raw;
  compiled = compiled_raw;
  source_text = req.source_text;
}

-- The fuel bounds how deep segments are inlined in one another.
unfoldable pub handle_publish_flag_version :
    Services
    → Codec
    → Json
    → ℕ
    → Api
    → String
    → String
    → String
    → Option PublishFlagVersionRequest
    → Written FlagVersion
unfolding require_store not_found_or_error get_project_by_slug get_flag_by_key parse_strategy valid
    resolve_and_compile segment_resolver or_uncompiled write_store_err with_audit
    publish_flag_version
handle_publish_flag_version s codec j fuel api actor slug key body = do
  conn ← require_store api
  proj ← not_found_or_error (read conn (get_project_by_slug slug))
  flag ← not_found_or_error (read conn (get_flag_by_key proj.id key))
  req ← or_status 400 body
  let strategy = parse_strategy req.strategy
  accept (valid strategy)
  source_raw ← or_status 400 (j.marshal req.source)
  let input = if from_text strategy req.source_text then req.source_text else source_raw
  compiled ←
      or_uncompiled
        (resolve_and_compile codec (segment_resolver j conn proj.id) fuel s strategy input)
  compiled_raw ← or_status 500 (marshal_ir codec compiled)
  out ← write_store_err (
      with_audit conn.attempts (publish_event j actor proj.id flag req)
        (λ f. publish_flag_version f (publish_params flag.id req source_raw compiled_raw)))
  ok ((200, out.0), out.1)

unfoldable pub handle_list_flag_versions : Api → String → String → Reply (List FlagVersion)
unfolding require_store not_found_or_error get_project_by_slug get_flag_by_key list_flag_versions
handle_list_flag_versions api slug key = do
  conn ← require_store api
  proj ← not_found_or_error (read conn (get_project_by_slug slug))
  flag ← not_found_or_error (read conn (get_flag_by_key proj.id key))
  rows ← or_internal_error (read conn (λ db. ok (list_flag_versions flag.id db)))
  ok (200, rows)
