-- ===== src/Operator/Sync.antt =====
-- internal/operator/controllers: the syncs of the reconcilers, from the resource's spec on. The texts
-- of the errors that they make themselves are left out.
pub mod Flags
pub mod Versions
use text.Mathlib.Text.{◌==◌}
use false_flag_demo.Base.{ℕ, String, Option, none, some, List, [], ◌∷◌, ◌&&◌, if◌then◌else◌}
use false_flag_demo.Base.Int.{pos}
use false_flag_demo.Base.Result.{Result, ok, err, Check, ◌>>=◌}
use false_flag_demo.Base.Text.{StringMap, put}
use false_flag_demo.Config.Ir.{
  Predicate, RulesTree, ValueType, boolean, string, number, object, other,
}
use false_flag_demo.Operator.Api.{Client, json_source, is_not_found, is_already_exists}
use false_flag_demo.Operator.Conditions.{Upstream, connect_error, invalid_argument}
use false_flag_demo.Operator.Policies.{ResolveFailure, resolve_rollouts}
use false_flag_demo.Operator.Resources.{
  Raw, raw_message, FlagSpec, FlagSpecBinding, RolloutPolicy, ProjectSpec, EnvironmentSpec,
  SegmentSpec, FlagBindingSpec,
}
use false_flag_demo.Operator.Translate.{
  PredicateError, unmarshal_predicate, ir_for_flag, environment_tree,
}
use false_flag_demo.Server.Rpc.{
  ProtoStrategy, strategy_json, strategy_cel, strategy_typescript, other_strategy, ProtoValueType,
  value_type_boolean, value_type_string, value_type_number, value_type_object, other_value_type,
}
use false_flag_demo.Server.Rpc.Flags.{PublishFlagVersion}
use false_flag_demo.Server.Rpc.Segments.{SegmentMessage}
use false_flag_demo.Values.{Value, null, Fields, RawMessage}

-- encoding/json and structpb as the syncs call them, `none` for an error.
pub record Documents : Type 0 where
  pub decode_predicate : RawMessage → Option Predicate
  pub encode_predicate : Predicate → Option RawMessage
  pub encode_tree : RulesTree → Option RawMessage
  pub decode_object : RawMessage → Option Fields
  pub new_struct : Fields → Option Fields
  pub decode_value : RawMessage → Option Value
  pub decode_overrides : RawMessage → Option (StringMap Raw)

abbrev pub invalid : Upstream
invalid = connect_error invalid_argument ""

-- An error that is reported as an invalid argument.
abbrev pub or_invalid : {E A : Type 0} → Result E A → Result Upstream A
or_invalid (ok x) = ok x
or_invalid (err e) = err invalid

abbrev pub some_or_invalid : {A : Type 0} → Option A → Result Upstream A
some_or_invalid none = err invalid
some_or_invalid (some x) = ok x

unfoldable pub strategy_from_string : String → ProtoStrategy
strategy_from_string s =
    if s == "cel"
    then strategy_cel
    else if s == "typescript"
    then strategy_typescript
    else if s == ""
    then strategy_json
    else if s == "json"
    then strategy_json
    else other_strategy (pos 0)

unfoldable pub value_type_from_string : ValueType → ProtoValueType
value_type_from_string string = value_type_string
value_type_from_string number = value_type_number
value_type_from_string object = value_type_object
value_type_from_string boolean = value_type_boolean
value_type_from_string (other t) = if t == "" then value_type_boolean else other_value_type (pos 0)

module _ (docs : Documents) where
  -- `PublishSource` and the struct of it, with the error that the callers make of theirs.
  unfoldable pub publish_source : RulesTree → Result Upstream Fields
  publish_source tree = do
    raw ← some_or_invalid (docs.encode_tree tree)
    source ← some_or_invalid (docs.decode_object raw)
    some_or_invalid (docs.new_struct source)

  -- Likewise.
  unfoldable pub predicate_to_struct : Predicate → Result Upstream Fields
  predicate_to_struct p = do
    raw ← some_or_invalid (docs.encode_predicate p)
    m ← some_or_invalid (docs.decode_object raw)
    some_or_invalid (docs.new_struct m)

  unfoldable pub ir_for_segment : SegmentSpec → Result PredicateError Predicate
  unfolding unmarshal_predicate
  ir_for_segment seg = unmarshal_predicate docs.decode_predicate seg.predicate

  -- The struct value of a default.
  unfoldable pub raw_to_value : Raw → Option Value
  raw_to_value raw =
      if raw_message raw == "" then some null else docs.decode_value (raw_message raw)

  -- What `publish` sends for a binding, or for none.
  unfoldable pub binding_source :
      FlagSpec → StringMap RolloutPolicy → Option FlagSpecBinding → Result Upstream Fields
  unfolding ir_for_flag publish_source
  binding_source flag rollouts binding = do
    tree ← or_invalid (ir_for_flag docs.decode_predicate (some flag) rollouts binding)
    publish_source tree

  unfoldable pub decode_overrides : FlagBindingSpec → StringMap Raw
  decode_overrides binding = elim binding.overrides [
    | none ↦ []
    | some raw ↦
        if raw_message raw == ""
        then []
        else (elim (docs.decode_overrides (raw_message raw)) [ none ↦ [] | some m ↦ m ])
  ]

  -- What `publishAll` sends for an environment.
  unfoldable pub environment_source : FlagSpec → StringMap Raw → String → Result Upstream Fields
  unfolding environment_tree publish_source
  environment_source flag overrides env = do
    tree ← or_invalid (environment_tree docs.decode_predicate flag overrides env)
    publish_source tree

module _ (api : Client) where
  -- A creation that finds the thing there is no error.
  unfoldable pub tolerated : Check Upstream × api.State → Check Upstream × api.State
  unfolding is_already_exists
  tolerated (ok done, s) = (ok tt, s)
  tolerated (err e, s) = if is_already_exists e then (ok tt, s) else (err e, s)

  -- What follows `Get`: nothing if it is there, `Create` if it is not found.
  unfoldable pub ensured :
      Check Upstream × api.State
      → (api.State → Check Upstream × api.State)
      → Check Upstream × api.State
  unfolding is_not_found tolerated
  ensured (ok found, s) create = (ok tt, s)
  ensured (err e, s) create = if is_not_found e then tolerated (create s) else (err e, s)

  unfoldable pub sync_project : ProjectSpec → api.State → Check Upstream × api.State
  unfolding ensured strategy_from_string
  sync_project proj s = ensured (api.get_project proj.project_slug s) (
      api.create_project (record {
        slug = proj.project_slug;
        display_name = proj.display_name;
        config_strategy = strategy_from_string proj.config_strategy;
      }))

  unfoldable pub sync_environment : EnvironmentSpec → api.State → Check Upstream × api.State
  unfolding ensured
  sync_environment env s =
      ensured (api.get_environment env.project_slug env.slug s)
        (api.create_environment env.project_slug (record { slug = env.slug; name = env.name }))

  abbrev pub segment_message : SegmentSpec → Fields → SegmentMessage
  segment_message seg fields = record {
    name = seg.name;
    description = seg.description;
    predicate = some fields;
  }

  -- What follows `GetSegment`: `UpdateSegment` if it is there.
  abbrev pub upserted :
      SegmentSpec → Fields → Check Upstream × api.State → Check Upstream × api.State
  upserted seg fields (ok found, s) =
      api.update_segment seg.project_slug seg.key (segment_message seg fields) s
  upserted seg fields (err e, s) =
      if is_not_found e
      then tolerated (api.create_segment seg.project_slug seg.key (segment_message seg fields) s)
      else (err e, s)

  module _ (docs : Documents) where
    unfoldable pub sync_segment : SegmentSpec → api.State → Check Upstream × api.State
    unfolding tolerated is_not_found ir_for_segment predicate_to_struct
    sync_segment seg s = elim (or_invalid (ir_for_segment docs seg) >>= predicate_to_struct docs) [
      | err e ↦ (err e, s)
      | ok fields ↦ upserted seg fields (api.get_segment seg.project_slug seg.key s)
    ]
