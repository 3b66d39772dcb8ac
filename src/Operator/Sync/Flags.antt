-- ===== src/Operator/Sync/Flags.antt =====
-- internal/operator/controllers/flag_controller.go and flagbinding_controller.go: the syncs of flags
-- and of flag bindings.
use text.Mathlib.Text.{◌==◌}
use false_flag_demo.Base.{ℕ, String, Option, none, some, List, [], ◌∷◌, ◌&&◌, if◌then◌else◌}
use false_flag_demo.Base.Result.{Result, ok, err, Check}
use false_flag_demo.Base.Text.{StringMap, put}
use false_flag_demo.Operator.Api.{Client, json_source, is_already_exists}
use false_flag_demo.Operator.Conditions.{Upstream}
use false_flag_demo.Operator.Policies.{ResolveFailure, resolve_rollouts}
use false_flag_demo.Operator.Resources.{
  Raw, FlagSpec, FlagSpecBinding, RolloutPolicy, FlagBindingSpec,
}
use false_flag_demo.Values.{Value, Fields}
use false_flag_demo.Operator.Sync.{
  Documents, invalid, value_type_from_string, raw_to_value, binding_source, environment_source,
  decode_overrides, ensured,
}

abbrev pub version_or_0 : Option ℕ → ℕ
version_or_0 none = 0
version_or_0 (some n) = n

-- A response without a version leaves the map.
abbrev pub noted : String → Option ℕ → StringMap ℕ → StringMap ℕ
noted env none versions = versions
noted env (some n) versions = put env n versions

module _ (api : Client) (docs : Documents) where
  abbrev pub created_flag : FlagSpec → Option Value → api.State → Check Upstream × api.State
  created_flag flag none s = (err invalid, s)
  created_flag flag (some default_val) s =
      api.create_flag flag.project_slug
        (record {
          key = flag.key;
          name = flag.name;
          description = "";
          value_type = value_type_from_string flag.value_type;
          default_value = some default_val;
        })
        s

  unfoldable pub ensure_flag : FlagSpec → api.State → Check Upstream × api.State
  unfolding ensured raw_to_value value_type_from_string
  ensure_flag flag s =
      ensured api (api.get_flag flag.project_slug flag.key s)
        (created_flag flag (raw_to_value docs flag.default))

  abbrev pub sent :
      String → String → Result Upstream Fields → api.State → Result Upstream (Option ℕ) × api.State
  sent slug key (err e) s = (err e, s)
  sent slug key (ok fields) s = api.publish_flag_version slug key (json_source fields) s

  unfoldable pub publish :
      FlagSpec
      → StringMap RolloutPolicy
      → Option FlagSpecBinding
      → api.State
      → Result Upstream (Option ℕ) × api.State
  unfolding binding_source
  publish flag rollouts binding s =
      sent flag.project_slug flag.key (binding_source docs flag rollouts binding) s

  -- The loop over the bindings: the last version published, with the error that ended it.
  unfoldable pub publish_bindings :
      FlagSpec
      → StringMap RolloutPolicy
      → ℕ
      → List FlagSpecBinding
      → api.State
      → (ℕ × Option Upstream) × api.State
  unfolding publish
  publish_bindings flag rollouts last [] s = ((last, none), s)
  publish_bindings flag rollouts last (b ∷ bindings) s =
      let r = publish flag rollouts (some b) s in
      elim r.0 [
        | err e ↦ ((last, some e), r.1)
        | ok v ↦ publish_bindings flag rollouts (version_or_0 v) bindings r.1
      ]

  abbrev pub alone : Result Upstream (Option ℕ) × api.State → (ℕ × Option Upstream) × api.State
  alone (err e, s) = ((0, some e), s)
  alone (ok v, s) = ((version_or_0 v, none), s)

  -- The publications of the bindings, or the one of none.
  abbrev pub publish_each :
      FlagSpec
      → List FlagSpecBinding
      → Result ResolveFailure (StringMap RolloutPolicy)
      → api.State
      → (ℕ × Option Upstream) × api.State
  publish_each flag bindings (err e) s = ((0, some invalid), s)
  publish_each flag [] (ok rollouts) s = alone (publish flag rollouts none s)
  publish_each flag (b ∷ bindings) (ok rollouts) s =
      publish_bindings flag rollouts 0 (b ∷ bindings) s

  -- The policies are what the namespace lists, `none` for an error.
  unfoldable pub sync_flag :
      FlagSpec → Option (List RolloutPolicy) → api.State → (ℕ × Option Upstream) × api.State
  unfolding ensure_flag resolve_rollouts publish publish_bindings
  sync_flag flag policies s =
      let r = ensure_flag flag s in
      elim r.0 [
        | err e ↦ ((0, some e), r.1)
        | ok done ↦ publish_each flag flag.bindings (resolve_rollouts flag policies) r.1
      ]

  -- The loop of `publishAll`: the versions by environment, with the error that ended it.
  unfoldable pub publish_environments :
      FlagBindingSpec
      → FlagSpec
      → StringMap Raw
      → StringMap ℕ
      → List String
      → api.State
      → (StringMap ℕ × Option Upstream) × api.State
  unfolding environment_source is_already_exists
  publish_environments binding flag overrides versions [] s = ((versions, none), s)
  publish_environments binding flag overrides versions (env ∷ envs) s =
      let r =
        sent binding.project_slug binding.flag_key (environment_source docs flag overrides env) s in
      let rest = publish_environments binding flag overrides versions envs r.1 in
      elim r.0 [
        | err e ↦ if is_already_exists e then rest else ((versions, some e), r.1)
        | ok v ↦ publish_environments binding flag overrides (noted env v versions) envs r.1
      ]

  unfoldable pub publish_all :
      FlagBindingSpec → FlagSpec → api.State → (StringMap ℕ × Option Upstream) × api.State
  unfolding decode_overrides publish_environments
  publish_all binding flag s =
      publish_environments binding flag (decode_overrides docs binding) [] binding.environments s

-- The loop of `fetchFlag` over the flags that the namespace lists.
unfoldable pub fetch_flag : FlagBindingSpec → List FlagSpec → Option FlagSpec
fetch_flag binding [] = none
fetch_flag binding (f ∷ flags) =
    if (f.project_slug == binding.project_slug) && (f.key == binding.flag_key)
    then some f
    else fetch_flag binding flags
