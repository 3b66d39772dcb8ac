-- ===== src/Operator/Policies.antt =====
-- internal/operator/controllers: the checks of a rollout policy, and the policies that a flag's rules
-- refer to.
pub mod Weights
pub mod References
use text.Mathlib.Text.{◌==◌ as str_eq}
use false_flag_demo.Base.{
  ℕ, ◌+◌, ◌%◌, ◌^◌, String, Bool, true, false, ◌||◌, Option, none, some, List, [], ◌∷◌, ◌==◌,
  if◌then◌else◌,
}
use false_flag_demo.Base.Result.{Result, ok, err, ◌>>◌, Check}
use false_flag_demo.Base.Text.{StringMap, get, put}
use false_flag_demo.Operator.Resources.{Raw, FlagRule, FlagSpec, RolloutVariant, RolloutPolicy}

pub data PolicyError : Type 0 where
  no_variant : PolicyError
  missing_value : String → PolicyError
  weights_sum_to : ℕ → PolicyError

abbrev pub is_missing : Raw → Bool
is_missing none = true
is_missing (some text) = false

-- The loop of `validateRolloutPolicy` from a total, which wraps around as an `int32`.
unfoldable pub total_weight : ℕ → List RolloutVariant → Result PolicyError ℕ
total_weight total [] = ok total
total_weight total (v ∷ variants) =
    let rest = total_weight ((total + v.weight) % 2 ^ 32) variants in
    if is_missing v.value then err (missing_value v.id) else rest

abbrev pub check_total : Result PolicyError ℕ → Check PolicyError
check_total (err e) = err e
check_total (ok total) = if total == 100 then ok tt else err (weights_sum_to total)

unfoldable pub validate_rollout_policy : RolloutPolicy → Check PolicyError
unfolding total_weight
validate_rollout_policy rp = elim rp.variants [
  | [] ↦ err no_variant
  | v ∷ variants ↦ check_total (total_weight 0 (v ∷ variants))
]

-- `needed` as the list of the references.
unfoldable pub needed_refs : List FlagRule → List String
needed_refs [] = []
needed_refs (r ∷ rules) =
    let rest = needed_refs rules in if str_eq r.rollout_ref "" then rest else r.rollout_ref ∷ rest

unfoldable pub is_needed : String → List String → Bool
is_needed name [] = false
is_needed name (n ∷ needed) = str_eq n name || is_needed name needed

abbrev pub wanted : FlagSpec → List String → RolloutPolicy → Bool
wanted flag needed rp =
    if str_eq rp.project_slug flag.project_slug then is_needed rp.name needed else false

-- The loop over the namespace's policies: a later one of the same name replaces an earlier one.
unfoldable pub collect_policies :
    FlagSpec → List String → List RolloutPolicy → StringMap RolloutPolicy → StringMap RolloutPolicy
unfolding is_needed
collect_policies flag needed [] out = out
collect_policies flag needed (rp ∷ items) out =
    collect_policies flag needed items (if wanted flag needed rp then put rp.name rp out else out)

pub data ResolveFailure : Type 0 where
  list_failed : ResolveFailure
  policy_not_found : String → ResolveFailure

-- The last loop, over the references in the order of the rules: Go's order over a map is unspecified.
unfoldable pub check_found : List String → StringMap RolloutPolicy → Check ResolveFailure
check_found [] out = ok tt
check_found (n ∷ needed) out =
    let rest = check_found needed out in
    elim (get n out) [ none ↦ err (policy_not_found n) | some rp ↦ rest ]

-- The policies of the namespace are given, `none` for an error of the listing.
unfoldable pub resolve_rollouts :
    FlagSpec → Option (List RolloutPolicy) → Result ResolveFailure (StringMap RolloutPolicy)
unfolding needed_refs collect_policies check_found
resolve_rollouts flag items = elim (needed_refs flag.rules) [
  | [] ↦ ok []
  | n ∷ needed ↦ elim items [
    | none ↦ err list_failed
    | some policies ↦
        let out = collect_policies flag (n ∷ needed) policies [] in
        check_found (n ∷ needed) out >> ok out
  ]
]
