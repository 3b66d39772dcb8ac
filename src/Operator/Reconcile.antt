-- ===== src/Operator/Reconcile.antt =====
-- internal/operator/controllers: the `Reconcile` of each reconciler, from what the cluster returns for
-- the resource on. A pass gives what controller-runtime gets, the resource if it was updated, the
-- resource if its status was, and the API's state after it.
pub mod Bindings
pub mod Protocol
use text.Mathlib.Text.{◌==◌}
use false_flag_demo.Base.{
  ℕ, String, Bool, Option, none, some, List, [], ◌∷◌, length, ltb, not, if◌then◌else◌,
}
use false_flag_demo.Base.Result.{Result, ok, err, Check}
use false_flag_demo.Base.Text.{StringMap}
use false_flag_demo.Operator.Api.{Client}
use false_flag_demo.Operator.Conditions.{
  Code, Condition, Upstream, requeue_after_success, requeue_after_conflict, condition_false,
  ready_true, synced_true, translate_error, set_condition, report,
}
use false_flag_demo.Operator.Pass.{
  Resource, Status, FlagStatus, FlagBindingStatus, FlagSnapshotStatus, Fetched, missing,
  unavailable, fetched, Cluster, Finalizers, Texts, Returned, from_cluster, from_upstream, Pass,
  first_error, idle, unfetched, updating, reporting, is_synced, settle, error_of,
}
use false_flag_demo.Operator.Policies.{PolicyError, validate_rollout_policy}
use false_flag_demo.Operator.Resources.{
  FlagSpec, RolloutPolicy, ProjectSpec, EnvironmentSpec, SegmentSpec, FlagBindingSpec,
}
use false_flag_demo.Operator.Sync.{Documents, sync_project, sync_environment, sync_segment}
use false_flag_demo.Operator.Sync.Flags.{sync_flag, publish_all, fetch_flag}

abbrev pub flag_finalizer : String
flag_finalizer = "flag.falseflag.dev/finalizer"

abbrev pub segment_finalizer : String
segment_finalizer = "segment.falseflag.dev/finalizer"

module _ (api : Client) (t : Texts) (c : Cluster) where
  -- The status after the sync, and the pass.
  abbrev pub settled :
      {Spec : Type 0}
      → Resource Spec Status
      → Check Upstream × api.State
      → Pass (Resource Spec Status) × api.State
  settled r (done, s) =
      let e = error_of done in
      (reporting t c e (record r { status = settle t c r.generation e r.status }), s)

  unfoldable pub reconcile_project :
      Fetched (Resource ProjectSpec Status)
      → api.State
      → Pass (Resource ProjectSpec Status) × api.State
  unfolding sync_project settle translate_error
  reconcile_project missing s = (idle, s)
  reconcile_project (unavailable e) s = (unfetched e, s)
  reconcile_project (fetched proj) s = settled proj (sync_project api proj.spec s)

  unfoldable pub reconcile_environment :
      Fetched (Resource EnvironmentSpec Status)
      → api.State
      → Pass (Resource EnvironmentSpec Status) × api.State
  unfolding sync_environment settle translate_error
  reconcile_environment missing s = (idle, s)
  reconcile_environment (unavailable e) s = (unfetched e, s)
  reconcile_environment (fetched env) s = settled env (sync_environment api env.spec s)

  module _ (fin : Finalizers) {Spec S : Type 0} where
    -- The part of `Reconcile` before the sync, with the finalizer's name.
    unfoldable pub with_finalizer :
        String
        → (Resource Spec S → api.State → Pass (Resource Spec S) × api.State)
        → Fetched (Resource Spec S)
        → api.State
        → Pass (Resource Spec S) × api.State
    with_finalizer name sync missing s = (idle, s)
    with_finalizer name sync (unavailable e) s = (unfetched e, s)
    with_finalizer name sync (fetched r) s =
        if r.deleting
        then (
          if fin.contains name r.finalizers
              then updating c 0 (record r { finalizers = fin.remove name r.finalizers })
              else idle,
          s,
        )
        else if not (fin.contains name r.finalizers)
        then (updating c 1 (record r { finalizers = fin.add name r.finalizers }), s)
        else sync r s

  module _ (docs : Documents) where
    unfoldable pub reconcile_segment :
        Finalizers
        → Fetched (Resource SegmentSpec Status)
        → api.State
        → Pass (Resource SegmentSpec Status) × api.State
    unfolding with_finalizer sync_segment settle translate_error
    reconcile_segment fin =
        with_finalizer fin segment_finalizer
          (λ seg s. settled seg (sync_segment api docs seg.spec s))

    abbrev pub with_version : ℕ → Bool → ℕ → ℕ
    with_version last synced old = if synced then if ltb 0 last then last else old else old

    -- What the pass reports after a sync: the last version published, if there is one.
    abbrev pub flag_settled :
        Resource FlagSpec FlagStatus
        → (ℕ × Option Upstream) × api.State
        → Pass (Resource FlagSpec FlagStatus) × api.State
    flag_settled flag ((last, e), s) = (
      reporting t c e (record flag {
        status = record {
          common = settle t c flag.generation e flag.status.common;
          last_published_version =
              with_version last (is_synced t e) flag.status.last_published_version;
        };
      }),
      s,
    )

    -- The rollout policies are what the namespace lists, `none` for an error.
    unfoldable pub reconcile_flag :
        Finalizers
        → Option (List RolloutPolicy)
        → Fetched (Resource FlagSpec FlagStatus)
        → api.State
        → Pass (Resource FlagSpec FlagStatus) × api.State
    unfolding with_finalizer sync_flag settle translate_error
    reconcile_flag fin policies =
        with_finalizer fin flag_finalizer
          (λ flag s. flag_settled flag (sync_flag api docs flag.spec policies s))
