-- ===== src/Operator/Reconcile/Bindings.antt =====
-- internal/operator/controllers: the `Reconcile` of flag bindings, flag snapshots and rollout policies,
-- which hold no finalizer.
use false_flag_demo.Base.{ℕ, String, Option, none, some, List, length, if◌then◌else◌}
use false_flag_demo.Base.Result.{Result, ok, err, Check}
use false_flag_demo.Base.Text.{StringMap}
use false_flag_demo.Operator.Api.{Client}
use false_flag_demo.Operator.Conditions.{
  Condition, Upstream, requeue_after_success, requeue_after_conflict, condition_false, ready_true,
  synced_true, translate_error, set_condition,
}
use false_flag_demo.Operator.Policies.{PolicyError, validate_rollout_policy}
use false_flag_demo.Operator.Pass.{
  Resource, Status, FlagBindingStatus, FlagSnapshotStatus, Fetched, missing, unavailable, fetched,
  Cluster, Texts, from_cluster, Pass, idle, unfetched, reporting, is_synced, settle,
}
use false_flag_demo.Operator.Resources.{FlagSpec, RolloutPolicy, FlagBindingSpec}
use false_flag_demo.Operator.Sync.{Documents}
use false_flag_demo.Operator.Sync.Flags.{publish_all, fetch_flag}

abbrev published_true : String → Condition
published_true text = record {
  kind = "Published";
  status = "True";
  reason = "AllEnvironmentsPublished";
  message = text;
  last_transition_time = 0;
}

abbrev compiled_true : Condition
compiled_true = record {
  kind = "Compiled";
  status = "True";
  reason = "SnapshotExists";
  message = "latest snapshot fetched from API";
  last_transition_time = 0;
}

abbrev resolved_true : Condition
resolved_true = record {
  kind = "Resolved";
  status = "True";
  reason = "Valid";
  message = "all variants are valid";
  last_transition_time = 0;
}

module _ (t : Texts) (c : Cluster) where
  -- One more condition.
  abbrev also : Condition → Status → Status
  also cond st = record st { conditions = set_condition c.now st.conditions cond }

  -- A binding whose flag is not there; an error of the status update is dropped.
  abbrev pub unbound :
      Resource FlagBindingSpec FlagBindingStatus → Pass (Resource FlagBindingSpec FlagBindingStatus)
  unbound binding = record {
    requeue_after = requeue_after_conflict;
    returned = none;
    updates = none;
    reports = some (record binding {
      status = record binding.status {
        common = also (condition_false "Ready" "FlagNotFound" t.flag_missing) binding.status.common;
      };
    });
  }

  abbrev pub bound_status :
      ℕ → StringMap ℕ → Option Upstream → FlagBindingStatus → FlagBindingStatus
  bound_status generation versions e st =
      let common = settle t c generation e st.common in
      if is_synced t e
      then record {
        common = also (published_true (t.published (length versions))) common;
        published_versions = versions;
      }
      else record st { common = common }

  module _ (api : Client) (docs : Documents) where
    abbrev pub bound :
        Resource FlagBindingSpec FlagBindingStatus
        → (StringMap ℕ × Option Upstream) × api.State
        → Pass (Resource FlagBindingSpec FlagBindingStatus) × api.State
    bound binding ((versions, e), s) = (
      reporting t c e
          (record binding { status = bound_status binding.generation versions e binding.status }),
      s,
    )

    abbrev pub listed_flag : FlagBindingSpec → Option (List FlagSpec) → Option FlagSpec
    listed_flag binding none = none
    listed_flag binding (some flags) = fetch_flag binding flags

    -- The flags are what the namespace lists, `none` for an error.
    unfoldable pub reconcile_flag_binding :
        Option (List FlagSpec)
        → Fetched (Resource FlagBindingSpec FlagBindingStatus)
        → api.State
        → Pass (Resource FlagBindingSpec FlagBindingStatus) × api.State
    unfolding fetch_flag publish_all settle translate_error set_condition requeue_after_conflict
    reconcile_flag_binding flags missing s = (idle, s)
    reconcile_flag_binding flags (unavailable e) s = (unfetched e, s)
    reconcile_flag_binding flags (fetched binding) s = elim (listed_flag binding.spec flags) [
      | none ↦ (unbound binding, s)
      | some flag ↦ bound binding (publish_all api docs binding.spec flag s)
    ]

  -- What is read of a snapshot: its version, and the number of its flags, if it tells.
  abbrev pub Seen : Type 0
  Seen = ℕ × Option ℕ

  abbrev pub seen_status :
      ℕ → Result Upstream (Option Seen) → FlagSnapshotStatus → FlagSnapshotStatus
  seen_status generation (ok none) st = record st { common = also synced_true st.common }
  seen_status generation (ok (some (version, flags))) st = record {
    common = record {
      conditions = (also ready_true (also compiled_true (also synced_true st.common))).conditions;
      observed_generation = generation;
      last_sync_time = some c.now;
    };
    compiled_version = version;
    flag_count = elim flags [ none ↦ st.flag_count | some n ↦ n ];
  }
  seen_status generation (err e) st = record st {
    common =
        also (condition_false "Compiled" "Unavailable" "latest snapshot unavailable")
          (also (translate_error t.render (some e)).condition st.common);
  }

  abbrev upstream_of : Result Upstream (Option Seen) → Option Upstream
  upstream_of (ok x) = none
  upstream_of (err e) = some e

  -- The response to `GetLatestSnapshot` is given, `none` for one without a snapshot.
  unfoldable pub reconcile_flag_snapshot :
      Result Upstream (Option Seen)
      → Fetched (Resource String FlagSnapshotStatus)
      → Pass (Resource String FlagSnapshotStatus)
  unfolding set_condition translate_error
  reconcile_flag_snapshot latest missing = idle
  reconcile_flag_snapshot latest (unavailable e) = unfetched e
  reconcile_flag_snapshot latest (fetched snap) =
      reporting t c (upstream_of latest)
        (record snap { status = seen_status snap.generation latest snap.status })

  -- A policy that is refused; an error of the status update is dropped.
  abbrev pub checked :
      Resource RolloutPolicy Status → Check PolicyError → Pass (Resource RolloutPolicy Status)
  checked rp (err e) = record {
    requeue_after = 0;
    returned = none;
    updates = none;
    reports = some (record rp {
      status =
          also (condition_false "Resolved" "InvalidSpec" (t.policy e))
            (also (condition_false "Ready" "InvalidSpec" (t.policy e)) rp.status);
    });
  }
  checked rp (ok done) = record {
    requeue_after = elim c.status_error [ none ↦ requeue_after_success | some e ↦ 0 ];
    returned = elim c.status_error [ none ↦ none | some e ↦ some (from_cluster e) ];
    updates = none;
    reports = some (record rp {
      status = record {
        conditions = (also synced_true (also resolved_true (also ready_true rp.status))).conditions;
        observed_generation = rp.generation;
        last_sync_time = some c.now;
      };
    });
  }

  unfoldable pub reconcile_rollout_policy :
      Fetched (Resource RolloutPolicy Status) → Pass (Resource RolloutPolicy Status)
  unfolding validate_rollout_policy set_condition requeue_after_success
  reconcile_rollout_policy missing = idle
  reconcile_rollout_policy (unavailable e) = unfetched e
  reconcile_rollout_policy (fetched rp) = checked rp (validate_rollout_policy rp.spec)
