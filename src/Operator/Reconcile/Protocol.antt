-- ===== src/Operator/Reconcile/Protocol.antt =====
-- The life of a flag resource as the reconciler meets it: the finalizer, the sync, the deletion.
use false_flag_demo.Base.{
  ℕ, ◌<◌, lt→ltb, none, some, true, false, ◌≡◌, ◌⊎◌, String, refl, Option, List, Bool-cases, inl,
  inr,
}
use false_flag_demo.Operator.Api.{Client}
use false_flag_demo.Operator.Reconcile.{flag_finalizer, with_finalizer, reconcile_flag}
use false_flag_demo.Operator.Pass.{
  Resource, FlagStatus, fetched, Cluster, Finalizers, Texts, Pass, from_cluster, settle,
}
use false_flag_demo.Operator.Resources.{FlagSpec, RolloutPolicy}
use false_flag_demo.Operator.Conditions.{
  requeue_after_success, set_condition, synced_true, ready_true, report, translate_error,
}
use false_flag_demo.Operator.Sync.{Documents}
use false_flag_demo.Operator.Sync.Flags.{sync_flag}

-- What controllerutil documents.
pub record AreKept (fin : Finalizers) : Type 0 where
  pub contains-add :
      (name : String) (names : List String) → fin.contains name (fin.add name names) ≡ true
  pub contains-remove :
      (name : String) (names : List String) → fin.contains name (fin.remove name names) ≡ false

module _ (api : Client) (t : Texts) (docs : Documents) (fin : Finalizers)
    (policies : Option (List RolloutPolicy)) where
  abbrev pass :
      Cluster
      → Resource FlagSpec FlagStatus
      → api.State
      → Pass (Resource FlagSpec FlagStatus) × api.State
  pass c flag = reconcile_flag api t c docs fin policies (fetched flag)

  -- The resource as the first pass writes it, deleted after that, and as the last writes it.
  abbrev pub held : Resource FlagSpec FlagStatus → Resource FlagSpec FlagStatus
  held flag = record flag { finalizers = fin.add flag_finalizer flag.finalizers }

  abbrev pub deleted : Resource FlagSpec FlagStatus → Resource FlagSpec FlagStatus
  deleted flag = record (held flag) { deleting = true }

  abbrev pub released : Resource FlagSpec FlagStatus → Resource FlagSpec FlagStatus
  released flag = record (deleted flag) {
    finalizers = fin.remove flag_finalizer (held flag).finalizers;
  }

  -- The status after a sync that published a version.
  abbrev pub published_status : Cluster → Resource FlagSpec FlagStatus → ℕ → FlagStatus
  published_status c flag version = record {
    common = record {
      conditions =
          set_condition c.now (set_condition c.now flag.status.common.conditions synced_true)
            ready_true;
      observed_generation = flag.generation;
      last_sync_time = some c.now;
    };
    last_published_version = version;
  }

  -- On a cluster that takes the updates, a new resource is first written with the finalizer, with no
  -- call of the API, and is queued again after a nanosecond. The pass over what was written syncs it: where
  -- the sync publishes, the pass reports the version, and the API is left as the sync leaves it. Once
  -- the resource is being deleted, it is written without the finalizer, again with no call of the API,
  -- and the pass over that writes nothing. On a cluster that refuses updates, both passes that write
  -- return the error, and are not queued by a time.
  pub reconcile_flag-protocol :
      (c refusing : Cluster) (flag : Resource FlagSpec FlagStatus) (s s' after : api.State)
      (version : ℕ) (message : String)
      → 0 < version
      → AreKept fin
      → flag.deleting ≡ false
      → fin.contains flag_finalizer flag.finalizers ≡ false
      → c.update_error ≡ none
      → c.status_error ≡ none
      → refusing.update_error ≡ some message
      → sync_flag api docs flag.spec policies s ≡ ((version, none), after)
      → (pass c flag s ≡ (
        record { requeue_after = 1; returned = none; updates = some (held flag); reports = none },
        s,
      ))
        × (pass c (held flag) s ≡ (
          record {
            requeue_after = requeue_after_success;
            returned = none;
            updates = none;
            reports = some (record (held flag) { status = published_status c flag (version) });
          },
          after,
        ))
        × (pass c (deleted flag) s' ≡ (
          record {
            requeue_after = 0;
            returned = none;
            updates = some (released flag);
            reports = none;
          },
          s',
        ))
        × (pass c (released flag) s'
            ≡ (record { requeue_after = 0; returned = none; updates = none; reports = none }, s'))
        × (pass refusing flag s ≡ (
          record {
            requeue_after = 0;
            returned = some (from_cluster message);
            updates = some (held flag);
            reports = none;
          },
          s,
        ))
        × (pass refusing (deleted flag) s' ≡ (
          record {
            requeue_after = 0;
            returned = some (from_cluster message);
            updates = some (released flag);
            reports = none;
          },
          s',
        ))
  unfolding reconcile_flag with_finalizer settle translate_error report
  reconcile_flag-protocol c refusing flag s s' after version message some_version kept live bare
        writes reports refuses synced =
      let added = kept.contains-add flag_finalizer flag.finalizers in
      let removed = kept.contains-remove flag_finalizer (fin.add flag_finalizer flag.finalizers) in
      (
        rw (live, bare, writes) refl,
        rw (live, added, synced) (rw (reports, lt→ltb 0 version some_version) refl),
        rw (added, writes) refl,
        rw removed refl,
        rw (live, bare, refuses) refl,
        rw (added, refuses) refl,
      )

  -- The API is called only for a resource that is not being deleted and holds the finalizer.
  pub reconcile_flag-same :
      (c : Cluster) (flag : Resource FlagSpec FlagStatus) (s : api.State)
      → (flag.deleting ≡ true) ⊎ (fin.contains flag_finalizer flag.finalizers ≡ false)
      → (pass c flag s).1 ≡ s
  unfolding reconcile_flag with_finalizer
  reconcile_flag-same c flag s (inl gone) = rw gone refl
  reconcile_flag-same c flag s (inr bare) = elim (Bool-cases flag.deleting) [
    | inl gone ↦ rw gone refl
    | inr live ↦ rw (live, bare) refl
  ]
