-- ===== src/Checks/Reconciling.antt =====
-- Runs of the operator over the Connect handlers, and of its reconcilers.
use false_flag_demo.Operator.Conditions.{requeue_after_success}
use false_flag_demo.Base.{
  Option, ℕ, suc, zero, false, some, none, ◌≡◌, refl, [], ◌∷◌, first, exists, select, map, List,
  Bool, ◌||◌, sym, ap, arith, eq_iff, if◌then◌else◌, String, order_by,
}
use false_flag_demo.Base.Result.{ok, ok-injective}
use false_flag_demo.Checks.{sample_services, no_operands}
use false_flag_demo.Checks.Handling.{plain_codec, plain_json, published_db}
use false_flag_demo.Operator.Api.{Client}
use false_flag_demo.Server.Rpc.Flags.{rpc_publish_flag_version, rpc_get_flag}
use false_flag_demo.Checks.Storing.{publish_audit, shop_db, quiet_attempt}
use false_flag_demo.Config.Ir.{boolean, node, always, end, nil}
use false_flag_demo.Config.Segments.{resolve_one}
use false_flag_demo.Config.Validate.{
  validate_rules, validate_rule, validate_predicate, check_comparison,
}
use false_flag_demo.Operator.Policies.{resolve_rollouts}
use text.Mathlib.Text.{◌==◌}
use false_flag_demo.Operator.Reconcile.{flag_finalizer, reconcile_flag}
use false_flag_demo.Operator.Pass.{
  Resource, FlagStatus, Cluster, Finalizers, Texts, Pass, Returned, from_cluster, fetched,
}
use false_flag_demo.Operator.Reconcile.Protocol.{
  held, deleted, released, published_status, AreKept, reconcile_flag-protocol,
}
use false_flag_demo.Operator.Resources.{FlagSpec}
use false_flag_demo.Operator.Served.{served, sources_of, flag_in}
use false_flag_demo.Operator.Served.Stored.{histories, served-Syncs-versions}
use false_flag_demo.Operator.Sync.{Documents, binding_source}
use false_flag_demo.Operator.Sync.Flags.{sync_flag}
use false_flag_demo.Operator.Sync.Versions.{here, next, pushed_times}
use false_flag_demo.Server.Projects.{must_marshal}
use false_flag_demo.Store.{Db}
use false_flag_demo.Store.Queries.{
  constrained, is_strategy, has_flag, has_project, versions_of, max_version, audit_event_row,
}
use false_flag_demo.Store.Tx.{Attempt}
use false_flag_demo.Values.{Fields}

abbrev plain_docs : Documents
plain_docs = record {
  decode_predicate = λ raw. some (node always no_operands end nil);
  encode_predicate = λ p. some "plain";
  encode_tree = λ tree. some "plain";
  decode_object = λ raw. some Fields.end;
  new_struct = λ fields. some fields;
  decode_value = λ raw. none;
  decode_overrides = λ raw. none;
}

abbrev plan_spec : FlagSpec
plan_spec = record {
  project_slug = "shop";
  key = "plan";
  name = "Plan";
  value_type = boolean;
  default = some "true";
  rules = [];
  bindings = [];
}

abbrev quiet_attempts : Db → ℕ → Attempt
quiet_attempts db n = quiet_attempt db

abbrev op_client : Client
op_client = served sample_services plain_codec plain_json 1 quiet_attempts "op"

-- What the first sync leaves.
abbrev operated_db : Db
operated_db = record published_db {
  audit_events =
      audit_event_row (record { id = 5; now = 300 })
        (record publish_audit { actor = "op"; payload = "plain" })
      ∷ [];
}

op_synced : sync_flag op_client plain_docs plan_spec none shop_db ≡ ((1, none), operated_db)
unfolding sync_flag first resolve_one validate_rules validate_rule validate_predicate
    check_comparison constrained is_strategy exists has_flag has_project must_marshal select map
    versions_of max_version rpc_publish_flag_version rpc_get_flag order_by
op_synced = refl

plan_source : binding_source plain_docs plan_spec [] none ≡ ok Fields.end
unfolding binding_source
plan_source = refl

plan_known : (op_client.get_flag "shop" "plan" shop_db).0 ≡ ok tt
unfolding rpc_get_flag first order_by select
plan_known = refl

no_policies : resolve_rollouts plan_spec none ≡ ok []
unfolding resolve_rollouts
no_policies = refl

quiet_begun : (db : Db) (i : ℕ) (seen : Db) → (quiet_attempts db i).begun ≡ ok seen → seen ≡ db
quiet_begun db i seen e = sym (ok-injective e)

served-Syncs-versions_example :
    let db' = (sync_flag op_client plain_docs plan_spec none shop_db).1 in
    sources_of (flag_in "shop" "plan" db') db'
    ≡ pushed_times plain_docs plan_spec [] op_client
        (histories sample_services plain_codec plain_json 1 quiet_attempts "op" quiet_begun)
        1
        (Fields.end ∷ [])
        (sources_of (flag_in "shop" "plan" shop_db) shop_db)
served-Syncs-versions_example =
    served-Syncs-versions sample_services plain_codec plain_json 1 quiet_attempts "op" quiet_begun
      plain_docs plan_spec [] none (Fields.end ∷ []) (suc zero) shop_db
      (sync_flag op_client plain_docs plan_spec none shop_db).1 no_policies (plan_source, tt)
      plan_known (next 1 here (ap (λ r. r.0) op_synced))

has_name : String → List String → Bool
has_name name [] = false
has_name name (n ∷ names) = (n == name) || has_name name names

without_name : String → List String → List String
without_name name [] = []
without_name name (n ∷ names) =
    let rest = without_name name names in if n == name then rest else n ∷ rest

abbrev list_finalizers : Finalizers
list_finalizers = record {
  contains = has_name;
  add = λ name names. name ∷ names;
  remove = without_name;
}

has_name-without_name :
    (name : String) (names : List String) → has_name name (without_name name names) ≡ false
unfolding has_name without_name
has_name-without_name name [] = refl
has_name-without_name name (n ∷ names) = ground (arith, has_name-without_name name names)

list_finalizers-AreKept : AreKept list_finalizers
unfolding has_name
list_finalizers-AreKept = record {
  contains-add = λ name names. ground (arith, eq_iff name name);
  contains-remove = has_name-without_name;
}

abbrev quiet_cluster : Cluster
quiet_cluster = record { now = 7; update_error = none; status_error = none }

abbrev plan_resource : Resource FlagSpec FlagStatus
plan_resource = record {
  deleting = false;
  finalizers = [];
  generation = 1;
  spec = plan_spec;
  status = record {
    common = record { conditions = []; observed_generation = 0; last_sync_time = none };
    last_published_version = 0;
  };
}

no_finalizer : has_name flag_finalizer [] ≡ false
unfolding has_name
no_finalizer = refl

abbrev plain_texts : Texts
plain_texts = record {
  render = λ code text. text;
  policy = λ e. "policy";
  flag_missing = "missing";
  published = λ n. "published";
}

abbrev refusing_cluster : Cluster
refusing_cluster = record quiet_cluster { update_error = some "conflict" }

abbrev pass_over :
    Cluster → Resource FlagSpec FlagStatus → Db → Pass (Resource FlagSpec FlagStatus) × Db
pass_over c flag =
    reconcile_flag op_client plain_texts c plain_docs list_finalizers none (fetched flag)

abbrev held_plan : Resource FlagSpec FlagStatus
held_plan = held op_client plain_texts plain_docs list_finalizers none plan_resource

abbrev deleted_plan : Resource FlagSpec FlagStatus
deleted_plan = deleted op_client plain_texts plain_docs list_finalizers none plan_resource

abbrev released_plan : Resource FlagSpec FlagStatus
released_plan = released op_client plain_texts plain_docs list_finalizers none plan_resource

abbrev wrote :
    ℕ → Option Returned → Resource FlagSpec FlagStatus → Pass (Resource FlagSpec FlagStatus)
wrote requeue e r = record {
  requeue_after = requeue;
  returned = e;
  updates = some r;
  reports = none;
}

reconcile_flag-protocol_example :
    (pass_over quiet_cluster plan_resource shop_db ≡ (wrote 1 none held_plan, shop_db))
    × (pass_over quiet_cluster held_plan shop_db ≡ (
      record {
        requeue_after = requeue_after_success;
        returned = none;
        updates = none;
        reports = some (record held_plan {
          status =
              published_status op_client plain_texts plain_docs list_finalizers none quiet_cluster
                plan_resource 1;
        });
      },
      operated_db,
    ))
    × (pass_over quiet_cluster deleted_plan operated_db ≡ (wrote 0 none released_plan, operated_db))
    × (pass_over quiet_cluster released_plan operated_db ≡ (
      record { requeue_after = 0; returned = none; updates = none; reports = none },
      operated_db,
    ))
    × (pass_over refusing_cluster plan_resource shop_db
        ≡ (wrote 0 (some (from_cluster "conflict")) held_plan, shop_db))
    × (pass_over refusing_cluster deleted_plan operated_db
        ≡ (wrote 0 (some (from_cluster "conflict")) released_plan, operated_db))
reconcile_flag-protocol_example =
    reconcile_flag-protocol op_client plain_texts plain_docs list_finalizers none quiet_cluster
      refusing_cluster plan_resource shop_db operated_db operated_db 1 "conflict" (omega arith)
      list_finalizers-AreKept refl no_finalizer refl refl refl op_synced
