-- ===== src/Checks/Storing.antt =====
-- Runs of internal/store.
use false_flag_demo.Base.{
  ℕ, zero, suc, ◌<◌, some, ◌≡◌, refl, [], ◌∷◌, inr, arith, exists, select, map,
}
use false_flag_demo.Base.Result.{Result, ok, err}
use false_flag_demo.Store.{
  Db, Fresh, Flag, FlagVersion, Project, AppendAuditParams, CreateFlagParams,
  PublishFlagVersionParams, StoreError, coded,
}
use false_flag_demo.Store.Audited.{IsAudited, with_audit-IsAudited}
use false_flag_demo.Store.Latest.{number_read, publish_flag_version-get_latest}
use false_flag_demo.Store.Lookups.{list_flag_versions, get_latest_flag_version}
use false_flag_demo.Store.Queries.{
  constrained, project_row, flag_row, flag_version_row, insert_project, insert_flag,
  insert_flag_version, has_project, has_flag, is_strategy, is_value_type, next_flag_version,
  versions_of, max_version, audit_event_row, insert_audit_event,
}
use false_flag_demo.Store.Reachable.{
  Reach, here, next, project_created, flag_created, version_published, empty_db, IsConsistent,
  Reach-IsConsistent,
}
use false_flag_demo.Store.Retries.{IsBusy, with_immediate_tx-reaches}
use false_flag_demo.Store.Tx.{
  Attempt, create_project, create_flag, publish_flag_version, stored_version, run_once_tx,
  is_sqlite_retry, with_immediate_tx, retry_from, with_audit, audited, append_audit,
}

abbrev pub first_ids : Fresh
first_ids = record { id = 1; now = 100 }

abbrev pub second_ids : Fresh
second_ids = record { id = 2; now = 200 }

abbrev pub shop : Project
shop = project_row first_ids "shop" "Shop" "json"

abbrev pub plan_params : CreateFlagParams
plan_params = record {
  project_id = 1;
  key = "plan";
  name = "Plan";
  description = "";
  value_type = "boolean";
  default_value = "false";
}

abbrev pub plan : Flag
plan = flag_row second_ids plan_params

abbrev pub project_db : Db
project_db = record empty_db { projects = shop ∷ [] }

-- A project with a flag that has no version yet.
abbrev pub shop_db : Db
shop_db = record project_db { flags = plan ∷ [] }

shop_created : create_project first_ids "shop" "Shop" "json" empty_db ≡ ok (shop, project_db)
unfolding create_project insert_project constrained is_strategy has_project exists
shop_created = refl

plan_created : create_flag second_ids plan_params project_db ≡ ok (plan, shop_db)
unfolding create_flag insert_flag constrained is_value_type has_flag has_project exists
plan_created = refl

pub shop_db-Reach : Reach empty_db shop_db
shop_db-Reach =
    next (next here (project_created first_ids "shop" "Shop" "json" shop shop_created))
      (flag_created second_ids plan_params plan plan_created)

abbrev pub plain_params : PublishFlagVersionParams
plain_params = record {
  flag_id = 2;
  strategy = "json";
  source = "plain";
  compiled = "plain";
  source_text = "";
}

abbrev pub version_ids : Fresh
version_ids = record { id = 3; now = 300 }

abbrev pub first_version : FlagVersion
first_version = flag_version_row version_ids 1 plain_params

abbrev pub second_version : FlagVersion
second_version = flag_version_row (record { id = 4; now = 400 }) 2 plain_params

abbrev pub once_db : Db
once_db = record shop_db { flag_versions = first_version ∷ [] }

abbrev twice_db : Db
twice_db = record shop_db { flag_versions = second_version ∷ first_version ∷ [] }

published_once : publish_flag_version version_ids plain_params shop_db ≡ ok (first_version, once_db)
unfolding publish_flag_version next_flag_version versions_of select map max_version
    insert_flag_version constrained is_strategy has_flag exists
published_once = refl

published_twice :
    publish_flag_version (record { id = 4; now = 400 }) plain_params once_db
    ≡ ok (second_version, twice_db)
unfolding publish_flag_version next_flag_version versions_of select map max_version
    insert_flag_version constrained is_strategy has_flag exists
published_twice = refl

pub once_db-Reach : Reach empty_db once_db
once_db-Reach =
    next shop_db-Reach (version_published version_ids plain_params first_version published_once)

Reach-IsConsistent_example : IsConsistent once_db
Reach-IsConsistent_example = Reach-IsConsistent once_db once_db-Reach

publish_flag_version-get_latest_example :
    (second_version
      ≡ flag_version_row
          (record { id = 4; now = 400 })
          (suc (number_read (get_latest_flag_version 2 once_db)))
          (stored_version plain_params))
    × (get_latest_flag_version 2 twice_db ≡ ok second_version)
    × (list_flag_versions 2 twice_db ≡ second_version ∷ list_flag_versions 2 once_db)
    × (list_flag_versions 7 twice_db ≡ list_flag_versions 7 once_db)
publish_flag_version-get_latest_example =
    publish_flag_version-get_latest (record { id = 4; now = 400 }) once_db twice_db plain_params
      second_version 7 (omega arith) published_twice

-- An attempt that finds the tables and can commit, and one that finds the database busy.
abbrev pub quiet_attempt : Db → Attempt
quiet_attempt db = record {
  begun = ok db;
  fresh = version_ids;
  audit_fresh = record { id = 5; now = 300 };
  committed = ok tt;
  waited = ok tt;
}

abbrev busy_attempt : Attempt
busy_attempt = record (quiet_attempt shop_db) { begun = err (coded 5) }

abbrev busy_twice : ℕ → Attempt
busy_twice zero = busy_attempt
busy_twice (suc zero) = busy_attempt
busy_twice (suc (suc n)) = quiet_attempt shop_db

abbrev publish_plain : Attempt → Db → Result StoreError (FlagVersion × Db)
publish_plain a = publish_flag_version a.fresh plain_params

busy_attempt-IsBusy : IsBusy is_sqlite_retry publish_plain busy_attempt
unfolding run_once_tx is_sqlite_retry
busy_attempt-IsBusy = ((coded 5, refl, refl), refl)

busy_twice-IsBusy : (i : ℕ) → i < 2 → IsBusy is_sqlite_retry publish_plain (busy_twice i)
busy_twice-IsBusy zero h = busy_attempt-IsBusy
busy_twice-IsBusy (suc zero) h = busy_attempt-IsBusy
busy_twice-IsBusy (suc (suc i)) h = absurd (omega arith)

quiet-commits : run_once_tx (quiet_attempt shop_db) publish_plain ≡ ok (first_version, once_db)
unfolding run_once_tx
quiet-commits = rw published_once refl

with_immediate_tx-reaches_example :
    with_immediate_tx busy_twice publish_plain ≡ run_once_tx (quiet_attempt shop_db) publish_plain
with_immediate_tx-reaches_example =
    with_immediate_tx-reaches busy_twice publish_plain 2 (omega arith) busy_twice-IsBusy
      (inr (λ e failed. ground (arith, quiet-commits)))

abbrev pub publish_audit : AppendAuditParams
publish_audit = record {
  project_id = some 1;
  flag_id = some 2;
  action = "publish_version";
  actor = "";
  payload = "";
}

abbrev pub audited_db : Db
audited_db = record once_db {
  audit_events =
      audit_event_row (record { id = 5; now = 300 }) (record publish_audit { payload = "{}" }) ∷ [];
}

published_audited :
    with_audit (λ n. quiet_attempt shop_db) publish_audit (λ f. publish_flag_version f plain_params)
    ≡ ok (first_version, audited_db)
unfolding with_audit with_immediate_tx retry_from run_once_tx audited append_audit
    insert_audit_event constrained publish_flag_version next_flag_version versions_of select map
    max_version insert_flag_version is_strategy has_flag has_project exists
published_audited = refl

with_audit-IsAudited_example :
    IsAudited
      (λ n. quiet_attempt shop_db)
      publish_audit
      (λ f. publish_flag_version f plain_params)
      (first_version, audited_db)
with_audit-IsAudited_example =
    with_audit-IsAudited (λ n. quiet_attempt shop_db) publish_audit
      (λ f. publish_flag_version f plain_params) (first_version, audited_db) published_audited
