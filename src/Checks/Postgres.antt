-- ===== src/Checks/Postgres.antt =====
-- Tests of internal/store's Postgres backend.
use text.Mathlib.Text.{◌==◌ as str_eq}
use false_flag_demo.Base.{
  ℕ, [], ◌∷◌, Option, none, some, true, false, ◌≡◌, refl, arith, if◌then◌else◌,
}
use false_flag_demo.Base.Result.{ok, err}
use false_flag_demo.Checks.Storing.{
  first_ids, second_ids, shop, plan, plan_params, project_db, shop_db, plain_params, version_ids,
  first_version, once_db, once_db-Reach,
}
use false_flag_demo.Store.{sqlstate, is_conflict}
use false_flag_demo.Store.Postgres.Reached.{
  pg_here, pg_next, pg_project_created, pg_flag_created, pg_version_published, FitsInt4,
  PgReach-Reach,
}
use false_flag_demo.Store.Postgres.Queries as Pg
use false_flag_demo.Store.Postgres.Tx.{create_project, create_flag, publish_flag_version}
use false_flag_demo.Store.Queries.{
  is_strategy, is_value_type, has_project, has_flag, max_version, versions_of,
}
use false_flag_demo.Store.Queries as Sqlite
use false_flag_demo.Store.Reachable.{Reach, IsConsistent, empty_db, Reach-IsConsistent}
use false_flag_demo.Base.{exists, select, map, first, order_by, insert_by}
use false_flag_demo.Store.Lookups as Lookups
use false_flag_demo.Store.Lookups.{latest_row}
use false_flag_demo.Store.Postgres.Lookups.{
  list_latest_flag_versions, distinct_on, distinct_after, joined,
}
use false_flag_demo.Store.Postgres.Ordered.{row_of, IsIncreasing}
use false_flag_demo.Store.Postgres.Latest.{list_latest_flag_versions-agrees}
use false_flag_demo.Values.{RawMessage}

-- A `jsonb` column that takes every text but the empty one, as it is.
abbrev sample_jsonb : RawMessage → Option RawMessage
sample_jsonb raw = if str_eq raw "" then none else some raw

sample_jsonb-written :
    (raw kept : RawMessage) → sample_jsonb raw ≡ some kept → str_eq kept "" ≡ false
sample_jsonb-written raw kept e = ground arith

shop_created : create_project first_ids "shop" "Shop" "json" empty_db ≡ ok (shop, project_db)
unfolding create_project Pg.insert_project Pg.constrained is_strategy has_project exists
shop_created = refl

plan_created : create_flag sample_jsonb second_ids plan_params project_db ≡ ok (plan, shop_db)
unfolding create_flag Pg.insert_flag Pg.constrained is_value_type has_flag has_project exists
plan_created = refl

published :
    publish_flag_version sample_jsonb version_ids plain_params shop_db ≡ ok (first_version, once_db)
unfolding publish_flag_version Pg.next_flag_version Pg.int4 Sqlite.next_flag_version versions_of
    select map max_version Pg.insert_flag_version Pg.constrained is_strategy has_flag exists
published = refl

-- An empty compiled text is refused, which is no conflict; a slug that is taken is one.
empty_refused :
    publish_flag_version sample_jsonb version_ids (record plain_params { compiled = "" }) shop_db
    ≡ err (sqlstate "22P02")
unfolding publish_flag_version Pg.next_flag_version Pg.int4 Sqlite.next_flag_version versions_of
    select map max_version Pg.insert_flag_version Pg.constrained is_strategy has_flag exists
empty_refused = refl

slug_taken : create_project second_ids "shop" "Shop" "json" project_db ≡ err (sqlstate "23505")
unfolding create_project Pg.insert_project Pg.constrained is_strategy has_project exists
slug_taken = refl

only_taken_conflicts :
    (is_conflict (sqlstate "23505") ≡ true) × (is_conflict (sqlstate "22P02") ≡ false)
unfolding is_conflict
only_taken_conflicts = (refl, refl)

PgReach-Reach_example : Reach empty_db once_db × IsConsistent once_db × FitsInt4 once_db
PgReach-Reach_example = PgReach-Reach sample_jsonb sample_jsonb-written once_db (
    pg_next
      (pg_next
        (pg_next pg_here (pg_project_created first_ids "shop" "Shop" "json" shop shop_created))
        (pg_flag_created second_ids plan_params plan plan_created))
      (pg_version_published version_ids plain_params first_version published))

list_latest_flag_versions-agrees_example :
    IsIncreasing (list_latest_flag_versions 1 once_db)
    × ((flag : ℕ)
        → first (row_of flag) (list_latest_flag_versions 1 once_db)
          ≡ first (row_of flag) (Lookups.list_latest_flag_versions 1 once_db))
list_latest_flag_versions-agrees_example =
    list_latest_flag_versions-agrees 1 once_db (Reach-IsConsistent once_db once_db-Reach)

-- The one flag that has a version, and nothing of a project without flags.
latest_listed :
    (list_latest_flag_versions 1 once_db ≡ latest_row plan first_version ∷ [])
    × (list_latest_flag_versions 7 once_db ≡ [])
unfolding list_latest_flag_versions distinct_on distinct_after joined first order_by insert_by
latest_listed = (refl, refl)
