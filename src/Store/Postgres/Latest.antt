-- ===== src/Store/Postgres/Latest.antt =====
-- `ListLatestFlagVersions` on the two engines: `DISTINCT ON` against the first row of a window.
use false_flag_demo.Base.{
  true, false, ◌≡◌, refl, sym, ap, ◌∙◌, Option, none, some, List, [], ◌∷◌, arith, ◌==◌, first,
  order_by, Bool-cases, inl, inr,
}
use false_flag_demo.Store.{Uuid, Flag, FlagVersion, LatestFlagVersion, Db}
use false_flag_demo.Store.Lookups as Sqlite
use false_flag_demo.Store.Lookups.{latest_row, latest_rows, list_flag_versions}
use false_flag_demo.Store.Postgres.Lookups.{
  has_id, joined, with_row, row_before, list_latest_flag_versions,
}
use false_flag_demo.Store.Reachable.{IsConsistent}
use false_flag_demo.Store.Postgres.Window.{
  newer, newest_of, row_in, row_in-other, first-latest_rows,
}
use false_flag_demo.Store.Postgres.Ordered.{
  row_of, later, latest_of, first-order_by, first-distinct_on, order_by-IsSorted, IsIncreasing,
  distinct_on-IsIncreasing,
}

row_in-newer :
    (project : Uuid) (f : Flag) (v : FlagVersion) (newest : Option FlagVersion)
    → (f.project_id == project) ≡ true
    → later (latest_row f v) (row_in project (some f) newest)
      ≡ row_in project (some f) (newer v newest)
row_in-newer project f v none h = rw h refl
row_in-newer project f v (some w) h = ground (arith, h)

row_in-none : (project : Uuid) (f : Option Flag) → row_in project f none ≡ none
row_in-none project none = refl
row_in-none project (some f) = refl

joined_hit :
    (project flag : Uuid) (v : FlagVersion) (rows : List LatestFlagVersion)
    (newest : Option FlagVersion) (f : Option Flag)
    → (v.flag_id == flag) ≡ true
    → latest_of flag rows ≡ row_in project f newest
    → latest_of flag (with_row project v rows f) ≡ row_in project f (newer v newest)
unfolding latest_of
joined_hit project flag v rows newest none h e = e
joined_hit project flag v rows newest (some f) h e = elim (Bool-cases (f.project_id == project)) [
  | inl ours ↦ rw (ours, h, e) (row_in-newer project f v newest ours)
  | inr other ↦ rw other (e ∙ row_in-other project f newest _ other)
]

joined_miss :
    (project flag : Uuid) (v : FlagVersion) (rows : List LatestFlagVersion) (f : Option Flag)
    → (v.flag_id == flag) ≡ false
    → latest_of flag (with_row project v rows f) ≡ latest_of flag rows
unfolding latest_of
joined_miss project flag v rows none h = refl
joined_miss project flag v rows (some f) h = ground arith

latest_of-joined :
    (project flag : Uuid) (flags : List Flag) (vs : List FlagVersion)
    → latest_of flag (joined project flags vs)
      ≡ row_in project (first (has_id flag) flags) (newest_of flag vs)
unfolding latest_of joined newest_of
latest_of-joined project flag flags [] = sym (row_in-none project (first (has_id flag) flags))
latest_of-joined project flag flags (v ∷ vs) =
    let ih = latest_of-joined project flag flags vs in
    let rows = joined project flags vs in
    elim (Bool-cases (v.flag_id == flag)) [
      | inl hit ↦
          let same : v.flag_id ≡ flag = ground arith in
          let there =
            joined_hit project flag v rows (newest_of flag vs) (first (has_id flag) flags) hit ih in
          rw hit (
            ap (λ id. latest_of flag (with_row project v rows (first (has_id id) flags))) same
            ∙ there)
      | inr miss ↦
          rw miss (joined_miss project flag v rows (first (has_id v.flag_id) flags) miss ∙ ih)
    ]

-- In a consistent database the two engines list the same row for every flag, or none both, and
-- Postgres lists no flag twice, by ascending ids.
pub list_latest_flag_versions-agrees :
    (project : Uuid) (db : Db)
    → IsConsistent db
    → IsIncreasing (list_latest_flag_versions project db)
      × ((flag : Uuid)
          → first (row_of flag) (list_latest_flag_versions project db)
            ≡ first (row_of flag) (Sqlite.list_latest_flag_versions project db))
unfolding list_latest_flag_versions Sqlite.list_latest_flag_versions
list_latest_flag_versions-agrees project db c =
    let rows = joined project db.flags db.flag_versions in
    (
      distinct_on-IsIncreasing _ (order_by-IsSorted rows),
      λ flag.
          first-distinct_on flag (order_by row_before rows)
          ∙ first-order_by flag rows
          ∙ latest_of-joined project flag db.flags db.flag_versions
          ∙ sym (first-latest_rows project flag db db.flags c.flag_ids),
    )
