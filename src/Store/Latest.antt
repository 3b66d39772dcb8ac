-- ===== src/Store/Latest.antt =====
-- What is published last is what the reads find.
use false_flag_demo.Base.{
  ℕ, suc, ◌≤◌, Bool, true, false, ◌≡◌, ◌≢◌, refl, List, [], ◌∷◌, arith, ltb, order_by, insert_by,
  map, select, if◌then◌else◌,
}
use false_flag_demo.Base.Result.{Result, ok, err}
use false_flag_demo.Store.{
  Uuid, FlagVersion, Snapshot, PublishFlagVersionParams, CompileSnapshotParams, Db, Fresh,
  StoreError,
}
use false_flag_demo.Store.Lookups.{
  list_flag_versions, get_latest_flag_version, snapshots_by_project, get_latest_snapshot,
}
use false_flag_demo.Store.Selects.{descending, version_of, number_of}
use false_flag_demo.Store.Queries.{
  of_flag, of_project, max_version, versions_of, next_flag_version, flag_version_row,
  snapshot_versions, next_snapshot_version, snapshot_row,
}
use false_flag_demo.Store.Tx.{
  publish_flag_version, compile_snapshot, stored_version, stored_snapshot,
}
use false_flag_demo.Store.Written.{publish_flag_version-eq-ok, compile_snapshot-eq-ok}

module _ {A : Type 0} (key : A → ℕ) where
  -- The key of the first row, 0 without rows.
  abbrev pub top : List A → ℕ
  top [] = 0
  top (x ∷ xs) = key x

  top-insert_by :
      (x : A) (xs : List A)
      → top (insert_by (descending key) x xs) ≡ (if ltb (key x) (top xs) then top xs else key x)
  unfolding insert_by
  top-insert_by x [] = ground arith
  top-insert_by x (y ∷ ys) = ground arith

  pub top-order_by : (xs : List A) → top (order_by (descending key) xs) ≡ max_version (map key xs)
  unfolding order_by map max_version
  top-order_by [] = refl
  top-order_by (x ∷ xs) =
      ground (arith, top-insert_by x (order_by (descending key) xs), top-order_by xs)

  insert_by-top : (x : A) (xs : List A) → top xs ≤ key x → insert_by (descending key) x xs ≡ x ∷ xs
  unfolding insert_by
  insert_by-top x [] h = refl
  insert_by-top x (y ∷ ys) h = ground arith

  -- A row above all others comes first.
  pub order_by-top :
      (x : A) (xs : List A)
      → max_version (map key xs) ≤ key x
      → order_by (descending key) (x ∷ xs) ≡ x ∷ order_by (descending key) xs
  unfolding order_by
  order_by-top x xs h =
      insert_by-top x (order_by (descending key) xs) (omega (arith, top-order_by xs))

  -- A new row that a query keeps and numbers above those it kept is listed first; one that it does not
  -- keep changes nothing.
  listed :
      (keeps : A → Bool) (x : A) (xs : List A)
      → keeps x ≡ true
      → max_version (map key (select keeps xs)) ≤ key x
      → order_by (descending key) (select keeps (x ∷ xs))
        ≡ x ∷ order_by (descending key) (select keeps xs)
  unfolding select
  listed keeps x xs h bound = rw h (order_by-top x (select keeps xs) bound)

  unlisted :
      (keeps : A → Bool) (x : A) (xs : List A)
      → keeps x ≡ false
      → order_by (descending key) (select keeps (x ∷ xs))
        ≡ order_by (descending key) (select keeps xs)
  unfolding select
  unlisted keeps x xs h = rw h refl

-- The number of the version that was read, 0 if there is none.
abbrev pub number_read : Result StoreError FlagVersion → ℕ
number_read (err e) = 0
number_read (ok v) = v.version

number_read-get_latest :
    (flag : Uuid) (db : Db)
    → number_read (get_latest_flag_version flag db) ≡ max_version (versions_of flag db)
unfolding get_latest_flag_version versions_of
number_read-get_latest flag db =
    ground (arith, top-order_by version_of (select (of_flag flag) db.flag_versions))

module _ (f : Fresh) (db db' : Db) where
  -- A published version is numbered one above the latest before it, from 1 on; it holds what was
  -- published, is listed before the others of its flag, and is the latest from then on. The versions
  -- of any other flag stay.
  pub publish_flag_version-get_latest :
      (p : PublishFlagVersionParams) (v : FlagVersion) (other : Uuid)
      → other ≢ p.flag_id
      → publish_flag_version f p db ≡ ok (v, db')
      → (v
          ≡ flag_version_row f
              (suc (number_read (get_latest_flag_version p.flag_id db)))
              (stored_version p))
        × (get_latest_flag_version p.flag_id db' ≡ ok v)
        × (list_flag_versions p.flag_id db' ≡ v ∷ list_flag_versions p.flag_id db)
        × (list_flag_versions other db' ≡ list_flag_versions other db)
  unfolding list_flag_versions get_latest_flag_version next_flag_version versions_of
  publish_flag_version-get_latest p v other distinct e =
      let (row, rows, known) = publish_flag_version-eq-ok f db p v db' e in
      let made = flag_version_row f (next_flag_version p.flag_id db) (stored_version p) in
      let first =
        listed version_of (of_flag p.flag_id) made db.flag_versions (ground arith) (omega arith) in
      let kept = unlisted version_of (of_flag other) made db.flag_versions (ground arith) in
      let numbered = number_read-get_latest p.flag_id db in
      (
        rw (row, numbered) refl,
        rw (row, rows, first) refl,
        rw (row, rows, first) refl,
        rw (rows, kept) refl,
      )

  -- The same of snapshots and their projects.
  pub compile_snapshot-get_latest :
      (p : CompileSnapshotParams) (s : Snapshot) (other : Uuid)
      → other ≢ p.project_id
      → compile_snapshot f p db ≡ ok (s, db')
      → (s
          ≡ snapshot_row f
              (suc (max_version (snapshot_versions p.project_id db)))
              (stored_snapshot p))
        × (get_latest_snapshot p.project_id db' ≡ ok s)
        × (snapshots_by_project p.project_id db' ≡ s ∷ snapshots_by_project p.project_id db)
        × (snapshots_by_project other db' ≡ snapshots_by_project other db)
  unfolding snapshots_by_project get_latest_snapshot next_snapshot_version snapshot_versions
  compile_snapshot-get_latest p s other distinct e =
      let (row, rows, known) = compile_snapshot-eq-ok f db p s db' e in
      let made = snapshot_row f (next_snapshot_version p.project_id db) (stored_snapshot p) in
      let first =
        listed number_of (of_project p.project_id) made db.snapshots (ground arith) (omega arith) in
      let kept = unlisted number_of (of_project other) made db.snapshots (ground arith) in
      (rw row refl, rw (row, rows, first) refl, rw (row, rows, first) refl, rw (rows, kept) refl)
