-- ===== src/Store/Numbering.antt =====
-- The version numbers that the statements of a transaction pick.
use false_flag_demo.Base.{
  ℕ, zero, suc, ◌≤◌, ◌≡◌, refl, ◌∙◌, ap, List, [], ◌∷◌, arith, length, select, map,
}
use false_flag_demo.Base.Result.{ok}
use false_flag_demo.Store.{
  Uuid, FlagVersion, Snapshot, PublishFlagVersionParams, CompileSnapshotParams, Db, Fresh,
}
use false_flag_demo.Store.Queries.{
  max_version, versions_of, next_flag_version, snapshot_versions, next_snapshot_version,
}
use false_flag_demo.Store.Tx.{publish_flag_version, compile_snapshot}
use false_flag_demo.Store.Written.{publish_flag_version-eq-ok, compile_snapshot-eq-ok}

-- n, n - 1, …, 1.
abbrev pub countdown : ℕ → List ℕ
countdown zero = []
countdown (suc n) = suc n ∷ countdown n

-- The versions are numbered from 1 on without a gap, the newest first.
abbrev pub IsNumbered : List ℕ → Type 0
IsNumbered versions = versions ≡ countdown (length versions)

pub max_version-countdown : (n : ℕ) → max_version (countdown n) ≡ n
unfolding max_version
max_version-countdown zero = refl
max_version-countdown (suc n) = ground (arith, max_version-countdown n)

pub max_version_bounds : (ns : List ℕ) (n : ℕ) → n ≤ max_version (n ∷ ns)
unfolding max_version
max_version_bounds ns n = ground arith

pub next-IsNumbered :
    (versions : List ℕ) → IsNumbered versions → IsNumbered (suc (max_version versions) ∷ versions)
next-IsNumbered versions h =
    let e : max_version versions ≡ length versions =
      ap max_version h ∙ max_version-countdown (length versions) in
    rw e (ap (λ (l : List ℕ). suc (length versions) ∷ l) h)

module _ (f : Fresh) (db : Db) where
  -- Publishing keeps the versions of every flag numbered.
  pub publish_flag_version-IsNumbered :
      (p : PublishFlagVersionParams) (v : FlagVersion) (db' : Db)
      → publish_flag_version f p db ≡ ok (v, db')
      → ((flag : Uuid) → IsNumbered (versions_of flag db))
      → (flag : Uuid) → IsNumbered (versions_of flag db')
  unfolding versions_of select map next_flag_version
  publish_flag_version-IsNumbered p v db' e h flag =
      let (row, rows, known) = publish_flag_version-eq-ok f db p v db' e in
      rw rows (ground (arith, h flag, next-IsNumbered (versions_of flag db) (h flag)))

  pub compile_snapshot-IsNumbered :
      (p : CompileSnapshotParams) (s : Snapshot) (db' : Db)
      → compile_snapshot f p db ≡ ok (s, db')
      → ((project : Uuid) → IsNumbered (snapshot_versions project db))
      → (project : Uuid) → IsNumbered (snapshot_versions project db')
  unfolding snapshot_versions select map next_snapshot_version
  compile_snapshot-IsNumbered p s db' e h project =
      let (row, rows, known) = compile_snapshot-eq-ok f db p s db' e in
      rw rows
        (ground (arith, h project, next-IsNumbered (snapshot_versions project db) (h project)))
