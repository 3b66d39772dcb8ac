-- ===== src/Server/Snapshots/Bundled.antt =====
-- What the bundle of a snapshot holds.
use false_flag_demo.Base.{
  String, true, false, ◌≡◌, refl, ◌∙◌, Option, none, some, List, [], ◌∷◌, arith, eq_iff, exists,
  first, ◌==◌, List-cases, inl, inr, Bool-cases, Option-cases,
}
use false_flag_demo.Base.Result.{Result, ok, err}
use false_flag_demo.Base.Text.{StringMap, get, put, get-put}
use false_flag_demo.Config.Compile.{Codec}
use false_flag_demo.Config.Ir.{RulesTree}
use false_flag_demo.Server.{Connection}
use false_flag_demo.Server.Flags.Published.{or_status-eq-ok}
use false_flag_demo.Server.Snapshots.{bundle_from, compile_bundle}
use false_flag_demo.Store.{Uuid, Db, Flag, FlagVersion, StoreError}
use false_flag_demo.Store.Lookups.{
  latest_rows, list_latest_flag_versions, get_flag_by_key, get_latest_flag_version,
  list_flag_versions,
}
use false_flag_demo.Store.Selects.{is_flag}
use false_flag_demo.Store.Reachable.{IsConsistent, IsDistinct, same_flag}

module _ (codec : Codec) (project : Uuid) (key : String) (db : Db) where
  -- The entry of the first row with the key, if there is one.
  abbrev tree_of : List FlagVersion → Option RulesTree → Option RulesTree
  tree_of [] before = before
  tree_of (v ∷ rest) before = codec.decode_tree v.compiled

  abbrev entry : Option Flag → Option RulesTree → Option RulesTree
  entry none before = before
  entry (some f) before = tree_of (list_flag_versions f.id db) before

  first_other :
      (f : Flag) (flags : List Flag)
      → exists (same_flag f) flags ≡ false
      → is_flag project key f ≡ true
      → first (is_flag project key) flags ≡ none
  unfolding exists first
  first_other f [] h here = refl
  first_other f (g ∷ flags) h here =
      ground (arith, first_other f flags, eq_iff f.key key, eq_iff g.key f.key, eq_iff g.key key)

  get-bundle_from :
      (flags : List Flag) (start out : StringMap RulesTree)
      → IsDistinct same_flag flags
      → bundle_from codec start (latest_rows project db flags) ≡ some out
      → get key out ≡ entry (first (is_flag project key) flags) (get key start)
  unfolding latest_rows bundle_from first
  get-bundle_from [] start out d e = ground arith
  get-bundle_from (f ∷ flags) start out (d, ds) e =
      let miss = first_other f flags d in
      elim (Bool-cases (f.project_id == project)) [
        | inl ours ↦ elim (List-cases (list_flag_versions f.id db)) [
          | inl unpublished ↦
              ground (arith, miss, eq_iff f.key key, get-bundle_from flags start out ds)
          | inr (v, vs, listed) ↦ elim (Option-cases (codec.decode_tree v.compiled)) [
            | inl bad ↦ absurd (ground arith)
            | inr (tree, decoded) ↦ ground (
              arith,
              miss,
              eq_iff f.key key,
              get-put f.key key tree start,
              get-bundle_from flags (put f.key tree start) out ds,
            )
          ]
        ]
        | inr foreign ↦ ground (arith, get-bundle_from flags start out ds)
      ]

  -- The IR of the latest version, read flag by flag.
  abbrev tree_of_version : Result StoreError FlagVersion → Option RulesTree
  tree_of_version (err e) = none
  tree_of_version (ok v) = codec.decode_tree v.compiled

  abbrev pub latest_tree : Result StoreError Flag → Option RulesTree
  latest_tree (err e) = none
  latest_tree (ok f) = tree_of_version (get_latest_flag_version f.id db)

  -- The bundle of a project has, under every key, the IR of the latest version of the project's flag
  -- with that key, and nothing where there is no such flag or it has no version, if the tables are
  -- consistent.
  pub get-compile_bundle :
      (conn : Connection) (bundle : StringMap RulesTree)
      → IsConsistent db
      → conn.reading ≡ ok db
      → compile_bundle codec conn project ≡ ok bundle
      → get key bundle ≡ latest_tree (get_flag_by_key project key db)
  unfolding compile_bundle list_latest_flag_versions get_flag_by_key get_latest_flag_version get
  get-compile_bundle conn bundle c reads e =
      let made =
        or_status-eq-ok 500 (bundle_from codec [] (latest_rows project db db.flags)) bundle
          (rw (reads, compile_bundle) at e) in
      get-bundle_from db.flags [] bundle c.flag_keys made ∙ ground arith
