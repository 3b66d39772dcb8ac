-- ===== src/Server/Flags/Stored.antt =====
-- What the tables hold after a publication.
use false_flag_demo.Base.{ℕ, suc, String, ◌≡◌, sym, ap, ◌∙◌, ◌∷◌, arith}
use false_flag_demo.Base.Result.{ok, ◌>>=◌}
use false_flag_demo.Config.Compile.{Codec}
use false_flag_demo.Server.{Connection, Json}
use false_flag_demo.Server.Flags.{PublishFlagVersionRequest, publish_event, publish_params}
use false_flag_demo.Server.Flags.Published.{IsPublished}
use false_flag_demo.Store.{Db, Fresh, FlagVersion}
use false_flag_demo.Store.Audited.{with_audit-IsAudited}
use false_flag_demo.Store.Latest.{publish_flag_version-get_latest}
use false_flag_demo.Store.Lookups.{
  get_project_by_slug, get_flag_by_key, get_latest_flag_version, list_flag_versions,
}
use false_flag_demo.Store.Tx.{raw_message, publish_flag_version}
use false_flag_demo.Store.Written.{publish_flag_version-eq-ok}
use false_flag_demo.Values.Services.{Services}

module _ (s : Services) (codec : Codec) (j : Json) (fuel : ℕ) (conn : Connection)
    (actor slug key : String) (req : PublishFlagVersionRequest) where
  -- What the tables hold after a publication, where its transaction began on the tables read.
  pub published_reads :
      (db db' : Db) (v : FlagVersion)
      → conn.reading ≡ ok db
      → ((i : ℕ) (seen : Db) → (conn.attempts i).begun ≡ ok seen → seen ≡ db)
      → (p : IsPublished s codec j fuel conn actor slug key req v db')
      → (get_project_by_slug slug db' ≡ ok p.proj)
        × (get_flag_by_key p.proj.id key db' ≡ ok p.flag)
        × (get_latest_flag_version p.flag.id db' ≡ ok v)
        × (v.strategy ≡ req.strategy)
        × (v.compiled ≡ raw_message p.compiled_raw)
        × (list_flag_versions p.flag.id db' ≡ v ∷ list_flag_versions p.flag.id db)
        × (v.source ≡ raw_message (publish_params p.flag.id req p.source_raw p.compiled_raw).source)
  unfolding get_project_by_slug get_flag_by_key get_latest_flag_version list_flag_versions
  published_reads db db' v reads quiet p =
      let params = publish_params p.flag.id req p.source_raw p.compiled_raw in
      let a =
        with_audit-IsAudited conn.attempts (publish_event j actor p.proj.id p.flag req)
          (λ (f : Fresh). publish_flag_version f params) (v, db') p.stored in
      let f = (conn.attempts a.attempt).fresh in
      let (row, rows, known) = publish_flag_version-eq-ok f a.before params v a.written a.ran in
      let same = quiet a.attempt a.before a.begun in
      let (content, latest, listing, kept) =
        publish_flag_version-get_latest f a.before a.written params v (suc p.flag.id) (omega arith)
          a.ran in
      (
        ap (get_project_by_slug slug) a.after
            ∙ ap (get_project_by_slug slug) rows
            ∙ ap (get_project_by_slug slug) same
            ∙ ap (λ r. r >>= get_project_by_slug slug) (sym reads)
            ∙ p.project_found,
        ap (get_flag_by_key p.proj.id key) a.after
            ∙ ap (get_flag_by_key p.proj.id key) rows
            ∙ ap (get_flag_by_key p.proj.id key) same
            ∙ ap (λ r. r >>= get_flag_by_key p.proj.id key) (sym reads)
            ∙ p.flag_found,
        ap (get_latest_flag_version p.flag.id) a.after ∙ latest,
        ap (λ x. x.strategy) row,
        ap (λ x. x.compiled) row,
        ap (list_flag_versions p.flag.id) a.after
            ∙ listing
            ∙ ap (λ vs. v ∷ vs) (ap (list_flag_versions p.flag.id) same),
        ap (λ x. x.source) row,
      )
