-- ===== src/Operator/Served/Stored.antt =====
-- The histories of flags in the store, as the client's publications make them.
use false_flag_demo.Base.{ℕ, String, ◌≡◌, refl, sym, ap, ◌∙◌, Option, some, List, ◌∷◌, map}
use false_flag_demo.Base.Result.{Result, ok, err, ◌>>=◌, ok-injective}
use false_flag_demo.Config.Compile.{Codec}
use false_flag_demo.Operator.Api.{Client, Histories, json_source}
use false_flag_demo.Operator.Policies.{resolve_rollouts}
use false_flag_demo.Operator.Resources.{FlagSpec, RolloutPolicy}
use false_flag_demo.Operator.Sync.{Documents}
use false_flag_demo.Operator.Sync.Versions.{
  published_bindings, AreSources, Syncs, pushed_times, Syncs-versions,
}
use false_flag_demo.Base.Text.{StringMap}
use false_flag_demo.Operator.Served.{
  at, served, writing_call, reading_call, sources_of, flag_in, stored_source, stored_or_empty,
}
use false_flag_demo.Server.{Connection, Json, Refusal, parse_strategy}
use false_flag_demo.Server.Flags.{handle_publish_flag_version}
use false_flag_demo.Server.Flags.Published.{handle_publish_flag_version-IsPublished}
use false_flag_demo.Server.Flags.Stored.{published_reads}
use false_flag_demo.Server.Rpc.{RpcError, strategy_from_proto, strategy_json, or_connect_error}
use false_flag_demo.Server.Rpc.Agreement.{posted, rpc_publish_flag_version-agrees}
use false_flag_demo.Server.Rpc.Flags.{rpc_get_flag, rpc_publish_flag_version}
use false_flag_demo.Server.Rpc.Relayed.{relay, body}
use false_flag_demo.Store.{Db, FlagVersion}
use false_flag_demo.Store.Lookups.{
  get_project_by_slug, get_flag_by_key, get_latest_flag_version, list_flag_versions,
}
use false_flag_demo.Store.Tx.{Attempt}
use false_flag_demo.Values.{Fields, RawMessage}
use false_flag_demo.Values.Services.{Services}

relay-eq-ok :
    {A B : Type 0} (f : A → B) (r : Result Refusal A) (y : B)
    → relay f r ≡ ok y
    → (x : A) × (r ≡ ok x) × (f x ≡ y)
relay-eq-ok f (ok x) y e = (x, refl, ok-injective e)
relay-eq-ok f (err u) y e = cc

writing_call-eq-ok :
    {A B : Type 0} (f : A → B) (r : Result RpcError (A × Db)) (db : Db) (y : B)
    → (writing_call f r db).0 ≡ ok y
    → (x : A) × (db' : Db) × (r ≡ ok (x, db'))
writing_call-eq-ok f (ok (x, db')) db y e = (x, db', refl)
writing_call-eq-ok f (err u) db y e = cc

pub reading_call-same : {A : Type 0} (r : Result RpcError A) (db : Db) → (reading_call r db).1 ≡ db
reading_call-same (ok x) db = refl
reading_call-same (err e) db = refl

module _ (s : Services) (codec : Codec) (j : Json) (fuel : ℕ) (attempts : Db → ℕ → Attempt)
    (actor : String)
    (quiet : (db : Db) (i : ℕ) (seen : Db) → (attempts db i).begun ≡ ok seen → seen ≡ db) where
  abbrev pub conn : Db → Connection
  conn = at s codec j fuel attempts actor

  module _ (slug key : String) (fields : Fields) (db db' : Db) (v : FlagVersion)
      (e : rpc_publish_flag_version s codec j fuel (conn db) actor slug key (json_source fields)
        ≡ ok (v, db')) where
    published :
        (code : ℕ) × (handle_publish_flag_version s codec j fuel
            (some (conn db))
            actor
            slug
            key
            (some (posted strategy_json fields ""))
          ≡ ok ((code, v), db'))
    published =
        let same =
          sym (
            rpc_publish_flag_version-agrees s codec j fuel (conn db) db actor slug key strategy_json
              fields "" refl)
          ∙ e in
        let (x, answered, kept) = relay-eq-ok body _ (v, db') same in
        (x.0.0, answered ∙ ap (λ (y : FlagVersion × Db). ok ((x.0.0, y.0), y.1)) kept)

    published-sources :
        sources_of (flag_in slug key db') db'
        ≡ stored_source j fields ∷ sources_of (flag_in slug key db) db
    unfolding map parse_strategy strategy_from_proto
    published-sources =
        let (code, answered) = published in
        let p =
          handle_publish_flag_version-IsPublished s codec j fuel (conn db) actor slug key
            (posted strategy_json fields "") code v db' answered in
        let (project, flag, latest, strategy, text, listed, source) =
          published_reads s codec j fuel (conn db) actor slug key (posted strategy_json fields "")
            db db' v refl (quiet db) p in
        let before : flag_in slug key db ≡ ok p.flag =
          ap (λ r. r >>= λ proj. get_flag_by_key proj.id key db) p.project_found ∙ p.flag_found in
        let after : flag_in slug key db' ≡ ok p.flag =
          ap (λ r. r >>= λ proj. get_flag_by_key proj.id key db') project ∙ flag in
        rw (before, after, listed, ap stored_or_empty p.marshalled)
          (ap (λ x. x ∷ map (λ (w : FlagVersion). w.source) (list_flag_versions p.flag.id db))
            source)

    published-get_flag : (reading_call (rpc_get_flag (conn db') slug key) db').0 ≡ ok tt
    unfolding rpc_get_flag or_connect_error get_project_by_slug get_flag_by_key
        get_latest_flag_version
    published-get_flag =
        let (code, answered) = published in
        let p =
          handle_publish_flag_version-IsPublished s codec j fuel (conn db) actor slug key
            (posted strategy_json fields "") code v db' answered in
        let (project, flag, latest, strategy, text, listed, source) =
          published_reads s codec j fuel (conn db) actor slug key (posted strategy_json fields "")
            db db' v refl (quiet db) p in
        rw (project, flag, latest) refl

  abbrev pub conn_client : Client
  conn_client = served s codec j fuel attempts actor

  pub publish-versions :
      (slug key : String) (fields : Fields) (db : Db) (n : Option ℕ)
      → (conn_client.publish_flag_version slug key (json_source fields) db).0 ≡ ok n
      → let db' = (conn_client.publish_flag_version slug key (json_source fields) db).1 in
        sources_of (flag_in slug key db') db'
        ≡ stored_source j fields ∷ sources_of (flag_in slug key db) db
  publish-versions slug key fields db n e =
      let (v, db', answered) = writing_call-eq-ok _ _ db n e in
      rw answered (published-sources slug key fields db db' v answered)

  pub publish-get_flag :
      (slug key : String) (fields : Fields) (db : Db) (n : Option ℕ)
      → (conn_client.publish_flag_version slug key (json_source fields) db).0 ≡ ok n
      → let db' = (conn_client.publish_flag_version slug key (json_source fields) db).1 in
        (conn_client.get_flag slug key db').0 ≡ ok tt
  publish-get_flag slug key fields db n e =
      let (v, db', answered) = writing_call-eq-ok _ _ db n e in
      rw answered (published-get_flag slug key fields db db' v answered)

  -- The server behind the client keeps histories.
  abbrev pub histories : Histories conn_client
  histories = record {
    Stored = RawMessage;
    stored = stored_source j;
    versions = λ db slug key. sources_of (flag_in slug key db) db;
    get_flag-same = λ slug key db. reading_call-same (rpc_get_flag (conn db) slug key) db;
    publish-versions = publish-versions;
    publish-get_flag = λ slug key fields db n known e. publish-get_flag slug key fields db n e;
  }

  -- The operator and the server together: each sync of an unchanged flag that reports no error
  -- publishes all over again. After k of them, of a flag that the store has, where nothing else
  -- writes during a request, the store holds the versions that it held and, k times in front of
  -- them, those of the sources of the flag's bindings (or of the flag alone if it has none), the last
  -- binding's on top. So a flag that never changes gets a new version at every pass, and what is
  -- served is the last binding's.
  pub served-Syncs-versions :
      (docs : Documents) (flag : FlagSpec) (rollouts : StringMap RolloutPolicy)
      (policies : Option (List RolloutPolicy)) (fields : List Fields) (k : ℕ) (db db' : Db)
      → resolve_rollouts flag policies ≡ ok rollouts
      → AreSources docs flag rollouts (published_bindings flag.bindings) fields
      → (conn_client.get_flag flag.project_slug flag.key db).0 ≡ ok tt
      → Syncs conn_client docs flag policies db k db'
      → sources_of (flag_in flag.project_slug flag.key db') db'
        ≡ pushed_times docs flag rollouts conn_client histories k fields
            (sources_of (flag_in flag.project_slug flag.key db) db)
  served-Syncs-versions docs flag rollouts policies fields k db db' resolved sources known run =
      Syncs-versions docs flag rollouts conn_client histories policies fields k db db' resolved
        sources known run
