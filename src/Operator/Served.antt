-- ===== src/Operator/Served.antt =====
-- The operator's client over the Connect handlers of internal/server/rpc: what the reconcilers and the
-- server do together. A request is served at the tables that the one before it left.
pub mod Stored
use false_flag_demo.Base.{
  ℕ, String, ◌≡◌, refl, sym, ap, ◌∙◌, Option, none, some, List, [], ◌∷◌, map, arith, inl, inr,
}
use false_flag_demo.Base.Result.{Result, ok, err, ◌>>=◌, Result-cases}
use false_flag_demo.Config.Compile.{Codec}
use false_flag_demo.Operator.Api.{Client, Histories, json_source}
use false_flag_demo.Operator.Conditions.{
  already_exists, invalid_argument, not_found, other_code, Upstream, connect_error, plain_error,
}
use false_flag_demo.Server.{Connection, Json}
use false_flag_demo.Server.Rpc.{
  RpcError, connect_code, unbounded, code_not_found, code_already_exists, code_internal,
  code_invalid_argument, Answer, Committed,
}
use false_flag_demo.Server.Rpc.Flags.{rpc_get_flag, rpc_create_flag, rpc_publish_flag_version}
use false_flag_demo.Server.Rpc.Projects.{
  rpc_get_project, rpc_create_project, rpc_get_environment, rpc_create_environment,
}
use false_flag_demo.Server.Rpc.Segments.{rpc_get_segment, rpc_create_segment, rpc_update_segment}
use false_flag_demo.Store.{Db, Flag, FlagVersion, StoreError}
use false_flag_demo.Store.Lookups.{get_project_by_slug, get_flag_by_key, list_flag_versions}
use false_flag_demo.Store.Tx.{Attempt, raw_message}
use false_flag_demo.Values.{Fields, object, RawMessage}
use false_flag_demo.Values.Services.{Services}

-- An error of a handler as connect hands it to the client; 13 is the code `internal`.
abbrev pub seen_error : RpcError → Upstream
seen_error (connect_code code_not_found) = connect_error not_found ""
seen_error (connect_code code_already_exists) = connect_error already_exists ""
seen_error (connect_code code_invalid_argument) = connect_error invalid_argument ""
seen_error (connect_code code_internal) = connect_error (other_code 13) ""
seen_error unbounded = plain_error ""

-- A request that reads, and one that writes.
abbrev pub reading_call : {A : Type 0} → Answer A → Db → Result Upstream (Unit {0}) × Db
reading_call (ok x) db = (ok tt, db)
reading_call (err e) db = (err (seen_error e), db)

abbrev pub writing_call : {A B : Type 0} → (A → B) → Committed A → Db → Result Upstream B × Db
writing_call seen (ok (x, written)) db = (ok (seen x), written)
writing_call seen (err e) db = (err (seen_error e), db)

abbrev pub done : {A : Type 0} → A → Unit {0}
done x = tt

-- The attempts at a transaction begin on the tables that the request meets.
module _ (s : Services) (codec : Codec) (j : Json) (fuel : ℕ) (attempts : Db → ℕ → Attempt)
    (actor : String) where
  abbrev pub at : Db → Connection
  at db = record { reading = ok db; attempts = attempts db }

  abbrev pub served : Client
  served = record {
    State = Db;
    get_project = λ slug db. reading_call (rpc_get_project (at db) slug) db;
    create_project = λ msg db. writing_call done (rpc_create_project j (at db) actor msg) db;
    get_environment = λ slug env db. reading_call (rpc_get_environment (at db) slug env) db;
    create_environment =
        λ slug msg db. writing_call done (rpc_create_environment j (at db) actor slug msg) db;
    get_segment = λ slug key db. reading_call (rpc_get_segment (at db) slug key) db;
    create_segment =
        λ slug key msg db. writing_call done (rpc_create_segment s j (at db) actor slug key msg) db;
    update_segment =
        λ slug key msg db. writing_call done (rpc_update_segment s j (at db) actor slug key msg) db;
    get_flag = λ slug key db. reading_call (rpc_get_flag (at db) slug key) db;
    create_flag = λ slug msg db. writing_call done (rpc_create_flag j (at db) actor slug msg) db;
    publish_flag_version = λ slug key msg db.
        writing_call (λ v. some v.version)
          (rpc_publish_flag_version s codec j fuel (at db) actor slug key msg) db;
  }

-- The sources of the versions of a flag, the latest first.
abbrev pub sources_of : Result StoreError Flag → Db → List RawMessage
sources_of (err e) db = []
sources_of (ok flag) db = map (λ v. v.source) (list_flag_versions flag.id db)

abbrev pub flag_in : String → String → Db → Result StoreError Flag
flag_in slug key db = get_project_by_slug slug db >>= λ proj. get_flag_by_key proj.id key db

abbrev pub stored_or_empty : Option RawMessage → RawMessage
stored_or_empty none = ""
stored_or_empty (some raw) = raw_message raw

abbrev pub stored_source : Json → Fields → RawMessage
stored_source j fields = stored_or_empty (j.marshal (object fields))
