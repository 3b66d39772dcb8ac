-- ===== src/Server/Flags/Published.antt =====
-- What a published flag is in the store.
use false_flag_demo.Base.{
  ℕ, String, Bool, true, false, ◌≡◌, refl, ap, ◌∙◌, Option, none, some, arith, if◌then◌else◌,
}
use false_flag_demo.Base.Result.{Result, ok, err, >>=-eq-ok, ok-injective}
use false_flag_demo.Config.Compile.{Codec, valid}
use false_flag_demo.Config.Ir.{Compiled}
use false_flag_demo.Config.Publish.{resolve_and_compile}
use false_flag_demo.Server.{
  Connection, Json, require_store, not_found_or_error, or_status, accept, read, write_store_err,
  parse_strategy,
}
use false_flag_demo.Server.Flags.{
  PublishFlagVersionRequest, handle_publish_flag_version, segment_resolver, from_text, marshal_ir,
  or_uncompiled, publish_event, publish_params,
}
use false_flag_demo.Store.{Db, Project, Flag, FlagVersion, StoreError}
use false_flag_demo.Store.Lookups.{get_project_by_slug, get_flag_by_key}
use false_flag_demo.Store.Tx.{with_audit, publish_flag_version}
use false_flag_demo.Values.{RawMessage}
use false_flag_demo.Values.Services.{Services}

pub not_found_or_error-eq-ok :
    {A : Type 0} (r : Result StoreError A) (x : A) → not_found_or_error r ≡ ok x → r ≡ ok x
unfolding not_found_or_error
not_found_or_error-eq-ok (ok y) x e = ground arith
not_found_or_error-eq-ok (err y) x e = ground arith

pub write_store_err-eq-ok :
    {A : Type 0} (r : Result StoreError A) (x : A) → write_store_err r ≡ ok x → r ≡ ok x
unfolding write_store_err
write_store_err-eq-ok (ok y) x e = ground arith
write_store_err-eq-ok (err y) x e = ground arith

pub or_status-eq-ok :
    {A : Type 0} (code : ℕ) (o : Option A) (x : A) → or_status code o ≡ ok x → o ≡ some x
or_status-eq-ok code none x e = cc
or_status-eq-ok code (some y) x e = ground arith

module _ (s : Services) (codec : Codec) (j : Json) (fuel : ℕ) (conn : Connection)
    (actor slug key : String) (req : PublishFlagVersionRequest) where
  -- The text that is resolved and compiled, if the source marshals to `source_raw`.
  abbrev pub compile_input : RawMessage → RawMessage
  compile_input source_raw =
      if from_text (parse_strategy req.strategy) req.source_text
      then req.source_text
      else source_raw

  -- The steps of a publication that is answered with 200.
  pub record IsPublished (v : FlagVersion) (db' : Db) : Type 0 where
    pub proj : Project
    pub flag : Flag
    pub source_raw : RawMessage
    pub compiled : Compiled
    pub compiled_raw : RawMessage
    pub project_found : read conn (get_project_by_slug slug) ≡ ok proj
    pub flag_found : read conn (get_flag_by_key proj.id key) ≡ ok flag
    pub is_valid : valid (parse_strategy req.strategy) ≡ true
    pub marshalled : j.marshal req.source ≡ some source_raw
    pub resolved :
        or_uncompiled (
          resolve_and_compile codec
            (segment_resolver j conn proj.id)
            fuel
            s
            (parse_strategy req.strategy)
            (compile_input source_raw))
        ≡ ok compiled
    pub encoded : marshal_ir codec compiled ≡ some compiled_raw
    pub stored :
        with_audit conn.attempts
          (publish_event j actor proj.id flag req)
          (λ f. publish_flag_version f (publish_params flag.id req source_raw compiled_raw))
        ≡ ok (v, db')

  accept-eq-ok : (b : Bool) → accept b ≡ ok tt → b ≡ true
  accept-eq-ok true e = refl
  accept-eq-ok false e = cc

  pub handle_publish_flag_version-IsPublished :
      (code : ℕ) (v : FlagVersion) (db' : Db)
      → handle_publish_flag_version s codec j fuel (some conn) actor slug key (some req)
        ≡ ok ((code, v), db')
      → IsPublished v db'
  unfolding handle_publish_flag_version require_store
  handle_publish_flag_version-IsPublished code v db' e =
      let (proj, p, e₁) =
        >>=-eq-ok (not_found_or_error (read conn (get_project_by_slug slug))) _ e in
      let (flag, q, e₂) =
        >>=-eq-ok (not_found_or_error (read conn (get_flag_by_key proj.id key))) _ e₁ in
      let (u, accepted, e₃) = >>=-eq-ok (accept (valid (parse_strategy req.strategy))) _ e₂ in
      let (source_raw, m, e₄) = >>=-eq-ok (or_status 400 (j.marshal req.source)) _ e₃ in
      let (c, built, e₅) =
        >>=-eq-ok
          (or_uncompiled (
            resolve_and_compile codec (segment_resolver j conn proj.id) fuel s
              (parse_strategy req.strategy) (compile_input source_raw)))
          _ e₄ in
      let (raw, enc, e₆) = >>=-eq-ok (or_status 500 (marshal_ir codec c)) _ e₅ in
      let (out, wrote, e₇) =
        >>=-eq-ok
          (write_store_err (
            with_audit conn.attempts (publish_event j actor proj.id flag req)
              (λ f. publish_flag_version f (publish_params flag.id req source_raw raw))))
          _ e₆ in
      let same = ok-injective e₇ in
      record {
        proj = proj;
        flag = flag;
        source_raw = source_raw;
        compiled = c;
        compiled_raw = raw;
        project_found = not_found_or_error-eq-ok _ proj p;
        flag_found = not_found_or_error-eq-ok _ flag q;
        is_valid = accept-eq-ok _ accepted;
        marshalled = or_status-eq-ok 400 _ source_raw m;
        resolved = built;
        encoded = or_status-eq-ok 500 _ raw enc;
        stored =
            write_store_err-eq-ok _ out wrote ∙ ap (λ (x : FlagVersion × Db). ok x) (ground arith);
      }
