-- ===== src/Server/Evaluation/Served.antt =====
-- A flag that the publish handler stored, as the evaluate handler serves it.
use false_flag_demo.Base.{
  ℕ, String, ◌≡◌, ◌≢◌, refl, sym, ap, ◌∙◌, some, arith, some-injective, eq_iff,
}
use false_flag_demo.Base.Int.{pos}
use false_flag_demo.Base.Result.{Result, ok, err, ◌>>=◌, ok-injective}
use false_flag_demo.Config.Compile.{Codec}
use false_flag_demo.Config.Compile.Strategies.{compile_again}
use false_flag_demo.Config.Ir.{RulesTree, Compiled}
use false_flag_demo.Config.Publish.{PublishError, resolve_and_compile}
use false_flag_demo.Config.Publish.Inlined.{resolve_and_compile-compile}
use false_flag_demo.Eval.Decision.{evaluate}
use false_flag_demo.Server.{Connection, Json, require_store, not_found_or_error, parse_strategy}
use false_flag_demo.Server.Evaluation.{or_failed, load_evaluation, handle_evaluate_flag}
use false_flag_demo.Server.Flags.{
  PublishFlagVersionRequest, handle_publish_flag_version, segment_resolver, or_uncompiled,
  marshal_ir,
}
use false_flag_demo.Server.Flags.Stored.{published_reads}
use false_flag_demo.Server.Flags.Published.{
  compile_input, IsPublished, handle_publish_flag_version-IsPublished,
}
use false_flag_demo.Store.{Db, Project, FlagVersion}
use false_flag_demo.Store.Lookups.{get_project_by_slug}
use false_flag_demo.Store.Tx.{raw_message}
use false_flag_demo.Values.{Fields, RawMessage}
use false_flag_demo.Values.Services.{Services}

or_uncompiled-eq-ok :
    (r : Result PublishError Compiled) (c : Compiled) → or_uncompiled r ≡ ok c → r ≡ ok c
unfolding or_uncompiled
or_uncompiled-eq-ok (ok x) c e = ground arith
or_uncompiled-eq-ok (err x) c e = ground arith

module _ (s : Services) (codec : Codec) (j : Json) (fuel : ℕ) (conn : Connection)
    (actor slug key : String) (req : PublishFlagVersionRequest) where
  -- The compiled flag and its text are those that the source determines.
  published_same :
      (db db' : Db) (v : FlagVersion) (proj : Project) (c : Compiled) (tree : RulesTree)
      (source_raw raw : RawMessage)
      → conn.reading ≡ ok db
      → get_project_by_slug slug db ≡ ok proj
      → j.marshal req.source ≡ some source_raw
      → resolve_and_compile codec
          (segment_resolver j conn proj.id)
          fuel
          s
          (parse_strategy req.strategy)
          (compile_input s codec j fuel conn actor slug key req source_raw)
        ≡ ok c
      → c.ir ≡ some tree
      → codec.encode_tree tree ≡ some raw
      → (p : IsPublished s codec j fuel conn actor slug key req v db') → p.compiled_raw ≡ raw
  published_same db db' v proj c tree source_raw raw reads known marshalled compiles ir encoded p =
      let projects : p.proj ≡ proj =
        ok-injective
          (sym p.project_found ∙ ap (λ r. r >>= get_project_by_slug slug) reads ∙ known) in
      let sources : p.source_raw ≡ source_raw = some-injective (sym p.marshalled ∙ marshalled) in
      let outcome : Project → RawMessage → Result PublishError Compiled = λ x y.
        resolve_and_compile codec (segment_resolver j conn x.id) fuel s
          (parse_strategy req.strategy) (compile_input s codec j fuel conn actor slug key req y) in
      let compiled : p.compiled ≡ c = ok-injective (
        sym (or_uncompiled-eq-ok _ p.compiled p.resolved)
        ∙ ap (λ x. outcome x p.source_raw) projects
        ∙ ap (outcome proj) sources
        ∙ compiles) in
      some-injective (sym p.encoded ∙ ap (marshal_ir codec) compiled ∙ rw ir encoded)

  -- A published flag is served as it was published: if the source of a publication compiles to an IR
  -- whose text decodes to it again, and the publication is answered, from tables that nothing else
  -- writes meanwhile, then whoever reads what it committed and asks for the flag's value in a context
  -- gets what `Evaluate` decides by the compiled flag, with the version published.
  pub handle_publish_flag_version-handle_evaluate_flag :
      (db db' : Db) (code : ℕ) (v : FlagVersion) (proj : Project) (c : Compiled) (tree : RulesTree)
      (source_raw raw : RawMessage) (later : Connection) (ctx : Fields)
      → conn.reading ≡ ok db
      → ((i : ℕ) (seen : Db) → (conn.attempts i).begun ≡ ok seen → seen ≡ db)
      → get_project_by_slug slug db ≡ ok proj
      → j.marshal req.source ≡ some source_raw
      → resolve_and_compile codec
          (segment_resolver j conn proj.id)
          fuel
          s
          (parse_strategy req.strategy)
          (compile_input s codec j fuel conn actor slug key req source_raw)
        ≡ ok c
      → c.ir ≡ some tree
      → codec.encode_tree tree ≡ some raw
      → raw ≢ ""
      → codec.decode_tree raw ≡ some tree
      → handle_publish_flag_version s codec j fuel (some conn) actor slug key (some req)
        ≡ ok ((code, v), db')
      → later.reading ≡ ok db'
      → handle_evaluate_flag s codec (some later) slug key (some ctx)
        ≡ (or_failed (evaluate s (some c) ctx (pos v.version)) >>= λ d. ok (200, d))
  unfolding handle_evaluate_flag require_store load_evaluation not_found_or_error
  handle_publish_flag_version-handle_evaluate_flag db db' code v proj c tree source_raw raw later
        ctx reads quiet known marshalled compiles ir encoded nonempty decoded e later_reads =
      let p =
        handle_publish_flag_version-IsPublished s codec j fuel conn actor slug key req code v db'
          e in
      let (project, flag, latest, strategy, text, listed, source) =
        published_reads s codec j fuel conn actor slug key req db db' v reads quiet p in
      let same =
        published_same db db' v proj c tree source_raw raw reads known marshalled compiles ir
          encoded p in
      let stored : v.compiled ≡ raw = text ∙ ap raw_message same ∙ ground (arith, eq_iff raw "") in
      let (resolved, compiled) =
        resolve_and_compile-compile s codec (segment_resolver j conn proj.id) fuel
          (parse_strategy req.strategy)
          (compile_input s codec j fuel conn actor slug key req source_raw) c compiles in
      let again =
        compile_again s codec (parse_strategy req.strategy) resolved raw c tree compiled ir nonempty
          decoded in
      rw later_reads (rw project (rw flag (rw latest (rw strategy (rw stored (rw again refl))))))
