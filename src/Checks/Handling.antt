-- ===== src/Checks/Handling.antt =====
-- Runs of internal/server/handlers.
use mathlib.Core.Path.{subst}
use false_flag_demo.Base.{
  ℕ, false, some, ◌≡◌, refl, sym, [], ◌∷◌, arith, exists, select, order_by, insert_by, map, first,
  eq_iff,
}
use false_flag_demo.Base.Int.{pos}
use false_flag_demo.Base.Result.{ok, err, ok-injective, ◌>>=◌}
use false_flag_demo.Base.Text.{get, put, StringMap}
use false_flag_demo.Checks.{
  no_operands, sample_services, sample_codec, plain_tree, plain_flag, free_user,
}
use false_flag_demo.Checks.Storing.{
  shop, shop_db, shop_db-Reach, first_version, once_db, once_db-Reach, quiet_attempt, publish_audit,
}
use false_flag_demo.Config.Compile.{Codec}
use false_flag_demo.Config.Ir.{RulesTree, node, always, end, nil}
use false_flag_demo.Config.Publish.{resolve_and_compile}
use false_flag_demo.Config.Validate.{
  validate_rules, validate_rule, validate_predicate, check_comparison,
}
use false_flag_demo.Config.Segments.{resolve_one}
use false_flag_demo.Eval.Decision.{evaluate}
use false_flag_demo.Server.{Connection, Json, status, parse_strategy}
use false_flag_demo.Store.{FlagVersion}
use false_flag_demo.Server.Committed.Mutations.{Mutation}
use false_flag_demo.Server.Committed.{publishes, Commits-IsConsistent}
use false_flag_demo.Server.Evaluation.{or_failed, handle_evaluate_flag}
use false_flag_demo.Server.Evaluation.Served.{handle_publish_flag_version-handle_evaluate_flag}
use false_flag_demo.Server.Flags.{
  PublishFlagVersionRequest, handle_publish_flag_version, segment_resolver,
}
use false_flag_demo.Server.Projects.{must_marshal}
use false_flag_demo.Server.Segments.{UpdateSegmentRequest, handle_update_segment, predicate_bytes}
use false_flag_demo.Server.Segments.Missing.{handle_update_segment_missing}
use false_flag_demo.Server.Snapshots.{compile_bundle, bundle_from}
use false_flag_demo.Server.Snapshots.Bundled.{latest_tree, get-compile_bundle}
use false_flag_demo.Store.{Db, AuditEvent}
use false_flag_demo.Store.Lookups.{
  get_project_by_slug, get_flag_by_key, list_latest_flag_versions, latest_rows, list_flag_versions,
}
use false_flag_demo.Store.Queries.{
  constrained, is_strategy, has_flag, has_project, versions_of, max_version, audit_event_row,
  is_segment,
}
use false_flag_demo.Store.Reachable.{Reach, empty_db, IsConsistent, Reach-IsConsistent}
use false_flag_demo.Values.{string}

-- Every IR encodes to the text that decodes to the plain tree, and every value to that text.
abbrev pub plain_codec : Codec
plain_codec = record sample_codec { encode_tree = λ tree. some "plain" }

abbrev pub plain_json : Json
plain_json = record {
  marshal = λ v. some "plain";
  marshal_bundle = λ b. some "bundle";
  decode_predicate = λ raw. some (node always no_operands end nil);
}

abbrev pub on : Db → Connection
on db = record { reading = ok db; attempts = λ n. quiet_attempt db }

abbrev plain_request : PublishFlagVersionRequest
plain_request = record { strategy = "json"; source = string "source"; source_text = "" }

abbrev pub published_db : Db
published_db = record once_db {
  audit_events =
      audit_event_row (record { id = 5; now = 300 })
        (record publish_audit { actor = "ada"; payload = "plain" })
      ∷ [];
}

plain_published :
    handle_publish_flag_version sample_services plain_codec plain_json 1
      (some (on shop_db))
      "ada"
      "shop"
      "plan"
      (some plain_request)
    ≡ ok ((200, first_version), published_db)
unfolding handle_publish_flag_version first resolve_one validate_rules validate_rule
    validate_predicate check_comparison constrained is_strategy exists has_flag has_project
    must_marshal select map versions_of max_version
plain_published = refl

plain_resolved :
    resolve_and_compile plain_codec
      (segment_resolver plain_json (on shop_db) 1)
      1
      sample_services
      (parse_strategy "json")
      "plain"
    ≡ ok plain_flag
unfolding resolve_and_compile parse_strategy resolve_one validate_rules validate_rule
    validate_predicate check_comparison
plain_resolved = refl

shop_known : get_project_by_slug "shop" shop_db ≡ ok shop
unfolding get_project_by_slug first
shop_known = refl

quiet_seen : (i : ℕ) (seen : Db) → ((on shop_db).attempts i).begun ≡ ok seen → seen ≡ shop_db
quiet_seen i seen e = sym (ok-injective e)

handle_publish_flag_version-handle_evaluate_flag_example :
    handle_evaluate_flag sample_services plain_codec
      (some (on published_db))
      "shop"
      "plan"
      (some free_user)
    ≡ (or_failed (evaluate sample_services (some plain_flag) free_user (pos 1)) >>= λ d.
        ok (200, d))
unfolding parse_strategy
handle_publish_flag_version-handle_evaluate_flag_example =
    handle_publish_flag_version-handle_evaluate_flag sample_services plain_codec plain_json 1
      (on shop_db) "ada" "shop" "plan" plain_request shop_db published_db 200 first_version shop
      plain_flag plain_tree "plain" "plain" (on published_db) free_user refl quiet_seen shop_known
      refl plain_resolved refl refl (ground (arith, eq_iff "plain" "")) refl plain_published refl

abbrev plain_event : AuditEvent
plain_event =
    audit_event_row (record { id = 5; now = 300 })
      (record publish_audit { actor = "ada"; payload = "plain" })

Commits-IsConsistent_example :
    IsConsistent published_db
    × (i : ℕ) × (seen : Db) × (written : Db) × (event : AuditEvent) × (((on shop_db).attempts
          i).begun
        ≡ ok seen)
    × Mutation FlagVersion "publish_version" first_version seen written
    × (written.audit_events ≡ seen.audit_events)
    × (published_db ≡ record written { audit_events = event ∷ seen.audit_events })
    × (event.action ≡ "publish_version")
Commits-IsConsistent_example =
    Commits-IsConsistent sample_services plain_codec plain_json 1 (on shop_db) "publish_version"
      first_version published_db
      (λ i seen e. subst (λ db. Reach empty_db db) (ok-injective e) shop_db-Reach)
      (publishes "ada" "shop" "plan" plain_request 200 first_version plain_published)

abbrev plain_bundle : StringMap RulesTree
plain_bundle = ("plan", plain_tree) ∷ []

bundled : compile_bundle plain_codec (on once_db) 1 ≡ ok plain_bundle
unfolding compile_bundle list_latest_flag_versions latest_rows list_flag_versions bundle_from put
    select order_by insert_by
bundled = refl

get-compile_bundle_example :
    get "plan" plain_bundle
    ≡ latest_tree plain_codec 1 "plan" once_db (get_flag_by_key 1 "plan" once_db)
get-compile_bundle_example =
    get-compile_bundle plain_codec 1 "plan" once_db (on once_db) plain_bundle
      (Reach-IsConsistent once_db once_db-Reach) refl bundled

abbrev vip_request : UpdateSegmentRequest
vip_request = record { name = "VIP"; description = ""; predicate = string "always" }

vip_accepted : predicate_bytes sample_services plain_json vip_request.predicate ≡ ok "plain"
unfolding predicate_bytes
vip_accepted = refl

no_segments : exists (is_segment 1 "vip") shop_db.segments ≡ false
unfolding exists
no_segments = refl

handle_update_segment_missing_example :
    handle_update_segment sample_services plain_json
      (some (on shop_db))
      "ada"
      "shop"
      "vip"
      (some vip_request)
    ≡ err (status 500)
handle_update_segment_missing_example =
    handle_update_segment_missing sample_services plain_json (on shop_db) shop_db shop "ada" "shop"
      "vip" vip_request "plain" shop_db refl shop_known vip_accepted refl no_segments
