-- ===== src/Checks/Relaying.antt =====
-- Runs of internal/server/rpc.
use false_flag_demo.Base.{some, ◌≡◌, refl, first}
use false_flag_demo.Base.Result.{ok}
use false_flag_demo.Checks.{sample_services, free_user}
use false_flag_demo.Checks.Handling.{plain_codec, plain_json, published_db, on}
use false_flag_demo.Checks.Storing.{shop_db, first_version}
use false_flag_demo.Config.Segments.{resolve_one}
use false_flag_demo.Config.Validate.{
  validate_rules, validate_rule, validate_predicate, check_comparison,
}
use false_flag_demo.Server.Evaluation.{handle_evaluate_flag}
use false_flag_demo.Server.Flags.{handle_publish_flag_version}
use false_flag_demo.Server.Projects.{must_marshal}
use false_flag_demo.Server.Rpc.{strategy_json}
use false_flag_demo.Server.Rpc.Agreement.{
  message, posted, rpc_publish_flag_version-agrees, rpc_evaluate-agrees,
}
use false_flag_demo.Server.Rpc.Evaluation.{rpc_evaluate}
use false_flag_demo.Server.Rpc.Flags.{rpc_publish_flag_version}
use false_flag_demo.Server.Rpc.Relayed.{relay, body, answered}
use false_flag_demo.Store.Queries.{
  constrained, is_strategy, has_flag, has_project, versions_of, max_version,
}
use false_flag_demo.Base.{exists, select, map}
use false_flag_demo.Values.{end}

-- The version is published, not refused.
rpc_published :
    rpc_publish_flag_version sample_services plain_codec plain_json 1
      (on shop_db)
      "ada"
      "shop"
      "plan"
      (message strategy_json end "")
    ≡ ok (first_version, published_db)
unfolding rpc_publish_flag_version first resolve_one validate_rules validate_rule validate_predicate
    check_comparison constrained is_strategy exists has_flag has_project must_marshal select map
    versions_of max_version
rpc_published = refl

rpc_publish_flag_version-agrees_example :
    rpc_publish_flag_version sample_services plain_codec plain_json 1
      (on shop_db)
      "ada"
      "shop"
      "plan"
      (message strategy_json end "")
    ≡ relay body (
        handle_publish_flag_version sample_services plain_codec plain_json 1
          (some (on shop_db))
          "ada"
          "shop"
          "plan"
          (some (posted strategy_json end "")))
rpc_publish_flag_version-agrees_example =
    rpc_publish_flag_version-agrees sample_services plain_codec plain_json 1 (on shop_db) shop_db
      "ada" "shop" "plan" strategy_json end "" refl

rpc_evaluate-agrees_example :
    rpc_evaluate sample_services plain_codec (on published_db) "shop" "plan" (some free_user)
    ≡ relay answered (
        handle_evaluate_flag sample_services plain_codec
          (some (on published_db))
          "shop"
          "plan"
          (some free_user))
rpc_evaluate-agrees_example =
    rpc_evaluate-agrees sample_services plain_codec (on published_db) published_db "shop" "plan"
      free_user refl
