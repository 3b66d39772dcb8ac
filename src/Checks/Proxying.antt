-- ===== src/Checks/Proxying.antt =====
-- Runs of internal/proxy.
use false_flag_demo.Base.{◌≡◌, refl, some, [], ◌∷◌, arith, eq_iff, true, none}
use false_flag_demo.Base.Int.{pos}
use false_flag_demo.Base.Result.{ok}
use false_flag_demo.Base.Text.{get}
use false_flag_demo.Checks.{
  sample_services, sample_codec, plain_flag, plain_tree, pro_user, sample_program,
}
use false_flag_demo.Checks.Compiling.{plain_compiles}
use false_flag_demo.Config.Ir.{json}
use false_flag_demo.Eval.Compare.{cmp_eq}
use false_flag_demo.Eval.Decision.{Decision, rule_matched, evaluate, serve}
use false_flag_demo.Eval.Lookup.{lookup}
use false_flag_demo.Eval.Match.{match}
use false_flag_demo.Proxy.{Proxy, EvaluateRequest, replied, handle_evaluate}
use false_flag_demo.Proxy.Serving.{handle_evaluate-agrees}
use false_flag_demo.Sdk.Client.{SnapshotBody, load}
use false_flag_demo.Sdk.Polling.{HasUniqueKeys}
use false_flag_demo.Values.{bool}

abbrev body : SnapshotBody
body = record { id = "s"; version = pos 3; created_at = ""; flags = ("plan", "plain") ∷ [] }

abbrev loaded : Proxy
loaded = record {
  project_slug = "shop";
  evaluator = some (some (load sample_services sample_codec body));
}

abbrev starting : Proxy
starting = record { project_slug = "shop"; evaluator = some none }

abbrev request : EvaluateRequest
request = record { key = "plan"; default_value = bool true; context = pro_user }

abbrev on : Decision
on = record { value = bool true; reason = rule_matched; rule_id = "plan"; version = pos 7 }

plain_on : evaluate sample_services (some plain_flag) pro_user (pos 7) ≡ ok on
unfolding evaluate match cmp_eq lookup serve
plain_on = refl

body-HasUniqueKeys : HasUniqueKeys body.flags
unfolding get
body-HasUniqueKeys = (refl, tt)

plan_there : get "plan" body.flags ≡ some "plain"
unfolding get
plan_there = refl

handle_evaluate-agrees_example :
    handle_evaluate sample_services loaded (some request)
    ≡ replied 200 (record on { version = pos 3 })
handle_evaluate-agrees_example =
    handle_evaluate-agrees sample_services sample_codec
      (λ source. some (record { is_bool = true; program = some sample_program })) json "plain"
      "plain" plain_flag plain_tree body loaded request (pos 7) on refl
      (ground (arith, eq_iff "plan" "")) refl plain_compiles refl refl body-HasUniqueKeys plan_there
      plain_on (λ e. cc)
