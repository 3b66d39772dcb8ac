-- ===== src/Checks/Client.antt =====
-- Runs of internal/sdkgo.
use false_flag_demo.Base.{true, false, some, ◌≡◌, refl, [], ◌∷◌}
use false_flag_demo.Base.Int.{ℤ, pos}
use false_flag_demo.Base.Result.{ok}
use false_flag_demo.Base.Text.{get}
use false_flag_demo.Checks.{
  sample_services, sample_codec, plain_flag, plain_tree, free_user, sample_program,
}
use false_flag_demo.Checks.Compiling.{plain_compiles}
use false_flag_demo.Config.Ir.{json, boolean, number, ValueType}
use false_flag_demo.Eval.Decision.{
  Decision, default, rule_matched, evaluate, value_matches_type, served_default,
}
use false_flag_demo.Eval.Compare.{cmp_eq}
use false_flag_demo.Eval.Lookup.{lookup}
use false_flag_demo.Eval.Match.{match}
use false_flag_demo.Sdk.Agreement.{client_evaluate-agrees}
use false_flag_demo.Sdk.Client.{Snapshot, SnapshotBody, load, client_evaluate}
use false_flag_demo.Sdk.Polling.{HasUniqueKeys}
use false_flag_demo.Sdk.Provider.{
  boolean_evaluation, string_evaluation, number_evaluation, object_evaluation,
}
use false_flag_demo.Sdk.Typing.{typed_values, IsGuarded, IsNumber}
use false_flag_demo.Values.{Value, bool, int, string}

-- One flag that compiles, behind one that does not.
abbrev body : SnapshotBody
body = record {
  id = "s";
  version = pos 3;
  created_at = "";
  flags = ("broken", "nothing") ∷ ("plan", "plain") ∷ [];
}

body-HasUniqueKeys : HasUniqueKeys body.flags
unfolding get
body-HasUniqueKeys = (refl, (refl, tt))

abbrev loaded : Snapshot
loaded = load sample_services sample_codec body

abbrev off : ℤ → Decision
off version = record { value = bool false; reason = default; rule_id = ""; version = version }

plain_off : evaluate sample_services (some plain_flag) free_user (pos 7) ≡ ok (off (pos 7))
unfolding evaluate match cmp_eq lookup served_default
plain_off = refl

plan_there : get "plan" body.flags ≡ some "plain"
unfolding get
plan_there = refl

client_evaluate-agrees_example :
    client_evaluate sample_services (some loaded) "plan" free_user ≡ off (pos 3)
client_evaluate-agrees_example =
    client_evaluate-agrees sample_services sample_codec
      (λ source. some (record { is_bool = true; program = some sample_program })) json "plain"
      "plain" plain_flag plain_tree body "plan" free_user (pos 7) (off (pos 7)) refl plain_compiles
      refl refl body-HasUniqueKeys plan_there plain_off

abbrev forty_two : Decision
forty_two = record { value = int (pos 42); reason = rule_matched; rule_id = "r"; version = pos 1 }

typed_values_example :
    IsGuarded Value.bool forty_two (bool true) (boolean_evaluation forty_two true)
    × IsGuarded Value.string forty_two (string "x") (string_evaluation forty_two "x")
    × IsNumber sample_services forty_two
        (record { bits = 1 })
        (number_evaluation sample_services forty_two (record { bits = 1 }))
    × IsGuarded Value.object forty_two (bool true) (object_evaluation forty_two (bool true))
    × (value_matches_type sample_services (boolean_evaluation forty_two true).value boolean ≡ true)
    × (value_matches_type sample_services (string_evaluation forty_two "x").value ValueType.string
        ≡ true)
    × (value_matches_type sample_services
          (number_evaluation sample_services forty_two (record { bits = 1 })).value
          number
        ≡ true)
typed_values_example =
    typed_values sample_services forty_two true "x" (record { bits = 1 }) (bool true)
