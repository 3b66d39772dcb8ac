-- ===== src/Checks/Evaluating.antt =====
-- Runs of internal/eval.
use mathlib.Core.List.{map}
use false_flag_demo.Base.{true, false, some, ◌≡◌, ◌≢◌, refl, [], ◌∷◌, arith, ◌↔◌, All}
use false_flag_demo.Base.Int.{pos}
use false_flag_demo.Base.Result.{ok}
use false_flag_demo.Base.Text.{get}
use false_flag_demo.Checks.{
  sample_services, sample_codec, plain_flag, beta_flag, plain_tree, beta_tree, free_user, on_plan,
  on_beta, on_half,
}
use false_flag_demo.Checks.Compiling.{beta_compiles}
use false_flag_demo.Config.Ir.{Compiled, cel}
use false_flag_demo.Eval.Decision.{
  Decision, default, rule_matched, error, decode_value, evaluate, served_default, serve,
  served_error,
}
use false_flag_demo.Eval.Decision.Served.{IsQuiet, evaluate-default_iff, evaluate_first}
use false_flag_demo.Eval.Decision.Faultless.{compile-ne-error}
use false_flag_demo.Eval.Compare.{cmp_eq}
use false_flag_demo.Eval.Lookup.{lookup, lookup_string}
use false_flag_demo.Eval.Match.{match, match_cel, match_rollout}
use false_flag_demo.Eval.Match.Programs.{compile-finds_programs}
use false_flag_demo.Eval.Match.Safety.{AreTotal, IsDecodable}
use false_flag_demo.Eval.Outcome.{cel_program_missing}
use false_flag_demo.Eval.Rollout.{write, rollout_bucket, in_bucket}
use false_flag_demo.Eval.Rollout.Gate.{in_bucket_mono}
use false_flag_demo.Eval.Trace.{
  trace_match, trace_rule, winner, decide_by, record_trace, evaluate_with_trace,
}
use false_flag_demo.Eval.TraceNode.{Trace}
use false_flag_demo.Eval.Trace.Agreement.{
  IsClean, evaluate_with_trace-eq, evaluate_with_trace-agrees, evaluate_with_trace-disagrees,
}
use false_flag_demo.Values.{bool}

false_decodes : decode_value sample_services "false" ≡ some (bool false)
unfolding decode_value
false_decodes = refl

abbrev off : Decision
off = record { value = bool false; reason = default; rule_id = ""; version = pos 7 }

plain_off : evaluate sample_services (some plain_flag) free_user (pos 7) ≡ ok off
unfolding evaluate match cmp_eq lookup served_default
plain_off = refl

evaluate-default_iff_example :
    (off.reason ≡ default)
    ↔ All (IsQuiet sample_services free_user plain_flag.cel_programs) plain_tree.rules
evaluate-default_iff_example =
    evaluate-default_iff sample_services free_user (pos 7) plain_flag plain_tree (bool false) refl
      false_decodes off plain_off

plan-IsQuiet : IsQuiet sample_services free_user beta_flag.cel_programs on_plan
unfolding match cmp_eq lookup match_cel get
plan-IsQuiet = refl

beta_loud : ¬ IsQuiet sample_services free_user beta_flag.cel_programs on_beta
unfolding match cmp_eq lookup match_cel get
beta_loud e = ground arith

evaluate_first_example :
    evaluate sample_services (some beta_flag) free_user (pos 7)
    ≡ evaluate sample_services
        (some (record beta_flag { ir = some (record beta_tree { rules = on_beta ∷ [] }) }))
        free_user
        (pos 7)
evaluate_first_example =
    evaluate_first sample_services free_user (pos 7) beta_flag beta_tree (bool false) refl
      false_decodes (on_plan ∷ []) (on_half ∷ []) on_beta refl (plan-IsQuiet, tt) beta_loud

abbrev on : Decision
on = record { value = bool true; reason = rule_matched; rule_id = "beta"; version = pos 7 }

beta_on : evaluate sample_services (some beta_flag) free_user (pos 7) ≡ ok on
unfolding evaluate match cmp_eq lookup match_cel get serve
beta_on = refl

beta-AreTotal : AreTotal beta_flag.cel_programs free_user
unfolding get
beta-AreTotal k prog e = ground arith

beta-IsDecodable : All (λ r. IsDecodable sample_services r.when) beta_tree.rules
beta-IsDecodable = (λ e. cc, ((tt, tt), (tt, tt)))

compile-ne-error_example : on.reason ≢ error
compile-ne-error_example =
    compile-ne-error sample_services sample_codec cel "beta" beta_flag beta_tree free_user (pos 7)
      on beta_compiles refl beta-IsDecodable beta-AreTotal beta_on

compile-finds_programs_example :
    All
      (λ r.
        (match sample_services free_user beta_flag.cel_programs r.when).1
        ≢ some (cel_program_missing "ctx.beta"))
      beta_tree.rules
compile-finds_programs_example =
    compile-finds_programs sample_services sample_codec cel "beta" beta_flag beta_tree free_user
      "ctx.beta" beta_compiles refl

abbrev traced : Compiled → Decision × Trace
traced c =
    let chosen = winner sample_services free_user c.cel_programs beta_tree.rules in
    (
      decide_by sample_services (pos 7) beta_tree (bool false) chosen,
      record_trace (map (trace_rule sample_services free_user c.cel_programs) beta_tree.rules)
          chosen,
    )

beta_traced :
    evaluate_with_trace sample_services (some beta_flag) free_user (pos 7) ≡ ok (traced beta_flag)
beta_traced =
    evaluate_with_trace-eq sample_services free_user (pos 7) beta_flag beta_tree (bool false) refl
      false_decodes

beta_traced-IsClean : IsClean (traced beta_flag).1.evaluated_rules
unfolding trace_match cmp_eq lookup match_cel get match winner match_rollout lookup_string
beta_traced-IsClean = (refl, (refl, (refl, tt)))

evaluate_with_trace-agrees_example :
    evaluate sample_services (some beta_flag) free_user (pos 7) ≡ ok (traced beta_flag).0
evaluate_with_trace-agrees_example =
    evaluate_with_trace-agrees sample_services beta_flag free_user (pos 7) (traced beta_flag).0
      (traced beta_flag).1 beta_traced beta_traced-IsClean

-- The programs are missing, as in a value that no compiler made.
abbrev unlinked_flag : Compiled
unlinked_flag = record beta_flag { cel_programs = [] }

abbrev failed : Decision
failed = record { value = bool false; reason = error; rule_id = "beta"; version = pos 7 }

unlinked_fails : evaluate sample_services (some unlinked_flag) free_user (pos 7) ≡ ok failed
unfolding evaluate match cmp_eq lookup match_cel get served_error
unlinked_fails = refl

unlinked_traced :
    evaluate_with_trace sample_services (some unlinked_flag) free_user (pos 7)
    ≡ ok (traced unlinked_flag)
unlinked_traced =
    evaluate_with_trace-eq sample_services free_user (pos 7) unlinked_flag beta_tree (bool false)
      refl false_decodes

evaluate_with_trace-disagrees_example : (traced unlinked_flag).0 ≢ failed
evaluate_with_trace-disagrees_example =
    evaluate_with_trace-disagrees sample_services unlinked_flag free_user (pos 7) failed
      (traced unlinked_flag).0 (traced unlinked_flag).1 unlinked_fails refl unlinked_traced

user_3_is_in : in_bucket "half" "user-3" (pos 80) ≡ true
unfolding in_bucket write rollout_bucket
user_3_is_in = refl

in_bucket_mono_example : in_bucket "half" "user-3" (pos 90) ≡ true
in_bucket_mono_example = in_bucket_mono "half" "user-3" (pos 80) (pos 90) (omega arith) user_3_is_in
