-- ===== src/Checks/Segments.antt =====
-- Runs of segment resolution.
use text.Mathlib.Text.{◌==◌}
use false_flag_demo.Base.{
  some-injective, ap, sym, ◌∙◌, ℕ, String, true, false, none, some, ◌≡◌, ◌≢◌, refl, [], ◌∷◌, arith,
  All, eq_iff, if◌then◌else◌,
}
use false_flag_demo.Base.Int.{pos}
use false_flag_demo.Base.Result.{ok, err, ok-injective}
use false_flag_demo.Checks.{
  sample_services, sample_codec, on_plan, no_operands, pro_user, sample_program,
}
use false_flag_demo.Config.Publish.{resolve_and_compile}
use false_flag_demo.Values.{RawMessage}
use false_flag_demo.Config.Ir.{Compiled}
use false_flag_demo.Config.Cel.{walk_and_compile}
use false_flag_demo.Config.Validate.{
  validate_predicate, validate_rules_with, validate_rule_with, check_comparison,
}
use false_flag_demo.Config.Compile.{Codec, compile}
use false_flag_demo.Config.Ir.{cel, Leaf, Predicate, end, RulesTree}
use false_flag_demo.Config.Segments.{
  SegmentResolver, resolve_segments, resolve_one, out_of_fuel, normalize_predicate,
}
use false_flag_demo.Config.Segments.Resolution.{IsInlined, resolve_segments-IsInlined}
use false_flag_demo.Config.Segments.Termination.{
  IsRanked, resolve_segments_ends, self_reference, normalize_predicate_accepts_cycle,
}
use false_flag_demo.Config.Validate.{validate_predicates}
use false_flag_demo.Eval.Decision.{evaluate, error, decode_value}
use false_flag_demo.Eval.Decision.Leftover.{refers, leftover_segment}
use false_flag_demo.Values.{bool}

-- One segment, "vip".
abbrev sample_resolver : SegmentResolver
sample_resolver key = if key == "vip" then some on_plan.when else none

abbrev vip : Leaf
vip = record no_operands { segment_key = "vip" }

abbrev vip_tree : RulesTree
vip_tree = refers "vip" vip "true" "false"

vip_resolves :
    resolve_segments sample_resolver 2 vip_tree
    ≡ ok (record vip_tree { rules = record on_plan { id = "vip" } ∷ [] })
unfolding resolve_segments resolve_one
vip_resolves = refl

resolve_segments-IsInlined_example :
    All (λ r. IsInlined r.when) (record on_plan { id = "vip" } ∷ [])
resolve_segments-IsInlined_example =
    resolve_segments-IsInlined sample_resolver 2 vip_tree
      (record vip_tree { rules = record on_plan { id = "vip" } ∷ [] }) vip_resolves

abbrev sample_rank : String → ℕ
sample_rank key = 0

vip-IsRanked : IsRanked sample_rank sample_resolver
vip-IsRanked k p e = ground arith

resolve_segments_ends_example : resolve_segments sample_resolver 2 vip_tree ≢ err out_of_fuel
resolve_segments_ends_example =
    resolve_segments_ends sample_rank sample_resolver 1 vip_tree vip-IsRanked (omega arith, tt)

abbrev loop : Predicate
loop = self_reference no_operands vip end

none_left : validate_predicates sample_services true end ≡ ok tt
unfolding validate_predicates
none_left = refl

normalize_predicate_accepts_cycle_example :
    (normalize_predicate sample_services loop ≡ ok tt)
    × (resolve_one (λ key. some loop) 100 loop ≡ err out_of_fuel)
normalize_predicate_accepts_cycle_example =
    normalize_predicate_accepts_cycle sample_services (λ key. some loop) no_operands vip end 100
      (ground (arith, eq_iff "vip" "")) none_left refl

abbrev vip_codec : Codec
vip_codec = record sample_codec { decode_tree = λ raw. some vip_tree }

false_decodes : decode_value sample_services "false" ≡ some (bool false)
unfolding decode_value
false_decodes = refl

leftover_segment_example :
    (compile sample_services vip_codec cel "vip"
      ≡ ok (record { strategy = cel; ir = some vip_tree; cel_programs = [] }))
    × (evaluate sample_services
          (some (record { strategy = cel; ir = some vip_tree; cel_programs = [] }))
          pro_user
          (pos 1)
        ≡ ok (record { value = bool false; reason = error; rule_id = "vip"; version = pos 1 }))
leftover_segment_example =
    leftover_segment sample_services vip_codec
      (λ source. some (record { is_bool = true; program = some sample_program })) "vip" "false"
      "true" "vip" vip (ground (arith, eq_iff "vip" "")) (ground (arith, eq_iff "true" ""))
      (ground (arith, eq_iff "false" "")) (ground (arith, eq_iff "vip" "")) pro_user (pos 1)
      (bool false) refl refl false_decodes

abbrev inlined_tree : RulesTree
inlined_tree = record vip_tree { rules = record on_plan { id = "vip" } ∷ [] }

abbrev inlining_codec : Codec
inlining_codec = record sample_codec {
  decode_tree = λ raw.
      if raw == "vip" then some vip_tree else if raw == "inlined" then some inlined_tree else none;
  encode_tree = λ tree. some "inlined";
}

abbrev inlined_flag : Compiled
inlined_flag = record { strategy = cel; ir = some inlined_tree; cel_programs = [] }

inlining_is_faithful :
    (tree : RulesTree) (raw : RawMessage)
    → resolve_segments sample_resolver 2 vip_tree ≡ ok tree
    → some "inlined" ≡ some raw
    → inlining_codec.decode_tree raw ≡ some tree
inlining_is_faithful tree raw resolved encoded =
    rw (← some-injective encoded) (ap some (ok-injective (sym vip_resolves ∙ resolved)))

vip_published :
    resolve_and_compile inlining_codec sample_resolver 2 sample_services cel "vip" ≡ ok inlined_flag
unfolding resolve_and_compile resolve_one validate_rules_with validate_rule_with validate_predicate
    check_comparison walk_and_compile
vip_published = refl
