-- ===== src/Checks/Compiling.antt =====
-- Runs of internal/config.
use false_flag_demo.Base.{◌≡◌, refl, some, [], arith, ◌↔◌, true, eq_iff}
use false_flag_demo.Base.Result.{ok}
use false_flag_demo.Base.Text.{get, put}
use false_flag_demo.Checks.{
  sample_services, sample_codec, plain_flag, beta_flag, beta_tree, sample_program,
}
use false_flag_demo.Config.Cel.{compile_predicates, walk_and_compile, compile_cel}
use false_flag_demo.Config.Compile.{compile}
use false_flag_demo.Config.Compile.Linked.{IsLinked, compile-IsLinked}
use false_flag_demo.Config.Compile.Strategies.{compile_again}
use false_flag_demo.Config.Ir.{json, cel}
use false_flag_demo.Config.Validate.{
  validate_rules_with, validate_rule_with, validate_predicate, check_comparison, check_cel,
  validate_rules, validate_rule, check_rollout, validate_tree_with,
}
use false_flag_demo.Config.Validate.WellFormed.{IsWellFormedTree, validate_tree_with_iff}
use false_flag_demo.Values.Services.{CelEnv}

pub beta_compiles : compile sample_services sample_codec cel "beta" ≡ ok beta_flag
unfolding compile validate_rules_with validate_rule_with validate_predicate check_comparison
    check_cel walk_and_compile compile_cel get put check_rollout
beta_compiles = refl

pub plain_compiles : compile sample_services sample_codec json "plain" ≡ ok plain_flag
unfolding compile validate_rules validate_rule validate_predicate check_comparison
plain_compiles = refl

compile-IsLinked_example : IsLinked sample_services beta_flag
compile-IsLinked_example =
    compile-IsLinked sample_services sample_codec cel "beta" beta_flag beta_compiles

compile_again_example : compile sample_services sample_codec cel "beta" ≡ ok beta_flag
compile_again_example =
    compile_again sample_services sample_codec cel "beta" "beta" beta_flag beta_tree beta_compiles
      refl (ground (arith, eq_iff "beta" "")) refl

abbrev sample_env : CelEnv
sample_env source = some (record { is_bool = true; program = some sample_program })

validate_tree_with_iff_example :
    (validate_tree_with sample_services beta_tree true ≡ ok tt)
    ↔ IsWellFormedTree sample_services true beta_tree
validate_tree_with_iff_example = validate_tree_with_iff sample_services true beta_tree

beta_walked : compile_predicates sample_env beta_tree.rules [] ≡ ok beta_flag.cel_programs
unfolding compile_predicates walk_and_compile compile_cel get put
beta_walked = refl
