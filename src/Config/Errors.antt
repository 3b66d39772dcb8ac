-- ===== src/Config/Errors.antt =====
-- internal/config/strategy.go: the sentinel errors, which every error of the package wraps.
use false_flag_demo.Base.{String, Bool, true, false}
use false_flag_demo.Base.Result.{Check, ok, err}

pub data Sentinel : Type 0 where
  unknown_strategy invalid_ir invalid_predicate invalid_value_type : Sentinel
  cel_compile_failure typescript_compile_failure : Sentinel

-- `fmt.Errorf("%w: ...", sentinel)` without its text, and `fmt.Errorf("rule %q: %w", id, err)`.
pub data ConfigError : Type 0 where
  wrapped : Sentinel → ConfigError
  in_rule : String → ConfigError → ConfigError

-- `if failed { return ... }`, and the rest of the function follows.
abbrev pub reject_if : Bool → Sentinel → Check ConfigError
reject_if true e = err (wrapped e)
reject_if false e = ok tt

-- `if err != nil { return fmt.Errorf("rule %q: %w", id, err) }`.
abbrev pub for_rule : String → Check ConfigError → Check ConfigError
for_rule id (ok u) = ok u
for_rule id (err e) = err (in_rule id e)
