-- ===== src/Eval/Outcome.antt =====
-- The `(bool, error)` pairs of internal/eval/predicates.go.
use false_flag_demo.Base.{String, Bool, false, Option, none, some}
use false_flag_demo.Config.Ir.{PredicateKind}

-- One constructor for each `fmt.Errorf` of predicates.go and trace.go, without its text.
pub data EvalError : Type 0 where
  decoding_eq decoding_in decoding_ord decoding_starts_with : EvalError
  compiling_pattern cel_failed : EvalError
  cel_program_missing : String → EvalError
  unknown_kind : PredicateKind → EvalError

-- Both parts are kept: some callers read the Boolean beside an error.
abbrev pub Outcome : Type 0
Outcome = Bool × Option EvalError

-- `return b, nil` and `return false, err`.
abbrev pub answer : Bool → Outcome
answer b = (b, none)

abbrev pub fail : EvalError → Outcome
fail e = (false, some e)
