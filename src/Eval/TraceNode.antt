-- ===== src/Eval/TraceNode.antt =====
-- internal/eval/trace.go: the trace's data, and how a group's node follows from its children.
use false_flag_demo.Base.{
  ℕ, String, Bool, true, false, ◌&&◌, ◌||◌, not, Option, none, some, List, [],
}
use false_flag_demo.Base.Int.{ℤ, pos}
use false_flag_demo.Config.Ir.{PredicateKind}
use false_flag_demo.Values.{Value, null}
use false_flag_demo.Eval.Outcome.{EvalError, Outcome}

-- The fields of a `TraceNode` but its children. `kind` is `none` for "nil".
pub record TraceFields : Type 0 where
  pub kind : Option PredicateKind
  pub attr : String
  pub attr_value : Value
  pub expected : Value
  pub expected_values : List Value
  pub pattern : String
  pub salt : String
  pub percent : ℤ
  pub bucket : ℕ
  pub source : String
  pub result : Bool

mutual
  pub data TraceNode : Type 0 where
    node : TraceFields → TraceNodes → TraceNode

  pub data TraceNodes : Type 0 where
    end : TraceNodes
    cons : TraceNode → TraceNodes → TraceNodes

pub record TraceRule : Type 0 where
  pub rule_id : String
  pub matched : Bool
  pub predicate : TraceNode
  pub error : Option EvalError

pub record Trace : Type 0 where
  pub evaluated_rules : List TraceRule
  pub default_used : Bool
  pub matched_rule_id : String

-- `TraceNode{Kind: ...}` with the other fields zero.
abbrev pub blank : Option PredicateKind → TraceFields
blank kind = record {
  kind = kind;
  attr = "";
  attr_value = null;
  expected = null;
  expected_values = [];
  pattern = "";
  salt = "";
  percent = pos 0;
  bucket = 0;
  source = "";
  result = false;
}

-- What the loops of PredAll and PredAny collect: the children, whether all (or any) held, and the
-- first error.
pub record Collected : Type 0 where
  pub children : TraceNodes
  pub held : Bool
  pub first_err : Option EvalError

abbrev pub or_else : Option EvalError → Option EvalError → Option EvalError
or_else none e = e
or_else (some e) _ = some e

abbrev pub no_error : Option EvalError → Bool
no_error none = true
no_error (some _) = false

-- A child's trace and outcome, put before what the later children give.
abbrev pub collect_all : TraceNode × Outcome → Collected → Collected
collect_all (child, (held, e)) rest = record {
  children = cons child rest.children;
  held = held && rest.held;
  first_err = or_else e rest.first_err;
}

abbrev pub collect_any : TraceNode × Outcome → Collected → Collected
collect_any (child, (held, e)) rest = record {
  children = cons child rest.children;
  held = held || rest.held;
  first_err = or_else e rest.first_err;
}

-- `node.Result = held && firstErr == nil; return node, node.Result, firstErr`.
abbrev pub close_group : PredicateKind → Collected → TraceNode × Outcome
close_group kind c =
    let result = c.held && no_error c.first_err in
    (node (record (blank (some kind)) { result = result }) c.children, (result, c.first_err))

abbrev pub close_not : TraceNode × Outcome → TraceNode × Outcome
close_not (child, (held, e)) =
    let result = not held && no_error e in
    (
      node (record (blank (some PredicateKind.not)) { result = result }) (cons child end),
      (result, e),
    )
