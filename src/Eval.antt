-- ===== src/Eval.antt =====
-- internal/eval: evaluation of a compiled flag against a context, plain and traced.
pub mod Outcome
pub mod Lookup
pub mod Rollout
pub mod Compare
pub mod Match
pub mod Decision
pub mod TraceNode
pub mod Trace
