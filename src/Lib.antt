-- ===== src/Lib.antt =====
-- A model of the FalseFlag feature-flag service: how a flag's source is compiled to an IR, how the
-- store keeps its versions and the server publishes and serves them, how the IR is evaluated, and how
-- the Go SDK serves decisions from snapshots.
--
-- The parts and their files:
-- - internal/config compiles a flag. Config/Ir is ir.go and strategy.go: RulesTree, Rule, Predicate
--   (a tree whose `nil` is the nil pointer; `of` and `of_one` are the two kinds of children),
--   Compiled. Config/Validate is validatePredicate, validateTree (json.go) and validateTreeWith
--   (cel.go); Config/Cel is compilePredicates and walkAndCompile with the map of programs passed
--   on; Config/Compile is Compile, the three strategies and tryRehydrateIR. Config/Segments is
--   ResolveSegments (predicate.go) and the guard on stored segments, normalizePredicate of
--   internal/server/handlers/segments.go; Config/Publish is resolveSegmentRefs of
--   internal/server/handlers/segment_resolver.go with the compilation that the publish handler does
--   after it.
-- - internal/eval evaluates a compiled flag. Eval/Lookup and Eval/Compare are the lookups,
--   coercions and comparisons of predicates.go, Eval/Rollout is rollout.go, Eval/Match is match,
--   Eval/Decision is Evaluate (eval.go), Eval/TraceNode and Eval/Trace are trace.go. Go's pair of a
--   Boolean and an error is kept as a pair, since `not` and `neq` negate the Boolean beside an
--   error.
-- - internal/store keeps projects, flags and their versions, environments, segments, snapshots and
--   audit events. Store is types.go, params.go and errors.go, with the tables as lists of rows.
--   Store/Queries and Store/Selects are the statements of internal/db/sqlite, with the constraints of
--   db/migrations/sqlite; Store/Tx is sqlite_tx.go and sqlite_audit.go: the operations of a
--   transaction, runOnceTx, withImmediateTx and WithAudit; Store/Lookups is the reads.
--   Store/Postgres is the other backend: pg_tx.go, pg_audit.go, and the statements of internal/db
--   on the tables of db/migrations, with what a `jsonb` column keeps of a text as a parameter. Its
--   transactions are serializable: one that commits has run as if alone. A statement
--   maps the tables to an error or to its row and the tables after it, and what a failed transaction
--   did is dropped. What the database, the clock and the generator of UUIDs do in one attempt at a
--   transaction is an `Attempt`, a parameter.
-- - internal/server answers requests: Server/Projects, Environments, Flags, Segments, Snapshots,
--   Evaluation and Audit are the files of internal/server/handlers of those names, each handler whole
--   from the outcome of decoding its request on. A handler gives its reply with the tables it
--   committed, or a refusal, and commits nothing then. The reads of one request see one state of the
--   tables, its transaction one of its own. Server/Rpc is internal/server/rpc, the Connect handlers,
--   in the same way: Projects has projects.go and environments.go, the other files are named alike.
-- - internal/sdkgo polls snapshots and evaluates locally: Sdk/Client is pollOnce and Evaluate,
--   Sdk/Provider the typed evaluations. The client calls Compile with the CEL strategy on each flag
--   of a snapshot, and Evaluate on what it holds.
-- - internal/proxy answers evaluation requests from the client's state: Proxy is the handlers of
--   proxy.go.
-- - internal/operator turns Kubernetes resources into flags. Operator/Resources is the specs of
--   operator/api/v1alpha1, Operator/Translate is IRForFlag and pickRolloutValue
--   (translate/translate.go), Operator/Policies is validateRolloutPolicy and resolveRollouts, and
--   Operator/Conditions is translateError and setCondition (controllers/result.go). Operator/Api is the
--   API as the reconcilers call it (clientapi/client.go): calls that lead from a state to a state,
--   Operator/Sync the syncs of the reconcilers over it, Operator/Pass and Operator/Reconcile their
--   `Reconcile` with the finalizers and the status. Operator/Served is that API over the Connect
--   handlers, so that the operator, the server and the store stand together there.
-- - Values has Go's `any` as it holds JSON, floats as IEEE 754 bit patterns, and the parameter
--   `Services` for encoding/json, regexp, strconv and cel-go; `Codec` of Config/Compile stands for
--   encoding/json on the IR's types, esbuild and goja. Nothing is assumed of either, but where a
--   theorem names a hypothesis.
-- - Base has the shared names, and Checks the tests, on concrete services and flags.
--
-- Integers: `int` fields are unbounded integers, and version numbers unbounded natural numbers; the one product, of a percentage below 100,
-- cannot overflow. An `int32` weight is given by its bits and added modulo 2^32. The hash of a
-- rollout is computed modulo 2^64. A Go map is an association list whose first entry of a key is
-- its value; maps that the code only reads are assumed to have no key twice where that matters.
--
-- Fuel: only segment resolution takes fuel, since the source recurses through the resolver with no
-- bound. The fuel is how deep segments nest, and one more than the largest rank is enough for
-- segments that can be ranked.
--
-- Not modelled: error texts, logging, the HTTP exchange, timers and the compile deadline; that
-- ResolveSegments leaves the rules before a failing one changed in place, since every caller drops
-- the tree then; what Kubernetes does with the operator's updates, the time of a pass being one number
-- for all its conditions; that Postgres refuses a text with the character U+0000, which SQLite takes; the reads of the Postgres store whose statements are those of SQLite; the
-- conversion to the wire types, and the command-line programs.
pub mod Base
pub mod Values
pub mod Config
pub mod Eval
pub mod Store
pub mod Server
pub mod Sdk
pub mod Proxy
pub mod Operator
pub mod Checks
