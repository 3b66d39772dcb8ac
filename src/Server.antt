-- ===== src/Server.antt =====
-- internal/server/handlers: what the handlers share. A reply is its status with what its body is made
-- of; a refusal is its status. What a handler commits to the store stands beside its reply, so that a
-- refusal has committed nothing.
pub mod Projects
pub mod Environments
pub mod Flags
pub mod Segments
pub mod Snapshots
pub mod Evaluation
pub mod Audit
pub mod Committed
pub mod Rpc
use text.Mathlib.Text.{◌==◌}
use false_flag_demo.Base.{ℕ, String, Bool, true, false, Option, none, some, if◌then◌else◌}
use false_flag_demo.Base.Int.{ℤ, pos}
use false_flag_demo.Base.Result.{Result, ok, err, Check, ◌>>=◌}
use false_flag_demo.Base.Text.{StringMap}
use false_flag_demo.Config.Ir.{Strategy, json, cel, typescript, RulesTree, Predicate}
use false_flag_demo.Store.{Db, StoreError, not_found, is_conflict}
use false_flag_demo.Store.Tx.{Attempt}
use false_flag_demo.Values.{Value, RawMessage}

-- A store as one request meets it: the tables that its reads see, or the error they fail with, and
-- the attempts at its transaction.
pub record Connection : Type 0 where
  pub reading : Result StoreError Db
  pub attempts : ℕ → Attempt

-- `API.Store`, nil without a database.
abbrev pub Api : Type 0
Api = Option Connection

-- encoding/json as the handlers call it: `json.Marshal` on a decoded value and on a bundle, with
-- `none` for an error, and `json.Unmarshal` into a `Predicate`.
pub record Json : Type 0 where
  pub marshal : Value → Option RawMessage
  pub marshal_bundle : StringMap RulesTree → Option RawMessage
  pub decode_predicate : RawMessage → Option Predicate

-- `out_of_fuel` stands for a recursion deeper than the fuel given.
pub data Refusal : Type 0 where
  status : ℕ → Refusal
  panicked out_of_fuel : Refusal

abbrev pub Reply : Type 0 → Type 0
Reply A = Result Refusal (ℕ × A)

-- A reply, and the tables committed.
abbrev pub Written : Type 0 → Type 0
Written A = Result Refusal ((ℕ × A) × Db)

unfoldable pub require_store : Api → Result Refusal Connection
require_store none = err (status 503)
require_store (some conn) = ok conn

module _ {A : Type 0} where
  unfoldable pub not_found_or_error : Result StoreError A → Result Refusal A
  not_found_or_error (ok x) = ok x
  not_found_or_error (err not_found) = err (status 404)
  not_found_or_error (err _) = err (status 500)

  -- `writeError` with status 500.
  abbrev pub or_internal_error : Result StoreError A → Result Refusal A
  or_internal_error (ok x) = ok x
  or_internal_error (err _) = err (status 500)

  unfoldable pub write_store_err : Result StoreError A → Result Refusal A
  unfolding is_conflict
  write_store_err (ok x) = ok x
  write_store_err (err not_found) = err (status 404)
  write_store_err (err e) = if is_conflict e then err (status 409) else err (status 500)

  -- A body that does not decode, or a value that is not accepted, with the status of the refusal.
  abbrev pub or_status : ℕ → Option A → Result Refusal A
  or_status code none = err (status code)
  or_status code (some x) = ok x

  -- A read of the store.
  abbrev pub read : Connection → (Db → Result StoreError A) → Result StoreError A
  read conn query = conn.reading >>= query

abbrev pub accept : Bool → Check Refusal
accept true = ok tt
accept false = err (status 400)

-- A Go string as a `config.Strategy`, and back.
unfoldable pub parse_strategy : String → Strategy
parse_strategy t =
    if t == "json"
    then json
    else if t == "cel"
    then cel
    else if t == "typescript"
    then typescript
    else Strategy.other t

-- The `limit` of a query, with its default.
abbrev pub limit_or : ℕ → Option ℤ → ℤ
limit_or n none = pos n
limit_or n (some limit) = limit
