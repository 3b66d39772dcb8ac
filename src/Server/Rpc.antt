-- ===== src/Server/Rpc.antt =====
-- internal/server/rpc: what the Connect handlers share (errors.go and the enumerations of convert.go),
-- with the environments of environments.go. An answer is what the response is made of, a refusal its
-- code. A request is the message as it was decoded; its actor is the header X-Actor.
pub mod Projects
pub mod Flags
pub mod Segments
pub mod Snapshots
pub mod Evaluation
pub mod Audit
pub mod Relayed
pub mod Agreement
use false_flag_demo.Base.{String, Option, none, some, List, if◌then◌else◌}
use false_flag_demo.Base.Int.{ℤ}
use false_flag_demo.Base.Result.{Result, ok, err, ◌>>=◌}
use false_flag_demo.Server.{Connection, read}
use false_flag_demo.Store.{Db, StoreError, not_found, is_conflict}

-- The codes of package connect that the handlers use.
pub data ConnectCode : Type 0 where
  code_not_found code_already_exists code_internal code_invalid_argument : ConnectCode

-- `unbounded` stands for a recursion deeper than the fuel given.
pub data RpcError : Type 0 where
  connect_code : ConnectCode → RpcError
  unbounded : RpcError

abbrev pub Answer : Type 0 → Type 0
Answer A = Result RpcError A

-- An answer, and the tables committed.
abbrev pub Committed : Type 0 → Type 0
Committed A = Result RpcError (A × Db)

unfoldable pub connect_error : StoreError → ConnectCode
unfolding is_conflict
connect_error not_found = code_not_found
connect_error e = if is_conflict e then code_already_exists else code_internal

module _ {A : Type 0} where
  -- An error of the store, by `connectError`.
  unfoldable pub or_connect_error : Result StoreError A → Answer A
  unfolding connect_error
  or_connect_error (ok x) = ok x
  or_connect_error (err e) = err (connect_code (connect_error e))

  -- A conversion that fails, with the code it is refused with.
  abbrev pub or_code : ConnectCode → Option A → Answer A
  or_code code none = err (connect_code code)
  or_code code (some x) = ok x

-- `pb.Strategy`; `STRATEGY_UNSPECIFIED` is 0.
pub data ProtoStrategy : Type 0 where
  strategy_json strategy_cel strategy_typescript : ProtoStrategy
  other_strategy : ℤ → ProtoStrategy

unfoldable pub strategy_from_proto : ProtoStrategy → String
strategy_from_proto strategy_json = "json"
strategy_from_proto strategy_cel = "cel"
strategy_from_proto strategy_typescript = "typescript"
strategy_from_proto (other_strategy n) = ""

-- `pb.ValueType`; `VALUE_TYPE_UNSPECIFIED` is 0.
pub data ProtoValueType : Type 0 where
  value_type_boolean value_type_string value_type_number value_type_object : ProtoValueType
  other_value_type : ℤ → ProtoValueType

unfoldable pub value_type_from_proto : ProtoValueType → String
value_type_from_proto value_type_boolean = "boolean"
value_type_from_proto value_type_string = "string"
value_type_from_proto value_type_number = "number"
value_type_from_proto value_type_object = "object"
value_type_from_proto (other_value_type n) = ""
