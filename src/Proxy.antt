-- ===== src/Proxy.antt =====
-- internal/proxy/proxy.go: the HTTP handlers over the embedded SDK client. A response is its status
-- with what its body is made of.
pub mod Serving
use text.Mathlib.Text.{◌==◌}
use false_flag_demo.Base.{ℕ, String, Bool, true, false, Option, none, some, length, if◌then◌else◌}
use false_flag_demo.Base.Int.{ℤ}
use false_flag_demo.Eval.Decision.{Decision}
use false_flag_demo.Sdk.Client.{Snapshot, client_evaluate}
use false_flag_demo.Values.{Value, null, Fields}
use false_flag_demo.Values.Services.{Services}

-- `evaluator` is nil without a project; otherwise it is the client, given by the snapshot it holds.
pub record Proxy : Type 0 where
  pub project_slug : String
  pub evaluator : Option (Option Snapshot)

pub record EvaluateRequest : Type 0 where
  pub key : String
  pub default_value : Value
  pub context : Fields

pub record SnapshotInfo : Type 0 where
  pub id : String
  pub version : ℤ
  pub created_at : String
  pub flag_count : ℕ
  pub project_slug : String

pub data Response (A : Type 0) : Type 0 where
  json_error : ℕ → String → Response A
  replied : ℕ → A → Response A

-- A nil value gives way to the caller's default; where that is nil too, nothing changes.
abbrev pub substitute : Value → Decision → Value → Decision
substitute null d def = record d { value = def }
substitute _ d def = d

-- The body is `none` if it does not decode.
unfoldable pub handle_evaluate : Services → Proxy → Option EvaluateRequest → Response Decision
handle_evaluate s p body = elim p.evaluator [
  | none ↦ json_error 503 "no_project_configured"
  | some client ↦ elim body [
    | none ↦ json_error 400 "invalid_body"
    | some req ↦
        if req.key == ""
        then json_error 400 "missing_key"
        else (let d = client_evaluate s client req.key req.context in
            replied 200 (substitute d.value d req.default_value))
  ]
]

abbrev pub snapshot_info : Proxy → Snapshot → SnapshotInfo
snapshot_info p snap = record {
  id = snap.id;
  version = snap.version;
  created_at = snap.created_at;
  flag_count = length snap.flags;
  project_slug = p.project_slug;
}

unfoldable pub handle_snapshot_info : Proxy → Response SnapshotInfo
handle_snapshot_info p = elim p.evaluator [
  | none ↦ json_error 503 "no_project_configured"
  | some client ↦ elim client [
    | none ↦ json_error 503 "no_snapshot"
    | some snap ↦ replied 200 (snapshot_info p snap)
  ]
]

abbrev is_loaded : Option Snapshot → Bool
is_loaded none = false
is_loaded (some snap) = true

-- The status, the project and whether a snapshot is loaded.
unfoldable pub handle_ready : Proxy → Response (String × Bool)
handle_ready p = elim p.evaluator [
  | none ↦ replied 200 (p.project_slug, false)
  | some client ↦ replied 200 (p.project_slug, is_loaded client)
]
