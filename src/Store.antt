-- ===== src/Store.antt =====
-- internal/store/types.go, params.go and errors.go: what the store holds, takes and fails with. A
-- UUID is its 128-bit number, whose order is that of the texts in the columns; a time is its number
-- of milliseconds, which the columns keep. An absent actor or source text is the empty text.
pub mod Queries
pub mod Tx
pub mod Retries
pub mod Selects
pub mod Lookups
pub mod Written
pub mod Numbering
pub mod Reachable
pub mod Latest
pub mod Audited
pub mod Postgres
use text.Mathlib.Text.{◌==◌ as str_eq}
use false_flag_demo.Base.{ℕ, String, Bool, true, false, ◌||◌, Option, List, ◌==◌}
use false_flag_demo.Base.Int.{ℤ}
use false_flag_demo.Values.{RawMessage}

abbrev pub Uuid : Type 0
Uuid = ℕ

abbrev pub Time : Type 0
Time = ℕ

pub record Project : Type 0 where
  pub id : Uuid
  pub slug : String
  pub display_name : String
  pub config_strategy : String
  pub created_at : Time
  pub updated_at : Time

pub record Flag : Type 0 where
  pub id : Uuid
  pub project_id : Uuid
  pub key : String
  pub name : String
  pub description : String
  pub value_type : String
  pub default_value : RawMessage
  pub created_at : Time
  pub updated_at : Time

pub record FlagVersion : Type 0 where
  pub id : Uuid
  pub flag_id : Uuid
  pub version : ℕ
  pub strategy : String
  pub source : RawMessage
  pub compiled : RawMessage
  pub source_text : String
  pub published_at : Time

pub record AuditEvent : Type 0 where
  pub id : Uuid
  pub project_id : Option Uuid
  pub flag_id : Option Uuid
  pub action : String
  pub actor : String
  pub payload : RawMessage
  pub created_at : Time

pub record Environment : Type 0 where
  pub id : Uuid
  pub project_id : Uuid
  pub slug : String
  pub name : String
  pub created_at : Time

pub record Segment : Type 0 where
  pub id : Uuid
  pub project_id : Uuid
  pub key : String
  pub name : String
  pub description : String
  pub predicate : RawMessage
  pub created_at : Time
  pub updated_at : Time

pub record Snapshot : Type 0 where
  pub id : Uuid
  pub project_id : Uuid
  pub environment_id : Option Uuid
  pub version : ℕ
  pub compiled : RawMessage
  pub created_at : Time

pub record LatestFlagVersion : Type 0 where
  pub flag_key : String
  pub flag_id : Uuid
  pub version : ℕ
  pub strategy : String
  pub compiled : RawMessage
  pub published_at : Time

pub record AppendAuditParams : Type 0 where
  pub project_id : Option Uuid
  pub flag_id : Option Uuid
  pub action : String
  pub actor : String
  pub payload : RawMessage

-- A zero time is `none`.
pub record ListAuditEventsParams : Type 0 where
  pub project_id : Uuid
  pub action : String
  pub actor : String
  pub from : Option Time
  pub to : Option Time
  pub cursor_ts : Option Time
  pub cursor_id : Uuid
  pub limit : ℤ

pub record CreateFlagParams : Type 0 where
  pub project_id : Uuid
  pub key : String
  pub name : String
  pub description : String
  pub value_type : String
  pub default_value : RawMessage

pub record PublishFlagVersionParams : Type 0 where
  pub flag_id : Uuid
  pub strategy : String
  pub source : RawMessage
  pub compiled : RawMessage
  pub source_text : String

pub record CreateSegmentParams : Type 0 where
  pub project_id : Uuid
  pub key : String
  pub name : String
  pub description : String
  pub predicate : RawMessage

pub record UpdateSegmentParams : Type 0 where
  pub project_id : Uuid
  pub key : String
  pub name : String
  pub description : String
  pub predicate : RawMessage

pub record CompileSnapshotParams : Type 0 where
  pub project_id : Uuid
  pub environment_id : Option Uuid
  pub compiled : RawMessage

-- The tables, the row inserted last first.
pub record Db : Type 0 where
  pub projects : List Project
  pub flags : List Flag
  pub flag_versions : List FlagVersion
  pub audit_events : List AuditEvent
  pub environments : List Environment
  pub segments : List Segment
  pub snapshots : List Snapshot

-- What one insert takes from outside: `uuid.New()` and the column default `strftime('now')`.
pub record Fresh : Type 0 where
  pub id : Uuid
  pub now : Time

-- An error by what `errors.Is` and `errors.As` see of it: a sentinel, an SQLite result code, or
-- Postgres' SQLSTATE.
pub data StoreError : Type 0 where
  not_found conflict : StoreError
  no_rows tx_done : StoreError
  coded : ℕ → StoreError
  sqlstate : String → StoreError
  uncoded : String → StoreError

-- SQLite's extended result codes for a violated constraint.
abbrev pub constraint_unique : ℕ
constraint_unique = 2067

abbrev pub constraint_primarykey : ℕ
constraint_primarykey = 1555

abbrev pub constraint_foreignkey : ℕ
constraint_foreignkey = 787

abbrev pub constraint_check : ℕ
constraint_check = 275

-- SQLSTATE's unique_violation and foreign_key_violation.
abbrev pub unique_violation : String
unique_violation = "23505"

abbrev pub foreign_key_violation : String
foreign_key_violation = "23503"

unfoldable pub is_conflict : StoreError → Bool
is_conflict conflict = true
is_conflict (sqlstate s) = str_eq s unique_violation || str_eq s foreign_key_violation
is_conflict (coded c) =
    (c == constraint_unique) || (c == constraint_primarykey) || (c == constraint_foreignkey)
is_conflict _ = false
