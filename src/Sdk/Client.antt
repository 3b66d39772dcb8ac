-- ===== src/Sdk/Client.antt =====
-- internal/sdkgo/sdkgo.go: `pollOnce` and `Evaluate`. The client's state is its snapshot pointer,
-- `none` for nil; the HTTP exchange is given by its outcome.
use false_flag_demo.Base.{ℕ, String, Option, none, some, List, [], ◌∷◌, ◌==◌, if◌then◌else◌}
use false_flag_demo.Base.Int.{ℤ, pos}
use false_flag_demo.Base.Result.{Result, ok, err, Check}
use false_flag_demo.Base.Text.{StringMap, get, put}
use false_flag_demo.Config.Compile.{Codec, compile}
use false_flag_demo.Config.Errors.{ConfigError}
use false_flag_demo.Config.Ir.{cel, Compiled}
use false_flag_demo.Eval.Decision.{Decision, Failure, default, error, evaluate}
use false_flag_demo.Values.{null, Fields, RawMessage}
use false_flag_demo.Values.Services.{Services}

pub record Snapshot : Type 0 where
  pub id : String
  pub version : ℤ
  pub created_at : String
  pub flags : StringMap Compiled

-- The decoded body of GET .../snapshots/latest.
pub record SnapshotBody : Type 0 where
  pub id : String
  pub version : ℤ
  pub created_at : String
  pub flags : StringMap RawMessage

-- How a request ends: no response, or a status with a body, which is `none` if it does not decode.
pub data Reply : Type 0 where
  request_failed : Reply
  replied : ℕ → Option SnapshotBody → Reply

pub data PollError : Type 0 where
  request_error decoding_snapshot : PollError
  poll_status : ℕ → PollError

module _ (s : Services) (codec : Codec) where
  abbrev pub keep_compiled :
      String → Result ConfigError Compiled → StringMap Compiled → StringMap Compiled
  keep_compiled key (ok compiled) flags = put key compiled flags
  keep_compiled key (err _) flags = flags

  -- The loop over the snapshot's flags: one that does not compile is left out.
  unfoldable pub compile_flags : StringMap RawMessage → StringMap Compiled
  compile_flags [] = []
  compile_flags ((key, raw) ∷ rest) =
      keep_compiled key (compile s codec cel raw) (compile_flags rest)

  abbrev pub load : SnapshotBody → Snapshot
  load body = record {
    id = body.id;
    version = body.version;
    created_at = body.created_at;
    flags = compile_flags body.flags;
  }

  -- The snapshot pointer after the poll, and the error that it returns.
  unfoldable pub poll_once : Option Snapshot → Reply → Option Snapshot × Check PollError
  unfolding compile_flags
  poll_once snap request_failed = (snap, err request_error)
  poll_once snap (replied status body) =
      if status == 200
      then (elim body [ none ↦ (snap, err decoding_snapshot) | some b ↦ (some (load b), ok tt) ])
      else if status == 404
      then (snap, ok tt)
      else (snap, err (poll_status status))

  -- The snapshot after the polls of `loop`, which logs errors and goes on.
  unfoldable pub poll_all : Option Snapshot → List Reply → Option Snapshot
  unfolding poll_once
  poll_all snap [] = snap
  poll_all snap (r ∷ replies) = poll_all (poll_once snap r).0 replies

abbrev pub or_failed : ℤ → Result Failure Decision → Decision
or_failed version (ok d) = d
or_failed version (err _) = record { value = null; reason = error; rule_id = ""; version = version }

unfoldable pub client_evaluate : Services → Option Snapshot → String → Fields → Decision
client_evaluate s none key eval_ctx = record {
  value = null;
  reason = error;
  rule_id = "";
  version = pos 0;
}
client_evaluate s (some snap) key eval_ctx = elim (get key snap.flags) [
  | none ↦ record { value = null; reason = default; rule_id = ""; version = snap.version }
  | some compiled ↦ or_failed snap.version (evaluate s (some compiled) eval_ctx snap.version)
]
