-- ===== src/Operator/Conditions.antt =====
-- internal/operator/controllers/result.go: the conditions of a resource, and what an upstream error
-- becomes.
pub mod Upsert
use text.Mathlib.Text.{◌==◌}
use false_flag_demo.Base.{ℕ, ◌*◌, ◌^◌, String, Option, none, some, List, [], ◌∷◌, if◌then◌else◌}

-- Times are numbers; a status is the text "True" or "False".
pub record Condition : Type 0 where
  pub kind : String
  pub status : String
  pub reason : String
  pub message : String
  pub last_transition_time : ℕ

-- connect's error codes.
pub data Code : Type 0 where
  already_exists failed_precondition aborted invalid_argument not_found : Code
  other_code : ℕ → Code

-- Whether the chain of an error has a connect error, and its code.
pub data Upstream : Type 0 where
  connect_error : Code → String → Upstream
  plain_error : String → Upstream

-- `Error()`: what connect makes of a code and a message is a parameter.
abbrev pub error_text : (Code → String → String) → Upstream → String
error_text render (connect_error code text) = render code text
error_text render (plain_error text) = text

-- In nanoseconds.
unfoldable pub requeue_after_success : ℕ
requeue_after_success = 30 * 10 ^ 9

unfoldable pub requeue_after_conflict : ℕ
requeue_after_conflict = 10 ^ 9

abbrev pub synced_true : Condition
synced_true = record {
  kind = "Synced";
  status = "True";
  reason = "UpstreamApplied";
  message = "operator applied the desired state to the upstream API";
  last_transition_time = 0;
}

abbrev pub ready_true : Condition
ready_true = record {
  kind = "Ready";
  status = "True";
  reason = "AsExpected";
  message = "resource matches the desired state";
  last_transition_time = 0;
}

abbrev pub condition_false : String → String → String → Condition
condition_false kind reason message = record {
  kind = kind;
  status = "False";
  reason = reason;
  message = message;
  last_transition_time = 0;
}

-- The result: the delay of the requeue, 0 for none; the condition; and the error returned.
pub record Handled : Type 0 where
  pub requeue_after : ℕ
  pub condition : Condition
  pub returned : Option Upstream

module _ (render : Code → String → String) where
  abbrev pub unknown_error : Upstream → Handled
  unknown_error e = record {
    requeue_after = 0;
    condition = condition_false "Synced" "Error" (error_text render e);
    returned = some e;
  }

  unfoldable pub translate_error : Option Upstream → Handled
  unfolding requeue_after_success requeue_after_conflict
  translate_error none = record {
    requeue_after = requeue_after_success;
    condition = synced_true;
    returned = none;
  }
  translate_error (some (connect_error already_exists text)) = record {
    requeue_after = requeue_after_success;
    condition = synced_true;
    returned = none;
  }
  translate_error (some (connect_error failed_precondition text)) = record {
    requeue_after = requeue_after_conflict;
    condition = condition_false "Synced" "Conflict" text;
    returned = none;
  }
  translate_error (some (connect_error aborted text)) = record {
    requeue_after = requeue_after_conflict;
    condition = condition_false "Synced" "Conflict" text;
    returned = none;
  }
  translate_error (some (connect_error invalid_argument text)) = record {
    requeue_after = 0;
    condition = condition_false "Ready" "InvalidSpec" text;
    returned = none;
  }
  translate_error (some (connect_error not_found text)) = record {
    requeue_after = requeue_after_conflict;
    condition = condition_false "Synced" "UpstreamMissing" text;
    returned = none;
  }
  translate_error (some e) = unknown_error e

-- `setCondition` at the time `now`.
unfoldable pub set_condition : ℕ → List Condition → Condition → List Condition
set_condition now [] cond = record cond { last_transition_time = now } ∷ []
set_condition now (x ∷ conds) cond =
    if x.kind == cond.kind
    then record cond {
      last_transition_time = if x.status == cond.status then x.last_transition_time else now;
    }
      ∷ conds
    else x ∷ set_condition now conds cond

-- The status that the reconcilers of flags and segments write after a sync.
unfoldable pub report :
    (Code → String → String) → ℕ → List Condition → Option Upstream → List Condition
unfolding translate_error set_condition
report render now conds e =
    let cond = (translate_error render e).condition in
    let synced = set_condition now conds cond in
    if cond.status == "True" then set_condition now synced ready_true else synced
