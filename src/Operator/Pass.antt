-- ===== src/Operator/Pass.antt =====
-- internal/operator/controllers: what a `Reconcile` gets and gives. A pass is what controller-runtime
-- gets, the resource if it was updated, and the resource if its status was.
use text.Mathlib.Text.{◌==◌}
use false_flag_demo.Base.{ℕ, String, Bool, Option, none, some, List, if◌then◌else◌}
use false_flag_demo.Base.Result.{ok, err, Check}
use false_flag_demo.Base.Text.{StringMap}
use false_flag_demo.Operator.Conditions.{Code, Condition, Upstream, translate_error, report}
use false_flag_demo.Operator.Policies.{PolicyError}

-- The metadata that the reconcilers read, the spec and the status.
pub record Resource (Spec Status : Type 0) : Type 0 where
  pub deleting : Bool
  pub finalizers : List String
  pub generation : ℕ
  pub spec : Spec
  pub status : Status

-- The status of a Project, an Environment or a Segment, and the part that the others share with it.
pub record Status : Type 0 where
  pub conditions : List Condition
  pub observed_generation : ℕ
  pub last_sync_time : Option ℕ

pub record FlagStatus : Type 0 where
  pub common : Status
  pub last_published_version : ℕ

pub record FlagBindingStatus : Type 0 where
  pub common : Status
  pub published_versions : StringMap ℕ

pub record FlagSnapshotStatus : Type 0 where
  pub common : Status
  pub compiled_version : ℕ
  pub flag_count : ℕ

-- `Get` of the resource.
pub data Fetched (A : Type 0) : Type 0 where
  missing : Fetched A
  unavailable : String → Fetched A
  fetched : A → Fetched A

-- What the cluster does in a pass: the time, and the errors of `Update` and of `Status().Update`.
pub record Cluster : Type 0 where
  pub now : ℕ
  pub update_error : Option String
  pub status_error : Option String

-- controllerutil's functions on finalizers.
pub record Finalizers : Type 0 where
  pub contains : String → List String → Bool
  pub add : String → List String → List String
  pub remove : String → List String → List String

-- The texts of errors and messages.
pub record Texts : Type 0 where
  pub render : Code → String → String
  pub policy : PolicyError → String
  pub flag_missing : String
  pub published : ℕ → String

pub data Returned : Type 0 where
  from_cluster : String → Returned
  from_upstream : Upstream → Returned

pub record Pass (A : Type 0) : Type 0 where
  pub requeue_after : ℕ
  pub returned : Option Returned
  pub updates : Option A
  pub reports : Option A

-- An error of the status update does not hide one from upstream.
abbrev pub first_error : Option Upstream → Option String → Option Returned
first_error (some u) e = some (from_upstream u)
first_error none none = none
first_error none (some e) = some (from_cluster e)

module _ {A : Type 0} where
  abbrev pub idle : Pass A
  idle = record { requeue_after = 0; returned = none; updates = none; reports = none }

  abbrev pub unfetched : String → Pass A
  unfetched e = record idle { returned = some (from_cluster e) }

  -- An `Update`, with the requeue that follows it.
  abbrev pub updating : Cluster → ℕ → A → Pass A
  updating c requeue x = elim c.update_error [
    | none ↦ record { requeue_after = requeue; returned = none; updates = some x; reports = none }
    | some e ↦ record {
      requeue_after = 0;
      returned = some (from_cluster e);
      updates = some x;
      reports = none;
    }
  ]

  -- The end of a pass that synced.
  abbrev pub reporting : Texts → Cluster → Option Upstream → A → Pass A
  reporting t c e x =
      let h = translate_error t.render e in
      record {
        requeue_after = h.requeue_after;
        returned = first_error h.returned c.status_error;
        updates = none;
        reports = some x;
      }

abbrev pub is_synced : Texts → Option Upstream → Bool
is_synced t e = (translate_error t.render e).condition.status == "True"

-- The conditions, and after a success the generation and the time.
unfoldable pub settle : Texts → Cluster → ℕ → Option Upstream → Status → Status
unfolding report translate_error
settle t c generation e st =
    let conditions = report t.render c.now st.conditions e in
    if is_synced t e
    then record {
      conditions = conditions;
      observed_generation = generation;
      last_sync_time = some c.now;
    }
    else record st { conditions = conditions }

abbrev pub error_of : Check Upstream → Option Upstream
error_of (ok u) = none
error_of (err e) = some e
