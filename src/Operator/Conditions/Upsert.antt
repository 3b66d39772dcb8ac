-- ===== src/Operator/Conditions/Upsert.antt =====
-- What the operator's conditions say after a report.
use text.Mathlib.Text.{◌==◌}
use false_flag_demo.Base.{
  ℕ, ◌<◌, String, ◌≡◌, ◌≢◌, ◌⊎◌, refl, inl, inr, Option, none, some, List, [], ◌∷◌, arith, eq_iff,
  if◌then◌else◌,
}
use false_flag_demo.Operator.Conditions.{
  Condition, Code, already_exists, failed_precondition, aborted, invalid_argument, not_found,
  other_code, Upstream, connect_error, plain_error, translate_error, set_condition, report,
  synced_true,
}

-- The condition of a kind.
unfoldable pub find_condition : String → List Condition → Option Condition
find_condition kind [] = none
find_condition kind (x ∷ conds) = if x.kind == kind then some x else find_condition kind conds

-- The time of a condition that replaces another: it changes with the status only.
abbrev pub transition_time : ℕ → String → Option Condition → ℕ
transition_time now status none = now
transition_time now status (some old) =
    if old.status == status then old.last_transition_time else now

-- No two conditions have one kind.
abbrev pub HasUniqueKinds : List Condition → Type 0
HasUniqueKinds [] = Unit
HasUniqueKinds (x ∷ conds) = (find_condition x.kind conds ≡ none) × HasUniqueKinds conds

-- The new condition is found under its kind, with the time of the old one if the status is the same;
-- the conditions of the other kinds are as they were.
pub find_condition-set_condition :
    (now : ℕ) (conds : List Condition) (cond : Condition) (kind : String)
    → find_condition kind (set_condition now conds cond) ≡ (
        if cond.kind == kind
        then some (record cond {
          last_transition_time = transition_time now cond.status (find_condition cond.kind conds);
        })
        else find_condition kind conds)
unfolding find_condition set_condition
find_condition-set_condition now [] cond kind = refl
find_condition-set_condition now (x ∷ conds) cond kind = ground (
  arith,
  eq_iff x.kind cond.kind,
  eq_iff x.kind kind,
  eq_iff cond.kind kind,
  find_condition-set_condition now conds cond kind,
)

-- Kinds stay unique.
pub set_condition-HasUniqueKinds :
    (now : ℕ) (conds : List Condition) (cond : Condition)
    → HasUniqueKinds conds
    → HasUniqueKinds (set_condition now conds cond)
unfolding set_condition find_condition
set_condition-HasUniqueKinds now [] cond u = (refl, tt)
set_condition-HasUniqueKinds now (x ∷ conds) cond (fresh, u) = ground (
  arith,
  eq_iff x.kind cond.kind,
  eq_iff cond.kind x.kind,
  find_condition-set_condition now conds cond x.kind,
  set_condition-HasUniqueKinds now conds cond u,
)

-- The errors that the reconcilers do not try again by themselves.
abbrev pub IsFinal : Option Upstream → Type 0
IsFinal e = (text : String) × (e ≡ some (connect_error invalid_argument text))

-- Every outcome of a sync is tried again, by a requeue or by returning the error, but for an invalid
-- argument.
pub translate_error_retries :
    (render : Code → String → String) (e : Option Upstream)
    → IsFinal e
      ⊎ ((0 < (translate_error render e).requeue_after)
          ⊎ ((translate_error render e).returned ≢ none))
unfolding translate_error
translate_error_retries render none = inr (inl (omega arith))
translate_error_retries render (some (connect_error already_exists text)) = inr (inl (omega arith))
translate_error_retries render (some (connect_error failed_precondition text)) =
    inr (inl (omega arith))
translate_error_retries render (some (connect_error aborted text)) = inr (inl (omega arith))
translate_error_retries render (some (connect_error invalid_argument text)) = inl (text, refl)
translate_error_retries render (some (connect_error not_found text)) = inr (inl (omega arith))
translate_error_retries render (some (connect_error (other_code n) text)) = inr (inr (λ x. cc))
translate_error_retries render (some (plain_error text)) = inr (inr (λ x. cc))

abbrev pub status_of : Option Condition → Option String
status_of none = none
status_of (some cond) = some cond.status

-- What a failed sync reports is one condition's change.
abbrev pub IsReported : List Condition → List Condition → Condition → Type 0
IsReported old new cond =
    (status_of (find_condition cond.kind new) ≡ some "False")
    × ((kind : String) → (kind ≡ cond.kind) ⊎ (find_condition kind new ≡ find_condition kind old))

report-success :
    (render : Code → String → String) (now : ℕ) (conds : List Condition) (e : Option Upstream)
    → (translate_error render e).condition ≡ synced_true
    → (status_of (find_condition "Synced" (report render now conds e)) ≡ some "True")
      × (status_of (find_condition "Ready" (report render now conds e)) ≡ some "True")
unfolding report
report-success render now conds e h = rw h (
  rw find_condition-set_condition (rw find_condition-set_condition refl),
  rw find_condition-set_condition refl,
)

report-failure :
    (render : Code → String → String) (now : ℕ) (conds : List Condition) (e : Option Upstream)
    → (translate_error render e).condition.status ≡ "False"
    → IsReported conds (report render now conds e) (translate_error render e).condition
unfolding report
report-failure render now conds e h =
    let cond = (translate_error render e).condition in
    rw h (
      ground (
        arith,
        h,
        eq_iff cond.kind cond.kind,
        find_condition-set_condition now conds cond cond.kind,
      ),
      λ kind.
          ground (arith, eq_iff cond.kind kind, find_condition-set_condition now conds cond kind),
    )

-- Nothing failed, or the API has what was to be created.
abbrev pub HasSucceeded : Option Upstream → Type 0
HasSucceeded e = (e ≡ none) ⊎ ((text : String) × (e ≡ some (connect_error already_exists text)))

condition-cases :
    (render : Code → String → String) (e : Option Upstream)
    → (HasSucceeded e × ((translate_error render e).condition ≡ synced_true))
      ⊎ (¬ HasSucceeded e × ((translate_error render e).condition.status ≡ "False"))
unfolding translate_error
condition-cases render none = inl (inl refl, refl)
condition-cases render (some (connect_error already_exists text)) = inl (inr (text, refl), refl)
condition-cases render (some (connect_error failed_precondition text)) =
    inr (λ h. ground arith, refl)
condition-cases render (some (connect_error aborted text)) = inr (λ h. ground arith, refl)
condition-cases render (some (connect_error invalid_argument text)) = inr (λ h. ground arith, refl)
condition-cases render (some (connect_error not_found text)) = inr (λ h. ground arith, refl)
condition-cases render (some (connect_error (other_code n) text)) = inr (λ h. ground arith, refl)
condition-cases render (some (plain_error text)) = inr (λ h. ground arith, refl)

-- After a sync that succeeded the resource is Synced and Ready, whatever was reported before; after
-- one that failed, the condition of the failure is False and the conditions of the other kinds are
-- as they were.
pub report_lem :
    (render : Code → String → String) (now : ℕ) (conds : List Condition) (e : Option Upstream)
    → (HasSucceeded e
        × (status_of (find_condition "Synced" (report render now conds e)) ≡ some "True")
        × (status_of (find_condition "Ready" (report render now conds e)) ≡ some "True"))
      ⊎ (¬ HasSucceeded e
          × IsReported conds (report render now conds e) (translate_error render e).condition)
report_lem render now conds e = elim (condition-cases render e) [
  | inl (done, same) ↦
      let (synced, ready) = report-success render now conds e same in inl (done, synced, ready)
  | inr (n, failed) ↦ inr (n, report-failure render now conds e failed)
]
