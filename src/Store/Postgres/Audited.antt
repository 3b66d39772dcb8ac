-- ===== src/Store/Postgres/Audited.antt =====
-- `WithAudit` on Postgres: a mutation and its audit event, together, and the retries after
-- a serialization failure.
use false_flag_demo.Base.{ℕ, ◌≤◌, ◌<◌, Option, ◌≡◌, ◌∙◌, ap, ◌⊎◌, arith}
use false_flag_demo.Base.Result.{ok, >>=-eq-ok, ok-injective}
use false_flag_demo.Store.{AuditEvent, AppendAuditParams, Db, Fresh}
use false_flag_demo.Store.Queries.{Sql}
use false_flag_demo.Store.Postgres.Reached.{PgStep, PgReach, pg_next}
use false_flag_demo.Store.Postgres.Tx.{append_audit, audited, with_audit, is_serialization_failure}
use false_flag_demo.Store.Reachable.{empty_db}
use false_flag_demo.Store.Retries.{IsBusy, IsFinal, retry_from-eq-ok, retry_reaches}
use false_flag_demo.Store.Tx.{Attempt, run_once_tx}
use false_flag_demo.Values.{RawMessage}

module _ {A : Type 0} (jsonb : RawMessage → Option RawMessage) where
  audited-eq-ok :
      (event : AppendAuditParams) (body : Fresh → Sql A) (a : Attempt) (db : Db) (out : A × Db)
      → audited jsonb event body a db ≡ ok out
      → (written : Db) × (row : AuditEvent) × (body a.fresh db ≡ ok (out.0, written))
        × (append_audit jsonb a.audit_fresh event written ≡ ok (row, out.1))
  unfolding audited
  audited-eq-ok event body a db out e =
      let (first, did, e₁) = >>=-eq-ok (body a.fresh db) _ e in
      let (last, appended, e₂) = >>=-eq-ok (append_audit jsonb a.audit_fresh event first.1) _ e₁ in
      let same = ok-injective e₂ in
      (
        first.1,
        last.0,
        did ∙ ap (λ (y : A). ok (y, first.1)) (ap (λ z. z.0) same),
        appended ∙ ap (λ (y : Db). ok (last.0, y)) (ap (λ z. z.1) same),
      )

  -- What is committed under an audit event on Postgres, where every attempt begins in a reached state
  -- and the body is one statement, is a reached state, and the last step to it appends the event.
  pub with_audit-PgReach :
      (attempts : ℕ → Attempt) (event : AppendAuditParams) (body : Fresh → Sql A) (out : A × Db)
      → ((f : Fresh) (db db' : Db) (x : A) → body f db ≡ ok (x, db') → PgStep jsonb db db')
      → ((i : ℕ) (db : Db) → (attempts i).begun ≡ ok db → PgReach jsonb empty_db db)
      → with_audit jsonb attempts event body ≡ ok out
      → (mutated : Db) × PgReach jsonb empty_db mutated
        × (f : Fresh) × (row : AuditEvent) × (append_audit jsonb f event mutated ≡ ok (row, out.1))
  unfolding with_audit
  with_audit-PgReach attempts event body out steps reached e =
      let (i, (db, begun, ran)) =
        retry_from-eq-ok is_serialization_failure attempts (audited jsonb event body) 0 8 out e in
      let (mutated, row, did, appended) = audited-eq-ok event body (attempts i) db out ran in
      (
        mutated,
        pg_next (reached i db begun) (steps (attempts i).fresh db mutated out.0 did),
        (attempts i).audit_fresh,
        row,
        appended,
      )

  -- Serialization failures of the first `k` attempts, at most eight, do not show: the outcome is that of
  -- the next attempt, if that one is not tried again or is the ninth.
  pub with_audit-reaches :
      (attempts : ℕ → Attempt) (event : AppendAuditParams) (body : Fresh → Sql A) (k : ℕ)
      → k ≤ 8
      → ((i : ℕ) → i < k → IsBusy is_serialization_failure (audited jsonb event body) (attempts i))
      → (k ≡ 8) ⊎ IsFinal is_serialization_failure (audited jsonb event body) (attempts k)
      → with_audit jsonb attempts event body ≡ run_once_tx (attempts k) (audited jsonb event body)
  unfolding with_audit
  with_audit-reaches attempts event body k bound busy final =
      retry_reaches is_serialization_failure attempts (audited jsonb event body) 0 k k 8
        (omega arith) bound (λ i low high. busy i high) final
