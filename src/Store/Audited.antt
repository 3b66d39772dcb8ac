-- ===== src/Store/Audited.antt =====
-- `WithAudit`: a mutation and its audit event, together.
use false_flag_demo.Base.{ℕ, false, ◌≡◌, ◌∙◌, refl, ap, ◌∷◌, arith, inr}
use false_flag_demo.Base.Result.{ok, err, >>=-eq-ok, ok-injective}
use false_flag_demo.Store.{AuditEvent, AppendAuditParams, Db, Fresh, StoreError}
use false_flag_demo.Store.Queries.{Sql, audit_event_row}
use false_flag_demo.Store.Reachable.{Step, audit_appended, Reach, next, empty_db}
use false_flag_demo.Store.Retries.{with_immediate_tx-CommitsIn, with_immediate_tx-reaches}
use false_flag_demo.Store.Tx.{
  Attempt, append_audit, audit_insert_params, audited, with_audit, run_once_tx, is_sqlite_retry,
}
use false_flag_demo.Store.Written.{append_audit-eq-ok}

module _ {A : Type 0} where
  audited-eq-ok :
      (event : AppendAuditParams) (body : Fresh → Sql A) (a : Attempt) (db db' : Db) (x : A)
      → audited event body a db ≡ ok (x, db')
      → (written : Db) × (row : AuditEvent) × (body a.fresh db ≡ ok (x, written))
        × (append_audit a.audit_fresh event written ≡ ok (row, db'))
  unfolding audited
  audited-eq-ok event body a db db' x e =
      let (first, did, e₁) = >>=-eq-ok (body a.fresh db) _ e in
      let (last, appended, e₂) = >>=-eq-ok (append_audit a.audit_fresh event first.1) _ e₁ in
      let same = ok-injective e₂ in
      (
        first.1,
        last.0,
        did ∙ ap (λ (y : A). ok (y, first.1)) (ap (λ z. z.0) same),
        appended ∙ ap (λ (y : Db). ok (last.0, y)) (ap (λ z. z.1) same),
      )

  -- What `WithAudit` commits in an attempt: the body's writes, and the one event in front.
  pub record IsAudited (attempts : ℕ → Attempt) (event : AppendAuditParams) (body : Fresh → Sql A)
      (out : A × Db) : Type 0 where
    pub attempt : ℕ
    pub before : Db
    pub written : Db
    pub begun : (attempts attempt).begun ≡ ok before
    pub ran : body (attempts attempt).fresh before ≡ ok (out.0, written)
    pub appended :
        (row : AuditEvent) × (append_audit (attempts attempt).audit_fresh event written
          ≡ ok (row, out.1))
    pub after : out.1 ≡ record written {
      audit_events =
          audit_event_row (attempts attempt).audit_fresh (audit_insert_params event)
          ∷ written.audit_events;
    }

  -- What is committed under an audit event is what the body wrote to the tables as one attempt found
  -- them, and exactly one event more, the given one.
  pub with_audit-IsAudited :
      (attempts : ℕ → Attempt) (event : AppendAuditParams) (body : Fresh → Sql A) (out : A × Db)
      → with_audit attempts event body ≡ ok out
      → IsAudited attempts event body out
  unfolding with_audit
  with_audit-IsAudited attempts event body out e =
      let (i, (db, begun, ran)) = with_immediate_tx-CommitsIn attempts (audited event body) out e in
      let (written, row, did, appended) =
        audited-eq-ok event body (attempts i) db out.1 out.0 ran in
      record {
        attempt = i;
        before = db;
        written = written;
        begun = begun;
        ran = did;
        appended = (row, appended);
        after = (append_audit-eq-ok (attempts i).audit_fresh written event row out.1 appended).1;
      }

  -- A body that is one statement leads from states that were reached to such states.
  pub with_audit-Reach :
      (attempts : ℕ → Attempt) (event : AppendAuditParams) (body : Fresh → Sql A) (out : A × Db)
      → ((f : Fresh) (db db' : Db) (x : A) → body f db ≡ ok (x, db') → Step db db')
      → ((i : ℕ) (db : Db) → (attempts i).begun ≡ ok db → Reach empty_db db)
      → with_audit attempts event body ≡ ok out
      → Reach empty_db out.1
  with_audit-Reach attempts event body out steps reached e =
      let a = with_audit-IsAudited attempts event body out e in
      let start = reached a.attempt a.before a.begun in
      let (row, appended) = a.appended in
      next (next start (steps _ a.before a.written out.0 a.ran))
        (audit_appended (attempts a.attempt).audit_fresh event row appended)

  -- An error of the body that is not tried again is that of the whole, at the first attempt.
  pub with_audit_fails :
      (attempts : ℕ → Attempt) (event : AppendAuditParams) (body : Fresh → Sql A) (db : Db)
      (e : StoreError)
      → (attempts 0).begun ≡ ok db
      → body (attempts 0).fresh db ≡ err e
      → is_sqlite_retry e ≡ false
      → with_audit attempts event body ≡ err e
  unfolding with_audit
  with_audit_fails attempts event body db e begun failed final =
      let once : run_once_tx (attempts 0) (audited event body) ≡ err e =
        unfold run_once_tx audited in rw begun (rw failed refl) in
      with_immediate_tx-reaches attempts (audited event body) 0 (omega arith)
        (λ i h. absurd (omega arith)) (inr (λ e' h. ground (arith, once)))
      ∙ once
