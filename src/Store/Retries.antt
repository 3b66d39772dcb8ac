-- ===== src/Store/Retries.antt =====
-- The retries of a transaction: `withImmediateTx`.
use false_flag_demo.Base.{
  ℕ, zero, suc, Bool, ◌+◌, ◌≤◌, ◌<◌, true, false, ◌≡◌, refl, ◌∙◌, ◌⊎◌, inl, inr, arith,
}
use false_flag_demo.Base.Result.{Result, ok, err, >>=-eq-ok}
use false_flag_demo.Store.{Db, StoreError}
use false_flag_demo.Store.Queries.{Sql}
use false_flag_demo.Store.Tx.{
  Attempt, is_sqlite_retry, run_once_tx, or_retry, retry_from, with_immediate_tx,
}

module _ {A : Type 0} where
  -- An attempt that commits.
  abbrev pub CommitsIn : (Attempt → Sql A) → (A × Db) → Attempt → Type 0
  CommitsIn body out a = (db : Db) × (a.begun ≡ ok db) × (body a db ≡ ok out)

  run_once_tx-CommitsIn :
      (a : Attempt) (body : Attempt → Sql A) (out : A × Db)
      → run_once_tx a body ≡ ok out
      → CommitsIn body out a
  unfolding run_once_tx
  run_once_tx-CommitsIn a body out e =
      let (db, begun, e₁) = >>=-eq-ok a.begun _ e in
      let (done, ran, e₂) = >>=-eq-ok (body a db) _ e₁ in
      let (u, committed, e₃) = >>=-eq-ok a.committed _ e₂ in (db, begun, ran ∙ e₃)

-- The loop, with any test for what is tried again.
module _ {A : Type 0} (is_retry : StoreError → Bool) where
  -- An attempt that fails busy, and is waited after.
  abbrev pub IsBusy : (Attempt → Sql A) → Attempt → Type 0
  IsBusy body a =
      ((e : StoreError) × (run_once_tx a body ≡ err e) × (is_retry e ≡ true)) × (a.waited ≡ ok tt)

  -- An attempt whose outcome is not tried again.
  abbrev pub IsFinal : (Attempt → Sql A) → Attempt → Type 0
  IsFinal body a = (e : StoreError) → run_once_tx a body ≡ err e → is_retry e ≡ false

  retry_after_busy :
      (attempts : ℕ → Attempt) (body : Attempt → Sql A) (n left : ℕ)
      → IsBusy body (attempts n)
      → retry_from is_retry attempts body n (suc left)
        ≡ retry_from is_retry attempts body (suc n) left
  unfolding retry_from
  retry_after_busy attempts body n left ((e, failed, busy), waited) = rw (failed, waited, busy) refl

  or_retry-IsFinal :
      (a : Attempt) (body : Attempt → Sql A) (again r : Result StoreError (A × Db))
      → run_once_tx a body ≡ r
      → IsFinal body a
      → or_retry is_retry a.waited again r ≡ r
  or_retry-IsFinal a body again (ok out) e final = refl
  or_retry-IsFinal a body again (err x) e final = rw (final x e) refl

  retry_final :
      (attempts : ℕ → Attempt) (body : Attempt → Sql A) (n left : ℕ)
      → IsFinal body (attempts n)
      → retry_from is_retry attempts body n left ≡ run_once_tx (attempts n) body
  unfolding retry_from
  retry_final attempts body n zero final = refl
  retry_final attempts body n (suc left) final =
      or_retry-IsFinal (attempts n) body _ (run_once_tx (attempts n) body) refl final

  retry_last :
      (attempts : ℕ → Attempt) (body : Attempt → Sql A) (n left : ℕ)
      → (left ≡ 0) ⊎ IsFinal body (attempts n)
      → retry_from is_retry attempts body n left ≡ run_once_tx (attempts n) body
  unfolding retry_from
  retry_last attempts body n left (inl e) = rw e refl
  retry_last attempts body n left (inr final) = retry_final attempts body n left final

  pub retry_reaches :
      (attempts : ℕ → Attempt) (body : Attempt → Sql A) (n k last left : ℕ)
      → last ≡ n + k
      → k ≤ left
      → ((i : ℕ) → n ≤ i → i < last → IsBusy body (attempts i))
      → (k ≡ left) ⊎ IsFinal body (attempts last)
      → retry_from is_retry attempts body n left ≡ run_once_tx (attempts last) body
  retry_reaches attempts body n zero last left e bound busy (inl same) =
      let here : last ≡ n = omega arith in
      rw here (retry_last attempts body n left (inl (omega arith)))
  retry_reaches attempts body n zero last left e bound busy (inr final) =
      let here : last ≡ n = omega arith in
      rw here (retry_last attempts body n left (inr (rw here at final)))
  retry_reaches attempts body n (suc k) last zero e bound busy final = absurd (omega arith)
  retry_reaches attempts body n (suc k) last (suc left) e bound busy final =
      retry_after_busy attempts body n left (busy n (omega arith) (omega arith))
      ∙ retry_reaches attempts body (suc n) k last left (omega arith) (omega arith)
          (λ i low high. busy i (omega arith) high)
          (elim final [ inl same ↦ inl (omega arith) | inr f ↦ inr f ])

  pub retry_from-agrees :
      (at at' : ℕ → Attempt) (body : Attempt → Sql A) (n left : ℕ)
      → ((i : ℕ) → i ≤ n + left → at i ≡ at' i)
      → retry_from is_retry at body n left ≡ retry_from is_retry at' body n left
  unfolding retry_from
  retry_from-agrees at at' body n zero same = rw (same n (omega arith)) refl
  retry_from-agrees at at' body n (suc left) same =
      let ih = retry_from-agrees at at' body (suc n) left (λ i h. same i (omega arith)) in
      rw (same n (omega arith)) (rw ih refl)

  or_retry-eq-ok :
      (a : Attempt) (again r : Result StoreError (A × Db)) (out : A × Db)
      → or_retry is_retry a.waited again r ≡ ok out
      → (r ≡ ok out) ⊎ (again ≡ ok out)
  or_retry-eq-ok a again (ok x) out e = inl e
  or_retry-eq-ok a again (err x) out e = inr (ground arith)

  pub retry_from-eq-ok :
      (attempts : ℕ → Attempt) (body : Attempt → Sql A) (n left : ℕ) (out : A × Db)
      → retry_from is_retry attempts body n left ≡ ok out
      → (i : ℕ) × CommitsIn body out (attempts i)
  unfolding retry_from
  retry_from-eq-ok attempts body n zero out e = (n, run_once_tx-CommitsIn (attempts n) body out e)
  retry_from-eq-ok attempts body n (suc left) out e =
      elim (or_retry-eq-ok (attempts n) _ (run_once_tx (attempts n) body) out e) [
        | inl now ↦ (n, run_once_tx-CommitsIn (attempts n) body out now)
        | inr again ↦ retry_from-eq-ok attempts body (suc n) left out again
      ]

module _ {A : Type 0} where
  -- A transaction that is busy k times, at most eight, and is not cancelled, ends as its next attempt
  -- does, if that one is not busy or is the ninth: where it commits, the transaction is committed.
  pub with_immediate_tx-reaches :
      (attempts : ℕ → Attempt) (body : Attempt → Sql A) (k : ℕ)
      → k ≤ 8
      → ((i : ℕ) → i < k → IsBusy is_sqlite_retry body (attempts i))
      → (k ≡ 8) ⊎ IsFinal is_sqlite_retry body (attempts k)
      → with_immediate_tx attempts body ≡ run_once_tx (attempts k) body
  unfolding with_immediate_tx
  with_immediate_tx-reaches attempts body k bound busy final =
      retry_reaches is_sqlite_retry attempts body 0 k k 8 (omega arith) bound
        (λ i low high. busy i high) final

  -- A transaction makes nine attempts at most: its outcome depends on no further one.
  pub with_immediate_tx-agrees :
      (attempts others : ℕ → Attempt) (body : Attempt → Sql A)
      → ((i : ℕ) → i < 9 → attempts i ≡ others i)
      → with_immediate_tx attempts body ≡ with_immediate_tx others body
  unfolding with_immediate_tx
  with_immediate_tx-agrees attempts others body same =
      retry_from-agrees is_sqlite_retry attempts others body 0 8 (λ i h. same i (omega arith))

  -- What is committed was run by one attempt, on the tables that it found.
  pub with_immediate_tx-CommitsIn :
      (attempts : ℕ → Attempt) (body : Attempt → Sql A) (out : A × Db)
      → with_immediate_tx attempts body ≡ ok out
      → (i : ℕ) × CommitsIn body out (attempts i)
  unfolding with_immediate_tx
  with_immediate_tx-CommitsIn attempts body out e =
      retry_from-eq-ok is_sqlite_retry attempts body 0 8 out e
