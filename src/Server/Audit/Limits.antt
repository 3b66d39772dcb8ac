-- ===== src/Server/Audit/Limits.antt =====
-- The limit of a listing of audit events.
use false_flag_demo.Base.{
  ℕ, zero, suc, ◌<◌, String, ◌≡◌, ◌≢◌, ◌↔◌, refl, some, List, [], ◌∷◌, arith, length, ltb, ltb→lt,
  Bool-cases, inl, inr, Option, take, ◌&&◌, order_by, select,
}
use false_flag_demo.Base.Int.{ℤ, pos, negsuc}
use false_flag_demo.Base.Result.{Result, ok, err, ◌>>=◌, ok-injective}
use false_flag_demo.Server.{
  Connection, Refusal, panicked, status, Reply, require_store, not_found_or_error,
  or_internal_error,
}
use false_flag_demo.Server.Audit.{
  CursorCodec, AuditQuery, AuditEventList, get_elem?, page, read_cursor, audit_params,
  handle_list_audit_events, handle_list_audit_events_on, succ_int32,
}
use false_flag_demo.Store.{Uuid, Time, Db, Project, AuditEvent, StoreError}
use false_flag_demo.Store.Lookups.{get_project_by_slug, list_audit_events}
use false_flag_demo.Store.Postgres.Lookups as Postgres
use false_flag_demo.Store.Selects.{limit_rows, is_listed, behind_cursor, event_before}

get_elem?-eq-some :
    (n : ℕ) (es : List AuditEvent) → n < length es → (e : AuditEvent) × (get_elem? n es ≡ some e)
unfolding get_elem?
get_elem?-eq-some n [] h = absurd (omega arith)
get_elem?-eq-some zero (e ∷ es) h = (e, refl)
get_elem?-eq-some (suc n) (e ∷ es) h = get_elem?-eq-some n es (omega arith)

-- A limit that the openapi document excludes, where it does harm.
abbrev pub IsHarmful : ℤ → List AuditEvent → Type 0
IsHarmful (negsuc n) rows = Unit
IsHarmful (pos zero) rows = rows ≢ []
IsHarmful (pos (suc n)) rows = ⊥

page-panics_iff :
    (c : CursorCodec) (limit : ℤ) (rows : List AuditEvent)
    → (page c limit rows ≡ err panicked) ↔ IsHarmful limit rows
unfolding page
page-panics_iff c (negsuc n) rows = (λ e. tt, λ h. refl)
page-panics_iff c (pos zero) [] = (λ e. cc, λ h. absurd (h refl))
page-panics_iff c (pos zero) (e ∷ rows) = (λ p q. cc, λ h. refl)
page-panics_iff c (pos (suc n)) rows = elim (Bool-cases (ltb (suc n) (length rows))) [
  | inl more ↦
      let long = ltb→lt (suc n) (length rows) more in
      let (e, found) = get_elem?-eq-some n rows (omega arith) in
      rw more (rw found (λ p. cc, λ h. absurd h))
  | inr few ↦ rw few (λ p. cc, λ h. absurd h)
]

replied-eq-err :
    (r : Result Refusal AuditEventList) (e : Refusal)
    → (◌≡◌ {A = Reply AuditEventList} (r >>= λ body. ok (200, body)) (err e)) ↔ (r ≡ err e)
replied-eq-err (ok body) e = (λ h. cc, λ h. cc)
replied-eq-err (err x) e = (λ h. cc, λ h. cc)

-- The limits that Postgres takes for the statement, which asks for one row more.
abbrev pub IsAccepted : ℤ → Type 0
IsAccepted (pos n) = Unit
IsAccepted (negsuc zero) = Unit
IsAccepted (negsuc (suc n)) = ⊥

-- The rows that the two engines give for a limit, one more being asked for.
limit_rows_alike :
    (limit : ℤ) (es : List AuditEvent)
    → ((rows : List AuditEvent) × (Postgres.limit_rows (succ_int32 limit) es ≡ ok rows)
        × IsHarmful limit rows)
      ↔ (IsHarmful limit (limit_rows (succ_int32 limit) es) × IsAccepted limit)
unfolding Postgres.limit_rows
limit_rows_alike (negsuc zero) es = (λ h. (tt, tt), λ h. (take 0 es, refl, tt))
limit_rows_alike (negsuc (suc n)) es = (λ (rows, e, h). cc, λ (h, below). absurd below)
limit_rows_alike (pos zero) es =
    (λ (rows, e, h). (rw (ok-injective e) h, tt), λ (h, taken). (take 1 es, refl, h))
limit_rows_alike (pos (suc n)) es = (λ (rows, e, h). absurd h, λ (h, taken). absurd h)

-- The handler from the rows on.
abbrev answered : CursorCodec → ℤ → Result StoreError (List AuditEvent) → Reply AuditEventList
answered c limit r = or_internal_error r >>= λ rows. page c limit rows >>= λ body. ok (200, body)

answered-panics_iff :
    (c : CursorCodec) (limit : ℤ) (r : Result StoreError (List AuditEvent))
    → (answered c limit r ≡ err panicked)
      ↔ ((rows : List AuditEvent) × (r ≡ ok rows) × IsHarmful limit rows)
answered-panics_iff c limit (err e) = (λ h. cc, λ (rows, h, harm). cc)
answered-panics_iff c limit (ok rows) =
    let (forth, back) = replied-eq-err (page c limit rows) panicked in
    let (harm, panic) = page-panics_iff c limit rows in
    (
      λ e. (rows, refl, harm (forth e)),
      λ (others, same, h). back (panic (rw (ok-injective same) h)),
    )

module _ (c : CursorCodec) (conn : Connection) (db : Db) (proj : Project) where
  -- The page of a project that is there, from a cursor that can be read on. On SQLite it panics exactly
  -- for a negative limit, and for the limit 0 if there is any event to show. On Postgres it panics
  -- exactly for the limit −1, and for the limit 0 if there is any event to show; a smaller limit is
  -- answered with 500.
  pub handle_list_audit_events-panics_iff :
      (slug : String) (q : AuditQuery) (limit : ℤ) (cursor : Option Time × Uuid) (n : ℕ)
      → conn.reading ≡ ok db
      → get_project_by_slug slug db ≡ ok proj
      → read_cursor c q.cursor ≡ ok cursor
      → let asked = record q { limit = some limit } in
        let rows = list_audit_events (audit_params proj.id asked limit cursor.0 cursor.1) db in
        ((handle_list_audit_events c (some conn) slug asked ≡ err panicked) ↔ IsHarmful limit rows)
        × ((handle_list_audit_events_on Postgres.list_audit_events c (some conn) slug asked
              ≡ err panicked)
            ↔ (IsHarmful limit rows × IsAccepted limit))
        × (handle_list_audit_events_on Postgres.list_audit_events c
              (some conn)
              slug
              (record q { limit = some (negsuc (suc n)) })
            ≡ err (status 500))
  unfolding handle_list_audit_events handle_list_audit_events_on require_store not_found_or_error
      audit_params list_audit_events Postgres.list_audit_events Postgres.limit_rows
  handle_list_audit_events-panics_iff slug q limit cursor n reads known there =
      let p = audit_params proj.id (record q { limit = some limit }) limit cursor.0 cursor.1 in
      let es =
        order_by event_before
          (select (λ e. is_listed p e && behind_cursor cursor.0 cursor.1 e) db.audit_events) in
      let rows = limit_rows (succ_int32 limit) es in
      let (forth, back) = answered-panics_iff c limit (ok rows) in
      let (forth', back') =
        answered-panics_iff c limit (Postgres.limit_rows (succ_int32 limit) es) in
      let (to, from) = limit_rows_alike limit es in
      rw reads (
        rw (known, there)
          (
            (
              λ e. (let (others, same, h) = forth e in rw (ok-injective same) h),
              λ h. back (rows, refl, h),
            ),
            (λ e. to (forth' e), λ h. back' (from h)),
            refl,
          ))
