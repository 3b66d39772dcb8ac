-- ===== src/Server/Audit/Walk.antt =====
-- Following the cursors of a listing of audit events to its end.
use false_flag_demo.Base.{
  ℕ, zero, suc, ◌<◌, String, true, false, ◌≡◌, ◌≢◌, refl, sym, ap, ◌∙◌, Option, none, some, List,
  ◌++◌, arith, ltb, length, select, order_by, take, inl, inr, eq_iff, lt→ltb,
}
use false_flag_demo.Base.Int.{pos}
use false_flag_demo.Base.Result.{Result, ok, err, ◌>>=◌}
use false_flag_demo.Server.{
  Connection, Refusal, out_of_fuel, Reply, require_store, not_found_or_error,
}
use false_flag_demo.Server.Audit.{
  CursorCodec, AuditQuery, AuditEventList, get_elem?, page, read_cursor, audit_params,
  handle_list_audit_events,
}
use false_flag_demo.Server.Audit.Pages.{
  IsOrdered, order_by-IsOrdered, select-IsDistinct, select_absorb,
}
use false_flag_demo.Store.{Uuid, Time, Db, Project, AuditEvent}
use false_flag_demo.Store.Lookups.{get_project_by_slug, list_audit_events}
use false_flag_demo.Store.Reachable.{IsDistinct, same_event_id}
use false_flag_demo.Store.Selects.{event_before, behind_cursor, is_listed}
use false_flag_demo.Server.Audit.Cuts.{
  drop, select-All, All-get_elem?, select_behind, page_split, All-true, behind_trans, All-selected,
  select-IsOrdered, behind_rows,
}

module _ (c : CursorCodec) (conn : Connection) (db : Db) (proj : Project) (slug : String)
    (q : AuditQuery) (n : ℕ) where
  -- All events that the query is for, in order.
  abbrev pub all_listed : List AuditEvent
  all_listed =
      order_by event_before
        (select (is_listed (audit_params proj.id q (pos (suc n)) none 0)) db.audit_events)

  -- The reply to the query with a cursor, for pages of `suc n`.
  abbrev pub fetch : String → Reply AuditEventList
  fetch cursor =
      handle_list_audit_events c (some conn) slug
        (record q { limit = some (pos (suc n)); cursor = cursor })

  abbrev continue :
      (String → Result Refusal (List AuditEvent))
      → ℕ × AuditEventList
      → Result Refusal (List AuditEvent)
  continue again (code, body) = elim body.next_cursor [
    | none ↦ ok body.items
    | some cursor ↦ again cursor >>= λ rest. ok (body.items ++ rest)
  ]

  -- A client that follows the cursors, up to `fuel` pages, and collects the items.
  unfoldable pub walk : ℕ → String → Result Refusal (List AuditEvent)
  walk zero cursor = err out_of_fuel
  walk (suc fuel) cursor = fetch cursor >>= continue (walk fuel)

  -- The rows behind a cursor.
  abbrev behind : Option Time → Uuid → List AuditEvent
  behind ts id = select (behind_cursor ts id) all_listed

  rows_behind :
      (ts : Option Time) (id : Uuid) (cursor : String)
      → IsDistinct same_event_id db.audit_events
      → suc n < 2147483647
      → list_audit_events
          (audit_params proj.id
            (record q { limit = some (pos (suc n)); cursor = cursor })
            (pos (suc n))
            ts
            id)
          db
        ≡ take (suc (suc n)) (behind ts id)
  unfolding list_audit_events audit_params is_listed
  rows_behind ts id cursor d bound =
      let p = audit_params proj.id q (pos (suc n)) none 0 in
      rw (lt→ltb (suc n) 2147483647 bound) (
        ap (take (suc (suc n))) (behind_rows (is_listed p) (behind_cursor ts id) db.audit_events d))

  listed-IsOrdered : IsDistinct same_event_id db.audit_events → IsOrdered all_listed
  listed-IsOrdered d = order_by-IsOrdered _ (select-IsDistinct _ db.audit_events d)

  -- Where a cursor stands: before all rows, or behind the event it names.
  abbrev Stands : String → Option Time → Uuid → Type 0
  Stands cursor ts id = read_cursor c cursor ≡ ok (ts, id)

  fetch-page :
      (cursor : String) (ts : Option Time) (id : Uuid)
      → conn.reading ≡ ok db
      → get_project_by_slug slug db ≡ ok proj
      → IsDistinct same_event_id db.audit_events
      → suc n < 2147483647
      → Stands cursor ts id
      → fetch cursor
        ≡ (page c (pos (suc n)) (take (suc (suc n)) (behind ts id)) >>= λ body. ok (200, body))
  unfolding handle_list_audit_events require_store not_found_or_error
  fetch-page cursor ts id reads known d bound stands = rw reads (
      rw known (
        rw stands (
          ap (λ (rows : List AuditEvent). page c (pos (suc n)) rows >>= λ body. ok (200, body))
            (rows_behind ts id cursor d bound))))

  -- What is behind an event behind the cursor is the rest of the rows after it.
  behind_next :
      (ts : Option Time) (id : Uuid) (e : AuditEvent)
      → IsDistinct same_event_id db.audit_events
      → get_elem? n (behind ts id) ≡ some e
      → behind (some e.created_at) e.id ≡ drop (suc n) (behind ts id)
  behind_next ts id e d h =
      let ordered = select-IsOrdered (behind_cursor ts id) all_listed (listed-IsOrdered d) in
      let there =
        All-get_elem? (λ f. behind_cursor ts id f ≡ true) n (behind ts id) e h
          (All-selected (behind_cursor ts id) all_listed) in
      sym (
        select_absorb (behind_cursor ts id) (event_before e) all_listed
          (λ f later. behind_trans ts id e f there later))
      ∙ select_behind n (behind ts id) e ordered h

  -- The position behind an event, by the cursor that names it.
  next-Stands :
      (e : AuditEvent)
      → c.encode e.created_at e.id ≢ ""
      → c.decode (c.encode e.created_at e.id) ≡ some (some e.created_at, e.id)
      → Stands (c.encode e.created_at e.id) (some e.created_at) e.id
  unfolding read_cursor
  next-Stands e nonempty decoded = ground (arith, decoded, eq_iff (c.encode e.created_at e.id) "")

  page_last :
      (rows : List AuditEvent)
      → ltb (suc n) (length (take (suc (suc n)) rows)) ≡ false
      → take (suc n) (take (suc (suc n)) rows) ≡ rows
      → page c (pos (suc n)) (take (suc (suc n)) rows)
        ≡ ok (record { items = rows; next_cursor = none })
  unfolding page
  page_last rows few all = rw few (rw all refl)

  page_more :
      (rows : List AuditEvent) (e : AuditEvent)
      → ltb (suc n) (length (take (suc (suc n)) rows)) ≡ true
      → get_elem? n (take (suc (suc n)) rows) ≡ some e
      → page c (pos (suc n)) (take (suc (suc n)) rows)
        ≡ ok (record {
          items = take (suc n) (take (suc (suc n)) rows);
          next_cursor = some (c.encode e.created_at e.id);
        })
  unfolding page
  page_more rows e more shown = rw more (rw shown refl)

  walk-behind :
      (fuel : ℕ) (cursor : String) (ts : Option Time) (id : Uuid)
      → conn.reading ≡ ok db
      → get_project_by_slug slug db ≡ ok proj
      → IsDistinct same_event_id db.audit_events
      → suc n < 2147483647
      → ((t : Time) (i : Uuid) → (c.encode t i ≢ "") × (c.decode (c.encode t i) ≡ some (some t, i)))
      → Stands cursor ts id
      → length (behind ts id) < fuel
      → walk fuel cursor ≡ ok (behind ts id)
  unfolding walk
  walk-behind zero cursor ts id reads known d bound faithful stands enough = absurd (omega arith)
  walk-behind (suc fuel) cursor ts id reads known d bound faithful stands enough =
      let rows = behind ts id in
      let got = fetch-page cursor ts id reads known d bound stands in
      elim (page_split n rows) [
        | inl (few, all) ↦ rw got (rw (page_last rows few all) refl)
        | inr (e, more, shown, there, split, less) ↦
            let (nonempty, decoded) = faithful e.created_at e.id in
            let next = behind_next ts id e d there in
            let rest =
              walk-behind fuel (c.encode e.created_at e.id) (some e.created_at) e.id reads known d
                bound faithful (next-Stands e nonempty decoded)
                (omega (arith, ap (λ (l : List AuditEvent). length l) next)) in
            rw got (
              rw (page_more rows e more shown) (
                rw rest (
                  ap (λ (l : List AuditEvent). ok l)
                    (ap (λ (l : List AuditEvent). take (suc n) (take (suc (suc n)) rows) ++ l) next
                      ∙ split))))
      ]

  -- A client that follows the cursors of a query, in pages of any size from 1 on that an int32 can
  -- exceed by one, comes to an end, after no more pages than there are events and one, and has then
  -- got every event that the query is for, each once, newest first; where nothing is written
  -- meanwhile, the events have distinct ids and the texts of cursors decode to what they encode.
  pub walk-eq-all_listed :
      conn.reading ≡ ok db
      → get_project_by_slug slug db ≡ ok proj
      → IsDistinct same_event_id db.audit_events
      → suc n < 2147483647
      → ((t : Time) (i : Uuid) → (c.encode t i ≢ "") × (c.decode (c.encode t i) ≡ some (some t, i)))
      → walk (suc (length all_listed)) "" ≡ ok all_listed
  unfolding read_cursor
  walk-eq-all_listed reads known d bound faithful =
      let all = select-All (λ e. true) all_listed (All-true all_listed) in
      walk-behind (suc (length all_listed)) "" none 0 reads known d bound faithful refl
        (omega (arith, ap (λ (l : List AuditEvent). length l) all))
      ∙ ap (λ (l : List AuditEvent). ok l) all
