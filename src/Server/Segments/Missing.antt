-- ===== src/Server/Segments/Missing.antt =====
-- An update of a segment that is not there.
use false_flag_demo.Base.{String, false, ◌≡◌, refl, some, none, List, [], ◌∷◌, arith, exists}
use false_flag_demo.Base.Result.{ok, err}
use false_flag_demo.Server.{
  Connection, Json, status, require_store, not_found_or_error, write_store_err,
}
use false_flag_demo.Server.Segments.{
  UpdateSegmentRequest, predicate_bytes, segment_event, handle_update_segment, update_params,
}
use false_flag_demo.Store.{Db, Fresh, Segment, is_conflict, Project, UpdateSegmentParams, no_rows}
use false_flag_demo.Store.Lookups.{get_project_by_slug}
use false_flag_demo.Store.Queries.{is_segment, overwrite, update_segment_row}
use false_flag_demo.Store.Audited.{with_audit_fails}
use false_flag_demo.Store.Tx.{update_segment, is_sqlite_retry, raw_message}
use false_flag_demo.Values.{RawMessage}
use false_flag_demo.Values.Services.{Services}

overwrite_missing :
    (f : Fresh) (p : UpdateSegmentParams) (rows : List Segment)
    → exists (is_segment p.project_id p.key) rows ≡ false
    → (overwrite f p rows).0 ≡ none
unfolding overwrite exists
overwrite_missing f p [] h = refl
overwrite_missing f p (s ∷ rows) h = ground (arith, overwrite_missing f p rows)

update_missing :
    (f : Fresh) (p : UpdateSegmentParams) (db : Db)
    → exists (is_segment p.project_id p.key) db.segments ≡ false
    → update_segment f p db ≡ err no_rows
unfolding update_segment update_segment_row
update_missing f p db h =
    ground
      (arith, overwrite_missing f (record p { predicate = raw_message p.predicate }) db.segments h)

module _ (s : Services) (j : Json) (conn : Connection) (db : Db) (proj : Project) where
  -- An update, with a predicate that is accepted, of a segment that the project does not have is
  -- refused with status 500 (not 404, as `writeStoreErr` means to): the transaction passes
  -- `sql.ErrNoRows` on, which is no `ErrNotFound`.
  pub handle_update_segment_missing :
      (actor slug key : String) (req : UpdateSegmentRequest) (raw : RawMessage) (seen : Db)
      → conn.reading ≡ ok db
      → get_project_by_slug slug db ≡ ok proj
      → predicate_bytes s j req.predicate ≡ ok raw
      → (conn.attempts 0).begun ≡ ok seen
      → exists (is_segment proj.id key) seen.segments ≡ false
      → handle_update_segment s j (some conn) actor slug key (some req) ≡ err (status 500)
  unfolding handle_update_segment require_store not_found_or_error write_store_err is_conflict
      is_sqlite_retry
  handle_update_segment_missing actor slug key req raw seen reads known accepted begun missing =
      let failed =
        with_audit_fails conn.attempts (segment_event j "update_segment" actor proj.id key)
          (λ f. update_segment f (update_params proj.id key req raw)) seen no_rows begun
          (update_missing (conn.attempts 0).fresh (update_params proj.id key req raw) seen missing)
          refl in
      rw reads (rw known (rw accepted (rw failed refl)))
