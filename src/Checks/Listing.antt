-- ===== src/Checks/Listing.antt =====
-- Runs of the listing of audit events, with a codec of cursors in unary.
use Prim.Native.Char.{code}
use false_flag_demo.Base.{
  ℕ, zero, suc, String, Option, none, some, ◌≡◌, ◌≢◌, ◌↔◌, refl, [], ◌∷◌, arith, length, ◌==◌,
  if◌then◌else◌, first, exists,
}
use false_flag_demo.Base.Int.{pos, negsuc}
use false_flag_demo.Base.Result.{ok, err}
use false_flag_demo.Checks.Storing.{shop, shop_db, publish_audit}
use false_flag_demo.Server.{panicked, status}
use false_flag_demo.Server.Audit.{
  CursorCodec, AuditQuery, audit_params, read_cursor, handle_list_audit_events,
  handle_list_audit_events_on,
}
use false_flag_demo.Server.Audit.Limits.{IsHarmful, IsAccepted, handle_list_audit_events-panics_iff}
use false_flag_demo.Server.Audit.Walk.{all_listed, walk, walk-eq-all_listed}
use false_flag_demo.Store.{AuditEvent, Db, Time, Uuid}
use false_flag_demo.Store.Lookups.{get_project_by_slug, list_audit_events}
use false_flag_demo.Store.Postgres.Lookups as Postgres
use false_flag_demo.Store.Queries.{audit_event_row}
use false_flag_demo.Store.Reachable.{IsDistinct, same_event_id}
use false_flag_demo.Checks.Handling.{on}

tally : ℕ → String → String
tally zero rest = rest
tally (suc n) rest = String.◌∷◌ "a" (tally n rest)

abbrev count : String → ℕ
count String.[] = 0
count (String.◌∷◌ c s) = suc (count s)

abbrev one_later : Option (Option Time × Uuid) → Option (Option Time × Uuid)
one_later (some (some t, i)) = some (some (suc t), i)
one_later _ = none

decode_tally : String → Option (Option Time × Uuid)
decode_tally String.[] = none
decode_tally (String.◌∷◌ c s) =
    let rest = decode_tally s in if code c == b'b' then some (some 0, count s) else one_later rest

abbrev encode_tally : Time → Uuid → String
encode_tally t i = tally t (String.◌∷◌ "b" (tally i ""))

count-tally : (i : ℕ) → count (tally i "") ≡ i
unfolding tally
count-tally zero = refl
count-tally (suc i) = omega (arith, count-tally i)

decode-encode : (t : Time) (i : Uuid) → decode_tally (encode_tally t i) ≡ some (some t, i)
unfolding tally decode_tally
decode-encode zero i = rw (count-tally i) refl
decode-encode (suc t) i = rw (decode-encode t i) refl

encode-ne-empty : (t : Time) (i : Uuid) → encode_tally t i ≢ ""
unfolding tally
encode-ne-empty zero i = λ e. cc
encode-ne-empty (suc t) i = λ e. cc

abbrev unary : CursorCodec
unary = record { encode = encode_tally; decode = decode_tally }

-- Three events, two of one time.
abbrev event : ℕ → ℕ → AuditEvent
event id now = audit_event_row (record { id = id; now = now }) publish_audit

abbrev busy_db : Db
busy_db = record shop_db { audit_events = event 7 300 ∷ event 5 200 ∷ event 6 200 ∷ [] }

abbrev every : AuditQuery
every = record { limit = none; cursor = ""; action = ""; actor = ""; from = none; to = none }

shop_there : get_project_by_slug "shop" busy_db ≡ ok shop
unfolding get_project_by_slug first
shop_there = refl

ids-IsDistinct : IsDistinct same_event_id busy_db.audit_events
unfolding exists
ids-IsDistinct = (refl, (refl, (refl, tt)))

walk-eq-all_listed_example :
    walk unary
      (on busy_db)
      busy_db
      shop
      "shop"
      every
      1
      (suc (length (all_listed unary (on busy_db) busy_db shop "shop" every 1)))
      ""
    ≡ ok (all_listed unary (on busy_db) busy_db shop "shop" every 1)
walk-eq-all_listed_example =
    walk-eq-all_listed unary (on busy_db) busy_db shop "shop" every 1 refl shop_there ids-IsDistinct
      (omega arith) (λ t i. (encode-ne-empty t i, decode-encode t i))

abbrev every_none : AuditQuery
every_none = record every { limit = some (pos 0) }

every_read : read_cursor unary every.cursor ≡ ok (none, 0)
unfolding read_cursor
every_read = refl

handle_list_audit_events-panics_iff_example :
    ((handle_list_audit_events unary (some (on busy_db)) "shop" every_none ≡ err panicked)
      ↔ IsHarmful (pos 0) (list_audit_events (audit_params 1 every_none (pos 0) none 0) busy_db))
    × ((handle_list_audit_events_on Postgres.list_audit_events unary
            (some (on busy_db))
            "shop"
            every_none
          ≡ err panicked)
        ↔ (IsHarmful (pos 0) (list_audit_events (audit_params 1 every_none (pos 0) none 0) busy_db)
            × IsAccepted (pos 0)))
    × (handle_list_audit_events_on Postgres.list_audit_events unary
          (some (on busy_db))
          "shop"
          (record every { limit = some (negsuc 1) })
        ≡ err (status 500))
handle_list_audit_events-panics_iff_example =
    handle_list_audit_events-panics_iff unary (on busy_db) busy_db shop "shop" every (pos 0)
      (none, 0) 0 refl shop_there every_read
