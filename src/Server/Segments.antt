-- ===== src/Server/Segments.antt =====
-- internal/server/handlers/segments.go.
pub mod Missing
use false_flag_demo.Base.{String, Option, none, some, List}
use false_flag_demo.Base.Result.{Result, ok, err, ◌>>=◌}
use false_flag_demo.Config.Ir.{Predicate}
use false_flag_demo.Config.Errors.{ConfigError}
use false_flag_demo.Config.Segments.{normalize_predicate}
use false_flag_demo.Server.{
  Api, Json, Refusal, status, Reply, Written, require_store, not_found_or_error, or_internal_error,
  write_store_err, or_status, read,
}
use false_flag_demo.Server.Projects.{must_marshal, one_text}
use false_flag_demo.Store.{
  Uuid, Segment, AppendAuditParams, CreateSegmentParams, UpdateSegmentParams,
}
use false_flag_demo.Store.Lookups.{
  get_project_by_slug, list_segments_by_project, get_segment_by_key,
}
use false_flag_demo.Store.Tx.{with_audit, create_segment, update_segment}
use false_flag_demo.Values.{Value, null, RawMessage}
use false_flag_demo.Values.Services.{Services}

pub record CreateSegmentRequest : Type 0 where
  pub key : String
  pub name : String
  pub description : String
  pub predicate : Value

pub record UpdateSegmentRequest : Type 0 where
  pub name : String
  pub description : String
  pub predicate : Value

unfoldable pub handle_list_segments : Api → String → Reply (List Segment)
unfolding require_store not_found_or_error get_project_by_slug list_segments_by_project
handle_list_segments api slug = do
  conn ← require_store api
  proj ← not_found_or_error (read conn (get_project_by_slug slug))
  rows ← or_internal_error (read conn (λ db. ok (list_segments_by_project proj.id db)))
  ok (200, rows)

abbrev pub accepted : RawMessage → Result ConfigError (Unit {0}) → Result Refusal RawMessage
accepted raw (ok u) = ok raw
accepted raw (err e) = err (status 400)

-- `normalizePredicate` on the request's value, its errors refused by `badRequest`.
unfoldable pub predicate_bytes : Services → Json → Value → Result Refusal RawMessage
unfolding normalize_predicate
predicate_bytes s j null = err (status 400)
predicate_bytes s j value = do
  raw ← or_status 400 (j.marshal value)
  p ← or_status 400 (j.decode_predicate raw)
  accepted raw (normalize_predicate s p)

abbrev pub segment_event : Json → String → String → Uuid → String → AppendAuditParams
segment_event j action actor project key = record {
  project_id = some project;
  flag_id = none;
  action = action;
  actor = actor;
  payload = must_marshal j (one_text "key" key);
}

abbrev pub segment_params : Uuid → CreateSegmentRequest → RawMessage → CreateSegmentParams
segment_params project req raw = record {
  project_id = project;
  key = req.key;
  name = req.name;
  description = req.description;
  predicate = raw;
}

unfoldable pub handle_create_segment :
    Services → Json → Api → String → String → Option CreateSegmentRequest → Written Segment
unfolding require_store not_found_or_error get_project_by_slug predicate_bytes write_store_err
    with_audit create_segment
handle_create_segment s j api actor slug body = do
  conn ← require_store api
  proj ← not_found_or_error (read conn (get_project_by_slug slug))
  req ← or_status 400 body
  raw ← predicate_bytes s j req.predicate
  out ← write_store_err (
      with_audit conn.attempts (segment_event j "create_segment" actor proj.id req.key)
        (λ f. create_segment f (segment_params proj.id req raw)))
  ok ((201, out.0), out.1)

unfoldable pub handle_get_segment : Api → String → String → Reply Segment
unfolding require_store not_found_or_error get_project_by_slug get_segment_by_key
handle_get_segment api slug key = do
  conn ← require_store api
  proj ← not_found_or_error (read conn (get_project_by_slug slug))
  seg ← not_found_or_error (read conn (get_segment_by_key proj.id key))
  ok (200, seg)

abbrev pub update_params : Uuid → String → UpdateSegmentRequest → RawMessage → UpdateSegmentParams
update_params project key req raw = record {
  project_id = project;
  key = key;
  name = req.name;
  description = req.description;
  predicate = raw;
}

unfoldable pub handle_update_segment :
    Services → Json → Api → String → String → String → Option UpdateSegmentRequest → Written Segment
unfolding require_store not_found_or_error get_project_by_slug predicate_bytes write_store_err
    with_audit update_segment
handle_update_segment s j api actor slug key body = do
  conn ← require_store api
  proj ← not_found_or_error (read conn (get_project_by_slug slug))
  req ← or_status 400 body
  raw ← predicate_bytes s j req.predicate
  out ← write_store_err (
      with_audit conn.attempts (segment_event j "update_segment" actor proj.id key)
        (λ f. update_segment f (update_params proj.id key req raw)))
  ok ((200, out.0), out.1)
