-- ===== src/Server/Rpc/Segments.antt =====
-- internal/server/rpc/segments.go.
use false_flag_demo.Base.{String, Option, none, some, List}
use false_flag_demo.Base.Result.{Result, ok, err, ◌>>=◌}
use false_flag_demo.Config.Errors.{ConfigError}
use false_flag_demo.Config.Segments.{normalize_predicate}
use false_flag_demo.Server.{Connection, Json, read}
use false_flag_demo.Server.Projects.{must_marshal, one_text}
use false_flag_demo.Server.Rpc.{
  connect_code, code_invalid_argument, Answer, Committed, or_connect_error, or_code,
}
use false_flag_demo.Store.{
  Uuid, Segment, AppendAuditParams, CreateSegmentParams, UpdateSegmentParams,
}
use false_flag_demo.Store.Lookups.{
  get_project_by_slug, list_segments_by_project, get_segment_by_key,
}
use false_flag_demo.Store.Tx.{with_audit, create_segment, update_segment}
use false_flag_demo.Values.{object, end, Fields, RawMessage}
use false_flag_demo.Values.Services.{Services}

-- The message of CreateSegment and, but for the key, that of UpdateSegment.
pub record SegmentMessage : Type 0 where
  pub name : String
  pub description : String
  pub predicate : Option Fields

unfoldable pub rpc_list_segments : Connection → String → Answer (List Segment)
unfolding or_connect_error get_project_by_slug list_segments_by_project
rpc_list_segments conn slug = do
  proj ← or_connect_error (read conn (get_project_by_slug slug))
  or_connect_error (read conn (λ db. ok (list_segments_by_project proj.id db)))

unfoldable pub rpc_get_segment : Connection → String → String → Answer Segment
unfolding or_connect_error get_project_by_slug get_segment_by_key
rpc_get_segment conn slug key = do
  proj ← or_connect_error (read conn (get_project_by_slug slug))
  or_connect_error (read conn (get_segment_by_key proj.id key))

-- `AsMap` of a struct; that of an absent one, whose pointer is never the nil interface, is empty.
unfoldable pub as_map : Option Fields → Fields
as_map none = end
as_map (some fields) = fields

abbrev pub normalized : RawMessage → Result ConfigError (Unit {0}) → Answer RawMessage
normalized raw (ok u) = ok raw
normalized raw (err e) = err (connect_code code_invalid_argument)

-- Its errors refused by `badRequest`.
unfoldable pub normalize_predicate_bytes : Services → Json → Option Fields → Answer RawMessage
unfolding normalize_predicate as_map
normalize_predicate_bytes s j predicate = do
  raw ← or_code code_invalid_argument (j.marshal (object (as_map predicate)))
  p ← or_code code_invalid_argument (j.decode_predicate raw)
  normalized raw (normalize_predicate s p)

abbrev written_segment : Json → String → String → Uuid → String → AppendAuditParams
written_segment j action actor project key = record {
  project_id = some project;
  flag_id = none;
  action = action;
  actor = actor;
  payload = must_marshal j (one_text "key" key);
}

abbrev created_segment_params : Uuid → String → SegmentMessage → RawMessage → CreateSegmentParams
created_segment_params project key msg raw = record {
  project_id = project;
  key = key;
  name = msg.name;
  description = msg.description;
  predicate = raw;
}

unfoldable pub rpc_create_segment :
    Services → Json → Connection → String → String → String → SegmentMessage → Committed Segment
unfolding or_connect_error get_project_by_slug normalize_predicate_bytes with_audit create_segment
rpc_create_segment s j conn actor slug key msg = do
  proj ← or_connect_error (read conn (get_project_by_slug slug))
  raw ← normalize_predicate_bytes s j msg.predicate
  or_connect_error (
      with_audit conn.attempts (written_segment j "create_segment" actor proj.id key)
        (λ f. create_segment f (created_segment_params proj.id key msg raw)))

abbrev updated_segment_params : Uuid → String → SegmentMessage → RawMessage → UpdateSegmentParams
updated_segment_params project key msg raw = record {
  project_id = project;
  key = key;
  name = msg.name;
  description = msg.description;
  predicate = raw;
}

unfoldable pub rpc_update_segment :
    Services → Json → Connection → String → String → String → SegmentMessage → Committed Segment
unfolding or_connect_error get_project_by_slug normalize_predicate_bytes with_audit update_segment
rpc_update_segment s j conn actor slug key msg = do
  proj ← or_connect_error (read conn (get_project_by_slug slug))
  raw ← normalize_predicate_bytes s j msg.predicate
  or_connect_error (
      with_audit conn.attempts (written_segment j "update_segment" actor proj.id key)
        (λ f. update_segment f (updated_segment_params proj.id key msg raw)))
