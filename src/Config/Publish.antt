-- ===== src/Config/Publish.antt =====
-- internal/server/handlers/segment_resolver.go, and the compilation of what is published in
-- internal/server/handlers/flags.go.
pub mod Inlined
use false_flag_demo.Base.{ℕ, String, Option, none, some}
use false_flag_demo.Base.Result.{Result, ok, err, ◌>>=◌}
use false_flag_demo.Config.Compile.{Codec, compile}
use false_flag_demo.Config.Errors.{ConfigError}
use false_flag_demo.Config.Ir.{Predicate, RulesTree, Strategy, Compiled}
use false_flag_demo.Config.Segments.{ResolveError, SegmentResolver, Resolved, resolve_segments}
use false_flag_demo.Values.{RawMessage}
use false_flag_demo.Values.Services.{Services}

-- `ResolveSegment` over the store's segments: `stored` is `GetSegmentByKey` with `none` for its
-- errors, and `decode` is `json.Unmarshal` into a `Predicate`.
unfoldable pub store_segment_resolver :
    (String → Option RawMessage) → (RawMessage → Option Predicate) → SegmentResolver
store_segment_resolver stored decode key = elim (stored key) [ none ↦ none | some raw ↦ decode raw ]

pub data PublishError : Type 0 where
  resolving : ResolveError → PublishError
  marshalling_resolved : PublishError
  compiling : ConfigError → PublishError

module _ (codec : Codec) (resolver : SegmentResolver) (fuel : ℕ) where
  abbrev pub marshal_resolved : Resolved RulesTree → Result PublishError RawMessage
  marshal_resolved (err e) = err (resolving e)
  marshal_resolved (ok tree) = elim (codec.encode_tree tree) [
    | none ↦ err marshalling_resolved
    | some raw ↦ ok raw
  ]

  -- A source that does not decode is passed on as it is.
  unfoldable pub resolve_segment_refs : RawMessage → Result PublishError RawMessage
  unfolding resolve_segments
  resolve_segment_refs source = elim (codec.decode_tree source) [
    | none ↦ ok source
    | some tree ↦ marshal_resolved (resolve_segments resolver fuel tree)
  ]

  abbrev pub or_compiling : Result ConfigError Compiled → Result PublishError Compiled
  or_compiling (err e) = err (compiling e)
  or_compiling (ok c) = ok c

  -- The two steps of the publish handler.
  unfoldable pub resolve_and_compile :
      Services → Strategy → RawMessage → Result PublishError Compiled
  unfolding resolve_segment_refs compile
  resolve_and_compile s strategy source = do
    resolved ← resolve_segment_refs source
    or_compiling (compile s codec strategy resolved)
