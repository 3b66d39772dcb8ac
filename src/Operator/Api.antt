-- ===== src/Operator/Api.antt =====
-- internal/operator/clientapi/client.go: the API as the reconcilers call it. A state is what the API
-- and the network are at a time; a call gives the error that the client sees, or what the reconciler
-- reads of the response, and the state after it, which may have changed where an error is seen. The
-- messages are those of the Connect handlers.
use false_flag_demo.Base.{ℕ, Option, some, String, Bool, true, false, List, ◌∷◌, ◌≡◌}
use false_flag_demo.Base.Result.{Result, ok}
use false_flag_demo.Operator.Conditions.{already_exists, not_found, Upstream, connect_error}
use false_flag_demo.Server.Rpc.{strategy_json}
use false_flag_demo.Server.Rpc.Flags.{CreateFlag, PublishFlagVersion}
use false_flag_demo.Server.Rpc.Projects.{CreateProject, CreateEnvironment}
use false_flag_demo.Server.Rpc.Segments.{SegmentMessage}
use false_flag_demo.Values.{Fields}

-- A call that gives an `A`.
abbrev pub Call : Type 0 → Type 0 → Type 0
Call State A = State → Result Upstream A × State

-- The arguments are slugs and keys, then the message. Publishing gives the number of the version,
-- `none` for a response without one.
pub record Client : Type 1 where
  pub State : Type 0
  pub get_project : String → Call State (Unit {0})
  pub create_project : CreateProject → Call State (Unit {0})
  pub get_environment : String → String → Call State (Unit {0})
  pub create_environment : String → CreateEnvironment → Call State (Unit {0})
  pub get_segment : String → String → Call State (Unit {0})
  pub create_segment : String → String → SegmentMessage → Call State (Unit {0})
  pub update_segment : String → String → SegmentMessage → Call State (Unit {0})
  pub get_flag : String → String → Call State (Unit {0})
  pub create_flag : String → CreateFlag → Call State (Unit {0})
  pub publish_flag_version : String → String → PublishFlagVersion → Call State (Option ℕ)

-- A version's message by the JSON strategy.
abbrev pub json_source : Fields → PublishFlagVersion
json_source fields = record { strategy = strategy_json; source = some fields; source_text = "" }

-- The versions of a flag in a state, the latest first, each as what is stored of its source, and what
-- the calls do to them: looking for a flag changes nothing; a publication that is answered adds one
-- in front, and a flag that was there is there after it.
pub record Histories (api : Client) : Type 1 where
  pub Stored : Type 0
  pub stored : Fields → Stored
  pub versions : api.State → String → String → List Stored
  pub get_flag-same : (slug key : String) (s : api.State) → (api.get_flag slug key s).1 ≡ s
  pub publish-versions :
      (slug key : String) (fields : Fields) (s : api.State) (n : Option ℕ)
      → (api.publish_flag_version slug key (json_source fields) s).0 ≡ ok n
      → versions (api.publish_flag_version slug key (json_source fields) s).1 slug key
        ≡ stored fields ∷ versions s slug key
  pub publish-get_flag :
      (slug key : String) (fields : Fields) (s : api.State) (n : Option ℕ)
      → (api.get_flag slug key s).0 ≡ ok tt
      → (api.publish_flag_version slug key (json_source fields) s).0 ≡ ok n
      → (api.get_flag slug key (api.publish_flag_version slug key (json_source fields) s).1).0
        ≡ ok tt

-- `errors.As` for a connect error of the code.
unfoldable pub is_not_found : Upstream → Bool
is_not_found (connect_error not_found text) = true
is_not_found _ = false

unfoldable pub is_already_exists : Upstream → Bool
is_already_exists (connect_error already_exists text) = true
is_already_exists _ = false
