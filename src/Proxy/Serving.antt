-- ===== src/Proxy/Serving.antt =====
-- What the proxy serves, against its client and against the API.
use false_flag_demo.Base.{
  ◌≡◌, ◌≢◌, ◌⊎◌, ◌↔◌, refl, inl, inr, Option, some, Option-cases, arith, eq_iff, true,
}
use false_flag_demo.Base.Int.{ℤ}
use false_flag_demo.Base.Result.{ok}
use false_flag_demo.Base.Text.{get}
use false_flag_demo.Config.Compile.{Codec, compile}
use false_flag_demo.Config.Ir.{RulesTree, Strategy, Compiled}
use false_flag_demo.Eval.Decision.{Decision, evaluate}
use false_flag_demo.Proxy.{
  Proxy, EvaluateRequest, SnapshotInfo, replied, substitute, handle_evaluate, handle_snapshot_info,
  handle_ready, snapshot_info,
}
use false_flag_demo.Sdk.Agreement.{client_evaluate-agrees}
use false_flag_demo.Sdk.Client.{Snapshot, SnapshotBody, load, client_evaluate}
use false_flag_demo.Sdk.Polling.{HasUniqueKeys}
use false_flag_demo.Values.{Value, null, RawMessage}
use false_flag_demo.Values.Services.{Services, CelEnv}

-- The decision of the client, with the default for a nil value.
abbrev pub IsServed : Decision → Value → Decision → Type 0
IsServed d def d' =
    (d'.reason ≡ d.reason)
    × (d'.rule_id ≡ d.rule_id)
    × (d'.version ≡ d.version)
    × (((d.value ≡ null) × (d'.value ≡ def)) ⊎ ((d.value ≢ null) × (d'.value ≡ d.value)))

substitute-IsServed :
    (d : Decision) (v def : Value) → d.value ≡ v → IsServed d def (substitute v d def)
substitute-IsServed d v def e = ground arith

-- A proxy that serves a project answers every request that decodes and has a key with status 200 and
-- the client's decision, the caller's default standing in for a nil value only.
pub handle_evaluate-IsServed :
    (s : Services) (p : Proxy) (client : Option Snapshot) (req : EvaluateRequest)
    → p.evaluator ≡ some client
    → req.key ≢ ""
    → (d : Decision) × (handle_evaluate s p (some req) ≡ replied 200 d)
      × IsServed (client_evaluate s client req.key req.context) req.default_value d
unfolding handle_evaluate
handle_evaluate-IsServed s p client req configured keyed =
    let d = client_evaluate s client req.key req.context in
    (
      substitute d.value d req.default_value,
      ground (arith, eq_iff req.key ""),
      substitute-IsServed d d.value req.default_value refl,
    )

substitute-ne-null : (d : Decision) (v def : Value) → v ≢ null → substitute v d def ≡ d
substitute-ne-null d v def n = ground arith

-- A proxy whose client loaded a snapshot holding the IR of a published flag answers a request for the
-- flag as the API decides it from the flag as published, but for the version, which is the
-- snapshot's, if the value decided is not nil.
pub handle_evaluate-agrees :
    (s : Services) (codec : Codec) (env : CelEnv) (strategy : Strategy) (source raw : RawMessage)
    (c : Compiled) (tree : RulesTree) (body : SnapshotBody) (p : Proxy) (req : EvaluateRequest)
    (version : ℤ) (d : Decision)
    → p.evaluator ≡ some (some (load s codec body))
    → req.key ≢ ""
    → s.cel_env ≡ some env
    → compile s codec strategy source ≡ ok c
    → c.ir ≡ some tree
    → codec.decode_tree raw ≡ some tree
    → HasUniqueKeys body.flags
    → get req.key body.flags ≡ some raw
    → evaluate s (some c) req.context version ≡ ok d
    → d.value ≢ null
    → handle_evaluate s p (some req) ≡ replied 200 (record d { version = body.version })
unfolding handle_evaluate
handle_evaluate-agrees s codec env strategy source raw c tree body p req version d configured keyed
      has_env e h decoded unique there decides n =
    let decided = record d { version = body.version } in
    let same =
      client_evaluate-agrees s codec env strategy source raw c tree body req.key req.context version
        d has_env e h decoded unique there decides in
    let kept = substitute-ne-null decided d.value req.default_value n in
    ground (arith, eq_iff req.key "", same, kept)

-- The snapshot handler answers with status 200 exactly if the readiness probe says that a snapshot is
-- loaded.
pub handle_snapshot_info_iff :
    (p : Proxy)
    → ((i : SnapshotInfo) × (handle_snapshot_info p ≡ replied 200 i))
      ↔ (handle_ready p ≡ replied 200 (p.project_slug, true))
unfolding handle_snapshot_info handle_ready
handle_snapshot_info_iff p = elim (Option-cases p.evaluator) [
  | inl missing ↦ (λ (i, e). absurd (ground arith), λ e. absurd (ground arith))
  | inr (client, configured) ↦ elim (Option-cases client) [
    | inl empty ↦ (λ (i, e). absurd (ground arith), λ e. absurd (ground arith))
    | inr (snap, loaded) ↦ (λ (i, e). ground arith, λ e. (snapshot_info p snap, ground arith))
  ]
]
