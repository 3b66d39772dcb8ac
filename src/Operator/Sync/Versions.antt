-- ===== src/Operator/Sync/Versions.antt =====
-- What the syncs of a flag and of a flag binding leave as the flag's versions.
use false_flag_demo.Base.{
  ℕ, zero, suc, ◌≡◌, refl, sym, ap, ◌∙◌, Option, none, some, List, [], ◌∷◌, map, arith, inl, inr,
}
use false_flag_demo.Base.Result.{Result, ok, err, Result-cases}
use false_flag_demo.Base.Text.{StringMap}
use false_flag_demo.Operator.Api.{Client, Histories}
use false_flag_demo.Operator.Conditions.{Upstream}
use false_flag_demo.Operator.Policies.{resolve_rollouts}
use false_flag_demo.Operator.Resources.{FlagSpec, FlagSpecBinding, RolloutPolicy}
use false_flag_demo.Operator.Sync.{Documents, binding_source, raw_to_value, ensured}
use false_flag_demo.Operator.Sync.Flags.{
  publish, publish_bindings, sync_flag, ensure_flag, created_flag, version_or_0, publish_each,
  alone, sent,
}
use false_flag_demo.Values.{Fields}

-- The bindings that a sync publishes: one for none.
abbrev pub published_bindings : List FlagSpecBinding → List (Option FlagSpecBinding)
published_bindings [] = none ∷ []
published_bindings (b ∷ bindings) = map some (b ∷ bindings)

-- Successful syncs of a flag, one after the other.
pub data Syncs (api : Client) (docs : Documents) (flag : FlagSpec)
    (policies : Option (List RolloutPolicy)) (start : api.State) : ℕ → api.State → Type 0 where
  here : Syncs api docs flag policies start zero start
  next :
      {k : ℕ} {s : api.State} (n : ℕ)
      → Syncs api docs flag policies start k s
      → (sync_flag api docs flag policies s).0 ≡ (n, none)
      → Syncs api docs flag policies start (suc k) (sync_flag api docs flag policies s).1

module _ (docs : Documents) (flag : FlagSpec) (rollouts : StringMap RolloutPolicy) where
  -- The sources are those of the bindings, in order.
  abbrev pub AreSources : List (Option FlagSpecBinding) → List Fields → Type 0
  AreSources [] [] = Unit
  AreSources (b ∷ bindings) (f ∷ fields) =
      (binding_source docs flag rollouts b ≡ ok f) × AreSources bindings fields
  AreSources _ _ = ⊥

  module _ (api : Client) (h : Histories api) where
    -- The versions after the sources were published one after the other.
    abbrev pub pushed : List Fields → List h.Stored → List h.Stored
    pushed [] old = old
    pushed (f ∷ fields) old = pushed fields (h.stored f ∷ old)

    abbrev history : api.State → List h.Stored
    history s = h.versions s flag.project_slug flag.key

    -- The flag is there, with such versions.
    abbrev IsAt : List h.Stored → api.State → Type 0
    IsAt old s = ((api.get_flag flag.project_slug flag.key s).0 ≡ ok tt) × (history s ≡ old)

    ensured-found :
        (r : Result Upstream (Unit {0}) × api.State)
        (create : api.State → Result Upstream (Unit {0}) × api.State)
        → r.0 ≡ ok tt
        → ensured api r create ≡ (ok tt, r.1)
    unfolding ensured
    ensured-found (ok done, s) create e = refl
    ensured-found (err u, s) create e = cc

    ensure_flag-found :
        (s : api.State)
        → (api.get_flag flag.project_slug flag.key s).0 ≡ ok tt
        → ensure_flag api docs flag s ≡ (ok tt, s)
    unfolding ensure_flag
    ensure_flag-found s known =
        ensured-found (api.get_flag flag.project_slug flag.key s)
          (created_flag api docs flag (raw_to_value docs flag.default)) known
        ∙ ap (λ t. (ok tt, t)) (h.get_flag-same flag.project_slug flag.key s)

    publish-IsAt :
        (b : Option FlagSpecBinding) (f : Fields) (s : api.State) (n : Option ℕ)
        (old : List h.Stored)
        → binding_source docs flag rollouts b ≡ ok f
        → IsAt old s
        → (publish api docs flag rollouts b s).0 ≡ ok n
        → IsAt (h.stored f ∷ old) (publish api docs flag rollouts b s).1
    unfolding publish
    publish-IsAt b f s n old source (known, same) e =
        let done = ap (λ r. (sent api docs flag.project_slug flag.key r s).0) (sym source) ∙ e in
        rw source (
          h.publish-get_flag flag.project_slug flag.key f s n known done,
          h.publish-versions flag.project_slug flag.key f s n done
              ∙ ap (λ vs. h.stored f ∷ vs) same,
        )

    publish_bindings-IsAt :
        (bindings : List FlagSpecBinding) (fields : List Fields) (s : api.State) (last n : ℕ)
        (old : List h.Stored)
        → AreSources (map some bindings) fields
        → IsAt old s
        → (publish_bindings api docs flag rollouts last bindings s).0 ≡ (n, none)
        → IsAt (pushed fields old) (publish_bindings api docs flag rollouts last bindings s).1
    unfolding publish_bindings map
    publish_bindings-IsAt [] [] s last n old sources at e = at
    publish_bindings-IsAt [] (f ∷ fields) s last n old sources at e = absurd sources
    publish_bindings-IsAt (b ∷ bindings) [] s last n old sources at e = absurd sources
    publish_bindings-IsAt (b ∷ bindings) (f ∷ fields) s last n old sources at e =
        elim (Result-cases (publish api docs flag rollouts (some b) s).0) [
          | inl (u, failed) ↦ absurd (ground arith)
          | inr (v, done) ↦ ground (
            arith,
            publish_bindings-IsAt bindings fields (publish api docs flag rollouts (some b) s).1
                (version_or_0 v) n (h.stored f ∷ old) sources.1
                (publish-IsAt (some b) f s v old sources.0 at done),
          )
        ]

    alone-state : (r : Result Upstream (Option ℕ) × api.State) → (alone api docs r).1 ≡ r.1
    alone-state (err e, s) = refl
    alone-state (ok v, s) = refl

    alone-done :
        (r : Result Upstream (Option ℕ) × api.State) (n : ℕ)
        → (alone api docs r).0 ≡ (n, none)
        → (v : Option ℕ) × (r.0 ≡ ok v)
    alone-done (err e, s) n same = ground arith
    alone-done (ok v, s) n same = (v, refl)

    publish_each-IsAt :
        (bindings : List FlagSpecBinding) (fields : List Fields) (s : api.State) (n : ℕ)
        (old : List h.Stored)
        → AreSources (published_bindings bindings) fields
        → IsAt old s
        → (publish_each api docs flag bindings (ok rollouts) s).0 ≡ (n, none)
        → IsAt (pushed fields old) (publish_each api docs flag bindings (ok rollouts) s).1
    unfolding map
    publish_each-IsAt [] (f ∷ []) s n old sources at e =
        let (v, done) = alone-done (publish api docs flag rollouts none s) n e in
        rw (alone-state (publish api docs flag rollouts none s))
          (publish-IsAt none f s v old sources.0 at done)
    publish_each-IsAt [] [] s n old sources at e = absurd sources
    publish_each-IsAt [] (f ∷ g ∷ fields) s n old sources at e = absurd sources.1
    publish_each-IsAt (b ∷ bindings) fields s n old sources at e =
        publish_bindings-IsAt (b ∷ bindings) fields s 0 n old sources at e

    sync_flag-IsAt :
        (policies : Option (List RolloutPolicy)) (fields : List Fields) (s : api.State) (n : ℕ)
        (old : List h.Stored)
        → resolve_rollouts flag policies ≡ ok rollouts
        → AreSources (published_bindings flag.bindings) fields
        → IsAt old s
        → (sync_flag api docs flag policies s).0 ≡ (n, none)
        → IsAt (pushed fields old) (sync_flag api docs flag policies s).1
    unfolding sync_flag
    sync_flag-IsAt policies fields s n old resolved sources at e =
        let found = ensure_flag-found s at.0 in
        let same : sync_flag api docs flag policies s
            ≡ publish_each api docs flag flag.bindings (ok rollouts) s =
          rw (sync_flag, found, resolved)
            (ap (λ t. publish_each api docs flag flag.bindings (ok rollouts) t)
              (ap (λ r. r.1) found)) in
        rw same
          (publish_each-IsAt flag.bindings fields s n old sources at (ap (λ r. r.0) (sym same) ∙ e))

    -- `pushed fields`, so many times.
    abbrev pub pushed_times : ℕ → List Fields → List h.Stored → List h.Stored
    pushed_times zero fields old = old
    pushed_times (suc k) fields old = pushed fields (pushed_times k fields old)

    Syncs-IsAt :
        (policies : Option (List RolloutPolicy)) (fields : List Fields) (k : ℕ) (s s' : api.State)
        (old : List h.Stored)
        → resolve_rollouts flag policies ≡ ok rollouts
        → AreSources (published_bindings flag.bindings) fields
        → IsAt old s
        → Syncs api docs flag policies s k s'
        → IsAt (pushed_times k fields old) s'
    Syncs-IsAt policies fields zero s s' old resolved sources at here = at
    Syncs-IsAt policies fields (suc k) s s' old resolved sources at (next {s = t} n before e) =
        sync_flag-IsAt policies fields t n (pushed_times k fields old) resolved sources
          (Syncs-IsAt policies fields k s t old resolved sources at before) e

    -- Every sync of an unchanged flag publishes all over again: after k syncs that reported no
    -- error, of a flag that is there, its versions are those before with the sources of its bindings
    -- (or the one source of a flag without bindings) added in front k times, the last binding's on
    -- top each time.
    pub Syncs-versions :
        (policies : Option (List RolloutPolicy)) (fields : List Fields) (k : ℕ) (s s' : api.State)
        → resolve_rollouts flag policies ≡ ok rollouts
        → AreSources (published_bindings flag.bindings) fields
        → (api.get_flag flag.project_slug flag.key s).0 ≡ ok tt
        → Syncs api docs flag policies s k s'
        → h.versions s' flag.project_slug flag.key
          ≡ pushed_times k fields (h.versions s flag.project_slug flag.key)
    Syncs-versions policies fields k s s' resolved sources known run =
        (Syncs-IsAt policies fields k s s' (h.versions s flag.project_slug flag.key) resolved
          sources (known, refl) run).1
