-- ===== src/Sdk/Polling.antt =====
-- What polling does to the snapshot that the client holds.
use text.Mathlib.Text.{◌==◌}
use false_flag_demo.Base.{
  Bool, true, false, Bool-cases, ◌==◌ as num_eq, String, ◌≡◌, ◌≢◌, refl, Option, none, some, inl,
  inr, List, [], ◌∷◌, arith, eq_iff, ◌⊎◌,
}
use false_flag_demo.Base.Result.{Result, ok, err}
use false_flag_demo.Base.Text.{StringMap, get, get-put}
use false_flag_demo.Config.Compile.{Codec, compile}
use false_flag_demo.Config.Errors.{ConfigError}
use false_flag_demo.Config.Ir.{cel, Compiled}
use false_flag_demo.Sdk.Client.{
  Snapshot, SnapshotBody, Reply, request_failed, replied, keep_compiled, compile_flags, load,
  poll_once, poll_all,
}
use false_flag_demo.Values.{RawMessage}
use false_flag_demo.Values.Services.{Services}

-- A Go map has one entry for a key.
abbrev pub HasUniqueKeys {ℓ} : {V : Type ℓ} → StringMap V → Type ℓ
HasUniqueKeys [] = Unit
HasUniqueKeys ((k, v) ∷ m) = (get k m ≡ none) × HasUniqueKeys m

module _ (s : Services) (codec : Codec) where
  abbrev pub compiled_or_none : Result ConfigError Compiled → Option Compiled
  compiled_or_none (ok c) = some c
  compiled_or_none (err _) = none

  abbrev pub compiled_entry : Option RawMessage → Option Compiled
  compiled_entry none = none
  compiled_entry (some raw) = compiled_or_none (compile s codec cel raw)

  -- The flag at a key after one entry.
  abbrev kept : Result ConfigError Compiled → Bool → Option Compiled → Option Compiled
  kept (ok c) true old = some c
  kept (ok c) false old = old
  kept (err _) same old = old

  get-keep_compiled :
      (k j : String) (r : Result ConfigError Compiled) (flags : StringMap Compiled)
      → get k (keep_compiled s codec j r flags) ≡ kept r (j == k) (get k flags)
  get-keep_compiled k j (ok c) flags = rw get-put (ground arith)
  get-keep_compiled k j (err e) flags = refl

  absent-compile_flags :
      (k : String) (m : StringMap RawMessage)
      → get k m ≡ none
      → get k (compile_flags s codec m) ≡ none
  unfolding compile_flags get
  absent-compile_flags k [] e = refl
  absent-compile_flags k ((j, raw) ∷ m) e = ground (
    arith,
    get-keep_compiled k j (compile s codec cel raw) (compile_flags s codec m),
    absent-compile_flags k m,
  )

  -- After a snapshot is loaded, the flag at a key is what its entry compiles to by the CEL strategy;
  -- an entry that does not compile is absent, and does not touch the others.
  pub get-compile_flags :
      (k : String) (m : StringMap RawMessage)
      → HasUniqueKeys m
      → get k (compile_flags s codec m) ≡ compiled_entry (get k m)
  unfolding compile_flags get
  get-compile_flags k [] u = refl
  get-compile_flags k ((j, raw) ∷ m) (fresh, u) = ground (
    arith,
    eq_iff j k,
    get-keep_compiled k j (compile s codec cel raw) (compile_flags s codec m),
    absent-compile_flags j m fresh,
    get-compile_flags k m u,
  )

  -- A poll that returns an error, and one that finds no snapshot, keep the snapshot held; any other
  -- loads the body whole.
  pub poll_once_keeps :
      (snap : Option Snapshot) (r : Reply)
      → ((poll_once s codec snap r).0 ≡ snap)
        ⊎ ((body : SnapshotBody) × (r ≡ replied 200 (some body))
            × ((poll_once s codec snap r).0 ≡ some (load s codec body))
            × ((poll_once s codec snap r).1 ≡ ok tt))
  unfolding poll_once
  poll_once_keeps snap request_failed = inl refl
  poll_once_keeps snap (replied status none) = inl (ground arith)
  poll_once_keeps snap (replied status (some body)) = elim (Bool-cases (num_eq status 200)) [
    | inl fine ↦ inr (body, ground arith, ground arith, ground arith)
    | inr other ↦ inl (ground arith)
  ]

  -- Once a snapshot is held, no sequence of polls loses it.
  pub poll_all-ne-none :
      (snap : Option Snapshot) (replies : List Reply)
      → snap ≢ none
      → poll_all s codec snap replies ≢ none
  unfolding poll_all
  poll_all-ne-none snap [] h = h
  poll_all-ne-none snap (r ∷ replies) h =
      poll_all-ne-none (poll_once s codec snap r).0 replies (elim (poll_once_keeps snap r) [
        | inl same ↦ rw same h
        | inr (body, at, loaded, fine) ↦ rw loaded (λ e. cc)
      ])
