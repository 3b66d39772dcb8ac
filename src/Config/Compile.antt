-- ===== src/Config/Compile.antt =====
-- internal/config/strategy.go, json.go, cel.go and typescript.go: the compilers.
pub mod Linked
pub mod NoCel
pub mod Strategies
use text.Mathlib.Text.{◌==◌}
use false_flag_demo.Base.{
  ℕ, ◌*◌, String, Bool, true, false, Option, none, some, [], ltb, length, if◌then◌else◌,
}
use false_flag_demo.Base.Result.{Result, ok, err, ◌>>=◌, ◌>>◌}
use false_flag_demo.Base.Text.{bytes}
use false_flag_demo.Config.Cel.{compile_predicates}
use false_flag_demo.Config.Errors.{
  ConfigError, wrapped, unknown_strategy, invalid_ir, cel_compile_failure,
  typescript_compile_failure,
}
use false_flag_demo.Config.Ir.{ValueType, RulesTree, Strategy, json, cel, typescript, Compiled}
use false_flag_demo.Config.Validate.{validate_tree, validate_tree_with}
use false_flag_demo.Values.{RawMessage}
use false_flag_demo.Values.Services.{Services, CelEnv}

-- encoding/json on the IR's types, and esbuild with goja: what the compilers call besides
-- `Services`.
pub record Codec : Type 0 where
  -- `json.Unmarshal` into a `RulesTree`, and `json.Marshal` of one
  pub decode_tree : RawMessage → Option RulesTree
  pub encode_tree : RulesTree → Option RawMessage
  -- the files that `api.Build` puts out: the contents of the one file, or none for any error
  pub build : String → Option String
  -- running the module in a goja runtime, and the JSON of its default export, `none` for any error
  pub run_module : String → Option RawMessage

unfoldable pub valid : Strategy → Bool
valid json = true
valid cel = true
valid typescript = true
valid (Strategy.other _) = false

unfoldable pub max_source_text_bytes : ℕ
max_source_text_bytes = 32 * 1024

unfoldable pub max_ir_bytes : ℕ
max_ir_bytes = 32 * 1024

module _ (s : Services) (codec : Codec) where
  unfoldable pub compile_json : RawMessage → Result ConfigError Compiled
  unfolding validate_tree
  compile_json source = elim (codec.decode_tree source) [
    | none ↦ err (wrapped invalid_ir)
    | some tree ↦
        validate_tree s tree >> ok (record { strategy = json; ir = some tree; cel_programs = [] })
  ]

  -- `celEnv()`.
  abbrev pub new_cel_env : Result ConfigError CelEnv
  new_cel_env = elim s.cel_env [ none ↦ err (wrapped cel_compile_failure) | some env ↦ ok env ]

  -- The common end of the CEL and TypeScript compilers and of `tryRehydrateIR`.
  unfoldable pub link : Strategy → RulesTree → Result ConfigError Compiled
  unfolding validate_tree_with compile_predicates
  link strategy tree = do
    validate_tree_with s tree true
    env ← new_cel_env
    programs ← compile_predicates env tree.rules []
    ok (record { strategy = strategy; ir = some tree; cel_programs = programs })

  unfoldable pub compile_cel_strategy : RawMessage → Result ConfigError Compiled
  unfolding link
  compile_cel_strategy source = elim (codec.decode_tree source) [
    | none ↦ err (wrapped invalid_ir)
    | some tree ↦ link cel tree
  ]

  abbrev is_unset : ValueType → Bool
  is_unset (ValueType.other t) = t == ""
  is_unset _ = false

  abbrev succeeded : Result ConfigError Compiled → Option Compiled
  succeeded (ok c) = some c
  succeeded (err _) = none

  unfoldable pub try_rehydrate_ir : RawMessage → Option Compiled
  unfolding link
  try_rehydrate_ir source = elim (codec.decode_tree source) [
    | none ↦ none
    | some tree ↦ if is_unset tree.value_type then none else succeeded (link typescript tree)
  ]

  -- The steps of `compileTypescript` below the rehydration.
  unfoldable pub build_and_run : String → Result ConfigError Compiled
  unfolding link
  build_and_run source = elim (codec.build source) [
    | none ↦ err (wrapped typescript_compile_failure)
    | some js ↦ elim (codec.run_module js) [
      | none ↦ err (wrapped typescript_compile_failure)
      | some ir_json ↦
          if ltb max_ir_bytes (length (bytes ir_json))
          then err (wrapped typescript_compile_failure)
          else (elim (codec.decode_tree ir_json) [
            | none ↦ err (wrapped invalid_ir)
            | some tree ↦ link typescript tree
          ])
    ]
  ]

  unfoldable pub compile_typescript : String → Result ConfigError Compiled
  unfolding try_rehydrate_ir build_and_run
  compile_typescript source =
      if source == ""
      then err (wrapped typescript_compile_failure)
      else (elim (try_rehydrate_ir source) [
        | some compiled ↦ ok compiled
        | none ↦
            if ltb max_source_text_bytes (length (bytes source))
            then err (wrapped typescript_compile_failure)
            else build_and_run source
      ])

  -- `CompilerFor` and the call of what it returns.
  unfoldable pub compile : Strategy → RawMessage → Result ConfigError Compiled
  unfolding compile_json compile_cel_strategy compile_typescript
  compile json source = compile_json source
  compile cel source = compile_cel_strategy source
  compile typescript source = compile_typescript source
  compile (Strategy.other _) source = err (wrapped unknown_strategy)
