-- ===== src/Eval/Decision/Leftover.antt =====
-- A segment reference that reaches the compilers.
use false_flag_demo.Base.{String, ◌≡◌, ◌≢◌, refl, some, [], ◌∷◌, arith, eq_iff}
use false_flag_demo.Base.Int.{ℤ}
use false_flag_demo.Base.Result.{ok}
use false_flag_demo.Config.Compile.{Codec, compile, compile_json}
use false_flag_demo.Config.Compile.Strategies.{compile_cel-of-compile_json}
use false_flag_demo.Config.Ir.{
  segment, boolean, Leaf, node, end, nil, RulesTree, Strategy, json, cel, Compiled,
}
use false_flag_demo.Config.Validate.{
  validate_predicate, validate_rules, validate_rule, validate_tree,
}
use false_flag_demo.Values.{Value, Fields, RawMessage}
use false_flag_demo.Values.Services.{Services, CelEnv}
use false_flag_demo.Eval.Decision.{error, decode_value, evaluate_rules, served_error, evaluate}
use false_flag_demo.Eval.Decision.Served.{evaluate-eq-evaluate_rules}
use false_flag_demo.Eval.Match.{match}

-- A flag with one rule, whose predicate is a segment reference.
abbrev pub refers : String → Leaf → RawMessage → RawMessage → RulesTree
refers id p value dflt = record {
  value_type = boolean;
  default = dflt;
  rules = record { id = id; when = node segment p end nil; value = value } ∷ [];
}

module _ (s : Services) (codec : Codec) (env : CelEnv) (raw dflt value : RawMessage) (id : String)
    (p : Leaf) (named : id ≢ "") (has_value : value ≢ "") (has_default : dflt ≢ "")
    (keyed : p.segment_key ≢ "") where
  accepted : validate_tree s (refers id p value dflt) ≡ ok tt
  unfolding validate_tree validate_rules validate_rule validate_predicate
  accepted = ground (arith, eq_iff id "", eq_iff value "", eq_iff dflt "", eq_iff p.segment_key "")

  abbrev compiled : Strategy → Compiled
  compiled strategy = record {
    strategy = strategy;
    ir = some (refers id p value dflt);
    cel_programs = [];
  }

  compiles :
      codec.decode_tree raw ≡ some (refers id p value dflt)
      → compile s codec json raw ≡ ok (compiled json)
  unfolding compile compile_json
  compiles decoded = rw (decoded, compile_json) (rw accepted)

  fails :
      (ctx : Fields) (version : ℤ) (v : Value)
      → decode_value s dflt ≡ some v
      → evaluate s (some (compiled cel)) ctx version
        ≡ ok (record { value = v; reason = error; rule_id = id; version = version })
  unfolding evaluate_rules served_error match
  fails ctx version v decoded =
      evaluate-eq-evaluate_rules s ctx version (compiled cel) (refers id p value dflt) v refl
        decoded

  -- Take a boolean flag with a default and one rule, which has an id and a value, and whose whole
  -- predicate is a reference to a segment by its key. The CEL strategy compiles it without an error,
  -- where it has an environment, and if the default decodes, every evaluation of the flag is decided
  -- by an error.
  pub leftover_segment :
      (ctx : Fields) (version : ℤ) (v : Value)
      → s.cel_env ≡ some env
      → codec.decode_tree raw ≡ some (refers id p value dflt)
      → decode_value s dflt ≡ some v
      → (compile s codec cel raw ≡ ok (compiled cel))
        × (evaluate s (some (compiled cel)) ctx version
            ≡ ok (record { value = v; reason = error; rule_id = id; version = version }))
  leftover_segment ctx version v has_env decoded default_decoded = (
    compile_cel-of-compile_json s codec env raw (compiled json) has_env (compiles decoded),
    fails ctx version v default_decoded,
  )
