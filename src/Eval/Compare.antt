-- ===== src/Eval/Compare.antt =====
-- internal/eval/predicates.go: the comparison predicates. Each takes the fields of its predicate.
use text.Mathlib.Text.{◌==◌, starts_with as has_prefix}
use false_flag_demo.Base.{String, Bool, true, false, Option, none, some, List, [], ◌∷◌}
use false_flag_demo.Config.Ir.{PredicateKind, gt, gte, lt, lte, Leaf}
use false_flag_demo.Values.{Value, null, bool, string, Fields, RawMessage}
use false_flag_demo.Values.Ieee
use false_flag_demo.Values.Ieee.{Float64}
use false_flag_demo.Values.Services.{Services}
use false_flag_demo.Eval.Lookup.{lookup, lookup_string, to_float}
use false_flag_demo.Eval.Outcome.{
  Outcome, answer, fail, decoding_eq, decoding_in, decoding_ord, decoding_starts_with,
  compiling_pattern,
}

abbrev eq_bool : Bool → Bool → Bool
eq_bool true true = true
eq_bool false false = true
eq_bool _ _ = false

-- `json.Unmarshal` into a string: `null` leaves the zero value.
unfoldable pub unmarshal_string : Services → RawMessage → Option String
unmarshal_string s raw = elim (s.unmarshal raw) [
  | some (string v) ↦ some v
  | some null ↦ some ""
  | _ ↦ none
]

module _ (s : Services) where
  unfoldable pub json_equal : Value → Value → Bool
  json_equal (string a) (string b) = a == b
  json_equal (string a) _ = false
  json_equal (bool a) (bool b) = eq_bool a b
  json_equal (bool a) _ = false
  json_equal null null = true
  json_equal null _ = false
  json_equal a b = s.marshal a == s.marshal b

  unfoldable pub cmp_eq : Leaf → Fields → Outcome
  unfolding json_equal
  cmp_eq p ctx = elim (lookup ctx p.attr) [
    | none ↦ answer false
    | some actual ↦ elim (s.unmarshal p.value) [
      | none ↦ fail decoding_eq
      | some expected ↦ answer (json_equal actual expected)
    ]
  ]

  -- The loop of `cmpIn`.
  unfoldable pub cmp_in_values : Value → List RawMessage → Outcome
  unfolding json_equal
  cmp_in_values actual [] = answer false
  cmp_in_values actual (raw ∷ values) = elim (s.unmarshal raw) [
    | none ↦ fail decoding_in
    | some v ↦ elim (json_equal actual v) [
      | true ↦ answer true
      | false ↦ cmp_in_values actual values
    ]
  ]

  unfoldable pub cmp_in : Leaf → Fields → Outcome
  unfolding cmp_in_values
  cmp_in p ctx = elim (lookup ctx p.attr) [
    | none ↦ answer false
    | some actual ↦ cmp_in_values actual p.values
  ]

  abbrev compare_floats : PredicateKind → Float64 → Float64 → Bool
  compare_floats gt a b = Ieee.gt a b
  compare_floats gte a b = Ieee.ge a b
  compare_floats lt a b = Ieee.lt a b
  compare_floats lte a b = Ieee.le a b
  compare_floats _ a b = false

  unfoldable pub cmp_ord : PredicateKind → Leaf → Fields → Outcome
  unfolding to_float
  cmp_ord kind p ctx = elim (lookup ctx p.attr) [
    | none ↦ answer false
    | some actual_raw ↦ elim (to_float s actual_raw) [
      | none ↦ answer false
      | some a ↦ elim (s.unmarshal p.value) [
        | none ↦ fail decoding_ord
        | some exp_raw ↦ elim (to_float s exp_raw) [
          | none ↦ answer false
          | some b ↦ answer (compare_floats kind a b)
        ]
      ]
    ]
  ]

  unfoldable pub cmp_matches : Leaf → Fields → Outcome
  cmp_matches p ctx = elim (lookup_string ctx p.attr) [
    | none ↦ answer false
    | some actual ↦ elim (s.compile_regexp p.pattern) [
      | none ↦ fail compiling_pattern
      | some match_string ↦ answer (match_string actual)
    ]
  ]

  unfoldable pub cmp_starts_with : Leaf → Fields → Outcome
  unfolding unmarshal_string
  cmp_starts_with p ctx = elim (lookup_string ctx p.attr) [
    | none ↦ answer false
    | some actual ↦ elim (unmarshal_string s p.value) [
      | none ↦ fail decoding_starts_with
      | some prefix ↦ answer (has_prefix actual prefix)
    ]
  ]
