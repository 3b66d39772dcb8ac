-- ===== src/Eval/Lookup.antt =====
-- internal/eval/predicates.go: dotted paths into the evaluation context, and coercions.
use text.Mathlib.Text.{◌==◌}
use false_flag_demo.Base.{String, Option, none, some, List, [], ◌∷◌, if◌then◌else◌}
use false_flag_demo.Base.Text.{split_dots}
use false_flag_demo.Values.{
  Value, null, string, float64, float32, int, int64, json_number, object, Fields, end, field,
}
use false_flag_demo.Values.Ieee.{Float64}
use false_flag_demo.Values.Services.{Services}

-- `m[part]` with its `ok`.
unfoldable pub member : String → Fields → Option Value
member part end = none
member part (field k v rest) = if k == part then some v else member part rest

-- The loop of `lookup`.
unfoldable pub walk : Value → List String → Option Value
unfolding member
walk cur [] = some cur
walk (object m) (part ∷ parts) = elim (member part m) [ none ↦ none | some v ↦ walk v parts ]
walk _ (part ∷ parts) = none

-- `(nil, false)` is `none`.
unfoldable pub lookup : Fields → String → Option Value
unfolding walk
lookup ctx path = if path == "" then none else walk (object ctx) (split_dots path)

-- The value of `lookup` with its `ok` dropped.
abbrev pub or_null : Option Value → Value
or_null none = null
or_null (some v) = v

abbrev pub as_string : Option Value → Option String
as_string (some (string s)) = some s
as_string _ = none

unfoldable pub lookup_string : Fields → String → Option String
unfolding lookup
lookup_string ctx path = as_string (lookup ctx path)

-- The value of `lookup_string` with its `ok` dropped.
abbrev pub or_empty : Option String → String
or_empty none = ""
or_empty (some s) = s

unfoldable pub to_float : Services → Value → Option Float64
to_float s (float64 n) = some n
to_float s (float32 n) = some n
to_float s (int n) = some (s.int_to_float64 n)
to_float s (int64 n) = some (s.int_to_float64 n)
to_float s (json_number n) = s.number_to_float64 n
to_float s _ = none
