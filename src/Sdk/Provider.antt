-- ===== src/Sdk/Provider.antt =====
-- internal/sdkgo/provider.go: the four typed evaluations, each from the client's decision.
use false_flag_demo.Base.{String, Bool, true, false}
use false_flag_demo.Eval.Decision.{Decision, Reason, error, type_mismatch}
use false_flag_demo.Values.{Value, bool, string, float64, int, int64, object}
use false_flag_demo.Values.Ieee.{Float64}
use false_flag_demo.Values.Services.{Services}

abbrev pub mismatch : Reason → Reason
mismatch error = error
mismatch _ = type_mismatch

-- `typed`: `def` is the default as a dynamic value.
unfoldable pub typed : Decision → Value → Bool → Decision
typed d def true = d
typed d def false = record d { reason = mismatch d.reason; value = def }

abbrev pub is_bool : Value → Bool
is_bool (bool _) = true
is_bool _ = false

abbrev pub is_string : Value → Bool
is_string (string _) = true
is_string _ = false

abbrev pub is_object : Value → Bool
is_object (object _) = true
is_object _ = false

unfoldable pub boolean_evaluation : Decision → Bool → Decision
unfolding typed
boolean_evaluation d def = typed d (bool def) (is_bool d.value)

unfoldable pub string_evaluation : Decision → String → Decision
unfolding typed
string_evaluation d def = typed d (string def) (is_string d.value)

abbrev pub number_case : Services → Decision → Float64 → Value → Decision
number_case s d def (float64 v) = typed d (float64 def) true
number_case s d def (int v) =
    typed (record d { value = float64 (s.int_to_float64 v) }) (float64 def) true
number_case s d def (int64 v) =
    typed (record d { value = float64 (s.int_to_float64 v) }) (float64 def) true
number_case s d def _ = typed d (float64 def) false

unfoldable pub number_evaluation : Services → Decision → Float64 → Decision
unfolding typed
number_evaluation s d def = number_case s d def d.value

unfoldable pub object_evaluation : Decision → Value → Decision
unfolding typed
object_evaluation d def = typed d def (is_object d.value)
