-- ===== src/Sdk/Typing.antt =====
-- What the typed provider promises its callers.
use false_flag_demo.Base.{String, Bool, true, false, ◌≢◌, ◌≡◌, refl, ◌⊎◌, inl, inr, arith}
use false_flag_demo.Base.Int.{ℤ}
use false_flag_demo.Config.Ir.{ValueType, boolean, number}
use false_flag_demo.Eval.Decision.{Decision, Reason, error, type_mismatch, value_matches_type}
use false_flag_demo.Sdk.Provider.{
  boolean_evaluation, string_evaluation, number_evaluation, object_evaluation, typed, mismatch,
  is_bool, is_string, is_object, number_case,
}
use false_flag_demo.Values.{Value, bool, string, float64, int, int64}
use false_flag_demo.Values.Ieee.{Float64}
use false_flag_demo.Values.Services.{Services}

-- The caller's default, by the reason error if the client's decision has it, and type_mismatch
-- otherwise; the rule id and the version stay.
abbrev pub IsSubstituted : Decision → Value → Decision → Type 0
IsSubstituted d def d' =
    ((d.reason ≡ error) × (d' ≡ record d { value = def }))
    ⊎ ((d.reason ≢ error) × (d' ≡ record d { value = def; reason = type_mismatch }))

-- The client's decision as it is where its value is as wanted, and otherwise the default.
abbrev pub IsGuarded : {A : Type 0} → (A → Value) → Decision → Value → Decision → Type 0
IsGuarded {A} wanted d def d' =
    ((a : A) × (d.value ≡ wanted a) × (d' ≡ d))
    ⊎ (((a : A) → d.value ≢ wanted a) × IsSubstituted d def d')

-- A float64 as it is, an integer as the float64 it converts to, and otherwise the default.
abbrev pub IsNumber : Services → Decision → Float64 → Decision → Type 0
IsNumber s d def d' =
    ((f : Float64) × (d.value ≡ float64 f) × (d' ≡ d))
    ⊎ ((n : ℤ) × ((d.value ≡ int n) ⊎ (d.value ≡ int64 n))
        × (d' ≡ record d { value = float64 (s.int_to_float64 n) }))
    ⊎ (((f : Float64) → d.value ≢ float64 f)
        × ((n : ℤ) → d.value ≢ int n)
        × ((n : ℤ) → d.value ≢ int64 n)
        × IsSubstituted d (float64 def) d')

defaulted_by :
    (d : Decision) (def : Value) (r : Reason)
    → d.reason ≡ r
    → IsSubstituted d def (record d { reason = mismatch d.reason; value = def })
defaulted_by d def Reason.error e = inl (e, rw e refl)
defaulted_by d def Reason.default e = inr (rw e (λ p. cc), rw e refl)
defaulted_by d def Reason.rule_matched e = inr (rw e (λ p. cc), rw e refl)
defaulted_by d def Reason.rollout_in_bucket e = inr (rw e (λ p. cc), rw e refl)
defaulted_by d def Reason.rollout_out_of_bucket e = inr (rw e (λ p. cc), rw e refl)
defaulted_by d def Reason.type_mismatch e = inr (rw e (λ p. cc), rw e refl)

defaulted : (d : Decision) (def : Value) → IsSubstituted d def (typed d def false)
unfolding typed
defaulted d def = defaulted_by d def d.reason refl

module _ (d : Decision) where
  typed-bool : (def v : Value) → d.value ≡ v → IsGuarded Value.bool d def (typed d def (is_bool v))
  unfolding typed
  typed-bool def Value.null e = inr (rw e (λ a p. cc), defaulted d def)
  typed-bool def (Value.bool x) e = inl (x, e, refl)
  typed-bool def (Value.string x) e = inr (rw e (λ a p. cc), defaulted d def)
  typed-bool def (Value.float64 x) e = inr (rw e (λ a p. cc), defaulted d def)
  typed-bool def (Value.float32 x) e = inr (rw e (λ a p. cc), defaulted d def)
  typed-bool def (Value.int x) e = inr (rw e (λ a p. cc), defaulted d def)
  typed-bool def (Value.int64 x) e = inr (rw e (λ a p. cc), defaulted d def)
  typed-bool def (Value.json_number x) e = inr (rw e (λ a p. cc), defaulted d def)
  typed-bool def (Value.array x) e = inr (rw e (λ a p. cc), defaulted d def)
  typed-bool def (Value.object x) e = inr (rw e (λ a p. cc), defaulted d def)

  typed-string :
      (def v : Value) → d.value ≡ v → IsGuarded Value.string d def (typed d def (is_string v))
  unfolding typed
  typed-string def Value.null e = inr (rw e (λ a p. cc), defaulted d def)
  typed-string def (Value.bool x) e = inr (rw e (λ a p. cc), defaulted d def)
  typed-string def (Value.string x) e = inl (x, e, refl)
  typed-string def (Value.float64 x) e = inr (rw e (λ a p. cc), defaulted d def)
  typed-string def (Value.float32 x) e = inr (rw e (λ a p. cc), defaulted d def)
  typed-string def (Value.int x) e = inr (rw e (λ a p. cc), defaulted d def)
  typed-string def (Value.int64 x) e = inr (rw e (λ a p. cc), defaulted d def)
  typed-string def (Value.json_number x) e = inr (rw e (λ a p. cc), defaulted d def)
  typed-string def (Value.array x) e = inr (rw e (λ a p. cc), defaulted d def)
  typed-string def (Value.object x) e = inr (rw e (λ a p. cc), defaulted d def)

  typed-object :
      (def v : Value) → d.value ≡ v → IsGuarded Value.object d def (typed d def (is_object v))
  unfolding typed
  typed-object def Value.null e = inr (rw e (λ a p. cc), defaulted d def)
  typed-object def (Value.bool x) e = inr (rw e (λ a p. cc), defaulted d def)
  typed-object def (Value.string x) e = inr (rw e (λ a p. cc), defaulted d def)
  typed-object def (Value.float64 x) e = inr (rw e (λ a p. cc), defaulted d def)
  typed-object def (Value.float32 x) e = inr (rw e (λ a p. cc), defaulted d def)
  typed-object def (Value.int x) e = inr (rw e (λ a p. cc), defaulted d def)
  typed-object def (Value.int64 x) e = inr (rw e (λ a p. cc), defaulted d def)
  typed-object def (Value.json_number x) e = inr (rw e (λ a p. cc), defaulted d def)
  typed-object def (Value.array x) e = inr (rw e (λ a p. cc), defaulted d def)
  typed-object def (Value.object x) e = inl (x, e, refl)

  number_case-IsNumber :
      (s : Services) (def : Float64) (v : Value)
      → d.value ≡ v
      → IsNumber s d def (number_case s d def v)
  unfolding typed
  number_case-IsNumber s def Value.null e =
      inr (inr (rw e (λ a p. cc), rw e (λ a p. cc), rw e (λ a p. cc), defaulted d (float64 def)))
  number_case-IsNumber s def (Value.bool x) e =
      inr (inr (rw e (λ a p. cc), rw e (λ a p. cc), rw e (λ a p. cc), defaulted d (float64 def)))
  number_case-IsNumber s def (Value.string x) e =
      inr (inr (rw e (λ a p. cc), rw e (λ a p. cc), rw e (λ a p. cc), defaulted d (float64 def)))
  number_case-IsNumber s def (Value.float64 x) e = inl (x, e, refl)
  number_case-IsNumber s def (Value.float32 x) e =
      inr (inr (rw e (λ a p. cc), rw e (λ a p. cc), rw e (λ a p. cc), defaulted d (float64 def)))
  number_case-IsNumber s def (Value.int x) e = inr (inl (x, inl e, refl))
  number_case-IsNumber s def (Value.int64 x) e = inr (inl (x, inr e, refl))
  number_case-IsNumber s def (Value.json_number x) e =
      inr (inr (rw e (λ a p. cc), rw e (λ a p. cc), rw e (λ a p. cc), defaulted d (float64 def)))
  number_case-IsNumber s def (Value.array x) e =
      inr (inr (rw e (λ a p. cc), rw e (λ a p. cc), rw e (λ a p. cc), defaulted d (float64 def)))
  number_case-IsNumber s def (Value.object x) e =
      inr (inr (rw e (λ a p. cc), rw e (λ a p. cc), rw e (λ a p. cc), defaulted d (float64 def)))

-- The typed evaluations keep the client's decision where its value is a bool, a string or an object,
-- as each wants, and a number's with the integer as a float64. Otherwise they put the caller's
-- default in place of the value, with the reason type_mismatch, or error if the decision has that.
-- So the first three always give a bool, a string and a number.
pub typed_values :
    (s : Services) (d : Decision) (b : Bool) (t : String) (f : Float64) (o : Value)
    → IsGuarded Value.bool d (bool b) (boolean_evaluation d b)
      × IsGuarded Value.string d (string t) (string_evaluation d t)
      × IsNumber s d f (number_evaluation s d f)
      × IsGuarded Value.object d o (object_evaluation d o)
      × (value_matches_type s (boolean_evaluation d b).value boolean ≡ true)
      × (value_matches_type s (string_evaluation d t).value ValueType.string ≡ true)
      × (value_matches_type s (number_evaluation s d f).value number ≡ true)
unfolding boolean_evaluation string_evaluation number_evaluation object_evaluation
    value_matches_type
typed_values s d b t f o = (
  typed-bool d (bool b) d.value refl,
  typed-string d (string t) d.value refl,
  number_case-IsNumber d s f d.value refl,
  typed-object d o d.value refl,
  ground arith,
  ground arith,
  ground arith,
)
