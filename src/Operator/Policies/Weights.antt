-- ===== src/Operator/Policies/Weights.antt =====
-- What the operator's checks of policies accept, and what they find.
use mathlib.Core.Path.{subst}
use false_flag_demo.Base.{
  ℕ, ◌+◌, ◌%◌, ◌*◌, ◌≤◌, ◌<◌, ◌^◌, ◌≡◌, ◌≢◌, ◌↔◌, List-cases, refl, none, inl, inr, Option-cases,
  List, [], ◌∷◌, length, arith, All,
}
use false_flag_demo.Base.Result.{Result, ok, err}
use false_flag_demo.Operator.Policies.{
  PolicyError, total_weight, check_total, validate_rollout_policy,
}
use false_flag_demo.Operator.Resources.{RolloutVariant, RolloutPolicy}

-- The weights' sum, without the wrap-around.
abbrev pub weights : List RolloutVariant → ℕ
weights [] = 0
weights (v ∷ variants) = v.weight + weights variants

abbrev pub HasValue : RolloutVariant → Type 0
HasValue v = v.value ≢ none

-- The bounds that the resource's schema sets.
abbrev pub IsBounded : RolloutVariant → Type 0
IsBounded v = v.weight ≤ 100

total_weight-eq :
    (total : ℕ) (variants : List RolloutVariant)
    → All IsBounded variants
    → total + 100 * length variants < 2 ^ 32
    → All HasValue variants
    → total_weight total variants ≡ ok (total + weights variants)
unfolding total_weight
total_weight-eq total [] b s h = ground arith
total_weight-eq total (v ∷ variants) (b, bs) s (h, hs) =
    ground (arith, total_weight-eq (total + v.weight) variants bs (omega arith) hs)

total_weight-HasValue :
    (total n : ℕ) (variants : List RolloutVariant)
    → total_weight total variants ≡ ok n
    → All HasValue variants
unfolding total_weight
total_weight-HasValue total n [] e = tt
total_weight-HasValue total n (v ∷ variants) e = elim (Option-cases v.value) [
  | inl missing ↦ absurd (ground arith)
  | inr (text, there) ↦ (
    rw there (λ x. cc),
    total_weight-HasValue ((total + v.weight) % 2 ^ 32) n variants (ground arith),
  )
]

check_total-eq-ok :
    (r : Result PolicyError ℕ) → check_total r ≡ ok tt → (n : ℕ) × (r ≡ ok n) × (n ≡ 100)
check_total-eq-ok (err e) h = cc
check_total-eq-ok (ok n) h = (n, refl, ground arith)

check_total_iff :
    (first : RolloutVariant) (variants : List RolloutVariant)
    → All IsBounded (first ∷ variants)
    → 100 * length (first ∷ variants) < 2 ^ 32
    → (check_total (total_weight 0 (first ∷ variants)) ≡ ok tt)
      ↔ (All HasValue (first ∷ variants) × (weights (first ∷ variants) ≡ 100))
check_total_iff first variants b s = (
  λ e.
      let (n, summed, hundred) = check_total-eq-ok (total_weight 0 (first ∷ variants)) e in
      let values = total_weight-HasValue 0 n (first ∷ variants) summed in
      let total = total_weight-eq 0 (first ∷ variants) b (omega arith) values in
      (values, ground arith),
  λ (values, sum).
      let total = total_weight-eq 0 (first ∷ variants) b (omega arith) values in ground arith,
)

-- For weights in the range of the schema and fewer than 42 million variants, a policy is accepted
-- exactly if it has a variant, every variant has a value, and the weights sum to 100: the sum does
-- not wrap around.
pub validate_rollout_policy_iff :
    (rp : RolloutPolicy)
    → All IsBounded rp.variants
    → 100 * length rp.variants < 2 ^ 32
    → (validate_rollout_policy rp ≡ ok tt)
      ↔ ((rp.variants ≢ []) × All HasValue rp.variants × (weights rp.variants ≡ 100))
unfolding validate_rollout_policy
validate_rollout_policy_iff rp b s = elim (List-cases rp.variants) [
  | inl empty ↦ ground arith
  | inr (first, variants, some_variants) ↦
      let accepted =
        check_total_iff first variants (subst (All IsBounded) some_variants b)
          (subst (λ l. 100 * length l < 2 ^ 32) some_variants s) in
      rw (some_variants, validate_rollout_policy)
        (
          λ e. (λ x. cc, (accepted.0 e).0, (accepted.0 e).1),
          λ (ne, values, sum). accepted.1 (values, sum),
        )
]
