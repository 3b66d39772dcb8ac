-- ===== src/Operator/Translate/Heaviest.antt =====
-- Which variant `pickRolloutValue` takes.
use mathlib.Core.Path.{subst}
use mathlib.Core.List.{Memᴰ}
use mathlib.Core.List.Memᴰ.{head, tail}
use false_flag_demo.Base.{
  ℕ, ◌≤◌, ◌≡◌, ◌≢◌, ◌⊎◌, refl, sym, ◌∙◌, if◌then◌else◌, inl, inr, some, Option-cases, List, [], ◌∷◌,
  List-cases, arith, All, ltb,
}
use false_flag_demo.Values.{RawMessage}
use false_flag_demo.Operator.Resources.{raw_message, RolloutVariant, RolloutPolicy}
use false_flag_demo.Operator.Policies.Weights.{IsBounded, HasValue}
use false_flag_demo.Operator.Translate.{
  lt_int32, heaviest_of, zero_variant, or_first, pick_rollout_value,
}

-- In the schema's range the order of `int32` is that of the numbers.
lt_int32-eq : (a b : ℕ) → a ≤ 100 → b ≤ 100 → lt_int32 a b ≡ ltb a b
lt_int32-eq a b h k = ground arith

-- The result of the loop: where it started, or a variant; and nothing is heavier.
abbrev IsMaximal : RolloutVariant → List RolloutVariant → RolloutVariant → Type 0
IsMaximal start variants v =
    ((v ≡ start) ⊎ Memᴰ v variants)
    × (start.weight ≤ v.weight)
    × All (λ w. w.weight ≤ v.weight) variants

-- One round of the loop: the next one is either, and neither is heavier than it.
next-cases :
    (start v : RolloutVariant)
    → IsBounded start
    → IsBounded v
    → (((if lt_int32 start.weight v.weight then v else start) ≡ v)
        ⊎ ((if lt_int32 start.weight v.weight then v else start) ≡ start))
      × (start.weight ≤ (if lt_int32 start.weight v.weight then v else start).weight)
      × (v.weight ≤ (if lt_int32 start.weight v.weight then v else start).weight)
next-cases start v b bv = ground (arith, lt_int32-eq start.weight v.weight b bv)

IsMaximal-cons :
    (start v next m : RolloutVariant) (variants : List RolloutVariant)
    → (next ≡ v) ⊎ (next ≡ start)
    → start.weight ≤ next.weight
    → v.weight ≤ next.weight
    → IsMaximal next variants m
    → IsMaximal start (v ∷ variants) m
IsMaximal-cons start v next m variants (inl e) h k (inl same, above, all) =
    (inr (head (same ∙ e)), omega arith, (omega arith, all))
IsMaximal-cons start v next m variants (inr e) h k (inl same, above, all) =
    (inl (same ∙ e), omega arith, (omega arith, all))
IsMaximal-cons start v next m variants e h k (inr there, above, all) =
    (inr (tail there), omega arith, (omega arith, all))

heaviest_of-IsMaximal :
    (start : RolloutVariant) (variants : List RolloutVariant)
    → IsBounded start
    → All IsBounded variants
    → IsMaximal start variants (heaviest_of start variants)
unfolding heaviest_of
heaviest_of-IsMaximal start [] b bs = (inl refl, omega arith, tt)
heaviest_of-IsMaximal start (v ∷ variants) b (bv, bs) =
    let next = if lt_int32 start.weight v.weight then v else start in
    let (from, above, over) = next-cases start v b bv in
    IsMaximal-cons start v next (heaviest_of next variants) variants from above over
      (heaviest_of-IsMaximal next variants (ground arith) bs)

Memᴰ-HasValue :
    (v : RolloutVariant) (variants : List RolloutVariant)
    → All HasValue variants
    → Memᴰ v variants
    → HasValue v
Memᴰ-HasValue v [] p m = elim m [ ]
Memᴰ-HasValue v (x ∷ variants) (p, ps) (head e) = rw e p
Memᴰ-HasValue v (x ∷ variants) (p, ps) (tail m) = Memᴰ-HasValue v variants ps m

-- The variant is there, its value is the text, and no other is heavier.
abbrev pub IsHeaviest : List RolloutVariant → RawMessage → Type 0
IsHeaviest variants text =
    (v : RolloutVariant) × Memᴰ v variants
    × (text ≡ raw_message v.value)
    × All (λ w. w.weight ≤ v.weight) variants

All-weights_mono :
    (n m : ℕ) (variants : List RolloutVariant)
    → n ≤ m
    → All (λ w. w.weight ≤ n) variants
    → All (λ w. w.weight ≤ m) variants
All-weights_mono n m [] le h = tt
All-weights_mono n m (v ∷ variants) le (h, hs) = (omega arith, All-weights_mono n m variants le hs)

or_first-IsHeaviest :
    (m first : RolloutVariant) (variants : List RolloutVariant)
    → All HasValue (first ∷ variants)
    → IsMaximal zero_variant (first ∷ variants) m
    → IsHeaviest (first ∷ variants) (raw_message (or_first m first m.value).value)
or_first-IsHeaviest m first variants values (inl same, above, all) = rw same (
  first,
  head refl,
  refl,
  All-weights_mono m.weight first.weight (first ∷ variants) (rw same (omega arith)) all,
)
or_first-IsHeaviest m first variants values (inr there, above, all) = elim (Option-cases m.value) [
  | inl missing ↦ absurd (Memᴰ-HasValue m (first ∷ variants) values there missing)
  | inr (text, given) ↦ (m, there, rw given refl, all)
]

-- For a policy with variants that all have a value and a weight in the range of the schema, the value
-- taken is that of a variant than which no other is heavier.
pub pick_rollout_value-IsHeaviest :
    (rp : RolloutPolicy)
    → rp.variants ≢ []
    → All HasValue rp.variants
    → All IsBounded rp.variants
    → (text : RawMessage) × (pick_rollout_value rp ≡ some text) × IsHeaviest rp.variants text
unfolding pick_rollout_value
pick_rollout_value-IsHeaviest rp ne values b = elim (List-cases rp.variants) [
  | inl empty ↦ absurd (ne empty)
  | inr (first, variants, e) ↦
      let m = heaviest_of zero_variant (first ∷ variants) in
      let maximal =
        heaviest_of-IsMaximal zero_variant (first ∷ variants) (omega arith)
          (subst (All IsBounded) e b) in
      let heaviest = or_first-IsHeaviest m first variants (subst (All HasValue) e values) maximal in
      (
        raw_message (or_first m first m.value).value,
        rw (e, pick_rollout_value),
        subst (λ l. IsHeaviest l (raw_message (or_first m first m.value).value)) (sym e) heaviest,
      )
]
