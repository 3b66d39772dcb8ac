-- ===== src/Operator/Policies/References.antt =====
-- The policies that `resolveRollouts` finds.
use text.Mathlib.Text.{◌==◌}
use false_flag_demo.Base.{
  Option, List-cases, ◌⊎◌, String, ◌≡◌, ◌≢◌, none, some, inl, inr, Option-cases, Bool-cases, List,
  [], ◌∷◌, arith, All, eq_iff, if◌then◌else◌,
}
use false_flag_demo.Base.Result.{ok, ◌>>◌, >>=-eq-ok, ok-injective}
use false_flag_demo.Base.Text.{StringMap, get, put, get-put}
use false_flag_demo.Operator.Policies.{
  needed_refs, wanted, collect_policies, check_found, resolve_rollouts,
}
use false_flag_demo.Operator.Resources.{FlagRule, FlagSpec, RolloutPolicy}

-- The reference has a policy of its name, in the flag's project.
abbrev pub IsResolved : FlagSpec → StringMap RolloutPolicy → String → Type 0
IsResolved flag out name =
    (rp : RolloutPolicy) × (get name out ≡ some rp)
    × (rp.name ≡ name)
    × (rp.project_slug ≡ flag.project_slug)

abbrev AreOwn : FlagSpec → StringMap RolloutPolicy → Type 0
AreOwn flag out =
    (name : String) (rp : RolloutPolicy)
    → get name out ≡ some rp
    → (rp.name ≡ name) × (rp.project_slug ≡ flag.project_slug)

module _ (flag : FlagSpec) (needed : List String) where
  keep-AreOwn :
      (rp : RolloutPolicy) (out : StringMap RolloutPolicy)
      → AreOwn flag out
      → AreOwn flag (if wanted flag needed rp then put rp.name rp out else out)
  keep-AreOwn rp out own name found e = ground (
    arith,
    get-put rp.name name rp out,
    eq_iff rp.name name,
    eq_iff rp.project_slug flag.project_slug,
    own name found,
  )

  collect_policies-AreOwn :
      (items : List RolloutPolicy) (out : StringMap RolloutPolicy)
      → AreOwn flag out
      → AreOwn flag (collect_policies flag needed items out)
  unfolding collect_policies
  collect_policies-AreOwn [] out own = own
  collect_policies-AreOwn (rp ∷ items) out own =
      collect_policies-AreOwn items _ (keep-AreOwn rp out own)

check_found-All :
    (needed : List String) (out : StringMap RolloutPolicy)
    → check_found needed out ≡ ok tt
    → All (λ n. get n out ≢ none) needed
unfolding check_found
check_found-All [] out e = tt
check_found-All (n ∷ needed) out e = elim (Option-cases (get n out)) [
  | inl missing ↦ absurd (ground arith)
  | inr (rp, there) ↦ (rw there (λ x. cc), check_found-All needed out (ground arith))
]

refs_of_rules :
    (out : StringMap RolloutPolicy) (rules : List FlagRule)
    → All (λ n. get n out ≢ none) (needed_refs rules)
    → All (λ r. r.rollout_ref ≢ "" → get r.rollout_ref out ≢ none) rules
unfolding needed_refs
refs_of_rules out [] h = tt
refs_of_rules out (r ∷ rules) h = elim (Bool-cases (r.rollout_ref == "")) [
  | inl empty ↦ (
    λ ne. absurd (ne ((eq_iff r.rollout_ref "").0 empty)),
    refs_of_rules out rules (ground arith),
  )
  | inr named ↦
      let (first, later) = rw (named, needed_refs) at h in
      (λ ne. first, refs_of_rules out rules later)
]

own_refs :
    (flag : FlagSpec) (out : StringMap RolloutPolicy) (rules : List FlagRule)
    → AreOwn flag out
    → All (λ r. r.rollout_ref ≢ "" → get r.rollout_ref out ≢ none) rules
    → All (λ r. (r.rollout_ref ≡ "") ⊎ IsResolved flag out r.rollout_ref) rules
own_refs flag out [] own h = tt
own_refs flag out (r ∷ rules) own (h, hs) = (
  elim (Bool-cases (r.rollout_ref == "")) [
    | inl empty ↦ inl ((eq_iff r.rollout_ref "").0 empty)
    | inr named ↦ elim (Option-cases (get r.rollout_ref out)) [
      | inl missing ↦ absurd (ground (arith, eq_iff r.rollout_ref "", h))
      | inr (rp, there) ↦
          let (same, owned) = own r.rollout_ref rp there in inr (rp, there, same, owned)
    ]
  ],
  own_refs flag out rules own hs,
)

found-AreOwn :
    (flag : FlagSpec) (items : Option (List RolloutPolicy)) (out : StringMap RolloutPolicy)
    → resolve_rollouts flag items ≡ ok out
    → AreOwn flag out × All (λ n. get n out ≢ none) (needed_refs flag.rules)
unfolding resolve_rollouts get
found-AreOwn flag items out e = elim (List-cases (needed_refs flag.rules)) [
  | inl empty ↦
      let same = ok-injective (rw (empty, resolve_rollouts) at e) in
      (rw (← same) (λ name rp x. cc), rw empty tt)
  | inr (n, needed, refs) ↦ elim (Option-cases items) [
    | inl failed ↦ absurd (ground arith)
    | inr (policies, listed) ↦
        let kept = collect_policies flag (n ∷ needed) policies [] in
        let e' : (check_found (n ∷ needed) kept >> ok kept) ≡ ok out = ground arith in
        let (u, found, same) = >>=-eq-ok (check_found (n ∷ needed) kept) (λ _. ok kept) e' in
        rw (← ok-injective same) (
          collect_policies-AreOwn flag (n ∷ needed) policies [] (λ name rp x. cc),
          rw refs (check_found-All (n ∷ needed) kept found),
        )
  ]
]

-- After `resolveRollouts` every rule of the flag that refers to a policy has one of that name and of
-- the flag's project.
pub resolve_rollouts-IsResolved :
    (flag : FlagSpec) (items : Option (List RolloutPolicy)) (out : StringMap RolloutPolicy)
    → resolve_rollouts flag items ≡ ok out
    → All (λ r. (r.rollout_ref ≡ "") ⊎ IsResolved flag out r.rollout_ref) flag.rules
resolve_rollouts-IsResolved flag items out e =
    let (own, found) = found-AreOwn flag items out e in
    own_refs flag out flag.rules own (refs_of_rules out flag.rules found)
