-- ===== src/Config/Segments/Resolution.antt =====
-- What inlining leaves of the segments, and when it ends.
use false_flag_demo.Base.{ℕ, zero, suc, ◌≡◌, ap, Option, none, some, List, [], ◌∷◌, All}
use false_flag_demo.Base.Result.{ok, err, >>=-eq-ok, ok-injective}
use false_flag_demo.Config.Ir.{
  segment, Predicate, nil, node, Predicates, end, cons, Rule, RulesTree,
}
use false_flag_demo.Config.Segments.{
  config_error, out_of_fuel, SegmentResolver, Resolved, resolve_found, resolve_tree,
  resolve_children, resolve_one, resolve_rules, resolved_rule, resolve_segments,
}

abbrev mutual
  -- No node of the tree is a segment reference.
  pub IsInlined : Predicate → Type 0
  IsInlined nil = Unit
  IsInlined (node segment p of of_one) = ⊥
  IsInlined (node kind p of of_one) = AreInlined of × IsInlined of_one

  pub AreInlined : Predicates → Type 0
  AreInlined end = Unit
  AreInlined (cons c rest) = IsInlined c × AreInlined rest

module _ (resolver : SegmentResolver) (again : Predicate → Resolved Predicate)
    (inlines : (p q : Predicate) → again p ≡ ok q → IsInlined q) where
  found-IsInlined :
      (o : Option Predicate) (q : Predicate) → resolve_found again o ≡ ok q → IsInlined q
  found-IsInlined none q e = cc
  found-IsInlined (some nil) q e = cc
  found-IsInlined (some (node kind p of of_one)) q e = inlines (node kind p of of_one) q e

  mutual
    unfolding resolve_tree

    tree-IsInlined : (p q : Predicate) → resolve_tree resolver again p ≡ ok q → IsInlined q
    tree-IsInlined nil q e = rw (← ok-injective e) tt
    tree-IsInlined (node segment p of of_one) q e = found-IsInlined (resolver p.segment_key) q e
    tree-IsInlined (node _ p of of_one) q e =
        let (of', h, e₁) = >>=-eq-ok (resolve_children resolver again of) _ e in
        let (of_one', k, e₂) = >>=-eq-ok (resolve_tree resolver again of_one) _ e₁ in
        rw (← ok-injective e₂) (children-AreInlined of of' h, tree-IsInlined of_one of_one' k)

    children-AreInlined :
        (of of' : Predicates) → resolve_children resolver again of ≡ ok of' → AreInlined of'
    children-AreInlined end of' e = rw (← ok-injective e) tt
    children-AreInlined (cons c rest) of' e =
        let (c', h, e₁) = >>=-eq-ok (resolve_tree resolver again c) _ e in
        let (rest', k, e₂) = >>=-eq-ok (resolve_children resolver again rest) _ e₁ in
        rw (← ok-injective e₂) (tree-IsInlined c c' h, children-AreInlined rest rest' k)

resolve_one-IsInlined :
    (resolver : SegmentResolver) (fuel : ℕ) (p q : Predicate)
    → resolve_one resolver fuel p ≡ ok q
    → IsInlined q
unfolding resolve_one
resolve_one-IsInlined resolver zero p q e = cc
resolve_one-IsInlined resolver (suc fuel) p q e =
    tree-IsInlined resolver (resolve_one resolver fuel) (resolve_one-IsInlined resolver fuel) p q e

resolved_rule-eq-ok :
    (r r' : Rule) (m : Resolved Predicate) → resolved_rule r m ≡ ok r' → m ≡ ok r'.when
resolved_rule-eq-ok r r' (ok q) e = ap (λ x. ok x.when) (ok-injective e)
resolved_rule-eq-ok r r' (err (config_error f)) e = cc
resolved_rule-eq-ok r r' (err out_of_fuel) e = cc

rules-IsInlined :
    (resolver : SegmentResolver) (fuel : ℕ) (rules rules' : List Rule)
    → resolve_rules resolver fuel rules ≡ ok rules'
    → All (λ r. IsInlined r.when) rules'
unfolding resolve_rules
rules-IsInlined resolver fuel [] rules' e = rw (← ok-injective e) tt
rules-IsInlined resolver fuel (r ∷ rules) rules' e =
    let (r', h, e₁) = >>=-eq-ok (resolved_rule r (resolve_one resolver fuel r.when)) _ e in
    let (rest, k, e₂) = >>=-eq-ok (resolve_rules resolver fuel rules) _ e₁ in
    let resolved = resolved_rule-eq-ok r r' _ h in
    rw (← ok-injective e₂) (
      resolve_one-IsInlined resolver fuel r.when r'.when resolved,
      rules-IsInlined resolver fuel rules rest k,
    )

-- A tree that `ResolveSegments` returns has no segment reference left in any rule.
pub resolve_segments-IsInlined :
    (resolver : SegmentResolver) (fuel : ℕ) (tree tree' : RulesTree)
    → resolve_segments resolver fuel tree ≡ ok tree'
    → All (λ r. IsInlined r.when) tree'.rules
unfolding resolve_segments
resolve_segments-IsInlined resolver fuel tree tree' e =
    let (rules, h, e₁) = >>=-eq-ok (resolve_rules resolver fuel tree.rules) _ e in
    rw (← ok-injective e₁) (rules-IsInlined resolver fuel tree.rules rules h)
