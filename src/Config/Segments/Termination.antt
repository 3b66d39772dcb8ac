-- ===== src/Config/Segments/Termination.antt =====
-- When the recursion of `resolveOne` ends, and a stored segment at which it does not.
use false_flag_demo.Base.{
  ℕ, zero, suc, ◌<◌, ◌≤◌, String, true, ◌≡◌, ◌≢◌, refl, some, inl, inr, Option-cases, List, [], ◌∷◌,
  arith, All, eq_iff,
}
use false_flag_demo.Base.Result.{ok, err}
use false_flag_demo.Config.Ir.{
  all, segment, Leaf, Predicate, nil, node, Predicates, end, cons, Rule, RulesTree,
}
use false_flag_demo.Config.Segments.{
  out_of_fuel, SegmentResolver, Resolved, resolve_found, resolve_tree, resolve_children,
  resolve_one, resolve_rules, resolve_segments, normalize_predicate,
}
use false_flag_demo.Config.Validate.{validate_predicates}
use false_flag_demo.Values.Services.{Services}

module _ (rank : String → ℕ) where
  abbrev mutual
    -- Every segment that the tree refers to has a rank below the bound.
    pub RefersBelow : ℕ → Predicate → Type 0
    RefersBelow n nil = Unit
    RefersBelow n (node segment p of of_one) = rank p.segment_key < n
    RefersBelow n (node kind p of of_one) = AllReferBelow n of × RefersBelow n of_one

    pub AllReferBelow : ℕ → Predicates → Type 0
    AllReferBelow n end = Unit
    AllReferBelow n (cons c rest) = RefersBelow n c × AllReferBelow n rest

  -- A segment's definition refers to segments of a smaller rank only.
  abbrev pub IsRanked : SegmentResolver → Type 0
  IsRanked resolver = (k : String) (p : Predicate) → resolver k ≡ some p → RefersBelow (rank k) p

  mutual
    below_mono : (n m : ℕ) (p : Predicate) → n ≤ m → RefersBelow n p → RefersBelow m p
    below_mono n m nil le h = tt
    below_mono n m (node segment p of of_one) le h = omega arith
    below_mono n m (node _ p of of_one) le (h, k) =
        (all_below_mono n m of le h, below_mono n m of_one le k)

    all_below_mono : (n m : ℕ) (of : Predicates) → n ≤ m → AllReferBelow n of → AllReferBelow m of
    all_below_mono n m end le h = tt
    all_below_mono n m (cons c rest) le (h, hs) =
        (below_mono n m c le h, all_below_mono n m rest le hs)

  module _ (resolver : SegmentResolver) (again : Predicate → Resolved Predicate) (n : ℕ)
      (ends : (k : String) (q : Predicate)
        → rank k < n
        → resolver k ≡ some q
        → again q ≢ err out_of_fuel) where
    found_ends : (k : String) → rank k < n → resolve_found again (resolver k) ≢ err out_of_fuel
    found_ends k lt = elim (Option-cases (resolver k)) [
      | inl missing ↦ rw missing (λ e. cc)
      | inr (nil, found) ↦ rw found (λ e. cc)
      | inr (node kind p of of_one, found) ↦ rw found (ends k (node kind p of of_one) lt found)
    ]

    mutual
      unfolding resolve_tree

      tree_ends :
          (p : Predicate) → RefersBelow n p → resolve_tree resolver again p ≢ err out_of_fuel
      tree_ends nil h = λ e. cc
      tree_ends (node segment p of of_one) h = found_ends p.segment_key h
      tree_ends (node _ p of of_one) (h, k) = ground (arith, children_end of h, tree_ends of_one k)

      children_end :
          (of : Predicates)
          → AllReferBelow n of
          → resolve_children resolver again of ≢ err out_of_fuel
      children_end end h = λ e. cc
      children_end (cons c rest) (h, hs) = ground (arith, tree_ends c h, children_end rest hs)

  resolve_one_ends :
      (resolver : SegmentResolver) (n : ℕ) (p : Predicate)
      → IsRanked resolver
      → RefersBelow n p
      → resolve_one resolver (suc n) p ≢ err out_of_fuel
  unfolding resolve_one
  resolve_one_ends resolver zero p ranked h =
      tree_ends resolver (resolve_one resolver zero) zero (λ k q lt e. absurd (omega arith)) p h
  resolve_one_ends resolver (suc n) p ranked h =
      tree_ends resolver (resolve_one resolver (suc n)) (suc n)
        (λ k q lt e.
          resolve_one_ends resolver n q ranked
            (below_mono (rank k) n q (omega arith) (ranked k q e)))
        p h

  rules_end :
      (resolver : SegmentResolver) (n : ℕ) (rules : List Rule)
      → IsRanked resolver
      → All (λ r. RefersBelow n r.when) rules
      → resolve_rules resolver (suc n) rules ≢ err out_of_fuel
  unfolding resolve_rules
  rules_end resolver n [] ranked h = λ e. cc
  rules_end resolver n (r ∷ rules) ranked (h, hs) =
      ground
        (arith, resolve_one_ends resolver n r.when ranked h, rules_end resolver n rules ranked hs)

  -- If segments can be ranked so that each refers to smaller ones only, the recursion ends: fuel
  -- above the ranks that the tree refers to is enough, whatever errors the resolver gives.
  pub resolve_segments_ends :
      (resolver : SegmentResolver) (n : ℕ) (tree : RulesTree)
      → IsRanked resolver
      → All (λ r. RefersBelow n r.when) tree.rules
      → resolve_segments resolver (suc n) tree ≢ err out_of_fuel
  unfolding resolve_segments
  resolve_segments_ends resolver n tree ranked h =
      ground (arith, rules_end resolver n tree.rules ranked h)

-- A group whose first child refers to the segment that it defines.
abbrev pub self_reference : Leaf → Leaf → Predicates → Predicate
self_reference p q rest = node all p (cons (node segment q end nil) rest) nil

diverges :
    (resolver : SegmentResolver) (p q : Leaf) (rest : Predicates) (fuel : ℕ)
    → resolver q.segment_key ≡ some (self_reference p q rest)
    → resolve_one resolver fuel (self_reference p q rest) ≡ err out_of_fuel
unfolding resolve_one
diverges resolver p q rest zero e = refl
diverges resolver p q rest (suc fuel) e =
    rw (e, resolve_tree) (rw (diverges resolver p q rest fuel e))

-- A segment whose definition refers to itself below a group is accepted for storage if the rest of
-- the group is valid, and resolving it then ends with no fuel.
pub normalize_predicate_accepts_cycle :
    (s : Services) (resolver : SegmentResolver) (p q : Leaf) (rest : Predicates) (fuel : ℕ)
    → q.segment_key ≢ ""
    → validate_predicates s true rest ≡ ok tt
    → resolver q.segment_key ≡ some (self_reference p q rest)
    → (normalize_predicate s (self_reference p q rest) ≡ ok tt)
      × (resolve_one resolver fuel (self_reference p q rest) ≡ err out_of_fuel)
unfolding normalize_predicate
normalize_predicate_accepts_cycle s resolver p q rest fuel named valid e =
    (ground (arith, eq_iff q.segment_key ""), diverges resolver p q rest fuel e)
