-- ===== src/Eval/Match/Safety.antt =====
-- Which errors `match` can return for a predicate that passed validation.
use false_flag_demo.Base.{
  String, Bool, ◌≡◌, ◌≢◌, refl, none, some, inl, inr, Option-cases, List, [], ◌∷◌, arith, All,
}
use false_flag_demo.Base.Text.{get}
use false_flag_demo.Config.Cel.{Programs}
use false_flag_demo.Config.Cel.Coverage.{Covers, CoversAll}
use false_flag_demo.Config.Ir.{
  PredicateKind, eq, neq, in_values, gt, gte, lt, lte, matches, starts_with, rollout, all, any, cel,
  always, segment, unknown, Leaf, Predicate, nil, node, Predicates, end, cons,
}
use false_flag_demo.Config.Validate.WellFormed.{IsWellFormed, AreWellFormed}
use false_flag_demo.Values.{Value, Fields, RawMessage}
use false_flag_demo.Values.Services.{Services, CelProgram}
use false_flag_demo.Eval.Compare.{
  cmp_eq, cmp_in, cmp_in_values, cmp_ord, cmp_matches, cmp_starts_with, unmarshal_string,
}
use false_flag_demo.Eval.Lookup.{lookup}
use false_flag_demo.Eval.Match.{match, match_all, match_any, match_cel, match_rollout, eval_cel}

module _ (s : Services) where
  abbrev mutual
    -- The operands decode: to a string for starts_with; and no segment reference is left.
    pub IsDecodable : Predicate → Type 0
    IsDecodable nil = Unit
    IsDecodable (node eq p of of_one) = s.unmarshal p.value ≢ none
    IsDecodable (node neq p of of_one) = s.unmarshal p.value ≢ none
    IsDecodable (node gt p of of_one) = s.unmarshal p.value ≢ none
    IsDecodable (node gte p of of_one) = s.unmarshal p.value ≢ none
    IsDecodable (node lt p of of_one) = s.unmarshal p.value ≢ none
    IsDecodable (node lte p of of_one) = s.unmarshal p.value ≢ none
    IsDecodable (node starts_with p of of_one) = unmarshal_string s p.value ≢ none
    IsDecodable (node in_values p of of_one) = All (λ raw. s.unmarshal raw ≢ none) p.values
    IsDecodable (node all p of of_one) = AreDecodable of
    IsDecodable (node any p of of_one) = AreDecodable of
    IsDecodable (node PredicateKind.not p of of_one) = IsDecodable of_one
    IsDecodable (node segment p of of_one) = ⊥
    IsDecodable (node _ p of of_one) = Unit

    pub AreDecodable : Predicates → Type 0
    AreDecodable end = Unit
    AreDecodable (cons c rest) = IsDecodable c × AreDecodable rest

-- No program fails at run time.
abbrev pub AreTotal : Programs → Fields → Type 0
AreTotal programs ctx =
    (k : String) (prog : CelProgram) → get k programs ≡ some prog → prog ctx ≢ none

module _ (s : Services) (ctx : Fields) where
  cmp_in_values_clean :
      (actual : Value) (values : List RawMessage)
      → All (λ raw. s.unmarshal raw ≢ none) values
      → (cmp_in_values s actual values).1 ≡ none
  unfolding cmp_in_values
  cmp_in_values_clean actual [] h = refl
  cmp_in_values_clean actual (raw ∷ values) (h, hs) =
      ground (arith, cmp_in_values_clean actual values hs)

  leaf_clean : (p : Leaf) → s.unmarshal p.value ≢ none → (cmp_eq s p ctx).1 ≡ none
  unfolding cmp_eq
  leaf_clean p h = ground arith

  ord_clean :
      (kind : PredicateKind) (p : Leaf)
      → s.unmarshal p.value ≢ none
      → (cmp_ord s kind p ctx).1 ≡ none
  unfolding cmp_ord
  ord_clean kind p h = ground arith

  in_clean : (p : Leaf) → All (λ raw. s.unmarshal raw ≢ none) p.values → (cmp_in s p ctx).1 ≡ none
  unfolding cmp_in
  in_clean p h = elim (Option-cases (lookup ctx p.attr)) [
    | inl missing ↦ rw (missing, cmp_in)
    | inr (actual, found) ↦ rw (found, cmp_in) (cmp_in_values_clean actual p.values h)
  ]

  module _ (programs : Programs) where
    cel_clean :
        (p : Leaf)
        → get p.source programs ≢ none
        → AreTotal programs ctx
        → (match_cel programs p ctx).1 ≡ none
    unfolding match_cel eval_cel
    cel_clean p h t = elim (Option-cases (get p.source programs)) [
      | inl missing ↦ absurd (h missing)
      | inr (prog, there) ↦ rw (there, match_cel) (ground (arith, t p.source prog there))
    ]

    mutual
      unfolding match cmp_matches cmp_starts_with match_rollout

      pub clean :
          (allow_cel : Bool) (p : Predicate)
          → IsWellFormed s allow_cel p
          → IsDecodable s p
          → Covers programs p
          → AreTotal programs ctx
          → (match s ctx programs p).1 ≡ none
      clean b nil w d c t = refl
      clean b (node always p of of_one) w d c t = refl
      clean b (node eq p of of_one) w d c t = leaf_clean p d
      clean b (node neq p of of_one) w d c t = ground (arith, leaf_clean p d)
      clean b (node in_values p of of_one) w d c t = in_clean p d
      clean b (node gt p of of_one) w d c t = ord_clean gt p d
      clean b (node gte p of of_one) w d c t = ord_clean gte p d
      clean b (node lt p of of_one) w d c t = ord_clean lt p d
      clean b (node lte p of of_one) w d c t = ord_clean lte p d
      clean b (node matches p of of_one) w d c t = ground arith
      clean b (node starts_with p of of_one) w d c t = ground arith
      clean b (node rollout p of of_one) w d c t = ground arith
      clean b (node all p of of_one) w d c t = all_clean b of w.1 d c t
      clean b (node any p of of_one) w d c t = any_clean b of w.1 d c t
      clean b (node PredicateKind.not p of of_one) w d c t = ground (arith, clean b of_one w d c t)
      clean b (node cel p of of_one) w d c t = cel_clean p c t
      clean b (node segment p of of_one) w d c t = absurd d
      clean b (node (unknown k) p of of_one) w d c t = absurd w

      all_clean :
          (allow_cel : Bool) (of : Predicates)
          → AreWellFormed s allow_cel of
          → AreDecodable s of
          → CoversAll programs of
          → AreTotal programs ctx
          → (match_all s ctx programs of).1 ≡ none
      all_clean b end w d c t = refl
      all_clean b (cons q rest) (w, ws) (d, ds) (c, cs) t =
          ground (arith, clean b q w d c t, all_clean b rest ws ds cs t)

      any_clean :
          (allow_cel : Bool) (of : Predicates)
          → AreWellFormed s allow_cel of
          → AreDecodable s of
          → CoversAll programs of
          → AreTotal programs ctx
          → (match_any s ctx programs of).1 ≡ none
      any_clean b end w d c t = refl
      any_clean b (cons q rest) (w, ws) (d, ds) (c, cs) t =
          ground (arith, clean b q w d c t, any_clean b rest ws ds cs t)
