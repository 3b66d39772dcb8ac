-- ===== src/Config/Segments.antt =====
-- internal/config/predicate.go: inlining segment references; and `normalizePredicate` of
-- internal/server/handlers/segments.go and internal/server/rpc/segments.go, the guard on what is
-- stored as a segment.
pub mod Resolution
pub mod Termination
use false_flag_demo.Base.{ℕ, zero, suc, String, Bool, true, Option, none, some, List, [], ◌∷◌}
use false_flag_demo.Base.Result.{Result, ok, err, ◌>>=◌, Check}
use false_flag_demo.Config.Errors.{ConfigError, wrapped, in_rule, invalid_predicate}
use false_flag_demo.Config.Ir.{
  segment, Predicate, nil, node, Predicates, end, cons, Rule, RulesTree,
}
use false_flag_demo.Config.Validate.{validate_predicate}
use false_flag_demo.Values.Services.{Services}

-- `out_of_fuel` stands for a recursion that is deeper than the fuel given.
pub data ResolveError : Type 0 where
  config_error : ConfigError → ResolveError
  out_of_fuel : ResolveError

-- `ResolveSegment(key)`: `none` for an error.
abbrev pub SegmentResolver : Type 0
SegmentResolver = String → Option Predicate

abbrev pub Resolved {ℓ} : Type ℓ → Type ℓ
Resolved A = Result ResolveError A

-- What a resolved segment goes through: an error, a nil pointer, or the recursive call.
abbrev pub resolve_found : (Predicate → Resolved Predicate) → Option Predicate → Resolved Predicate
resolve_found again none = err (config_error (wrapped invalid_predicate))
resolve_found again (some nil) = err (config_error (wrapped invalid_predicate))
resolve_found again (some (node kind p of of_one)) = again (node kind p of of_one)

-- The walk of `resolveOne` over one tree; `again` is its call on a segment's definition.
module _ (resolver : SegmentResolver) (again : Predicate → Resolved Predicate) where
  unfoldable mutual
    pub resolve_tree : Predicate → Resolved Predicate
    resolve_tree nil = ok nil
    resolve_tree (node segment p of of_one) = resolve_found again (resolver p.segment_key)
    resolve_tree (node kind p of of_one) = do
      of' ← resolve_children of
      of_one' ← resolve_tree of_one
      ok (node kind p of' of_one')

    pub resolve_children : Predicates → Resolved Predicates
    resolve_children end = ok end
    resolve_children (cons c rest) = do
      c' ← resolve_tree c
      rest' ← resolve_children rest
      ok (cons c' rest')

-- `resolveOne`. The fuel bounds how deep segments are inlined in one another.
unfoldable pub resolve_one : SegmentResolver → ℕ → Predicate → Resolved Predicate
unfolding resolve_tree
resolve_one resolver zero p = err out_of_fuel
resolve_one resolver (suc fuel) p = resolve_tree resolver (resolve_one resolver fuel) p

abbrev pub resolved_rule : Rule → Resolved Predicate → Resolved Rule
resolved_rule r (ok when) = ok (record r { when = when })
resolved_rule r (err (config_error e)) = err (config_error (in_rule r.id e))
resolved_rule r (err out_of_fuel) = err out_of_fuel

-- The loop of `ResolveSegments`. A nil `When` is left, as `resolve_one` leaves it.
unfoldable pub resolve_rules : SegmentResolver → ℕ → List Rule → Resolved (List Rule)
resolve_rules resolver fuel [] = ok []
resolve_rules resolver fuel (r ∷ rules) = do
  r' ← resolved_rule r (resolve_one resolver fuel r.when)
  rules' ← resolve_rules resolver fuel rules
  ok (r' ∷ rules')

unfoldable pub resolve_segments : SegmentResolver → ℕ → RulesTree → Resolved RulesTree
unfolding resolve_rules
resolve_segments resolver fuel tree = do
  rules ← resolve_rules resolver fuel tree.rules
  ok (record tree { rules = rules })

-- `normalizePredicate` below the decoding of the request's JSON.
unfoldable pub normalize_predicate : Services → Predicate → Check ConfigError
unfolding validate_predicate
normalize_predicate s (node segment p of of_one) = err (wrapped invalid_predicate)
normalize_predicate s p = validate_predicate s true p
