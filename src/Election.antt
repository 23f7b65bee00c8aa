-- ===== src/Election.antt =====
-- The elections among ContextRoutes: `resolveOwner` and the routing-key loop of `checkConflicts`
-- (modules/operator/internal/controller/contextroute_controller.go), `findCRForTarget`
-- (modules/operator/internal/controller/edgetransformation_controller.go).
pub mod Order
pub mod Scan
pub mod Agreement
pub mod Keys
use route_prism.Common.{
  Bool, true, not, ◌&&◌, ◌||◌, Option, none, some, List, [], ◌∷◌, if◌then◌else◌, filter, Str,
  str_eq,
}
use route_prism.Common.Sort.{sort_slice}
use route_prism.Kube.Types.{ContextRoute, effective_routing_key, older}

-- The first element of a slice, if there is one.
abbrev pub first : List ContextRoute → Option ContextRoute
first [] = none
first (c ∷ cs) = some c

-- `len(candidates) == 0` gives nil, and else the first of the sorted candidates.
unfoldable pub resolve_owner : Str → List ContextRoute → Option ContextRoute
resolve_owner target list =
    first (sort_slice older (filter (λ c. not c.deleting && str_eq c.target target) list))

-- `winner == nil || older(c, winner)`
abbrev pub beats : ContextRoute → Option ContextRoute → Bool
beats c none = true
beats c (some w) = older c w

-- The loop that keeps the oldest of the elements that pass the test.
unfoldable pub scan :
    (ContextRoute → Bool) → Option ContextRoute → List ContextRoute → Option ContextRoute
scan p winner [] = winner
scan p winner (c ∷ cs) = scan p (if p c && beats c winner then some c else winner) cs

-- `keyOwner`: the oldest of the others with the same effective routing key.
abbrev pub competes : ContextRoute → ContextRoute → Bool
competes cr other = not (
    str_eq other.uid cr.uid
    || not (str_eq (effective_routing_key other) (effective_routing_key cr)))

unfoldable pub key_owner : ContextRoute → List ContextRoute → Option ContextRoute
unfolding scan
key_owner cr all_crs = scan (competes cr) none all_crs

-- The test under which `checkConflicts` gives way to the key owner.
unfoldable pub loses_key : ContextRoute → Option ContextRoute → Bool
loses_key cr none = not true
loses_key cr (some owner) = older owner cr

-- `findCRForTarget`
unfoldable pub find_cr_for_target : Str → List ContextRoute → Option ContextRoute
unfolding scan
find_cr_for_target target list = scan (λ c. not c.deleting && str_eq c.target target) none list
