-- ===== src/Index/Owners.antt =====
-- Who owns a routing key in the snapshot.
use route_prism.Common.{
  ◌≡◌, refl, ◌∙◌, ap, Bool, true, false, not, ◌&&◌, inl, inr, Option, some, List, [], ◌∷◌,
  Bool-cases, if◌then◌else◌, Str, str_eq, str_eq_iff, str_eq_self,
}
use route_prism.Common.SortStrict.{IsDistinct}
use route_prism.Common.Assoc.{lookup, put, keys, lookup-put, put-IsDistinct}
use route_prism.Kube.Types.{ContextRoute, effective_routing_key}
use route_prism.Election.{scan, beats}
use route_prism.Index.Rebuild.{owners}

-- A live ContextRoute that claims the key.
abbrev pub claims_key : Str → ContextRoute → Bool
claims_key key cr = not cr.deleting && str_eq (effective_routing_key cr) key

and_true :
    (b : Bool) (x y : Option ContextRoute) → (if b && true then x else y) ≡ (if b then x else y)
and_true true x y = refl
and_true false x y = refl

and_false : (b : Bool) (x y : Option ContextRoute) → (if b && false then x else y) ≡ y
and_false true x y = refl
and_false false x y = refl

lookup-if_put :
    (b : Bool) (i k : Str) (cr : ContextRoute) (m : List (Str × ContextRoute))
    → lookup i (if b then put k cr m else m) ≡ (if b && str_eq k i then some cr else lookup i m)
lookup-if_put true i k cr m = lookup-put i k cr m
lookup-if_put false i k cr m = refl

-- One turn of the loop, seen from one key.
turn :
    (deleting : Bool) (own key : Str) (cr : ContextRoute) (m : List (Str × ContextRoute))
    → lookup key (if deleting then m else if beats cr (lookup own m) then put own cr m else m) ≡ (
        if (not deleting && str_eq own key) && beats cr (lookup key m)
        then some cr
        else lookup key m)
turn true own key cr m = refl
turn false own key cr m = elim (Bool-cases (str_eq own key)) [
  | inl e ↦
      let same : own ≡ key = (str_eq_iff own key).0 e in
      let only_same : (if beats cr (lookup key m) && str_eq key key then some cr else lookup key m)
          ≡ (if beats cr (lookup key m) then some cr else lookup key m) =
        rw (str_eq_self key) (and_true (beats cr (lookup key m)) (some cr) (lookup key m)) in
      rw (same, str_eq_self key) (lookup-if_put (beats cr (lookup key m)) key key cr m ∙ only_same)
  | inr e ↦
      let none_other : (if beats cr (lookup own m) && str_eq own key then some cr else lookup key m)
          ≡ lookup key m =
        rw e (and_false (beats cr (lookup own m)) (some cr) (lookup key m)) in
      lookup-if_put (beats cr (lookup own m)) key own cr m ∙ none_other ∙ (rw e refl)
]

-- The loop over all ContextRoutes elects, for every key, the one whom the controllers' loop `scan`
-- elects among the live ContextRoutes with that key.
pub owners-scan :
    (key : Str) (crs : List ContextRoute) (m : List (Str × ContextRoute))
    → lookup key (owners m crs) ≡ scan (claims_key key) (lookup key m) crs
unfolding owners scan
owners-scan key [] m = refl
owners-scan key (cr ∷ crs) m =
    owners-scan key crs _ ∙ ap (λ w. scan (claims_key key) w crs) (turn cr.deleting _ key cr m)

turn-IsDistinct :
    (a b : Bool) (k : Str) (cr : ContextRoute) (m : List (Str × ContextRoute))
    → IsDistinct (λ s. s) (keys m)
    → IsDistinct (λ s. s) (keys (if a then m else if b then put k cr m else m))
turn-IsDistinct true b k cr m h = h
turn-IsDistinct false true k cr m h = put-IsDistinct k cr m h
turn-IsDistinct false false k cr m h = h

pub owners-IsDistinct :
    (crs : List ContextRoute) (m : List (Str × ContextRoute))
    → IsDistinct (λ s. s) (keys m)
    → IsDistinct (λ s. s) (keys (owners m crs))
unfolding owners
owners-IsDistinct [] m h = h
owners-IsDistinct (cr ∷ crs) m h = owners-IsDistinct crs _ (turn-IsDistinct cr.deleting _ _ cr m h)
