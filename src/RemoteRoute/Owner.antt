-- ===== src/RemoteRoute/Owner.antt =====
-- `ensureRROwnerRef`
use route_prism.Common.{
  ◌≡◌, refl, ap, Bool, true, false, not, ◌&&◌, inl, inr, Option, none, some, List, [], ◌∷◌,
  Bool-cases, if◌then◌else◌, str_eq, str_eq_self,
}
use route_prism.Kube.Meta.{OwnerReference}
use route_prism.Kube.Types.{ContextRoute, RemoteRoute}
use route_prism.Render.{cr_owner_ref}

abbrev bool_eq : Bool → Bool → Bool
bool_eq true b = b
bool_eq false b = not b

-- `boolPtrEq`
abbrev pub bool_ptr_eq : Option Bool → Option Bool → Bool
bool_ptr_eq none none = true
bool_ptr_eq none (some b) = false
bool_ptr_eq (some a) none = false
bool_ptr_eq (some a) (some b) = bool_eq a b

-- `ownerRefMatches`
unfoldable pub owner_ref_matches : OwnerReference → OwnerReference → Bool
owner_ref_matches a b =
    str_eq a.api_version b.api_version
    && str_eq a.kind b.kind
    && str_eq a.name b.name
    && str_eq a.uid b.uid
    && bool_ptr_eq a.controller b.controller
    && bool_ptr_eq a.block_owner_deletion b.block_owner_deletion

-- The loop over the owner references, and whether it changes them.
unfoldable pub ensure_ref : OwnerReference → List OwnerReference → List OwnerReference × Bool
ensure_ref want [] = (want ∷ [], true)
ensure_ref want (o ∷ os) =
    let rest = ensure_ref want os in
    if str_eq o.uid want.uid
    then (if owner_ref_matches o want then (o ∷ os, false) else (want ∷ os, true))
    else (o ∷ rest.0, rest.1)

-- `ensureRROwnerRef`: the reference that it wants is the one that the HTTPRoutes carry.
unfoldable pub ensure_rr_owner_ref : RemoteRoute → ContextRoute → RemoteRoute × Bool
unfolding ensure_ref
ensure_rr_owner_ref rr cr =
    let (refs, changed) = ensure_ref (cr_owner_ref cr) rr.meta.owner_references in
    (record rr { meta = record rr.meta { owner_references = refs } }, changed)

bool_ptr_eq_self : (o : Option Bool) → bool_ptr_eq o o ≡ true
bool_ptr_eq_self none = refl
bool_ptr_eq_self (some true) = refl
bool_ptr_eq_self (some false) = refl

owner_ref_matches_self : (r : OwnerReference) → owner_ref_matches r r ≡ true
unfolding owner_ref_matches
owner_ref_matches_self r =
    rw
      (
        str_eq_self r.api_version,
        str_eq_self r.kind,
        str_eq_self r.name,
        str_eq_self r.uid,
        bool_ptr_eq_self r.controller,
        bool_ptr_eq_self r.block_owner_deletion,
      )
      refl

ensure_ref_twice :
    (want : OwnerReference) (refs : List OwnerReference)
    → ensure_ref want (ensure_ref want refs).0 ≡ ((ensure_ref want refs).0, false)
unfolding ensure_ref
ensure_ref_twice want [] = rw (str_eq_self want.uid, owner_ref_matches_self want) refl
ensure_ref_twice want (o ∷ os) = elim (Bool-cases (str_eq o.uid want.uid)) [
  | inr e ↦ rw (e, e, ensure_ref_twice want os) refl
  | inl e ↦ elim (Bool-cases (owner_ref_matches o want)) [
    | inl m ↦ rw (e, m, e, m) refl
    | inr m ↦ rw (e, m, str_eq_self want.uid, owner_ref_matches_self want) refl
  ]
]

-- After `ensureRROwnerRef` has run once, it changes nothing more: the run that follows the requeue
-- goes past it.
pub ensure_rr_owner_ref_twice :
    (rr : RemoteRoute) (cr : ContextRoute)
    → ensure_rr_owner_ref (ensure_rr_owner_ref rr cr).0 cr ≡ ((ensure_rr_owner_ref rr cr).0, false)
unfolding ensure_rr_owner_ref
ensure_rr_owner_ref_twice rr cr =
    ap
      (λ (refs, changed).
        (record rr { meta = record rr.meta { owner_references = refs } }, changed))
      (ensure_ref_twice (cr_owner_ref cr) rr.meta.owner_references)
