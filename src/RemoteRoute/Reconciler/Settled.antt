-- ===== src/RemoteRoute/Reconciler/Settled.antt =====
-- The requeue after the owner reference was added comes to an end.
use mathlib.Core.Path.{subst}
use route_prism.Common.{◌≡◌, sym, ap, Bool, true, false, List, [], ◌∷◌, All, Str}
use route_prism.Kube.Types.{ContextRoute, RemoteRoute}
use route_prism.Kube.Reconcile.{ok}
use route_prism.RemoteRoute.Client.{
  Write, update, update_status, apply_config_map, apply_service, apply_deployment, event, Client,
}
use route_prism.RemoteRoute.Owner.{ensure_rr_owner_ref, ensure_rr_owner_ref_twice}
use route_prism.RemoteRoute.Reconciler.{with_variant_name, run}
use route_prism.RemoteRoute.Reconciler.Ready.{IsAdoption, IsProvisioned}
use route_prism.RemoteRoute.Reconciler.Provisioned.{run-IsProvisioned}

-- The client that answers with the RemoteRoute as it was updated.
abbrev pub after_update : Client → RemoteRoute → Client
after_update c rr = record c { get_remote_route = λ _ _. ok rr }

abbrev pub IsNotUpdate : Write → Type 0
IsNotUpdate (update rr) = ⊥
IsNotUpdate (update_status rr) = Unit
IsNotUpdate (apply_config_map cm) = Unit
IsNotUpdate (apply_service svc) = Unit
IsNotUpdate (apply_deployment dep) = Unit
IsNotUpdate (event reason) = Unit

module _ (c : Client) (namespace name : Str) where
  -- Whether the reconciler would change the RemoteRoute, given the parent that it reads.
  changes : RemoteRoute → ContextRoute → Bool
  changes rr cr = (ensure_rr_owner_ref (with_variant_name rr) cr).1

  unchanged :
      (found rr : RemoteRoute) (cr cr' : ContextRoute)
      → c.get_context_route found.namespace found.spec.context_route_ref ≡ ok cr
      → (ensure_rr_owner_ref (with_variant_name found) cr).0 ≡ rr
      → c.get_context_route rr.namespace rr.spec.context_route_ref ≡ ok cr'
      → changes rr cr' ≡ false
  unfolding changes ensure_rr_owner_ref
  unchanged found rr cr cr' parent_read same =
      subst
        (λ r.
          c.get_context_route r.namespace r.spec.context_route_ref ≡ ok cr'
          → (ensure_rr_owner_ref (with_variant_name r) cr').1 ≡ false)
        same (settle cr cr' parent_read)
    where
      settle :
          (x y : ContextRoute)
          → c.get_context_route found.namespace found.spec.context_route_ref ≡ ok x
          → c.get_context_route found.namespace found.spec.context_route_ref ≡ ok y
          → (ensure_rr_owner_ref
              (with_variant_name (ensure_rr_owner_ref (with_variant_name found) x).0)
              y).1
            ≡ false
      settle x y h k =
          let same_parent : x ≡ y = cc in
          subst
            (λ z.
              (ensure_rr_owner_ref
                (with_variant_name (ensure_rr_owner_ref (with_variant_name found) x).0) z).1
              ≡ false)
            same_parent (ap (λ p. p.1) (ensure_rr_owner_ref_twice (with_variant_name found) x))

  settled_write :
      (rr : RemoteRoute)
      → IsAdoption c namespace name rr
      → (w : Write) → IsProvisioned (after_update c rr) namespace name w
      → IsNotUpdate w
  unfolding changes
  settled_write rr a (update rr') b =
      let same_found : rr ≡ b.found = let h = b.is_read in cc in
      let parent =
        subst (λ r. c.get_context_route r.namespace r.spec.context_route_ref ≡ ok b.cr)
          (sym same_found) b.parent_read in
      let still = unchanged a.found rr a.cr b.cr a.parent_read (ap (λ p. p.0) a.adopted) parent in
      let moved : changes rr b.cr ≡ true =
        subst (λ r. changes r b.cr ≡ true) (sym same_found) (ap (λ p. p.1) b.adopted) in
      cc (still, moved)
  settled_write rr a (update_status rr') b = tt
  settled_write rr a (apply_config_map cm) b = tt
  settled_write rr a (apply_service svc) b = tt
  settled_write rr a (apply_deployment dep) b = tt
  settled_write rr a (event reason) b = tt

  settled_writes :
      (rr : RemoteRoute)
      → IsAdoption c namespace name rr
      → (ws : List Write) → All (IsProvisioned (after_update c rr) namespace name) ws
      → All IsNotUpdate ws
  settled_writes rr a [] h = tt
  settled_writes rr a (w ∷ ws) (p, h) = (settled_write rr a w p, settled_writes rr a ws h)

-- A RemoteRoute is updated at most once: the run that reads the RemoteRoute as it was
-- updated, and finds its ContextRoute as before, updates it no more.
pub run-settled :
    (c : Client) (namespace name : Str) (rr : RemoteRoute)
    → IsAdoption c namespace name rr
    → All IsNotUpdate (run (after_update c rr) namespace name).1
run-settled c namespace name rr a =
    settled_writes c namespace name rr a _ (run-IsProvisioned (after_update c rr) namespace name)
