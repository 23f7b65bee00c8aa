-- ===== src/RemoteRoute/Reconciler/Ready.antt =====
-- The answers that justify the writes of a run of the reconciler.
use route_prism.Common.{◌≡◌, ◌⊎◌, true, false, some, is_nil, Str}
use route_prism.Kube.Types.{ContextRoute, RemoteRoute}
use route_prism.Kube.Reconcile.{ok}
use route_prism.RemoteRoute.Client.{
  Write, update, update_status, apply_config_map, apply_service, apply_deployment, event, Client,
}
use route_prism.RemoteRoute.Owner.{ensure_rr_owner_ref}
use route_prism.RemoteRoute.Upstreams.{Resolved}
use route_prism.RemoteRoute.Upstreams.Accepted.{IsAccepted}
use route_prism.RemoteRoute.Proxy.{
  render_envoy_config, render_remote_config_map, render_remote_service, render_remote_admin_service,
  render_remote_deployment,
}
use route_prism.RemoteRoute.Reconciler.Conditions.{IsTold}
use route_prism.RemoteRoute.Reconciler.{with_variant_name}

-- The answers of the client in a run for `namespace` and `name` that lead to a proxy: the RemoteRoute,
-- its parent, whose owner reference it has already, a selector of `matchLabels` only, acceptable
-- upstreams, and the configuration for them.
pub record IsReady (c : Client) (namespace name : Str) : Type 0 where
  pub found : RemoteRoute
  pub is_read : c.get_remote_route namespace name ≡ ok found
  pub cr : ContextRoute
  pub parent_read : c.get_context_route found.namespace found.spec.context_route_ref ≡ ok cr
  pub rr : RemoteRoute
  pub adopted : ensure_rr_owner_ref (with_variant_name found) cr ≡ (rr, false)
  pub no_expressions : is_nil cr.spec.selector.match_expressions ≡ true
  pub has_labels : is_nil cr.spec.selector.match_labels ≡ false
  pub groups : Resolved
  pub accepted : IsAccepted c.parse_url rr groups
  pub conf : Str
  pub conf_rendered : render_envoy_config c.execute rr groups ≡ some conf

-- The RemoteRoute is updated only to get the owner reference that it lacks.
pub record IsAdoption (c : Client) (namespace name : Str) (rr : RemoteRoute) : Type 0 where
  pub found : RemoteRoute
  pub is_read : c.get_remote_route namespace name ≡ ok found
  pub cr : ContextRoute
  pub parent_read : c.get_context_route found.namespace found.spec.context_route_ref ≡ ok cr
  pub adopted : ensure_rr_owner_ref (with_variant_name found) cr ≡ (rr, true)

module _ (c : Client) (namespace name : Str) where
  -- An applied object is one of the four that are rendered for a RemoteRoute that is ready.
  abbrev pub IsProvisioned : Write → Type 0
  IsProvisioned (update rr) = IsAdoption c namespace name rr
  IsProvisioned (update_status rr) = Unit
  IsProvisioned (event reason) = Unit
  IsProvisioned (apply_config_map cm) =
      (j : IsReady c namespace name) × (cm ≡ render_remote_config_map j.rr j.conf)
  IsProvisioned (apply_service svc) =
      (j : IsReady c namespace name) × ((svc
          ≡ render_remote_service j.rr j.cr.spec.selector.match_labels)
        ⊎ (svc ≡ render_remote_admin_service j.rr))
  IsProvisioned (apply_deployment dep) =
      (j : IsReady c namespace name) × (dep ≡ render_remote_deployment c.checksum j.rr j.conf)

  -- What the run keeps up: that, and what the written status tells.
  abbrev pub IsSound : Write → Type 0
  IsSound (update_status rr) = IsTold c namespace name rr
  IsSound (update rr) = IsProvisioned (update rr)
  IsSound (event reason) = Unit
  IsSound (apply_config_map cm) = IsProvisioned (apply_config_map cm)
  IsSound (apply_service svc) = IsProvisioned (apply_service svc)
  IsSound (apply_deployment dep) = IsProvisioned (apply_deployment dep)
