-- ===== src/EdgeTransformation/Watches.antt =====
-- The map functions of `EdgeTransformationReconciler.SetupWithManager`: which EdgeTransformations are
-- reconciled when another object changes. An error of the list call, and the empty list that it
-- gives, are left to the caller.
pub mod Affects
use route_prism.Common.{
  ◌≡◌, refl, Bool, false, not, ◌||◌, Option, none, some, List, [], ◌∷◌, map, if◌then◌else◌, Str,
  str_eq, is_empty,
}
use route_prism.Kube.Meta.{label_of, Service}
use route_prism.Kube.Types.{ContextRoute, EdgeTransformation}
use route_prism.Kube.Reconcile.{ok, err}
use route_prism.Election.{find_cr_for_target}
use route_prism.Render.{
  HttpRoute, label_managed_by, label_kind, label_owner, managed_by_value, kind_edge_transformation,
  http_route_labels, render_cr_http_route, render_et_http_route,
}
use route_prism.ContextRoute.Watches.{
  Request, request_of, map_http_route_to_cr, map_http_route_to_cr-render,
}
use route_prism.EdgeTransformation.Client.{Client}

abbrev pub edge_request : EdgeTransformation → Request
edge_request et = record { namespace = et.namespace; name = et.name }

module _ (c : Client) where
  -- `findCRForTarget`, whose error is dropped here.
  abbrev pub elected : EdgeTransformation → Option ContextRoute
  elected et = elim (c.list_context_routes et.namespace) [
    | err e ↦ none
    | ok crs ↦ find_cr_for_target et.target crs
  ]

  -- Whether the Service is a variant of the ContextRoute.
  abbrev pub selects : Option ContextRoute → Service → Bool
  selects none svc = false
  selects (some cr) svc = elim (c.as_selector cr.spec.selector) [
    | none ↦ false
    | some sel ↦ sel svc.labels
  ]

  -- `mapServiceToETs` over the EdgeTransformations of the namespace.
  unfoldable pub map_service_to_ets : Service → List EdgeTransformation → List Request
  map_service_to_ets svc [] = []
  map_service_to_ets svc (et ∷ ets) =
      let rest = map_service_to_ets svc ets in
      if str_eq et.target svc.name
      then edge_request et ∷ rest
      else if selects (elected et) svc
      then edge_request et ∷ rest
      else rest

-- `mapEndpointSliceToETs` over the EdgeTransformations of the namespace, for a slice of the Service.
abbrev pub map_endpoint_slice_to_ets : (service_name : Str) → List EdgeTransformation → List Request
map_endpoint_slice_to_ets service_name ets =
    if is_empty service_name then [] else map edge_request ets

-- `mapCRToET` over the EdgeTransformations of the namespace.
unfoldable pub map_cr_to_et : ContextRoute → List EdgeTransformation → List Request
map_cr_to_et cr [] = []
map_cr_to_et cr (et ∷ ets) =
    let rest = map_cr_to_et cr ets in
    if str_eq et.target cr.target then edge_request et ∷ rest else rest

-- `mapHTTPRouteToET`
unfoldable pub map_http_route_to_et : HttpRoute → List Request
unfolding label_of
map_http_route_to_et hr =
    if not (str_eq (label_of label_managed_by hr.labels) managed_by_value)
      || not (str_eq (label_of label_kind hr.labels) kind_edge_transformation)
    then []
    else if is_empty (label_of label_owner hr.labels)
    then []
    else record { namespace = hr.namespace; name = label_of label_owner hr.labels } ∷ []

map_http_route_to_et-render :
    (et : EdgeTransformation) (target : Service) (cr : ContextRoute) (cr_target : Service)
    (variants : List Service) (all : Bool)
    → target.namespace ≡ et.namespace
    → is_empty et.name ≡ false
    → (map_http_route_to_et (render_et_http_route et target) ≡ edge_request et ∷ [])
      × (map_http_route_to_et (render_cr_http_route cr cr_target variants all) ≡ [])
unfolding map_http_route_to_et render_cr_http_route render_et_http_route http_route_labels
map_http_route_to_et-render et target cr cr_target variants all same named =
    (rw (named, same) refl, refl)

-- An HTTPRoute wakes the object that it is rendered for, and that one only: for a ContextRoute and an
-- EdgeTransformation with names that are not empty and targets in their own namespaces, the route of
-- the ContextRoute wakes it and no EdgeTransformation, and the route of the EdgeTransformation wakes
-- it and no ContextRoute.
pub rendered_routes_wake :
    (cr : ContextRoute) (cr_target : Service) (variants : List Service) (all : Bool)
    (et : EdgeTransformation) (target : Service)
    → cr_target.namespace ≡ cr.namespace
    → is_empty cr.name ≡ false
    → target.namespace ≡ et.namespace
    → is_empty et.name ≡ false
    → ((map_http_route_to_cr (render_cr_http_route cr cr_target variants all) ≡ request_of cr ∷ [])
        × (map_http_route_to_et (render_cr_http_route cr cr_target variants all) ≡ []))
      × (map_http_route_to_cr (render_et_http_route et target) ≡ [])
      × (map_http_route_to_et (render_et_http_route et target) ≡ edge_request et ∷ [])
rendered_routes_wake cr cr_target variants all et target cr_same cr_named same named =
    let by_cr = map_http_route_to_cr-render cr cr_target variants all et target cr_same cr_named in
    let by_et = map_http_route_to_et-render et target cr cr_target variants all same named in
    ((by_cr.0, by_et.1), by_cr.1, by_et.0)
