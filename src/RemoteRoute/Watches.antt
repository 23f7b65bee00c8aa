-- ===== src/RemoteRoute/Watches.antt =====
-- The map function of `RemoteRouteReconciler.SetupWithManager`: which RemoteRoutes are reconciled when
-- a ContextRoute changes. An error of the list call, and the empty list that it gives, are left to
-- the caller.
use route_prism.Common.{List, [], ◌∷◌, if◌then◌else◌, str_eq}
use route_prism.Kube.Types.{ContextRoute, RemoteRoute}
use route_prism.ContextRoute.Watches.{Request}

abbrev pub remote_request : RemoteRoute → Request
remote_request rr = record { namespace = rr.namespace; name = rr.name }

-- `mapCRToRRs` over the RemoteRoutes of the namespace.
unfoldable pub map_cr_to_rrs : ContextRoute → List RemoteRoute → List Request
map_cr_to_rrs cr [] = []
map_cr_to_rrs cr (rr ∷ rrs) =
    let rest = map_cr_to_rrs cr rrs in
    if str_eq rr.spec.context_route_ref cr.name then remote_request rr ∷ rest else rest
