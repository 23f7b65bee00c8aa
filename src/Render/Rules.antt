-- ===== src/Render/Rules.antt =====
-- The rules of a rendered HTTPRoute.
use route_prism.Common.{◌≡◌, refl, Bool, List}
use route_prism.Kube.Meta.{Service}
use route_prism.Kube.Types.{ContextRoute, ContextRouteStatus, effective_routing_key}
use route_prism.Render.{cr_owner_ref, render_cr_http_route}

-- The status of a ContextRoute does not reach its HTTPRoute.
pub render_cr_http_route-status :
    (cr : ContextRoute) (s : ContextRouteStatus) (target : Service) (variants : List Service)
    (all : Bool)
    → render_cr_http_route (record cr { status = s }) target variants all
      ≡ render_cr_http_route cr target variants all
unfolding render_cr_http_route cr_owner_ref effective_routing_key
render_cr_http_route-status cr s target variants all = refl
