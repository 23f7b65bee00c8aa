-- ===== src/Tests/Success.antt =====
-- A run of the ContextRoute reconciler that applies its HTTPRoute.
use route_prism.Common.{◌≡◌, refl, true, none, List, [], ◌∷◌, all, codes, str_eq}
use route_prism.Common.Sort.{sort_slice}
use route_prism.Kube.Meta.{label_of, contains_str, Service}
use route_prism.Kube.Types.{ContextRoute, effective_routing_key, older}
use route_prism.Kube.Reconcile.{ok, done}
use route_prism.Election.{resolve_owner, key_owner, loses_key}
use route_prism.Render.{HttpRoute, render_cr_http_route}
use route_prism.ContextRoute.Client.{Write, apply, update_status, delete_http_route}
use route_prism.ContextRoute.Beaten.{as_deleted, with_route, beaten_deletes}
use route_prism.ContextRoute.Steps.{gamma_supported_service_type, has_live_et, with_conflict}
use route_prism.ContextRoute.Reconciler.{with_target, variants_of, ready_status, run}
use route_prism.ContextRoute.Allowed.{IsJustified}
use route_prism.ContextRoute.Success.{run-justified}
use route_prism.Tests.Routes.{first_route, later_route, service_of, cluster}

abbrev services : List Service
services = service_of (codes "v2") ∷ service_of (codes "orders") ∷ []

abbrev expected : HttpRoute
expected =
    render_cr_http_route first_route (service_of (codes "orders"))
      (variants_of cluster (codes "orders") services) true

unfoldable justified : IsJustified cluster (codes "demo") (codes "a") expected
unfolding contains_str resolve_owner key_owner loses_key effective_routing_key label_of older
    sort_slice gamma_supported_service_type
justified = record {
  cr = first_route;
  is_read = refl;
  alive = refl;
  held = refl;
  peers = later_route ∷ first_route ∷ [];
  peers_read = refl;
  owned = refl;
  all_crs = later_route ∷ first_route ∷ [];
  all_crs_read = refl;
  keeps_key = refl;
  target = service_of (codes "orders");
  target_read = refl;
  supported = refl;
  selector =
      λ labels. all (λ (k, v). str_eq (label_of k labels) v) first_route.spec.selector.match_labels;
  services = services;
  services_read = refl;
  selector_read = refl;
  ets = [];
  ets_read = refl;
  undelegated = refl;
  rendered = refl;
}

run-justified_example : run cluster (codes "demo") (codes "a") ≡ (
  ok done,
  apply expected
      ∷ update_status (
          ready_status cluster
            (with_conflict cluster (with_target cluster first_route) none)
            (variants_of cluster (codes "orders") services)
            (has_live_et cluster (codes "orders") []))
      ∷ [],
)
unfolding justified
run-justified_example =
    run-justified cluster (codes "demo") (codes "a") expected refl (λ w. refl) justified

beaten_deletes_example :
    (after : ContextRoute) × (rest : List Write) × ((run cluster (codes "demo") (codes "b")).1
      ≡ update_status after ∷ [])
    × ((run (with_route cluster (as_deleted after)) (codes "demo") (codes "b")).1
        ≡ delete_http_route expected.name expected.namespace ∷ rest)
unfolding contains_str resolve_owner older sort_slice
beaten_deletes_example =
    beaten_deletes cluster (codes "demo") (codes "b") later_route first_route
      (later_route ∷ first_route ∷ []) (service_of (codes "orders"))
      (variants_of cluster (codes "orders") services) true refl refl refl refl refl refl refl refl
      refl refl
