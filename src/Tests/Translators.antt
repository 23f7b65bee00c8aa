-- ===== src/Tests/Translators.antt =====
-- The EdgeTransformation reconciler in a small cluster.
use mathlib.Core.List.{Memᴰ}
use route_prism.Common.{
  not, ◌&&◌, ◌≡◌, refl, true, false, none, some, List, [], ◌∷◌, map, All, codes,
}
use route_prism.Common.Sort.{sort_slice}
use route_prism.Kube.Types.{
  EdgeMode, router, envoy_lua, EdgeTransformation, effective_routing_key, older,
}
use route_prism.Kube.Reconcile.{not_found, ok, err}
use route_prism.Election.{find_cr_for_target}
use route_prism.ContextRoute.Client as CrClient
use route_prism.ContextRoute.Reconciler as CrReconciler
use route_prism.EdgeTransformation.Endpoints.{EndpointSlice, first_ready_endpoint}
use route_prism.EdgeTransformation.Client.{Client}
use route_prism.Translator.Conf.{render_nginx_conf}
use route_prism.EdgeTransformation.Reconciler.{is_router, collect_variant_backends, run}
use route_prism.EdgeTransformation.Reconciler.Served.{IsAllowed, run-IsServed}
use route_prism.Delegation.{cr_applies, et_applies, unrouted}
use route_prism.Tests.Routes.{meta_of, first_route, service_of, cluster}

abbrev edge_of : EdgeMode → EdgeTransformation
edge_of mode = record {
  meta = meta_of (codes "edge") (codes "demo") (codes "u9") 3;
  spec = record {
    mode = mode;
    source_cookie = codes "route";
    target = codes "orders";
    widget_injection = none;
  };
  status = record { translator_ready = false; target_service = []; conditions = [] };
}

abbrev slices : List EndpointSlice
slices =
    record {
      ipv4 = true;
      ports = none ∷ some 8080 ∷ [];
      endpoints =
          record { ready = some false; addresses = codes "10.0.0.1" ∷ [] }
          ∷ record { ready = none; addresses = codes "10.0.0.7" ∷ codes "10.0.0.3" ∷ [] }
          ∷ [];
    }
    ∷ []

abbrev pub edge_cluster : EdgeMode → Client
edge_cluster mode = record {
  get_edge_transformation = λ ns n. ok (edge_of mode);
  get_service = λ ns n. ok (service_of n);
  list_context_routes = λ ns. ok (first_route ∷ []);
  list_services = λ ns sel. ok (service_of (codes "v2") ∷ []);
  list_endpoint_slices = λ ns s. ok slices;
  get_deployment = λ ns n. ok 1;
  get_http_route = λ ns n. err not_found;
  as_selector = λ sel. some (λ labels. true);
  renderer = record {
    marshal = λ cfg. some [];
    execute = λ conf. some conf.routing_key;
    operator_api_addr = [];
  };
  write = λ w. none;
  has_recorder = false;
}

least_address : first_ready_endpoint slices ≡ (codes "10.0.0.3", 8080)
unfolding first_ready_endpoint
least_address = refl

run-IsServed_example :
    All
      (IsAllowed (edge_cluster router) (codes "demo") (codes "edge"))
      (run (edge_cluster router) (codes "demo") (codes "edge")).1
run-IsServed_example = run-IsServed (edge_cluster router) (codes "demo") (codes "edge")

-- Such a run does apply an HTTPRoute, after the translator's three objects.
served :
    map et_applies (run (edge_cluster router) (codes "demo") (codes "edge")).1
    ≡ false ∷ false ∷ false ∷ true ∷ false ∷ []
unfolding run find_cr_for_target collect_variant_backends render_nginx_conf first_ready_endpoint
    sort_slice older effective_routing_key
served = refl

abbrev shared_cluster : CrClient.Client
shared_cluster = record cluster {
  list_edge_transformations = λ ns. ok (edge_of router ∷ edge_of envoy_lua ∷ []);
}

unrouted_example :
    All (λ w. cr_applies w ≡ false) (CrReconciler.run shared_cluster (codes "demo") (codes "a")).1
    × All
        (λ w. (et_applies w && not (is_router envoy_lua)) ≡ false)
        (run (edge_cluster envoy_lua) (codes "demo") (codes "edge")).1
unrouted_example =
    unrouted shared_cluster (edge_cluster envoy_lua) (codes "demo") (codes "a") (codes "edge")
      first_route (service_of (codes "orders")) (edge_of envoy_lua)
      (edge_of router ∷ edge_of envoy_lua ∷ []) refl refl refl (Memᴰ.tail (Memᴰ.head refl)) refl
      refl refl
