-- ===== src/Tests/Proxies.antt =====
-- RemoteRoutes: their upstreams, the objects of their proxies, and runs of their reconciler.
use mathlib.Core.List.{Memᴰ}
use route_prism.Common.{
  ltb, if◌then◌else◌, ◌^◌, ◌≡◌, ◌↔◌, refl, true, false, some, List, [], ◌∷◌, inl, drop, Str, str_eq,
  codes,
}
use route_prism.Common.Atoi.{atoi_unsigned, digits_value}
use route_prism.Common.Int.{pos, negsuc, int32}
use route_prism.Common.Results.{Result, value, failure}
use route_prism.Kube.Meta.{Service}
use route_prism.Kube.Types.{RemoteRoute}
use route_prism.Kube.Workloads.{selects, IsWired}
use route_prism.Render.{render_cr_http_route}
use route_prism.ContextRoute.Reconciler.{variants_of}
use route_prism.RemoteRoute.Upstreams.{
  Url, Resolved, invalid_port, port_for_url, looks_like_ip, resolve_upstreams,
}
use route_prism.RemoteRoute.Upstreams.Accepted.{IsAccepted, resolve_upstreams_iff}
use route_prism.RemoteRoute.Upstreams.Ports.{IsWrapped, port_for_url_wraps}
use route_prism.RemoteRoute.Proxy.{
  rr_service_labels, render_remote_config_map, render_remote_service, render_remote_admin_service,
  render_remote_deployment,
}
use route_prism.RemoteRoute.Proxy.Selectors.{
  Allows, rr_service_labels-selected, render_remote-IsWired, render_remote-isolated,
}
use route_prism.RemoteRoute.Variant.{proxy_rule, render_remote_service-routed}
use route_prism.Translator.Objects.{render_translator_deployment}
use route_prism.Tests.Routes.{meta_of, first_route, service_of, cluster, no_edge}
use route_prism.Tests.Remotes.{remote}

-- URLs of the scheme `http` with no port.
abbrev pub parse_plain : Str → Result Str Url
parse_plain raw = value (record { scheme = codes "http"; hostname = drop 7 raw; port = [] })

abbrev pub resolved : Resolved
resolved = record {
  groups =
      record {
        name = codes "one";
        endpoints = record { host = codes "10.1.0.1"; port = pos 80; hostname = [] } ∷ [];
      }
      ∷ record {
        name = codes "two";
        endpoints = record { host = codes "10.1.0.2"; port = pos 80; hostname = [] } ∷ [];
      }
      ∷ [];
  is_https = false;
  lb_policy = codes "ROUND_ROBIN";
}

resolves : resolve_upstreams parse_plain remote ≡ value resolved
unfolding resolve_upstreams port_for_url
resolves = refl

resolve_upstreams_iff_example :
    (resolve_upstreams parse_plain remote ≡ value resolved) ↔ IsAccepted parse_plain remote resolved
resolve_upstreams_iff_example = resolve_upstreams_iff parse_plain remote resolved

addresses : looks_like_ip (codes "10.1.0.255") ≡ true
unfolding looks_like_ip atoi_unsigned
addresses = refl

not_address : looks_like_ip (codes "10.1.0.256") ≡ false
unfolding looks_like_ip atoi_unsigned
not_address = refl

abbrev far_port : Url
far_port = record { scheme = codes "http"; hostname = codes "h"; port = codes "4294967376" }

port_for_url_wraps_example :
    (port_for_url far_port ≡ (
      if ltb 4294967376 (2 ^ 63)
      then value (int32 4294967376)
      else failure (invalid_port (codes "4294967376"))))
    × IsWrapped 4294967376 (int32 4294967376)
unfolding digits_value
port_for_url_wraps_example = port_for_url_wraps far_port 4294967376 refl refl

wrapped : int32 4294967376 ≡ pos 80
unfolding int32
wrapped = refl

negative : int32 2147483648 ≡ negsuc 2147483647
unfolding int32
negative = refl

abbrev pub app_orders : List (Str × Str)
app_orders = (codes "app", codes "orders") ∷ []

rr_service_labels-selected_example :
    (selects app_orders (render_remote_service remote app_orders).labels ≡ true)
    ↔ Allows remote app_orders
rr_service_labels-selected_example = rr_service_labels-selected remote app_orders (tt, tt)

abbrev named_app : List (Str × Str)
named_app = (codes "app.kubernetes.io/name", codes "orders") ∷ []

-- The label is overwritten, and the selector does not find the Service.
not_selected : selects named_app (render_remote_service remote named_app).labels ≡ false
unfolding render_remote_service
not_selected = refl

abbrev pub hash : Str → Str
hash s = codes "0"

render_remote-IsWired_example :
    IsWired
      (render_remote_config_map remote (codes "x"))
      (render_remote_service remote app_orders)
      (render_remote_deployment hash remote (codes "x"))
    × IsWired
        (render_remote_config_map remote (codes "x"))
        (render_remote_admin_service remote)
        (render_remote_deployment hash remote (codes "x"))
render_remote-IsWired_example = render_remote-IsWired hash remote app_orders (codes "x")

abbrev other_remote : RemoteRoute
other_remote = record remote { meta = meta_of (codes "desk") (codes "demo") (codes "u6") 8 }

render_remote-isolated_example :
    (selects
        (render_remote_service remote app_orders).selector
        (render_remote_deployment hash other_remote (codes "x")).pod_labels
      ≡ str_eq remote.name other_remote.name)
    × (selects
          (render_remote_admin_service remote).selector
          (render_remote_deployment hash other_remote (codes "x")).pod_labels
        ≡ str_eq remote.name other_remote.name)
    × (selects
          (render_remote_service remote app_orders).selector
          (render_translator_deployment hash no_edge (codes "x")).pod_labels
        ≡ false)
    × (selects
          (render_remote_admin_service remote).selector
          (render_translator_deployment hash no_edge (codes "x")).pod_labels
        ≡ false)
render_remote-isolated_example =
    render_remote-isolated hash remote other_remote app_orders (codes "x") no_edge

-- The proxy's Service as the API server keeps it.
abbrev live : Service
live = record {
  meta = record (meta_of (codes "laptop") (codes "demo") (codes "u8") 9) {
    labels = rr_service_labels remote app_orders;
  };
  service_type = codes "ClusterIP";
  cluster_ip = codes "10.0.0.9";
  ports = record { port = 80; app_protocol = some (codes "http") } ∷ [];
}

abbrev listed : List Service
listed = service_of (codes "orders") ∷ live ∷ []

render_remote_service-routed_example :
    Memᴰ
      (proxy_rule first_route remote)
      (render_cr_http_route first_route
        (service_of (codes "orders"))
        (variants_of cluster (codes "orders") listed)
        true).rules
unfolding render_remote_service
render_remote_service-routed_example =
    render_remote_service-routed cluster first_route remote live (service_of (codes "orders"))
      listed true (tt, tt) (inl refl)
      (record { same_name = refl; has_labels = refl; same_ports = refl })
      (λ _. Memᴰ.tail (Memᴰ.head refl)) refl
