-- ===== src/RemoteRoute/Variant.antt =====
-- A RemoteRoute's proxy as a variant of its ContextRoute: from the rendered Service to the rule of the
-- HTTPRoute.
use mathlib.Core.Path.{subst}
use mathlib.Core.List.{Memᴰ}
use mathlib.Core.List.Memᴰ
use route_prism.Common.{◌≡◌, ap, ◌∙◌, Bool, true, false, not, some, List, map, str_eq}
use route_prism.Common.Assoc.{keys, entry-lookup}
use route_prism.Common.Members.{mem-filter, mem-sort_slice}
use route_prism.Common.SortStrict.{IsDistinct}
use route_prism.Kube.Meta.{Labels, Service}
use route_prism.Kube.Types.{ContextRoute, RemoteRoute, effective_routing_key, propagation_header}
use route_prism.Kube.Workloads.{ServiceConfig, selects}
use route_prism.Render.{
  HttpRouteRule, baggage_match_regex, variant_rule, sorted_by_name, first_port, port_of,
  render_cr_http_route,
}
use route_prism.ContextRoute.Client.{Client}
use route_prism.ContextRoute.Reconciler.{variants_of}
use route_prism.RemoteRoute.Proxy.{render_remote_service}
use route_prism.RemoteRoute.Proxy.Selectors.{
  Allows, selects_entry, selects_all, rr_service_labels-selected,
}

-- `svc` is what the API server keeps of the applied configuration: its name, its ports, and at least
-- its labels, beside those of other managers.
pub record IsLive (config : ServiceConfig) (svc : Service) : Type 0 where
  pub same_name : svc.name ≡ config.name
  pub has_labels : selects config.labels svc.labels ≡ true
  pub same_ports :
      svc.ports ≡ map (λ p. record { port = p.port; app_protocol = p.app_protocol }) config.ports

-- A selector that is met by some labels is met by any that have them all.
selects_trans :
    (sel small large : Labels)
    → selects sel small ≡ true
    → selects small large ≡ true
    → selects sel large ≡ true
selects_trans sel small large h k = selects_all sel large (λ j v m.
    selects_entry small large j v (entry-lookup j v small (selects_entry sel small j v m h)) k)

-- The rule that sends the requests with `<routing key>=<name of the RemoteRoute>` in their baggage to
-- the proxy.
abbrev pub proxy_rule : ContextRoute → RemoteRoute → HttpRouteRule
proxy_rule cr rr = record {
  header = some (record {
    name = propagation_header;
    value = baggage_match_regex (effective_routing_key cr) rr.name;
  });
  backend = record { name = rr.name; port = 80 };
}

module _ (cr : ContextRoute) (rr : RemoteRoute) (svc : Service) where
  abbrev variant_labels : Labels
  variant_labels = cr.spec.selector.match_labels

  variant_rule-live :
      IsLive (render_remote_service rr variant_labels) svc
      → variant_rule (effective_routing_key cr) svc ≡ proxy_rule cr rr
  unfolding render_remote_service variant_rule first_port
  variant_rule-live live = λ i. record {
    header = some (record {
      name = propagation_header;
      value = baggage_match_regex (effective_routing_key cr) (live.same_name i);
    });
    backend = record { name = live.same_name i; port = port_of (live.same_ports i) };
  }

-- The Service that is rendered for a RemoteRoute of the ContextRoute becomes a variant of it: where
-- the `matchLabels` allow it, the list call returns the live Service with what matches the selector,
-- and the RemoteRoute is not named like the target, the HTTPRoute that is rendered for the
-- ContextRoute has the rule that sends `<routing key>=<name of the RemoteRoute>` to port 80 of the
-- proxy.
pub render_remote_service-routed :
    (c : Client) (cr : ContextRoute) (rr : RemoteRoute) (svc target : Service)
    (services : List Service) (all : Bool)
    → IsDistinct (λ s. s) (keys cr.spec.selector.match_labels)
    → Allows rr cr.spec.selector.match_labels
    → IsLive (render_remote_service rr cr.spec.selector.match_labels) svc
    → (selects cr.spec.selector.match_labels svc.labels ≡ true → Memᴰ svc services)
    → str_eq rr.name cr.target ≡ false
    → Memᴰ
        (proxy_rule cr rr)
        (render_cr_http_route cr target (variants_of c cr.target services) all).rules
unfolding render_cr_http_route sorted_by_name render_remote_service
render_remote_service-routed c cr rr svc target services all distinct allows live listed apart =
    let found = listed (
      selects_trans cr.spec.selector.match_labels _ svc.labels
        ((rr_service_labels-selected rr cr.spec.selector.match_labels distinct).1 allows)
        live.has_labels) in
    let is_variant : not (str_eq svc.name cr.target) ≡ true =
      ap (λ n. not (str_eq n cr.target)) live.same_name ∙ ap not apart in
    let variants = variants_of c cr.target services in
    let rule_of = variant_rule (effective_routing_key cr) in
    let sorted : Memᴰ svc (sorted_by_name variants) =
      mem-sort_slice _ svc variants
        (mem-filter (λ s. not (str_eq s.name cr.target)) svc services is_variant found) in
    Memᴰ.append_left {s = map rule_of (sorted_by_name variants)} _ (
      subst (λ r. Memᴰ r (map rule_of (sorted_by_name variants))) (variant_rule-live cr rr svc live)
        (Memᴰ.map rule_of sorted))
