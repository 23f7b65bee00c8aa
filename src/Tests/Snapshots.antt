-- ===== src/Tests/Snapshots.antt =====
-- The snapshot index and the endpoints over the cluster of the ContextRoute tests.
use mathlib.Core.List.Permᴰ
use route_prism.Common.{
  suc, ◌≡◌, refl, none, some, [], ◌∷◌, map, filter, length, all, All-filter, codes, str_eq,
}
use route_prism.Common.Sort.{sort_slice}
use route_prism.Common.Assoc.{lookup}
use route_prism.Kube.Meta.{label_of}
use route_prism.Kube.Types.{effective_routing_key, older}
use route_prism.Kube.Reconcile.{ok}
use route_prism.Election.{scan}
use route_prism.Index.Types.{empty_snapshot, Snapshot, Source}
use route_prism.Index.Rebuild.{owners, rebuilt, rebuild, build_alt_entry}
use route_prism.Index.Owners.{claims_key, owners-scan}
use route_prism.Index.Sorted.{IsSnapshot, rebuilt-IsSnapshot}
use route_prism.Api.Filter.Exact.{accepts}
use route_prism.Api.Page.{parse_limit}
use route_prism.Api.Page.Walk.{HasCursors}
use route_prism.Api.Handlers.{Query}
use route_prism.Api.Handlers.Endpoints.{walk_services, walk_services-all}
use route_prism.Tests.ReadApi.{IsBytes-of_all}
use route_prism.Tests.Routes.{first_route, later_route, other_route, service_of}

abbrev source : Source
source = record {
  list_context_routes = ok (later_route ∷ other_route ∷ first_route ∷ []);
  list_edge_transformations = ok [];
  list_remote_routes = ok [];
  list_services = λ ns sel.
      ok (filter (λ s. sel s.labels) (service_of (codes "v2") ∷ service_of (codes "orders") ∷ []));
  as_selector =
      λ sel. some (λ labels. all (λ (k, v). str_eq (label_of k labels) v) sel.match_labels);
  range_keys = λ ks. ks;
  range_owners = λ os. os;
}

abbrev snapshot : Snapshot
snapshot = rebuild source empty_snapshot

built : rebuilt source ≡ ok snapshot
unfolding rebuild build_alt_entry effective_routing_key older sort_slice label_of
built = refl

snapshot_targets : snapshot.targets ≡ codes "demo.orders" ∷ codes "shop.orders" ∷ []
unfolding rebuild build_alt_entry effective_routing_key older sort_slice label_of
snapshot_targets = refl

rebuilt-IsSnapshot_example : IsSnapshot snapshot
rebuilt-IsSnapshot_example = rebuilt-IsSnapshot source snapshot (λ ks. Permᴰ.refl ks) built

owners-scan_example :
    lookup (codes "demo.orders") (owners [] (later_route ∷ first_route ∷ []))
    ≡ scan (claims_key (codes "demo.orders")) none (later_route ∷ first_route ∷ [])
owners-scan_example = owners-scan (codes "demo.orders") (later_route ∷ first_route ∷ []) []

limits :
    map parse_limit (codes "" ∷ codes "20" ∷ codes "+7" ∷ codes "0" ∷ codes "x" ∷ codes "900" ∷ [])
    ≡ 50 ∷ 20 ∷ 7 ∷ 50 ∷ 50 ∷ 500 ∷ []
unfolding parse_limit
limits = refl

abbrev all_services : Query
all_services = record {
  limit = codes "1";
  cursor = [];
  filter = record { equals = []; startswith = []; fuzzy = codes "ORD" };
}

snapshot_cursors : HasCursors (λ s. s) [] snapshot.targets
unfolding rebuild build_alt_entry effective_routing_key older sort_slice label_of
snapshot_cursors = (
  (refl, IsBytes-of_all (codes "demo.orders") refl),
  ((refl, IsBytes-of_all (codes "shop.orders") refl), tt),
)

walk_services-all_example :
    walk_services
      (suc (length (filter (accepts all_services.filter) snapshot.targets)))
      snapshot
      all_services
    ≡ some (filter (accepts all_services.filter) snapshot.targets)
walk_services-all_example =
    walk_services-all snapshot all_services rebuilt-IsSnapshot_example
      (All-filter _ (accepts all_services.filter) snapshot.targets snapshot_cursors) refl
