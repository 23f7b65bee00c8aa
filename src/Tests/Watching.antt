-- ===== src/Tests/Watching.antt =====
-- The map functions of the EdgeTransformation and RemoteRoute reconcilers.
use mathlib.Core.List.{Memᴰ}
use route_prism.Common.{◌≡◌, refl, Bool, true, false, some, [], ◌∷◌, codes, str_eq}
use route_prism.Kube.Meta.{Labels, Service, label_of, contains_str}
use route_prism.Kube.Types.{ContextRoute, router}
use route_prism.Election.{find_cr_for_target}
use route_prism.Render.{render_cr_http_route, render_et_http_route}
use route_prism.ContextRoute.Watches.{request_of, map_http_route_to_cr, map_service_to_crs}
use route_prism.ContextRoute.Watches.Affects.{variants_in, map_service_to_crs-variants}
use route_prism.ContextRoute.Client as CrClient
use route_prism.ContextRoute.Reconciler.{ready_status}
use route_prism.Common.Sort.{sort_slice}
use route_prism.EdgeTransformation.Client.{Client}
use route_prism.EdgeTransformation.Reconciler.{key_and_variants}
use route_prism.EdgeTransformation.Watches.{
  edge_request, elected, map_service_to_ets, map_cr_to_et, map_http_route_to_et,
  rendered_routes_wake,
}
use route_prism.EdgeTransformation.Watches.Affects.{
  with_services, map_cr_to_et-elected, map_service_to_ets-variants,
}
use route_prism.RemoteRoute.Watches.{remote_request, map_cr_to_rrs}
use route_prism.Tests.Routes.{first_route, later_route, no_edge, service_of, cluster}
use route_prism.Tests.Translators.{edge_cluster}
use route_prism.Tests.Remotes.{remote}

rendered_routes_wake_example :
    ((map_http_route_to_cr (
          render_cr_http_route first_route
            (service_of (codes "orders"))
            (service_of (codes "v2") ∷ [])
            true)
        ≡ request_of first_route ∷ [])
      × (map_http_route_to_et (
            render_cr_http_route first_route
              (service_of (codes "orders"))
              (service_of (codes "v2") ∷ [])
              true)
          ≡ []))
    × (map_http_route_to_cr (render_et_http_route no_edge (service_of (codes "orders"))) ≡ [])
    × (map_http_route_to_et (render_et_http_route no_edge (service_of (codes "orders")))
        ≡ edge_request no_edge ∷ [])
rendered_routes_wake_example =
    rendered_routes_wake first_route (service_of (codes "orders")) (service_of (codes "v2") ∷ [])
      true no_edge (service_of (codes "orders")) refl refl refl refl

-- A cluster whose selectors match the labels that have an entry `track`.
abbrev tracked : Client
tracked = record (edge_cluster router) {
  as_selector = λ sel. some (λ labels. str_eq (label_of (codes "track") labels) (codes "on"));
}

abbrev variant : Service
variant =
    let s = service_of (codes "v2") in
    record s { meta = record s.meta { labels = (codes "track", codes "on") ∷ [] } }

abbrev bystander : Service
bystander = let s = service_of (codes "v3") in record s { meta = record s.meta { labels = [] } }

woken : map_service_to_ets tracked variant (no_edge ∷ []) ≡ edge_request no_edge ∷ []
unfolding map_service_to_ets find_cr_for_target label_of
woken = refl

asleep : map_service_to_ets tracked bystander (no_edge ∷ []) ≡ []
unfolding map_service_to_ets find_cr_for_target label_of
asleep = refl

not_woken : Memᴰ (edge_request no_edge) (map_service_to_ets tracked bystander (no_edge ∷ [])) → ⊥
not_woken m = elim (rw asleep at m) [ ]

map_service_to_ets-variants_example :
    key_and_variants
      (with_services tracked (variant ∷ bystander ∷ []))
      no_edge
      (service_of (codes "orders"))
      (elected tracked no_edge)
    ≡ key_and_variants
        (with_services tracked (variant ∷ []))
        no_edge
        (service_of (codes "orders"))
        (elected tracked no_edge)
map_service_to_ets-variants_example =
    map_service_to_ets-variants tracked bystander (variant ∷ []) [] no_edge (no_edge ∷ [])
      (service_of (codes "orders")) (Memᴰ.head refl) not_woken

abbrev elsewhere : ContextRoute
elsewhere = record first_route { spec = record first_route.spec { target = codes "billing" } }

unmapped : map_cr_to_et elsewhere (no_edge ∷ []) ≡ []
unfolding map_cr_to_et
unmapped = refl

not_mapped : Memᴰ (edge_request no_edge) (map_cr_to_et elsewhere (no_edge ∷ [])) → ⊥
not_mapped m = elim (rw unmapped at m) [ ]

map_cr_to_et-elected_example :
    find_cr_for_target no_edge.target (later_route ∷ elsewhere ∷ first_route ∷ [])
    ≡ find_cr_for_target no_edge.target (later_route ∷ first_route ∷ [])
map_cr_to_et-elected_example =
    map_cr_to_et-elected elsewhere no_edge (no_edge ∷ []) (later_route ∷ []) (first_route ∷ [])
      (Memᴰ.head refl) not_mapped

remote_woken : map_cr_to_rrs first_route (remote ∷ []) ≡ remote_request remote ∷ []
unfolding map_cr_to_rrs
remote_woken = refl

-- A ContextRoute whose status lists its variant.
abbrev settled_route : ContextRoute
settled_route = record first_route {
  status = record first_route.status { variant_services = codes "v2" ∷ [] };
}

abbrev on_track : Labels → Bool
on_track labels = str_eq (label_of (codes "track") labels) (codes "on")

abbrev tracked_cluster : CrClient.Client
tracked_cluster = record cluster { as_selector = λ sel. some on_track }

abbrev renamed : Service
renamed =
    let s = service_of (codes "v3") in
    record s { meta = record s.meta { labels = (codes "track", codes "off") ∷ [] } }

cr_asleep : map_service_to_crs tracked_cluster.as_selector renamed (settled_route ∷ []) ≡ []
unfolding map_service_to_crs label_of contains_str
cr_asleep = refl

not_requested :
    Memᴰ
      (request_of settled_route)
      (map_service_to_crs tracked_cluster.as_selector renamed (settled_route ∷ []))
    → ⊥
not_requested m = elim (rw cr_asleep at m) [ ]

map_service_to_crs-variants_example :
    (str_eq settled_route.target renamed.name ≡ false)
    × (variants_in tracked_cluster on_track settled_route.target (variant ∷ renamed ∷ [])
        ≡ variants_in tracked_cluster on_track settled_route.target (variant ∷ bystander ∷ []))
unfolding ready_status sort_slice label_of
map_service_to_crs-variants_example =
    map_service_to_crs-variants tracked_cluster on_track settled_route first_route
      (settled_route ∷ []) bystander renamed (variant ∷ []) [] false refl (Memᴰ.head refl) refl refl
      not_requested

-- A Service that stops to be a variant wakes the ContextRoute.
abbrev left : Service
left = record variant { meta = record variant.meta { labels = [] } }

cr_woken :
    map_service_to_crs tracked_cluster.as_selector left (settled_route ∷ [])
    ≡ request_of settled_route ∷ []
unfolding map_service_to_crs label_of contains_str
cr_woken = refl
