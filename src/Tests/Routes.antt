-- ===== src/Tests/Routes.antt =====
-- The elections and the ContextRoute reconciler in a small cluster.
use mathlib.Core.List.{Memᴰ}
use mathlib.Core.Option
use route_prism.Common.{
  ℕ, ◌≡◌, ◌↔◌, refl, true, false, none, some, [], ◌∷◌, map, filter, all, if◌then◌else◌, All, Str,
  codes, str_eq,
}
use route_prism.Common.Int.{pos}
use route_prism.Common.Sort.{sort_slice}
use route_prism.Kube.Meta.{label_of, contains_str, ObjectMeta, Service}
use route_prism.Kube.Types.{ContextRoute, effective_routing_key, older}
use route_prism.Kube.Reconcile.{not_found, ok, err}
use route_prism.Render.{finalizer_cr}
use route_prism.Election.{resolve_owner, key_owner, loses_key, find_cr_for_target}
use route_prism.Election.Agreement.{resolve_owner-find_cr_for_target}
use route_prism.Election.Keys.{IsRival, loses_key_iff, routing_key_exclusive, twins_keep_key}
use route_prism.ContextRoute.Client.{Write, apply, update_status, Client}
use route_prism.ContextRoute.Reconciler.{run}
use route_prism.ContextRoute.Allowed.{IsAllowed}
use route_prism.Kube.Types.{EdgeTransformation, router}
use route_prism.ContextRoute.Safety.{run-IsAllowed}

abbrev pub meta_of : Str → Str → Str → ℕ → ObjectMeta
meta_of name namespace uid creation = record {
  name = name;
  namespace = namespace;
  uid = uid;
  creation = creation;
  deleting = false;
  generation = 1;
  finalizers = finalizer_cr ∷ [];
  labels = [];
  owner_references = [];
}

abbrev pub route_of : ObjectMeta → ContextRoute
route_of meta = record {
  meta = meta;
  spec = record {
    target = codes "orders";
    selector = record { match_labels = (codes "app", codes "orders") ∷ []; match_expressions = [] };
    routing_key = [];
  };
  status = record {
    target_service = [];
    matched_variants = pos 0;
    variant_services = [];
    conflict = none;
    conditions = [];
  };
}

abbrev pub first_route : ContextRoute
first_route = route_of (meta_of (codes "a") (codes "demo") (codes "u1") 5)

abbrev pub later_route : ContextRoute
later_route = route_of (meta_of (codes "b") (codes "demo") (codes "u2") 9)

abbrev pub other_route : ContextRoute
other_route = route_of (meta_of (codes "a") (codes "shop") (codes "u3") 5)

abbrev pub service_of : Str → Service
service_of name = record {
  meta = record (meta_of name (codes "demo") name 1) {
    labels = (codes "app", codes "orders") ∷ [];
  };
  service_type = codes "ClusterIP";
  cluster_ip = codes "10.0.0.1";
  ports = record { port = 8080; app_protocol = some (codes "http") } ∷ [];
}

abbrev pub cluster : Client
cluster = record {
  get_context_route = λ ns n.
      if str_eq n (codes "a")
      then ok first_route
      else if str_eq n (codes "b")
      then ok later_route
      else err not_found;
  list_context_routes = λ ns. ok (later_route ∷ first_route ∷ []);
  list_all_context_routes = ok (later_route ∷ first_route ∷ []);
  list_edge_transformations = λ ns. ok [];
  get_service = λ ns n. ok (service_of n);
  list_services = λ ns sel.
      ok (filter (λ s. sel s.labels) (service_of (codes "v2") ∷ service_of (codes "orders") ∷ []));
  get_http_route = λ ns n. err not_found;
  as_selector =
      λ sel. some (λ labels. all (λ (k, v). str_eq (label_of k labels) v) sel.match_labels);
  write = λ w. none;
  has_recorder = false;
}

-- A run for the elected ContextRoute makes two writes and returns without an error.
abbrev kind_of : Write → ℕ
kind_of (apply hr) = 0
kind_of (update_status cr) = 1
kind_of w = 2

applies : map kind_of (run cluster (codes "demo") (codes "a")).1 ≡ 0 ∷ 1 ∷ []
unfolding run contains_str resolve_owner key_owner loses_key effective_routing_key label_of older
    sort_slice
applies = refl

conflict : map kind_of (run cluster (codes "demo") (codes "b")).1 ≡ 1 ∷ []
unfolding run contains_str resolve_owner key_owner loses_key effective_routing_key label_of older
    sort_slice
conflict = refl

run-IsAllowed_example :
    All (IsAllowed cluster (codes "demo") (codes "a")) (run cluster (codes "demo") (codes "a")).1
run-IsAllowed_example = run-IsAllowed cluster (codes "demo") (codes "a")

resolve_owner-find_cr_for_target_example :
    Option.map (λ c. c.name) (resolve_owner (codes "orders") (later_route ∷ first_route ∷ []))
    ≡ Option.map
        (λ c. c.name)
        (find_cr_for_target (codes "orders") (later_route ∷ first_route ∷ []))
resolve_owner-find_cr_for_target_example =
    resolve_owner-find_cr_for_target (codes "orders") (later_route ∷ first_route ∷ [])

loses_key_iff_example :
    (loses_key later_route (key_owner later_route (first_route ∷ [])) ≡ true)
    ↔ ((o : ContextRoute) × IsRival later_route (first_route ∷ []) o)
loses_key_iff_example = loses_key_iff later_route (first_route ∷ [])

twins_keep_key_example :
    (loses_key first_route (key_owner first_route (first_route ∷ other_route ∷ [])) ≡ false)
    × (loses_key other_route (key_owner other_route (first_route ∷ other_route ∷ [])) ≡ false)
twins_keep_key_example = twins_keep_key first_route other_route refl refl

abbrev keyed : ContextRoute → ContextRoute
keyed cr = record cr { spec = record cr.spec { routing_key = codes "orders" } }

-- The hypotheses hold of the twins in two namespaces.
routing_key_exclusive_example :
    (first_route.creation ≡ other_route.creation) × (first_route.name ≡ other_route.name)
unfolding loses_key key_owner effective_routing_key older
routing_key_exclusive_example =
    routing_key_exclusive (keyed first_route) (keyed other_route)
      (keyed first_route ∷ keyed other_route ∷ []) (Memᴰ.head refl) (Memᴰ.tail (Memᴰ.head refl))
      refl refl refl refl refl

abbrev pub no_edge : EdgeTransformation
no_edge = record {
  meta = meta_of (codes "edge") (codes "demo") (codes "u9") 3;
  spec = record {
    mode = router;
    source_cookie = [];
    target = codes "orders";
    widget_injection = none;
  };
  status = record { translator_ready = false; target_service = []; conditions = [] };
}
