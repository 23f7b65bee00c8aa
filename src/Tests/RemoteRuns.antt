-- ===== src/Tests/RemoteRuns.antt =====
-- Runs of the RemoteRoute reconciler.
use route_prism.Common.{◌≡◌, refl, false, none, some, [], ◌∷◌, ◌++◌, All, codes}
use route_prism.Kube.Types.{RemoteRoute}
use route_prism.Kube.Reconcile.{ok}
use route_prism.RemoteRoute.Owner.{ensure_rr_owner_ref, ensure_rr_owner_ref_twice}
use route_prism.RemoteRoute.Upstreams.{resolve_upstreams, port_for_url}
use route_prism.RemoteRoute.Upstreams.Accepted.{resolve_upstreams_iff}
use route_prism.RemoteRoute.Proxy.{render_envoy_config}
use route_prism.RemoteRoute.Client.{Client, update_status}
use route_prism.RemoteRoute.Reconciler.{with_variant_name, with_conditions, observed, run}
use route_prism.RemoteRoute.Reconciler.Ready.{IsReady, IsAdoption, IsProvisioned}
use route_prism.RemoteRoute.Reconciler.Provisioned.{run-IsProvisioned}
use route_prism.RemoteRoute.Reconciler.Success.{applied, run-ready}
use route_prism.RemoteRoute.Reconciler.Settled.{after_update, IsNotUpdate, run-settled}
use route_prism.RemoteRoute.Reconciler.Told.{TellsStatus, run-TellsStatus}
use route_prism.Tests.Routes.{first_route}
use route_prism.Tests.Remotes.{remote, dump}
use route_prism.Tests.Proxies.{parse_plain, hash, resolved}

-- A cluster with one RemoteRoute and its ContextRoute; all writes are accepted.
abbrev cluster_with : RemoteRoute → Client
cluster_with rr = record {
  get_remote_route = λ ns n. ok rr;
  get_context_route = λ ns n. ok first_route;
  get_deployment = λ ns n. ok 1;
  fetch_cluster_dump = λ r. some dump;
  parse_url = parse_plain;
  execute = λ d. some d.lb_policy;
  checksum = hash;
  texts = record { quote = λ s. s; port_text = λ s. s };
  write = λ w. none;
  has_recorder = false;
}

-- The RemoteRoute with the owner reference.
abbrev owned : RemoteRoute
owned = (ensure_rr_owner_ref (with_variant_name remote) first_route).0

adopting : IsAdoption (cluster_with remote) (codes "demo") (codes "laptop") owned
unfolding ensure_rr_owner_ref
adopting = record {
  found = remote;
  is_read = refl;
  cr = first_route;
  parent_read = refl;
  adopted = refl;
}

run-settled_example :
    All IsNotUpdate
      (run (after_update (cluster_with remote) owned) (codes "demo") (codes "laptop")).1
run-settled_example =
    run-settled (cluster_with remote) (codes "demo") (codes "laptop") owned adopting

unfoldable ready : IsReady (cluster_with owned) (codes "demo") (codes "laptop")
unfolding ensure_rr_owner_ref resolve_upstreams port_for_url render_envoy_config
ready = record {
  found = owned;
  is_read = refl;
  cr = first_route;
  parent_read = refl;
  rr = owned;
  adopted = ensure_rr_owner_ref_twice (with_variant_name remote) first_route;
  no_expressions = refl;
  has_labels = refl;
  groups = resolved;
  accepted = (resolve_upstreams_iff parse_plain owned resolved).0 refl;
  conf = codes "ROUND_ROBIN";
  conf_rendered = refl;
}

run-ready_example : run (cluster_with owned) (codes "demo") (codes "laptop") ≡ (
  ok (record { requeue = false; after = 15 }),
  applied (cluster_with owned) (codes "demo") (codes "laptop") ready
      ++ update_status (with_conditions (observed (cluster_with owned) ready.rr)) ∷ [],
)
run-ready_example =
    run-ready (cluster_with owned) (codes "demo") (codes "laptop") refl (λ w. refl) ready

run-IsProvisioned_example :
    All
      (IsProvisioned (cluster_with remote) (codes "demo") (codes "laptop"))
      (run (cluster_with remote) (codes "demo") (codes "laptop")).1
run-IsProvisioned_example = run-IsProvisioned (cluster_with remote) (codes "demo") (codes "laptop")

run-TellsStatus_example :
    All
      (TellsStatus (cluster_with owned) (codes "demo") (codes "laptop"))
      (run (cluster_with owned) (codes "demo") (codes "laptop")).1
run-TellsStatus_example = run-TellsStatus (cluster_with owned) (codes "demo") (codes "laptop")
