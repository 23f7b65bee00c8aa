-- ===== src/Tests/Remotes.antt =====
-- RemoteRoutes: the owner reference and the health of the upstreams.
use route_prism.Common.{◌≡◌, refl, true, false, none, some, List, [], ◌∷◌, codes}
use route_prism.Kube.Types.{RemoteRoute}
use route_prism.RemoteRoute.Health.{
  ClusterStatus, remote_hosts, first_served, refresh_upstream_health,
  refresh_upstream_health-active,
}
use route_prism.Tests.Routes.{meta_of}

abbrev pub remote : RemoteRoute
remote = record {
  meta = meta_of (codes "laptop") (codes "demo") (codes "u5") 7;
  spec = record {
    context_route_ref = codes "a";
    upstreams =
        record { name = codes "one"; url = codes "http://10.1.0.1"; group = none }
        ∷ record { name = codes "two"; url = codes "http://10.1.0.2"; group = none }
        ∷ [];
    tls = none;
    health_check = none;
  };
  status = record {
    proxy_ready = true;
    variant_name = codes "laptop";
    active_upstream = [];
    upstreams = [];
    conditions = [];
  };
}

-- Only the host of the second priority is healthy.
abbrev pub dump : List ClusterStatus
dump =
    record {
      name = codes "remote";
      host_statuses =
          record {
            priority = 0;
            eds_health_status = codes "HEALTHY";
            failed_active_hc = true;
            failed_outlier = false;
          }
          ∷ record {
            priority = 1;
            eds_health_status = [];
            failed_active_hc = false;
            failed_outlier = false;
          }
          ∷ [];
    }
    ∷ []

active : (refresh_upstream_health remote (some dump)).status.active_upstream ≡ codes "two"
unfolding refresh_upstream_health
active = refl

refresh_upstream_health-active_example :
    ((refresh_upstream_health remote (some dump)).status.active_upstream
      ≡ first_served (remote_hosts dump) 0 remote.spec.upstreams)
    × ((refresh_upstream_health remote none).status.active_upstream ≡ [])
refresh_upstream_health-active_example = refresh_upstream_health-active remote dump
