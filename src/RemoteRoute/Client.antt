-- ===== src/RemoteRoute/Client.antt =====
-- What the RemoteRoute reconciler asks of the Kubernetes client and of the proxy, and what it writes.
use route_prism.Common.{ℕ, Bool, Option, List, Str}
use route_prism.Common.Results.{Result}
use route_prism.Kube.Types.{ContextRoute, RemoteRoute}
use route_prism.Kube.Reconcile.{ApiError, Res}
use route_prism.Kube.Workloads.{ConfigMap, ServiceConfig, Deployment}
use route_prism.RemoteRoute.Upstreams.{Url}
use route_prism.RemoteRoute.Proxy.{EnvoyConfData}
use route_prism.RemoteRoute.Health.{ClusterStatus}

-- An event is a warning with its reason.
pub data Write : Type 0 where
  update : RemoteRoute → Write
  update_status : RemoteRoute → Write
  apply_config_map : ConfigMap → Write
  apply_service : ServiceConfig → Write
  apply_deployment : Deployment → Write
  event : (reason : Str) → Write

-- The texts that error messages show: `quote` is the verb `%q`, and `port_text` is the rest of the
-- message for a port.
pub record Texts : Type 0 where
  pub quote : Str → Str
  pub port_text : Str → Str

-- The answers of one run. `get_deployment` is the number of available replicas, `fetch_cluster_dump`
-- the answer of the proxy's admin interface with `none` for an error, `execute` the template and
-- `checksum` the function `configChecksum`.
pub record Client : Type 0 where
  pub get_remote_route : (namespace name : Str) → Res RemoteRoute
  pub get_context_route : (namespace name : Str) → Res ContextRoute
  pub get_deployment : (namespace name : Str) → Res ℕ
  pub fetch_cluster_dump : RemoteRoute → Option (List ClusterStatus)
  pub parse_url : Str → Result Str Url
  pub execute : EnvoyConfData → Option Str
  pub checksum : Str → Str
  pub texts : Texts
  pub write : Write → Option ApiError
  pub has_recorder : Bool
