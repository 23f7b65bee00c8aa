-- ===== src/EdgeTransformation/Client.antt =====
-- What the EdgeTransformation reconciler asks of the Kubernetes client, and what it writes.
use route_prism.Common.{ℕ, Bool, Option, List, Str}
use route_prism.Kube.Meta.{Labels, LabelSelector, Service}
use route_prism.Kube.Types.{ContextRoute, EdgeTransformation}
use route_prism.Kube.Reconcile.{ApiError, Res}
use route_prism.Render.{HttpRoute}
use route_prism.ContextRoute.Client.{Event, RouteParent}
use route_prism.Translator.Conf.{Renderer}
use route_prism.EdgeTransformation.Endpoints.{EndpointSlice}

-- The translator's objects are determined by the EdgeTransformation and the configuration.
pub data Write : Type 0 where
  update_status : EdgeTransformation → Write
  apply_config_map : EdgeTransformation → (conf : Str) → Write
  apply_service : EdgeTransformation → Write
  apply_deployment : EdgeTransformation → (conf : Str) → Write
  apply_http_route : HttpRoute → Write
  event : Event → Write

-- The answers of the client during one run. `get_deployment` is the number of available replicas;
-- `renderer` stands for the template and the JSON encoder.
pub record Client : Type 0 where
  pub get_edge_transformation : (namespace name : Str) → Res EdgeTransformation
  pub get_service : (namespace name : Str) → Res Service
  pub list_context_routes : (namespace : Str) → Res (List ContextRoute)
  pub list_services : (namespace : Str) → (Labels → Bool) → Res (List Service)
  pub list_endpoint_slices : (namespace service : Str) → Res (List EndpointSlice)
  pub get_deployment : (namespace name : Str) → Res ℕ
  pub get_http_route : (namespace name : Str) → Res (List RouteParent)
  pub as_selector : LabelSelector → Option (Labels → Bool)
  pub renderer : Renderer
  pub write : Write → Option ApiError
  pub has_recorder : Bool
