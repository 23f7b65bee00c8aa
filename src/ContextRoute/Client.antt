-- ===== src/ContextRoute/Client.antt =====
-- What the ContextRoute reconciler asks of the Kubernetes client, and what it writes.
use route_prism.Common.{Bool, Option, List, Str}
use route_prism.Kube.Meta.{Labels, LabelSelector, Condition, Service}
use route_prism.Kube.Types.{ContextRoute, EdgeTransformation}
use route_prism.Kube.Reconcile.{ApiError, Res}
use route_prism.Render.{HttpRoute}

-- `EventType…` and the reason of an event; its message is left out.
pub record Event : Type 0 where
  pub warning : Bool
  pub reason : Str

pub data Write : Type 0 where
  update : ContextRoute → Write
  update_status : ContextRoute → Write
  apply : HttpRoute → Write
  delete_http_route : (name namespace : Str) → Write
  event : Event → Write

-- One parent of an HTTPRoute's status: its conditions.
pub record RouteParent : Type 0 where
  pub conditions : List Condition

-- The answers of the client during one run; `write` is the answer to a write. `as_selector` is
-- `metav1.LabelSelectorAsSelector` with the selector's `Matches`.
pub record Client : Type 0 where
  pub get_context_route : (namespace name : Str) → Res ContextRoute
  pub list_context_routes : (namespace : Str) → Res (List ContextRoute)
  pub list_all_context_routes : Res (List ContextRoute)
  pub list_edge_transformations : (namespace : Str) → Res (List EdgeTransformation)
  pub get_service : (namespace name : Str) → Res Service
  pub list_services : (namespace : Str) → (Labels → Bool) → Res (List Service)
  pub get_http_route : (namespace name : Str) → Res (List RouteParent)
  pub as_selector : LabelSelector → Option (Labels → Bool)
  pub write : Write → Option ApiError
  pub has_recorder : Bool
