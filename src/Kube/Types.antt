-- ===== src/Kube/Types.antt =====
-- modules/operator/api/v1alpha1: the three custom resources.
use route_prism.Common.{
  ℕ, Bool, not, ◌&&◌, ◌||◌, Option, List, ◌∷◌, ◌++◌, ◌==◌, ltb, if◌then◌else◌, Str, codes, str_ltb,
  is_empty,
}
use route_prism.Common.Int.{ℤ}
use route_prism.Kube.Meta.{ObjectMeta, LabelSelector, Condition}

-- `PropagationHeader`
abbrev pub propagation_header : Str
propagation_header = codes "baggage"

-- `ContextRouteSpec`; `target` is `Target.Service.Name`, `selector` is `Variants.Selector`.
pub record ContextRouteSpec : Type 0 where
  pub target : Str
  pub selector : LabelSelector
  pub routing_key : Str

pub record ConflictRef : Type 0 where
  pub service : Str
  pub owned_by : Str

pub record ContextRouteStatus : Type 0 where
  pub target_service : Str
  pub matched_variants : ℤ
  pub variant_services : List Str
  pub conflict : Option ConflictRef
  pub conditions : List Condition

pub record ContextRoute : Type 0 where
  pub meta : ObjectMeta
  pub open meta use {name, namespace, uid, creation, deleting}
  pub spec : ContextRouteSpec
  pub open spec use {target}
  pub status : ContextRouteStatus

-- `EffectiveRoutingKey`
unfoldable pub effective_routing_key : ContextRoute → Str
effective_routing_key cr =
    if not (is_empty cr.spec.routing_key)
    then cr.spec.routing_key
    else cr.namespace ++ b'.' ∷ cr.target

-- The order of the elections: an earlier creation time wins, and at equal times the smaller name.
unfoldable pub older : ContextRoute → ContextRoute → Bool
older a b = ltb a.creation b.creation || a.creation == b.creation && str_ltb a.name b.name

pub data EdgeMode : Type 0 where
  router envoy_lua envoy_wasm : EdgeMode

-- `HeaderMatch` and `CookieMatch`
pub record HeaderMatch : Type 0 where
  pub name : Str
  pub value : Str
  pub regex : Str
  pub present : Bool

pub record WidgetMatchSpec : Type 0 where
  pub ips : List Str
  pub trust_forwarded_for : Bool
  pub headers : List HeaderMatch
  pub cookies : List HeaderMatch
  pub path_prefixes : List Str
  pub methods : List Str
  pub hostnames : List Str

-- `WidgetInjectionSpec`; `http_path_prefix` is `HTTP.PathPrefix`, `match_spec` is `Target.Match`, and
-- the others are the fields of `Style` and `JS`.
pub record WidgetInjectionSpec : Type 0 where
  pub enable : Bool
  pub http_path_prefix : Str
  pub match_spec : WidgetMatchSpec
  pub style_mode : Str
  pub margin_top : Str
  pub margin_right : Str
  pub margin_bottom : Str
  pub margin_left : Str
  pub hotkey_open : Str
  pub fetch_enable : Bool
  pub xhr_enable : Bool

pub record EdgeTransformationSpec : Type 0 where
  pub mode : EdgeMode
  pub source_cookie : Str
  pub target : Str
  pub widget_injection : Option WidgetInjectionSpec

pub record EdgeTransformationStatus : Type 0 where
  pub translator_ready : Bool
  pub target_service : Str
  pub conditions : List Condition

pub record EdgeTransformation : Type 0 where
  pub meta : ObjectMeta
  pub open meta use {name, namespace, deleting}
  pub spec : EdgeTransformationSpec
  pub open spec use {target}
  pub status : EdgeTransformationStatus

pub data RemoteLbMode : Type 0 where
  round_robin random : RemoteLbMode

pub record RemoteUpstreamGroup : Type 0 where
  pub mode : RemoteLbMode
  pub urls : List Str

pub record RemoteUpstream : Type 0 where
  pub name : Str
  pub url : Str
  pub group : Option RemoteUpstreamGroup

-- `RemoteHealthCheckType`
pub data RemoteHealthCheckType : Type 0 where
  tcp http : RemoteHealthCheckType

pub record RemoteHttpHealthCheck : Type 0 where
  pub path : Str
  pub host : Str

pub record RemoteHealthCheck : Type 0 where
  pub check_type : RemoteHealthCheckType
  pub http_check : Option RemoteHttpHealthCheck

pub record RemoteRouteTls : Type 0 where
  pub insecure_skip_verify : Bool

pub record RemoteUpstreamStatus : Type 0 where
  pub name : Str
  pub urls : List Str
  pub healthy : Bool
  pub healthy_endpoints : ℕ

pub record RemoteRouteSpec : Type 0 where
  pub context_route_ref : Str
  pub upstreams : List RemoteUpstream
  pub tls : Option RemoteRouteTls
  pub health_check : Option RemoteHealthCheck

pub record RemoteRouteStatus : Type 0 where
  pub proxy_ready : Bool
  pub variant_name : Str
  pub active_upstream : Str
  pub upstreams : List RemoteUpstreamStatus
  pub conditions : List Condition

pub record RemoteRoute : Type 0 where
  pub meta : ObjectMeta
  pub open meta use {name, namespace, uid, deleting}
  pub spec : RemoteRouteSpec
  pub status : RemoteRouteStatus
