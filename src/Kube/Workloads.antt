-- ===== src/Kube/Workloads.antt =====
-- The apply configurations of the objects that run a proxy: a ConfigMap, Services and a Deployment
-- (modules/operator/internal/controller/remoteroute_render.go and translator_render.go). They belong
-- to the Kubernetes libraries; the fields that the operator sets are kept.
use route_prism.Common.{
  ◌≡◌, ℕ, Bool, true, false, Option, none, some, List, any, all, ◌==◌, Str, str_eq, codes,
}
use route_prism.Common.Assoc.{lookup}
use route_prism.Kube.Meta.{Labels, OwnerReference}

abbrev pub app_name : Str
app_name = codes "app.kubernetes.io/name"

abbrev pub app_instance : Str
app_instance = codes "app.kubernetes.io/instance"

-- The annotation that rolls the pods on a new configuration.
abbrev pub config_checksum_key : Str
config_checksum_key = codes "route-prism.egoavara.net/config-checksum"

pub record ConfigMap : Type 0 where
  pub name : Str
  pub namespace : Str
  pub labels : Labels
  pub owner : OwnerReference
  pub entries : List (Str × Str)

pub record PortConfig : Type 0 where
  pub name : Str
  pub port : ℕ
  pub target_port : ℕ
  pub app_protocol : Option Str

pub record ServiceConfig : Type 0 where
  pub name : Str
  pub namespace : Str
  pub labels : Labels
  pub owner : OwnerReference
  pub service_type : Str
  pub selector : Labels
  pub ports : List PortConfig

-- Requests or limits of a container.
pub record Resources : Type 0 where
  pub cpu : Str
  pub memory : Str

-- A TCP probe.
pub record TcpProbe : Type 0 where
  pub port : ℕ
  pub period_seconds : ℕ
  pub failure_threshold : Option ℕ

-- The volume of the ConfigMap is mounted at `mount_path`; with `sub_path` only one of its files is.
pub record Container : Type 0 where
  pub name : Str
  pub image : Str
  pub args : List Str
  pub ports : List ℕ
  pub requests : Resources
  pub limits : Resources
  pub volume : Str
  pub mount_path : Str
  pub sub_path : Option Str
  pub readiness : TcpProbe
  pub liveness : Option TcpProbe

pub record Deployment : Type 0 where
  pub name : Str
  pub namespace : Str
  pub labels : Labels
  pub owner : OwnerReference
  pub replicas : ℕ
  pub match_labels : Labels
  pub pod_labels : Labels
  pub pod_annotations : Labels
  pub container : Container
  pub volume : Str
  pub volume_config_map : Str

abbrev pub is_value : Str → Option Str → Bool
is_value v none = false
is_value v (some w) = str_eq v w

-- `matchLabels`: the labels have every entry of the selector.
abbrev pub selects : Labels → Labels → Bool
selects sel labels = all (λ (k, v). is_value v (lookup k labels)) sel

-- The objects of one proxy fit together: they stand in one namespace and have one controller, the
-- Deployment and the Service select its pods, the Service's ports lead to ports of the container, and
-- the container mounts the ConfigMap.
pub record IsWired (cm : ConfigMap) (svc : ServiceConfig) (dep : Deployment) : Type 0 where
  pub service_namespace : svc.namespace ≡ dep.namespace
  pub config_namespace : cm.namespace ≡ dep.namespace
  pub service_owner : svc.owner ≡ dep.owner
  pub config_owner : cm.owner ≡ dep.owner
  pub own_pods : selects dep.match_labels dep.pod_labels ≡ true
  pub served_pods : selects svc.selector dep.pod_labels ≡ true
  pub served_ports : all (λ p. any (λ q. q == p.target_port) dep.container.ports) svc.ports ≡ true
  pub ready_port : any (λ q. q == dep.container.readiness.port) dep.container.ports ≡ true
  pub volume_source : dep.volume_config_map ≡ cm.name
  pub volume_mounted : dep.container.volume ≡ dep.volume
