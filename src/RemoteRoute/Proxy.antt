-- ===== src/RemoteRoute/Proxy.antt =====
-- The objects of the Envoy proxy of a RemoteRoute
-- (modules/operator/internal/controller/remoteroute_render.go). The template and the checksum of the
-- configuration are parameters.
pub mod Selectors
use route_prism.Common.{ℕ, Bool, true, false, Option, none, some, List, [], ◌∷◌, ◌++◌, Str, codes}
use route_prism.Common.Assoc.{put}
use route_prism.Kube.Meta.{Labels, OwnerReference}
use route_prism.Kube.Types.{
  RemoteRoute, RemoteHealthCheck, RemoteHealthCheckType, RemoteRouteTls, RemoteHttpHealthCheck,
}
use route_prism.Kube.Workloads.{
  app_name, app_instance, config_checksum_key, ConfigMap, ServiceConfig, Deployment,
}
use route_prism.Render.{label_managed_by, label_kind, label_owner, managed_by_value, api_version}
use route_prism.RemoteRoute.Upstreams.{EnvoyGroup, Resolved, scheme_http}

abbrev pub kind_remote_route : Str
kind_remote_route = codes "remoteroute"

pub remote_proxy_name : Str → Str
remote_proxy_name rr = codes "route-prism-remote-" ++ rr

pub record EnvoyHealthCheck : Type 0 where
  pub check_type : Str
  pub http_path : Str
  pub http_host : Str

-- `envoyConfData`, the input of the template.
pub record EnvoyConfData : Type 0 where
  pub lb_policy : Str
  pub is_https : Bool
  pub insecure_skip_verify : Bool
  pub groups : List EnvoyGroup
  pub health_check : EnvoyHealthCheck

abbrev plain_check : Str → EnvoyHealthCheck
plain_check t = record { check_type = t; http_path = []; http_host = [] }

abbrev http_knobs : Option RemoteHttpHealthCheck → EnvoyHealthCheck
http_knobs none = plain_check (codes "HTTP")
http_knobs (some h) = record { check_type = codes "HTTP"; http_path = h.path; http_host = h.host }

abbrev typed_check : RemoteHealthCheckType → Option RemoteHttpHealthCheck → EnvoyHealthCheck
typed_check RemoteHealthCheckType.tcp h = plain_check (codes "TCP")
typed_check RemoteHealthCheckType.http h = http_knobs h

unfoldable pub health_check_of : Option RemoteHealthCheck → EnvoyHealthCheck
health_check_of none = plain_check (codes "TCP")
health_check_of (some hc) = typed_check hc.check_type hc.http_check

abbrev skip_verify : Option RemoteRouteTls → Bool
skip_verify none = false
skip_verify (some tls) = tls.insecure_skip_verify

-- `renderEnvoyConfig`; `execute` is the template, and `none` is its error.
unfoldable pub render_envoy_config :
    (execute : EnvoyConfData → Option Str) → RemoteRoute → Resolved → Option Str
unfolding health_check_of
render_envoy_config execute rr r = execute (record {
  lb_policy = r.lb_policy;
  is_https = r.is_https;
  insecure_skip_verify = skip_verify rr.spec.tls;
  groups = r.groups;
  health_check = health_check_of rr.spec.health_check;
})

-- `ownerRefForRR`
unfoldable pub rr_owner_ref : RemoteRoute → OwnerReference
rr_owner_ref rr = record {
  api_version = api_version;
  kind = codes "RemoteRoute";
  name = rr.name;
  uid = rr.uid;
  controller = some true;
  block_owner_deletion = some true;
}

unfoldable pub rr_identity_labels : RemoteRoute → Labels
rr_identity_labels rr =
    (label_managed_by, managed_by_value)
    ∷ (label_kind, kind_remote_route)
    ∷ (label_owner, rr.name)
    ∷ (app_name, codes "route-prism-remote")
    ∷ (app_instance, rr.name)
    ∷ []

-- `maps.Copy(dst, src)`
abbrev pub copy : Labels → Labels → Labels
copy dst [] = dst
copy dst ((k, v) ∷ src) = copy (put k v dst) src

unfoldable pub rr_service_labels : RemoteRoute → Labels → Labels
unfolding rr_identity_labels
rr_service_labels rr variant_labels =
    put app_name rr.name (copy (rr_identity_labels rr) variant_labels)

unfoldable pub render_remote_config_map : RemoteRoute → Str → ConfigMap
unfolding remote_proxy_name rr_identity_labels rr_owner_ref
render_remote_config_map rr conf = record {
  name = remote_proxy_name rr.name;
  namespace = rr.namespace;
  labels = rr_identity_labels rr;
  owner = rr_owner_ref rr;
  entries = (codes "envoy.yaml", conf) ∷ [];
}

unfoldable pub render_remote_service : RemoteRoute → Labels → ServiceConfig
unfolding rr_service_labels rr_identity_labels rr_owner_ref
render_remote_service rr variant_labels = record {
  name = rr.name;
  namespace = rr.namespace;
  labels = rr_service_labels rr variant_labels;
  owner = rr_owner_ref rr;
  service_type = codes "ClusterIP";
  selector = rr_identity_labels rr;
  ports =
      record { name = codes "http"; port = 80; target_port = 8080; app_protocol = some scheme_http }
      ∷ [];
}

unfoldable pub render_remote_admin_service : RemoteRoute → ServiceConfig
unfolding remote_proxy_name rr_identity_labels rr_owner_ref
render_remote_admin_service rr = record {
  name = remote_proxy_name rr.name ++ codes "-admin";
  namespace = rr.namespace;
  labels = rr_identity_labels rr;
  owner = rr_owner_ref rr;
  service_type = codes "ClusterIP";
  selector = rr_identity_labels rr;
  ports =
      record { name = codes "admin"; port = 9901; target_port = 9902; app_protocol = none } ∷ [];
}

-- `checksum` is `configChecksum`.
unfoldable pub render_remote_deployment : (checksum : Str → Str) → RemoteRoute → Str → Deployment
unfolding remote_proxy_name rr_identity_labels rr_owner_ref
render_remote_deployment checksum rr conf = record {
  name = remote_proxy_name rr.name;
  namespace = rr.namespace;
  labels = rr_identity_labels rr;
  owner = rr_owner_ref rr;
  replicas = 1;
  match_labels = rr_identity_labels rr;
  pod_labels = rr_identity_labels rr;
  pod_annotations = (config_checksum_key, checksum conf) ∷ [];
  container = record {
    name = codes "envoy";
    image = codes "envoyproxy/envoy:v1.31-latest";
    args = codes "-c" ∷ codes "/etc/envoy/envoy.yaml" ∷ codes "--log-level" ∷ codes "warn" ∷ [];
    ports = 8080 ∷ 9902 ∷ [];
    requests = record { cpu = codes "20m"; memory = codes "64Mi" };
    limits = record { cpu = codes "500m"; memory = codes "256Mi" };
    volume = codes "conf";
    mount_path = codes "/etc/envoy";
    sub_path = none;
    readiness = record { port = 8080; period_seconds = 5; failure_threshold = none };
    liveness = some (record { port = 8080; period_seconds = 10; failure_threshold = some 3 });
  };
  volume = codes "conf";
  volume_config_map = remote_proxy_name rr.name;
}
