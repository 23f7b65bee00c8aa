-- ===== src/Translator/Objects.antt =====
-- The objects of the nginx translator of an EdgeTransformation
-- (modules/operator/internal/controller/translator_render.go).
use route_prism.Common.{◌≡◌, refl, true, none, some, [], ◌∷◌, Str, codes, str_eq_self}
use route_prism.Kube.Meta.{Labels}
use route_prism.Kube.Types.{EdgeTransformation}
use route_prism.Kube.Workloads.{
  app_name, app_instance, config_checksum_key, ConfigMap, ServiceConfig, Deployment, selects,
  IsWired,
}
use route_prism.Render.{
  label_managed_by, label_kind, label_owner, managed_by_value, kind_edge_transformation,
  translator_name, et_owner_ref,
}

unfoldable pub translator_labels : EdgeTransformation → Labels
translator_labels et =
    (label_managed_by, managed_by_value)
    ∷ (label_kind, kind_edge_transformation)
    ∷ (label_owner, et.name)
    ∷ (app_name, codes "route-prism-translator")
    ∷ (app_instance, et.name)
    ∷ []

-- `ownerRefForET` is the reference that the HTTPRoute carries, `et_owner_ref`.
unfoldable pub render_translator_config_map : EdgeTransformation → Str → ConfigMap
unfolding translator_labels
render_translator_config_map et conf = record {
  name = translator_name et.name;
  namespace = et.namespace;
  labels = translator_labels et;
  owner = et_owner_ref et;
  entries = (codes "nginx.conf", conf) ∷ [];
}

unfoldable pub render_translator_service : EdgeTransformation → ServiceConfig
unfolding translator_labels
render_translator_service et = record {
  name = translator_name et.name;
  namespace = et.namespace;
  labels = translator_labels et;
  owner = et_owner_ref et;
  service_type = codes "ClusterIP";
  selector = translator_labels et;
  ports =
      record {
        name = codes "http";
        port = 80;
        target_port = 80;
        app_protocol = some (codes "http");
      }
      ∷ [];
}

-- `checksum` is `configChecksum`.
unfoldable pub render_translator_deployment :
    (checksum : Str → Str) → EdgeTransformation → Str → Deployment
unfolding translator_labels
render_translator_deployment checksum et conf = record {
  name = translator_name et.name;
  namespace = et.namespace;
  labels = translator_labels et;
  owner = et_owner_ref et;
  replicas = 1;
  match_labels = translator_labels et;
  pod_labels = translator_labels et;
  pod_annotations = (config_checksum_key, checksum conf) ∷ [];
  container = record {
    name = codes "openresty";
    image = codes "openresty/openresty:1.25.3.1-alpine";
    args = [];
    ports = 80 ∷ [];
    requests = record { cpu = codes "10m"; memory = codes "32Mi" };
    limits = record { cpu = codes "200m"; memory = codes "128Mi" };
    volume = codes "conf";
    mount_path = codes "/usr/local/openresty/nginx/conf/nginx.conf";
    sub_path = some (codes "nginx.conf");
    readiness = record { port = 80; period_seconds = 5; failure_threshold = none };
    liveness = none;
  };
  volume = codes "conf";
  volume_config_map = translator_name et.name;
}

translator_pods :
    (et : EdgeTransformation) → selects (translator_labels et) (translator_labels et) ≡ true
unfolding translator_labels
translator_pods et = rw (str_eq_self et.name) refl

-- The ConfigMap, the Service and the Deployment of a translator fit together.
pub render_translator-IsWired :
    (checksum : Str → Str) (et : EdgeTransformation) (conf : Str)
    → IsWired
        (render_translator_config_map et conf)
        (render_translator_service et)
        (render_translator_deployment checksum et conf)
unfolding render_translator_config_map render_translator_service render_translator_deployment
render_translator-IsWired checksum et conf = record {
  service_namespace = refl;
  config_namespace = refl;
  service_owner = refl;
  config_owner = refl;
  own_pods = translator_pods et;
  served_pods = translator_pods et;
  served_ports = refl;
  ready_port = refl;
  volume_source = refl;
  volume_mounted = refl;
}
