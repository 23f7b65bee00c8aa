-- ===== src/Render.antt =====
-- Rendered HTTPRoutes: modules/operator/internal/controller/render_httproute.go and the names of
-- modules/operator/internal/controller/labels.go.
pub mod Rules
use route_prism.Common.{
  ℕ, Bool, true, false, ◌||◌, Option, none, some, List, [], ◌∷◌, ◌++◌, map, if◌then◌else◌, any,
  ◌==◌, Str, codes,
}
use route_prism.Common.Sort.{sort_slice}
use route_prism.Common.SortStrict.{less_by}
use route_prism.Kube.Meta.{Labels, OwnerReference, Service, ServicePort}
use route_prism.Kube.Types.{
  ContextRoute, EdgeTransformation, effective_routing_key, propagation_header,
}

abbrev pub label_managed_by : Str
label_managed_by = codes "route-prism.egoavara.net/managed-by"

abbrev pub label_kind : Str
label_kind = codes "route-prism.egoavara.net/kind"

abbrev pub label_owner : Str
label_owner = codes "route-prism.egoavara.net/owner"

abbrev pub managed_by_value : Str
managed_by_value = codes "route-prism"

abbrev pub kind_context_route : Str
kind_context_route = codes "contextroute"

abbrev pub kind_edge_transformation : Str
kind_edge_transformation = codes "edgetransformation"

abbrev pub finalizer_cr : Str
finalizer_cr = codes "route-prism.egoavara.net/contextroute-finalizer"

abbrev pub api_version : Str
api_version = codes "route-prism.egoavara.net/v1alpha1"

pub http_route_name_for_cr : Str → Str
http_route_name_for_cr svc = codes "route-prism-cr-" ++ svc

pub http_route_name_for_et : Str → Str
http_route_name_for_et svc = codes "route-prism-et-" ++ svc

pub translator_name : Str → Str
translator_name et = codes "route-prism-translator-" ++ et

-- A match on one header by a regular expression, and a backend of the core group.
pub record HeaderRegex : Type 0 where
  pub name : Str
  pub value : Str

pub record BackendRef : Type 0 where
  pub name : Str
  pub port : ℕ

-- A rule with no header match takes every request.
pub record HttpRouteRule : Type 0 where
  pub header : Option HeaderRegex
  pub backend : BackendRef

-- The apply configuration of an HTTPRoute whose parent is a Service.
pub record HttpRoute : Type 0 where
  pub name : Str
  pub namespace : Str
  pub labels : Labels
  pub owner : OwnerReference
  pub parent : Str
  pub rules : List HttpRouteRule

-- The bytes that `regexp.QuoteMeta` puts a backslash before.
abbrev pub is_meta : ℕ → Bool
is_meta c = any (λ m. m == c) (92 ∷ codes ".+*?()|[]{}^$")

pub quote_meta : Str → Str
quote_meta [] = []
quote_meta (c ∷ s) = if is_meta c then 92 ∷ c ∷ quote_meta s else c ∷ quote_meta s

-- `baggageMatchRegex`
pub baggage_match_regex : Str → Str → Str
unfolding quote_meta
baggage_match_regex routing_key svc_name =
    codes "(?:.*,)?"
    ++ 92 ∷ codes "s*"
    ++ quote_meta routing_key
    ++ codes "="
    ++ quote_meta svc_name
    ++ codes "(?:;[^,]*)?"
    ++ 92 ∷ codes "s*(?:,.*)?"

unfoldable pub http_route_labels : Str → Str → Labels
http_route_labels kind owner =
    (label_managed_by, managed_by_value) ∷ (label_kind, kind) ∷ (label_owner, owner) ∷ []

abbrev pub port_of : List ServicePort → ℕ
port_of [] = 80
port_of (p ∷ ps) = p.port

-- `firstPort`
unfoldable pub first_port : Service → ℕ
first_port svc = port_of svc.ports

-- `sortedByName`
unfoldable pub sorted_by_name : List Service → List Service
sorted_by_name svcs = sort_slice (less_by (λ s. s.name)) svcs

pub cr_owner_ref : ContextRoute → OwnerReference
cr_owner_ref cr = record {
  api_version = api_version;
  kind = codes "ContextRoute";
  name = cr.name;
  uid = cr.uid;
  controller = some true;
  block_owner_deletion = some true;
}

pub et_owner_ref : EdgeTransformation → OwnerReference
et_owner_ref et = record {
  api_version = api_version;
  kind = codes "EdgeTransformation";
  name = et.name;
  uid = et.meta.uid;
  controller = some true;
  block_owner_deletion = some true;
}

-- The rule of one variant.
unfoldable pub variant_rule : Str → Service → HttpRouteRule
unfolding baggage_match_regex first_port
variant_rule routing_key v = record {
  header =
      some (record { name = propagation_header; value = baggage_match_regex routing_key v.name });
  backend = record { name = v.name; port = first_port v };
}

-- The rule that sends all other requests to the target.
pub catch_all_rule : Service → HttpRouteRule
unfolding first_port
catch_all_rule target = record {
  header = none;
  backend = record { name = target.name; port = first_port target };
}

unfoldable pub render_cr_http_route : ContextRoute → Service → List Service → Bool → HttpRoute
unfolding variant_rule catch_all_rule sorted_by_name
render_cr_http_route cr target variants include_catch_all = record {
  name = http_route_name_for_cr target.name;
  namespace = target.namespace;
  labels = http_route_labels kind_context_route cr.name;
  owner = cr_owner_ref cr;
  parent = target.name;
  rules =
      map (variant_rule (effective_routing_key cr)) (sorted_by_name variants)
      ++ (if include_catch_all then catch_all_rule target ∷ [] else []);
}

unfoldable pub render_et_http_route : EdgeTransformation → Service → HttpRoute
render_et_http_route et target = record {
  name = http_route_name_for_et target.name;
  namespace = target.namespace;
  labels = http_route_labels kind_edge_transformation et.name;
  owner = et_owner_ref et;
  parent = target.name;
  rules =
      record { header = none; backend = record { name = translator_name et.name; port = 80 } } ∷ [];
}
