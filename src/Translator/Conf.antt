-- ===== src/Translator/Conf.antt =====
-- What `renderNginxConf` hands to the template. The template and the JSON encoder are libraries:
-- their results are parameters.
use route_prism.Common.{
  ℕ, Bool, true, false, not, Option, none, some, List, [], ◌∷◌, ◌++◌, map, if◌then◌else◌, ◌==◌, Str,
  codes, is_empty,
}
use route_prism.Common.Sort.{sort_slice}
use route_prism.Common.SortStrict.{less_by}
use route_prism.Kube.Types.{HeaderMatch, WidgetInjectionSpec, EdgeTransformation}
use route_prism.Translator.Pattern.{hostname_glob_to_lua_pattern}

-- `fallbackDNSClusterIP`
abbrev pub fallback_dns_cluster_ip : Str
fallback_dns_cluster_ip = codes "10.96.0.10"

pub record VariantBackend : Type 0 where
  pub cookie_value : Str
  pub pod_ip : Str
  pub port : ℕ

pub record WidgetTmplData : Type 0 where
  pub enable : Bool
  pub path_prefix : Str
  pub ip_cidrs : List Str
  pub trust_forwarded_for : Bool
  pub headers : List HeaderMatch
  pub cookies : List HeaderMatch
  pub methods : List Str
  pub path_prefixes : List Str
  pub hostname_patterns : List Str

-- The map that is encoded for the widget.
pub record WidgetConfig : Type 0 where
  pub target : Str
  pub namespace : Str
  pub routing_key : Str
  pub source_cookie : Str
  pub path_prefix : Str
  pub style_mode : Str
  pub margin_top : Str
  pub margin_right : Str
  pub margin_bottom : Str
  pub margin_left : Str
  pub hotkey_open : Str
  pub fetch_enable : Bool
  pub xhr_enable : Bool

pub record NginxConfData : Type 0 where
  pub routing_key : Str
  pub source_cookie : Str
  pub namespace : Str
  pub dns_cluster_ip : Str
  pub default_pod_ip : Str
  pub default_port : ℕ
  pub variants : List VariantBackend
  pub widget : WidgetTmplData
  pub widget_config_json : Str
  pub operator_api_addr : Str

-- `json.Marshal` on the configuration, and `nginxSmartTmpl.Execute`; `none` is an error.
pub record Renderer : Type 0 where
  pub marshal : WidgetConfig → Option Str
  pub execute : NginxConfData → Option Str
  pub operator_api_addr : Str

-- `stringOrDefault`
abbrev pub string_or_default : Str → Str → Str
string_or_default v def = if is_empty v then def else v

-- `strings.ReplaceAll(s, "'", "&#39;")`
pub escape_quotes : Str → Str
escape_quotes [] = []
escape_quotes (c ∷ s) =
    let rest = escape_quotes s in if c == 39 then codes "&#39;" ++ rest else c ∷ rest

abbrev pub no_widget : WidgetTmplData
no_widget = record {
  enable = false;
  path_prefix = [];
  ip_cidrs = [];
  trust_forwarded_for = false;
  headers = [];
  cookies = [];
  methods = [];
  path_prefixes = [];
  hostname_patterns = [];
}

-- The prefix of the widget's paths.
abbrev pub prefix_of : WidgetInjectionSpec → Str
prefix_of wi = string_or_default wi.http_path_prefix (codes ".route-prism")

abbrev pub widget_of : WidgetInjectionSpec → WidgetTmplData
widget_of wi = record {
  enable = true;
  path_prefix = prefix_of wi;
  ip_cidrs = wi.match_spec.ips;
  trust_forwarded_for = wi.match_spec.trust_forwarded_for;
  headers = wi.match_spec.headers;
  cookies = wi.match_spec.cookies;
  methods = wi.match_spec.methods;
  path_prefixes = wi.match_spec.path_prefixes;
  hostname_patterns = map hostname_glob_to_lua_pattern wi.match_spec.hostnames;
}

abbrev pub config_of : EdgeTransformation → WidgetInjectionSpec → Str → WidgetConfig
config_of et wi routing_key = record {
  target = et.target;
  namespace = et.namespace;
  routing_key = routing_key;
  source_cookie = et.spec.source_cookie;
  path_prefix = prefix_of wi;
  style_mode = string_or_default wi.style_mode (codes "float");
  margin_top = wi.margin_top;
  margin_right = wi.margin_right;
  margin_bottom = wi.margin_bottom;
  margin_left = wi.margin_left;
  hotkey_open = wi.hotkey_open;
  fetch_enable = wi.fetch_enable;
  xhr_enable = wi.xhr_enable;
}

module _ (r : Renderer) where
  abbrev with_json : WidgetTmplData → Option Str → Option (WidgetTmplData × Str)
  with_json w none = none
  with_json w (some raw) = some (w, escape_quotes raw)

  abbrev widget_data :
      EdgeTransformation → Str → Option WidgetInjectionSpec → Option (WidgetTmplData × Str)
  widget_data et routing_key none = some (no_widget, [])
  widget_data et routing_key (some wi) =
      if not wi.enable
      then some (no_widget, [])
      else with_json (widget_of wi) (r.marshal (config_of et wi routing_key))

  -- `buildWidgetTmplData`
  pub build_widget_tmpl_data : EdgeTransformation → Str → Option (WidgetTmplData × Str)
  unfolding escape_quotes
  build_widget_tmpl_data et routing_key = widget_data et routing_key et.spec.widget_injection

  abbrev conf_data :
      EdgeTransformation
      → Str
      → Str
      → Str
      → ℕ
      → List VariantBackend
      → WidgetTmplData
      → Str
      → NginxConfData
  conf_data et routing_key dns_ip pod_ip port variants widget json = record {
    routing_key = routing_key;
    source_cookie = et.spec.source_cookie;
    namespace = et.namespace;
    dns_cluster_ip = string_or_default dns_ip fallback_dns_cluster_ip;
    default_pod_ip = pod_ip;
    default_port = port;
    variants = sort_slice (less_by (λ v. v.cookie_value)) variants;
    widget = widget;
    widget_config_json = json;
    operator_api_addr = r.operator_api_addr;
  }

  -- `renderNginxConf`
  unfoldable pub render_nginx_conf :
      EdgeTransformation → (routing_key dns_ip pod_ip : Str) → ℕ → List VariantBackend → Option Str
  unfolding build_widget_tmpl_data
  render_nginx_conf et routing_key dns_ip pod_ip port variants =
      elim (build_widget_tmpl_data et routing_key) [
        | none ↦ none
        | some (widget, json) ↦
            r.execute (conf_data et routing_key dns_ip pod_ip port variants widget json)
      ]
