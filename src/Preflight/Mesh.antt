-- ===== src/Preflight/Mesh.antt =====
-- The detected mesh (modules/operator/internal/preflight/mesh.go).
pub mod Issues
use route_prism.Common.{
  ℕ, Bool, true, false, not, ◌&&◌, ◌||◌, Option, none, some, List, [], ◌∷◌, ◌++◌, drop, length,
  if◌then◌else◌, ◌==◌, ltb, Str, codes, str_eq, has_prefix, is_empty,
}
use route_prism.Kube.Meta.{Labels}
use route_prism.Preflight.Version.{
  Version, no_version, version, is_zero, to_string, less_than, at_least, parse_version,
}

pub data MeshKind : Type 0 where
  unknown istio cilium : MeshKind

pub data MeshMode : Type 0 where
  mode_unknown sidecar ambient native : MeshMode

pub record MeshInfo : Type 0 where
  pub kind : MeshKind
  pub mode : MeshMode
  pub version : Version
  pub raw_image : Str

abbrev pub kind_text : MeshKind → Str
kind_text MeshKind.unknown = []
kind_text MeshKind.istio = codes "istio"
kind_text MeshKind.cilium = codes "cilium"

abbrev mode_suffix : MeshMode → Str
mode_suffix MeshMode.mode_unknown = []
mode_suffix MeshMode.sidecar = codes " (sidecar)"
mode_suffix MeshMode.ambient = codes " (ambient)"
mode_suffix MeshMode.native = []

abbrev detail : (quote : Str → Str) → MeshInfo → Str
detail quote m =
    if not (is_zero m.version)
    then b' ' ∷ to_string m.version
    else if not (is_empty m.raw_image)
    then codes " (image=" ++ quote m.raw_image ++ codes ")"
    else []

abbrev summary_of : MeshKind → (known : Str) → Str
summary_of MeshKind.unknown known = codes "unknown (neither istiod nor cilium-operator found)"
summary_of MeshKind.istio known = known
summary_of MeshKind.cilium known = known

-- `Summary`; `quote` is the verb `%q`.
unfoldable pub summary : (quote : Str → Str) → MeshInfo → Str
unfolding is_zero to_string
summary quote m = summary_of m.kind (kind_text m.kind ++ detail quote m ++ mode_suffix m.mode)

abbrev istio_labels : MeshMode → Labels
istio_labels MeshMode.mode_unknown = []
istio_labels MeshMode.sidecar = (codes "istio-injection", codes "enabled") ∷ []
istio_labels MeshMode.ambient = (codes "istio.io/dataplane-mode", codes "ambient") ∷ []
istio_labels MeshMode.native = []

abbrev labels_for : MeshKind → MeshMode → Labels
labels_for MeshKind.unknown mode = []
labels_for MeshKind.istio mode = istio_labels mode
labels_for MeshKind.cilium mode = []

unfoldable pub namespace_labels : MeshInfo → Labels
namespace_labels m = labels_for m.kind m.mode

abbrev waypoint_for : MeshKind → MeshMode → Bool
waypoint_for MeshKind.istio MeshMode.ambient = true
waypoint_for kind mode = false

unfoldable pub requires_waypoint : MeshInfo → Bool
requires_waypoint m = waypoint_for m.kind m.mode

abbrev experimental_for : MeshKind → Version → Bool
experimental_for MeshKind.unknown v = false
experimental_for MeshKind.istio v = at_least v (version 1 20 0) && less_than v (version 1 22 0)
experimental_for MeshKind.cilium v = false

unfoldable pub experimental : MeshInfo → Bool
unfolding is_zero at_least less_than
experimental m = if is_zero m.version then false else experimental_for m.kind m.version

abbrev issue_for : MeshKind → Version → Str
issue_for MeshKind.unknown v = []
issue_for MeshKind.istio v =
    if less_than v (version 1 20 0)
    then codes "Istio "
      ++ to_string v
      ++ codes " does not support Gateway API GAMMA (HTTPRoute mesh binding); "
      ++ codes "minimum recommended is 1.22+ (stable)."
    else if less_than v (version 1 22 0)
    then codes "Istio "
      ++ to_string v
      ++ codes " has experimental/alpha GAMMA support only; "
      ++ codes "1.22+ is required for stable HTTPRoute mesh binding."
    else []
issue_for MeshKind.cilium v =
    if less_than v (version 1 16 0)
    then codes "Cilium "
      ++ to_string v
      ++ codes " does not support Gateway API GAMMA; minimum is 1.16."
    else []

unfoldable pub known_issue : MeshInfo → Str
unfolding is_zero less_than to_string
known_issue m = if is_zero m.version then [] else issue_for m.kind m.version

-- The text after the first occurrence of `p`, as `strings.Cut` gives it.
pub cut_after : Str → Str → Option Str
cut_after p [] = if has_prefix [] p then some [] else none
cut_after p (c ∷ s) =
    let rest = cut_after p s in
    if has_prefix (c ∷ s) p then some (drop (length p) (c ∷ s)) else rest

-- The text after the last byte `sep`, for `strings.LastIndex`.
pub after_last : ℕ → Str → Option Str
after_last sep [] = none
after_last sep (c ∷ s) = elim (after_last sep s) [
  | some t ↦ some t
  | none ↦ if c == sep then some s else none
]

abbrev version_of_tag : Option Str → Version
version_of_tag none = no_version
version_of_tag (some tag) =
    if is_empty tag || has_prefix tag (codes "sha256") then no_version else parse_version tag

unfoldable pub parse_version_from_image : Str → List Str → Version
unfolding cut_after after_last parse_version
parse_version_from_image image [] = version_of_tag (after_last b':' image)
parse_version_from_image image (p ∷ ps) = elim (cut_after p image) [
  | some after ↦ parse_version after
  | none ↦ parse_version_from_image image ps
]

-- What detection reads: the images of the containers of a Deployment, `none` if it cannot be read,
-- and whether a DaemonSet can be read.
pub record MeshReader : Type 0 where
  pub deployment_images : (namespace name : Str) → Option (List Str)
  pub has_daemon_set : (namespace name : Str) → Bool

abbrev first_image : Option (List Str) → Option Str
first_image none = none
first_image (some []) = none
first_image (some (i ∷ is)) = some i

-- `readDeploymentImage`: the first container.
unfoldable pub read_deployment_image : MeshReader → (namespace name : Str) → Option Str
read_deployment_image r namespace name = first_image (r.deployment_images namespace name)

abbrev cilium_mesh : Str → MeshInfo
cilium_mesh image = record {
  kind = MeshKind.cilium;
  mode = MeshMode.native;
  version = parse_version_from_image image (
      codes "cilium-operator-generic:"
      ∷ codes "cilium-operator:"
      ∷ codes "operator-generic:"
      ∷ codes "operator:"
      ∷ codes "cilium:"
      ∷ []);
  raw_image = image;
}

abbrev istio_mesh : Bool → Str → MeshInfo
istio_mesh ztunnel image = record {
  kind = MeshKind.istio;
  mode = if ztunnel then MeshMode.ambient else MeshMode.sidecar;
  version =
      parse_version_from_image image (codes "istiod:" ∷ codes "pilot:" ∷ codes "proxyv2:" ∷ []);
  raw_image = image;
}

abbrev no_mesh : MeshInfo
no_mesh = record {
  kind = MeshKind.unknown;
  mode = MeshMode.mode_unknown;
  version = no_version;
  raw_image = [];
}

-- The names under which the operator of Cilium is looked for.
pub detect_cilium : MeshReader → List Str → MeshInfo
unfolding read_deployment_image parse_version_from_image
detect_cilium r [] = no_mesh
detect_cilium r (name ∷ names) = elim (read_deployment_image r (codes "kube-system") name) [
  | some image ↦ cilium_mesh image
  | none ↦ detect_cilium r names
]

unfoldable pub detect_mesh : MeshReader → MeshInfo
unfolding detect_cilium read_deployment_image parse_version_from_image
detect_mesh r = elim (read_deployment_image r (codes "istio-system") (codes "istiod")) [
  | some image ↦ istio_mesh (r.has_daemon_set (codes "istio-system") (codes "ztunnel")) image
  | none ↦ detect_cilium r (codes "cilium-operator" ∷ codes "cilium-operator-generic" ∷ [])
]
