-- ===== src/Lib.antt =====
-- route-prism: a Kubernetes operator that routes requests by the W3C Baggage header. ContextRoute,
-- EdgeTransformation and RemoteRoute are its custom resources. The ContextRoute reconciler turns a
-- target Service and its variants into a GAMMA HTTPRoute; the EdgeTransformation reconciler puts a
-- translator (nginx) before a target and, if it has one, takes its routing over from the
-- ContextRoute; a read API answers from a snapshot which targets and alternatives there are.
--
-- Paths are from the repository's root.
--
-- - Common: Booleans, lists, byte strings, sort.Search and sort.Slice, maps as association lists,
--   signed numbers and the conversion to int32.
--   A text is the list of its bytes; texts are ASCII where the code lowercases them.
-- - Kube: metadata, conditions and Services (libraries; only fields), the custom resources of
--   modules/operator/api/v1alpha1 (Kube.Types), the way a reconciler runs (Kube.Reconcile: answers
--   of the API server that may be errors, early returns, and the list of attempted writes and
--   events), the rules for what holds of every write (Kube.Ensures) and for runs that go on
--   (Kube.Goes), and the objects that run a proxy (Kube.Workloads).
-- - Election: resolveOwner and the routing-key loop of checkConflicts
--   (modules/operator/internal/controller/contextroute_controller.go), findCRForTarget
--   (modules/operator/internal/controller/edgetransformation_controller.go).
-- - Render: modules/operator/internal/controller/render_httproute.go and
--   modules/operator/internal/controller/labels.go.
-- - ContextRoute: modules/operator/internal/controller/contextroute_controller.go. Client is a
--   record of the answers of the API server during one run, a parameter of the model; `run` gives
--   the result and the writes.
-- - Translator: modules/operator/internal/controller/translator_render.go. The template engine and
--   the JSON encoder are parameters (Renderer); Objects are the ConfigMap, Service and Deployment.
-- - EdgeTransformation: modules/operator/internal/controller/edgetransformation_controller.go,
--   with its own Client; Watches are the map functions of SetupWithManager, here and in ContextRoute
--   and RemoteRoute.
-- - RemoteRoute: modules/operator/internal/controller/remoteroute_controller.go: the owner
--   reference (Owner), the health of the upstreams from a dump of the proxy's clusters (Health)
--   and Reconcile (Reconciler); modules/operator/internal/controller/remoteroute_render.go:
--   resolveUpstreams (Upstreams) and the objects of the proxy (Proxy). url.Parse, the template of
--   Envoy's configuration and the checksum are parameters; a port is an int32 (Common.Int).
--   Variant joins the proxy's Service and the HTTPRoute of the ContextRoute.
-- - Preflight: modules/operator/internal/preflight: versions and the detected mesh (mesh.go), the
--   probe with its polls, the report (preflight.go) and the outcome (probe.go). The polls are the
--   list of those that happen before the deadline.
-- - Verify: modules/operator/internal/verify/runner.go: the labels, the creation and the removal of
--   the command's namespace (reconcileNamespace, Inspect) and the writes of Run around the deep
--   probe, which is a parameter (Namespaces); modules/operator/internal/verify/deep.go: the traffic
--   cases and the reading of the pod's log (Traffic), with the pod and fmt.Sscanf left out or as
--   parameters.
-- - Delegation: what the two reconcilers do for one target.
-- - Index: modules/operator/internal/apiserver/index.go. Source holds the answers of the cached
--   client; the order of Go's loops over a map is a parameter of it.
-- - Api: modules/operator/internal/apiserver/api.go: filter, cursor (base64), pagination,
--   handlers.
-- - Tests: runs on a small cluster.
--
-- Creation times are natural numbers, in seconds. A client that walks pages has a bound on its
-- requests as fuel; the theorems on walks give a bound that is enough. A write is listed when it
-- is attempted, and its answer is read from the Client; one run asks each question once, so an
-- answer does not depend on the writes before it.
--
-- Not modelled: the other steps of the deep probe and the terminal interface of the verify command,
-- flags and wiring, telemetry, static assets, sample programs, generated code. Messages of
-- events and conditions and the times of transitions are left out.
pub mod Common
pub mod Kube
pub mod Election
pub mod Render
pub mod ContextRoute
pub mod Api
pub mod Tests
pub mod Index
pub mod Translator
pub mod EdgeTransformation
pub mod Delegation
pub mod RemoteRoute
pub mod Preflight
pub mod Verify
