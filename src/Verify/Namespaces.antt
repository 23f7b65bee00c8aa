-- ===== src/Verify/Namespaces.antt =====
-- The namespace of the verify command (modules/operator/internal/verify/runner.go): its labels, its
-- creation and removal, and the order of a run. The deep probe is a parameter; the writes that it
-- makes inside the namespace are left out.
pub mod Consent
use route_prism.Common.{
  Bool, true, false, not, ◌&&◌, Option, none, some, List, [], ◌∷◌, ◌++◌, map, filter, if◌then◌else◌,
  is_nil, Str, codes, str_ltb, is_empty,
}
use route_prism.Common.Assoc.{lookup, put, keys}
use route_prism.Common.Results.{Result, value, failure, ◌>>=◌}
use route_prism.Common.Sort.{sort_slice}
use route_prism.Kube.Meta.{Labels, label_of}
use route_prism.Kube.Reconcile.{ApiError, not_found, other, Res, ok, err}
use route_prism.Kube.Workloads.{is_value}
use route_prism.Preflight.Mesh.{
  MeshKind, MeshMode, MeshInfo, MeshReader, detect_mesh, namespace_labels,
}

abbrev pub verify_namespace : Str
verify_namespace = codes "route-prism-verify"

-- `OnExistingPolicy`
pub data OnExistingPolicy : Type 0 where
  abort delete patch : OnExistingPolicy

pub data VerifyError : Type 0 where
  consent_required : (missing : Labels) → VerifyError
  refused : ApiError → VerifyError
  not_gone no_connection : VerifyError

-- A patch adds labels.
pub data NamespaceWrite : Type 0 where
  create_namespace : (name : Str) → (labels : Labels) → NamespaceWrite
  delete_namespace : (name : Str) → NamespaceWrite
  patch_labels : (name : Str) → (added : Labels) → NamespaceWrite

-- The answers of the API server: the labels of the namespace, the reads while its deletion is awaited
-- (those before the deadline), and the answers to the writes.
pub record NamespaceClient : Type 0 where
  pub get_namespace : (name : Str) → Res Labels
  pub awaited : List (Res Labels)
  pub write : NamespaceWrite → Option ApiError
  pub is_already_exists : ApiError → Bool

-- `mergeLabels`
abbrev pub merge_labels : Labels → Labels → Labels
merge_labels a [] = a
merge_labels a ((k, v) ∷ b) = merge_labels (put k v a) b

abbrev joined : List Str → Str
joined [] = []
joined (s ∷ []) = s
joined (s ∷ t ∷ ss) = s ++ codes ", " ++ joined (t ∷ ss)

unfoldable pub labels_string : Labels → Str
unfolding label_of sort_slice
labels_string m =
    if is_nil m
    then codes "(none)"
    else joined (map (λ k. k ++ b'=' ∷ label_of k m) (sort_slice str_ltb (keys m)))

-- The labels that are absent or have another value.
abbrev pub missing_labels : (have need : Labels) → Labels
missing_labels have need = filter (λ (k, v). not (is_value v (lookup k have))) need

abbrev pub managed_label : Labels
managed_label = (codes "app.kubernetes.io/managed-by", codes "route-prism-verify") ∷ []

-- The outcome of a step and its writes.
abbrev pub Step : Type 0
Step = Result VerifyError Str × List NamespaceWrite

abbrev tolerated : (ApiError → Bool) → Option ApiError → Option ApiError
tolerated accepts none = none
tolerated accepts (some e) = if accepts e then none else some e

abbrev is_not_found : ApiError → Bool
is_not_found not_found = true
is_not_found (other e) = false

abbrev or_refused : Option ApiError → Result VerifyError Str → Result VerifyError Str
or_refused none r = r
or_refused (some e) r = failure (refused e)

module _ (c : NamespaceClient) (name : Str) where
  -- `createNamespace`
  unfoldable pub create : (all_labels mesh_only : Labels) → Step
  unfolding labels_string
  create all_labels mesh_only =
      let w = create_namespace name all_labels in
      (
        or_refused (tolerated c.is_already_exists (c.write w)) (
            value (
              if not (is_nil mesh_only)
              then codes "created with " ++ labels_string mesh_only
              else codes "created")),
        w ∷ [],
      )

  -- `patchLabels` and the summary of its caller.
  unfoldable pub patch_with : Labels → Str → Step
  patch_with added summary =
      let w = patch_labels name added in (or_refused (c.write w) (value summary), w ∷ [])

  -- `waitNamespaceGone`
  pub is_gone : List (Res Labels) → Bool
  is_gone [] = false
  is_gone (err not_found ∷ rest) = true
  is_gone (err (other e) ∷ rest) = is_gone rest
  is_gone (ok labels ∷ rest) = is_gone rest

  abbrev after_delete : Option ApiError → (gone : Bool) → Step → Step
  after_delete (some e) gone next = (failure (refused e), delete_namespace name ∷ [])
  after_delete none false next = (failure not_gone, delete_namespace name ∷ [])
  after_delete none true (r, ws) = (r, delete_namespace name ∷ ws)

  -- The policies for an existing namespace that lacks labels of the mesh.
  unfoldable pub gated : OnExistingPolicy → (all_labels mesh missing bookkeeping : Labels) → Step
  unfolding create patch_with is_gone labels_string
  gated OnExistingPolicy.abort all_labels mesh missing bookkeeping =
      (failure (consent_required missing), [])
  gated OnExistingPolicy.delete all_labels mesh missing bookkeeping =
      after_delete (tolerated is_not_found (c.write (delete_namespace name))) (is_gone c.awaited)
        (create all_labels mesh)
  gated OnExistingPolicy.patch all_labels mesh missing bookkeeping =
      patch_with (merge_labels bookkeeping missing)
        (codes "labels patched: " ++ labels_string missing)

  -- An existing namespace with the labels `have`.
  unfoldable pub adjust : OnExistingPolicy → (have mesh : Labels) → Step
  unfolding gated patch_with
  adjust policy have mesh =
      let missing = missing_labels have mesh in
      let bookkeeping = missing_labels have managed_label in
      if not (is_nil bookkeeping) && is_nil missing
      then patch_with bookkeeping (codes "already configured (managed-by added)")
      else if is_nil missing && is_nil bookkeeping
      then (value (codes "already configured"), [])
      else gated policy (merge_labels managed_label mesh) mesh missing bookkeeping

  abbrev from_read : OnExistingPolicy → Labels → Res Labels → Step
  from_read policy mesh (ok have) = adjust policy have mesh
  from_read policy mesh (err not_found) = create (merge_labels managed_label mesh) mesh
  from_read policy mesh (err (other e)) = (failure (refused (other e)), [])

  -- `reconcileNamespace`
  unfoldable pub reconcile_namespace : (mesh_labels : Labels) → OnExistingPolicy → Step
  unfolding adjust create
  reconcile_namespace mesh_labels policy = from_read policy mesh_labels (c.get_namespace name)

-- `NamespaceState`
pub record NamespaceState : Type 0 where
  pub exists : Bool
  pub existing_labels : Labels
  pub missing : Labels

unfoldable pub needs_consent : NamespaceState → Bool
needs_consent n = n.exists && not (is_nil n.missing)

abbrev state_of : Labels → Res Labels → Result VerifyError NamespaceState
state_of mesh (ok have) =
    value (record { exists = true; existing_labels = have; missing = missing_labels have mesh })
state_of mesh (err not_found) =
    value (record { exists = false; existing_labels = []; missing = [] })
state_of mesh (err (other e)) = failure (refused (other e))

pub record Options : Type 0 where
  pub namespace : Str
  pub keep_namespace : Bool
  pub mesh_override : Option MeshMode
  pub on_existing : OnExistingPolicy

abbrev pub namespace_of : Options → Str
namespace_of opts = if is_empty opts.namespace then verify_namespace else opts.namespace

abbrev override_mode : MeshKind → MeshInfo → MeshMode → MeshInfo
override_mode MeshKind.istio m mode = record m { mode = mode }
override_mode MeshKind.cilium m mode = m
override_mode MeshKind.unknown m mode = m

-- The detected mesh with the mode that the caller forces on Istio.
abbrev pub mesh_for : Options → MeshInfo → MeshInfo
mesh_for opts m = elim opts.mesh_override [ none ↦ m | some mode ↦ override_mode m.kind m mode ]

-- The cluster that the command works on.
pub record Cluster : Type 0 where
  pub connects : Bool
  pub reader : MeshReader
  pub namespaces : NamespaceClient

-- `Inspect`: the mesh and the state of the namespace.
unfoldable pub inspect : Cluster → Options → Result VerifyError (MeshInfo × NamespaceState)
unfolding detect_mesh namespace_labels
inspect cl opts =
    let mesh = mesh_for opts (detect_mesh cl.reader) in
    if not cl.connects
    then failure no_connection
    else state_of (namespace_labels mesh) (cl.namespaces.get_namespace (namespace_of opts)) >>= λ s.
        value (mesh, s)

abbrev probed {ℓ} : {A : Type ℓ} → Step → A → List NamespaceWrite → Option A × List NamespaceWrite
probed (failure e, ws) report cleanup = (none, ws)
probed (value text, ws) report cleanup = (some report, ws ++ cleanup)

-- The goroutine of `Run`: the report of the deep probe, `none` after an error, and the writes.
unfoldable pub verify_run :
    {A : Type 0} → Cluster → (deep_probe : MeshInfo → A) → Options → Option A × List NamespaceWrite
verify_run cl deep_probe opts =
    let mesh = mesh_for opts (detect_mesh cl.reader) in
    let name = namespace_of opts in
    let step = reconcile_namespace cl.namespaces name (namespace_labels mesh) opts.on_existing in
    if not cl.connects
    then (none, [])
    else probed step (deep_probe mesh)
        (if not opts.keep_namespace then delete_namespace name ∷ [] else [])
