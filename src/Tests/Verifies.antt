-- ===== src/Tests/Verifies.antt =====
-- The namespace of the verify command.
use route_prism.Common.{
  ◌≡◌, ◌≢◌, ◌↔◌, refl, true, false, none, some, List, [], ◌∷◌, ◌++◌, All, codes,
}
use route_prism.Common.Results.{value, failure}
use route_prism.Kube.Meta.{Labels}
use route_prism.Kube.Reconcile.{not_found, ok, err}
use route_prism.Preflight.Mesh.{MeshReader, detect_mesh, namespace_labels}
use route_prism.Verify.Namespaces.{
  OnExistingPolicy, abort, delete, patch, NamespaceWrite, create_namespace, delete_namespace,
  NamespaceClient, managed_label, reconcile_namespace, NamespaceState, needs_consent, inspect,
  consent_required, Options, Cluster, verify_run,
}
use route_prism.Verify.Namespaces.Consent.{
  IsConsented, IsNotCreation, reconcile_namespace-IsConsented, inspect-consent,
  verify_run-deletes_existing,
}

-- An existing namespace of a team, in a cluster with Istio's sidecars.
abbrev have : Labels
have = (codes "team", codes "shop") ∷ []

abbrev istio_reader : MeshReader
istio_reader = record {
  deployment_images = λ ns n. some (codes "docker.io/istio/pilot:1.22.0" ∷ []);
  has_daemon_set = λ ns n. false;
}

abbrev namespaces : NamespaceClient
namespaces = record {
  get_namespace = λ n. ok have;
  awaited = ok have ∷ err not_found ∷ [];
  write = λ w. none;
  is_already_exists = λ e. false;
}

abbrev cluster : Cluster
cluster = record { connects = true; reader = istio_reader; namespaces = namespaces }

abbrev run_options : OnExistingPolicy → Options
run_options policy = record {
  namespace = codes "shop";
  keep_namespace = false;
  mesh_override = none;
  on_existing = policy;
}

abbrev mesh : Labels
mesh = namespace_labels (detect_mesh istio_reader)

reconcile_namespace-IsConsented_example :
    All (IsConsented patch have mesh) (reconcile_namespace namespaces (codes "shop") mesh patch).1
reconcile_namespace-IsConsented_example =
    reconcile_namespace-IsConsented namespaces (codes "shop") have mesh patch refl

replaced :
    (reconcile_namespace namespaces (codes "shop") mesh delete).1
    ≡ delete_namespace (codes "shop")
      ∷ create_namespace
          (codes "shop")
          (managed_label ++ (codes "istio-injection", codes "enabled") ∷ [])
      ∷ []
unfolding reconcile_namespace detect_mesh namespace_labels
replaced = refl

abbrev missing_state : NamespaceState
missing_state = record {
  exists = true;
  existing_labels = have;
  missing = (codes "istio-injection", codes "enabled") ∷ [];
}

inspected : inspect cluster (run_options abort) ≡ value (detect_mesh istio_reader, missing_state)
unfolding inspect detect_mesh namespace_labels
inspected = refl

inspect-consent_example : (needs_consent missing_state ≡ true) ↔ (
    reconcile_namespace namespaces (codes "shop") mesh abort
    ≡ (failure (consent_required missing_state.missing), []))
inspect-consent_example =
    inspect-consent cluster (run_options abort) (detect_mesh istio_reader) missing_state inspected

is_not_delete : patch ≢ delete
is_not_delete h = cc

patched :
    (reconcile_namespace namespaces (codes "shop") mesh patch).0
    ≡ value (codes "labels patched: istio-injection=enabled")
unfolding reconcile_namespace detect_mesh namespace_labels
patched = refl

verify_run-deletes_existing_example :
    (before : List NamespaceWrite) × ((verify_run cluster (λ m. true) (run_options patch)).1
      ≡ before ++ delete_namespace (codes "shop") ∷ [])
    × All IsNotCreation before
verify_run-deletes_existing_example =
    verify_run-deletes_existing cluster (λ m. true) (run_options patch) have
      (codes "labels patched: istio-injection=enabled") refl refl is_not_delete refl patched
