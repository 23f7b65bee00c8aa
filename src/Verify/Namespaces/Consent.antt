-- ===== src/Verify/Namespaces/Consent.antt =====
-- What a run may do to a namespace that exists already.
use mathlib.Core.Path.{subst}
use mathlib.Core.List.{Memᴰ}
use route_prism.Common.{
  ◌≡◌, ◌≢◌, refl, sym, ap, ◌∙◌, ◌⊎◌, inl, inr, ◌↔◌, Bool, true, false, not, ◌&&◌, Option, none,
  some, List, [], ◌∷◌, ◌++◌, if◌then◌else◌, is_nil, All, Str, str_eq, str_eq_iff, Bool-cases,
}
use route_prism.Common.Assoc.{lookup, put, lookup-put, entry-lookup}
use route_prism.Common.Members.{mem-of_filter}
use route_prism.Common.Results.{Result, value, failure, >>=-eq-value, else-eq-value}
use route_prism.Kube.Meta.{Labels}
use route_prism.Kube.Reconcile.{ApiError, Res, ok, err, not_found, other}
use route_prism.Kube.Workloads.{is_value}
use route_prism.Preflight.Mesh.{MeshInfo, detect_mesh, namespace_labels}
use route_prism.Verify.Namespaces.{
  OnExistingPolicy, abort, delete, patch, VerifyError, consent_required, NamespaceWrite,
  create_namespace, delete_namespace, patch_labels, NamespaceClient, merge_labels, missing_labels,
  managed_label, Step, create, patch_with, is_gone, after_delete, gated, adjust, from_read,
  reconcile_namespace, NamespaceState, needs_consent, state_of, Options, namespace_of, mesh_for,
  Cluster, inspect, probed, verify_run,
}

found-or :
    (b : Bool) (w v : Str) (o : Option Str)
    → (if b then some w else o) ≡ some v
    → ((b ≡ true) × (w ≡ v)) ⊎ (o ≡ some v)
found-or true w v o h = inl (refl, cc)
found-or false w v o h = inr h

-- What is found in merged labels stands in one of the two.
merge_labels-entry :
    (k v : Str) (a b : Labels)
    → lookup k (merge_labels a b) ≡ some v
    → (lookup k a ≡ some v) ⊎ Memᴰ (k, v) b
merge_labels-entry k v a [] h = inl h
merge_labels-entry k v a ((j, w) ∷ b) h = elim (merge_labels-entry k v (put j w a) b h) [
  | inr m ↦ inr (Memᴰ.tail m)
  | inl found ↦ elim (found-or (str_eq j k) w v (lookup k a) (sym (lookup-put k j w a) ∙ found)) [
    | inr e ↦ inl e
    | inl (same, e) ↦ inr (Memᴰ.head (let s = (str_eq_iff j k).0 same in λ i. (sym s i, sym e i)))
  ]
]

module _ (policy : OnExistingPolicy) (have mesh : Labels) where
  -- A write to a namespace with the labels `have` that the policy allows: it is deleted, and created
  -- anew, only under the policy `delete` and where a label of the mesh is missing; a label that is
  -- added is the bookkeeping label or, under the policy `patch`, a missing label of the mesh.
  abbrev pub IsConsented : NamespaceWrite → Type 0
  IsConsented (create_namespace name labels) = policy ≡ delete
  IsConsented (delete_namespace name) =
      (policy ≡ delete) × (is_nil (missing_labels have mesh) ≡ false)
  IsConsented (patch_labels name added) =
      (k v : Str)
      → lookup k added ≡ some v
      → Memᴰ (k, v) managed_label ⊎ ((policy ≡ patch) × Memᴰ (k, v) (missing_labels have mesh))

bookkeeping_entry :
    (have : Labels) (k v : Str)
    → lookup k (missing_labels have managed_label) ≡ some v
    → Memᴰ (k, v) managed_label
bookkeeping_entry have k v h =
    mem-of_filter (λ (j, w). not (is_value w (lookup j have))) _ managed_label
      (entry-lookup k v _ h)

module _ (c : NamespaceClient) (name : Str) (have mesh : Labels) where
  after_delete-IsConsented :
      (o : Option ApiError) (gone : Bool) (all_labels : Labels)
      → is_nil (missing_labels have mesh) ≡ false
      → All
          (IsConsented delete have mesh)
          (after_delete c name o gone (create c name all_labels mesh)).1
  unfolding create
  after_delete-IsConsented (some e) gone all_labels h = ((refl, h), tt)
  after_delete-IsConsented none false all_labels h = ((refl, h), tt)
  after_delete-IsConsented none true all_labels h = ((refl, h), (refl, tt))

  gated-IsConsented :
      (policy : OnExistingPolicy) (all_labels : Labels)
      → is_nil (missing_labels have mesh) ≡ false
      → All
          (IsConsented policy have mesh)
          (gated c name policy all_labels mesh
            (missing_labels have mesh)
            (missing_labels have managed_label)).1
  unfolding gated patch_with
  gated-IsConsented OnExistingPolicy.abort all_labels h = tt
  gated-IsConsented OnExistingPolicy.delete all_labels h =
      after_delete-IsConsented _ (is_gone c name c.awaited) all_labels h
  gated-IsConsented OnExistingPolicy.patch all_labels h = (
    (λ k v found.
        elim (merge_labels-entry k v (missing_labels have managed_label) (missing_labels have mesh)
          found) [ inl e ↦ inl (bookkeeping_entry have k v e) | inr m ↦ inr (refl, m) ]),
    tt,
  )

  rest_missing : (b m : Bool) → (not b && m) ≡ false → (m && b) ≡ false → m ≡ false
  rest_missing b false h k = refl
  rest_missing true true h k = cc
  rest_missing false true h k = cc

  adjust-IsConsented :
      (policy : OnExistingPolicy)
      → All (IsConsented policy have mesh) (adjust c name policy have mesh).1
  unfolding adjust patch_with
  adjust-IsConsented policy =
      let missing = is_nil (missing_labels have mesh) in
      let bookkeeping = is_nil (missing_labels have managed_label) in
      elim (Bool-cases (not bookkeeping && missing)) [
        | inl e ↦ rw e ((λ k v found. inl (bookkeeping_entry have k v found)), tt)
        | inr e ↦ elim (Bool-cases (missing && bookkeeping)) [
          | inl f ↦ rw (e, f) tt
          | inr f ↦ rw (e, f) (gated-IsConsented policy _ (rest_missing bookkeeping missing e f))
        ]
      ]

  -- The namespace exists with the labels `have`: whatever the answers, the writes of
  -- `reconcileNamespace` are consented to. It is deleted and created anew only under the policy
  -- `delete` where a label of the mesh is missing, and labels of the mesh are added only under the
  -- policy `patch`, and only missing ones; beside them only the bookkeeping label is added.
  pub reconcile_namespace-IsConsented :
      (policy : OnExistingPolicy)
      → c.get_namespace name ≡ ok have
      → All (IsConsented policy have mesh) (reconcile_namespace c name mesh policy).1
  unfolding reconcile_namespace
  reconcile_namespace-IsConsented policy e = rw e (adjust-IsConsented policy)

  -- The tests of `adjust`.
  gate_open :
      (b m : Bool) (p q g : Step)
      → m ≡ false
      → (if not b && m then p else if m && b then q else g) ≡ g
  gate_open true m p q g h = rw h refl
  gate_open false m p q g h = rw h refl

  abbrev IsRefusal : Step → Type 0
  IsRefusal r = r ≡ (failure (consent_required (missing_labels have mesh)), [])

  gate_shut :
      (b m : Bool) (p q g : Step)
      → (IsRefusal p → ⊥)
      → (IsRefusal q → ⊥)
      → IsRefusal (if not b && m then p else if m && b then q else g)
      → m ≡ false
  gate_shut b false p q g hp hq h = refl
  gate_shut true true p q g hp hq h = absurd (hq h)
  gate_shut false true p q g hp hq h = absurd (hp h)

  not_iff : (b : Bool) → (not b ≡ true) ↔ (b ≡ false)
  not_iff true = ((λ h. cc), λ h. cc)
  not_iff false = ((λ h. refl), λ h. refl)

  adjust_refuses :
      (not (is_nil (missing_labels have mesh)) ≡ true) ↔ IsRefusal (adjust c name abort have mesh)
  unfolding adjust patch_with gated
  adjust_refuses =
      let missing = is_nil (missing_labels have mesh) in
      let bookkeeping = is_nil (missing_labels have managed_label) in
      (
        (λ h. gate_open bookkeeping missing _ _ _ ((not_iff missing).0 h)),
        λ h. (not_iff missing).1 (
            gate_shut bookkeeping missing _ _ _ (λ k. let e = ap (λ r. r.1) k in cc)
              (λ k. let e = ap (λ r. r.0) k in cc) h),
      )

value_of :
    {s t : NamespaceState} → ◌≡◌ {A = Result VerifyError NamespaceState} (value s) (value t) → s ≡ t
value_of h = cc

-- What `inspect` says of a read and what the code does with it under the policy `abort`.
Agrees : NamespaceClient → Str → Labels → Res Labels → NamespaceState → Type 0
Agrees c name mesh r s =
    (needs_consent s ≡ true)
    ↔ (from_read c name abort mesh r ≡ (failure (consent_required s.missing), []))

read_refuses :
    (c : NamespaceClient) (name : Str) (mesh : Labels) (r : Res Labels) (s : NamespaceState)
    → state_of mesh r ≡ value s
    → Agrees c name mesh r s
unfolding needs_consent create Agrees
read_refuses c name mesh (ok have) s h =
    subst (Agrees c name mesh (ok have)) (value_of h) (adjust_refuses c name have mesh)
read_refuses c name mesh (err not_found) s h =
    subst (Agrees c name mesh (err not_found)) (value_of h)
      ((λ k. cc), λ k. absurd (let e = ap (λ r. r.1) k in cc))
read_refuses c name mesh (err (other e)) s h = cc

pair_of :
    {p q : MeshInfo × NamespaceState}
    → ◌≡◌ {A = Result VerifyError (MeshInfo × NamespaceState)} (value p) (value q)
    → p ≡ q
pair_of h = cc

inspected :
    (cl : Cluster) (opts : Options) (mesh : MeshInfo) (s : NamespaceState)
    → inspect cl opts ≡ value (mesh, s)
    → state_of (namespace_labels mesh) (cl.namespaces.get_namespace (namespace_of opts)) ≡ value s
unfolding inspect
inspected cl opts mesh s h =
    let detected = mesh_for opts (detect_mesh cl.reader) in
    let read = cl.namespaces.get_namespace (namespace_of opts) in
    let (_, h') = else-eq-value (not cl.connects) _ _ h in
    let (s', found, same) = >>=-eq-value (state_of (namespace_labels detected) read) _ h' in
    let pair : ◌≡◌ {A = MeshInfo × NamespaceState} (detected, s') (mesh, s) = pair_of same in
    subst (λ p. state_of (namespace_labels p.0) read ≡ value p.1) pair found

-- `Inspect` asks for consent exactly where a run for the mesh that it reports, without a policy,
-- refuses the namespace for missing consent, names the same missing labels, and writes nothing.
pub inspect-consent :
    (cl : Cluster) (opts : Options) (mesh : MeshInfo) (s : NamespaceState)
    → inspect cl opts ≡ value (mesh, s)
    → (needs_consent s ≡ true) ↔ (
        reconcile_namespace cl.namespaces (namespace_of opts) (namespace_labels mesh) abort
        ≡ (failure (consent_required s.missing), []))
unfolding reconcile_namespace Agrees
inspect-consent cl opts mesh s h =
    read_refuses cl.namespaces (namespace_of opts) (namespace_labels mesh)
      (cl.namespaces.get_namespace (namespace_of opts)) s (inspected cl opts mesh s h)

-- A namespace is not created.
abbrev pub IsNotCreation : NamespaceWrite → Type 0
IsNotCreation (create_namespace name labels) = ⊥
IsNotCreation (delete_namespace name) = Unit
IsNotCreation (patch_labels name added) = Unit

kept_writes :
    (policy : OnExistingPolicy) (have mesh : Labels) (ws : List NamespaceWrite)
    → policy ≢ delete
    → All (IsConsented policy have mesh) ws
    → All IsNotCreation ws
kept_writes policy have mesh [] h k = tt
kept_writes policy have mesh (create_namespace name labels ∷ ws) h (p, k) = absurd (h p)
kept_writes policy have mesh (delete_namespace name ∷ ws) h (p, k) =
    (tt, kept_writes policy have mesh ws h k)
kept_writes policy have mesh (patch_labels name added ∷ ws) h (p, k) =
    (tt, kept_writes policy have mesh ws h k)

-- The writes of a run whose namespace is ready and not kept.
end_writes :
    {A : Type 0} (connects keep : Bool) (step : Step) (report : A) (name text : Str)
    → connects ≡ true
    → keep ≡ false
    → step.0 ≡ value text
    → (if not connects
        then (none, [])
        else probed step report (if not keep then delete_namespace name ∷ [] else [])).1
      ≡ step.1 ++ delete_namespace name ∷ []
end_writes false keep step report name text h k e = cc
end_writes true true step report name text h k e = cc
end_writes true false (value t, ws) report name text h k e = refl
end_writes true false (failure x, ws) report name text h k e = cc

-- A run deletes a namespace that it has not created: where the cluster is reached, the namespace
-- exists, the policy is not `delete`, `reconcileNamespace` succeeds and the caller did not ask to keep
-- the namespace, no write creates it, and the last write deletes it.
pub verify_run-deletes_existing :
    {A : Type 0} (cl : Cluster) (deep_probe : MeshInfo → A) (opts : Options) (have : Labels)
    (text : Str)
    → cl.connects ≡ true
    → cl.namespaces.get_namespace (namespace_of opts) ≡ ok have
    → opts.on_existing ≢ delete
    → opts.keep_namespace ≡ false
    → (reconcile_namespace cl.namespaces
        (namespace_of opts)
        (namespace_labels (mesh_for opts (detect_mesh cl.reader)))
        opts.on_existing).0
      ≡ value text
    → (before : List NamespaceWrite) × ((verify_run cl deep_probe opts).1
        ≡ before ++ delete_namespace (namespace_of opts) ∷ [])
      × All IsNotCreation before
unfolding verify_run
verify_run-deletes_existing {A} cl deep_probe opts have text connected exists policy keep accepted =
    let mesh = namespace_labels (mesh_for opts (detect_mesh cl.reader)) in
    let step = reconcile_namespace cl.namespaces (namespace_of opts) mesh opts.on_existing in
    (
      step.1,
      end_writes cl.connects opts.keep_namespace step
          (deep_probe (mesh_for opts (detect_mesh cl.reader))) (namespace_of opts) text connected
          keep accepted,
      kept_writes opts.on_existing have mesh step.1 policy (
          reconcile_namespace-IsConsented cl.namespaces (namespace_of opts) have mesh
            opts.on_existing exists),
    )
