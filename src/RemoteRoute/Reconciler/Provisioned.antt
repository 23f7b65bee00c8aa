-- ===== src/RemoteRoute/Reconciler/Provisioned.antt =====
-- A run of the reconciler writes only what its answers justify.
use mathlib.Core.Path.{subst}
use route_prism.Common.{
  ◌≡◌, refl, sym, inl, inr, Bool, true, false, not, Option, none, some, [], All, is_nil, Str, codes,
  ◌&&◌,
}
use route_prism.Common.Results.{Result, value, failure}
use route_prism.Kube.Types.{ContextRoute, RemoteRoute}
use route_prism.Kube.Reconcile.{Res, ok, err, not_found, other, ApiError}
use route_prism.Kube.Ensures.{
  Ensures, Ensures-pure, Ensures-return, Ensures-finish, Ensures-if, Ensures-emit, Ensures-check,
  Ensures-check_res, Ensures-bind, Ensures-weaken,
}
use route_prism.RemoteRoute.Client.{
  Write, update, update_status, apply_config_map, apply_service, apply_deployment, event, Client,
}
use route_prism.RemoteRoute.Owner.{ensure_rr_owner_ref}
use route_prism.RemoteRoute.Upstreams.{UpstreamError, Resolved}
use route_prism.RemoteRoute.Upstreams.Accepted.{resolve_upstreams_iff}
use route_prism.RemoteRoute.Reconciler.Conditions.{IsTold, IsKept, failure-IsTold, report-IsTold}
use route_prism.Common.Members.{All-map}
use route_prism.RemoteRoute.Reconciler.{
  with_conditions, fetched, with_variant_name, requeued, any_healthy, record_event, finish_status,
  give_up, check_parent, adopt, check_selector, check_upstreams, rendered, apply, apply_all, report,
  provision, reconcile, run,
}
use route_prism.RemoteRoute.Reconciler.Ready.{IsReady, IsAdoption, IsProvisioned, IsSound}

module _ (c : Client) (namespace name : Str) where
  record_event-Ensures :
      (reason : Str) → Ensures (IsSound c namespace name) (record_event c reason) (λ _. Unit {0})
  unfolding record_event
  record_event-Ensures reason =
      Ensures-if c.has_recorder _ _ (λ _. Ensures-emit _ tt) (λ _. Ensures-pure tt tt)

  give_up-Ensures :
      {A : Type 0} {Q : A → Type 0} (rr : RemoteRoute) (reason : Str)
      → IsKept c namespace name rr
      → Ensures (IsSound c namespace name) (give_up c {A = A} rr reason) Q
  unfolding give_up finish_status
  give_up-Ensures rr reason kept = Ensures-bind _ _ (record_event-Ensures _) (λ _ _.
      Ensures-bind _ _ (Ensures-emit _ (failure-IsTold c namespace name rr reason kept))
        (λ _ _. Ensures-finish _))

  fetched-Ensures :
      (r : Res RemoteRoute) → Ensures (IsSound c namespace name) (fetched r) (λ rr. r ≡ ok rr)
  unfolding fetched
  fetched-Ensures (ok rr) = Ensures-pure rr refl
  fetched-Ensures (err not_found) = Ensures-return _
  fetched-Ensures (err (other e)) = Ensures-return _

  check_parent-Ensures :
      (rr : RemoteRoute) (r : Res ContextRoute)
      → IsKept c namespace name rr
      → Ensures (IsSound c namespace name) (check_parent c rr r) (λ cr. r ≡ ok cr)
  unfolding check_parent
  check_parent-Ensures rr (ok cr) kept = Ensures-pure cr refl
  check_parent-Ensures rr (err not_found) kept = give_up-Ensures _ _ kept
  check_parent-Ensures rr (err (other e)) kept = Ensures-return _

  requeued-Ensures :
      {A : Type 0} {Q : A → Type 0} (o : Option ApiError)
      → Ensures (IsSound c namespace name) (requeued {A = A} o) Q
  requeued-Ensures none = Ensures-return _
  requeued-Ensures (some e) = Ensures-return _

  adopt-Ensures :
      (rr : RemoteRoute) (changed : Bool)
      → (changed ≡ true → IsAdoption c namespace name rr)
      → Ensures
          (IsSound c namespace name)
          (adopt c (rr, changed))
          (λ rr'. (changed ≡ false) × (rr' ≡ rr))
  unfolding adopt
  adopt-Ensures rr changed h =
      Ensures-if changed _ _
        (λ e. Ensures-bind _ _ (Ensures-emit _ (h e)) (λ _ _. requeued-Ensures _))
        (λ e. Ensures-pure rr (e, refl))

  not-false : (b : Bool) → not b ≡ false → b ≡ true
  not-false true h = refl
  not-false false h = cc

  check_selector-Ensures :
      (rr : RemoteRoute) (cr : ContextRoute)
      → IsKept c namespace name rr
      → Ensures (IsSound c namespace name) (check_selector c rr cr) (λ labels.
        (is_nil cr.spec.selector.match_expressions ≡ true)
        × (is_nil cr.spec.selector.match_labels ≡ false)
        × (labels ≡ cr.spec.selector.match_labels))
  unfolding check_selector
  check_selector-Ensures rr cr kept =
      Ensures-if _ _ _ (λ _. give_up-Ensures _ _ kept)
        (λ e.
          Ensures-if _ _ _ (λ _. give_up-Ensures _ _ kept)
            (λ e'. Ensures-pure _ (not-false _ e, e', refl)))

  check_upstreams-Ensures :
      (rr : RemoteRoute) (r : Result UpstreamError Resolved)
      → IsKept c namespace name rr
      → Ensures (IsSound c namespace name) (check_upstreams c rr r) (λ groups. r ≡ value groups)
  unfolding check_upstreams
  check_upstreams-Ensures rr (value r) kept = Ensures-pure r refl
  check_upstreams-Ensures rr (failure e) kept = give_up-Ensures _ _ kept

  rendered-some : (o : Option Str) (conf : Str) → rendered c o ≡ ok conf → o ≡ some conf
  rendered-some none conf h = cc
  rendered-some (some s) conf h = cc

  apply-Ensures :
      (w : Write)
      → IsSound c namespace name w
      → Ensures (IsSound c namespace name) (apply c w) (λ _. Unit {0})
  unfolding apply
  apply-Ensures w i =
      Ensures-bind _ _ (Ensures-emit w i) (λ _ _. Ensures-weaken _ (Ensures-check _) (λ _ _. tt))

  apply_all-Ensures :
      (j : IsReady c namespace name)
      → Ensures
          (IsSound c namespace name)
          (apply_all c j.rr j.cr.spec.selector.match_labels j.conf)
          (λ _. Unit {0})
  unfolding apply_all
  apply_all-Ensures j = Ensures-bind _ _ (apply-Ensures _ (j, refl)) (λ _ _.
      Ensures-bind _ _ (apply-Ensures _ (j, inl refl)) (λ _ _.
        Ensures-bind _ _ (apply-Ensures _ (j, inr refl)) (λ _ _. apply-Ensures _ (j, refl))))

  report-Ensures :
      (rr : RemoteRoute)
      → IsTold c namespace name (with_conditions rr)
      → Ensures (IsSound c namespace name) (report c rr) (λ _. Unit {0})
  unfolding report
  report-Ensures rr told =
      Ensures-bind _ _
        (Ensures-if rr.status.proxy_ready _ _ (λ _. Ensures-pure tt tt)
          (λ _. record_event-Ensures (codes "ProxyNotReady")))
        (λ _ _.
          Ensures-bind _ _
            (Ensures-if (rr.status.proxy_ready && not (any_healthy rr.status.upstreams)) _ _
              (λ _. record_event-Ensures (codes "AllUpstreamsUnhealthy")) (λ _. Ensures-pure tt tt))
            (λ _ _. apply-Ensures _ told))

  provision-Ensures :
      (found : RemoteRoute) (cr : ContextRoute) (rr : RemoteRoute)
      → c.get_remote_route namespace name ≡ ok found
      → c.get_context_route found.namespace found.spec.context_route_ref ≡ ok cr
      → ensure_rr_owner_ref (with_variant_name found) cr ≡ (rr, false)
      → IsKept c namespace name rr
      → Ensures (IsSound c namespace name) (provision c rr cr) (λ _. Unit {0})
  unfolding provision
  provision-Ensures found cr rr is_read parent_read adopted kept =
      Ensures-bind _ _ (check_selector-Ensures rr cr kept)
        (λ labels (no_expressions, has_labels, same).
          Ensures-bind _ _ (check_upstreams-Ensures rr _ kept) (λ groups resolved.
            Ensures-bind _ _ (Ensures-check_res _) (λ conf conf_read.
              let j : IsReady c namespace name = record {
                found = found;
                is_read = is_read;
                cr = cr;
                parent_read = parent_read;
                rr = rr;
                adopted = adopted;
                no_expressions = no_expressions;
                has_labels = has_labels;
                groups = groups;
                accepted = (resolve_upstreams_iff c.parse_url rr groups).0 resolved;
                conf = conf;
                conf_rendered = rendered-some _ conf conf_read;
              } in
              Ensures-bind _ _
                (subst
                  (λ l. Ensures (IsSound c namespace name) (apply_all c rr l conf) (λ _. Unit {0}))
                  (sym same) (apply_all-Ensures j))
                (λ _ _. report-Ensures _ (report-IsTold c namespace name rr kept)))))

  read-IsKept :
      (found : RemoteRoute)
      → c.get_remote_route namespace name ≡ ok found
      → IsKept c namespace name (with_variant_name found)
  read-IsKept found is_read = record {
    found = found;
    is_read = is_read;
    same_namespace = refl;
    same_name = refl;
    same_generation = refl;
    same_conditions = refl;
  }

  adopted-IsKept :
      (found : RemoteRoute) (cr : ContextRoute)
      → c.get_remote_route namespace name ≡ ok found
      → IsKept c namespace name (ensure_rr_owner_ref (with_variant_name found) cr).0
  unfolding ensure_rr_owner_ref
  adopted-IsKept found cr is_read = record {
    found = found;
    is_read = is_read;
    same_namespace = refl;
    same_name = refl;
    same_generation = refl;
    same_conditions = refl;
  }

  reconcile-Ensures :
      Ensures (IsSound c namespace name) (reconcile c namespace name) (λ _. Unit {0})
  unfolding reconcile
  reconcile-Ensures = Ensures-bind _ _ (fetched-Ensures _) (λ found is_read.
      Ensures-bind _ _ (check_parent-Ensures _ _ (read-IsKept found is_read)) (λ cr parent_read.
        let named = with_variant_name found in
        Ensures-bind _ _
          (adopt-Ensures (ensure_rr_owner_ref named cr).0 (ensure_rr_owner_ref named cr).1 (λ e.
            record {
              found = found;
              is_read = is_read;
              cr = cr;
              parent_read = parent_read;
              adopted = λ i. ((ensure_rr_owner_ref named cr).0, e i);
            }))
          (λ rr (unchanged, same).
            provision-Ensures found cr rr is_read parent_read (λ i. (sym same i, unchanged i))
              (subst (λ r. IsKept c namespace name r) (sym same)
                (adopted-IsKept found cr is_read)))))

sound-IsProvisioned :
    (c : Client) (namespace name : Str) (w : Write)
    → IsSound c namespace name w
    → IsProvisioned c namespace name w
sound-IsProvisioned c namespace name (update rr) h = h
sound-IsProvisioned c namespace name (update_status rr) h = tt
sound-IsProvisioned c namespace name (event reason) h = tt
sound-IsProvisioned c namespace name (apply_config_map cm) h = h
sound-IsProvisioned c namespace name (apply_service svc) h = h
sound-IsProvisioned c namespace name (apply_deployment dep) h = h

pub run-IsSound :
    (c : Client) (namespace name : Str) → All (IsSound c namespace name) (run c namespace name).1
unfolding run
run-IsSound c namespace name = ((reconcile-Ensures c namespace name).at [] tt).0

-- Every object that a run applies is rendered for a RemoteRoute whose answers are ready: it was read,
-- its ContextRoute was read and is its owner, the selector has `matchLabels` and nothing else, and the
-- upstreams are acceptable; the only other write to the RemoteRoute than its status adds the missing
-- owner reference.
pub run-IsProvisioned :
    (c : Client) (namespace name : Str)
    → All (IsProvisioned c namespace name) (run c namespace name).1
run-IsProvisioned c namespace name =
    All-map (run c namespace name).1 (sound-IsProvisioned c namespace name)
      (run-IsSound c namespace name)
