-- ===== src/RemoteRoute/Reconciler/Success.antt =====
-- A run of the reconciler that meets no obstacle.
use route_prism.Common.{
  ◌≡◌, refl, ap, Bool, true, false, not, ◌&&◌, none, List, [], ◌∷◌, ◌++◌, if◌then◌else◌, is_nil,
  Str, codes,
}
use route_prism.Common.Results.{Result, value}
use route_prism.Kube.Types.{ContextRoute, RemoteRoute}
use route_prism.Kube.Reconcile.{Res, ok, pure}
use route_prism.Kube.Goes.{
  Goes, Goes-bind, Goes-pure, Goes-check_res, Goes-else, Goes-emit, Goes-check,
}
use route_prism.RemoteRoute.Client.{
  Write, update_status, apply_config_map, apply_service, apply_deployment, Client,
}
use route_prism.RemoteRoute.Upstreams.{UpstreamError, Resolved}
use route_prism.RemoteRoute.Upstreams.Accepted.{resolve_upstreams_iff}
use route_prism.RemoteRoute.Proxy.{
  render_remote_config_map, render_remote_service, render_remote_admin_service,
  render_remote_deployment,
}
use route_prism.RemoteRoute.Reconciler.{
  fetched, any_healthy, with_conditions, record_event, check_parent, adopt, check_selector,
  check_upstreams, rendered, apply, apply_all, observed, report, provision, reconcile, run,
}
use route_prism.RemoteRoute.Reconciler.Ready.{IsReady}

-- The four objects of the proxy, in the order in which they are applied.
abbrev pub applied : (c : Client) (namespace name : Str) → IsReady c namespace name → List Write
applied c namespace name j =
    apply_config_map (render_remote_config_map j.rr j.conf)
    ∷ apply_service (render_remote_service j.rr j.cr.spec.selector.match_labels)
    ∷ apply_service (render_remote_admin_service j.rr)
    ∷ apply_deployment (render_remote_deployment c.checksum j.rr j.conf)
    ∷ []

module _ (c : Client) (quiet : c.has_recorder ≡ false)
    (accepts : (w : Write) → c.write w ≡ none) where
  Goes-event : (reason : Str) → Goes (record_event c reason) tt []
  unfolding record_event
  Goes-event reason = Goes-else c.has_recorder _ _ quiet (Goes-pure tt)

  Goes-apply : (w : Write) → Goes (apply c w) tt (w ∷ [])
  unfolding apply
  Goes-apply w = Goes-bind _ _ (Goes-emit w) (Goes-check (c.write w) (accepts w))

  quiet_if : (b : Bool) (reason : Str) → Goes (if b then record_event c reason else pure tt) tt []
  quiet_if true reason = Goes-event reason
  quiet_if false reason = Goes-pure tt

  quiet_unless :
      (b : Bool) (reason : Str) → Goes (if b then pure tt else record_event c reason) tt []
  quiet_unless true reason = Goes-pure tt
  quiet_unless false reason = Goes-event reason

  Goes-fetched : (r : Res RemoteRoute) (rr : RemoteRoute) → r ≡ ok rr → Goes (fetched r) rr []
  unfolding fetched
  Goes-fetched r rr e = rw e (Goes-pure rr)

  Goes-parent :
      (rr : RemoteRoute) (r : Res ContextRoute) (cr : ContextRoute)
      → r ≡ ok cr
      → Goes (check_parent c rr r) cr []
  unfolding check_parent
  Goes-parent rr r cr e = rw e (Goes-pure cr)

  Goes-adopt :
      (p : RemoteRoute × Bool) (rr : RemoteRoute) → p ≡ (rr, false) → Goes (adopt c p) rr []
  unfolding adopt
  Goes-adopt p rr e = rw e (Goes-pure rr)

  Goes-upstreams :
      (rr : RemoteRoute) (r : Result UpstreamError Resolved) (groups : Resolved)
      → r ≡ value groups
      → Goes (check_upstreams c rr r) groups []
  unfolding check_upstreams
  Goes-upstreams rr r groups e = rw e (Goes-pure groups)

  Goes-report : (rr : RemoteRoute) → Goes (report c rr) tt (update_status (with_conditions rr) ∷ [])
  unfolding report
  Goes-report rr = Goes-bind _ _ (quiet_unless rr.status.proxy_ready (codes "ProxyNotReady")) (
      Goes-bind _ _
        (quiet_if (rr.status.proxy_ready && not (any_healthy rr.status.upstreams))
          (codes "AllUpstreamsUnhealthy"))
        (Goes-apply _))

  module _ (namespace name : Str) (j : IsReady c namespace name) where
    Goes-selector : Goes (check_selector c j.rr j.cr) j.cr.spec.selector.match_labels []
    unfolding check_selector
    Goes-selector =
        Goes-else (not (is_nil j.cr.spec.selector.match_expressions)) _ _ (ap not j.no_expressions)
          (Goes-else (is_nil j.cr.spec.selector.match_labels) _ _ j.has_labels (Goes-pure _))

    Goes-applied :
        Goes
          (apply_all c j.rr j.cr.spec.selector.match_labels j.conf)
          tt
          (applied c namespace name j)
    unfolding apply_all
    Goes-applied =
        Goes-bind _ _ (Goes-apply _)
          (Goes-bind _ _ (Goes-apply _) (Goes-bind _ _ (Goes-apply _) (Goes-apply _)))

    Goes-provision :
        Goes
          (provision c j.rr j.cr)
          tt
          (applied c namespace name j ++ update_status (with_conditions (observed c j.rr)) ∷ [])
    unfolding provision
    Goes-provision = Goes-bind _ _ Goes-selector (
        Goes-bind _ _
          (Goes-upstreams j.rr _ j.groups
            ((resolve_upstreams_iff c.parse_url j.rr j.groups).1 j.accepted))
          (Goes-bind _ _ (Goes-check_res _ j.conf (ap (rendered c) j.conf_rendered))
            (Goes-bind _ _ Goes-applied (Goes-report _))))

    Goes-reconcile :
        Goes
          (reconcile c namespace name)
          tt
          (applied c namespace name j ++ update_status (with_conditions (observed c j.rr)) ∷ [])
    unfolding reconcile
    Goes-reconcile = Goes-bind _ _ (Goes-fetched _ j.found j.is_read) (
        Goes-bind _ _ (Goes-parent _ _ j.cr j.parent_read)
          (Goes-bind _ _ (Goes-adopt _ j.rr j.adopted) Goes-provision))

-- Where the answers are ready, all writes are accepted, and no events are recorded, a run applies the
-- ConfigMap, the two Services and the Deployment of the proxy, writes the status, and asks to come
-- back after 15 seconds.
pub run-ready :
    (c : Client) (namespace name : Str)
    → c.has_recorder ≡ false
    → ((w : Write) → c.write w ≡ none)
    → (j : IsReady c namespace name)
    → run c namespace name ≡ (
      ok (record { requeue = false; after = 15 }),
      applied c namespace name j ++ update_status (with_conditions (observed c j.rr)) ∷ [],
    )
unfolding run
run-ready c namespace name quiet accepts j =
    rw ((Goes-reconcile c quiet accepts namespace name j).at []) refl
