-- ===== src/RemoteRoute/Reconciler.antt =====
-- `RemoteRouteReconciler.Reconcile` (modules/operator/internal/controller/remoteroute_controller.go)
pub mod Ready
pub mod Provisioned
pub mod Success
pub mod Settled
pub mod Conditions
pub mod Told
use route_prism.Common.{
  ℕ, Bool, false, not, ◌&&◌, Option, none, some, List, [], ◌∷◌, ◌++◌, any, if◌then◌else◌, leb,
  contains, is_nil, Str, codes,
}
use route_prism.Common.Results.{Result, value, failure}
use route_prism.Kube.Meta.{
  Labels, ConditionStatus, condition_true, condition_false, upsert_condition,
}
use route_prism.Kube.Types.{
  ContextRoute, RemoteLbMode, round_robin, random, RemoteUpstreamStatus, RemoteRoute,
}
use route_prism.Kube.Reconcile.{
  ApiError, not_found, other, Res, ok, err, ReconcileResult, done, again, Flow, next, stop, Act,
  ◌>>=◌, ◌>>◌, pure, return, emit, check, check_res, finish,
}
use route_prism.RemoteRoute.Client.{
  Write, update, update_status, apply_config_map, apply_service, apply_deployment, event, Texts,
  Client,
}
use route_prism.RemoteRoute.Owner.{ensure_rr_owner_ref}
use route_prism.RemoteRoute.Health.{initial_upstream_status, refresh_upstream_health}
use route_prism.RemoteRoute.Upstreams.{UpstreamError, Resolved, resolve_upstreams}
use route_prism.RemoteRoute.Proxy.{
  remote_proxy_name, render_envoy_config, render_remote_config_map, render_remote_service,
  render_remote_admin_service, render_remote_deployment,
}

-- `setRRCondition`
unfoldable pub set_rr_condition : RemoteRoute → Str → ConditionStatus → Str → RemoteRoute
set_rr_condition rr type_name status reason = record rr {
  status = record rr.status {
    conditions =
        upsert_condition
          (record {
            type_name = type_name;
            status = status;
            reason = reason;
            observed_generation = rr.meta.generation;
          })
          rr.status.conditions;
  };
}

abbrev mode_text : RemoteLbMode → Str
mode_text round_robin = codes "RoundRobin"
mode_text random = codes "Random"

-- `strings.Join(seen, ",")`; Go may list the modes in another order.
abbrev joined : List RemoteLbMode → Str
joined [] = []
joined (m ∷ []) = mode_text m
joined (m ∷ n ∷ ms) = mode_text m ++ b',' ∷ joined (n ∷ ms)

-- The messages of the errors of `resolveUpstreams`.
unfoldable pub error_text : Texts → UpstreamError → Str
error_text t (UpstreamError.parse_failed raw message) =
    codes "parse url " ++ t.quote raw ++ codes ": " ++ message
error_text t (UpstreamError.unsupported_scheme scheme raw) =
    codes "unsupported scheme " ++ t.quote scheme ++ codes " on " ++ t.quote raw
error_text t (UpstreamError.mixed_schemes first second) =
    codes "mixed schemes ("
    ++ first
    ++ codes " and "
    ++ second
    ++ codes ") are not allowed in one RemoteRoute"
error_text t (UpstreamError.empty_host raw) = codes "url " ++ t.quote raw ++ codes " has empty host"
error_text t (UpstreamError.invalid_port port) = codes "invalid port in " ++ t.port_text port
error_text t (UpstreamError.no_default_port scheme) =
    codes "no default port for scheme " ++ t.quote scheme
error_text t (UpstreamError.no_url_or_group name) =
    codes "upstream " ++ t.quote name ++ codes " has neither url nor group"
error_text t UpstreamError.no_urls = codes "no upstream URLs resolved"
error_text t (UpstreamError.incompatible_modes modes) =
    codes "incompatible group modes ("
    ++ joined modes
    ++ codes "); all groups must declare the same mode"

-- The reason that the reconciler takes from the message of the error.
unfoldable pub failure_reason : Str → Str
failure_reason message =
    if contains message (codes "mixed schemes")
    then codes "MixedScheme"
    else if contains message (codes "incompatible group modes")
    then codes "IncompatibleLBModes"
    else codes "InvalidUpstream"

unfoldable pub fetched : Res RemoteRoute → Act Write RemoteRoute
fetched (ok rr) = pure rr
fetched (err not_found) = return (ok done)
fetched (err (other e)) = return (err (other e))

abbrev pub with_variant_name : RemoteRoute → RemoteRoute
with_variant_name rr = record rr { status = record rr.status { variant_name = rr.name } }

abbrev pub requeued : {A : Type 0} → Option ApiError → Act Write A
requeued none = return (ok again)
requeued (some e) = return (err e)

abbrev pub is_available : Res ℕ → Bool
is_available (err e) = false
is_available (ok n) = leb 1 n

abbrev pub any_healthy : List RemoteUpstreamStatus → Bool
any_healthy ss = any (λ s. s.healthy) ss

-- The conditions of step 7.
unfoldable pub with_conditions : RemoteRoute → RemoteRoute
unfolding set_rr_condition
with_conditions rr =
    if not rr.status.proxy_ready
    then set_rr_condition rr (codes "Ready") condition_false (codes "ProxyNotReady")
    else let ready = set_rr_condition rr (codes "Ready") condition_true (codes "Reconciled") in
      if not (any_healthy rr.status.upstreams)
      then set_rr_condition ready (codes "UpstreamReachable") condition_false
          (codes "AllUpstreamsUnhealthy")
      else set_rr_condition ready (codes "UpstreamReachable") condition_true (codes "Reachable")

module _ (c : Client) where
  -- `r.event`
  unfoldable pub record_event : Str → Act Write (Unit {0})
  record_event reason = if c.has_recorder then emit (event reason) else pure tt

  -- `return ctrl.Result{}, r.Status().Update(ctx, &rr)`
  unfoldable pub finish_status : {A : Type 0} → RemoteRoute → Act Write A
  finish_status rr = do emit (update_status rr); finish (c.write (update_status rr))

  -- A warning, the condition `Ready=False`, and the run ends.
  unfoldable pub give_up : {A : Type 0} → RemoteRoute → Str → Act Write A
  unfolding record_event finish_status set_rr_condition
  give_up rr reason = do
    record_event reason
    finish_status (set_rr_condition rr (codes "Ready") condition_false reason)

  -- Step 1.
  unfoldable pub check_parent : RemoteRoute → Res ContextRoute → Act Write ContextRoute
  unfolding give_up
  check_parent rr (ok cr) = pure cr
  check_parent rr (err not_found) = give_up rr (codes "ContextRouteNotFound")
  check_parent rr (err (other e)) = return (err (other e))

  unfoldable pub adopt : RemoteRoute × Bool → Act Write RemoteRoute
  adopt (rr, changed) =
      if changed then (do emit (update rr); requeued (c.write (update rr))) else pure rr

  -- Step 2.
  unfoldable pub check_selector : RemoteRoute → ContextRoute → Act Write Labels
  unfolding give_up
  check_selector rr cr =
      if not (is_nil cr.spec.selector.match_expressions)
      then give_up rr (codes "UnsupportedSelector")
      else if is_nil cr.spec.selector.match_labels
      then give_up rr (codes "UnsupportedSelector")
      else pure cr.spec.selector.match_labels

  -- Step 3.
  unfoldable pub check_upstreams : RemoteRoute → Result UpstreamError Resolved → Act Write Resolved
  unfolding give_up error_text failure_reason
  check_upstreams rr (value r) = pure r
  check_upstreams rr (failure e) = give_up rr (failure_reason (error_text c.texts e))

  abbrev pub rendered : Option Str → Res Str
  rendered none = err (other (codes "render envoy.yaml"))
  rendered (some conf) = ok conf

  -- `r.apply` and the return on its error.
  unfoldable pub apply : Write → Act Write (Unit {0})
  apply w = do emit w; check (c.write w)

  -- Step 4.
  unfoldable pub apply_all : RemoteRoute → Labels → Str → Act Write (Unit {0})
  unfolding apply
  apply_all rr variant_labels conf = do
    apply (apply_config_map (render_remote_config_map rr conf))
    apply (apply_service (render_remote_service rr variant_labels))
    apply (apply_service (render_remote_admin_service rr))
    apply (apply_deployment (render_remote_deployment c.checksum rr conf))

  -- Steps 5 and 6.
  unfoldable pub observed : RemoteRoute → RemoteRoute
  unfolding refresh_upstream_health initial_upstream_status
  observed rr =
      let ready = is_available (c.get_deployment rr.namespace (remote_proxy_name rr.name)) in
      let rr' = record rr { status = record rr.status { proxy_ready = ready } } in
      if ready then refresh_upstream_health rr' (c.fetch_cluster_dump rr') else record rr' {
        status = record rr'.status {
          upstreams = initial_upstream_status rr.spec.upstreams;
          active_upstream = [];
        };
      }

  -- Step 7 and the last write.
  unfoldable pub report : RemoteRoute → Act Write (Unit {0})
  unfolding record_event with_conditions apply
  report rr = do
    (if rr.status.proxy_ready then pure tt else record_event (codes "ProxyNotReady"))
    (if rr.status.proxy_ready && not (any_healthy rr.status.upstreams)
        then record_event (codes "AllUpstreamsUnhealthy")
        else pure tt)
    apply (update_status (with_conditions rr))

  -- From the adopted RemoteRoute on.
  unfoldable pub provision : RemoteRoute → ContextRoute → Act Write (Unit {0})
  unfolding check_selector check_upstreams apply_all report observed
  provision rr cr = do
    variant_labels ← check_selector rr cr
    groups ← check_upstreams rr (resolve_upstreams c.parse_url rr)
    conf ← check_res (rendered (render_envoy_config c.execute rr groups))
    apply_all rr variant_labels conf
    report (observed rr)

  unfoldable pub reconcile : (namespace name : Str) → Act Write (Unit {0})
  unfolding fetched check_parent adopt provision
  reconcile namespace name = do
    found ← fetched (c.get_remote_route namespace name)
    let named = with_variant_name found
    cr ← check_parent named (c.get_context_route named.namespace named.spec.context_route_ref)
    rr ← adopt (ensure_rr_owner_ref named cr)
    provision rr cr

-- A run that reaches the end comes back after `rrAdminPollInterval`, 15 seconds.
abbrev pub result_of : Flow (Unit {0}) → Res ReconcileResult
result_of (next _) = ok (record { requeue = false; after = 15 })
result_of (stop r) = r

-- The result of a run and its writes.
unfoldable pub run : Client → (namespace name : Str) → Res ReconcileResult × List Write
unfolding reconcile ◌>>=◌
run c namespace name =
    let (flow, writes) = reconcile c namespace name [] in (result_of flow, writes)
