-- ===== src/EdgeTransformation/Reconciler.antt =====
-- `EdgeTransformationReconciler.Reconcile`
pub mod Served
use route_prism.Common.{
  ℕ, Bool, true, false, not, ◌&&◌, ◌||◌, Option, none, some, List, [], ◌∷◌, ◌++◌, if◌then◌else◌,
  filter, ltb, leb, Str, codes, str_eq, is_empty,
}
use route_prism.Kube.Meta.{
  Labels, Condition, ConditionStatus, condition_true, condition_false, Service, upsert_condition,
}
use route_prism.Kube.Types.{
  ContextRoute, EdgeMode, router, envoy_lua, envoy_wasm, EdgeTransformation, effective_routing_key,
}
use route_prism.Kube.Reconcile.{
  ApiError, not_found, other, Res, ok, err, ReconcileResult, done, Flow, next, stop, Act, ◌>>=◌,
  ◌>>◌, pure, return, emit, check, check_res, finish,
}
use route_prism.Election.{find_cr_for_target}
use route_prism.Render.{http_route_name_for_et, translator_name, render_et_http_route}
use route_prism.ContextRoute.Client.{Event, RouteParent}
use route_prism.ContextRoute.Steps.{gamma_supported_service_type, has_app_protocol, is_rejection}
use route_prism.Translator.Conf.{VariantBackend, render_nginx_conf, fallback_dns_cluster_ip}
use route_prism.EdgeTransformation.Endpoints.{first_ready_endpoint}
use route_prism.EdgeTransformation.Client.{
  Write, update_status, apply_config_map, apply_service, apply_deployment, apply_http_route, event,
  Client,
}

-- `setETCondition`
unfoldable pub set_et_condition : EdgeTransformation → ConditionStatus → Str → EdgeTransformation
set_et_condition et status reason = record et {
  status = record et.status {
    conditions =
        upsert_condition
          (record {
            type_name = codes "Ready";
            status = status;
            reason = reason;
            observed_generation = et.meta.generation;
          })
          et.status.conditions;
  };
}

abbrev pub is_router : EdgeMode → Bool
is_router router = true
is_router envoy_lua = false
is_router envoy_wasm = false

unfoldable pub fetched : Res EdgeTransformation → Act Write EdgeTransformation
fetched (ok et) = pure et
fetched (err not_found) = return (ok done)
fetched (err (other e)) = return (err (other e))

module _ (c : Client) where
  -- `r.event`
  unfoldable pub record_event : Bool → Str → Act Write (Unit {0})
  record_event warning reason =
      if c.has_recorder
      then emit (event (record { warning = warning; reason = reason }))
      else pure tt

  -- `return ctrl.Result{}, r.Status().Update(ctx, &et)`
  unfoldable pub finish_status : {A : Type 0} → EdgeTransformation → Act Write A
  finish_status et = do emit (update_status et); finish (c.write (update_status et))

  -- A warning, the condition `Ready=False`, and the run ends.
  unfoldable pub give_up :
      {A : Type 0} → EdgeTransformation → (event_reason reason : Str) → Act Write A
  unfolding record_event finish_status set_et_condition
  give_up et event_reason reason = do
    record_event true event_reason
    finish_status (set_et_condition et condition_false reason)

  abbrev pub with_target : EdgeTransformation → EdgeTransformation
  with_target et = record et { status = record et.status { target_service = et.target } }

  unfoldable pub check_mode : EdgeTransformation → Act Write EdgeTransformation
  unfolding give_up
  check_mode et =
      if is_router et.spec.mode
      then pure (with_target et)
      else give_up et (codes "ModeNotImplemented") (codes "ModeNotImplemented")

  -- Step 1.
  unfoldable pub check_target : EdgeTransformation → Res Service → Act Write Service
  unfolding give_up record_event gamma_supported_service_type has_app_protocol
  check_target et (err not_found) = give_up et (codes "TargetNotFound") (codes "TargetNotFound")
  check_target et (err (other e)) = return (err (other e))
  check_target et (ok svc) = do
    (if has_app_protocol svc then pure tt else record_event true (codes "MissingAppProtocol"))
    if gamma_supported_service_type svc
        then pure svc
        else give_up et (codes "UnsupportedTargetType") (codes "UnsupportedTargetType")

  -- `lookupClusterDNSIP`; `none` for its errors.
  abbrev pub cluster_dns_ip : Res Service → Option Str
  cluster_dns_ip (err e) = none
  cluster_dns_ip (ok svc) =
      if is_empty svc.cluster_ip || str_eq svc.cluster_ip (codes "None")
      then none
      else some svc.cluster_ip

  -- Step 3. An error of the lookup leaves an empty address.
  unfoldable pub resolve_dns : Option Str → Act Write Str
  unfolding record_event
  resolve_dns none = do record_event true (codes "DNSLookupFailed"); pure []
  resolve_dns (some ip) = pure ip

  -- `firstReadyEndpoint`
  abbrev pub ready_endpoint : (namespace service : Str) → Res (Str × ℕ)
  ready_endpoint namespace service = elim (c.list_endpoint_slices namespace service) [
    | err e ↦ err e
    | ok slices ↦ ok (first_ready_endpoint slices)
  ]

  unfoldable pub check_endpoint : EdgeTransformation → Res (Str × ℕ) → Act Write (Str × ℕ)
  unfolding give_up
  check_endpoint et (err e) = give_up et (codes "TargetNotFound") (codes "NoReadyEndpoints")
  check_endpoint et (ok found) =
      if is_empty found.0
      then give_up et (codes "TargetNotFound") (codes "NoReadyEndpoints")
      else pure found

  -- A variant without a ready endpoint is skipped.
  abbrev add_variant : Str → Res (Str × ℕ) → List VariantBackend → List VariantBackend
  add_variant name (err e) rest = rest
  add_variant name (ok (ip, port)) rest =
      if is_empty ip then rest else record { cookie_value = name; pod_ip = ip; port = port } ∷ rest

  unfoldable pub variant_backends : Str → List Service → List VariantBackend
  variant_backends target_name [] = []
  variant_backends target_name (s ∷ ss) =
      let rest = variant_backends target_name ss in
      if str_eq s.name target_name
      then rest
      else add_variant s.name (ready_endpoint s.namespace s.name) rest

  abbrev pub listed_services : ContextRoute → Option (Labels → Bool) → Res (List Service)
  listed_services cr none = err (other (codes "invalid variants.selector"))
  listed_services cr (some sel) = c.list_services cr.namespace sel

  -- `collectVariantBackends`
  unfoldable pub collect_variant_backends : ContextRoute → Str → Res (List VariantBackend)
  unfolding variant_backends
  collect_variant_backends cr target_name =
      elim (listed_services cr (c.as_selector cr.spec.selector)) [
        | err e ↦ err e
        | ok services ↦ ok (variant_backends target_name services)
      ]

  -- The variants and the routing key; without a ContextRoute there are no variants.
  abbrev pub key_and_variants :
      EdgeTransformation → Service → Option ContextRoute → Res (Str × List VariantBackend)
  key_and_variants et target none = ok (et.namespace ++ b'.' ∷ target.name, [])
  key_and_variants et target (some cr) = elim (collect_variant_backends cr target.name) [
    | err e ↦ err e
    | ok vs ↦ ok (effective_routing_key cr, vs)
  ]

  abbrev pub rendered : Option Str → Res Str
  rendered none = err (other (codes "render nginx smart"))
  rendered (some conf) = ok conf

  -- A write whose error ends the run.
  unfoldable pub apply : Write → Act Write (Unit {0})
  apply w = do emit w; check (c.write w)

  abbrev pub failed_route : Option ApiError → Act Write (Unit {0})
  failed_route none = pure tt
  failed_route (some e) = do record_event true (codes "HTTPRouteApplyFailed"); return (err e)

  -- Steps 5 and 6.
  unfoldable pub apply_all : EdgeTransformation → Service → Str → Act Write (Unit {0})
  unfolding apply record_event
  apply_all et target conf =
      let hr = apply_http_route (render_et_http_route et target) in
      do
        apply (apply_config_map et conf)
        apply (apply_service et)
        apply (apply_deployment et conf)
        emit hr
        failed_route (c.write hr)

  abbrev pub is_available : Res ℕ → Bool
  is_available (err e) = false
  is_available (ok n) = leb 1 n

  -- Step 7, the status that is written.
  unfoldable pub ready_status : EdgeTransformation → Bool → EdgeTransformation
  unfolding set_et_condition
  ready_status et ready =
      let et' = record et { status = record et.status { translator_ready = ready } } in
      if ready
      then set_et_condition et' condition_true (codes "Reconciled")
      else set_et_condition et' condition_false (codes "TranslatorNotReady")

  unfoldable pub report_conditions : List Condition → Act Write (Unit {0})
  unfolding record_event
  report_conditions [] = pure tt
  report_conditions (cond ∷ conds) = do
    (if is_rejection cond then record_event true (codes "HTTPRouteRejected") else pure tt)
    report_conditions conds

  unfoldable pub report_route : Res (List RouteParent) → Act Write (Unit {0})
  unfolding report_conditions
  report_route (err e) = pure tt
  report_route (ok []) = pure tt
  report_route (ok (p ∷ ps)) = do report_conditions p.conditions; report_route (ok ps)

  -- From the applied objects on.
  unfoldable pub report : EdgeTransformation → Service → Act Write (Unit {0})
  unfolding ready_status record_event report_route apply
  report et target = do
    let ready = is_available (c.get_deployment et.namespace (translator_name et.name))
    let final = ready_status et ready
    (if ready
        then record_event false (codes "Reconciled")
        else record_event true (codes "TranslatorNotReady"))
    apply (update_status final)
    report_route (c.get_http_route et.namespace (http_route_name_for_et target.name))

  -- From the checked mode on.
  unfoldable pub serve : EdgeTransformation → Act Write (Unit {0})
  unfolding check_target resolve_dns check_endpoint apply_all report
  serve et = do
    target ← check_target et (c.get_service et.namespace et.target)
    crs ← check_res (c.list_context_routes et.namespace)
    dns_ip ← resolve_dns (cluster_dns_ip (c.get_service (codes "kube-system") (codes "kube-dns")))
    default ← check_endpoint et (ready_endpoint et.namespace target.name)
    smart ← check_res (key_and_variants et target (find_cr_for_target et.target crs))
    conf ←
        check_res
          (rendered (render_nginx_conf c.renderer et smart.0 dns_ip default.0 default.1 smart.1))
    apply_all et target conf
    report et target

  unfoldable pub reconcile : (namespace name : Str) → Act Write (Unit {0})
  unfolding fetched check_mode serve
  reconcile namespace name = do
    found ← fetched (c.get_edge_transformation namespace name)
    et ← check_mode found
    serve et

abbrev pub result_of : Flow (Unit {0}) → Res ReconcileResult
result_of (next _) = ok done
result_of (stop r) = r

-- The result of a run and its writes.
unfoldable pub run : Client → (namespace name : Str) → Res ReconcileResult × List Write
unfolding reconcile ◌>>=◌
run c namespace name =
    let (flow, writes) = reconcile c namespace name [] in (result_of flow, writes)
