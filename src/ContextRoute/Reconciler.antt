-- ===== src/ContextRoute/Reconciler.antt =====
-- `ContextRouteReconciler.Reconcile`
use route_prism.Common.{
  Bool, true, false, not, Option, none, some, List, [], map, if◌then◌else◌, filter, length, Str,
  codes, str_eq, str_ltb, is_nil,
}
use route_prism.Common.Int.{int32}
use route_prism.Common.Sort.{sort_slice}
use route_prism.Kube.Meta.{Labels, Service}
use route_prism.Kube.Types.{ContextRoute}
use route_prism.Kube.Reconcile.{
  ApiError, not_found, other, Res, ok, err, ReconcileResult, done, Flow, next, stop, Act, ◌>>=◌,
  ◌>>◌, pure, return, emit, check, check_res,
}
use route_prism.Render.{render_cr_http_route}
use route_prism.ContextRoute.Client.{Write, update_status, apply, Client}
use route_prism.ContextRoute.Steps.{
  set_ready_condition, record_event, delete_owned_http_route, handle_deletion_and_finalizer,
  check_conflicts, resolve_target, has_live_et, surface_http_route_rejection,
}

-- `IsNotFound` on the ContextRoute itself ends the run with success.
unfoldable pub fetched : Res ContextRoute → Act Write ContextRoute
fetched (ok cr) = pure cr
fetched (err not_found) = return (ok done)
fetched (err (other e)) = return (err (other e))

module _ (c : Client) where
  abbrev pub with_target : ContextRoute → ContextRoute
  with_target cr = record cr { status = record cr.status { target_service = cr.target } }

  -- The selector, or the event and the error for an invalid one.
  unfoldable pub checked_selector : Option (Labels → Bool) → Act Write (Labels → Bool)
  unfolding record_event
  checked_selector (some sel) = pure sel
  checked_selector none = do
    record_event c true (codes "InvalidSelector")
    return (err (other (codes "invalid variants.selector")))

  unfoldable pub selector_of : ContextRoute → Act Write (Labels → Bool)
  unfolding checked_selector
  selector_of cr = checked_selector (c.as_selector cr.spec.selector)

  -- The variants: the selected Services but the target.
  abbrev pub variants_of : Str → List Service → List Service
  variants_of target_name services = filter (λ s. not (str_eq s.name target_name)) services

  abbrev pub failed_apply : Option ApiError → Act Write (Unit {0})
  failed_apply none = pure tt
  failed_apply (some e) = do record_event c true (codes "HTTPRouteApplyFailed"); return (err e)

  -- Step 4: apply the HTTPRoute, or drop it where an EdgeTransformation owns the routing.
  unfoldable pub apply_route : ContextRoute → Service → List Service → Bool → Act Write (Unit {0})
  unfolding delete_owned_http_route record_event
  apply_route cr target variants has_et =
      let hr = render_cr_http_route cr target variants true in
      if has_et
      then delete_owned_http_route c cr
      else (do emit (apply hr); failed_apply (c.write (apply hr)))

  -- Step 5, the status that is written.
  unfoldable pub ready_status : ContextRoute → List Service → Bool → ContextRoute
  unfolding set_ready_condition
  ready_status cr variants has_et =
      let names = sort_slice str_ltb (map (λ s. s.name) variants) in
      set_ready_condition
        (record cr {
          status = record cr.status {
            matched_variants = int32 (length names);
            variant_services = names;
          };
        })
        true (if has_et then codes "DelegatedToEdgeTransformation" else codes "Reconciled")

  -- From the resolved target on.
  unfoldable pub route : ContextRoute → Service → Act Write (Unit {0})
  unfolding selector_of apply_route ready_status record_event surface_http_route_rejection
  route cr target = do
    sel ← selector_of cr
    services ← check_res (c.list_services cr.namespace sel)
    let variants = variants_of cr.target services
    (if is_nil variants then record_event c true (codes "NoMatchingVariants") else pure tt)
    ets ← check_res (c.list_edge_transformations cr.namespace)
    let has_et = has_live_et c target.name ets
    apply_route cr target variants has_et
    let final = ready_status cr variants has_et
    emit (update_status final)
    check (c.write (update_status final))
    (if has_et then pure tt else surface_http_route_rejection c final target.name)
    record_event c false (codes "Reconciled")

  unfoldable pub reconcile : (namespace name : Str) → Act Write (Unit {0})
  unfolding fetched handle_deletion_and_finalizer check_conflicts resolve_target route
  reconcile namespace name = do
    found ← fetched (c.get_context_route namespace name)
    handle_deletion_and_finalizer c found
    cr ← check_conflicts c (with_target found)
    target ← resolve_target c cr
    route cr target

-- A run that reaches the end returns an empty result.
abbrev pub result_of : Flow (Unit {0}) → Res ReconcileResult
result_of (next _) = ok done
result_of (stop r) = r

-- The result of a run and its writes.
unfoldable pub run : Client → (namespace name : Str) → Res ReconcileResult × List Write
unfolding reconcile ◌>>=◌
run c namespace name =
    let (flow, writes) = reconcile c namespace name [] in (result_of flow, writes)
