-- ===== src/ContextRoute/Steps.antt =====
-- The steps of `ContextRouteReconciler.Reconcile`, one function for each of the source's.
use route_prism.Common.{
  Bool, true, false, not, ◌&&◌, ◌||◌, Option, none, some, List, [], ◌∷◌, ◌++◌, if◌then◌else◌, any,
  filter, Str, codes, str_eq, is_empty,
}
use route_prism.Common.Int.{pos}
use route_prism.Kube.Meta.{
  Condition, ConditionStatus, condition_true, condition_false, Service, contains_str,
  upsert_condition,
}
use route_prism.Kube.Types.{ContextRoute, EdgeTransformation}
use route_prism.Kube.Reconcile.{
  ◌>>=◌, ◌>>◌, ApiError, not_found, other, Res, ok, err, done, again, Act, pure, return, emit,
  check, check_res, finish,
}
use route_prism.Render.{http_route_name_for_cr, finalizer_cr}
use route_prism.Election.{resolve_owner, key_owner, loses_key}
use route_prism.ContextRoute.Client.{
  Write, update, update_status, delete_http_route, event, RouteParent, Client,
}

-- `gammaSupportedServiceType`
unfoldable pub gamma_supported_service_type : Service → Bool
gamma_supported_service_type svc =
    is_empty svc.service_type || str_eq svc.service_type (codes "ClusterIP")

abbrev has_text : Option Str → Bool
has_text none = false
has_text (some t) = not (is_empty t)

-- `hasAppProtocol`
unfoldable pub has_app_protocol : Service → Bool
has_app_protocol svc = any (λ p. has_text p.app_protocol) svc.ports

-- `setReadyCondition`
unfoldable pub set_ready_condition : ContextRoute → Bool → Str → ContextRoute
set_ready_condition cr ready reason = record cr {
  status = record cr.status {
    conditions =
        upsert_condition
          (record {
            type_name = codes "Ready";
            status = if ready then condition_true else condition_false;
            reason = reason;
            observed_generation = cr.meta.generation;
          })
          cr.status.conditions;
  };
}

abbrev is_false : ConditionStatus → Bool
is_false condition_false = true
is_false _ = false

-- The test of `surfaceHTTPRouteRejection`.
abbrev pub is_rejection : Condition → Bool
is_rejection cond =
    is_false cond.status
    && (str_eq cond.type_name (codes "Accepted")
        || str_eq cond.type_name (codes "ResolvedRefs")
        || str_eq cond.type_name (codes "Programmed"))

module _ (c : Client) where
  -- `r.event`
  unfoldable pub record_event : Bool → Str → Act Write (Unit {0})
  record_event warning reason =
      if c.has_recorder
      then emit (event (record { warning = warning; reason = reason }))
      else pure tt

  -- `r.Status().Update(ctx, cr)` as the last step.
  unfoldable pub finish_status : {A : Type 0} → ContextRoute → Act Write A
  finish_status cr = do emit (update_status cr); finish (c.write (update_status cr))

  abbrev pub check_delete : Option ApiError → Act Write (Unit {0})
  check_delete (some (other e)) = return (err (other e))
  check_delete _ = pure tt

  -- `deleteOwnedHTTPRoute`
  unfoldable pub delete_owned_http_route : ContextRoute → Act Write (Unit {0})
  delete_owned_http_route cr =
      let w = delete_http_route (http_route_name_for_cr cr.status.target_service) cr.namespace in
      if is_empty cr.status.target_service then pure tt else (do emit w; check_delete (c.write w))

  abbrev with_finalizers : ContextRoute → List Str → ContextRoute
  with_finalizers cr fs = record cr { meta = record cr.meta { finalizers = fs } }

  -- `handleDeletionAndFinalizer`
  unfoldable pub handle_deletion_and_finalizer : ContextRoute → Act Write (Unit {0})
  unfolding delete_owned_http_route
  handle_deletion_and_finalizer cr =
      let finalizers = cr.meta.finalizers in
      let without = with_finalizers cr (filter (λ f. not (str_eq f finalizer_cr)) finalizers) in
      let added = with_finalizers cr (finalizers ++ finalizer_cr ∷ []) in
      if cr.deleting
      then (if contains_str finalizer_cr finalizers
          then (do
            delete_owned_http_route cr
            emit (update without)
            check (c.write (update without))
            return (ok done))
          else return (ok done))
      else if not (contains_str finalizer_cr finalizers)
      then (do emit (update added); check (c.write (update added)); return (ok again))
      else pure tt

  abbrev pub with_conflict : ContextRoute → Option Str → ContextRoute
  with_conflict cr none = record cr { status = record cr.status { conflict = none } }
  with_conflict cr (some owner) = record cr {
    status = record cr.status {
      conflict = some (record { service = cr.target; owned_by = owner });
      matched_variants = pos 0;
      variant_services = [];
    };
  }

  -- `winner != nil && winner.Name != cr.Name`
  abbrev pub is_owned_by_other : ContextRoute → Option ContextRoute → Bool
  is_owned_by_other cr none = false
  is_owned_by_other cr (some winner) = not (str_eq winner.name cr.name)

  abbrev name_of : Option ContextRoute → Str
  name_of none = []
  name_of (some w) = w.name

  abbrev no_variants : ContextRoute → ContextRoute
  no_variants cr = record cr {
    status = record cr.status { matched_variants = pos 0; variant_services = [] };
  }

  -- `checkConflicts`; it goes on with the ContextRoute whose conflict is cleared.
  unfoldable pub check_conflicts : ContextRoute → Act Write ContextRoute
  unfolding record_event finish_status set_ready_condition
  check_conflicts cr = do
    list ← check_res (c.list_context_routes cr.namespace)
    let winner = resolve_owner cr.target list
    if is_owned_by_other cr winner
        then (do
          let beaten =
              set_ready_condition (with_conflict cr (some (name_of winner))) false
                (codes "Conflict")
          record_event true (codes "Conflict")
          finish_status beaten)
        else (do
          all_crs ← check_res c.list_all_context_routes
          let clear = with_conflict cr none
          if loses_key cr (key_owner cr all_crs)
              then (do
                record_event true (codes "Conflict")
                finish_status
                    (set_ready_condition (no_variants clear) false (codes "RoutingKeyConflict")))
              else pure clear)

  abbrev pub missing_target : ContextRoute → ApiError → Act Write Service
  missing_target cr not_found = do
    record_event true (codes "TargetNotFound")
    finish_status (set_ready_condition cr false (codes "TargetNotFound"))
  missing_target cr (other e) = return (err (other e))

  -- `resolveTarget` after the target Service is fetched.
  unfoldable pub check_target : ContextRoute → Res Service → Act Write Service
  unfolding record_event finish_status set_ready_condition gamma_supported_service_type
      has_app_protocol
  check_target cr (err e) = missing_target cr e
  check_target cr (ok svc) = do
    (if has_app_protocol svc then pure tt else record_event true (codes "MissingAppProtocol"))
    if gamma_supported_service_type svc then pure svc else (do
      record_event true (codes "UnsupportedTargetType")
      finish_status (set_ready_condition cr false (codes "UnsupportedTargetType")))

  unfoldable pub resolve_target : ContextRoute → Act Write Service
  unfolding check_target
  resolve_target cr = check_target cr (c.get_service cr.namespace cr.target)

  -- The loop of `hasEdgeTransformationOnTarget`.
  abbrev pub has_live_et : Str → List EdgeTransformation → Bool
  has_live_et target ets = any (λ et. not et.deleting && str_eq et.target target) ets

  unfoldable pub report_conditions : List Condition → Act Write (Unit {0})
  report_conditions [] = pure tt
  report_conditions (cond ∷ conds) = do
    (if is_rejection cond then record_event true (codes "HTTPRouteRejected") else pure tt)
    report_conditions conds

  unfoldable pub report_parents : List RouteParent → Act Write (Unit {0})
  unfolding report_conditions
  report_parents [] = pure tt
  report_parents (p ∷ ps) = do report_conditions p.conditions; report_parents ps

  unfoldable pub report_route : Res (List RouteParent) → Act Write (Unit {0})
  unfolding report_parents
  report_route (err e) = pure tt
  report_route (ok parents) = report_parents parents

  -- `surfaceHTTPRouteRejection`
  unfoldable pub surface_http_route_rejection : ContextRoute → Str → Act Write (Unit {0})
  unfolding report_route record_event
  surface_http_route_rejection cr target_name =
      report_route (c.get_http_route cr.namespace (http_route_name_for_cr target_name))
