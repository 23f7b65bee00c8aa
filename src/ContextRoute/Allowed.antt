-- ===== src/ContextRoute/Allowed.antt =====
-- The writes of the ContextRoute reconciler's steps, and what a step finds out.
use route_prism.Common.{
  ◌≡◌, refl, Bool, true, false, not, none, some, List, [], ◌∷◌, Str, Option, is_empty, arith, ◌⊎◌,
  inl, inr, filter, str_eq, ◌++◌,
}
use route_prism.Kube.Meta.{Labels, Condition, Service, contains_str}
use route_prism.Kube.Types.{ContextRoute, EdgeTransformation}
use route_prism.Kube.Reconcile.{
  ◌>>◌, emit, check, return, ReconcileResult, Res, ok, err, not_found, other, ApiError,
}
use route_prism.Kube.Ensures.{
  Ensures, Ensures-pure, Ensures-return, Ensures-finish, Ensures-if, Ensures-emit, Ensures-check,
  Ensures-check_res, Ensures-bind, Ensures-weaken,
}
use route_prism.Render.{http_route_name_for_cr, HttpRoute, finalizer_cr, render_cr_http_route}
use route_prism.Election.{resolve_owner, key_owner, loses_key}
use route_prism.ContextRoute.Client.{
  Write, update, update_status, apply, delete_http_route, event, RouteParent, Client,
}
use route_prism.ContextRoute.Steps.{
  gamma_supported_service_type, is_owned_by_other, has_app_protocol, is_rejection,
  report_conditions, report_parents, report_route, has_live_et, record_event, finish_status,
  check_delete, with_conflict, delete_owned_http_route, handle_deletion_and_finalizer,
  check_conflicts, check_target, surface_http_route_rejection,
}
use route_prism.ContextRoute.Reconciler.{fetched, checked_selector, selector_of, variants_of}

-- The client's answers that justify applying the route `hr` in a run for `namespace` and `name`.
pub record IsJustified (c : Client) (namespace name : Str) (hr : HttpRoute) : Type 0 where
  pub cr : ContextRoute
  pub is_read : c.get_context_route namespace name ≡ ok cr
  pub alive : cr.deleting ≡ false
  pub held : contains_str finalizer_cr cr.meta.finalizers ≡ true
  pub peers : List ContextRoute
  pub peers_read : c.list_context_routes cr.namespace ≡ ok peers
  pub owned : is_owned_by_other c cr (resolve_owner cr.target peers) ≡ false
  pub all_crs : List ContextRoute
  pub all_crs_read : c.list_all_context_routes ≡ ok all_crs
  pub keeps_key : loses_key cr (key_owner cr all_crs) ≡ false
  pub target : Service
  pub target_read : c.get_service cr.namespace cr.target ≡ ok target
  pub supported : gamma_supported_service_type target ≡ true
  pub selector : Labels → Bool
  pub services : List Service
  pub services_read : c.list_services cr.namespace selector ≡ ok services
  pub selector_read : c.as_selector cr.spec.selector ≡ some selector
  pub ets : List EdgeTransformation
  pub ets_read : c.list_edge_transformations cr.namespace ≡ ok ets
  pub undelegated : has_live_et c target.name ets ≡ false
  pub rendered : hr ≡ render_cr_http_route cr target (variants_of c cr.target services) true

-- The route is gone: the deletion was accepted, or there was no such route.
abbrev pub is_gone : Option ApiError → Bool
is_gone none = true
is_gone (some not_found) = true
is_gone (some (other e)) = false

-- The deleted HTTPRoute has the namespace of the ContextRoute that was read, and the name that stands
-- for a target: for the target in its status if it is being deleted, and else for its target. All
-- ContextRoutes on one target share that name.
pub record IsTargetRoute (c : Client) (namespace name : Str) (route_name route_namespace : Str)
    : Type 0 where
  pub cr : ContextRoute
  pub is_read : c.get_context_route namespace name ≡ ok cr
  pub in_namespace : route_namespace ≡ cr.namespace
  pub which :
      ((cr.deleting ≡ true) × (route_name ≡ http_route_name_for_cr cr.status.target_service))
      ⊎ ((cr.deleting ≡ false) × (route_name ≡ http_route_name_for_cr cr.target))

-- The update takes the finalizer from a ContextRoute that is being deleted, and whose status names no
-- target or one whose HTTPRoute is gone, or gives it to one that is not being deleted.
pub record IsFinalizerStep (c : Client) (namespace name : Str) (updated : ContextRoute)
    : Type 0 where
  pub cr : ContextRoute
  pub is_read : c.get_context_route namespace name ≡ ok cr
  pub which :
      ((cr.deleting ≡ true)
        × (updated.meta.finalizers ≡ filter (λ f. not (str_eq f finalizer_cr)) cr.meta.finalizers)
        × ((is_empty cr.status.target_service ≡ true)
            ⊎ (is_gone (
                  c.write (
                    delete_http_route
                      (http_route_name_for_cr cr.status.target_service)
                      cr.namespace))
                ≡ true)))
      ⊎ ((cr.deleting ≡ false)
          × (updated.meta.finalizers ≡ cr.meta.finalizers ++ finalizer_cr ∷ []))

-- What allows a write: an HTTPRoute is applied if it is justified and deleted if it is named for the
-- ContextRoute's target, and an update is a step of the finalizer.
abbrev pub IsAllowed : Client → Str → Str → Write → Type 0
IsAllowed c namespace name (apply hr) = IsJustified c namespace name hr
IsAllowed c namespace name (update cr) = IsFinalizerStep c namespace name cr
IsAllowed c namespace name (update_status cr) = Unit
IsAllowed c namespace name (delete_http_route n ns) = IsTargetRoute c namespace name n ns
IsAllowed c namespace name (event e) = Unit

module _ (c : Client) (namespace name : Str) where
  abbrev pub I : Write → Type 0
  I = IsAllowed c namespace name

  pub record_event-Ensures :
      (warning : Bool) (reason : Str) → Ensures I (record_event c warning reason) (λ _. Unit {0})
  unfolding record_event
  record_event-Ensures warning reason =
      Ensures-if c.has_recorder _ _ (λ _. Ensures-emit _ tt) (λ _. Ensures-pure tt tt)

  pub finish_status-Ensures :
      {A : Type 0} {Q : A → Type 0} (cr : ContextRoute) → Ensures I (finish_status c {A = A} cr) Q
  unfolding finish_status
  finish_status-Ensures cr = Ensures-bind _ _ (Ensures-emit _ tt) (λ _ _. Ensures-finish _)

  pub check_delete-Ensures :
      (o : Option ApiError) → Ensures I (check_delete c o) (λ _. is_gone o ≡ true)
  check_delete-Ensures none = Ensures-pure tt refl
  check_delete-Ensures (some not_found) = Ensures-pure tt refl
  check_delete-Ensures (some (other e)) = Ensures-return _

  abbrev pub own_delete : ContextRoute → Write
  own_delete cr = delete_http_route (http_route_name_for_cr cr.status.target_service) cr.namespace

  pub delete_owned-Ensures :
      (cr : ContextRoute)
      → I (own_delete cr)
      → Ensures I (delete_owned_http_route c cr) (λ _.
        (is_empty cr.status.target_service ≡ true) ⊎ (is_gone (c.write (own_delete cr)) ≡ true))
  unfolding delete_owned_http_route
  delete_owned-Ensures cr own =
      Ensures-if (is_empty cr.status.target_service) _ _ (λ e. Ensures-pure tt (inl e))
        (λ _.
          Ensures-bind _ _ (Ensures-emit _ own)
            (λ _ _. Ensures-weaken _ (check_delete-Ensures _) (λ _ gone. inr gone)))

  pub fetched-Ensures : (r : Res ContextRoute) → Ensures I (fetched r) (λ cr. r ≡ ok cr)
  unfolding fetched
  fetched-Ensures (ok cr) = Ensures-pure cr refl
  fetched-Ensures (err not_found) = Ensures-return _
  fetched-Ensures (err (other e)) = Ensures-return _

  -- A write that is checked, and then the run ends.
  pub update_then-Ensures :
      {Q : Unit {0} → Type 0} (cr : ContextRoute) (r : Res ReconcileResult)
      → I (update cr)
      → Ensures I (do emit (update cr); check (c.write (update cr)); return r) Q
  update_then-Ensures cr r i =
      Ensures-bind _ _ (Ensures-emit _ i)
        (λ _ _. Ensures-bind _ _ (Ensures-check _) (λ _ _. Ensures-return r))

  pub handle_deletion-Ensures :
      (cr : ContextRoute)
      → c.get_context_route namespace name ≡ ok cr
      → Ensures I
          (handle_deletion_and_finalizer c cr)
          (λ _. (cr.deleting ≡ false) × (contains_str finalizer_cr cr.meta.finalizers ≡ true))
  unfolding handle_deletion_and_finalizer
  handle_deletion-Ensures cr read =
      Ensures-if cr.deleting _ _
        (λ deleting.
          Ensures-if (contains_str finalizer_cr cr.meta.finalizers) _ _
            (λ _.
              Ensures-bind _ _
                (delete_owned-Ensures cr (record {
                  cr = cr;
                  is_read = read;
                  in_namespace = refl;
                  which = inl (deleting, refl);
                }))
                (λ _ gone.
                  update_then-Ensures _ _
                    (record { cr = cr; is_read = read; which = inl (deleting, refl, gone) })))
            (λ _. Ensures-return _))
        (λ alive.
          Ensures-if (not (contains_str finalizer_cr cr.meta.finalizers)) _ _
            (λ _.
              update_then-Ensures _ _
                (record { cr = cr; is_read = read; which = inr (alive, refl) }))
            (λ held. Ensures-pure tt (alive, ground arith)))

  -- What holds of the ContextRoute with which `check_conflicts` goes on.
  pub record Clear (cr clear : ContextRoute) : Type 0 where
    pub peers : List ContextRoute
    pub peers_read : c.list_context_routes cr.namespace ≡ ok peers
    pub owned : is_owned_by_other c cr (resolve_owner cr.target peers) ≡ false
    pub all_crs : List ContextRoute
    pub all_crs_read : c.list_all_context_routes ≡ ok all_crs
    pub keeps_key : loses_key cr (key_owner cr all_crs) ≡ false
    pub is_clear : clear ≡ with_conflict c cr none

  -- A warning, the status, and the run ends.
  pub beaten-Ensures :
      {A : Type 0} {Q : A → Type 0} (reason : Str) (cr : ContextRoute)
      → Ensures I (do record_event c true reason; finish_status c {A = A} cr) Q
  beaten-Ensures reason cr =
      Ensures-bind _ _ (record_event-Ensures true reason) (λ _ _. finish_status-Ensures cr)

  pub check_conflicts-Ensures : (cr : ContextRoute) → Ensures I (check_conflicts c cr) (Clear cr)
  unfolding check_conflicts
  check_conflicts-Ensures cr = Ensures-bind _ _ (Ensures-check_res _) (λ list read.
      Ensures-if (is_owned_by_other c cr (resolve_owner cr.target list)) _ _
        (λ _. beaten-Ensures _ _)
        (λ owned. Ensures-bind _ _ (Ensures-check_res _) (λ all_crs all_read.
          Ensures-if (loses_key cr (key_owner cr all_crs)) _ _ (λ _. beaten-Ensures _ _)
            (λ keeps. Ensures-pure _ (record {
              peers = list;
              peers_read = read;
              owned = owned;
              all_crs = all_crs;
              all_crs_read = all_read;
              keeps_key = keeps;
              is_clear = refl;
            })))))

  pub check_target-Ensures :
      (cr : ContextRoute) (r : Res Service)
      → Ensures I
          (check_target c cr r)
          (λ svc. (r ≡ ok svc) × (gamma_supported_service_type svc ≡ true))
  unfolding check_target
  check_target-Ensures cr (err not_found) = beaten-Ensures _ _
  check_target-Ensures cr (err (other e)) = Ensures-return _
  check_target-Ensures cr (ok svc) =
      Ensures-bind _ _
        (Ensures-if (has_app_protocol svc) _ _ (λ _. Ensures-pure tt tt)
          (λ _. record_event-Ensures _ _))
        (λ _ _.
          Ensures-if (gamma_supported_service_type svc) _ _
            (λ supported. Ensures-pure svc (refl, supported)) (λ _. beaten-Ensures _ _))

  pub checked_selector-Ensures :
      (o : Option (Labels → Bool)) → Ensures I (checked_selector c o) (λ sel. o ≡ some sel)
  unfolding checked_selector
  checked_selector-Ensures (some sel) = Ensures-pure sel refl
  checked_selector-Ensures none =
      Ensures-bind _ _ (record_event-Ensures _ _) (λ _ _. Ensures-return _)

  pub selector_of-Ensures :
      (cr : ContextRoute)
      → Ensures I (selector_of c cr) (λ sel. c.as_selector cr.spec.selector ≡ some sel)
  unfolding selector_of
  selector_of-Ensures cr = checked_selector-Ensures _

  pub report_conditions-Ensures :
      (conds : List Condition) → Ensures I (report_conditions c conds) (λ _. Unit {0})
  unfolding report_conditions
  report_conditions-Ensures [] = Ensures-pure tt tt
  report_conditions-Ensures (cond ∷ conds) =
      Ensures-bind _ _
        (Ensures-if (is_rejection cond) _ _ (λ _. record_event-Ensures _ _)
          (λ _. Ensures-pure tt tt))
        (λ _ _. report_conditions-Ensures conds)

  pub report_parents-Ensures :
      (ps : List RouteParent) → Ensures I (report_parents c ps) (λ _. Unit {0})
  unfolding report_parents
  report_parents-Ensures [] = Ensures-pure tt tt
  report_parents-Ensures (p ∷ ps) =
      Ensures-bind _ _ (report_conditions-Ensures p.conditions) (λ _ _. report_parents-Ensures ps)

  pub report_route-Ensures :
      (r : Res (List RouteParent)) → Ensures I (report_route c r) (λ _. Unit {0})
  unfolding report_route
  report_route-Ensures (err e) = Ensures-pure tt tt
  report_route-Ensures (ok parents) = report_parents-Ensures parents

  pub surface-Ensures :
      (cr : ContextRoute) (target_name : Str)
      → Ensures I (surface_http_route_rejection c cr target_name) (λ _. Unit {0})
  unfolding surface_http_route_rejection
  surface-Ensures cr target_name = report_route-Ensures _
