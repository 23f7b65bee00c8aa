-- ===== src/ContextRoute/Safety.antt =====
-- When the reconciler applies an HTTPRoute.
use route_prism.Common.{
  inr, refl, ◌≡◌, ◌∙◌, sym, ap, Bool, true, codes, false, none, some, List, [], if◌then◌else◌, All,
  Str, Option, is_nil,
}
use route_prism.Kube.Meta.{Labels, Service, contains_str}
use route_prism.Kube.Types.{ContextRoute, EdgeTransformation}
use route_prism.Kube.Reconcile.{◌>>◌, pure, emit, check, ok, ApiError}
use route_prism.Kube.Ensures.{
  Ensures-weaken, Ensures, Ensures-pure, Ensures-return, Ensures-if, Ensures-emit, Ensures-check,
  Ensures-check_res, Ensures-bind,
}
use route_prism.Render.{http_route_name_for_cr, finalizer_cr, render_cr_http_route}
use route_prism.Render.Rules.{render_cr_http_route-status}
use route_prism.Election.Keys.{loses_key-status}
use route_prism.ContextRoute.Client.{update_status, Client}
use route_prism.ContextRoute.Steps.{
  gamma_supported_service_type, has_live_et, record_event, with_conflict, resolve_target,
  surface_http_route_rejection,
}
use route_prism.ContextRoute.Reconciler.{
  with_target, failed_apply, variants_of, apply_route, route, reconcile, run,
}
use route_prism.ContextRoute.Allowed.{
  IsTargetRoute, IsJustified, IsAllowed, Clear, record_event-Ensures, delete_owned-Ensures,
  fetched-Ensures, handle_deletion-Ensures, check_conflicts-Ensures, check_target-Ensures,
  selector_of-Ensures, surface-Ensures,
}

module _ (c : Client) (namespace name : Str) where
  failed_apply-Ensures :
      (o : Option ApiError)
      → Ensures (IsAllowed c namespace name) (failed_apply c o) (λ _. Unit {0})
  failed_apply-Ensures none = Ensures-pure tt tt
  failed_apply-Ensures (some e) =
      Ensures-bind _ _ (record_event-Ensures c namespace name _ _) (λ _ _. Ensures-return _)

  apply_route-Ensures :
      (cr : ContextRoute) (target : Service) (variants : List Service) (has_et : Bool)
      → (has_et ≡ false
          → IsJustified c namespace name (render_cr_http_route cr target variants true))
      → IsTargetRoute c namespace name
          (http_route_name_for_cr cr.status.target_service)
          cr.namespace
      → Ensures
          (IsAllowed c namespace name)
          (apply_route c cr target variants has_et)
          (λ _. Unit {0})
  unfolding apply_route
  apply_route-Ensures cr target variants has_et justified own =
      Ensures-if has_et _ _
        (λ _. Ensures-weaken _ (delete_owned-Ensures c namespace name cr own) (λ _ _. tt))
        (λ undelegated.
          Ensures-bind _ _ (Ensures-emit _ (justified undelegated)) (λ _ _. failed_apply-Ensures _))

  -- The steps after the last one that can apply the route.
  route_end-Ensures :
      (final : ContextRoute) (has_et : Bool) (target_name : Str)
      → Ensures
          (IsAllowed c namespace name)
          (do
            emit (update_status final)
            check (c.write (update_status final))
            (if has_et then pure tt else surface_http_route_rejection c final target_name)
            record_event c false (codes "Reconciled"))
          (λ _. Unit {0})
  route_end-Ensures final has_et target_name = Ensures-bind _ _ (Ensures-emit _ tt) (λ _ _.
      Ensures-bind _ _ (Ensures-check _) (λ _ _.
        Ensures-bind _ _
          (Ensures-if has_et _ _ (λ _. Ensures-pure tt tt)
            (λ _. surface-Ensures c namespace name final target_name))
          (λ _ _. record_event-Ensures c namespace name _ _)))

  -- What the steps before have found out, for the ContextRoute and the target they go on with.
  record Found (found cr : ContextRoute) (target : Service) : Type 0 where
    is_read : c.get_context_route namespace name ≡ ok found
    alive : found.deleting ≡ false
    held : contains_str finalizer_cr found.meta.finalizers ≡ true
    clear : Clear c namespace name (with_target c found) cr
    target_read : c.get_service found.namespace found.target ≡ ok target
    supported : gamma_supported_service_type target ≡ true

  justified :
      (found cr : ContextRoute) (target : Service) (sel : Labels → Bool) (services : List Service)
      (ets : List EdgeTransformation)
      → Found found cr target
      → c.as_selector found.spec.selector ≡ some sel
      → c.list_services found.namespace sel ≡ ok services
      → c.list_edge_transformations found.namespace ≡ ok ets
      → has_live_et c target.name ets ≡ false
      → IsJustified c namespace name (
          render_cr_http_route
            (with_conflict c (with_target c found) none)
            target
            (variants_of c found.target services)
            true)
  justified found cr target sel services ets f sel_read services_read ets_read undelegated =
      record {
        cr = found;
        is_read = f.is_read;
        alive = f.alive;
        held = f.held;
        peers = f.clear.peers;
        peers_read = f.clear.peers_read;
        owned = f.clear.owned;
        all_crs = f.clear.all_crs;
        all_crs_read = f.clear.all_crs_read;
        keeps_key = sym (loses_key-status found _ f.clear.all_crs) ∙ f.clear.keeps_key;
        target = target;
        target_read = f.target_read;
        supported = f.supported;
        selector = sel;
        services = services;
        services_read = services_read;
        selector_read = sel_read;
        ets = ets;
        ets_read = ets_read;
        undelegated = undelegated;
        rendered =
            render_cr_http_route-status found _ target (variants_of c found.target services) true;
      }

  route_clear-Ensures :
      (found cr : ContextRoute) (target : Service)
      → Found found cr target
      → Ensures
          (IsAllowed c namespace name)
          (route c (with_conflict c (with_target c found) none) target)
          (λ _. Unit {0})
  unfolding route
  route_clear-Ensures found cr target f =
      Ensures-bind _ _
        (selector_of-Ensures c namespace name (with_conflict c (with_target c found) none))
        (λ sel sel_read. Ensures-bind _ _ (Ensures-check_res _) (λ services services_read.
          Ensures-bind _ _
            (Ensures-if (is_nil (variants_of c found.target services)) _ _
              (λ _. record_event-Ensures c namespace name _ _) (λ _. Ensures-pure tt tt))
            (λ _ _. Ensures-bind _ _ (Ensures-check_res _) (λ ets ets_read.
              Ensures-bind _ _
                (apply_route-Ensures _ _ _ _
                  (justified found cr target sel services ets f sel_read services_read ets_read)
                  (record {
                    cr = found;
                    is_read = f.is_read;
                    in_namespace = refl;
                    which = inr (f.alive, refl);
                  }))
                (λ _ _. route_end-Ensures _ _ _)))))

  route-Ensures :
      (found cr : ContextRoute) (target : Service)
      → Found found cr target
      → Ensures (IsAllowed c namespace name) (route c cr target) (λ _. Unit {0})
  route-Ensures found cr target f = rw f.clear.is_clear (route_clear-Ensures found cr target f)

  resolve_target-Ensures :
      (cr : ContextRoute)
      → Ensures (IsAllowed c namespace name) (resolve_target c cr) (λ svc.
        (c.get_service cr.namespace cr.target ≡ ok svc) × (gamma_supported_service_type svc ≡ true))
  unfolding resolve_target
  resolve_target-Ensures cr = check_target-Ensures c namespace name cr _

  reconcile-Ensures :
      Ensures (IsAllowed c namespace name) (reconcile c namespace name) (λ _. Unit {0})
  unfolding reconcile
  reconcile-Ensures = Ensures-bind _ _ (fetched-Ensures c namespace name _) (λ found read.
      Ensures-bind _ _ (handle_deletion-Ensures c namespace name found read) (λ _ deletion.
        Ensures-bind _ _ (check_conflicts-Ensures c namespace name (with_target c found))
          (λ cr clear. Ensures-bind _ _ (resolve_target-Ensures cr) (λ target resolved.
            route-Ensures found cr target (record {
              is_read = read;
              alive = deletion.0;
              held = deletion.1;
              clear = clear;
              target_read =
                  sym (ap (λ x. c.get_service x.namespace x.target) clear.is_clear) ∙ resolved.0;
              supported = resolved.1;
            })))))

  -- Whatever the API server answers to a run for a ContextRoute: an HTTPRoute that the run applies is
  -- the rendered one of a ContextRoute that was read alive, with its finalizer, without a conflict on
  -- target or routing key, whose target is supported and has no live EdgeTransformation. An HTTPRoute
  -- that it deletes lies in the ContextRoute's namespace and is named for the target in the status of
  -- a ContextRoute that is being deleted, or for the target of one that is not; the name does not tell
  -- for which ContextRoute on the target it was rendered. An update gives the finalizer to a
  -- ContextRoute that is not being deleted, or takes it from one that is, where the status names no
  -- target, or the route was deleted or not found.
  pub run-IsAllowed : All (IsAllowed c namespace name) (run c namespace name).1
  unfolding run
  run-IsAllowed = (reconcile-Ensures.at [] tt).0
