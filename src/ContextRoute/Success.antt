-- ===== src/ContextRoute/Success.antt =====
-- A run that meets no obstacle.
use mathlib.Core.Path.{subst}
use route_prism.Render.Rules.{render_cr_http_route-status}
use route_prism.Common.{
  is_nil, ◌≡◌, refl, sym, ◌∙◌, ap, Bool, true, false, not, Option, none, some, List, [], ◌∷◌,
  if◌then◌else◌, Str, codes,
}
use route_prism.Kube.Reconcile.{Res, ok, err, pure, check, done}
use route_prism.Kube.Goes.{
  Goes, Goes-bind, Goes-pure, Goes-check_res, Goes-then, Goes-else, Goes-emit,
}
use route_prism.Kube.Meta.{Labels, Condition, Service, contains_str}
use route_prism.Kube.Types.{ContextRoute}
use route_prism.Render.{HttpRoute, finalizer_cr, render_cr_http_route}
use route_prism.ContextRoute.Client.{Client, Write, apply, update_status, RouteParent}
use route_prism.ContextRoute.Steps.{
  handle_deletion_and_finalizer, check_conflicts, check_target, resolve_target, has_live_et,
  with_conflict, is_owned_by_other, surface_http_route_rejection, gamma_supported_service_type,
  has_app_protocol, is_rejection, report_conditions, report_parents, report_route, record_event,
}
use route_prism.ContextRoute.Reconciler.{
  fetched, with_target, checked_selector, selector_of, failed_apply, variants_of, apply_route,
  ready_status, route, reconcile, run,
}
use route_prism.ContextRoute.Allowed.{IsJustified}
use route_prism.Election.{resolve_owner}
use route_prism.Election.Keys.{loses_key-status}

module _ (c : Client) (quiet : c.has_recorder ≡ false)
    (accepts : (w : Write) → c.write w ≡ none) where
  Goes-check : (w : Write) → Goes {W = Write} (check (c.write w)) tt []
  unfolding check
  Goes-check w = rw (accepts w) (Goes-pure tt)

  Goes-event : (warning : Bool) (reason : Str) → Goes (record_event c warning reason) tt []
  unfolding record_event
  Goes-event warning reason = Goes-else c.has_recorder _ _ quiet (Goes-pure tt)

  Goes-conditions : (conds : List Condition) → Goes (report_conditions c conds) tt []
  unfolding report_conditions
  Goes-conditions [] = Goes-pure tt
  Goes-conditions (cond ∷ conds) =
      Goes-bind _ _ (quiet_if (is_rejection cond)) (Goes-conditions conds)
    where
      quiet_if :
          (b : Bool)
          → Goes (if b then record_event c true (codes "HTTPRouteRejected") else pure tt) tt []
      quiet_if true = Goes-event _ _
      quiet_if false = Goes-pure tt

  Goes-parents : (ps : List RouteParent) → Goes (report_parents c ps) tt []
  unfolding report_parents
  Goes-parents [] = Goes-pure tt
  Goes-parents (p ∷ ps) = Goes-bind _ _ (Goes-conditions p.conditions) (Goes-parents ps)

  Goes-route : (r : Res (List RouteParent)) → Goes (report_route c r) tt []
  unfolding report_route
  Goes-route (err e) = Goes-pure tt
  Goes-route (ok ps) = Goes-parents ps

  Goes-fetched : (r : Res ContextRoute) (cr : ContextRoute) → r ≡ ok cr → Goes (fetched r) cr []
  unfolding fetched
  Goes-fetched r cr e = rw e (Goes-pure cr)

  Goes-target :
      (cr : ContextRoute) (r : Res Service) (svc : Service)
      → r ≡ ok svc
      → gamma_supported_service_type svc ≡ true
      → Goes (check_target c cr r) svc []
  unfolding check_target
  Goes-target cr r svc e supported = rw e (
      Goes-bind _ _ (quiet_unless (has_app_protocol svc))
        (Goes-then (gamma_supported_service_type svc) _ _ supported (Goes-pure svc)))
    where
      quiet_unless :
          (b : Bool)
          → Goes (if b then pure tt else record_event c true (codes "MissingAppProtocol")) tt []
      quiet_unless true = Goes-pure tt
      quiet_unless false = Goes-event _ _

  Goes-selector :
      (o : Option (Labels → Bool)) (sel : Labels → Bool)
      → o ≡ some sel
      → Goes (checked_selector c o) sel []
  unfolding checked_selector
  Goes-selector o sel e = rw e (Goes-pure sel)

  Goes-failed : (w : Write) → Goes (failed_apply c (c.write w)) tt []
  Goes-failed w = rw (accepts w) (Goes-pure tt)

  Goes-nil :
      (b : Bool) (reason : Str) → Goes (if b then record_event c true reason else pure tt) tt []
  Goes-nil true reason = Goes-event _ _
  Goes-nil false reason = Goes-pure tt

  module _ (namespace name : Str) (hr : HttpRoute) (j : IsJustified c namespace name hr) where
    -- The ContextRoute with which the run goes on once the conflicts are cleared.
    abbrev clear : ContextRoute
    clear = with_conflict c (with_target c j.cr) none

    abbrev variants : List Service
    variants = variants_of c j.cr.target j.services

    abbrev final : ContextRoute
    final = ready_status c clear variants (has_live_et c j.target.name j.ets)

    Goes-deletion : Goes (handle_deletion_and_finalizer c j.cr) tt []
    unfolding handle_deletion_and_finalizer
    Goes-deletion = Goes-else j.cr.deleting _ _ j.alive (
        Goes-else (not (contains_str finalizer_cr j.cr.meta.finalizers)) _ _ (ap not j.held)
          (Goes-pure tt))

    Goes-conflicts : Goes (check_conflicts c (with_target c j.cr)) clear []
    unfolding check_conflicts
    Goes-conflicts = Goes-bind _ _ (Goes-check_res _ j.peers j.peers_read) (
        Goes-else (is_owned_by_other c j.cr (resolve_owner j.cr.target j.peers)) _ _ j.owned (
          Goes-bind _ _ (Goes-check_res _ j.all_crs j.all_crs_read)
            (Goes-else _ _ _ (loses_key-status j.cr _ j.all_crs ∙ j.keeps_key) (Goes-pure _))))

    Goes-apply :
        Goes
          (apply_route c clear j.target variants (has_live_et c j.target.name j.ets))
          tt
          (apply hr ∷ [])
    unfolding apply_route
    Goes-apply =
        let same : render_cr_http_route clear j.target variants true ≡ hr =
          render_cr_http_route-status j.cr _ j.target variants true ∙ sym j.rendered in
        subst
          (λ r.
            Goes (apply_route c clear j.target variants (has_live_et c j.target.name j.ets)) tt
              (apply r ∷ []))
          same (Goes-else _ _ _ j.undelegated (Goes-bind _ _ (Goes-emit _) (Goes-failed _)))

    Goes-end : Goes (route c clear j.target) tt (apply hr ∷ update_status final ∷ [])
    unfolding route selector_of surface_http_route_rejection
    Goes-end = Goes-bind _ _ (Goes-selector _ j.selector j.selector_read) (
        Goes-bind _ _ (Goes-check_res _ j.services j.services_read) (
          Goes-bind _ _ (Goes-nil (is_nil variants) _) (
            Goes-bind _ _ (Goes-check_res _ j.ets j.ets_read) (
              Goes-bind _ _ Goes-apply (
                Goes-bind _ _ (Goes-emit _) (
                  Goes-bind _ _ (Goes-check _) (
                    Goes-bind _ _ (Goes-else _ _ _ j.undelegated (Goes-route _))
                      (Goes-event _ _))))))))

    Goes-reconcile : Goes (reconcile c namespace name) tt (apply hr ∷ update_status final ∷ [])
    unfolding reconcile resolve_target
    Goes-reconcile = Goes-bind _ _ (Goes-fetched _ j.cr j.is_read) (
        Goes-bind _ _ Goes-deletion (
          Goes-bind _ _ Goes-conflicts
            (Goes-bind _ _ (Goes-target clear _ j.target j.target_read j.supported) Goes-end)))

-- Where the client's answers justify an HTTPRoute, all writes are accepted, and no events are
-- recorded, the run ends with success, and its writes are this HTTPRoute and then the status.
pub run-justified :
    (c : Client) (namespace name : Str) (hr : HttpRoute)
    → c.has_recorder ≡ false
    → ((w : Write) → c.write w ≡ none)
    → (j : IsJustified c namespace name hr)
    → run c namespace name ≡ (
      ok done,
      apply hr
          ∷ update_status (
              ready_status c
                (with_conflict c (with_target c j.cr) none)
                (variants_of c j.cr.target j.services)
                (has_live_et c j.target.name j.ets))
          ∷ [],
    )
unfolding run
run-justified c namespace name hr quiet accepts j =
    rw ((Goes-reconcile c quiet accepts namespace name hr j).at []) refl
