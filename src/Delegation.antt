-- ===== src/Delegation.antt =====
-- Who routes a target that a ContextRoute and an EdgeTransformation share: the two reconcilers of
-- modules/operator/internal/controller.
use mathlib.Core.Path.{subst}
use mathlib.Core.List.{Memᴰ}
use route_prism.Common.{
  ◌≡◌, refl, Bool, true, false, not, ◌&&◌, List, All, Str, str_eq, str_eq_self,
}
use route_prism.Common.Members.{All-map, any-mem}
use route_prism.Kube.Meta.{Service}
use route_prism.Kube.Types.{ContextRoute, EdgeTransformation}
use route_prism.Kube.Reconcile.{ok}
use route_prism.ContextRoute.Client as CrClient
use route_prism.ContextRoute.Steps.{has_live_et}
use route_prism.ContextRoute.Reconciler as CrReconciler
use route_prism.ContextRoute.Allowed as CrAllowed
use route_prism.ContextRoute.Safety.{run-IsAllowed}
use route_prism.EdgeTransformation.Client as EtClient
use route_prism.EdgeTransformation.Reconciler as EtReconciler
use route_prism.EdgeTransformation.Reconciler.Served.{run-IsServed}
use route_prism.EdgeTransformation.Reconciler.Served as EtServed

-- The write applies an HTTPRoute.
abbrev pub cr_applies : CrClient.Write → Bool
cr_applies (CrClient.Write.apply hr) = true
cr_applies _ = false

abbrev pub et_applies : EtClient.Write → Bool
et_applies (EtClient.Write.apply_http_route hr) = true
et_applies _ = false

module _ (c : CrClient.Client) (namespace name : Str) (cr : ContextRoute) (target : Service)
    (ets : List EdgeTransformation) (is_read : c.get_context_route namespace name ≡ ok cr)
    (target_read : c.get_service cr.namespace cr.target ≡ ok target)
    (ets_read : c.list_edge_transformations cr.namespace ≡ ok ets)
    (delegated : has_live_et c target.name ets ≡ true) where
  none_applied :
      (w : CrClient.Write) → CrAllowed.IsAllowed c namespace name w → cr_applies w ≡ false
  none_applied (CrClient.Write.apply hr) j =
      let same_cr : j.cr ≡ cr = cc (j.is_read, is_read) in
      let target_again : c.get_service cr.namespace cr.target ≡ ok j.target =
        subst (λ x. c.get_service x.namespace x.target ≡ ok j.target) same_cr j.target_read in
      let same_target : j.target ≡ target = cc (target_again, target_read) in
      let ets_again : c.list_edge_transformations cr.namespace ≡ ok j.ets =
        subst (λ x. c.list_edge_transformations x.namespace ≡ ok j.ets) same_cr j.ets_read in
      let same_ets : j.ets ≡ ets = cc (ets_again, ets_read) in
      let undelegated : has_live_et c target.name ets ≡ false =
        subst (λ t. has_live_et c t.name ets ≡ false) same_target
          (subst (λ es. has_live_et c j.target.name es ≡ false) same_ets j.undelegated) in
      cc (undelegated, delegated)
  none_applied (CrClient.Write.update x) j = refl
  none_applied (CrClient.Write.update_status x) j = refl
  none_applied (CrClient.Write.delete_http_route n ns) j = refl
  none_applied (CrClient.Write.event e) j = refl

-- The EdgeTransformation is live and targets the Service.
has_live_et-mem :
    (c : CrClient.Client) (target : Str) (et : EdgeTransformation) (ets : List EdgeTransformation)
    → Memᴰ et ets
    → et.deleting ≡ false
    → et.target ≡ target
    → has_live_et c target ets ≡ true
has_live_et-mem c target et ets listed alive same =
    any-mem (λ x. not x.deleting && str_eq x.target target) et ets
      (rw (alive, same) (str_eq_self target)) listed

module _ (d : EtClient.Client) (namespace name : Str) (et : EdgeTransformation)
    (is_read : d.get_edge_transformation namespace name ≡ ok et) where
  served_by_router :
      (w : EtClient.Write)
      → EtServed.IsAllowed d namespace name w
      → (et_applies w && not (EtReconciler.is_router et.spec.mode)) ≡ false
  served_by_router (EtClient.Write.apply_http_route hr) j =
      let same_et : j.et ≡ et = cc (j.is_read, is_read) in
      let router : EtReconciler.is_router et.spec.mode ≡ true =
        subst (λ x. EtReconciler.is_router x.spec.mode ≡ true) same_et j.mode in
      rw router refl
  served_by_router (EtClient.Write.update_status x) j = refl
  served_by_router (EtClient.Write.apply_config_map x conf) j = refl
  served_by_router (EtClient.Write.apply_service x) j = refl
  served_by_router (EtClient.Write.apply_deployment x conf) j = refl
  served_by_router (EtClient.Write.event e) j = refl

-- If some live EdgeTransformation on the target of a ContextRoute is among those that are listed, a
-- run for the ContextRoute applies no HTTPRoute, whatever mode the EdgeTransformation has; and a run
-- for the EdgeTransformation applies none unless its mode is the router mode. So where the mode is
-- another one, neither does.
pub unrouted :
    (c : CrClient.Client) (d : EtClient.Client) (namespace cr_name et_name : Str)
    (cr : ContextRoute) (target : Service) (et : EdgeTransformation) (ets : List EdgeTransformation)
    → c.get_context_route namespace cr_name ≡ ok cr
    → c.get_service cr.namespace cr.target ≡ ok target
    → c.list_edge_transformations cr.namespace ≡ ok ets
    → Memᴰ et ets
    → et.deleting ≡ false
    → et.target ≡ target.name
    → d.get_edge_transformation namespace et_name ≡ ok et
    → All (λ w. cr_applies w ≡ false) (CrReconciler.run c namespace cr_name).1
      × All
          (λ w. (et_applies w && not (EtReconciler.is_router et.spec.mode)) ≡ false)
          (EtReconciler.run d namespace et_name).1
unrouted c d namespace cr_name et_name cr target et ets read target_read ets_read listed alive same
      et_read =
    let live = has_live_et-mem c target.name et ets listed alive same in
    (
      All-map _ (none_applied c namespace cr_name cr target ets read target_read ets_read live)
          (run-IsAllowed c namespace cr_name),
      All-map _ (served_by_router d namespace et_name et et_read)
          (run-IsServed d namespace et_name),
    )
