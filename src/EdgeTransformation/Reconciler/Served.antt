-- ===== src/EdgeTransformation/Reconciler/Served.antt =====
-- When the reconciler applies the HTTPRoute of a translator.
use route_prism.Common.{
  ℕ, ◌≡◌, refl, Bool, true, false, Option, none, some, List, [], ◌∷◌, All, Str, is_empty,
}
use route_prism.Kube.Meta.{Condition, Service}
use route_prism.Kube.Types.{ContextRoute, EdgeTransformation}
use route_prism.Kube.Reconcile.{Res, ok, err, not_found, other, ApiError}
use route_prism.Kube.Ensures.{
  Ensures, Ensures-pure, Ensures-return, Ensures-finish, Ensures-if, Ensures-emit, Ensures-check,
  Ensures-check_res, Ensures-bind,
}
use route_prism.Election.{find_cr_for_target}
use route_prism.Render.{HttpRoute, render_et_http_route}
use route_prism.ContextRoute.Client.{RouteParent}
use route_prism.ContextRoute.Steps.{gamma_supported_service_type, has_app_protocol, is_rejection}
use route_prism.Translator.Conf.{VariantBackend, render_nginx_conf}
use route_prism.EdgeTransformation.Client.{
  Write, update_status, apply_config_map, apply_service, apply_deployment, apply_http_route, event,
  Client,
}
use route_prism.EdgeTransformation.Reconciler.{
  is_router, fetched, record_event, finish_status, give_up, with_target, check_mode, check_target,
  resolve_dns, ready_endpoint, check_endpoint, key_and_variants, rendered, apply, failed_route,
  apply_all, is_available, report_conditions, report_route, report, serve, reconcile, run,
}

-- What justifies the HTTPRoute `hr` in a run for `namespace` and `name`: the answers of the client,
-- and that the translator's objects were accepted before.
pub record IsServed (c : Client) (namespace name : Str) (hr : HttpRoute) : Type 0 where
  pub et : EdgeTransformation
  pub is_read : c.get_edge_transformation namespace name ≡ ok et
  pub mode : is_router et.spec.mode ≡ true
  pub target : Service
  pub target_read : c.get_service et.namespace et.target ≡ ok target
  pub supported : gamma_supported_service_type target ≡ true
  pub crs : List ContextRoute
  pub crs_read : c.list_context_routes et.namespace ≡ ok crs
  pub endpoint : Str × ℕ
  pub endpoint_read : ready_endpoint c et.namespace target.name ≡ ok endpoint
  pub has_endpoint : is_empty endpoint.0 ≡ false
  pub smart : Str × List VariantBackend
  pub smart_read :
      key_and_variants c (with_target c et) target (find_cr_for_target et.target crs) ≡ ok smart
  pub dns_ip : Str
  pub conf : Str
  pub conf_rendered :
      rendered c (
        render_nginx_conf c.renderer
          (with_target c et)
          smart.0
          dns_ip
          endpoint.0
          endpoint.1
          smart.1)
      ≡ ok conf
  pub config_map : c.write (apply_config_map (with_target c et) conf) ≡ none
  pub service : c.write (apply_service (with_target c et)) ≡ none
  pub deployment : c.write (apply_deployment (with_target c et) conf) ≡ none
  pub is_rendered : hr ≡ render_et_http_route (with_target c et) target

-- A write is allowed if it applies no HTTPRoute or one that is served.
abbrev pub IsAllowed : Client → Str → Str → Write → Type 0
IsAllowed c namespace name (apply_http_route hr) = IsServed c namespace name hr
IsAllowed c namespace name (update_status et) = Unit
IsAllowed c namespace name (apply_config_map et conf) = Unit
IsAllowed c namespace name (apply_service et) = Unit
IsAllowed c namespace name (apply_deployment et conf) = Unit
IsAllowed c namespace name (event e) = Unit

module _ (c : Client) (namespace name : Str) where
  abbrev I : Write → Type 0
  I = IsAllowed c namespace name

  record_event-Ensures :
      (warning : Bool) (reason : Str) → Ensures I (record_event c warning reason) (λ _. Unit {0})
  unfolding record_event
  record_event-Ensures warning reason =
      Ensures-if c.has_recorder _ _ (λ _. Ensures-emit _ tt) (λ _. Ensures-pure tt tt)

  finish_status-Ensures :
      {A : Type 0} {Q : A → Type 0} (et : EdgeTransformation)
      → Ensures I (finish_status c {A = A} et) Q
  unfolding finish_status
  finish_status-Ensures et = Ensures-bind _ _ (Ensures-emit _ tt) (λ _ _. Ensures-finish _)

  give_up-Ensures :
      {A : Type 0} {Q : A → Type 0} (et : EdgeTransformation) (e r : Str)
      → Ensures I (give_up c {A = A} et e r) Q
  unfolding give_up
  give_up-Ensures et e r =
      Ensures-bind _ _ (record_event-Ensures _ _) (λ _ _. finish_status-Ensures _)

  fetched-Ensures : (r : Res EdgeTransformation) → Ensures I (fetched r) (λ et. r ≡ ok et)
  unfolding fetched
  fetched-Ensures (ok et) = Ensures-pure et refl
  fetched-Ensures (err not_found) = Ensures-return _
  fetched-Ensures (err (other e)) = Ensures-return _

  check_mode-Ensures :
      (et : EdgeTransformation)
      → Ensures I
          (check_mode c et)
          (λ et'. (is_router et.spec.mode ≡ true) × (et' ≡ with_target c et))
  unfolding check_mode
  check_mode-Ensures et =
      Ensures-if (is_router et.spec.mode) _ _ (λ mode. Ensures-pure _ (mode, refl))
        (λ _. give_up-Ensures _ _ _)

  check_target-Ensures :
      (et : EdgeTransformation) (r : Res Service)
      → Ensures I
          (check_target c et r)
          (λ svc. (r ≡ ok svc) × (gamma_supported_service_type svc ≡ true))
  unfolding check_target
  check_target-Ensures et (err not_found) = give_up-Ensures _ _ _
  check_target-Ensures et (err (other e)) = Ensures-return _
  check_target-Ensures et (ok svc) =
      Ensures-bind _ _
        (Ensures-if (has_app_protocol svc) _ _ (λ _. Ensures-pure tt tt)
          (λ _. record_event-Ensures _ _))
        (λ _ _.
          Ensures-if (gamma_supported_service_type svc) _ _
            (λ supported. Ensures-pure svc (refl, supported)) (λ _. give_up-Ensures _ _ _))

  resolve_dns-Ensures : (o : Option Str) → Ensures I (resolve_dns c o) (λ _. Unit {0})
  unfolding resolve_dns
  resolve_dns-Ensures none = Ensures-bind _ _ (record_event-Ensures _ _) (λ _ _. Ensures-pure _ tt)
  resolve_dns-Ensures (some ip) = Ensures-pure ip tt

  check_endpoint-Ensures :
      (et : EdgeTransformation) (r : Res (Str × ℕ))
      → Ensures I (check_endpoint c et r) (λ found. (r ≡ ok found) × (is_empty found.0 ≡ false))
  unfolding check_endpoint
  check_endpoint-Ensures et (err e) = give_up-Ensures _ _ _
  check_endpoint-Ensures et (ok found) =
      Ensures-if (is_empty found.0) _ _ (λ _. give_up-Ensures _ _ _)
        (λ has. Ensures-pure found (refl, has))

  apply-Ensures : (w : Write) → I w → Ensures I (apply c w) (λ _. c.write w ≡ none)
  unfolding apply
  apply-Ensures w i = Ensures-bind _ _ (Ensures-emit w i) (λ _ _. Ensures-check _)

  failed_route-Ensures : (o : Option ApiError) → Ensures I (failed_route c o) (λ _. Unit {0})
  failed_route-Ensures none = Ensures-pure tt tt
  failed_route-Ensures (some e) =
      Ensures-bind _ _ (record_event-Ensures _ _) (λ _ _. Ensures-return _)

  apply_all-Ensures :
      (et : EdgeTransformation) (target : Service) (conf : Str)
      → (c.write (apply_config_map et conf) ≡ none
          → c.write (apply_service et) ≡ none
          → c.write (apply_deployment et conf) ≡ none
          → IsServed c namespace name (render_et_http_route et target))
      → Ensures I (apply_all c et target conf) (λ _. Unit {0})
  unfolding apply_all
  apply_all-Ensures et target conf served = Ensures-bind _ _ (apply-Ensures _ tt) (λ _ m.
      Ensures-bind _ _ (apply-Ensures _ tt) (λ _ s.
        Ensures-bind _ _ (apply-Ensures _ tt) (λ _ d.
          Ensures-bind _ _ (Ensures-emit _ (served m s d)) (λ _ _. failed_route-Ensures _))))

  report_conditions-Ensures :
      (conds : List Condition) → Ensures I (report_conditions c conds) (λ _. Unit {0})
  unfolding report_conditions
  report_conditions-Ensures [] = Ensures-pure tt tt
  report_conditions-Ensures (cond ∷ conds) =
      Ensures-bind _ _
        (Ensures-if (is_rejection cond) _ _ (λ _. record_event-Ensures _ _)
          (λ _. Ensures-pure tt tt))
        (λ _ _. report_conditions-Ensures conds)

  report_parents-Ensures :
      (ps : List RouteParent) → Ensures I (report_route c (ok ps)) (λ _. Unit {0})
  unfolding report_route
  report_parents-Ensures [] = Ensures-pure tt tt
  report_parents-Ensures (p ∷ ps) =
      Ensures-bind _ _ (report_conditions-Ensures p.conditions) (λ _ _. report_parents-Ensures ps)

  report_route-Ensures : (r : Res (List RouteParent)) → Ensures I (report_route c r) (λ _. Unit {0})
  unfolding report_route
  report_route-Ensures (err e) = Ensures-pure tt tt
  report_route-Ensures (ok ps) = report_parents-Ensures ps

  report-Ensures :
      (et : EdgeTransformation) (target : Service) → Ensures I (report c et target) (λ _. Unit {0})
  unfolding report
  report-Ensures et target =
      Ensures-bind _ _
        (Ensures-if (is_available c (c.get_deployment _ _)) _ _ (λ _. record_event-Ensures _ _)
          (λ _. record_event-Ensures _ _))
        (λ _ _. Ensures-bind _ _ (apply-Ensures _ tt) (λ _ _. report_route-Ensures _))

  serve-Ensures :
      (found : EdgeTransformation)
      → c.get_edge_transformation namespace name ≡ ok found
      → is_router found.spec.mode ≡ true
      → Ensures I (serve c (with_target c found)) (λ _. Unit {0})
  unfolding serve
  serve-Ensures found read mode =
      let et = with_target c found in
      Ensures-bind _ _ (check_target-Ensures et _) (λ target (target_read, supported).
        Ensures-bind _ _ (Ensures-check_res _) (λ crs crs_read.
          Ensures-bind _ _ (resolve_dns-Ensures _) (λ dns_ip _.
            Ensures-bind _ _ (check_endpoint-Ensures et _)
              (λ endpoint (endpoint_read, has_endpoint).
                Ensures-bind _ _ (Ensures-check_res _) (λ smart smart_read.
                  Ensures-bind _ _ (Ensures-check_res _) (λ conf conf_rendered.
                    Ensures-bind _ _
                      (apply_all-Ensures et target conf (λ m s d. record {
                        et = found;
                        is_read = read;
                        mode = mode;
                        target = target;
                        target_read = target_read;
                        supported = supported;
                        crs = crs;
                        crs_read = crs_read;
                        endpoint = endpoint;
                        endpoint_read = endpoint_read;
                        has_endpoint = has_endpoint;
                        smart = smart;
                        smart_read = smart_read;
                        dns_ip = dns_ip;
                        conf = conf;
                        conf_rendered = conf_rendered;
                        config_map = m;
                        service = s;
                        deployment = d;
                        is_rendered = refl;
                      }))
                      (λ _ _. report-Ensures et target)))))))

  reconcile-Ensures : Ensures I (reconcile c namespace name) (λ _. Unit {0})
  unfolding reconcile
  reconcile-Ensures = Ensures-bind _ _ (fetched-Ensures _) (λ found read.
      Ensures-bind _ _ (check_mode-Ensures found)
        (λ et (mode, is_et). rw is_et (serve-Ensures found read mode)))

  -- Every HTTPRoute that a run of the EdgeTransformation reconciler applies is served: the
  -- EdgeTransformation that was read has the router mode, its target exists and is supported, a ready
  -- endpoint was found, and the translator's ConfigMap, Service and Deployment, with the rendered
  -- configuration, were accepted by the API server.
  pub run-IsServed : All (IsAllowed c namespace name) (run c namespace name).1
  unfolding run
  run-IsServed = (reconcile-Ensures.at [] tt).0
