-- ===== src/ContextRoute/Watches.antt =====
-- The map functions of `ContextRouteReconciler.SetupWithManager`: which ContextRoutes are reconciled
-- when another object changes. An error of the list call, and the empty list that it gives, are left
-- to the caller.
pub mod Affects
use mathlib.Core.Path.{subst}
use mathlib.Core.List.{Memᴰ}
use route_prism.Common.{
  ap, ◌≡◌, refl, Bool, true, false, not, ◌||◌, Option, none, some, List, [], ◌∷◌, if◌then◌else◌,
  Str, str_eq, is_empty,
}
use route_prism.Kube.Meta.{Labels, LabelSelector, label_of, Service, contains_str}
use route_prism.Kube.Types.{ContextRoute, EdgeTransformation}
use route_prism.Render.{
  HttpRoute, label_managed_by, label_kind, label_owner, managed_by_value, kind_context_route,
  http_route_labels, render_cr_http_route, render_et_http_route,
}

-- `reconcile.Request`
pub record Request : Type 0 where
  pub namespace : Str
  pub name : Str

abbrev pub request_of : ContextRoute → Request
request_of cr = record { namespace = cr.namespace; name = cr.name }

module _ (as_selector : LabelSelector → Option (Labels → Bool)) where
  -- Whether the Service is a variant now; an invalid selector skips the ContextRoute altogether.
  abbrev pub is_woken : Service → ContextRoute → Bool
  is_woken svc cr = elim (as_selector cr.spec.selector) [
    | none ↦ false
    | some sel ↦ sel svc.labels || contains_str svc.name cr.status.variant_services
  ]

  -- `mapServiceToCRs` over the ContextRoutes of the namespace.
  unfoldable pub map_service_to_crs : Service → List ContextRoute → List Request
  map_service_to_crs svc [] = []
  map_service_to_crs svc (cr ∷ crs) =
      let rest = map_service_to_crs svc crs in
      if str_eq cr.target svc.name
      then request_of cr ∷ rest
      else if is_woken svc cr
      then request_of cr ∷ rest
      else rest

-- `mapETToCR` over the ContextRoutes of the namespace.
pub map_et_to_cr : EdgeTransformation → List ContextRoute → List Request
map_et_to_cr et [] = []
map_et_to_cr et (cr ∷ crs) =
    let rest = map_et_to_cr et crs in
    if str_eq cr.target et.target then request_of cr ∷ rest else rest

-- `mapHTTPRouteToCR`
unfoldable pub map_http_route_to_cr : HttpRoute → List Request
unfolding label_of
map_http_route_to_cr hr =
    if not (str_eq (label_of label_managed_by hr.labels) managed_by_value)
      || not (str_eq (label_of label_kind hr.labels) kind_context_route)
    then []
    else if is_empty (label_of label_owner hr.labels)
    then []
    else record { namespace = hr.namespace; name = label_of label_owner hr.labels } ∷ []

-- The HTTPRoute that is rendered for a ContextRoute wakes that ContextRoute, if the target lies in its
-- namespace and its name is not empty; the one that is rendered for an EdgeTransformation wakes no
-- ContextRoute.
pub map_http_route_to_cr-render :
    (cr : ContextRoute) (target : Service) (variants : List Service) (all : Bool)
    (et : EdgeTransformation) (et_target : Service)
    → target.namespace ≡ cr.namespace
    → is_empty cr.name ≡ false
    → (map_http_route_to_cr (render_cr_http_route cr target variants all) ≡ request_of cr ∷ [])
      × (map_http_route_to_cr (render_et_http_route et et_target) ≡ [])
unfolding map_http_route_to_cr render_cr_http_route render_et_http_route http_route_labels
map_http_route_to_cr-render cr target variants all et et_target same named =
    (rw (named, same) refl, refl)

pub kept :
    (a b : Bool) (r y : Request) (rest : List Request)
    → Memᴰ y rest
    → Memᴰ y (if a then r ∷ rest else if b then r ∷ rest else rest)
kept true b r y rest m = Memᴰ.tail m
kept false true r y rest m = Memᴰ.tail m
kept false false r y rest m = m

pub added :
    (a b : Bool) (r y : Request) (rest : List Request)
    → y ≡ r
    → (a || b) ≡ true
    → Memᴰ y (if a then r ∷ rest else if b then r ∷ rest else rest)
added true b r y rest e h = Memᴰ.head e
added false true r y rest e h = Memᴰ.head e
added false false r y rest e h = cc h

map_service_to_crs-woken :
    (as_selector : LabelSelector → Option (Labels → Bool)) (svc : Service) (cr : ContextRoute)
    (crs : List ContextRoute)
    → Memᴰ cr crs
    → (str_eq cr.target svc.name || is_woken as_selector svc cr) ≡ true
    → Memᴰ (request_of cr) (map_service_to_crs as_selector svc crs)
unfolding map_service_to_crs
map_service_to_crs-woken as_selector svc cr [] m h = elim m [ ]
map_service_to_crs-woken as_selector svc cr (x ∷ xs) (Memᴰ.head e) h =
    added (str_eq x.target svc.name) (is_woken as_selector svc x) (request_of x) (request_of cr)
      (map_service_to_crs as_selector svc xs) (ap request_of e)
      (subst (λ c. (str_eq c.target svc.name || is_woken as_selector svc c) ≡ true) e h)
map_service_to_crs-woken as_selector svc cr (x ∷ xs) (Memᴰ.tail m) h =
    kept (str_eq x.target svc.name) (is_woken as_selector svc x) (request_of x) (request_of cr)
      (map_service_to_crs as_selector svc xs) (map_service_to_crs-woken as_selector svc cr xs m h)
