-- ===== src/EdgeTransformation/Watches/Affects.antt =====
-- A Service or a ContextRoute that wakes no EdgeTransformation has no part in its configuration.
use mathlib.Core.Path.{subst}
use mathlib.Core.List.{Memᴰ}
use route_prism.Common.{
  ap, ◌≡◌, refl, sym, ◌∙◌, Bool, true, false, not, ◌||◌, Option, none, some, List, [], ◌∷◌, ◌++◌,
  filter, if◌then◌else◌, Str, str_eq, str_eq_iff, ◌&&◌, Bool-cases, inl, inr,
}
use route_prism.Common.Members.{filter_skip}
use route_prism.Kube.Meta.{Labels, Service}
use route_prism.Kube.Types.{ContextRoute, EdgeTransformation, effective_routing_key}
use route_prism.Kube.Reconcile.{Res, ok, err}
use route_prism.Election.{beats, scan, find_cr_for_target}
use route_prism.ContextRoute.Watches.{kept, added}
use route_prism.Translator.Conf.{VariantBackend}
use route_prism.EdgeTransformation.Watches.{
  edge_request, elected, selects, map_service_to_ets, map_cr_to_et,
}
use route_prism.EdgeTransformation.Client.{Client}
use route_prism.EdgeTransformation.Reconciler.{
  variant_backends, collect_variant_backends, listed_services, key_and_variants,
}

scan_skip :
    (p : ContextRoute → Bool) (w : Option ContextRoute) (cr : ContextRoute)
    (before after : List ContextRoute)
    → p cr ≡ false
    → scan p w (before ++ cr ∷ after) ≡ scan p w (before ++ after)
unfolding scan
scan_skip p w cr [] after h = ap (λ v. scan p v after) (rw h refl)
scan_skip p w cr (x ∷ before) after h =
    scan_skip p (if p x && beats x w then some x else w) cr before after h

map_cr_to_et-woken :
    (cr : ContextRoute) (et : EdgeTransformation) (ets : List EdgeTransformation)
    → Memᴰ et ets
    → str_eq et.target cr.target ≡ true
    → Memᴰ (edge_request et) (map_cr_to_et cr ets)
unfolding map_cr_to_et
map_cr_to_et-woken cr et [] m h = elim m [ ]
map_cr_to_et-woken cr et (x ∷ xs) (Memᴰ.head e) h =
    added (str_eq x.target cr.target) false (edge_request x) (edge_request et) (map_cr_to_et cr xs)
      (ap edge_request e) (subst (λ y. (str_eq y.target cr.target || false) ≡ true) e (rw h refl))
map_cr_to_et-woken cr et (x ∷ xs) (Memᴰ.tail m) h =
    kept (str_eq x.target cr.target) false (edge_request x) (edge_request et) (map_cr_to_et cr xs)
      (map_cr_to_et-woken cr et xs m h)

target_differs :
    (s t : Str) (deleting : Bool) → (str_eq s t ≡ true → ⊥) → (not deleting && str_eq t s) ≡ false
target_differs s t true h = refl
target_differs s t false h = elim (Bool-cases (str_eq t s)) [
  | inr e ↦ e
  | inl e ↦ absurd (h ((str_eq_iff s t).1 (sym ((str_eq_iff t s).0 e))))
]

-- A ContextRoute that asks for no reconciliation of a listed EdgeTransformation has no part in the
-- election of `findCRForTarget`: the same ContextRoute is found with it, anywhere in the list, and
-- without it.
pub map_cr_to_et-elected :
    (cr : ContextRoute) (et : EdgeTransformation) (ets : List EdgeTransformation)
    (before after : List ContextRoute)
    → Memᴰ et ets
    → (Memᴰ (edge_request et) (map_cr_to_et cr ets) → ⊥)
    → find_cr_for_target et.target (before ++ cr ∷ after)
      ≡ find_cr_for_target et.target (before ++ after)
unfolding find_cr_for_target
map_cr_to_et-elected cr et ets before after listed asleep = scan_skip _ none cr before after (
    target_differs et.target cr.target cr.deleting
      (λ h. asleep (map_cr_to_et-woken cr et ets listed h)))

map_service_to_ets-woken :
    (c : Client) (svc : Service) (et : EdgeTransformation) (ets : List EdgeTransformation)
    → Memᴰ et ets
    → (str_eq et.target svc.name || selects c (elected c et) svc) ≡ true
    → Memᴰ (edge_request et) (map_service_to_ets c svc ets)
unfolding map_service_to_ets
map_service_to_ets-woken c svc et [] m h = elim m [ ]
map_service_to_ets-woken c svc et (x ∷ xs) (Memᴰ.head e) h =
    added (str_eq x.target svc.name) (selects c (elected c x) svc) (edge_request x)
      (edge_request et) (map_service_to_ets c svc xs) (ap edge_request e)
      (subst (λ y. (str_eq y.target svc.name || selects c (elected c y) svc) ≡ true) e h)
map_service_to_ets-woken c svc et (x ∷ xs) (Memᴰ.tail m) h =
    kept (str_eq x.target svc.name) (selects c (elected c x) svc) (edge_request x) (edge_request et)
      (map_service_to_ets c svc xs) (map_service_to_ets-woken c svc et xs m h)

-- The cluster with these Services in the namespace.
abbrev pub with_services : Client → List Service → Client
with_services c services = record c {
  list_services = λ ns sel. ok (filter (λ s. sel s.labels) services);
}

variant_backends-services :
    (c : Client) (xs ys : List Service) (name : Str) (services : List Service)
    → variant_backends (with_services c xs) name services
      ≡ variant_backends (with_services c ys) name services
unfolding variant_backends
variant_backends-services c xs ys name [] = refl
variant_backends-services c xs ys name (s ∷ ss) =
    rw (variant_backends-services c xs ys name ss) refl

module _ (c : Client) (svc : Service) (before after : List Service) where
  abbrev more : Client
  more = with_services c (before ++ svc ∷ after)

  abbrev fewer : Client
  fewer = with_services c (before ++ after)

  listed_unselected :
      (cr : ContextRoute) (sel : Option (Labels → Bool))
      → elim sel [ none ↦ false | some f ↦ f svc.labels ] ≡ false
      → listed_services more cr sel ≡ listed_services fewer cr sel
  listed_unselected cr none h = refl
  listed_unselected cr (some f) h = ap ok (filter_skip (λ s. f s.labels) svc before after h)

  abbrev backends_from : Client → Str → Res (List Service) → Res (List VariantBackend)
  backends_from k name r = elim r [
    | err e ↦ err e
    | ok services ↦ ok (variant_backends k name services)
  ]

  backends_same :
      (name : Str) (r : Res (List Service)) → backends_from more name r ≡ backends_from fewer name r
  backends_same name (err e) = refl
  backends_same name (ok services) =
      ap ok (variant_backends-services c (before ++ svc ∷ after) (before ++ after) name services)

  backends_unselected :
      (cr : ContextRoute) (name : Str)
      → selects c (some cr) svc ≡ false
      → collect_variant_backends more cr name ≡ collect_variant_backends fewer cr name
  unfolding collect_variant_backends
  backends_unselected cr name h =
      ap (backends_from more name) (listed_unselected cr (c.as_selector cr.spec.selector) h)
      ∙ backends_same name (listed_services fewer cr (c.as_selector cr.spec.selector))

  abbrev keyed : ContextRoute → Res (List VariantBackend) → Res (Str × List VariantBackend)
  keyed cr r = elim r [ err e ↦ err e | ok vs ↦ ok (effective_routing_key cr, vs) ]

  variants_unselected :
      (et : EdgeTransformation) (target : Service) (winner : Option ContextRoute)
      → selects c winner svc ≡ false
      → key_and_variants more et target winner ≡ key_and_variants fewer et target winner
  variants_unselected et target none h = refl
  variants_unselected et target (some cr) h = ap (keyed cr) (backends_unselected cr target.name h)

  or_false : (a b : Bool) → ((a || b) ≡ true → ⊥) → b ≡ false
  or_false true b h = absurd (h refl)
  or_false false true h = absurd (h refl)
  or_false false false h = refl

  -- A Service that asks for no reconciliation of a listed EdgeTransformation has no part in its
  -- variants: the routing key and the variants of `collectVariantBackends`, errors included, are the
  -- same with the Service anywhere among the Services of the namespace and without it.
  pub map_service_to_ets-variants :
      (et : EdgeTransformation) (ets : List EdgeTransformation) (target : Service)
      → Memᴰ et ets
      → (Memᴰ (edge_request et) (map_service_to_ets c svc ets) → ⊥)
      → key_and_variants (with_services c (before ++ svc ∷ after)) et target (elected c et)
        ≡ key_and_variants (with_services c (before ++ after)) et target (elected c et)
  map_service_to_ets-variants et ets target listed asleep =
      variants_unselected et target (elected c et) (
        or_false (str_eq et.target svc.name) _
          (λ h. asleep (map_service_to_ets-woken c svc et ets listed h)))
