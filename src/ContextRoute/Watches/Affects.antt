-- ===== src/ContextRoute/Watches/Affects.antt =====
-- A change of a Service that wakes no ContextRoute has no part in its routes.
use mathlib.Core.List.{Memᴰ}
use route_prism.Common.{
  ◌≡◌, refl, sym, ap, ◌∙◌, inl, inr, Bool, true, false, not, ◌||◌, some, List, ◌∷◌, ◌++◌, map,
  filter, Str, str_eq, str_eq_self, str_eq_iff, str_ltb, Bool-cases,
}
use route_prism.Common.Members.{
  filter_skip, mem-middle, mem-map, any-mem, mem-filter, mem-sort_slice,
}
use route_prism.Common.Sort.{sort_slice}
use route_prism.Kube.Meta.{Labels, Service, contains_str}
use route_prism.Kube.Types.{ContextRoute}
use route_prism.ContextRoute.Client.{Client}
use route_prism.ContextRoute.Steps.{set_ready_condition}
use route_prism.ContextRoute.Reconciler.{variants_of, ready_status}
use route_prism.ContextRoute.Watches.{
  request_of, is_woken, map_service_to_crs, map_service_to_crs-woken,
}

-- What a ContextRoute that was not woken says of the Service.
asleep_tests :
    (a b d : Bool) → ((a || (b || d)) ≡ true → ⊥) → (a ≡ false) × (b ≡ false) × (d ≡ false)
asleep_tests true b d h = absurd (h refl)
asleep_tests false true d h = absurd (h refl)
asleep_tests false false true h = absurd (h refl)
asleep_tests false false false h = (refl, refl, refl)

differs : (s t : Str) → str_eq s t ≡ false → str_eq t s ≡ false
differs s t h = elim (Bool-cases (str_eq t s)) [
  | inr e ↦ e
  | inl e ↦ cc ((str_eq_iff s t).1 (sym ((str_eq_iff t s).0 e)), h)
]

module _ (c : Client) (sel : Labels → Bool) where
  -- The variants of a target in a namespace with these Services.
  abbrev pub variants_in : Str → List Service → List Service
  variants_in target services = variants_of c target (filter (λ s. sel s.labels) services)

  listed_variant :
      (target : Str) (old : Service) (before after : List Service)
      → sel old.labels ≡ true
      → str_eq old.name target ≡ false
      → contains_str old.name
          (sort_slice str_ltb (map (λ s. s.name) (variants_in target (before ++ old ∷ after))))
        ≡ true
  unfolding contains_str
  listed_variant target old before after selected other =
      let kept : not (str_eq old.name target) ≡ true = rw other refl in
      any-mem (λ x. str_eq x old.name) old.name _ (str_eq_self old.name)
        (mem-sort_slice str_ltb old.name _ (
          mem-map (λ s. s.name) old _
            (mem-filter _ old _ kept (mem-filter _ old _ selected (mem-middle old before after)))))

  -- A Service that was not listed as a variant has not been one, unless it is the target.
  unselected_before :
      (target : Str) (old : Service) (before after : List Service)
      → str_eq old.name target ≡ false
      → contains_str old.name
          (sort_slice str_ltb (map (λ s. s.name) (variants_in target (before ++ old ∷ after))))
        ≡ false
      → sel old.labels ≡ false
  unselected_before target old before after other unlisted = elim (Bool-cases (sel old.labels)) [
    | inr e ↦ e
    | inl e ↦ cc (listed_variant target old before after e other, unlisted)
  ]

  woken_tests :
      (svc : Service) (cr : ContextRoute)
      → c.as_selector cr.spec.selector ≡ some sel
      → ((str_eq cr.target svc.name || is_woken c.as_selector svc cr) ≡ true → ⊥)
      → (str_eq cr.target svc.name ≡ false)
        × (sel svc.labels ≡ false)
        × (contains_str svc.name cr.status.variant_services ≡ false)
  woken_tests svc cr valid asleep =
      asleep_tests (str_eq cr.target svc.name) (sel svc.labels) _
        (λ h. asleep (rw (valid, is_woken) h))

  -- A Service of the namespace changes from `old` to `svc`, under the same name. If a listed
  -- ContextRoute with a valid selector is not reconciled for the changed Service, although its status
  -- lists the variants that step 5 of a run before the change has found, then the Service is not its
  -- target, and the variants of a run after the change are the same as before it.
  pub map_service_to_crs-variants :
      (cr earlier : ContextRoute) (crs : List ContextRoute) (old svc : Service)
      (before after : List Service) (has_et : Bool)
      → c.as_selector cr.spec.selector ≡ some sel
      → Memᴰ cr crs
      → svc.name ≡ old.name
      → cr.status.variant_services
        ≡ (ready_status c earlier
            (variants_in cr.target (before ++ old ∷ after))
            has_et).status.variant_services
      → (Memᴰ (request_of cr) (map_service_to_crs c.as_selector svc crs) → ⊥)
      → (str_eq cr.target svc.name ≡ false)
        × (variants_in cr.target (before ++ svc ∷ after)
            ≡ variants_in cr.target (before ++ old ∷ after))
  unfolding ready_status set_ready_condition
  map_service_to_crs-variants cr earlier crs old svc before after has_et valid listed same status
        asleep =
      let (other, unselected, unlisted) =
        woken_tests svc cr valid
          (λ h. asleep (map_service_to_crs-woken c.as_selector svc cr crs listed h)) in
      let unselected_old : sel old.labels ≡ false =
        unselected_before cr.target old before after
          (differs cr.target old.name (rw (← same) other))
          (sym (ap (contains_str old.name) status) ∙ rw (← same) unlisted) in
      (
        other,
        ap (variants_of c cr.target) (
            filter_skip (λ s. sel s.labels) svc before after unselected
            ∙ sym (filter_skip (λ s. sel s.labels) old before after unselected_old)),
      )
