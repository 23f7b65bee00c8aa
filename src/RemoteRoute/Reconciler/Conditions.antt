-- ===== src/RemoteRoute/Reconciler/Conditions.antt =====
-- What a run says in the status that it writes.
use route_prism.Common.{
  ℕ, ap, ◌⊎◌, sym, ◌≡◌, refl, ◌∙◌, Bool, true, false, not, List, [], ◌∷◌, ◌++◌, filter,
  if◌then◌else◌, Str, str_eq, codes, Bool-cases, inl, inr, arith, str_eq_iff, str_eq_self,
}
use route_prism.Kube.Meta.{Condition, condition_true, condition_false, upsert_condition}
use route_prism.Kube.Goes.{append_nil}
use route_prism.Kube.Types.{RemoteRoute}
use route_prism.RemoteRoute.Health.{refresh_upstream_health, initial_upstream_status}
use route_prism.RemoteRoute.Client.{Client}
use route_prism.RemoteRoute.Proxy.{remote_proxy_name}
use route_prism.Kube.Reconcile.{ok}
use route_prism.RemoteRoute.Reconciler.{
  is_available, any_healthy, set_rr_condition, with_conditions, observed,
}

-- The conditions of one type.
abbrev pub of_type : Str → List Condition → List Condition
of_type t cs = filter (λ c. str_eq c.type_name t) cs

of_type-append :
    (t : Str) (cs ds : List Condition) → of_type t (cs ++ ds) ≡ of_type t cs ++ of_type t ds
of_type-append t [] ds = refl
of_type-append t (c ∷ cs) ds = ground (arith, of_type-append t cs ds)

-- The conditions but those of one type.
abbrev without : Str → List Condition → List Condition
without t cs = filter (λ o. not (str_eq o.type_name t)) cs

of_type_gone : (t : Str) (cs : List Condition) → of_type t (without t cs) ≡ []
of_type_gone t [] = refl
of_type_gone t (c ∷ cs) = elim (Bool-cases (str_eq c.type_name t)) [
  | inl e ↦ rw e (of_type_gone t cs)
  | inr e ↦ rw (e, e) (of_type_gone t cs)
]

of_type_kept :
    (t u : Str) (cs : List Condition) → str_eq t u ≡ false → of_type u (without t cs) ≡ of_type u cs
of_type_kept t u [] h = refl
of_type_kept t u (c ∷ cs) h = ground (
  arith,
  of_type_kept t u cs h,
  str_eq_iff c.type_name t,
  str_eq_iff c.type_name u,
  str_eq_iff t u,
)

of_type-upsert :
    (c : Condition) (cs : List Condition) → of_type c.type_name (upsert_condition c cs) ≡ c ∷ []
unfolding upsert_condition
of_type-upsert c cs =
    of_type-append c.type_name (without c.type_name cs) (c ∷ [])
    ∙ rw (of_type_gone c.type_name cs, str_eq_self c.type_name) refl

of_type-upsert_other :
    (c : Condition) (u : Str) (cs : List Condition)
    → str_eq c.type_name u ≡ false
    → of_type u (upsert_condition c cs) ≡ of_type u cs
unfolding upsert_condition
of_type-upsert_other c u cs h =
    of_type-append u (without c.type_name cs) (c ∷ [])
    ∙ rw (of_type_kept c.type_name u cs h, h) (append_nil (of_type u cs))

abbrev pub ready_type : Str
ready_type = codes "Ready"

abbrev pub reachable_type : Str
reachable_type = codes "UpstreamReachable"

abbrev pub condition_of : (generation : ℕ) → Str → Bool → (reason : Str) → Condition
condition_of generation t b reason = record {
  type_name = t;
  status = if b then condition_true else condition_false;
  reason = reason;
  observed_generation = generation;
}

abbrev reachable_reason : Bool → Str
reachable_reason healthy = if healthy then codes "Reachable" else codes "AllUpstreamsUnhealthy"

module _ (c : Client) (namespace name : Str) where
  -- What a run tells in the status `rr` that it writes, where it has read `found`: it fails, says so
  -- in `Ready` and leaves the conditions `UpstreamReachable` as they were; or the proxy's Deployment
  -- has an available replica, `Ready` is true, and `UpstreamReachable` says whether some upstream of
  -- the status is healthy.
  abbrev pub Tells : (found rr : RemoteRoute) → Type 0
  Tells found rr =
      ((reason : Str) × (of_type ready_type rr.status.conditions
          ≡ condition_of found.meta.generation ready_type false reason ∷ [])
        × (of_type reachable_type rr.status.conditions
            ≡ of_type reachable_type found.status.conditions))
      ⊎ ((is_available (c.get_deployment found.namespace (remote_proxy_name found.name)) ≡ true)
          × (of_type ready_type rr.status.conditions
              ≡ condition_of found.meta.generation ready_type true (codes "Reconciled") ∷ [])
          × (of_type reachable_type rr.status.conditions
              ≡ condition_of found.meta.generation reachable_type (any_healthy rr.status.upstreams)
                  (reachable_reason (any_healthy rr.status.upstreams))
                ∷ []))

  -- A written status tells one of the two of the RemoteRoute that was read.
  pub record IsTold (rr : RemoteRoute) : Type 0 where
    pub found : RemoteRoute
    pub is_read : c.get_remote_route namespace name ≡ ok found
    pub tells : Tells found rr

  -- The RemoteRoute with which a run goes on: that which was read, as far as the status is concerned.
  pub record IsKept (rr : RemoteRoute) : Type 0 where
    pub found : RemoteRoute
    pub is_read : c.get_remote_route namespace name ≡ ok found
    pub same_namespace : rr.namespace ≡ found.namespace
    pub same_name : rr.name ≡ found.name
    pub same_generation : rr.meta.generation ≡ found.meta.generation
    pub same_conditions : rr.status.conditions ≡ found.status.conditions

  pub failure-IsTold :
      (rr : RemoteRoute) (reason : Str)
      → IsKept rr
      → IsTold (set_rr_condition rr ready_type condition_false reason)
  unfolding set_rr_condition
  failure-IsTold rr reason k = record {
    found = k.found;
    is_read = k.is_read;
    tells = inl (
      reason,
      of_type-upsert _ rr.status.conditions
          ∙ ap (λ g. condition_of g ready_type false reason ∷ []) k.same_generation,
      of_type-upsert_other _ reachable_type rr.status.conditions refl
          ∙ ap (of_type reachable_type) k.same_conditions,
    );
  }

  -- The status of a ready proxy, over the test of its upstreams.
  abbrev served : RemoteRoute → Bool → RemoteRoute
  served rr healthy =
      let r = set_rr_condition rr ready_type condition_true (codes "Reconciled") in
      if not healthy
      then set_rr_condition r reachable_type condition_false (codes "AllUpstreamsUnhealthy")
      else set_rr_condition r reachable_type condition_true (codes "Reachable")

  served-conditions :
      (rr : RemoteRoute) (healthy : Bool)
      → (of_type ready_type (served rr healthy).status.conditions
          ≡ condition_of rr.meta.generation ready_type true (codes "Reconciled") ∷ [])
        × (of_type reachable_type (served rr healthy).status.conditions
            ≡ condition_of rr.meta.generation reachable_type healthy (reachable_reason healthy)
              ∷ [])
        × (any_healthy (served rr healthy).status.upstreams ≡ any_healthy rr.status.upstreams)
  unfolding set_rr_condition
  served-conditions rr true =
      (of_type-upsert_other _ ready_type _ refl ∙ of_type-upsert _ _, of_type-upsert _ _, refl)
  served-conditions rr false =
      (of_type-upsert_other _ ready_type _ refl ∙ of_type-upsert _ _, of_type-upsert _ _, refl)

  success-IsTold :
      (rr observed_rr : RemoteRoute)
      → IsKept rr
      → is_available (c.get_deployment rr.namespace (remote_proxy_name rr.name)) ≡ true
      → observed_rr.meta.generation ≡ rr.meta.generation
      → IsTold (served observed_rr (any_healthy observed_rr.status.upstreams))
  success-IsTold rr o k available same =
      let healthy = any_healthy o.status.upstreams in
      let (ready, reachable, upstreams) = served-conditions o healthy in
      let generation = same ∙ k.same_generation in
      let healthy_again = sym upstreams in
      record {
        found = k.found;
        is_read = k.is_read;
        tells = inr (
          sym (λ i.
                is_available
                  (c.get_deployment (k.same_namespace i) (remote_proxy_name (k.same_name i))))
              ∙ available,
          ready ∙ ap (λ g. condition_of g ready_type true (codes "Reconciled") ∷ []) generation,
          reachable ∙ (λ i.
              condition_of (generation i) reachable_type (healthy_again i)
                (reachable_reason (healthy_again i))
              ∷ []),
        );
      }

  -- The proxy's Deployment as it is observed.
  abbrev at_ready : RemoteRoute → Bool → RemoteRoute
  at_ready rr ready =
      let rr' = record rr { status = record rr.status { proxy_ready = ready } } in
      if ready then refresh_upstream_health rr' (c.fetch_cluster_dump rr') else record rr' {
        status = record rr'.status {
          upstreams = initial_upstream_status rr.spec.upstreams;
          active_upstream = [];
        };
      }

  at_ready-IsTold :
      (rr : RemoteRoute) (ready : Bool)
      → IsKept rr
      → is_available (c.get_deployment rr.namespace (remote_proxy_name rr.name)) ≡ ready
      → IsTold (with_conditions (at_ready rr ready))
  unfolding with_conditions refresh_upstream_health
  at_ready-IsTold rr true k available = success-IsTold rr (at_ready rr true) k available refl
  at_ready-IsTold rr false k missing =
      failure-IsTold (at_ready rr false) (codes "ProxyNotReady") (record {
        found = k.found;
        is_read = k.is_read;
        same_namespace = k.same_namespace;
        same_name = k.same_name;
        same_generation = k.same_generation;
        same_conditions = k.same_conditions;
      })

  pub report-IsTold : (rr : RemoteRoute) → IsKept rr → IsTold (with_conditions (observed c rr))
  unfolding observed
  report-IsTold rr k = at_ready-IsTold rr _ k refl
