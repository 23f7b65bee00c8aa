-- ===== src/ContextRoute/Beaten.antt =====
-- What becomes of a ContextRoute that has lost its target to another one.
use route_prism.Common.{
  ◌≡◌, refl, sym, ◌∙◌, Bool, true, false, Option, none, some, List, [], ◌∷◌, Str, if◌then◌else◌,
  str_eq, is_empty, codes, not, ap, ◌⊎◌, inl, inr,
}
use route_prism.Kube.Meta.{Service, contains_str}
use route_prism.Kube.Types.{ContextRoute}
use route_prism.Kube.Reconcile.{
  ApiError, not_found, other, Res, ok, Act, ReconcileResult, check, return, emit, pure, ◌>>=◌, ◌>>◌,
}
use route_prism.Kube.Goes.{
  Goes, Goes-pure, Goes-check_res, Goes-else, Goes-emit, Goes-bind, Stops, Stops-return,
  Stops-finish, Stops-first, Stops-second,
}
use route_prism.Render.{finalizer_cr, http_route_name_for_cr, render_cr_http_route}
use route_prism.Election.{resolve_owner}
use route_prism.ContextRoute.Client.{Write, update_status, delete_http_route, Client}
use route_prism.ContextRoute.Steps.{
  set_ready_condition, record_event, finish_status, with_conflict, delete_owned_http_route,
  check_delete, handle_deletion_and_finalizer, check_conflicts,
}
use route_prism.ContextRoute.Reconciler.{fetched, with_target, reconcile, run}

-- The ContextRoute when its deletion has been asked for.
abbrev pub as_deleted : ContextRoute → ContextRoute
as_deleted cr = record cr { meta = record cr.meta { deleting = true } }

-- The same answers in a later run, but for the ContextRoute.
abbrev pub with_route : Client → ContextRoute → Client
with_route c cr = record c { get_context_route = λ namespace name. ok cr }

abbrev pub lost : Client → ContextRoute → ContextRoute → ContextRoute
lost c cr winner =
    set_ready_condition (with_conflict c (with_target c cr) (some winner.name)) false
      (codes "Conflict")

module _ (c : Client) where
  Goes-fetched : (r : Res ContextRoute) (cr : ContextRoute) → r ≡ ok cr → Goes (fetched r) cr []
  unfolding fetched
  Goes-fetched r cr e = rw e (Goes-pure cr)

  conflict_Stops :
      (cr winner : ContextRoute) (peers : List ContextRoute)
      → c.has_recorder ≡ false
      → c.list_context_routes cr.namespace ≡ ok peers
      → resolve_owner cr.target peers ≡ some winner
      → str_eq winner.name cr.name ≡ false
      → Stops (check_conflicts c (with_target c cr)) (update_status (lost c cr winner) ∷ [])
  unfolding check_conflicts record_event finish_status
  conflict_Stops cr winner peers quiet peers_read elected beaten =
      Stops-second _ _ (Goes-check_res _ peers peers_read) (
        rw (elected, beaten)
          (Stops-second _ _ (Goes-else c.has_recorder _ _ quiet (Goes-pure tt))
            (Stops-second _ _ (Goes-emit _) (Stops-finish _))))

  alive_Goes :
      (cr : ContextRoute)
      → cr.deleting ≡ false
      → contains_str finalizer_cr cr.meta.finalizers ≡ true
      → Goes (handle_deletion_and_finalizer c cr) tt []
  unfolding handle_deletion_and_finalizer
  alive_Goes cr alive held = Goes-else cr.deleting _ _ alive (
      Goes-else (not (contains_str finalizer_cr cr.meta.finalizers)) _ _ (ap not held)
        (Goes-pure tt))

  -- The writes of a run that ends.
  stopped_writes :
      (namespace name : Str) (ws : List Write)
      → Stops (reconcile c namespace name) ws
      → (run c namespace name).1 ≡ ws
  unfolding run
  stopped_writes namespace name ws h = let (r, e) = h.at [] in ap (λ p. p.1) e

  run-lost :
      (namespace name : Str) (cr winner : ContextRoute) (peers : List ContextRoute)
      → c.has_recorder ≡ false
      → c.get_context_route namespace name ≡ ok cr
      → cr.deleting ≡ false
      → contains_str finalizer_cr cr.meta.finalizers ≡ true
      → c.list_context_routes cr.namespace ≡ ok peers
      → resolve_owner cr.target peers ≡ some winner
      → str_eq winner.name cr.name ≡ false
      → (run c namespace name).1 ≡ update_status (lost c cr winner) ∷ []
  unfolding reconcile
  run-lost namespace name cr winner peers quiet read alive held peers_read elected beaten =
      stopped_writes namespace name _ (
        Stops-second _ _ (Goes-fetched _ cr read) (
          Stops-second _ _ (alive_Goes cr alive held)
            (Stops-first _ _ (conflict_Stops cr winner peers quiet peers_read elected beaten))))

  after_delete : (o : Option ApiError) → Goes (check_delete c o) tt [] ⊎ Stops (check_delete c o) []
  after_delete none = inl (Goes-pure tt)
  after_delete (some not_found) = inl (Goes-pure tt)
  after_delete (some (other e)) = inr (Stops-return _)

  -- The run ends, and this is its first write.
  StopsAfter : {A : Type 0} → Act Write A → Write → Type 0
  StopsAfter m w = (rest : List Write) × Stops m (w ∷ rest)

  if_StopsAfter :
      {A : Type 0} (b : Bool) (m n : Act Write A) (w : Write)
      → b ≡ true
      → StopsAfter m w
      → StopsAfter (if b then m else n) w
  if_StopsAfter b m n w e h = rw e h

  first_deleted :
      {A : Type 0} (b : Bool) (w : Write) (f : Unit {0} → Act Write A) (ws : List Write)
      → b ≡ false
      → Stops (f tt) ws
      → StopsAfter ((if b then pure tt else (do emit w; check_delete c (c.write w))) >>= f) w
  unfolding StopsAfter
  first_deleted b w f ws e h = rw e (elim (after_delete (c.write w)) [
    | inl gone ↦ (ws, Stops-second _ _ (Goes-bind _ _ (Goes-emit w) gone) h)
    | inr failed ↦ ([], Stops-first _ _ (Stops-second _ _ (Goes-emit w) failed))
  ])

  checked_end :
      {A : Type 0} (o : Option ApiError) (r : Res ReconcileResult)
      → Stops {W = Write} {A = A} (do check o; return r) []
  unfolding check
  checked_end none r = Stops-second _ _ (Goes-pure tt) (Stops-return r)
  checked_end (some e) r = Stops-first _ _ (Stops-return _)

  -- A run for a ContextRoute that is being deleted deletes the route of its last target first.
  delete_Stops :
      (cr : ContextRoute)
      → cr.deleting ≡ true
      → contains_str finalizer_cr cr.meta.finalizers ≡ true
      → is_empty cr.status.target_service ≡ false
      → StopsAfter
          (handle_deletion_and_finalizer c cr)
          (delete_http_route (http_route_name_for_cr cr.status.target_service) cr.namespace)
  unfolding handle_deletion_and_finalizer delete_owned_http_route
  delete_Stops cr deleting held named = if_StopsAfter cr.deleting _ _ _ deleting (
      if_StopsAfter _ _ _ _ held (
        first_deleted (is_empty cr.status.target_service) _ _ _ named
          (Stops-second _ _ (Goes-emit _) (checked_end _ _))))

-- A ContextRoute that is not being deleted and has its finalizer loses its target, which has a name, to
-- another one, by name, in a run without a recorder. The run writes only a status that names the
-- target all the same. So when it is deleted afterwards, with that status and otherwise the same
-- answers, the first write deletes the HTTPRoute that is rendered for the winner on that target.
pub beaten_deletes :
    (c : Client) (namespace name : Str) (cr winner : ContextRoute) (peers : List ContextRoute)
    (target : Service) (variants : List Service) (all : Bool)
    → c.has_recorder ≡ false
    → c.get_context_route namespace name ≡ ok cr
    → cr.deleting ≡ false
    → contains_str finalizer_cr cr.meta.finalizers ≡ true
    → c.list_context_routes cr.namespace ≡ ok peers
    → resolve_owner cr.target peers ≡ some winner
    → str_eq winner.name cr.name ≡ false
    → is_empty cr.target ≡ false
    → target.name ≡ cr.target
    → target.namespace ≡ cr.namespace
    → (after : ContextRoute) × (rest : List Write) × ((run c namespace name).1
        ≡ update_status after ∷ [])
      × ((run (with_route c (as_deleted after)) namespace name).1
          ≡ delete_http_route
              (render_cr_http_route winner target variants all).name
              (render_cr_http_route winner target variants all).namespace
            ∷ rest)
unfolding reconcile set_ready_condition render_cr_http_route StopsAfter
beaten_deletes c namespace name cr winner peers target variants all quiet read alive held peers_read
      elected beaten named same_name same_namespace =
    let d = with_route c (as_deleted (lost c cr winner)) in
    let (rest, h) = delete_Stops d (as_deleted (lost c cr winner)) refl held named in
    let by_name = sym same_name in
    let by_namespace = sym same_namespace in
    (
      lost c cr winner,
      rest,
      run-lost c namespace name cr winner peers quiet read alive held peers_read elected beaten,
      stopped_writes d namespace name _
            (Stops-second _ _ (Goes-fetched d _ _ refl) (Stops-first _ _ h))
          ∙ (λ i. delete_http_route (http_route_name_for_cr (by_name i)) (by_namespace i) ∷ rest),
    )
