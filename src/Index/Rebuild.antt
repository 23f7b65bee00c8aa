-- ===== src/Index/Rebuild.antt =====
-- `Index.Rebuild` and `buildAltEntry`
use route_prism.Common.{
  Bool, true, false, not, ◌||◌, Option, none, some, List, [], ◌∷◌, ◌++◌, map, if◌then◌else◌, filter,
  Str, codes, str_eq, str_ltb, to_lower, is_empty,
}
use route_prism.Common.Sort.{sort_slice}
use route_prism.Common.SortStrict.{less_by}
use route_prism.Common.Assoc.{lookup, put, keys}
use route_prism.Kube.Meta.{Labels, Service, Condition, ConditionStatus, condition_true}
use route_prism.Kube.Types.{ContextRoute, EdgeTransformation, RemoteRoute, effective_routing_key}
use route_prism.Kube.Reconcile.{Res, ok, err}
use route_prism.Election.{beats}
use route_prism.Index.Types.{
  self_alternative, empty_snapshot, TupleEntry, AltEntry, RemoteFlag, Snapshot, Source,
}

-- `err != nil` ends the rebuild.
infixl 5 ◌>>=◌
abbrev pub ◌>>=◌ : {A B : Type 0} → Res A → (A → Res B) → Res B
err e >>= k = err e
ok a >>= k = k a

-- `cookieByService`
unfoldable pub cookie_by_service : List (Str × Str) → List EdgeTransformation → List (Str × Str)
cookie_by_service m [] = m
cookie_by_service m (et ∷ ets) =
    cookie_by_service
      (if et.deleting || is_empty et.spec.source_cookie
        then m
        else put (et.namespace ++ b'/' ∷ et.target) et.spec.source_cookie m)
      ets

abbrev is_true : ConditionStatus → Bool
is_true condition_true = true
is_true _ = false

-- The first condition `UpstreamReachable`.
abbrev reachable_of : List Condition → Option Bool
reachable_of [] = none
reachable_of (c ∷ cs) =
    if str_eq c.type_name (codes "UpstreamReachable")
    then some (is_true c.status)
    else reachable_of cs

-- `rrByNsName`
unfoldable pub rr_by_ns_name : List (Str × RemoteFlag) → List RemoteRoute → List (Str × RemoteFlag)
rr_by_ns_name m [] = m
rr_by_ns_name m (rr ∷ rrs) =
    rr_by_ns_name
      (if rr.deleting
        then m
        else put (rr.namespace ++ b'/' ∷ rr.name)
            (record { reachable = reachable_of rr.status.conditions }) m)
      rrs

-- `owners`, from the owners so far.
unfoldable pub owners : List (Str × ContextRoute) → List ContextRoute → List (Str × ContextRoute)
owners m [] = m
owners m (cr ∷ crs) =
    owners
      (if cr.deleting
        then m
        else if beats cr (lookup (effective_routing_key cr) m)
        then put (effective_routing_key cr) cr m
        else m)
      crs

abbrev alt_entry : List Str → AltEntry
alt_entry list = record { list = list; lower = map to_lower list }

abbrev alternatives : Str → List Service → AltEntry
alternatives target services = alt_entry (
    sort_slice str_ltb
      (self_alternative ∷ map (λ s. s.name) (filter (λ s. not (str_eq s.name target)) services)))

module _ (src : Source) where
  -- The entry for a selector, or for an invalid one.
  unfoldable pub alt_entry_of : ContextRoute → Option (Labels → Bool) → Res AltEntry
  alt_entry_of owner none = ok (alt_entry (self_alternative ∷ []))
  alt_entry_of owner (some sel) = do
    services ← src.list_services owner.namespace sel
    ok (alternatives owner.target services)

  -- `buildAltEntry`
  unfoldable pub build_alt_entry : ContextRoute → Res AltEntry
  unfolding alt_entry_of
  build_alt_entry owner = alt_entry_of owner (src.as_selector owner.spec.selector)

module _ (cookies : List (Str × Str)) (rrs : List (Str × RemoteFlag)) where
  abbrev string_or_empty : Option Str → Str
  string_or_empty none = []
  string_or_empty (some s) = s

  -- `owner.Namespace + "/" + owner.Spec.Target.Service.Name`
  abbrev pub service_of : ContextRoute → Str
  service_of owner = owner.namespace ++ b'/' ∷ owner.target

  abbrev pub cookie_of : ContextRoute → Str
  cookie_of owner = string_or_empty (lookup (service_of owner) cookies)

  -- The RemoteRoute behind an alternative, which the target itself has not.
  abbrev pub remote_of : ContextRoute → Str → Option RemoteFlag
  remote_of owner alt =
      if str_eq alt self_alternative then none else lookup (owner.namespace ++ b'/' ∷ alt) rrs

  abbrev is_some : Option RemoteFlag → Bool
  is_some none = false
  is_some (some f) = true

  abbrev reachable : Option RemoteFlag → Option Bool
  reachable none = none
  reachable (some f) = f.reachable

  unfoldable pub tuple_entry : Str → ContextRoute → Str → TupleEntry
  tuple_entry key owner alt = record {
    service = service_of owner;
    alternative = alt;
    self = str_eq alt self_alternative;
    tuple = service_of owner ++ b':' ∷ alt;
    routing_key = key;
    source_cookie = cookie_of owner;
    remote = is_some (remote_of owner alt);
    reachable = reachable (remote_of owner alt);
  }

  abbrev put_some : Str → Option RemoteFlag → List (Str × RemoteFlag) → List (Str × RemoteFlag)
  put_some k none m = m
  put_some k (some f) m = put k f m

  -- The maps and the tuples that the loop over the alternatives of one owner adds to.
  unfoldable pub add_alternatives : Str → ContextRoute → List Str → Snapshot → Snapshot
  unfolding tuple_entry
  add_alternatives key owner [] s = s
  add_alternatives key owner (alt ∷ alts) s =
      let remote = remote_of owner alt in
      add_alternatives key owner alts (record s {
        remote_by_alt = put_some (key ++ b':' ∷ alt) remote s.remote_by_alt;
        has_remote_by_target =
            if is_some remote then put key true s.has_remote_by_target else s.has_remote_by_target;
        tuples = s.tuples ++ tuple_entry key owner alt ∷ [];
      })

  -- The body of the loop over the owners.
  unfoldable pub add_owner : Str → ContextRoute → AltEntry → Snapshot → Snapshot
  unfolding add_alternatives
  add_owner key owner entry s = add_alternatives key owner entry.list (record s {
    alt_by_target = put key entry s.alt_by_target;
    meta_by_target =
        put key (record { routing_key = key; source_cookie = cookie_of owner }) s.meta_by_target;
  })

  unfoldable pub add_owners : Source → List (Str × ContextRoute) → Snapshot → Res Snapshot
  unfolding add_owner
  add_owners src [] s = ok s
  add_owners src ((key, owner) ∷ rest) s = do
    entry ← build_alt_entry src owner
    add_owners src rest (add_owner key owner entry s)

-- The keys that the rebuild sorts, and their lowercased copies, begin the snapshot.
abbrev pub with_targets : List Str → Snapshot
with_targets targets = record empty_snapshot {
  targets = targets;
  targets_lower = map to_lower targets;
}

-- Sorts the tuples and adds their lowercased copies.
unfoldable pub with_sorted_tuples : Snapshot → Snapshot
with_sorted_tuples s =
    let tuples = sort_slice (less_by (λ t. t.tuple)) s.tuples in
    record s { tuples = tuples; tuples_lower = map (λ t. to_lower t.tuple) tuples }

-- The snapshot that a rebuild makes of the three lists.
unfoldable pub build :
    Source → List ContextRoute → List EdgeTransformation → List RemoteRoute → Res Snapshot
unfolding owners cookie_by_service rr_by_ns_name add_owners with_sorted_tuples
build src crs ets rrs = do
  s ←
      add_owners (cookie_by_service [] ets) (rr_by_ns_name [] rrs) src
        (src.range_owners (owners [] crs))
        (with_targets (sort_slice str_ltb (src.range_keys (keys (owners [] crs)))))
  ok (with_sorted_tuples s)

-- `Rebuild` without its lock: the new snapshot or an error.
unfoldable pub rebuilt : Source → Res Snapshot
unfolding build
rebuilt src = do
  crs ← src.list_context_routes
  ets ← src.list_edge_transformations
  rrs ← src.list_remote_routes
  build src crs ets rrs

-- The snapshot that the index holds after a rebuild: after an error it is the old one.
unfoldable pub rebuild : Source → Snapshot → Snapshot
unfolding rebuilt
rebuild src old = elim (rebuilt src) [ ok s ↦ s | err e ↦ old ]
