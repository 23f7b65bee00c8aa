-- ===== src/Index/Types.antt =====
-- The snapshot and what it is made of.
use route_prism.Common.{Bool, Option, List, [], Str, codes}
use route_prism.Kube.Meta.{Labels, LabelSelector, Service}
use route_prism.Kube.Types.{ContextRoute, EdgeTransformation, RemoteRoute}
use route_prism.Kube.Reconcile.{Res}

-- `SelfAlternative`
abbrev pub self_alternative : Str
self_alternative = codes "."

pub record TupleEntry : Type 0 where
  pub service : Str
  pub alternative : Str
  pub self : Bool
  pub tuple : Str
  pub routing_key : Str
  pub source_cookie : Str
  pub remote : Bool
  pub reachable : Option Bool

pub record AltEntry : Type 0 where
  pub list : List Str
  pub lower : List Str

pub record TargetMeta : Type 0 where
  pub routing_key : Str
  pub source_cookie : Str

-- `remoteFlag`, and `rrInfo` of `Rebuild`, which converts to it.
pub record RemoteFlag : Type 0 where
  pub reachable : Option Bool

pub record Snapshot : Type 0 where
  pub targets : List Str
  pub targets_lower : List Str
  pub alt_by_target : List (Str × AltEntry)
  pub meta_by_target : List (Str × TargetMeta)
  pub remote_by_alt : List (Str × RemoteFlag)
  pub has_remote_by_target : List (Str × Bool)
  pub tuples : List TupleEntry
  pub tuples_lower : List Str

-- `emptySnapshot`
abbrev pub empty_snapshot : Snapshot
empty_snapshot = record {
  targets = [];
  targets_lower = [];
  alt_by_target = [];
  meta_by_target = [];
  remote_by_alt = [];
  has_remote_by_target = [];
  tuples = [];
  tuples_lower = [];
}

-- The answers of the cached client during one rebuild. `range_keys` and `range_owners` are the
-- orders in which the two loops over the map of owners run.
pub record Source : Type 0 where
  pub list_context_routes : Res (List ContextRoute)
  pub list_edge_transformations : Res (List EdgeTransformation)
  pub list_remote_routes : Res (List RemoteRoute)
  pub list_services : (namespace : Str) → (Labels → Bool) → Res (List Service)
  pub as_selector : LabelSelector → Option (Labels → Bool)
  pub range_keys : List Str → List Str
  pub range_owners : List (Str × ContextRoute) → List (Str × ContextRoute)
