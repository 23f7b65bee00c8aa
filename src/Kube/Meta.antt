-- ===== src/Kube/Meta.antt =====
-- Object metadata, label maps, conditions, and services. They belong to the Kubernetes libraries;
-- only their fields are used.
use route_prism.Common.{
  ℕ, Bool, not, Option, List, [], ◌∷◌, ◌++◌, if◌then◌else◌, any, filter, Str, str_eq,
}

-- A label or annotation map, in some order of its entries.
abbrev pub Labels : Type 0
Labels = List (Str × Str)

-- `m[k]`, the empty string for a missing key.
unfoldable pub label_of : Str → Labels → Str
label_of k [] = []
label_of k ((j, v) ∷ m) = if str_eq j k then v else label_of k m

-- An owner reference with its two pointers to `bool`.
pub record OwnerReference : Type 0 where
  pub api_version : Str
  pub kind : Str
  pub name : Str
  pub uid : Str
  pub controller : Option Bool
  pub block_owner_deletion : Option Bool

-- `creation` is the creation time in seconds, and `deleting` says that there is a deletion time.
pub record ObjectMeta : Type 0 where
  pub name : Str
  pub namespace : Str
  pub uid : Str
  pub creation : ℕ
  pub deleting : Bool
  pub generation : ℕ
  pub finalizers : List Str
  pub labels : Labels
  pub owner_references : List OwnerReference

pub data ConditionStatus : Type 0 where
  condition_true condition_false condition_unknown : ConditionStatus

-- A condition without its message and its transition time.
pub record Condition : Type 0 where
  pub type_name : Str
  pub status : ConditionStatus
  pub reason : Str
  pub observed_generation : ℕ

-- The requirements of `matchExpressions` are kept as texts.
pub record LabelSelector : Type 0 where
  pub match_labels : Labels
  pub match_expressions : List Str

pub record ServicePort : Type 0 where
  pub port : ℕ
  pub app_protocol : Option Str

pub record Service : Type 0 where
  pub meta : ObjectMeta
  pub open meta use {name, namespace, labels}
  pub service_type : Str
  pub cluster_ip : Str
  pub ports : List ServicePort

-- `slices.Contains`, and `controllerutil.ContainsFinalizer` on the list of finalizers.
unfoldable pub contains_str : Str → List Str → Bool
contains_str s xs = any (λ x. str_eq x s) xs

-- The loop that the three `set…Condition` functions share: conditions of the type go, and the new
-- one is appended.
unfoldable pub upsert_condition : Condition → List Condition → List Condition
upsert_condition c cs = filter (λ o. not (str_eq o.type_name c.type_name)) cs ++ c ∷ []
