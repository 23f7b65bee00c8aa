-- ===== src/Api/Handlers.antt =====
-- The handlers: `handleListServices`, `handleListAlternatives`, `handleListTuples` and what they
-- answer (modules/operator/internal/apiserver/api.go), over the snapshot that a request loads.
pub mod Endpoints
use route_prism.Common.{
  ℕ, Bool, true, false, Option, none, some, List, [], ◌∷◌, ◌++◌, map, if◌then◌else◌, filter,
  contains, Str, str_eq, is_empty, to_lower,
}
use route_prism.Common.Assoc.{lookup}
use route_prism.Index.Types.{
  self_alternative, TupleEntry, AltEntry, TargetMeta, RemoteFlag, Snapshot,
}
use route_prism.Api.Filter.{Filter, apply}
use route_prism.Api.Cursor.{decode_cursor}
use route_prism.Api.Page.{parse_limit, paginate, paginate_by}

-- The parameters of a request, empty where they are not given: `q.Get(…)`. The tuple endpoint has
-- its pattern in `fuzzy`, the others in `target.fuzzy`.
pub record Query : Type 0 where
  pub limit : Str
  pub cursor : Str
  pub filter : Filter

pub record ServiceItem : Type 0 where
  pub target : Str
  pub translator : Str
  pub has_remote : Bool
  pub self : Bool
  pub remote : Bool
  pub reachable : Option Bool

pub record ListResponse : Type 0 where
  pub items : List ServiceItem
  pub next_cursor : Str
  pub routing_key : Str
  pub source_cookie : Str

pub record TupleListResponse : Type 0 where
  pub items : List TupleEntry
  pub next_cursor : Str

-- `writeJSON` and `writeError` with their status.
pub data Reply (A : Type 0) : Type 0 where
  status_ok : A → Reply A
  bad_request : Reply A
  not_found : Reply A

abbrev is_set : Option Bool → Bool
is_set none = false
is_set (some b) = b

abbrev cookie_of_meta : Option TargetMeta → Str
cookie_of_meta none = []
cookie_of_meta (some m) = m.source_cookie

abbrev key_of_meta : Str → Option TargetMeta → Str
key_of_meta target none = target
key_of_meta target (some m) = m.routing_key

-- An entry of `toServiceListResponse`.
abbrev pub service_item : Snapshot → Str → ServiceItem
service_item snap t = record {
  target = t;
  translator = cookie_of_meta (lookup t snap.meta_by_target);
  has_remote = is_set (lookup t snap.has_remote_by_target);
  self = false;
  remote = false;
  reachable = none;
}

-- `toServiceListResponse`
unfoldable pub to_service_list_response : Snapshot → List Str → Str → ListResponse
to_service_list_response snap page next_cursor = record {
  items = map (service_item snap) page;
  next_cursor = next_cursor;
  routing_key = [];
  source_cookie = [];
}

-- An alternative with the flag of the RemoteRoute behind it.
abbrev flagged_item : Str → Bool → Option RemoteFlag → ServiceItem
flagged_item t self none = record {
  target = t;
  translator = [];
  has_remote = false;
  self = self;
  remote = false;
  reachable = none;
}
flagged_item t self (some rf) = record {
  target = t;
  translator = [];
  has_remote = false;
  self = self;
  remote = true;
  reachable = rf.reachable;
}

-- An entry of `toAlternativeListResponse`.
abbrev pub alternative_item : Snapshot → Str → Str → ServiceItem
alternative_item snap target t =
    if str_eq t self_alternative
    then flagged_item t true none
    else flagged_item t false (lookup (target ++ b':' ∷ t) snap.remote_by_alt)

-- `toAlternativeListResponse`, with the routing key and the cookie that the handler sets.
unfoldable pub to_alternative_list_response : Snapshot → Str → List Str → Str → ListResponse
to_alternative_list_response snap target page next_cursor = record {
  items = map (alternative_item snap target) page;
  next_cursor = next_cursor;
  routing_key = key_of_meta target (lookup target snap.meta_by_target);
  source_cookie = cookie_of_meta (lookup target snap.meta_by_target);
}

-- `handleListServices`
unfoldable pub list_services : Snapshot → Query → ListResponse
unfolding to_service_list_response
list_services snap q =
    let matched = apply q.filter snap.targets snap.targets_lower in
    let (page, next) = paginate matched (decode_cursor q.cursor) (parse_limit q.limit) in
    to_service_list_response snap page next

abbrev alternatives_of : Snapshot → Str → Query → Option AltEntry → Reply ListResponse
alternatives_of snap target q none = not_found
alternatives_of snap target q (some entry) =
    let matched = apply q.filter entry.list entry.lower in
    let (page, next) = paginate matched (decode_cursor q.cursor) (parse_limit q.limit) in
    status_ok (to_alternative_list_response snap target page next)

-- `handleListAlternatives`
unfoldable pub list_alternatives : Snapshot → Str → Query → Reply ListResponse
unfolding to_alternative_list_response
list_alternatives snap target q =
    if is_empty target
    then bad_request
    else alternatives_of snap target q (lookup target snap.alt_by_target)

-- The tuples whose lowercased copy contains the pattern.
unfoldable pub containing : Str → List TupleEntry → List Str → List TupleEntry
containing fuzzy (t ∷ ts) (low ∷ lows) =
    let rest = containing fuzzy ts lows in if contains low fuzzy then t ∷ rest else rest
containing fuzzy _ _ = []

abbrev pub no_tuple : TupleEntry
no_tuple = record {
  service = [];
  alternative = [];
  self = false;
  tuple = [];
  routing_key = [];
  source_cookie = [];
  remote = false;
  reachable = none;
}

-- `paginateTuples`
unfoldable pub paginate_tuples : List TupleEntry → Str → ℕ → List TupleEntry × Str
paginate_tuples = paginate_by (λ t. t.tuple) no_tuple

-- `handleListTuples`
unfoldable pub list_tuples : Snapshot → Query → TupleListResponse
unfolding containing paginate_tuples
list_tuples snap q =
    let fuzzy = to_lower q.filter.fuzzy in
    let filtered =
      if is_empty fuzzy then snap.tuples else containing fuzzy snap.tuples snap.tuples_lower in
    let (page, next) = paginate_tuples filtered (decode_cursor q.cursor) (parse_limit q.limit) in
    record { items = page; next_cursor = next }
