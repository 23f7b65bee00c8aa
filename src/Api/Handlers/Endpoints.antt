-- ===== src/Api/Handlers/Endpoints.antt =====
-- What a client sees of the endpoints on a snapshot that a rebuild has made.
use route_prism.Common.{
  ℕ, zero, suc, ◌<◌, ◌≤◌, ◌≡◌, refl, ap, ◌∙◌, Bool, true, false, ◌&&◌, inl, inr, Option, none, some,
  List, [], ◌∷◌, map, arith, Bool-cases, if◌then◌else◌, filter, length, Str, is_empty, ltb,
}
use route_prism.Common.Strict.{IsStrict-filter}
use route_prism.Index.Types.{Snapshot}
use route_prism.Index.Sorted.{IsSnapshot}
use route_prism.Api.Filter.{apply}
use route_prism.Api.Filter.Exact.{accepts, apply-eq-filter}
use route_prism.Api.Cursor.{decode_cursor, decode_cursor-empty}
use route_prism.Common.Atoi.{digits_value}
use route_prism.Api.Page.{digits_of, positive_atoi, in_range, limit_of, parse_limit, paginate}
use route_prism.Api.Page.Pages.{after, page_of, paginate_by_lem}
use route_prism.Api.Page.Walk.{walk, follow, HasCursors, walk-all}
use route_prism.Api.Handlers.{Query, service_item, to_service_list_response, list_services}

limit_of-bounds : (o : Option ℕ) → (0 < limit_of (in_range o)) × (limit_of (in_range o) ≤ 500)
limit_of-bounds none = (omega arith, omega arith)
limit_of-bounds (some n) = elim (Bool-cases (ltb 0 n && ltb n 9223372036854775808)) [
  | inl e ↦ rw e (ground arith, ground arith)
  | inr e ↦ rw e (omega arith, omega arith)
]

limit_of_if-bounds :
    (b : Bool) (o : Option ℕ)
    → (0 < limit_of (if b then none else in_range o))
      × (limit_of (if b then none else in_range o) ≤ 500)
limit_of_if-bounds true o = limit_of-bounds none
limit_of_if-bounds false o = limit_of-bounds o

-- The limit of a request is between 1 and 500, whatever text the client sends.
pub parse_limit-bounds : (s : Str) → (0 < parse_limit s) × (parse_limit s ≤ 500)
unfolding parse_limit positive_atoi
parse_limit-bounds s = elim (Bool-cases (is_empty s)) [
  | inl e ↦ rw e (omega arith, omega arith)
  | inr e ↦ rw e (limit_of_if-bounds (is_empty (digits_of s)) (digits_value 0 (digits_of s)))
]

matched :
    (snap : Snapshot) (q : Query)
    → IsSnapshot snap
    → apply q.filter snap.targets snap.targets_lower ≡ filter (accepts q.filter) snap.targets
matched snap q made =
    ap (apply q.filter snap.targets) made.lower_of_targets
    ∙ apply-eq-filter q.filter snap.targets made.targets_strict

map-target :
    (snap : Snapshot) (page : List Str) → map (λ i. i.target) (map (service_item snap) page) ≡ page
map-target snap [] = refl
map-target snap (t ∷ ts) = ap (λ r. t ∷ r) (map-target snap ts)

-- The page of `/api/v1/service`: the first accepted targets above the cursor, and the cursor of the
-- last one if more are left.
pub list_services_lem :
    (snap : Snapshot) (q : Query)
    → IsSnapshot snap
    → (map (λ i. i.target) (list_services snap q).items, (list_services snap q).next_cursor)
      ≡ page_of
          (λ s. s)
          []
          (parse_limit q.limit)
          (after (λ s. s) [] (decode_cursor q.cursor) (filter (accepts q.filter) snap.targets))
unfolding list_services to_service_list_response paginate
list_services_lem snap q made =
    let page =
      paginate_by_lem (λ s. s) [] _ (decode_cursor q.cursor) (parse_limit q.limit)
        (IsStrict-filter (λ s. s) (accepts q.filter) snap.targets made.targets_strict)
        (parse_limit-bounds q.limit).0 in
    rw (matched snap q made, page, map-target snap) refl

-- A client of `/api/v1/service` that follows the next cursor, for at most `n` requests: the targets
-- of all its pages, or `none` if the last page has a cursor still.
pub walk_services : ℕ → Snapshot → Query → Option (List Str)
walk_services zero snap q = none
walk_services (suc n) snap q =
    let reply = list_services snap q in
    follow (λ s. s) [] (map (λ i. i.target) reply.items) (is_empty reply.next_cursor)
      (walk_services n snap (record q { cursor = reply.next_cursor }))

walk_services_from :
    (n : ℕ) (snap : Snapshot) (q : Query)
    → IsSnapshot snap
    → walk_services n snap q
      ≡ walk
          (λ s. s)
          []
          (parse_limit q.limit)
          n
          (filter (accepts q.filter) snap.targets)
          (decode_cursor q.cursor)
unfolding walk_services walk list_services to_service_list_response paginate
walk_services_from zero snap q made = refl
walk_services_from (suc n) snap q made =
    rw (walk_services_from n snap _ made, matched snap q made, map-target snap) refl

-- A client that asks for the services of a snapshot, with any filter and any limit, and follows the
-- next cursor, gets exactly the accepted targets, each once and in order, within one request more
-- than there are accepted targets; the targets are byte strings and not empty.
pub walk_services-all :
    (snap : Snapshot) (q : Query)
    → IsSnapshot snap
    → HasCursors (λ s. s) [] (filter (accepts q.filter) snap.targets)
    → is_empty q.cursor ≡ true
    → walk_services (suc (length (filter (accepts q.filter) snap.targets))) snap q
      ≡ some (filter (accepts q.filter) snap.targets)
walk_services-all snap q made cursors start =
    let from : _ ≡ _ =
      walk_services_from (suc (length (filter (accepts q.filter) snap.targets))) snap q made in
    let strict = IsStrict-filter (λ s. s) (accepts q.filter) snap.targets made.targets_strict in
    from
    ∙ rw (decode_cursor-empty q.cursor start) (
        walk-all (λ s. s) [] (parse_limit q.limit) (filter (accepts q.filter) snap.targets) strict
          cursors (parse_limit-bounds q.limit).0)
