-- ===== src/Api/Page.antt =====
-- Pagination by an opaque cursor: `paginate`, `paginateTuples`, `parseLimit`
-- (modules/operator/internal/apiserver/api.go). The two paginators are one text at two types; the
-- model shares it over the key of an entry.
pub mod Pages
pub mod Walk
use route_prism.Common.{
  ℕ, zero, suc, ◌+◌, ◌-◌, ◌*◌, ◌≤◌, min, Bool, not, ◌&&◌, Option, none, some, List, [], ◌∷◌, leb,
  ltb, if◌then◌else◌, length, get_or, get_last_or, take, drop, Str, str_eq, str_ltb, is_empty,
}
use route_prism.Common.Atoi.{digits_value}
use route_prism.Common.Search.{search_index}
use route_prism.Api.Cursor.{encode_cursor}

abbrev pub default_limit : ℕ
default_limit = 50

abbrev pub max_limit : ℕ
max_limit = 500

-- A positive `int`.
abbrev pub in_range : Option ℕ → Option ℕ
in_range none = none
in_range (some n) = if ltb 0 n && ltb n 9223372036854775808 then some n else none

-- The text without a leading `+`.
abbrev pub digits_of : Str → Str
digits_of s = if str_eq (take 1 s) (b'+' ∷ []) then drop 1 s else s

-- `strconv.Atoi` on a text that is not empty: a positive number, or `none` for an error, for zero
-- and for a negative number, which the callers treat alike. A number above the largest `int` is an
-- error too.
unfoldable pub positive_atoi : Str → Option ℕ
unfolding digits_value
positive_atoi s = if is_empty (digits_of s) then none else in_range (digits_value 0 (digits_of s))

abbrev pub limit_of : Option ℕ → ℕ
limit_of none = default_limit
limit_of (some n) = min n max_limit

-- `parseLimit`
unfoldable pub parse_limit : Str → ℕ
unfolding positive_atoi
parse_limit s = if is_empty s then default_limit else limit_of (positive_atoi s)

module _ {ℓ} {A : Type ℓ} (key : A → Str) (d : A) where
  -- `startIdx`
  pub start_index : List A → Str → ℕ
  start_index sorted cursor =
      let i = search_index (length sorted) (λ k. not (str_ltb (key (get_or sorted k d)) cursor)) in
      if is_empty cursor
      then 0
      else if ltb i (length sorted) && str_eq (key (get_or sorted i d)) cursor
      then i + 1
      else i

  -- The body of `paginate` and `paginateTuples`: the page and the next cursor.
  pub paginate_by : List A → Str → ℕ → List A × Str
  unfolding start_index
  paginate_by sorted cursor limit =
      let start = start_index sorted cursor in
      let end = min (start + limit) (length sorted) in
      let page = take (end - start) (drop start sorted) in
      if leb (length sorted) start then ([], []) else (
        page,
        if ltb end (length sorted) && ltb 0 (length page)
            then encode_cursor (key (get_last_or page d))
            else [],
      )

-- `paginate`
unfoldable pub paginate : List Str → Str → ℕ → List Str × Str
unfolding paginate_by
paginate = paginate_by (λ s. s) []
