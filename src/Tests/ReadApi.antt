-- ===== src/Tests/ReadApi.antt =====
-- The read API on a small snapshot.
use route_prism.Common.{
  ◌≡◌, ◌↔◌, refl, true, none, some, List, [], ◌∷◌, map, filter, Str, codes, to_lower, all, ltb,
  arith,
}
use route_prism.Common.Strict.{IsStrict}
use route_prism.Api.Filter.{Filter, subseq_match, apply}
use route_prism.Api.Filter.Subseq.{Subseq, subseq_match_iff}
use route_prism.Api.Filter.Ranges.{str_key}
use route_prism.Api.Filter.Exact.{accepts, apply-eq-filter}
use route_prism.Api.Cursor.{encode_cursor, decode_cursor, decode_cursor-encode_cursor, IsBytes}
use route_prism.Api.Page.Walk.{walk, walk-all, walk-doubled}

abbrev targets : List Str
targets = codes "demo.billing" ∷ codes "demo.orders" ∷ codes "shop.orders" ∷ []

abbrev demo_rd : Filter
demo_rd = record { equals = []; startswith = codes "demo."; fuzzy = codes "RD" }

targets-IsStrict : IsStrict str_key targets
targets-IsStrict = ((refl, (refl, tt)), ((refl, tt), (tt, tt)))

apply-eq-filter_example :
    apply demo_rd targets (map to_lower targets) ≡ filter (accepts demo_rd) targets
apply-eq-filter_example = apply-eq-filter demo_rd targets targets-IsStrict

billing : Filter
billing = record { equals = codes "demo.billing"; startswith = []; fuzzy = codes "b" }

subseq_match_iff_example :
    (subseq_match (codes "shop.orders") (codes "sod") ≡ true)
    ↔ Subseq (codes "sod") (codes "shop.orders")
subseq_match_iff_example = subseq_match_iff (codes "shop.orders") (codes "sod")

pub IsBytes-of_all : (s : Str) → all (λ c. ltb c 256) s ≡ true → IsBytes s
IsBytes-of_all [] h = tt
IsBytes-of_all (c ∷ s) h = (ground arith, IsBytes-of_all s (ground arith))

decode_cursor-encode_cursor_example :
    decode_cursor (encode_cursor (codes "demo.orders")) ≡ codes "demo.orders"
decode_cursor-encode_cursor_example =
    decode_cursor-encode_cursor (codes "demo.orders") (IsBytes-of_all (codes "demo.orders") refl)

walk-all_example : walk str_key [] 2 4 targets [] ≡ some targets
walk-all_example =
    walk-all str_key [] 2 targets targets-IsStrict
      (
        (refl, IsBytes-of_all (codes "demo.billing") refl),
        (
          (refl, IsBytes-of_all (codes "demo.orders") refl),
          ((refl, IsBytes-of_all (codes "shop.orders") refl), tt),
        ),
      )
      (omega arith)

-- Two ContextRoutes on one Service with different routing keys give each of its tuples twice.
walk-doubled_example :
    walk str_key [] 1 10
      (codes "demo/orders:." ∷ codes "demo/orders:." ∷ codes "demo/orders:v2" ∷ [])
      []
    ≡ none
walk-doubled_example =
    walk-doubled str_key [] (codes "demo/orders:.") (codes "demo/orders:.") (codes "demo/orders:v2")
      [] 10 ((refl, (refl, tt)), ((refl, tt), (tt, tt))) refl refl
      (IsBytes-of_all (codes "demo/orders:.") refl)
