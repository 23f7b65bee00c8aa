-- ===== src/Api/Filter.antt =====
-- The query filter of the list endpoints: `filter`, `filter.apply` and `subseqMatch`
-- (modules/operator/internal/apiserver/api.go).
pub mod Subseq
pub mod Ranges
pub mod Exact
use route_prism.Common.{
  ℕ, zero, suc, ◌+◌, ◌-◌, Bool, not, ◌&&◌, List, [], ◌∷◌, leb, ltb, ◌==◌, if◌then◌else◌, length,
  get_or, take, drop, Str, str_eq, has_prefix, to_lower, is_empty,
}
use route_prism.Common.Search.{search_index, search_strings}

-- `filter`; an empty string means that the parameter is not given.
pub record Filter : Type 0 where
  pub equals : Str
  pub startswith : Str
  pub fuzzy : Str

-- The loop of `subseqMatch` over the bytes of `s`; what is left of the pattern stands for `i`.
pub subseq_rest : Str → Str → Str
subseq_rest s [] = []
subseq_rest [] (p ∷ ps) = p ∷ ps
subseq_rest (c ∷ s) (p ∷ ps) = subseq_rest s (if c == p then ps else p ∷ ps)

pub subseq_match : Str → Str → Bool
unfolding subseq_rest
subseq_match s pattern = is_empty (subseq_rest s pattern)

-- `sorted[lo:hi]`
abbrev pub slice : List Str → ℕ → ℕ → List Str
slice sorted lo hi = take (hi - lo) (drop lo sorted)

-- `lo` and `hi` after the two binary searches of the prefix narrowing.
pub range_lo : Filter → List Str → ℕ
range_lo f sorted = if is_empty f.startswith then 0 else search_strings sorted f.startswith

pub range_hi : Filter → List Str → ℕ
range_hi f sorted =
    let lo = range_lo f sorted in
    if is_empty f.startswith
    then length sorted
    else lo
      + search_index (length sorted - lo)
          (λ j. not (has_prefix (get_or sorted (lo + j) []) f.startswith))

-- The loop of the fuzzy filter, with `n` rounds left, at index `j`.
pub fuzzy_loop : List Str → List Str → Str → ℕ → ℕ → List Str
fuzzy_loop sorted lower fuzzy zero j = []
fuzzy_loop sorted lower fuzzy (suc n) j =
    let rest = fuzzy_loop sorted lower fuzzy n (j + 1) in
    if subseq_match (get_or lower j []) fuzzy then get_or sorted j [] ∷ rest else rest

-- The branch of `equals`, within the window from `lo` up to `hi`.
pub equals_in : List Str → Str → ℕ → ℕ → List Str
equals_in sorted e lo hi =
    let idx = search_strings sorted e in
    if leb lo idx && ltb idx hi && ltb idx (length sorted) && str_eq (get_or sorted idx []) e
    then slice sorted idx (idx + 1)
    else []

-- `filter.apply`
pub apply : Filter → List Str → List Str → List Str
unfolding range_lo range_hi equals_in
apply f sorted lower =
    let lo = range_lo f sorted in
    let hi = range_hi f sorted in
    if not (is_empty f.equals)
    then equals_in sorted f.equals lo hi
    else if is_empty f.fuzzy
    then slice sorted lo hi
    else fuzzy_loop sorted lower (to_lower f.fuzzy) (hi - lo) lo
