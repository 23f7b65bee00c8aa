-- ===== src/Api/Filter/Exact.antt =====
-- `filter.apply` against a plain linear filter.
use route_prism.Common.{
  ℕ, zero, suc, ◌+◌, ◌-◌, ◌≤◌, ◌<◌, ◌≡◌, refl, sym, ap, ◌∙◌, Bool, true, false, ◌&&◌, inl, inr,
  List, [], ◌∷◌, map, arith, Bool-cases, if◌then◌else◌, leb, ltb, length, get_or, take, drop,
  filter, All, Str, str_eq, str_ltb, has_prefix, to_lower, is_empty, get_or-drop, length-drop,
  drop-cons, filter-All, filter-congr, filter-none, filter-filter, All-intro, take_of_le,
  ltb-prefix, str_eq_iff, str_ltb_irrefl,
}
use route_prism.Common.Search.{
  search_strings, first_true, first_true-le-length, first_true-le, of_first_true-le,
}
use route_prism.Common.Strict.{IsSorted, IsStrict, IsStrict-IsSorted}
use route_prism.Api.Filter.{
  Filter, subseq_match, slice, range_lo, range_hi, fuzzy_loop, equals_in, apply,
}
use route_prism.Api.Filter.Ranges.{
  str_key, not_below, no_prefix, search_strings-eq-first_true, range_lo_lem, range_hi_lem,
  drop-range_lo-IsUpward, slice-eq-filter,
}

-- What a request asks for: the prefix, and either equality or a fuzzy match.
abbrev pub accepts : Filter → Str → Bool
accepts f x =
    has_prefix x f.startswith
    && (if is_empty f.equals
        then subseq_match (to_lower x) (to_lower f.fuzzy)
        else str_eq x f.equals)

has_prefix-empty : (x s : Str) → is_empty s ≡ true → has_prefix x s ≡ true
has_prefix-empty x [] h = refl
has_prefix-empty x (c ∷ s) h = cc

subseq_match-empty : (x s : Str) → is_empty s ≡ true → subseq_match x (to_lower s) ≡ true
unfolding subseq_match
subseq_match-empty x [] h = refl
subseq_match-empty x (c ∷ s) h = cc

get_or-to_lower :
    (xs : List Str) (j : ℕ) → get_or (map to_lower xs) j [] ≡ to_lower (get_or xs j [])
get_or-to_lower [] j = refl
get_or-to_lower (x ∷ xs) zero = refl
get_or-to_lower (x ∷ xs) (suc j) = get_or-to_lower xs j

fuzzy_loop-eq-filter :
    (xs : List Str) (fuzzy : Str) (n j : ℕ)
    → j + n ≤ length xs
    → fuzzy_loop xs (map to_lower xs) fuzzy n j
      ≡ filter (λ x. subseq_match (to_lower x) fuzzy) (take n (drop j xs))
unfolding fuzzy_loop
fuzzy_loop-eq-filter xs fuzzy zero j h = refl
fuzzy_loop-eq-filter xs fuzzy (suc n) j h =
    rw
      (
        drop-cons j xs [] (omega arith),
        get_or-to_lower xs j,
        fuzzy_loop-eq-filter xs fuzzy n (j + 1) (omega arith),
      )
      (ground arith)

module _ (f : Filter) (xs : List Str) (sorted : IsSorted str_key xs) where
  -- The window lies within the list.
  pub range_bounds : (range_lo f xs ≤ range_hi f xs) × (range_hi f xs ≤ length xs)
  range_bounds = elim (Bool-cases (is_empty f.startswith)) [
    | inl e ↦ unfold range_lo range_hi in rw e (omega arith, omega arith)
    | inr e ↦ rw (range_hi_lem f xs sorted e) (
        omega (
          arith,
          first_true-le-length (no_prefix f.startswith) [] (drop (range_lo f xs) xs),
          length-drop (range_lo f xs) xs,
          range_lo_lem f xs sorted e,
          first_true-le-length (not_below f.startswith) [] xs,
        ))
  ]

  slice-eq-filter_any :
      slice xs (range_lo f xs) (range_hi f xs) ≡ filter (λ x. has_prefix x f.startswith) xs
  slice-eq-filter_any = elim (Bool-cases (is_empty f.startswith)) [
    | inr e ↦ slice-eq-filter f xs sorted e
    | inl e ↦
        unfold range_lo range_hi in
        rw e (
          take_of_le (length xs - 0) xs (omega arith)
          ∙ sym (filter-All _ xs (All-intro _ (λ x. has_prefix-empty x f.startswith e) xs)))
  ]

  -- Which positions the window covers, where a prefix is asked for.
  in_window :
      (i : ℕ)
      → is_empty f.startswith ≡ false
      → i < length xs
      → (leb (range_lo f xs) i && ltb i (range_hi f xs)) ≡ has_prefix (get_or xs i []) f.startswith
  in_window i e l =
      let s = f.startswith in
      let lo = range_lo f xs in
      let x = get_or xs i [] in
      let n = first_true (no_prefix s) (drop lo xs) in
      let hi-eq : range_hi f xs ≡ lo + n = range_hi_lem f xs sorted e in
      let lo-eq : lo ≡ first_true (not_below s) xs = range_lo_lem f xs sorted e in
      elim (Bool-cases (leb lo i)) [
        | inr before ↦
            let below : str_ltb x s ≡ true =
              ground (arith, first_true-le (not_below s) [] xs i l) in
            rw before (ground (arith, ltb-prefix x s))
        | inl after ↦
            let shift : lo + (i - lo) ≡ i = ground arith in
            let same : get_or (drop lo xs) (i - lo) [] ≡ x =
              get_or-drop lo (i - lo) xs [] ∙ ap (λ k. get_or xs k []) shift in
            let short : i - lo < length (drop lo xs) = rw (length-drop lo xs) (ground arith) in
            rw (after, hi-eq)
              (ground (
                arith,
                same,
                ap (no_prefix s) same,
                first_true-le (no_prefix s) [] (drop lo xs) (i - lo) short,
                of_first_true-le (no_prefix s) [] (drop lo xs) (i - lo)
                    (drop-range_lo-IsUpward f xs sorted e) short,
              ))
      ]

above-ne :
    (e x : Str) (ys : List Str)
    → str_ltb x e ≡ false
    → All (λ y. str_ltb x y ≡ true) ys
    → All (λ y. str_eq y e ≡ false) ys
above-ne e x [] h a = tt
above-ne e x (y ∷ ys) h (a, as') = (
  elim (Bool-cases (str_eq y e)) [ inr k ↦ k | inl k ↦ cc (h, rw ((str_eq_iff y e).0 k) at a) ],
  above-ne e x ys h as',
)

-- In a strictly sorted list the first element not below `e` decides whether `e` is there.
filter-eq :
    (e : Str) (xs : List Str)
    → IsStrict str_key xs
    → filter (λ x. str_eq x e) xs ≡ (
        if ltb (first_true (not_below e) xs) (length xs)
          && str_eq (get_or xs (first_true (not_below e) xs) []) e
        then get_or xs (first_true (not_below e) xs) [] ∷ []
        else [])
filter-eq e [] h = refl
filter-eq e (x ∷ xs) (h, hs) = elim (Bool-cases (str_ltb x e)) [
  | inl below ↦ ground (arith, filter-eq e xs hs, str_eq_iff x e, str_ltb_irrefl x)
  | inr above ↦
      rw (above, filter-none (λ y. str_eq y e) xs (above-ne e x xs above h)) (ground arith)
]

slice-one : (xs : List Str) (i : ℕ) → i < length xs → slice xs i (i + 1) ≡ get_or xs i [] ∷ []
slice-one xs i h = let one : i + 1 - i ≡ 1 = omega arith in rw (drop-cons i xs [] h, one)

filter-and :
    (p q : Str → Bool) (xs : List Str) → filter (λ x. p x && q x) xs ≡ filter p (filter q xs)
filter-and p q [] = refl
filter-and p q (x ∷ xs) = ground (arith, filter-and p q xs)

module _ (f : Filter) (xs : List Str) (strict : IsStrict str_key xs) where
  in_window_any :
      (i : ℕ)
      → i < length xs
      → (leb (range_lo f xs) i && ltb i (range_hi f xs)) ≡ has_prefix (get_or xs i []) f.startswith
  in_window_any i l = elim (Bool-cases (is_empty f.startswith)) [
    | inr e ↦ in_window f xs (IsStrict-IsSorted str_key xs strict) i e l
    | inl e ↦
        rw (has_prefix-empty (get_or xs i []) f.startswith e)
          (unfold range_lo range_hi in rw e (ground arith))
  ]

  equals_in-eq-filter :
      (e : Str)
      → equals_in xs e (range_lo f xs) (range_hi f xs)
        ≡ filter (λ x. has_prefix x f.startswith && str_eq x e) xs
  unfolding equals_in
  equals_in-eq-filter e =
      let i = first_true (not_below e) xs in
      let found : search_strings xs e ≡ i =
        search_strings-eq-first_true e xs (IsStrict-IsSorted str_key xs strict) in
      rw
        (
          found,
          filter-and (λ x. has_prefix x f.startswith) (λ x. str_eq x e) xs,
          filter-eq e xs strict,
        )
        (elim (Bool-cases (ltb i (length xs))) [
          | inr out ↦ ground arith
          | inl l ↦
              let inside : i < length xs = ground arith in
              ground (
                arith,
                in_window_any i inside,
                slice-one xs i inside,
                (str_eq_iff (get_or xs i []) e),
              )
        ])

  fuzzy-eq-filter :
      fuzzy_loop xs
        (map to_lower xs)
        (to_lower f.fuzzy)
        (range_hi f xs - range_lo f xs)
        (range_lo f xs)
      ≡ filter (λ x. has_prefix x f.startswith && subseq_match (to_lower x) (to_lower f.fuzzy)) xs
  fuzzy-eq-filter =
      let sorted = IsStrict-IsSorted str_key xs strict in
      let bounds = range_bounds f xs sorted in
      fuzzy_loop-eq-filter xs (to_lower f.fuzzy) _ (range_lo f xs) (omega (arith, bounds))
      ∙ ap (filter (λ x. subseq_match (to_lower x) (to_lower f.fuzzy)))
          (slice-eq-filter_any f xs sorted)
      ∙ filter-filter _ (λ x. has_prefix x f.startswith) xs

  no_fuzzy-eq-filter :
      is_empty f.fuzzy ≡ true
      → slice xs (range_lo f xs) (range_hi f xs)
        ≡ filter (λ x. has_prefix x f.startswith && subseq_match (to_lower x) (to_lower f.fuzzy)) xs
  no_fuzzy-eq-filter e =
      slice-eq-filter_any f xs (IsStrict-IsSorted str_key xs strict)
      ∙ filter-congr _ _ xs
          (All-intro _ (λ x. ground (arith, subseq_match-empty (to_lower x) f.fuzzy e)) xs)

-- `accepts f` with the test on `equals` decided.
filter-accepts :
    (f : Filter) (xs : List Str) {b : Bool}
    → is_empty f.equals ≡ b
    → filter (accepts f) xs
      ≡ filter
          (λ x.
            has_prefix x f.startswith
            && (if b then subseq_match (to_lower x) (to_lower f.fuzzy) else str_eq x f.equals))
          xs
filter-accepts f xs e =
    ap
      (λ c.
        filter
          (λ x.
            has_prefix x f.startswith
            && (if c then subseq_match (to_lower x) (to_lower f.fuzzy) else str_eq x f.equals))
          xs)
      e

-- On a strictly sorted list, beside its lowercased copy, `filter.apply` returns exactly the entries
-- that have the requested prefix and are equal to `equals` or, where that is not given, match the
-- fuzzy pattern as a lowercased subsequence; they keep their order.
pub apply-eq-filter :
    (f : Filter) (xs : List Str)
    → IsStrict str_key xs
    → apply f xs (map to_lower xs) ≡ filter (accepts f) xs
unfolding apply
apply-eq-filter f xs strict = elim (Bool-cases (is_empty f.equals)) [
  | inr e ↦ rw (filter-accepts f xs e, e) (equals_in-eq-filter f xs strict f.equals)
  | inl e ↦ elim (Bool-cases (is_empty f.fuzzy)) [
    | inl k ↦ rw (filter-accepts f xs e, e, k) (no_fuzzy-eq-filter f xs strict k)
    | inr k ↦ rw (filter-accepts f xs e, e, k) (fuzzy-eq-filter f xs strict)
  ]
]
