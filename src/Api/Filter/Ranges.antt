-- ===== src/Api/Filter/Ranges.antt =====
-- The two binary searches of the prefix narrowing find the strings with the prefix.
use route_prism.Common.{
  ℕ, ◌+◌, ◌-◌, ◌≡◌, refl, sym, ap, fun_ext, Bool, true, false, not, inl, inr, List, [], ◌∷◌, arith,
  Bool-cases, get_or, take, drop, filter, All, Str, str_ltb, has_prefix, is_empty, ◌≡⟨◌⟩◌, ◌∎,
  get_or-drop, length-drop, ltb-prefix, prefix_convex,
}
use route_prism.Common.Search.{
  search_strings, first_true, drop_until, take_until, IsUpward, search_index-eq-first_true,
  drop-first_true, take-first_true,
}
use route_prism.Common.Strict.{IsSorted, IsSorted-IsUpward, not_below_trans}
use route_prism.Api.Filter.{Filter, range_lo, range_hi, slice}

abbrev pub str_key : Str → Str
str_key s = s

-- The test of the first search.
abbrev pub not_below : Str → Str → Bool
not_below s x = not (str_ltb x s)

-- The test of the second search.
abbrev pub no_prefix : Str → Str → Bool
no_prefix s x = not (has_prefix x s)

pub search_strings-eq-first_true :
    (s : Str) (xs : List Str)
    → IsSorted str_key xs
    → search_strings xs s ≡ first_true (not_below s) xs
unfolding search_strings
search_strings-eq-first_true s xs h =
    search_index-eq-first_true (not_below s) [] xs (IsSorted-IsUpward str_key s xs h)

All-no_prefix :
    (s x : Str) (xs : List Str)
    → str_ltb x s ≡ false
    → has_prefix x s ≡ false
    → All (λ y. str_ltb y x ≡ false) xs
    → All (λ y. no_prefix s y ≡ true) xs
All-no_prefix s x [] e k h = tt
All-no_prefix s x (y ∷ ys) e k (h, hs) =
    (ground (arith, prefix_convex s x y), All-no_prefix s x ys e k hs)

-- Above the prefix, the test "has not the prefix" stays true.
no_prefix-IsUpward :
    (s : Str) (xs : List Str)
    → All (λ x. str_ltb x s ≡ false) xs
    → IsSorted str_key xs
    → IsUpward (no_prefix s) xs
no_prefix-IsUpward s [] a h = tt
no_prefix-IsUpward s (x ∷ xs) (a, as') (h, hs) =
    ((λ e. All-no_prefix s x xs a (ground arith) h), no_prefix-IsUpward s xs as' hs)

All-trans :
    (s x : Str) (xs : List Str)
    → str_ltb x s ≡ false
    → All (λ y. str_ltb y x ≡ false) xs
    → All (λ y. str_ltb y s ≡ false) xs
All-trans s x [] e h = tt
All-trans s x (y ∷ ys) e (h, hs) = (not_below_trans s x y e h, All-trans s x ys e hs)

pub drop_until-not_below :
    (s : Str) (xs : List Str)
    → IsSorted str_key xs
    → All (λ x. str_ltb x s ≡ false) (drop_until (not_below s) xs)
      × IsSorted str_key (drop_until (not_below s) xs)
drop_until-not_below s [] h = (tt, tt)
drop_until-not_below s (x ∷ xs) (h, hs) = elim (Bool-cases (str_ltb x s)) [
  | inl e ↦ rw e (drop_until-not_below s xs hs)
  | inr e ↦ rw e ((e, All-trans s x xs e h), (h, hs))
]

filter-no_prefix :
    (s : Str) (xs : List Str)
    → All (λ y. no_prefix s y ≡ true) xs
    → filter (λ x. has_prefix x s) xs ≡ []
filter-no_prefix s [] h = refl
filter-no_prefix s (x ∷ xs) (e, h) = ground (arith, filter-no_prefix s xs h)

take_until-eq-filter :
    (s : Str) (xs : List Str)
    → IsUpward (no_prefix s) xs
    → take_until (no_prefix s) xs ≡ filter (λ x. has_prefix x s) xs
take_until-eq-filter s [] u = refl
take_until-eq-filter s (x ∷ xs) (u, us) = elim (Bool-cases (has_prefix x s)) [
  | inl e ↦ rw e (ap (λ l. x ∷ l) (take_until-eq-filter s xs us))
  | inr e ↦ rw e (sym (filter-no_prefix s xs (u (ground arith))))
]

filter-drop_until :
    (s : Str) (xs : List Str)
    → filter (λ x. has_prefix x s) (drop_until (not_below s) xs) ≡ filter (λ x. has_prefix x s) xs
filter-drop_until s [] = refl
filter-drop_until s (x ∷ xs) = ground (arith, ltb-prefix x s, filter-drop_until s xs)

module _ (f : Filter) (xs : List Str) (sorted : IsSorted str_key xs) where
  pub range_lo_lem :
      is_empty f.startswith ≡ false → range_lo f xs ≡ first_true (not_below f.startswith) xs
  unfolding range_lo
  range_lo_lem e = rw e (search_strings-eq-first_true f.startswith xs sorted)

  drop-range_lo :
      is_empty f.startswith ≡ false
      → drop (range_lo f xs) xs ≡ drop_until (not_below f.startswith) xs
  drop-range_lo e = rw (range_lo_lem e) (drop-first_true (not_below f.startswith) xs)

  pub drop-range_lo-IsUpward :
      is_empty f.startswith ≡ false → IsUpward (no_prefix f.startswith) (drop (range_lo f xs) xs)
  drop-range_lo-IsUpward e =
      let (above, rising) = drop_until-not_below f.startswith xs sorted in
      rw (drop-range_lo e) (no_prefix-IsUpward f.startswith _ above rising)

  pub range_hi_lem :
      is_empty f.startswith ≡ false
      → range_hi f xs
        ≡ range_lo f xs + first_true (no_prefix f.startswith) (drop (range_lo f xs) xs)
  unfolding range_hi
  range_hi_lem e =
      let lo = range_lo f xs in
      let test = no_prefix f.startswith in
      let shift : (λ (j : ℕ). test (get_or xs (lo + j) []))
          ≡ (λ j. test (get_or (drop lo xs) j [])) =
        fun_ext (λ j. ap test (sym (get_or-drop lo j xs []))) in
      rw (e, ← length-drop lo xs, shift)
        (ap (λ n. lo + n)
          (search_index-eq-first_true test [] (drop lo xs) (drop-range_lo-IsUpward e)))

  -- The window between the two searches holds the strings with the prefix, and no other.
  pub slice-eq-filter :
      is_empty f.startswith ≡ false
      → slice xs (range_lo f xs) (range_hi f xs) ≡ filter (λ x. has_prefix x f.startswith) xs
  slice-eq-filter e =
      let lo = range_lo f xs in
      let n = first_true (no_prefix f.startswith) (drop lo xs) in
      let width : lo + n - lo ≡ n = omega arith in
      slice xs lo (range_hi f xs)
      ≡⟨ ap (slice xs lo) (range_hi_lem e) ⟩ take (lo + n - lo) (drop lo xs)
      ≡⟨ ap (λ k. take k (drop lo xs)) width ⟩ take n (drop lo xs)
      ≡⟨ take-first_true (no_prefix f.startswith) (drop lo xs) ⟩
        take_until (no_prefix f.startswith) (drop lo xs)
      ≡⟨ take_until-eq-filter f.startswith (drop lo xs) (drop-range_lo-IsUpward e) ⟩
        filter (λ x. has_prefix x f.startswith) (drop lo xs)
      ≡⟨ ap (filter (λ x. has_prefix x f.startswith)) (drop-range_lo e) ⟩
        filter (λ x. has_prefix x f.startswith) (drop_until (not_below f.startswith) xs)
      ≡⟨ filter-drop_until f.startswith xs ⟩ filter (λ x. has_prefix x f.startswith) xs ∎
