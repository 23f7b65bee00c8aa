-- ===== src/Common/SortStrict.antt =====
-- Sorting by a string key.
use mathlib.Core.Path.{◌≡◌}
use mathlib.Core.Logic.{inl, inr}
use mathlib.Core.Bool.{Bool, true, false}
use mathlib.Core.List.{List, [], ◌∷◌}
use route_prism.Common.Tests.{Bool-cases}
use route_prism.Common.Lists.{All}
use route_prism.Common.Strings.{
  Str, str_eq, str_ltb, str_ltb_trans, str_ltb_asymm, str_ltb_total, str_eq_iff,
}
use route_prism.Common.Sort.{insert_sorted, sort_slice, All-sort_slice}
use route_prism.Common.Strict.{IsSorted, IsStrict, not_below_trans}

module _ {ℓ} {A : Type ℓ} (key : A → Str) where
  -- The order of `sort.Slice(xs, func(i, j) { return key(xs[i]) < key(xs[j]) })`.
  abbrev pub less_by : A → A → Bool
  less_by a b = str_ltb (key a) (key b)

  -- No two elements have one key.
  abbrev pub IsDistinct : List A → Type 0
  IsDistinct [] = Unit
  IsDistinct (x ∷ xs) = All (λ y. str_eq (key x) (key y) ≡ false) xs × IsDistinct xs

  All-above :
      (x y : A) (ys : List A)
      → str_ltb (key x) (key y) ≡ true
      → All (λ z. str_ltb (key z) (key y) ≡ false) ys
      → All (λ z. str_ltb (key z) (key x) ≡ false) ys
  All-above x y [] h a = tt
  All-above x y (z ∷ zs) h (a, as') = (
    not_below_trans (key x) (key y) (key z) (str_ltb_asymm (key x) (key y) h) a,
    All-above x y zs h as',
  )

  All-insert_sorted :
      (P : A → Type 0) (x : A) (xs : List A) → P x → All P xs → All P (insert_sorted less_by x xs)
  unfolding insert_sorted
  All-insert_sorted P x [] p h = (p, tt)
  All-insert_sorted P x (y ∷ ys) p (q, h) = elim (Bool-cases (less_by x y)) [
    | inl e ↦ rw e (p, (q, h))
    | inr e ↦ rw e (q, All-insert_sorted P x ys p h)
  ]

  insert_sorted-IsSorted :
      (x : A) (xs : List A) → IsSorted key xs → IsSorted key (insert_sorted less_by x xs)
  unfolding insert_sorted
  insert_sorted-IsSorted x [] h = (tt, tt)
  insert_sorted-IsSorted x (y ∷ ys) (h, hs) = elim (Bool-cases (less_by x y)) [
    | inl e ↦ rw e ((str_ltb_asymm (key x) (key y) e, All-above x y ys e h), (h, hs))
    | inr e ↦ rw e (
      All-insert_sorted (λ z. str_ltb (key z) (key y) ≡ false) x ys e h,
      insert_sorted-IsSorted x ys hs,
    )
  ]

  -- A sorted slice is sorted.
  pub sort_slice-IsSorted : (xs : List A) → IsSorted key (sort_slice less_by xs)
  unfolding sort_slice
  sort_slice-IsSorted [] = tt
  sort_slice-IsSorted (x ∷ xs) = insert_sorted-IsSorted x _ (sort_slice-IsSorted xs)

  All-trans :
      (x y : A) (ys : List A)
      → str_ltb (key x) (key y) ≡ true
      → All (λ z. str_ltb (key y) (key z) ≡ true) ys
      → All (λ z. str_ltb (key x) (key z) ≡ true) ys
  All-trans x y [] h a = tt
  All-trans x y (z ∷ zs) h (a, as') =
      (str_ltb_trans (key x) (key y) (key z) h a, All-trans x y zs h as')

  above_of_ne :
      (x y : A)
      → str_eq (key x) (key y) ≡ false
      → str_ltb (key x) (key y) ≡ false
      → str_ltb (key y) (key x) ≡ true
  above_of_ne x y e h = elim (Bool-cases (str_ltb (key y) (key x))) [
    | inl k ↦ k
    | inr k ↦ cc (e, (str_eq_iff (key x) (key y)).1 (str_ltb_total (key x) (key y) h k))
  ]

  insert_sorted-IsStrict :
      (x : A) (xs : List A)
      → All (λ y. str_eq (key x) (key y) ≡ false) xs
      → IsStrict key xs
      → IsStrict key (insert_sorted less_by x xs)
  unfolding insert_sorted
  insert_sorted-IsStrict x [] d h = (tt, tt)
  insert_sorted-IsStrict x (y ∷ ys) (d, ds) (h, hs) = elim (Bool-cases (less_by x y)) [
    | inl e ↦ rw e ((e, All-trans x y ys e h), (h, hs))
    | inr e ↦ rw e (
      All-insert_sorted (λ z. str_ltb (key y) (key z) ≡ true) x ys (above_of_ne x y d e) h,
      insert_sorted-IsStrict x ys ds hs,
    )
  ]

  -- A sorted slice of distinct keys is strictly sorted.
  pub sort_slice-IsStrict : (xs : List A) → IsDistinct xs → IsStrict key (sort_slice less_by xs)
  unfolding sort_slice
  sort_slice-IsStrict [] h = tt
  sort_slice-IsStrict (x ∷ xs) (d, ds) =
      insert_sorted-IsStrict x _ (All-sort_slice less_by _ xs d) (sort_slice-IsStrict xs ds)
