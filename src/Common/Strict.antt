-- ===== src/Common/Strict.antt =====
-- Lists whose elements strictly rise by a string key, as the snapshot keeps them.
use mathlib.Core.Path.{◌≡◌}
use mathlib.Core.Logic.{inl, inr}
use mathlib.Core.Bool.{Bool, true, false, not}
use mathlib.Core.List.{List, [], ◌∷◌}
use native.Mathlib.Omega.{arith}
use route_prism.Common.Tests.{Bool-cases}
use route_prism.Common.Lists.{All, filter, All-filter}
use route_prism.Common.Strings.{Str, str_ltb, str_ltb_trans, str_ltb_total, str_ltb_asymm}
use route_prism.Common.Search.{IsUpward}

-- From `s ≤ a ≤ b`.
pub not_below_trans :
    (s a b : Str) → str_ltb a s ≡ false → str_ltb b a ≡ false → str_ltb b s ≡ false
not_below_trans s a b e h = elim (Bool-cases (str_ltb b s)) [
  | inr k ↦ k
  | inl k ↦ elim (Bool-cases (str_ltb a b)) [
    | inl l ↦ cc (e, str_ltb_trans a b s l k)
    | inr l ↦ cc (e, str_ltb_total a b l h)
  ]
]

module _ {ℓ} {A : Type ℓ} (key : A → Str) where
  -- Sorted by key; equal keys may repeat.
  abbrev pub IsSorted : List A → Type 0
  IsSorted [] = Unit
  IsSorted (x ∷ xs) = All (λ y. str_ltb (key y) (key x) ≡ false) xs × IsSorted xs

  -- Sorted by key, and no key repeats.
  abbrev pub IsStrict : List A → Type 0
  IsStrict [] = Unit
  IsStrict (x ∷ xs) = All (λ y. str_ltb (key x) (key y) ≡ true) xs × IsStrict xs

  All-asymm :
      (x : A) (xs : List A)
      → All (λ y. str_ltb (key x) (key y) ≡ true) xs
      → All (λ y. str_ltb (key y) (key x) ≡ false) xs
  All-asymm x [] h = tt
  All-asymm x (y ∷ ys) (h, hs) = (str_ltb_asymm (key x) (key y) h, All-asymm x ys hs)

  pub IsStrict-IsSorted : (xs : List A) → IsStrict xs → IsSorted xs
  IsStrict-IsSorted [] h = tt
  IsStrict-IsSorted (x ∷ xs) (h, hs) = (All-asymm x xs h, IsStrict-IsSorted xs hs)

  All-not_below :
      (s : Str) (x : A) (xs : List A)
      → str_ltb (key x) s ≡ false
      → All (λ y. str_ltb (key y) (key x) ≡ false) xs
      → All (λ y. not (str_ltb (key y) s) ≡ true) xs
  All-not_below s x [] e h = tt
  All-not_below s x (y ∷ ys) e (h, hs) =
      (ground (arith, not_below_trans s (key x) (key y) e h), All-not_below s x ys e hs)

  -- In a sorted list the test "not below `s`" stays true.
  pub IsSorted-IsUpward :
      (s : Str) (xs : List A) → IsSorted xs → IsUpward (λ x. not (str_ltb (key x) s)) xs
  IsSorted-IsUpward s [] h = tt
  IsSorted-IsUpward s (x ∷ xs) (h, hs) =
      ((λ e. All-not_below s x xs (ground arith) h), IsSorted-IsUpward s xs hs)

  pub IsStrict-filter : (p : A → Bool) (xs : List A) → IsStrict xs → IsStrict (filter p xs)
  IsStrict-filter p [] h = tt
  IsStrict-filter p (x ∷ xs) (h, hs) = elim (Bool-cases (p x)) [
    | inl e ↦ rw e (All-filter _ p xs h, IsStrict-filter p xs hs)
    | inr e ↦ rw e (IsStrict-filter p xs hs)
  ]
