-- ===== src/Common/Search.antt =====
-- Go's `sort.Search` and `sort.SearchStrings`, and the linear search that they amount to on a list
-- where the test, once true, stays true.
use Prim.Native.Nat.{ℕ, zero, suc, ◌+◌, ◌/◌, ◌≤◌, ◌<◌}
use mathlib.Core.Path.{◌≡◌, refl}
use mathlib.Core.Logic.{inl, inr}
use mathlib.Core.Bool.{Bool, true, false, not}
use mathlib.Core.List.{List, [], ◌∷◌}
use native.Mathlib.Omega.{arith}
use route_prism.Common.Tests.{ltb, if◌then◌else◌, Bool-cases}
use route_prism.Common.Lists.{length, get_or, take, drop, All}
use route_prism.Common.Strings.{Str, str_ltb}

-- The loop of `sort.Search`: `i < j`, `h := (i + j) / 2`. Fuel `j - i` is enough.
unfoldable pub search_from : ℕ → (ℕ → Bool) → ℕ → ℕ → ℕ
search_from zero f i j = i
search_from (suc n) f i j =
    let h = (i + j) / 2 in
    elim (ltb i j) [
      | true ↦ elim (f h) [ true ↦ search_from n f i h | false ↦ search_from n f (h + 1) j ]
      | false ↦ i
    ]

-- `sort.Search(n, f)`
unfoldable pub search_index : ℕ → (ℕ → Bool) → ℕ
unfolding search_from
search_index n f = search_from n f 0 n

-- `sort.SearchStrings(sorted, x)`
unfoldable pub search_strings : List Str → Str → ℕ
unfolding search_index
search_strings sorted x = search_index (length sorted) (λ i. not (str_ltb (get_or sorted i []) x))

module _ {ℓ} {A : Type ℓ} (p : A → Bool) where
  -- The index of the first element that passes the test, or the length.
  abbrev pub first_true : List A → ℕ
  first_true [] = 0
  first_true (x ∷ xs) = if p x then 0 else suc (first_true xs)

  abbrev pub drop_until : List A → List A
  drop_until [] = []
  drop_until (x ∷ xs) = if p x then x ∷ xs else drop_until xs

  abbrev pub take_until : List A → List A
  take_until [] = []
  take_until (x ∷ xs) = if p x then [] else x ∷ take_until xs

  -- Once true, the test stays true.
  abbrev pub IsUpward : List A → Type 0
  IsUpward [] = Unit
  IsUpward (x ∷ xs) = (p x ≡ true → All (λ y. p y ≡ true) xs) × IsUpward xs

module _ {ℓ} {A : Type ℓ} (p : A → Bool) (d : A) where
  get_or-All :
      (xs : List A) (i : ℕ) → All (λ y. p y ≡ true) xs → i < length xs → p (get_or xs i d) ≡ true
  get_or-All [] i h l = elim l [ ]
  get_or-All (x ∷ xs) zero h l = h.0
  get_or-All (x ∷ xs) (suc i) h l = get_or-All xs i h.1 (omega arith)

  pub first_true-le-length : (xs : List A) → first_true p xs ≤ length xs
  first_true-le-length [] = omega arith
  first_true-le-length (x ∷ xs) = ground (arith, first_true-le-length xs)

  pub first_true-le :
      (xs : List A) (i : ℕ) → i < length xs → p (get_or xs i d) ≡ true → first_true p xs ≤ i
  first_true-le [] i l h = elim l [ ]
  first_true-le (x ∷ xs) zero l h = ground arith
  first_true-le (x ∷ xs) (suc i) l h = ground (arith, first_true-le xs i)

  pub of_first_true-le :
      (xs : List A) (i : ℕ)
      → IsUpward p xs
      → i < length xs
      → first_true p xs ≤ i
      → p (get_or xs i d) ≡ true
  of_first_true-le [] i u l h = elim l [ ]
  of_first_true-le (x ∷ xs) zero u l h = ground arith
  of_first_true-le (x ∷ xs) (suc i) (u, us) l h = elim (Bool-cases (p x)) [
    | inl e ↦ get_or-All xs i (u e) (omega arith)
    | inr e ↦ of_first_true-le xs i us (omega arith) (ground arith)
  ]

  search_from-eq-first_true :
      (fuel i j : ℕ) (xs : List A)
      → IsUpward p xs
      → j ≤ length xs
      → j ≤ i + fuel
      → i ≤ first_true p xs
      → first_true p xs ≤ j
      → search_from fuel (λ k. p (get_or xs k d)) i j ≡ first_true p xs
  unfolding search_from
  search_from-eq-first_true zero i j xs u a b c e = omega arith
  search_from-eq-first_true (suc n) i j xs u a b c e = ground (
    arith,
    first_true-le xs ((i + j) / 2),
    of_first_true-le xs ((i + j) / 2) u,
    search_from-eq-first_true n i ((i + j) / 2) xs u,
    search_from-eq-first_true n ((i + j) / 2 + 1) j xs u,
  )

  -- Where the test, once true, stays true, the binary search finds the first index that passes.
  pub search_index-eq-first_true :
      (xs : List A)
      → IsUpward p xs
      → search_index (length xs) (λ k. p (get_or xs k d)) ≡ first_true p xs
  unfolding search_index
  search_index-eq-first_true xs u =
      search_from-eq-first_true (length xs) 0 (length xs) xs u (omega arith) (omega arith)
        (omega arith) (first_true-le-length xs)

module _ {ℓ} {A : Type ℓ} (p : A → Bool) where
  pub drop-first_true : (xs : List A) → drop (first_true p xs) xs ≡ drop_until p xs
  drop-first_true [] = refl
  drop-first_true (x ∷ xs) = ground (arith, drop-first_true xs)

  pub take-first_true : (xs : List A) → take (first_true p xs) xs ≡ take_until p xs
  take-first_true [] = refl
  take-first_true (x ∷ xs) = ground (arith, take-first_true xs)
