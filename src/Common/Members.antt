-- ===== src/Common/Members.antt =====
-- Members of lists that are filtered or sorted.
use mathlib.Core.Path.{◌≡◌, refl, ap}
use mathlib.Core.Logic.{inl, inr}
use mathlib.Core.Bool.{Bool, true, false, ◌||◌}
use mathlib.Core.List.{List, [], ◌∷◌, ◌++◌, map, Memᴰ}
use route_prism.Common.Tests.{Bool-cases}
use route_prism.Common.Lists.{filter, any, All}
use route_prism.Common.Sort.{insert_sorted, sort_slice}

or_true : (a : Bool) → (a || true) ≡ true
or_true true = refl
or_true false = refl

module _ {ℓ} {A : Type ℓ} where
  pub All-at {κ} : (P : A → Type κ) (x : A) (xs : List A) → Memᴰ x xs → All P xs → P x
  All-at P x [] m h = elim m [ ]
  All-at P x (y ∷ xs) (Memᴰ.head e) (p, h) = rw e p
  All-at P x (y ∷ xs) (Memᴰ.tail m) (p, h) = All-at P x xs m h

  pub mem-filter :
      (p : A → Bool) (x : A) (xs : List A) → p x ≡ true → Memᴰ x xs → Memᴰ x (filter p xs)
  mem-filter p x [] h m = elim m [ ]
  mem-filter p x (y ∷ xs) h (Memᴰ.head e) =
      let passes : p y ≡ true = rw (← e) h in rw passes (Memᴰ.head e)
  mem-filter p x (y ∷ xs) h (Memᴰ.tail m) = elim (Bool-cases (p y)) [
    | inl e ↦ rw e (Memᴰ.tail (mem-filter p x xs h m))
    | inr e ↦ rw e (mem-filter p x xs h m)
  ]

module _ {ℓ} {A : Type ℓ} where
  later :
      (p : A → Bool) (x y : A) (xs : List A)
      → Memᴰ x (y ∷ filter p xs)
      → (Memᴰ x (filter p xs) → Memᴰ x xs)
      → Memᴰ x (y ∷ xs)
  later p x y xs (Memᴰ.head e) h = Memᴰ.head e
  later p x y xs (Memᴰ.tail m) h = Memᴰ.tail (h m)

  pub mem-of_filter : (p : A → Bool) (x : A) (xs : List A) → Memᴰ x (filter p xs) → Memᴰ x xs
  mem-of_filter p x [] m = m
  mem-of_filter p x (y ∷ xs) m = elim (Bool-cases (p y)) [
    | inl e ↦ later p x y xs (rw e at m) (mem-of_filter p x xs)
    | inr e ↦ Memᴰ.tail (mem-of_filter p x xs (rw e at m))
  ]

module _ {ℓ} {A : Type ℓ} where
  pub All-map {κ κ'} :
      {P : A → Type κ} {Q : A → Type κ'} (xs : List A) → ((x : A) → P x → Q x) → All P xs → All Q xs
  All-map [] f h = tt
  All-map (x ∷ xs) f (p, h) = (f x p, All-map xs f h)

  pub filter_skip :
      (p : A → Bool) (x : A) (before after : List A)
      → p x ≡ false
      → filter p (before ++ x ∷ after) ≡ filter p (before ++ after)
  filter_skip p x [] after h = rw h refl
  filter_skip p x (y ∷ before) after h = rw (filter_skip p x before after h) refl

  pub mem-middle : (x : A) (before after : List A) → Memᴰ x (before ++ x ∷ after)
  mem-middle x [] after = Memᴰ.head refl
  mem-middle x (y ∷ before) after = Memᴰ.tail (mem-middle x before after)

  pub mem-map : {B : Type ℓ} (f : A → B) (x : A) (xs : List A) → Memᴰ x xs → Memᴰ (f x) (map f xs)
  mem-map f x [] m = elim m [ ]
  mem-map f x (y ∷ xs) (Memᴰ.head e) = Memᴰ.head (ap f e)
  mem-map f x (y ∷ xs) (Memᴰ.tail m) = Memᴰ.tail (mem-map f x xs m)

  pub any-mem : (p : A → Bool) (x : A) (xs : List A) → p x ≡ true → Memᴰ x xs → any p xs ≡ true
  any-mem p x [] h m = elim m [ ]
  any-mem p x (y ∷ xs) h (Memᴰ.head e) = let passes : p y ≡ true = rw (← e) h in rw passes refl
  any-mem p x (y ∷ xs) h (Memᴰ.tail m) = rw (any-mem p x xs h m) (or_true (p y))

module _ {ℓ} {A : Type ℓ} (less : A → A → Bool) where
  mem-insert_new : (x y : A) (ys : List A) → x ≡ y → Memᴰ x (insert_sorted less y ys)
  unfolding insert_sorted
  mem-insert_new x y [] e = Memᴰ.head e
  mem-insert_new x y (z ∷ ys) e = elim (Bool-cases (less y z)) [
    | inl l ↦ rw l (Memᴰ.head e)
    | inr l ↦ rw l (Memᴰ.tail (mem-insert_new x y ys e))
  ]

  mem-insert_sorted : (x y : A) (ys : List A) → Memᴰ x ys → Memᴰ x (insert_sorted less y ys)
  unfolding insert_sorted
  mem-insert_sorted x y [] m = elim m [ ]
  mem-insert_sorted x y (z ∷ ys) (Memᴰ.head e) = elim (Bool-cases (less y z)) [
    | inl l ↦ rw l (Memᴰ.tail (Memᴰ.head e))
    | inr l ↦ rw l (Memᴰ.head e)
  ]
  mem-insert_sorted x y (z ∷ ys) (Memᴰ.tail m) = elim (Bool-cases (less y z)) [
    | inl l ↦ rw l (Memᴰ.tail (Memᴰ.tail m))
    | inr l ↦ rw l (Memᴰ.tail (mem-insert_sorted x y ys m))
  ]

  pub mem-sort_slice : (x : A) (xs : List A) → Memᴰ x xs → Memᴰ x (sort_slice less xs)
  unfolding sort_slice
  mem-sort_slice x [] m = elim m [ ]
  mem-sort_slice x (y ∷ xs) (Memᴰ.head e) = mem-insert_new x y _ e
  mem-sort_slice x (y ∷ xs) (Memᴰ.tail m) = mem-insert_sorted x y _ (mem-sort_slice x xs m)
