-- ===== src/Common/Assoc.antt =====
-- Go maps with string keys, as lists of entries with distinct keys. A loop over a map runs in an
-- order that Go does not fix: where a model has such a loop, it takes the order as a parameter.
use mathlib.Core.Path.{◌≡◌, refl}
use mathlib.Core.Logic.{inl, inr}
use mathlib.Core.Bool.{false}
use mathlib.Core.Option.{Option, none, some}
use mathlib.Core.List.{List, [], ◌∷◌, map, Memᴰ}
use native.Mathlib.Omega.{arith}
use route_prism.Common.Tests.{if◌then◌else◌, Bool-cases}
use route_prism.Common.Lists.{All}
use route_prism.Common.Strings.{Str, str_eq, str_eq_iff}
use route_prism.Common.SortStrict.{IsDistinct}

-- `m[k]`, with `none` for a missing key.
abbrev pub lookup {ℓ} : {V : Type ℓ} → Str → List (Str × V) → Option V
lookup k [] = none
lookup k ((j, v) ∷ m) = if str_eq j k then some v else lookup k m

-- `m[k] = v`
abbrev pub put {ℓ} : {V : Type ℓ} → Str → V → List (Str × V) → List (Str × V)
put k v [] = (k, v) ∷ []
put k v ((j, w) ∷ m) = let rest = (j, w) ∷ put k v m in if str_eq j k then (j, v) ∷ m else rest

-- The keys of a map, in its order.
abbrev pub keys {ℓ} : {V : Type ℓ} → List (Str × V) → List Str
keys m = map (λ e. e.0) m

module _ {ℓ} {V : Type ℓ} where
  pub lookup-put :
      (i k : Str) (v : V) (m : List (Str × V))
      → lookup i (put k v m) ≡ (if str_eq k i then some v else lookup i m)
  lookup-put i k v [] = refl
  lookup-put i k v ((j, w) ∷ m) = elim (Bool-cases (str_eq j k)) [
    | inl e ↦ ground (arith, str_eq_iff j k)
    | inr e ↦ elim (Bool-cases (str_eq j i)) [
      | inl f ↦ ground (arith, str_eq_iff j i, str_eq_iff j k, str_eq_iff k i)
      | inr f ↦ rw (e, f) (lookup-put i k v m)
    ]
  ]

  All-keys-put :
      (P : Str → Type 0) (k : Str) (v : V) (m : List (Str × V))
      → P k
      → All P (keys m)
      → All P (keys (put k v m))
  All-keys-put P k v [] p h = (p, tt)
  All-keys-put P k v ((j, w) ∷ m) p (q, h) = elim (Bool-cases (str_eq j k)) [
    | inl e ↦ rw e (q, h)
    | inr e ↦ rw e (q, All-keys-put P k v m p h)
  ]

  pub put-IsDistinct :
      (k : Str) (v : V) (m : List (Str × V))
      → IsDistinct (λ s. s) (keys m)
      → IsDistinct (λ s. s) (keys (put k v m))
  put-IsDistinct k v [] h = (tt, tt)
  put-IsDistinct k v ((j, w) ∷ m) (d, h) = elim (Bool-cases (str_eq j k)) [
    | inl e ↦ rw e (d, h)
    | inr e ↦ rw e (All-keys-put (λ s. str_eq j s ≡ false) k v m e d, put-IsDistinct k v m h)
  ]

-- What is found is an entry.
pub entry-lookup : (k v : Str) (m : List (Str × Str)) → lookup k m ≡ some v → Memᴰ (k, v) m
entry-lookup k v [] h = cc
entry-lookup k v ((j, w) ∷ m) h = elim (Bool-cases (str_eq j k)) [
  | inl e ↦ Memᴰ.head (let l : some w ≡ some v = rw e at h in let s = (str_eq_iff j k).0 e in cc)
  | inr e ↦ Memᴰ.tail (entry-lookup k v m (rw e at h))
]
