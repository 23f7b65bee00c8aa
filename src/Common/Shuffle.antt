-- ===== src/Common/Shuffle.antt =====
-- What a change of the order leaves true of a list.
use mathlib.Core.Path.{◌≡◌, subst}
use mathlib.Core.Bool.{false}
use mathlib.Core.List.{List, ◌∷◌, Permᴰ}
use native.Mathlib.Omega.{arith}
use route_prism.Common.Lists.{All}
use route_prism.Common.Strings.{Str, str_eq, str_eq_iff}
use route_prism.Common.SortStrict.{IsDistinct}

pub All-Permᴰ {ℓ} :
    {A : Type ℓ} (P : A → Type 0) {xs ys : List A} → Permᴰ xs ys → All P xs → All P ys
All-Permᴰ P Permᴰ.nil h = h
All-Permᴰ P (Permᴰ.cons e d) (p, h) = (subst P e p, All-Permᴰ P d h)
All-Permᴰ P (Permᴰ.swap e f) (p, (q, h)) = (subst P f q, (subst P e p, h))
All-Permᴰ P (Permᴰ.trans d e) h = All-Permᴰ P e (All-Permᴰ P d h)

str_ne_sym : (a b : Str) → str_eq a b ≡ false → str_eq b a ≡ false
str_ne_sym a b h = ground (arith, str_eq_iff a b, str_eq_iff b a)

pub IsDistinct-Permᴰ :
    {xs ys : List Str} → Permᴰ xs ys → IsDistinct (λ s. s) xs → IsDistinct (λ s. s) ys
IsDistinct-Permᴰ Permᴰ.nil h = h
IsDistinct-Permᴰ (Permᴰ.cons {l₂} e d) (p, h) =
    (subst (λ s. All (λ t. str_eq s t ≡ false) l₂) e (All-Permᴰ _ d p), IsDistinct-Permᴰ d h)
IsDistinct-Permᴰ (Permᴰ.swap {a} {b} {a'} {l} e f) ((ab, ha), (hb, h)) =
    subst (λ s. IsDistinct (λ t. t) (a' ∷ s ∷ l)) e
      (subst (λ s. IsDistinct (λ t. t) (s ∷ a ∷ l)) f ((str_ne_sym a b ab, hb), (ha, h)))
IsDistinct-Permᴰ (Permᴰ.trans d e) h = IsDistinct-Permᴰ e (IsDistinct-Permᴰ d h)
