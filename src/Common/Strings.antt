-- ===== src/Common/Strings.antt =====
-- Go strings: byte sequences, with their equality, their lexicographic order and the functions of
-- package `strings` that the program calls.
use Prim.Native.Char.{code}
use Prim.Native.Nat.{ℕ, ◌+◌}
use Prim.Native.String.{String}
use mathlib.Core.Path.{◌≡◌, refl}
use mathlib.Core.Logic.{◌↔◌}
use mathlib.Core.Bool.{Bool, true, false, ◌&&◌, ◌||◌}
use mathlib.Core.List.{List, [], ◌∷◌, map}
use native.Mathlib.Omega.{arith}
use route_prism.Common.Tests.{ltb, leb, ◌==◌, if◌then◌else◌}

abbrev pub Str : Type 0
Str = List ℕ

-- The bytes of an ASCII literal. `String` has its own `[]` and `∷`.
abbrev pub codes : String → Str
codes String.[] = []
codes (String.◌∷◌ c s) = code c ∷ codes s

abbrev pub str_eq : Str → Str → Bool
str_eq [] [] = true
str_eq [] (y ∷ ys) = false
str_eq (x ∷ xs) [] = false
str_eq (x ∷ xs) (y ∷ ys) = x == y && str_eq xs ys

-- Go's `<` on strings.
abbrev pub str_ltb : Str → Str → Bool
str_ltb [] [] = false
str_ltb [] (y ∷ ys) = true
str_ltb (x ∷ xs) [] = false
str_ltb (x ∷ xs) (y ∷ ys) = ltb x y || (x == y && str_ltb xs ys)

-- `strings.HasPrefix(s, prefix)`
abbrev pub has_prefix : Str → Str → Bool
has_prefix s [] = true
has_prefix [] (p ∷ ps) = false
has_prefix (c ∷ s) (p ∷ ps) = c == p && has_prefix s ps

-- `strings.Contains(s, sub)`
abbrev pub contains : Str → Str → Bool
contains [] sub = has_prefix [] sub
contains (c ∷ s) sub = has_prefix (c ∷ s) sub || contains s sub

-- The head, or the default, and the tail.
abbrev pub uncons_or : Str → List Str → Str × List Str
uncons_or d [] = (d, [])
uncons_or d (x ∷ xs) = (x, xs)

-- `strings.Split(s, sep)` for a separator of one byte.
abbrev pub split_on : ℕ → Str → List Str
split_on sep [] = [] ∷ []
split_on sep (c ∷ s) =
    let (first, rest) = uncons_or [] (split_on sep s) in
    if c == sep then [] ∷ first ∷ rest else (c ∷ first) ∷ rest

-- `strings.ToLower` on ASCII text.
abbrev pub lower_byte : ℕ → ℕ
lower_byte c = if leb b'A' c && leb c b'Z' then c + 32 else c

abbrev pub to_lower : Str → Str
to_lower s = map lower_byte s

abbrev pub is_empty : Str → Bool
is_empty [] = true
is_empty (c ∷ s) = false

pub str_eq_iff : (a b : Str) → (str_eq a b ≡ true) ↔ (a ≡ b)
str_eq_iff [] [] = ground arith
str_eq_iff [] (y ∷ ys) = ground arith
str_eq_iff (x ∷ xs) [] = ground arith
str_eq_iff (x ∷ xs) (y ∷ ys) = ground (arith, str_eq_iff xs ys)

pub str_eq_self : (a : Str) → str_eq a a ≡ true
str_eq_self a = (str_eq_iff a a).1 refl

pub str_ltb_irrefl : (a : Str) → str_ltb a a ≡ false
str_ltb_irrefl [] = refl
str_ltb_irrefl (x ∷ xs) = ground (arith, str_ltb_irrefl xs)

pub str_ltb_trans : (a b c : Str) → str_ltb a b ≡ true → str_ltb b c ≡ true → str_ltb a c ≡ true
str_ltb_trans [] [] c h k = cc
str_ltb_trans [] (y ∷ ys) [] h k = k
str_ltb_trans [] (y ∷ ys) (z ∷ zs) h k = refl
str_ltb_trans (x ∷ xs) [] c h k = cc
str_ltb_trans (x ∷ xs) (y ∷ ys) [] h k = cc
str_ltb_trans (x ∷ xs) (y ∷ ys) (z ∷ zs) h k = ground (arith, str_ltb_trans xs ys zs)

-- Two strings neither of which is below the other are equal.
pub str_ltb_total : (a b : Str) → str_ltb a b ≡ false → str_ltb b a ≡ false → a ≡ b
str_ltb_total [] [] h k = refl
str_ltb_total [] (y ∷ ys) h k = cc
str_ltb_total (x ∷ xs) [] h k = cc
str_ltb_total (x ∷ xs) (y ∷ ys) h k = ground (arith, str_ltb_total xs ys)

pub str_ltb_asymm : (a b : Str) → str_ltb a b ≡ true → str_ltb b a ≡ false
str_ltb_asymm [] [] h = cc
str_ltb_asymm [] (y ∷ ys) h = refl
str_ltb_asymm (x ∷ xs) [] h = cc
str_ltb_asymm (x ∷ xs) (y ∷ ys) h = ground (arith, str_ltb_asymm xs ys)

-- A string is not below its own prefix.
pub ltb-prefix : (s p : Str) → has_prefix s p ≡ true → str_ltb s p ≡ false
ltb-prefix [] [] h = refl
ltb-prefix (c ∷ s) [] h = refl
ltb-prefix [] (p ∷ ps) h = cc
ltb-prefix (c ∷ s) (p ∷ ps) h = ground (arith, ltb-prefix s ps)

-- The strings with a given prefix are convex: what stands between the prefix and one of them is one.
pub prefix_convex :
    (p x y : Str)
    → str_ltb x p ≡ false
    → str_ltb y x ≡ false
    → has_prefix y p ≡ true
    → has_prefix x p ≡ true
prefix_convex [] [] y h k l = refl
prefix_convex [] (c ∷ x) y h k l = refl
prefix_convex (a ∷ p) [] y h k l = cc
prefix_convex (a ∷ p) (c ∷ x) [] h k l = cc
prefix_convex (a ∷ p) (c ∷ x) (d ∷ y) h k l = ground (arith, prefix_convex p x y)
