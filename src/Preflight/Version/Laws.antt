-- ===== src/Preflight/Version/Laws.antt =====
-- The order of versions, and reading what was printed.
use route_prism.Common.{
  ℕ, ◌<◌, ◌≡◌, refl, ap, ◌∙◌, ◌⊎◌, ◌↔◌, true, false, some, [], ◌∷◌, ◌++◌, ◌==◌, All, Str, codes,
  is_empty, arith,
}
use route_prism.Common.Atoi.{is_digit}
use route_prism.Common.Decimal.{decimal, decimal-digits, decimal_nonempty, atoi_unsigned-decimal}
use route_prism.Preflight.Version.{
  Version, to_string, less_than, at_least, digit_run, atoi_prefix, trim_prefix, cut_byte,
  split_three, from_parts, parse_version, build_version, or_zero,
}

-- The order of versions is a strict total order: it is irreflexive and transitive, and of two
-- different versions one is below the other; `at_least` is its converse or equality.
pub less_than-IsOrder :
    (a b c : Version)
    → (less_than a a ≡ false)
      × (less_than a b ≡ true → less_than b c ≡ true → less_than a c ≡ true)
      × (less_than a b ≡ false → less_than b a ≡ false → a ≡ b)
      × ((at_least a b ≡ true) ↔ ((less_than b a ≡ true) ⊎ (a ≡ b)))
unfolding less_than at_least
less_than-IsOrder a b c = (ground arith, ground arith, ground arith, (ground arith, ground arith))

-- Digits are no dots.
digit_run-digits : (s : Str) → All (λ c. is_digit c ≡ true) s → digit_run s ≡ s
unfolding digit_run
digit_run-digits [] h = refl
digit_run-digits (c ∷ s) (d, h) = rw (d, digit_run-digits s h) refl

cut_byte-digits :
    (s t : Str) → All (λ c. is_digit c ≡ true) s → cut_byte b'.' (s ++ b'.' ∷ t) ≡ (s, some t)
unfolding cut_byte
cut_byte-digits [] t h = refl
cut_byte-digits (c ∷ s) t (d, h) =
    let no_dot : (c == b'.') ≡ false = ground arith in rw (no_dot, cut_byte-digits s t h) refl

atoi_prefix-decimal : (n : ℕ) → n < 9223372036854775808 → atoi_prefix (decimal n) ≡ some n
unfolding atoi_prefix
atoi_prefix-decimal n h =
    rw (digit_run-digits (decimal n) (decimal-digits n), decimal_nonempty n)
      (atoi_unsigned-decimal n h)

-- A text of digits is not changed by `trim_prefix`.
trim_prefix-digits :
    (s t : Str)
    → is_empty s ≡ false
    → All (λ c. is_digit c ≡ true) s
    → trim_prefix (s ++ t) (codes "v") ≡ s ++ t
unfolding trim_prefix
trim_prefix-digits [] t e h = cc
trim_prefix-digits (c ∷ s) t e (d, h) =
    let no_v : (c == b'v') ≡ false = ground arith in rw no_v refl

abbrev Fits : ℕ → Type 0
Fits n = n < 9223372036854775808

split_three-to_string :
    (v : Version)
    → split_three (to_string v) ≡ decimal v.major ∷ decimal v.minor ∷ decimal v.patch ∷ []
unfolding split_three to_string
split_three-to_string v =
    rw
      (cut_byte-digits (decimal v.major) (decimal v.minor ++ b'.' ∷ decimal v.patch)
        (decimal-digits v.major))
      (rw (cut_byte-digits (decimal v.minor) (decimal v.patch) (decimal-digits v.minor)) refl)

from_parts-decimal :
    (v : Version)
    → Fits v.major
    → Fits v.minor
    → Fits v.patch
    → from_parts (decimal v.major ∷ decimal v.minor ∷ decimal v.patch ∷ []) ≡ v
unfolding from_parts
from_parts-decimal v a b c = λ i.
    build_version (atoi_prefix-decimal v.major a i) (atoi_prefix-decimal v.minor b i)
      (or_zero (atoi_prefix-decimal v.patch c i))

-- A version whose fields fit an `int` is read back from its text, with or without the prefix `v`.
pub parse_version-to_string :
    (v : Version)
    → Fits v.major
    → Fits v.minor
    → Fits v.patch
    → (parse_version (to_string v) ≡ v) × (parse_version (codes "v" ++ to_string v) ≡ v)
unfolding parse_version to_string trim_prefix
parse_version-to_string v a b c = (
  ap (λ s. from_parts (split_three s))
        (trim_prefix-digits (decimal v.major) _ (decimal_nonempty v.major) (decimal-digits v.major))
      ∙ ap from_parts (split_three-to_string v)
      ∙ from_parts-decimal v a b c,
  ap from_parts (split_three-to_string v) ∙ from_parts-decimal v a b c,
)
