-- ===== src/Preflight/Version.antt =====
-- `Version` and its texts (modules/operator/internal/preflight/mesh.go).
pub mod Laws
use route_prism.Common.{
  ℕ, ◌+◌, Bool, true, false, not, ◌&&◌, Option, none, some, List, [], ◌∷◌, ◌++◌, drop, length,
  if◌then◌else◌, ◌==◌, ltb, Str, codes, has_prefix, is_empty,
}
use route_prism.Common.Atoi.{is_digit, atoi_unsigned}
use route_prism.Common.Decimal.{decimal}

-- The fields are not negative: they are digits that `strconv.Atoi` accepts.
pub record Version : Type 0 where
  pub major : ℕ
  pub minor : ℕ
  pub patch : ℕ

abbrev pub no_version : Version
no_version = record { major = 0; minor = 0; patch = 0 }

abbrev pub version : ℕ → ℕ → ℕ → Version
version a b c = record { major = a; minor = b; patch = c }

unfoldable pub is_zero : Version → Bool
is_zero v = v.major == 0 && v.minor == 0 && v.patch == 0

-- `Version.String`
unfoldable pub to_string : Version → Str
to_string v = decimal v.major ++ b'.' ∷ (decimal v.minor ++ b'.' ∷ decimal v.patch)

unfoldable pub less_than : Version → Version → Bool
less_than v o =
    if not (v.major == o.major)
    then ltb v.major o.major
    else if not (v.minor == o.minor)
    then ltb v.minor o.minor
    else ltb v.patch o.patch

unfoldable pub at_least : Version → Version → Bool
unfolding less_than
at_least v o = not (less_than v o)

-- The leading digits.
pub digit_run : Str → Str
digit_run [] = []
digit_run (c ∷ s) = let rest = c ∷ digit_run s in if is_digit c then rest else []

-- `atoiPrefix`; `none` is its `false`.
unfoldable pub atoi_prefix : Str → Option ℕ
unfolding digit_run
atoi_prefix s = let digits = digit_run s in if is_empty digits then none else atoi_unsigned digits

-- `strings.TrimPrefix(s, prefix)`
unfoldable pub trim_prefix : Str → Str → Str
trim_prefix s p = if has_prefix s p then drop (length p) s else s

-- The text before the first byte `sep`, and the text after it if there is one.
unfoldable pub cut_byte : ℕ → Str → Str × Option Str
cut_byte sep [] = ([], none)
cut_byte sep (c ∷ s) =
    let (before, after) = cut_byte sep s in if c == sep then ([], some s) else (c ∷ before, after)

abbrev pub more_parts : Option Str → List Str
more_parts none = []
more_parts (some s) = s ∷ []

abbrev pub two_parts : Option Str → List Str
two_parts none = []
two_parts (some s) = let (second, rest) = cut_byte b'.' s in second ∷ more_parts rest

-- `strings.SplitN(s, ".", 3)`
unfoldable pub split_three : Str → List Str
unfolding cut_byte
split_three s = let (first, rest) = cut_byte b'.' s in first ∷ two_parts rest

abbrev or_zero : Option ℕ → ℕ
or_zero none = 0
or_zero (some n) = n

abbrev pub build_version : Option ℕ → Option ℕ → ℕ → Version
build_version none b p = no_version
build_version (some a) none p = no_version
build_version (some a) (some b) p = version a b p

-- The version of the parts of a text; no patch is read as 0, and so is one that is no number.
unfoldable pub from_parts : List Str → Version
unfolding atoi_prefix
from_parts [] = no_version
from_parts (a ∷ []) = no_version
from_parts (a ∷ b ∷ []) = build_version (atoi_prefix a) (atoi_prefix b) 0
from_parts (a ∷ b ∷ c ∷ rest) =
    build_version (atoi_prefix a) (atoi_prefix b) (or_zero (atoi_prefix c))

-- `parseVersion`
unfoldable pub parse_version : Str → Version
unfolding trim_prefix split_three from_parts
parse_version s = from_parts (split_three (trim_prefix s (codes "v")))
