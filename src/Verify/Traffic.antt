-- ===== src/Verify/Traffic.antt =====
-- The traffic cases of the deep probe (modules/operator/internal/verify/deep.go) and their verdicts. The
-- pod that sends the requests and the fields RawResponse and Err are left out; the lines of the pod's
-- log are a list.
pub mod Misrouted
use route_prism.Common.{
  ℕ, zero, suc, Bool, false, Option, none, some, List, [], ◌∷◌, ◌++◌, all, if◌then◌else◌, Str,
  codes, str_eq, has_prefix, contains,
}
use route_prism.Preflight.Version.{cut_byte, trim_prefix}

abbrev pub deep_variant_a : Str
deep_variant_a = codes "verify-variant-a"

abbrev pub deep_variant_b : Str
deep_variant_b = codes "verify-variant-b"

abbrev pub deep_routing_key : Str
deep_routing_key = codes "x-route-prism"

-- `TrafficCase`
pub record TrafficCase : Type 0 where
  pub header : Str
  pub expected : Str
  pub got_variant : Str
  pub passed : Bool

abbrev pub case_of : (header expected : Str) → TrafficCase
case_of header expected = record {
  header = header;
  expected = expected;
  got_variant = [];
  passed = false;
}

-- The header of a request for a variant.
abbrev pub baggage_for : Str → Str
baggage_for variant = deep_routing_key ++ b'=' ∷ variant

-- The cases of `runTrafficProbes`.
unfoldable pub traffic_cases : List TrafficCase
traffic_cases =
    case_of (baggage_for deep_variant_a) deep_variant_a
    ∷ case_of (baggage_for deep_variant_b) deep_variant_b
    ∷ case_of [] deep_variant_a
    ∷ []

abbrev pub variant_in : Str → Str
variant_in body =
    if contains body deep_variant_a
    then deep_variant_a
    else if contains body deep_variant_b
    then deep_variant_b
    else []

-- The verdict on a case by the status and the body of its response.
unfoldable pub judge : (code body : Str) → TrafficCase → TrafficCase
judge code body tc =
    if str_eq code (codes "200")
    then record tc { got_variant = variant_in body; passed = str_eq (variant_in body) tc.expected }
    else record tc { passed = false }

-- `cases[idx]`, where there is one.
abbrev pub update_at : ℕ → (TrafficCase → TrafficCase) → List TrafficCase → List TrafficCase
update_at n f [] = []
update_at zero f (tc ∷ tcs) = f tc ∷ tcs
update_at (suc n) f (tc ∷ tcs) = tc ∷ update_at n f tcs

abbrev at_index : Option ℕ → (TrafficCase → TrafficCase) → List TrafficCase → List TrafficCase
at_index none f tcs = tcs
at_index (some n) f tcs = update_at n f tcs

-- `scan_index` is `fmt.Sscanf` with `%d`: the index, 0 where it fails, and `none` for a negative one.
module _ (scan_index : Str → Option ℕ) where
  abbrev of_fields : Str → Str × Option Str → List TrafficCase → List TrafficCase
  of_fields index (code, none) tcs = tcs
  of_fields index (code, some body) tcs = at_index (scan_index index) (judge code body) tcs

  abbrev of_rest : Str × Option Str → List TrafficCase → List TrafficCase
  of_rest (index, none) tcs = tcs
  of_rest (index, some fields) tcs = of_fields index (cut_byte b':' fields) tcs

  unfoldable pub parse_line : Str → List TrafficCase → List TrafficCase
  unfolding trim_prefix cut_byte judge
  parse_line line tcs =
      if has_prefix line (codes "CASE-")
      then of_rest (cut_byte b':' (trim_prefix line (codes "CASE-"))) tcs
      else tcs

  -- `parseTrafficLogs`
  unfoldable pub parse_traffic_logs : List Str → List TrafficCase → List TrafficCase
  unfolding parse_line
  parse_traffic_logs [] tcs = tcs
  parse_traffic_logs (line ∷ lines) tcs = parse_traffic_logs lines (parse_line line tcs)

-- `allPass`
abbrev pub all_pass : List TrafficCase → Bool
all_pass tcs = all (λ tc. tc.passed) tcs
