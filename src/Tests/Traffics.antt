-- ===== src/Tests/Traffics.antt =====
-- The traffic cases of the deep probe.
use route_prism.Common.{
  ◌≡◌, refl, true, some, ◌++◌, ◌&&◌, ℕ, Option, Str, if◌then◌else◌, str_eq, codes,
}
use route_prism.Preflight.Version.{cut_byte, trim_prefix}
use route_prism.Verify.Traffic.{
  baggage_for, deep_variant_a, deep_variant_b, traffic_cases, variant_in, judge, parse_line,
  parse_traffic_logs, all_pass,
}
use route_prism.Verify.Traffic.Misrouted.{log_lines, parse_traffic_logs-echoed}

abbrev scan_index : Str → Option ℕ
scan_index s =
    if str_eq s (codes "0") then some 0 else if str_eq s (codes "1") then some 1 else some 2

-- The backend b has answered the request for the variant a.
abbrev identity_b : Str
identity_b = codes "{name:verify-variant-b,baggage:"

abbrev body_b : Str
body_b = codes "{name:verify-variant-b}"

abbrev body_a : Str
body_a = codes "{name:verify-variant-a}"

parse_traffic_logs-echoed_example :
    all_pass (
      parse_traffic_logs scan_index
        (log_lines (identity_b ++ (baggage_for deep_variant_a ++ codes "}")) body_b body_a)
        traffic_cases)
    ≡ (str_eq (variant_in body_b) deep_variant_b && str_eq (variant_in body_a) deep_variant_a)
parse_traffic_logs-echoed_example =
    parse_traffic_logs-echoed scan_index identity_b (codes "}") body_b body_a refl refl refl

all_passed :
    all_pass (
      parse_traffic_logs scan_index
        (log_lines (identity_b ++ (baggage_for deep_variant_a ++ codes "}")) body_b body_a)
        traffic_cases)
    ≡ true
unfolding parse_traffic_logs parse_line judge trim_prefix cut_byte traffic_cases
all_passed = refl
