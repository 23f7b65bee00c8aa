-- ===== src/Verify/Traffic/Misrouted.antt =====
-- What the traffic cases do not notice.
use route_prism.Common.{
  ℕ, ◌≡◌, refl, Bool, true, false, ◌||◌, ◌&&◌, Option, some, List, [], ◌∷◌, ◌++◌, Str, codes,
  str_eq, contains,
}
use route_prism.Preflight.Version.{cut_byte, trim_prefix}
use route_prism.Verify.Traffic.{
  deep_variant_a, deep_variant_b, baggage_for, traffic_cases, variant_in, judge, parse_line,
  parse_traffic_logs, all_pass,
}

or_true : (a : Bool) → (a || true) ≡ true
or_true true = refl
or_true false = refl

contains-before : (s t sub : Str) → contains t sub ≡ true → contains (s ++ t) sub ≡ true
contains-before [] t sub h = h
contains-before (c ∷ s) t sub h = rw (contains-before s t sub h) (or_true _)

-- Some text stands around a header for the variant a.
echoes_a :
    (before after : Str)
    → variant_in (before ++ (baggage_for deep_variant_a ++ after)) ≡ deep_variant_a
echoes_a before after =
    let found : contains (before ++ (baggage_for deep_variant_a ++ after)) deep_variant_a ≡ true =
      contains-before before (baggage_for deep_variant_a ++ after) deep_variant_a refl in
    rw found refl

two_tests : (a b : Bool) → (a && (b && true)) ≡ (a && b)
two_tests true true = refl
two_tests true false = refl
two_tests false b = refl

-- The log of the three requests, where each is answered with the status 200.
abbrev pub log_lines : (first second third : Str) → List Str
log_lines first second third =
    (codes "CASE-0:200:" ++ first)
    ∷ (codes "CASE-1:200:" ++ second)
    ∷ (codes "CASE-2:200:" ++ third)
    ∷ []

-- With all statuses 200 and the indices of the log read as they are written: where the body of the
-- first response repeats the header of its request, as the backend's field `baggage` does, the first
-- case passes whatever else the body says, so whichever backend answered; whether all cases pass
-- depends on the other two bodies alone.
pub parse_traffic_logs-echoed :
    (scan_index : Str → Option ℕ) (before after body_b body_none : Str)
    → scan_index (codes "0") ≡ some 0
    → scan_index (codes "1") ≡ some 1
    → scan_index (codes "2") ≡ some 2
    → all_pass (
        parse_traffic_logs scan_index
          (log_lines (before ++ (baggage_for deep_variant_a ++ after)) body_b body_none)
          traffic_cases)
      ≡ (str_eq (variant_in body_b) deep_variant_b && str_eq (variant_in body_none) deep_variant_a)
unfolding parse_traffic_logs parse_line judge trim_prefix cut_byte traffic_cases
parse_traffic_logs-echoed scan_index before after body_b body_none zeroth first second =
    rw (zeroth, first, second) (rw (echoes_a before after) (two_tests _ _))
