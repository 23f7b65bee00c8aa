-- ===== src/EdgeTransformation/Endpoints.antt =====
-- `firstReadyEndpoint` over the EndpointSlices of a Service.
pub mod Least
use route_prism.Common.{
  ℕ, Bool, true, false, ◌||◌, Option, none, some, List, [], ◌∷◌, if◌then◌else◌, ◌==◌, Str, str_ltb,
  is_empty,
}

pub record Endpoint : Type 0 where
  pub ready : Option Bool
  pub addresses : List Str

-- `ipv4` says that the address type is IPv4; a port may be missing.
pub record EndpointSlice : Type 0 where
  pub ipv4 : Bool
  pub ports : List (Option ℕ)
  pub endpoints : List Endpoint

-- The first port that is given, or 0.
abbrev pub slice_port : List (Option ℕ) → ℕ
slice_port [] = 0
slice_port (none ∷ ps) = slice_port ps
slice_port (some p ∷ ps) = p

abbrev pub is_ready : Endpoint → Bool
is_ready e = elim e.ready [ none ↦ true | some b ↦ b ]

-- `bestIP` and `bestPort`
abbrev pub take_address : Str × ℕ → ℕ → Str → Str × ℕ
take_address best port a = if is_empty best.0 || str_ltb a best.0 then (a, port) else best

pub scan_addresses : Str × ℕ → ℕ → List Str → Str × ℕ
scan_addresses best port [] = best
scan_addresses best port (a ∷ as') = scan_addresses (take_address best port a) port as'

pub scan_endpoints : Str × ℕ → ℕ → List Endpoint → Str × ℕ
unfolding scan_addresses
scan_endpoints best port [] = best
scan_endpoints best port (e ∷ es) =
    scan_endpoints (if is_ready e then scan_addresses best port e.addresses else best) port es

pub scan_slices : Str × ℕ → List EndpointSlice → Str × ℕ
unfolding scan_endpoints
scan_slices best [] = best
scan_slices best (s ∷ ss) =
    scan_slices (if s.ipv4 then scan_endpoints best (slice_port s.ports) s.endpoints else best) ss

-- `firstReadyEndpoint` after the list call: the address, empty for none, and the port.
unfoldable pub first_ready_endpoint : List EndpointSlice → Str × ℕ
unfolding scan_slices
first_ready_endpoint slices =
    let (ip, port) = scan_slices ([], 0) slices in (ip, if port == 0 then 80 else port)
