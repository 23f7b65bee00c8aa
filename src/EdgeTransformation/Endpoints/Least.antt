-- ===== src/EdgeTransformation/Endpoints/Least.antt =====
-- `firstReadyEndpoint` finds the least of the ready addresses.
use mathlib.Core.List.{Memᴰ}
use route_prism.Common.{
  ◌≡◌, false, ◌||◌, List, [], ◌∷◌, ◌++◌, if◌then◌else◌, All, Str, str_ltb, is_empty,
}
use route_prism.EdgeTransformation.Endpoints.{Endpoint, EndpointSlice, is_ready}

-- The addresses of the ready endpoints of the IPv4 slices.
abbrev pub ready_in : List Endpoint → List Str
ready_in [] = []
ready_in (e ∷ es) = (if is_ready e then e.addresses else []) ++ ready_in es

abbrev pub ready_addresses : List EndpointSlice → List Str
ready_addresses [] = []
ready_addresses (s ∷ ss) = (if s.ipv4 then ready_in s.endpoints else []) ++ ready_addresses ss

-- `best` is none of the addresses, or the least of `best` before and the addresses.
abbrev pub least : Str → List Str → Str
least best [] = best
least best (a ∷ as') = least (if is_empty best || str_ltb a best then a else best) as'

-- An address that is listed and than which no listed one is less.
pub record IsLeast (ip : Str) (xs : List Str) : Type 0 where
  pub listed : Memᴰ ip xs
  pub not_above : All (λ a. str_ltb a ip ≡ false) xs
